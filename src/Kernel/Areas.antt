-- ===== src/Kernel/Areas.antt =====
-- The pages of a process as the modules' loops go through them: from the start of each area by
-- steps of the page size up to the area's end, and the page at the end is one of them.
use lkms.Prelude.{
  ℕ, zero, suc, ◌+◌, ◌-◌, ◌/◌, ◌^◌, ◌≤◌, ◌<◌, ◌≡◌, List, [], ◌∷◌, ◌++◌, page_size, arith, length,
  length-append,
}
use lkms.Kernel.Paging.{Vma}

-- The addresses of `n` pages from `a` on.
abbrev pub page_addrs : ℕ → ℕ → List ℕ
page_addrs a zero = []
page_addrs a (suc n) = a ∷ page_addrs (a + page_size) n

-- How many pages such a loop from `a` to `b` visits.
abbrev pub pages : ℕ → ℕ → ℕ
pages a b = (b - a) / page_size + 1

-- The area is not reversed, ends more than a page below the top of the address space, and the fuel
-- covers its pages.
pub record Fits (fuel : ℕ) (v : Vma) : Type 0 where
  pub ordered : v.vm_start ≤ v.vm_end
  pub low : v.vm_end + page_size < 2 ^ 64
  pub fuelled : pages v.vm_start v.vm_end < fuel

abbrev pub total_pages : List Vma → ℕ
total_pages [] = 0
total_pages (v ∷ vs) = pages v.vm_start v.vm_end + total_pages vs

abbrev pub area_addrs : List Vma → List ℕ
area_addrs [] = []
area_addrs (v ∷ vs) = page_addrs v.vm_start (pages v.vm_start v.vm_end) ++ area_addrs vs

pub length-page_addrs : (a n : ℕ) → length (page_addrs a n) ≡ n
length-page_addrs a zero = omega arith
length-page_addrs a (suc n) = omega (arith, length-page_addrs (a + page_size) n)

pub length-area_addrs : (vs : List Vma) → length (area_addrs vs) ≡ total_pages vs
length-area_addrs [] = omega arith
length-area_addrs (v ∷ vs) = omega (
  arith,
  length-append (page_addrs v.vm_start (pages v.vm_start v.vm_end)) (area_addrs vs),
  length-page_addrs v.vm_start (pages v.vm_start v.vm_end),
  length-area_addrs vs,
)
