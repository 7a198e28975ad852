-- ===== src/PageDemo/Agree.antt =====
-- ex8: what the two modules show of the same pages.
use lkms.Prelude.{ℕ, ◌≡◌, ◌≢◌, refl, Option, none, some, pos, ==_of_ne}
use lkms.Kernel.Paging.{Paging, Walk, no_pgd, no_pud, no_pmd, entry, descend}
use lkms.PageDemo.{Shown}
use lkms.PageDemo.First
use lkms.PageDemo.Second

abbrev pub first_unset : First.State
first_unset = record { pt = 0; pointer = 0; pointer2 = 0; virt_addr = 0; virt_addr2 = 0 }

abbrev pub second_unset : Second.State
second_unset = record { pt = 0; pt2 = 0 }

module _ (k : Paging) (virt_to_phys pa : ℕ → ℕ) where
  open k use {Mm}

  -- What the two modules show, where the second is loaded after the first.
  abbrev pub both :
      (current current2 : Option (Option Mm))
      → (got got2 : ℕ) → (current3 current4 : Option (Option Mm))
      → (Option Shown × Option Shown) × (Option Shown × Option Shown)
  both current current2 got got2 current3 current4 =
      let (shown, _, s) = First.init k virt_to_phys pa current current2 got got2 first_unset in
      let (shown', _, _) =
        Second.init k virt_to_phys pa current3 current4 s.virt_addr s.virt_addr2 second_unset in
      (shown, shown')

  -- A process in which the walk for the address ends at an entry.
  abbrev pub Finds : Option (Option Mm) → (addr p : ℕ) → Type 0
  Finds current addr p =
      (mm : Mm) × (current ≡ some (some mm)) × (descend k mm addr ≡ entry p) × (p ≢ 0)

  first_walk :
      (current : Option (Option Mm)) (addr p : ℕ) (s : First.State)
      → Finds current addr p
      → First.page_walk k current addr s ≡ (pos 1, record s { pt = p })
  unfolding First.page_walk
  first_walk current addr p s (m, e, d, n) = rw (e, First.page_walk, d, ==_of_ne p 0 n) refl

  second_walk :
      (current : Option (Option Mm)) (addr p : ℕ) (flag : Second.Kind) (s : Second.State)
      → Finds current addr p
      → Second.page_walk k current addr flag s ≡ (pos 1, Second.keep flag p s)
  unfolding Second.page_walk
  second_walk current addr p flag s (m, e, d, n) = rw (e, Second.page_walk, d, ==_of_ne p 0 n) refl

  -- What is shown of an address whose entry is found.
  abbrev pub found : (addr p : ℕ) → Shown
  found addr p = record { virtual_addr = addr; walked = p; phy = virt_to_phys addr; phy2 = pa addr }

  first_kmalloc :
      (current : Option (Option Mm)) (got p : ℕ) (s : First.State)
      → got ≢ 0
      → Finds current got p
      → First.kmalloc_demo k virt_to_phys pa current got s
        ≡ (some (found got p), record s { pt = p; pointer = got; virt_addr = got })
  unfolding First.kmalloc_demo First.allocate_kmalloc
  first_kmalloc current got p s g f =
      rw
        (First.kmalloc_demo, First.allocate_kmalloc, ==_of_ne got 0 g, first_walk current got p _ f)
        refl

  first_vmalloc :
      (current : Option (Option Mm)) (got p : ℕ) (s : First.State)
      → got ≢ 0
      → Finds current got p
      → First.vmalloc_demo k virt_to_phys pa current got s
        ≡ (some (found got p), record s { pt = p; pointer2 = got; virt_addr2 = got })
  unfolding First.vmalloc_demo First.allocate_vmalloc
  first_vmalloc current got p s g f =
      rw
        (First.vmalloc_demo, First.allocate_vmalloc, ==_of_ne got 0 g, first_walk current got p _ f)
        refl

  second_kmalloc :
      (current : Option (Option Mm)) (got p : ℕ) (s : Second.State)
      → got ≢ 0
      → Finds current got p
      → Second.kmalloc_demo k virt_to_phys pa current got s
        ≡ (some (found got p), record s { pt = p })
  unfolding Second.kmalloc_demo Second.keep
  second_kmalloc current got p s g f =
      rw (Second.kmalloc_demo, ==_of_ne got 0 g, second_walk current got p Second.kmalloc s f) refl

  second_vmalloc :
      (current : Option (Option Mm)) (got p : ℕ) (s : Second.State)
      → got ≢ 0
      → Finds current got p
      → Second.vmalloc_demo k virt_to_phys pa current got s
        ≡ (some (found got p), record s { pt2 = p })
  unfolding Second.vmalloc_demo Second.keep
  second_vmalloc current got p s g f =
      rw (Second.vmalloc_demo, ==_of_ne got 0 g, second_walk current got p Second.vmalloc s f) refl

  -- If both pages are there, and in each of the processes the walks end at the same entries, then
  -- the second module shows what the first has shown.
  pub second-shows_first :
      (current current2 current3 current4 : Option (Option Mm)) (got got2 p q : ℕ)
      → got ≢ 0
      → got2 ≢ 0
      → Finds current got p
      → Finds current2 got2 q
      → Finds current3 got p
      → Finds current4 got2 q
      → (both current current2 got got2 current3 current4).0
        ≡ (both current current2 got got2 current3 current4).1
  unfolding First.init Second.init
  second-shows_first current current2 current3 current4 got got2 p q g g2 f f2 f3 f4 =
      rw
        (
          First.init,
          first_kmalloc current got p first_unset g f,
          first_vmalloc current2 got2 q _ g2 f2,
          Second.init,
          second_kmalloc current3 got p second_unset g f3,
          second_vmalloc current4 got2 q _ g2 f4,
        )
        refl

  -- A process in which the walk for the address finds no entry, or NULL.
  abbrev pub Misses : Option (Option Mm) → (addr : ℕ) → Type 0
  Misses current addr =
      (mm : Mm) (p : ℕ) → current ≡ some (some mm) → descend k mm addr ≡ entry p → p ≡ 0

  pub Misses-no_pgd :
      (mm : Mm) (addr : ℕ) → descend k mm addr ≡ no_pgd → Misses (some (some mm)) addr
  Misses-no_pgd mm addr d mm' p c e = cc

  first_miss :
      (current : Option (Option Mm)) (addr : ℕ) (s : First.State)
      → Misses current addr
      → (First.page_walk k current addr s).1 ≡ s
  unfolding First.page_walk
  first_miss none addr s miss = refl
  first_miss (some none) addr s miss = refl
  first_miss (some (some mm)) addr s miss = go (descend k mm addr) refl
    where
      go : (w : Walk) → descend k mm addr ≡ w → (First.page_walk k (some (some mm)) addr s).1 ≡ s
      go no_pgd e = rw (First.page_walk, e) refl
      go no_pud e = rw (First.page_walk, e) refl
      go no_pmd e = rw (First.page_walk, e) refl
      go (entry p) e = rw (First.page_walk, e, miss mm p refl e) refl

  second_miss :
      (current : Option (Option Mm)) (addr : ℕ) (flag : Second.Kind) (s : Second.State)
      → Misses current addr
      → (Second.page_walk k current addr flag s).1 ≡ s
  unfolding Second.page_walk
  second_miss none addr flag s miss = refl
  second_miss (some none) addr flag s miss = refl
  second_miss (some (some mm)) addr flag s miss = go (descend k mm addr) refl
    where
      go :
          (w : Walk)
          → descend k mm addr ≡ w
          → (Second.page_walk k (some (some mm)) addr flag s).1 ≡ s
      go no_pgd e = rw (Second.page_walk, e) refl
      go no_pud e = rw (Second.page_walk, e) refl
      go no_pmd e = rw (Second.page_walk, e) refl
      go (entry p) e = rw (Second.page_walk, e, miss mm p refl e) refl

  -- If both pages are there, and in each of the processes the walk finds the same entry for the
  -- kmalloc page and none for the vmalloc page, then for the vmalloc page the first module shows
  -- the entry of the kmalloc page, and the second shows NULL.
  pub failed_walk-shows_other :
      (current current2 current3 current4 : Option (Option Mm)) (got got2 p : ℕ)
      → got ≢ 0
      → got2 ≢ 0
      → Finds current got p
      → Misses current2 got2
      → Finds current3 got p
      → Misses current4 got2
      → both current current2 got got2 current3 current4
        ≡ ((some (found got p), some (found got2 p)), (some (found got p), some (found got2 0)))
  unfolding First.init First.vmalloc_demo First.allocate_vmalloc Second.init Second.vmalloc_demo
  failed_walk-shows_other current current2 current3 current4 got got2 p g g2 f miss f3 miss4 =
      rw
        (
          First.init,
          first_kmalloc current got p first_unset g f,
          First.vmalloc_demo,
          First.allocate_vmalloc,
          ==_of_ne got2 0 g2,
          first_miss current2 got2 _ miss,
          Second.init,
          second_kmalloc current3 got p second_unset g f3,
          Second.vmalloc_demo,
          ==_of_ne got2 0 g2,
          second_miss current4 got2 Second.vmalloc _ miss4,
        )
        refl

  -- A page that could not be allocated is not shown, neither by the first module nor by the
  -- second; that the kmalloc page is missing leaves what both show of the vmalloc page as it is.
  pub missing_page-not_shown :
      (current current2 current3 current4 : Option (Option Mm)) (got2 q : ℕ)
      → got2 ≢ 0
      → Finds current2 got2 q
      → Finds current4 got2 q
      → both current current2 0 got2 current3 current4
        ≡ ((none, some (found got2 q)), (none, some (found got2 q)))
  unfolding First.init First.kmalloc_demo First.allocate_kmalloc Second.init Second.kmalloc_demo
  missing_page-not_shown current current2 current3 current4 got2 q g2 f2 f4 =
      rw
        (
          First.init,
          First.kmalloc_demo,
          First.allocate_kmalloc,
          first_vmalloc current2 got2 q _ g2 f2,
          Second.init,
          Second.kmalloc_demo,
          second_vmalloc current4 got2 q second_unset g2 f4,
        )
        refl
