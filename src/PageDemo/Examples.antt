-- ===== src/PageDemo/Examples.antt =====
-- ex8, the theorems at concrete data.
use lkms.Prelude.{ℕ, ◌+◌, ◌≡◌, refl, Option, some, arith}
use lkms.Kernel.Paging.{descend, no_pgd}
use lkms.Kernel.Flat.{flat_paging}
use lkms.PageDemo.Agree.{both, Finds, Misses, Misses-no_pgd, second-shows_first}

abbrev phys : ℕ → ℕ
phys a = a + 7

-- A process of six pages, which has the page at 8192 and not the one at 40960.
abbrev process : Option (Option ℕ)
process = some (some 6)

finds : Finds flat_paging phys phys process 8192 3
unfolding descend
finds = (6, refl, refl, omega arith)

finds2 : Finds flat_paging phys phys process 4096 2
unfolding descend
finds2 = (6, refl, refl, omega arith)

no_directory : descend flat_paging 6 40960 ≡ no_pgd
unfolding descend
no_directory = refl

misses : Misses flat_paging phys phys process 40960
misses = Misses-no_pgd flat_paging phys phys 6 40960 no_directory

second-shows_first_example :
    (both flat_paging phys phys process process 8192 4096 process process).0
    ≡ (both flat_paging phys phys process process 8192 4096 process process).1
second-shows_first_example =
    second-shows_first flat_paging phys phys process process process process 8192 4096 3 2
      (omega arith) (omega arith) finds finds2 finds finds2
