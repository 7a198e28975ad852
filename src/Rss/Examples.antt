-- ===== src/Rss/Examples.antt =====
-- rss.c at concrete inputs: tests of the definitions, and an instance of each theorem.
use lkms.Prelude.{
  List, length, get_elem?, ◌≡◌, refl, true, false, some, [], ◌∷◌, arith, ltb, if◌then◌else◌,
}
use lkms.Kernel.Run.{Ends, ok}
use lkms.Kernel.Paging.{Ptes, Vma, descend}
use lkms.Kernel.Flat.{flat_paging}
use lkms.Rss.{Counters, Snapshot, page_walk, follow_pte, start, visit, rss_assi2, walk_areas}
use lkms.Rss.Resetting
use lkms.Rss.Delayed
use lkms.Rss.Versions.{running, zeros, start-running, start-resident}

-- Pages 0 to 2 are present, page 3 and what follows is not.
abbrev entries : Ptes flat_paging
entries p =
    if ltb p 4
    then record { is_present = true; is_protnone = false }
    else record { is_present = false; is_protnone = false }

abbrev two_areas : List Vma
two_areas = record { vm_start = 0; vm_end = 4096 } ∷ record { vm_start = 8192; vm_end = 16384 } ∷ []

-- A process of six pages.
abbrev process : Snapshot flat_paging
process = record { mm = some 6; mmap = two_areas; ptes = entries }

abbrev zero_counters : Counters
zero_counters = record { virt_page_count = 0; phy_page_count = 0 }

-- Two areas of one and two pages are counted as two and three.
one_pass :
    rss_assi2 flat_paging 9 (some process) zero_counters
    ≡ ok (record { virt_page_count = 5; phy_page_count = 3 })
unfolding rss_assi2 walk_areas page_walk visit follow_pte descend
one_pass = refl

start-running_example :
    (out : List Counters) × (length out ≡ 21)
    × (Resetting.start flat_paging 9 7 (some 7) (λ _. process) ≡ ok out)
    × (start flat_paging 9 7 (some 7) (λ _. process) ≡ ok (running zeros out))
start-running_example =
    start-running flat_paging 9 (λ _. process) (λ _. 6) (λ i. refl) (λ i. omega arith) 7

start-resident_example :
    Ends
      (λ out.
        (length out ≡ 21)
        × (get_elem? out 20 ≡ some (record { virt_page_count = 5; phy_page_count = 3 })))
      (Resetting.start flat_paging 9 7 (some 7) (λ _. process))
    × Ends
        (λ out.
          (length out ≡ 51)
          × (get_elem? out 50 ≡ some (record { virt_page_count = 5; phy_page_count = 3 })))
        (Delayed.start flat_paging 9 7 (some 7) (λ _. process))
unfolding follow_pte descend
start-resident_example =
    start-resident flat_paging 9 (λ _. process) (λ _. 6) (λ i. refl) (λ i. omega arith) 7 20 50
      (omega arith) (omega arith)
