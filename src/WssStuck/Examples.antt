-- ===== src/WssStuck/Examples.antt =====
-- wssdemo.c at concrete data: a test, and an instance of each theorem.
use lkms.Prelude.{◌≡◌, refl, true, false, some, [], ◌∷◌, arith, ltb, if◌then◌else◌, length}
use lkms.Kernel.Run.{Ends}
use lkms.Kernel.Paging.{Ptes, descend}
use lkms.Kernel.Flat.{FlatPte, flat_paging}
use lkms.WssZero.{State, Task, PageFault, Event, page_fault, kernel_sets}
use lkms.WssZero.Prints.{IsUser, HasMm}
use lkms.WssStuck.{start, sleep}
use lkms.WssStuck.Hides.{Hides, start-Hides}
use lkms.WssStuck.Counts.{AtHidden, SameFlags, faults, sleep_counts_each}

abbrev mapped : FlatPte
mapped = record { is_present = true; is_protnone = false }

abbrev marked : FlatPte
marked = record { is_present = false; is_protnone = true }

-- Page 0 is present, page 1 has been marked.
abbrev entries : Ptes flat_paging
entries p = if ltb p 2 then mapped else marked

abbrev process : Task flat_paging
process = record { pid = 7; mm = some 4; mmap = record { vm_start = 0; vm_end = 8192 } ∷ [] }

abbrev loaded : State flat_paging
loaded = record { ptes = entries; wss = 0; hooked = true }

abbrev touched : PageFault flat_paging
touched = record { task = some process; addr = 4096; pidd = 7 }

abbrev touch : Event flat_paging
touch = page_fault touched

process-IsUser : IsUser flat_paging 4 process
process-IsUser = record { mm = 4; has_mm = refl; fit = omega arith }

touch-HasMm : HasMm flat_paging touch
touch-HasMm ts e = (4, cc)

touched-AtHidden : AtHidden flat_paging 7 entries touched
unfolding descend
touched-AtHidden = record {
  ts = process;
  found = refl;
  own = refl;
  mm = 4;
  has_mm = refl;
  pte = 2;
  walk = refl;
  not_null = omega arith;
  hidden = refl;
  marked = refl;
}

-- The kernel maps page 0 anew.
abbrev remap : Event flat_paging
remap = kernel_sets 1 mapped

-- Entry 2 is hidden at the start.
start-Hides_example :
    Ends
      (λ (out, t). (length out ≡ 60) × Hides flat_paging 2 loaded t)
      (start flat_paging 4 7 (some process) (λ i. (process, touch ∷ remap ∷ [])) loaded)
start-Hides_example =
    start-Hides flat_paging 2 4 7 (λ i. (process, touch ∷ remap ∷ [])) (λ i. process-IsUser)
      (λ i. (touch-HasMm, (tt, tt))) (λ i. (tt, (λ e. absurd (omega arith), tt))) process loaded
      refl

-- Two faults at the same page.
sleep_counts_each_example :
    Ends
      (λ t. (t.wss ≡ 2) × SameFlags flat_paging entries t.ptes)
      (sleep flat_paging 7 (faults flat_paging (touched ∷ touched ∷ [])) loaded)
sleep_counts_each_example =
    sleep_counts_each flat_paging 7 (touched ∷ touched ∷ []) loaded refl (omega arith)
      (touched-AtHidden, (touched-AtHidden, tt))
