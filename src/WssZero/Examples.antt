-- ===== src/WssZero/Examples.antt =====
-- wssdemo3.c at concrete data: an instance of each theorem.
use lkms.Prelude.{◌≡◌, refl, true, false, some, [], ◌∷◌, arith, ltb, if◌then◌else◌, replicate}
use lkms.Kernel.Run.{Ends}
use lkms.Kernel.Paging.{Ptes}
use lkms.Kernel.Flat.{FlatPte, flat_paging}
use lkms.WssZero.{State, Task, PageFault, Event, page_fault, start}
use lkms.WssZero.Prints.{IsUser, HasMm, start-prints_zero}

abbrev mapped : FlatPte
mapped = record { is_present = true; is_protnone = false }

abbrev bare : FlatPte
bare = record { is_present = false; is_protnone = false }

-- Pages 0 and 1 are present.
abbrev entries : Ptes flat_paging
entries p = if ltb p 3 then mapped else bare

abbrev process : Task flat_paging
process = record { pid = 7; mm = some 4; mmap = record { vm_start = 0; vm_end = 8192 } ∷ [] }

abbrev loaded : State flat_paging
loaded = record { ptes = entries; wss = 0; hooked = false }

-- Each second the process touches page 1.
abbrev touched : PageFault flat_paging
touched = record { task = some process; addr = 4096; pidd = 7 }

abbrev touch : Event flat_paging
touch = page_fault touched

process-IsUser : IsUser flat_paging 4 process
process-IsUser = record { mm = 4; has_mm = refl; fit = omega arith }

touch-HasMm : HasMm flat_paging touch
touch-HasMm ts e = (4, cc)

start-prints_zero_example :
    Ends
      (λ (out, t). out ≡ replicate 10 0)
      (start flat_paging 4 7 (some process) (λ i. (process, touch ∷ [])) loaded)
start-prints_zero_example =
    start-prints_zero flat_paging 4 7 (λ i. (process, touch ∷ [])) (λ i. process-IsUser)
      (λ i. (touch-HasMm, tt)) process loaded refl
