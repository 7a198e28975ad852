-- ===== src/WssKeep/Examples.antt =====
-- wss3.c, wss5.c and wss4.c at concrete data: an instance of each theorem.
use lkms.Prelude.{
  ◌≡◌, refl, true, false, some, List, ℕ, [], ◌∷◌, arith, ltb, if◌then◌else◌, length, take,
}
use lkms.Kernel.Run.{Ends}
use lkms.Kernel.Paging.{Ptes}
use lkms.Kernel.Flat.{FlatPte, flat_paging}
use lkms.WssZero.{State, Task, PageFault, Event, page_fault}
use lkms.WssZero.Prints.{IsUser, HasMm}
use lkms.WssKeep.{start3, start4, start5}
use lkms.WssKeep.Prefix.{start3-start5-start4}

abbrev mapped : FlatPte
mapped = record { is_present = true; is_protnone = false }

abbrev bare : FlatPte
bare = record { is_present = false; is_protnone = false }

-- Pages 0 and 1 are present.
abbrev entries : Ptes flat_paging
entries p = if ltb p 3 then mapped else bare

abbrev process : Task flat_paging
process = record { pid = 7; mm = some 4; mmap = record { vm_start = 0; vm_end = 8192 } ∷ [] }

abbrev loaded : State flat_paging
loaded = record { ptes = entries; wss = 0; hooked = false }

-- Each second the process touches page 1.
abbrev touched : PageFault flat_paging
touched = record { task = some process; addr = 4096; pidd = 7 }

abbrev touch : Event flat_paging
touch = page_fault touched

process-IsUser : IsUser flat_paging 4 process
process-IsUser = record { mm = 4; has_mm = refl; fit = omega arith }

touch-HasMm : HasMm flat_paging touch
touch-HasMm ts e = (4, cc)

start3-start5-start4_example :
    (out : List ℕ) × (length out ≡ 40)
    × Ends
        (λ (o, t). o ≡ out)
        (start3 flat_paging 4 7 (some process) (λ i. (process, touch ∷ [])) loaded)
    × Ends
        (λ (o, t). o ≡ take 30 out)
        (start5 flat_paging 4 7 (some process) (λ i. (process, touch ∷ [])) loaded)
    × Ends
        (λ (o, t). o ≡ take 10 out)
        (start4 flat_paging 4 7 (some process) (λ i. (process, touch ∷ [])) loaded)
start3-start5-start4_example =
    start3-start5-start4 flat_paging 4 7 (λ i. (process, touch ∷ [])) (λ i. process-IsUser)
      (λ i. (touch-HasMm, tt)) process loaded refl
