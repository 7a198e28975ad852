-- ===== src/WssNull/Examples.antt =====
-- wss.c at concrete data: an instance of each theorem.
use lkms.Prelude.{◌≡◌, refl, true, false, some, [], ◌∷◌, arith, ltb, if◌then◌else◌, pos}
use lkms.Kernel.Run.{ok, fault}
use lkms.Kernel.Paging.{Ptes}
use lkms.Kernel.Areas.{area_addrs}
use lkms.Kernel.Flat.{FlatPte, flat_paging}
use lkms.WssNull.{State, Task, wss_marking}
use lkms.WssNull.Marking.{any_resident, wss_marking-decides}

abbrev mapped : FlatPte
mapped = record { is_present = true; is_protnone = false }

abbrev bare : FlatPte
bare = record { is_present = false; is_protnone = false }

-- Pages 0 and 1 are present.
abbrev entries : Ptes flat_paging
entries p = if ltb p 3 then mapped else bare

abbrev process : Task flat_paging
process = record { pid = 7; mm = some 4; mmap = record { vm_start = 4096; vm_end = 8192 } ∷ [] }

abbrev loaded : State flat_paging
loaded = record { ptes = entries; wss_size = 0; hooked = false }

wss_marking-decides_example : wss_marking flat_paging 3 (some process) loaded ≡ (
    if any_resident flat_paging entries 4 (area_addrs process.mmap)
    then fault
    else ok (pos 0, loaded))
wss_marking-decides_example = wss_marking-decides flat_paging 3 process 4 loaded refl (omega arith)
