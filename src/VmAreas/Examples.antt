-- ===== src/VmAreas/Examples.antt =====
-- vm.c and vm_all_process.c at concrete data: an instance of each theorem.
use lkms.Prelude.{none, ◌≡◌, refl, arith, some, [], ◌∷◌, pos}
use lkms.Kernel.Run.{ok}
use lkms.VmAreas.{Mm, Task, config_init, config_init_all}
use lkms.VmAreas.Agree.{shown_of, config_init-config_init_all}

abbrev memory : Mm
memory = record {
  mmap =
      record { vm_start = 4096; vm_end = 8192 } ∷ record { vm_start = 16384; vm_end = 20480 } ∷ [];
  mm_count = 1;
  start_code = 4096;
  end_code = 5000;
  start_data = 16384;
  end_data = 17000;
  start_stack = 20000;
}

abbrev init_process : Task
init_process = record { pid = 1; parent_pid = 0; mm = some memory }

abbrev shell : Task
shell = record { pid = 7; parent_pid = 1; mm = some memory }

config_init-config_init_all_example :
    (config_init 7 (some shell) ≡ ok (pos 0, shown_of shell memory))
    × (config_init_all (init_process ∷ shell ∷ [])
        ≡ ok (pos 0, record { found = none; areas = none; sorry = 2 }))
config_init-config_init_all_example =
    config_init-config_init_all (init_process ∷ []) shell [] memory (omega arith) refl
