-- ===== src/VmAreas/Agree.antt =====
-- vm.c and vm_all_process.c: what the two show of the same process.
use lkms.Prelude.{
  ℕ, suc, ◌+◌, ◌<◌, ◌^◌, ◌%◌, ◌≡◌, ◌≢◌, refl, ap, arith, ==-self, ==_of_ne, none, some, List, [],
  ◌∷◌, ◌++◌, map, All, pos, add32, length,
}
use lkms.Kernel.Run.{ok, ◌>>=◌}
use lkms.Kernel.Paging.{Vma}
use lkms.VmAreas.{Mm, Task, Output, walk_areas, vm_area, config_init, config_init_all}

-- The loop shows each area once, and counts it.
walk_areas-counts :
    (vs : List Vma) (n : ℕ)
    → n < 2 ^ 32
    → walk_areas vs n ≡ (map (λ v. (v.vm_start, v.vm_end)) vs, (n + length vs) % 2 ^ 32)
unfolding walk_areas
walk_areas-counts [] n h = ap (λ k. ([], k)) {x = n} {y = (n + 0) % 2 ^ 32} (omega arith)
walk_areas-counts (v ∷ vs) n h =
    let next = walk_areas-counts vs (add32 n 1) (omega arith) in
    let same : (add32 n 1 + length vs) % 2 ^ 32 ≡ (n + suc (length vs)) % 2 ^ 32 = omega arith in
    rw (next, same) refl

-- What is printed of a process: its pid and its parent's, the bounds of its areas one by one, how
-- many there are, and its segments.
abbrev pub shown_of : Task → Mm → Output
shown_of ts mm = record {
  found = some (ts.pid, ts.parent_pid);
  areas = some (record {
    bounds = map (λ v. (v.vm_start, v.vm_end)) mm.mmap;
    mm_count = mm.mm_count;
    counted = length mm.mmap % 2 ^ 32;
    code = (mm.start_code, mm.end_code);
    data_segment = (mm.start_data, mm.end_data);
    stack = mm.start_stack;
  });
  sorry = 0;
}

config_init-shows :
    (ts : Task) (mm : Mm)
    → ts.mm ≡ some mm
    → config_init ts.pid (some ts) ≡ ok (pos 0, shown_of ts mm)
unfolding config_init vm_area
config_init-shows ts mm e =
    let count : (0 + length mm.mmap) % 2 ^ 32 ≡ length mm.mmap % 2 ^ 32 = omega arith in
    rw (==-self ts.pid, e, ◌>>=◌, walk_areas-counts mm.mmap 0 (omega arith), count) refl

config_init_all-misses :
    (tasks : List Task)
    → All (λ t. t.pid ≢ 0) tasks
    → config_init_all tasks
      ≡ ok (pos 0, record { found = none; areas = none; sorry = length tasks })
unfolding config_init_all
config_init_all-misses [] others = refl
config_init_all-misses (t ∷ ts) (other, others) =
    rw (==_of_ne t.pid 0 other, config_init_all-misses ts others) refl

-- Where none of the tasks that for_each_process visits has the pid 0 (it leaves `init_task` out): of one
-- of them that has memory, vm.c, asked for its pid, shows its pid and its parent's, the bounds of each
-- area, how many areas there are (as a 32-bit pattern), and the segments; vm_all_process.c, whose pid
-- is always 0, shows neither this task nor another, but ends without a fault, returns 0, and prints for
-- every task the line that the process is not found.
pub config_init-config_init_all :
    (before : List Task) (ts : Task) (after : List Task) (mm : Mm)
    → All (λ t. t.pid ≢ 0) (before ++ ts ∷ after)
    → ts.mm ≡ some mm
    → (config_init ts.pid (some ts) ≡ ok (pos 0, shown_of ts mm))
      × (config_init_all (before ++ ts ∷ after)
          ≡ ok
              (pos 0, record { found = none; areas = none; sorry = length (before ++ ts ∷ after) }))
config_init-config_init_all before ts after mm others e =
    (config_init-shows ts mm e, config_init_all-misses (before ++ ts ∷ after) others)
