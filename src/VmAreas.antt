-- ===== src/VmAreas.antt =====
-- vm.c and vm_all_process.c: print the areas of a process's memory. vm.c looks the process up by
-- its pid, vm_all_process.c goes through all processes.
-- `vm_area` models the function of that name, which both files write alike, and `config_init` and
-- `config_init_all` the `config_init` of the two.
mod Agree
mod Examples
use lkms.Prelude.{ℕ, ◌==◌, if◌then◌else◌, Option, none, some, List, [], ◌∷◌, ℤ, pos, add32, suc}
use lkms.Kernel.Run.{Run, ok, fault, ◌>>=◌}
use lkms.Kernel.Paging.{Vma}

-- The fields of a `struct mm_struct` that are read, and of a task; a kernel thread has no `mm`.
pub record Mm : Type 0 where
  pub mmap : List Vma
  pub mm_count : ℕ
  pub start_code : ℕ
  pub end_code : ℕ
  pub start_data : ℕ
  pub end_data : ℕ
  pub start_stack : ℕ

pub record Task : Type 0 where
  pub pid : ℕ
  pub parent_pid : ℕ
  pub mm : Option Mm

-- What `vm_area` prints: each area's bounds, the two counts, and the segments.
pub record Shown : Type 0 where
  pub bounds : List (ℕ × ℕ)
  pub mm_count : ℕ
  pub counted : ℕ
  pub code : ℕ × ℕ
  pub data_segment : ℕ × ℕ
  pub stack : ℕ

-- The loop of `vm_area`, with `count` as a 32-bit pattern.
unfoldable pub walk_areas : List Vma → (count : ℕ) → List (ℕ × ℕ) × ℕ
walk_areas [] count = ([], count)
walk_areas (v ∷ vs) count =
    let (rest, n) = walk_areas vs (add32 count 1) in ((v.vm_start, v.vm_end) ∷ rest, n)

unfoldable pub vm_area : Option Task → Run (ℤ × Option Shown)
vm_area none = ok (pos 0, none)
vm_area (some ts) = elim ts.mm [
  | none ↦ fault
  | some mm ↦
      let (bounds, counted) = walk_areas mm.mmap 0 in
      ok (
        pos 0,
        some (record {
          bounds = bounds;
          mm_count = mm.mm_count;
          counted = counted;
          code = (mm.start_code, mm.end_code);
          data_segment = (mm.start_data, mm.end_data);
          stack = mm.start_stack;
        }),
      )
]

-- What is printed: the pids of a process that was found and of its parent, with its areas, and the
-- number of lines that say that a process is not found.
pub record Output : Type 0 where
  pub found : Option (ℕ × ℕ)
  pub areas : Option Shown
  pub sorry : ℕ

-- `ts` is what pid_task finds.
unfoldable pub config_init : (pid : ℕ) → (ts : Option Task) → Run (ℤ × Output)
config_init pid none = ok (pos 0, record { found = none; areas = none; sorry = 1 })
config_init pid (some ts) =
    let shown = vm_area (some ts) >>= λ (r, areas).
    ok (r, record { found = some (ts.pid, ts.parent_pid); areas = areas; sorry = 0 }) in
    if ts.pid == pid then shown else ok (pos 0, record { found = none; areas = none; sorry = 1 })

-- `pid` of vm_all_process.c, which nothing sets: the line that makes it a parameter of the module is
-- commented out.
abbrev pub static_pid : ℕ
static_pid = 0

-- The tasks are those that for_each_process visits, which leaves `init_task` out.
unfoldable pub config_init_all : List Task → Run (ℤ × Output)
config_init_all [] = ok (pos 0, record { found = none; areas = none; sorry = 0 })
config_init_all (ts ∷ tasks) =
    let shown = vm_area (some ts) >>= λ (r, areas).
    ok (r, record { found = some (ts.pid, ts.parent_pid); areas = areas; sorry = 0 }) in
    let rest = config_init_all tasks >>= λ (r, out). ok (r, record out { sorry = suc out.sorry }) in
    if ts.pid == static_pid then shown else rest
