-- ===== src/SchedStats.antt =====
-- assg4/assg4.c: scheduler statistics, fed by four hooks that the patched assg4/core.c calls.
-- The hooks are pointers that are NULL until the module is loaded. `hk_context_counter`,
-- `hk_current_pc`, `hk_rq_size`, `hk_per_pid_stats`, `init`, `cleanup`, `proc_readings` and
-- `proc_readings2` model the functions of that name; `schedule_hooks` and `switch_hooks` model the
-- lines that core.c has for the hooks.
mod Arrays
mod Switches
mod Queues
mod Load
mod Examples
use lkms.Prelude.{
  ℕ, zero, suc, ◌==◌, if◌then◌else◌, Bool, true, false, Option, none, some, List, [], ◌∷◌, ℤ, pos,
  neg, add64, get_elem?, set,
}
use lkms.Kernel.Run.{Run, ok, fault, ◌>>=◌}

-- `a[i]++` on an array of unsigned long; an index past its end is a fault.
pub bump : List ℕ → ℕ → Run (List ℕ)
bump xs i = elim (get_elem? xs i) [ none ↦ fault | some v ↦ ok (set xs i (add64 v 1)) ]

-- `a[i] = v`
pub assign : List ℕ → ℕ → ℕ → Run (List ℕ)
assign xs i v = elim (get_elem? xs i) [ none ↦ fault | some _ ↦ ok (set xs i v) ]

-- What the hooks read of a `struct task_struct`.
pub record Task : Type 0 where
  pub pid : ℕ
  pub prio : ℕ
  pub static_prio : ℕ
  pub normal_prio : ℕ
  pub rt_priority : ℕ
  pub sum_exec_runtime : ℕ
  pub nr_migrations : ℕ

-- What core.c passes on of a `struct rq`.
pub record Rq : Type 0 where
  pub cpu : ℕ
  pub nr_running : ℕ
  pub nr_switches : ℕ

-- The module's variables, the hooks (set or NULL), and which /proc entries exist.
pub record Stats : Type 0 where
  pub pid : ℕ
  pub sched_counter : List ℕ
  pub per_pid_switch_counter : List ℕ
  pub grqsize : List ℕ
  pub switches : List ℕ
  pub gcpu : ℕ
  pub curr_cpu : ℕ
  pub pcvalue : ℕ
  pub prio1 : ℕ
  pub prio2 : ℕ
  pub prio3 : ℕ
  pub prio4 : ℕ
  pub migration : ℕ
  pub tot : ℕ
  pub total_time : ℕ
  pub context_counter : Bool
  pub rq_size : Bool
  pub per_pid_stats : Bool
  pub current_pc : Bool
  pub proc_file : Bool
  pub proc_file2 : Bool

pub hk_context_counter : (next prev : Task) → (cpu switchh : ℕ) → Stats → Run Stats
hk_context_counter next prev cpu switchh s = bump s.sched_counter cpu >>= λ counters.
    let s1 = record s { sched_counter = counters } in
    let counted = bump s.per_pid_switch_counter cpu >>= λ own.
    ok (record s1 { per_pid_switch_counter = own; curr_cpu = cpu }) in
    if next.pid == s.pid then counted else ok s1

-- `current` is the task that runs.
pub hk_current_pc : (current : Task) → (pc : ℕ) → Stats → Stats
hk_current_pc current pc s = if current.pid == s.pid then record s { pcvalue = pc } else s

pub hk_rq_size : (cpu rqsize nr_switches : ℕ) → Stats → Run Stats
hk_rq_size cpu rqsize nr_switches s = assign s.grqsize cpu rqsize >>= λ sizes.
    assign s.switches cpu nr_switches >>= λ counts.
    ok (record s { gcpu = cpu; grqsize = sizes; switches = counts })

pub hk_per_pid_stats : (prev : Task) → Stats → Stats
hk_per_pid_stats prev s =
    if prev.pid == s.pid
    then record s {
      tot = prev.sum_exec_runtime;
      migration = prev.nr_migrations;
      prio1 = prev.prio;
      prio2 = prev.static_prio;
      prio3 = prev.normal_prio;
      prio4 = prev.rt_priority;
      total_time = prev.sum_exec_runtime;
    }
    else s

-- The hooks at the start of `__schedule`.
pub schedule_hooks : Rq → (prev : Task) → Stats → Run Stats
schedule_hooks rq prev s =
    (if s.rq_size then hk_rq_size rq.cpu rq.nr_running rq.nr_switches s else ok s) >>= λ t.
    ok (if t.per_pid_stats then hk_per_pid_stats prev t else t)

-- The hooks at the end of `context_switch`, which passes `prev` first; `current` runs by then.
-- `rq` is the variable on the stack frame, as it stands after switch_to: that of the CPU where the task
-- that goes on running called schedule.
pub switch_hooks : Rq → (prev next current : Task) → (pc : ℕ) → Stats → Run Stats
switch_hooks rq prev next current pc s =
    (if s.context_counter then hk_context_counter prev next rq.cpu rq.nr_switches s else ok s)
    >>= λ t. ok (if t.current_pc then hk_current_pc current pc t else t)

-- What /proc/my_proc_file prints, and /proc/my_proc_file2 line by line.
pub proc_readings : Stats → ℕ
proc_readings s = s.pcvalue

pub proc_readings2 : Stats → List ℕ × List ℕ × List ℕ × ℕ
proc_readings2 s = (s.switches, s.sched_counter, s.grqsize, s.migration)

-- `made` and `made2`: whether the two `proc_create` succeed.
pub init : (made made2 : Bool) → Stats → ℤ × Stats
init made made2 s =
    let s1 = record s { proc_file = made } in
    let s2 = record s1 { proc_file2 = made2 } in
    if made
    then if made2
      then (pos 0, record s2 { context_counter = true; rq_size = true; per_pid_stats = true })
      else (neg 1, s2)
    else (neg 1, s1)

pub cleanup : Stats → Stats
cleanup s = record s {
  rq_size = false;
  context_counter = false;
  per_pid_stats = false;
  proc_file = false;
  proc_file2 = false;
}
