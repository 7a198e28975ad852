-- ===== src/SchedStats/Examples.antt =====
-- assg4/assg4.c, the theorems at concrete data.
use lkms.Prelude.{ℕ, ◌≡◌, refl, true, false, pos, List, [], ◌∷◌, arith, ◌+◌, ◌*◌}
use lkms.Kernel.Run.{fault, Ends}
use lkms.SchedStats.{
  Task, Rq, Stats, hk_context_counter, switch_hooks, schedule_hooks, init, cleanup,
}
use lkms.SchedStats.Switches.{Switch, Tally, run_switches, run_switches-Tally}
use lkms.SchedStats.Queues.{Schedule, Latest, run_schedules, run_schedules-Latest}

abbrev task : ℕ → Task
task n = record {
  pid = n;
  prio = 120;
  static_prio = 120;
  normal_prio = 120;
  rt_priority = 0;
  sum_exec_runtime = 10 * n;
  nr_migrations = n;
}

abbrev rq : ℕ → Rq
rq c = record { cpu = c; nr_running = c + 1; nr_switches = 100 }

abbrev fresh : Stats
fresh = record {
  pid = 7;
  sched_counter = 0 ∷ 0 ∷ 0 ∷ 0 ∷ [];
  per_pid_switch_counter = 0 ∷ 0 ∷ 0 ∷ 0 ∷ [];
  grqsize = 0 ∷ 0 ∷ 0 ∷ 0 ∷ [];
  switches = 0 ∷ 0 ∷ 0 ∷ 0 ∷ [];
  gcpu = 0;
  curr_cpu = 0;
  pcvalue = 0;
  prio1 = 0;
  prio2 = 0;
  prio3 = 0;
  prio4 = 0;
  migration = 0;
  tot = 0;
  total_time = 0;
  context_counter = false;
  rq_size = false;
  per_pid_stats = false;
  current_pc = false;
  proc_file = false;
  proc_file2 = false;
}

abbrev loaded : Stats
loaded = record fresh {
  context_counter = true;
  rq_size = true;
  per_pid_stats = true;
  proc_file = true;
  proc_file2 = true;
}

init_test : init true true fresh ≡ (pos 0, loaded)
unfolding init
init_test = refl

-- The watched process 7 leaves CPU 1, and comes back.
abbrev two_switches : List Switch
two_switches =
    record { rq = rq 1; prev = task 7; next = task 3; current = task 3; pc = 64 }
    ∷ record { rq = rq 1; prev = task 3; next = task 7; current = task 7; pc = 80 }
    ∷ []

abbrev two_schedules : List Schedule
two_schedules = record { rq = rq 1; prev = task 7 } ∷ record { rq = rq 2; prev = task 3 } ∷ []

-- A CPU past the arrays of four is a fault.
fifth_cpu_test : hk_context_counter (task 7) (task 3) 4 100 loaded ≡ fault
unfolding hk_context_counter lkms.SchedStats.bump
fifth_cpu_test = refl

run_switches-Tally_example : Ends (Tally two_switches loaded) (run_switches two_switches loaded)
run_switches-Tally_example =
    run_switches-Tally two_switches loaded (record { hooked = refl; total = refl; own = refl })
      (omega arith, (omega arith, tt))

run_schedules-Latest_example :
    Ends (Latest two_schedules loaded) (run_schedules two_schedules loaded)
run_schedules-Latest_example =
    run_schedules-Latest two_schedules loaded
      (record { hooked = refl; sizes = refl; counts = refl }) (omega arith, (omega arith, tt))
