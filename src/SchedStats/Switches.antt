-- ===== src/SchedStats/Switches.antt =====
-- assg4/assg4.c, the counts of context switches over any sequence of them.
use lkms.Prelude.{
  ℕ, if-elim, ◌%◌, ◌+◌, ◌<◌, ◌^◌, ◌≡◌, refl, ◌∙◌, sym, ap, ◌==◌, if◌then◌else◌, Bool, true, false,
  ◌&&◌, Bool-cases, inl, inr, some, List, [], ◌∷◌, arith, add64, get_elem?, length, All, count_if,
}
use mathlib.Core.Bool.{false≢true}
use lkms.Kernel.Run.{Run, ok, Ends, ends, Ends->>=, Ends-weaken, ◌>>=◌}
use lkms.SchedStats.{Task, Rq, Stats, hk_context_counter, hk_current_pc, switch_hooks}
use lkms.SchedStats.Arrays.{bump-Bumped}

-- One context switch, as core.c reports it. `rq` is the run queue on the stack frame of the task that
-- goes on running: the one of the CPU where that task called schedule, not of the CPU that it runs on
-- now, where the two differ.
pub record Switch : Type 0 where
  pub rq : Rq
  pub prev : Task
  pub next : Task
  pub current : Task
  pub pc : ℕ

abbrev pub run_switches : List Switch → Stats → Run Stats
run_switches [] s = ok s
run_switches (e ∷ es) s =
    switch_hooks e.rq e.prev e.next e.current e.pc s >>= λ t. run_switches es t

-- The run queue reported is that of CPU `c`; and the task reported as prev is the watched process.
abbrev pub is_reported : ℕ → Switch → Bool
is_reported c e = e.rq.cpu == c

abbrev pub is_leaving : (pid c : ℕ) → Switch → Bool
is_leaving pid c e = is_reported c e && (e.prev.pid == pid)

-- The module is loaded, and has a counter for each of four CPUs.
pub record IsCounting (s : Stats) : Type 0 where
  pub hooked : s.context_counter ≡ true
  pub total : length s.sched_counter ≡ 4
  pub own : length s.per_pid_switch_counter ≡ 4

-- What one switch on a CPU below 4 does to the counts.
record Counted (e : Switch) (s t : Stats) : Type 0 where
  counting : IsCounting t
  pid : t.pid ≡ s.pid
  total :
      (c v : ℕ)
      → get_elem? s.sched_counter c ≡ some v
      → v < 2 ^ 64
      → get_elem? t.sched_counter c ≡ some (add64 v (if is_reported c e then 1 else 0))
  own :
      (c v : ℕ)
      → get_elem? s.per_pid_switch_counter c ≡ some v
      → v < 2 ^ 64
      → get_elem? t.per_pid_switch_counter c
        ≡ some (add64 v (if is_leaving s.pid c e then 1 else 0))

&&-true : (b : Bool) → (b && true) ≡ b
&&-true false = refl
&&-true true = refl

&&-false : (b : Bool) → (b && false) ≡ false
&&-false false = refl
&&-false true = refl

hk_context_counter-Counted :
    (e : Switch) (s : Stats)
    → IsCounting s
    → e.rq.cpu < 4
    → Ends (Counted e s) (hk_context_counter e.prev e.next e.rq.cpu e.rq.nr_switches s)
unfolding hk_context_counter
hk_context_counter-Counted e s is h =
    let (ys, run, b) = bump-Bumped s.sched_counter e.rq.cpu (omega (arith, is.total)) in
    let (zs, run', b') = bump-Bumped s.per_pid_switch_counter e.rq.cpu (omega (arith, is.own)) in
    elim (Bool-cases (e.prev.pid == s.pid)) [
      | inl ours ↦
          rw (hk_context_counter, run, ◌>>=◌, run', ◌>>=◌, ours)
            (ends (record {
              counting = record {
                hooked = is.hooked;
                total = b.same_length ∙ is.total;
                own = b'.same_length ∙ is.own;
              };
              pid = refl;
              total = b.elements;
              own = λ c v g small. rw (ours, &&-true) (b'.elements c v g small);
            }))
      | inr other ↦
          rw (hk_context_counter, run, ◌>>=◌, other)
            (ends (record {
              counting = record {
                hooked = is.hooked;
                total = b.same_length ∙ is.total;
                own = is.own;
              };
              pid = refl;
              total = b.elements;
              own = λ c v g small.
                  rw (other, &&-false) (g ∙ ap some {x = v} {y = add64 v 0} (omega arith));
            }))
    ]

hk_current_pc-Counted :
    {e : Switch} {s t : Stats} (current : Task) (pc : ℕ)
    → Counted e s t
    → Counted e s (if t.current_pc then hk_current_pc current pc t else t)
unfolding hk_current_pc
hk_current_pc-Counted {e} {s} {t} current pc c =
    if-elim (Counted e s) t.current_pc
      (λ hooked.
        if-elim (Counted e s) (current.pid == t.pid)
          (λ mine. record {
            counting = record {
              hooked = c.counting.hooked;
              total = c.counting.total;
              own = c.counting.own;
            };
            pid = c.pid;
            total = c.total;
            own = c.own;
          })
          (λ other. c))
      (λ unset. c)

switch_hooks-Counted :
    (e : Switch) (s : Stats)
    → IsCounting s
    → e.rq.cpu < 4
    → Ends (Counted e s) (switch_hooks e.rq e.prev e.next e.current e.pc s)
unfolding switch_hooks
switch_hooks-Counted e s is h =
    Ends->>=
      (if-elim (Ends (Counted e s)) s.context_counter
        (λ hooked. hk_context_counter-Counted e s is h)
        (λ unset. absurd (false≢true (sym unset ∙ is.hooked))))
      (λ t c. ends (hk_current_pc-Counted e.current e.pc c))

-- The counters of `t` are those of `s` plus one for each of the switches `es` that is reported with
-- the CPU's run queue, and plus one for each of these whose prev is the watched process, modulo 2 ^ 64.
pub record Tally (es : List Switch) (s t : Stats) : Type 0 where
  pub total :
      (c v : ℕ)
      → get_elem? s.sched_counter c ≡ some v
      → v < 2 ^ 64
      → get_elem? t.sched_counter c ≡ some ((v + count_if (is_reported c) es) % 2 ^ 64)
  pub own :
      (c v : ℕ)
      → get_elem? s.per_pid_switch_counter c ≡ some v
      → v < 2 ^ 64
      → get_elem? t.per_pid_switch_counter c
        ≡ some ((v + count_if (is_leaving s.pid c) es) % 2 ^ 64)

add-step :
    (v n : ℕ) (b : Bool)
    → (add64 v (if b then 1 else 0) + n) % 2 ^ 64 ≡ (v + ((if b then 1 else 0) + n)) % 2 ^ 64
add-step v n true = omega arith
add-step v n false = omega arith

add64-small : (v w : ℕ) → add64 v w < 2 ^ 64
add64-small v w = omega arith

Tally-step :
    {e : Switch} {es : List Switch} {s t u : Stats}
    → Counted e s t
    → Tally es t u
    → Tally (e ∷ es) s u
Tally-step {e} {es} {s} {t} {u} c r = record {
  total = λ k v at small.
      r.total k (add64 v (if is_reported k e then 1 else 0)) (c.total k v at small)
        (add64-small _ _)
      ∙ ap some (add-step v (count_if (is_reported k) es) (is_reported k e));
  own = λ k v at small.
      r.own k (add64 v (if is_leaving s.pid k e then 1 else 0)) (c.own k v at small)
        (add64-small _ _)
      ∙ rw c.pid (ap some (add-step v (count_if (is_leaving s.pid k) es) (is_leaving s.pid k e)));
}

-- While the module is loaded with its arrays of four, any sequence of context switches that are
-- reported with run queues of CPUs below 4 runs without a fault, and counts for each CPU the switches
-- reported with its run queue, and those of them in which the watched process is the task that core.c
-- calls prev, that is, the one that leaves. That the run queue is that of the CPU of the switch is not
-- said: core.c reads it from the stack frame, after switch_to, where it may be another's.
pub run_switches-Tally :
    (es : List Switch) (s : Stats)
    → IsCounting s
    → All (λ e. e.rq.cpu < 4) es
    → Ends (Tally es s) (run_switches es s)
run_switches-Tally [] s is tt = ends (record {
  total = λ c v at small. at ∙ ap some {x = v} {y = (v + 0) % 2 ^ 64} (omega arith);
  own = λ c v at small. at ∙ ap some {x = v} {y = (v + 0) % 2 ^ 64} (omega arith);
})
run_switches-Tally (e ∷ es) s is (h, hs) =
    Ends->>= (switch_hooks-Counted e s is h)
      (λ t c. Ends-weaken (run_switches-Tally es t c.counting hs) (λ u r. Tally-step c r))
