-- ===== src/Timer/Fires.antt =====
-- hrtimer.c: how often the timer fires.
use lkms.Prelude.{
  ℕ, suc, ◌+◌, ◌≤◌, ◌<◌, ◌≡◌, refl, ◌∙◌, ap, arith, leb, if◌then◌else◌, true, false, Bool,
  Bool-cases, inl, inr, List, [], ◌∷◌, ◌++◌, add32, add64, Option, none, some, length,
}
use lkms.Kernel.Timers.{Timers, was_pending}
use lkms.Timer.{
  Line, called, still_in_use, uninstalling, State, report, start_again, my_timer_callback,
  init_module, cleanup_module, tick, below_iteration, Firings, none_more, fires,
}

-- Whether a timer is to fire: those that have fired at most 50 times are.
abbrev pub IsDue : Option ℕ → ℕ → Type 0
IsDue none m = m ≡ 51
IsDue (some e) m = m ≤ 50

-- What is printed when the timer fires at these times.
abbrev pub calls : List ℕ → List Line
calls [] = []
calls (j ∷ js) = called j ∷ calls js

below_yes : (m : ℕ) → m < 50 → below_iteration m ≡ true
below_yes m few = ground arith

below_fifty : (m : ℕ) → below_iteration m ≡ true → m ≤ 50 → m < 50
below_fifty m below few = ground arith

over_fifty : (m : ℕ) → below_iteration m ≡ false → m ≤ 50 → m ≡ 50
over_fifty m over few = ground arith

IsDue-was_pending : (o : Option ℕ) (n : ℕ) → IsDue o n → was_pending o ≡ (if leb n 50 then 1 else 0)
IsDue-was_pending none n spent = rw spent refl
IsDue-was_pending (some e) n few = ground arith

report_if :
    (b : Bool)
    → report still_in_use (if b then 1 else 0) ++ (uninstalling ∷ [])
      ≡ (if b then still_in_use ∷ uninstalling ∷ [] else uninstalling ∷ [])
unfolding report
report_if true = refl
report_if false = refl

module _ (k : Timers) (ten_seconds : ℕ) where
  open k use {
    Timer, expires, setup_timer, mod_timer, del_timer, detach, expires-mod, mod-was, expires-detach,
    expires-setup, expires-del, del-was,
  }

  -- The timer has fired `m` times.
  pub record Fired (m : ℕ) (s : State k ten_seconds) : Type 0 where
    pub counter : s.counter ≡ m
    pub due : IsDue (expires s.my_timer) m

  start_again-due :
      (jiffies : ℕ) (s : State k ten_seconds)
      → expires s.my_timer ≡ none
      → ((start_again k ten_seconds jiffies s).0 ≡ [])
        × (expires (start_again k ten_seconds jiffies s).1.my_timer
            ≡ some (add64 jiffies ten_seconds))
  unfolding start_again report
  start_again-due jiffies s idle = (
    rw (mod-was s.my_timer (add64 jiffies ten_seconds), idle) refl,
    expires-mod s.my_timer (add64 jiffies ten_seconds),
  )

  init_module-Fired :
      (jiffies : ℕ) (s : State k ten_seconds)
      → s.counter ≡ 0
      → Fired 0 (init_module k ten_seconds jiffies s).1
  unfolding init_module start_again
  init_module-Fired jiffies s zeroed = record {
    counter = zeroed;
    due = rw (expires-mod setup_timer (add64 jiffies ten_seconds)) (omega arith);
  }

  tick-Fired :
      (m jiffies e : ℕ) (s : State k ten_seconds)
      → Fired m s
      → expires s.my_timer ≡ some e
      → ((tick k ten_seconds jiffies s).0 ≡ called jiffies ∷ [])
        × Fired (suc m) (tick k ten_seconds jiffies s).1
        × (m ≤ 50)
  unfolding tick my_timer_callback start_again
  tick-Fired m jiffies e s fired pending =
      let few : m ≤ 50 = rw pending at fired.due in
      let next : add32 s.counter 1 ≡ suc m = omega (arith, fired.counter, few) in
      let s' = record s { counter = add32 s.counter 1; my_timer = detach s.my_timer } in
      let (quiet, again) = start_again-due jiffies s' (expires-detach s.my_timer) in
      elim (Bool-cases (below_iteration s.counter)) [
        | inl below ↦
            let fewer : m < 50 = below_fifty m (rw fired.counter at below) few in
            rw (below, quiet) (refl, record { counter = next; due = rw again (omega arith) }, few)
        | inr over ↦
            let most : m ≡ 50 = over_fifty m (rw fired.counter at over) few in
            rw over (
              refl,
              record { counter = next; due = rw (expires-detach s.my_timer) (omega arith) },
              few,
            )
      ]

  -- After further firings at these times.
  Firings-Fired :
      (m p : ℕ) (times : List ℕ) (s t : State k ten_seconds) (out : List Line)
      → m + length times ≡ p
      → Fired m s
      → m ≤ 51
      → Firings k ten_seconds s times out t
      → Fired p t × (p ≤ 51) × (out ≡ calls times)
  Firings-Fired m p [] s t out e fired most none_more =
      let same : m ≡ p = omega (arith, e) in (rw same at fired, omega (arith, same, most), refl)
  Firings-Fired m p (jiffies ∷ times) s t out e fired most (fires o _ due pending late rest) =
      let (line, fired', few) = tick-Fired m jiffies due s fired pending in
      let (last_fired, all, same) =
        Firings-Fired (suc m) p times (tick k ten_seconds jiffies s).1 t o (omega (arith, e)) fired'
          (omega arith) rest in
      (last_fired, all, ap (λ l. l ++ o) line ∙ ap (λ l. called jiffies ∷ l) same)

  -- From the loading of the module on, with the counter at 0, at whatever times the kernel gets to
  -- the timer: it has fired at most 51 times, one more than ITERATION; it is pending if it has fired
  -- fewer times, and off if it has fired 51 times; what has been printed is, for each firing in order,
  -- the line with the time of that firing, and never an error; and when the module is removed, the
  -- timer is off, with a line that tells whether it was pending.
  pub init-Firings-cleanup :
      (jiffies : ℕ) (times : List ℕ) (s t : State k ten_seconds) (out : List Line)
      → s.counter ≡ 0
      → Firings k ten_seconds (init_module k ten_seconds jiffies s).1 times out t
      → (length times ≤ 51)
        × (out ≡ calls times)
        × (was_pending (expires t.my_timer) ≡ (if leb (length times) 50 then 1 else 0))
        × ((cleanup_module k ten_seconds t).0 ≡ (
            if leb (length times) 50 then still_in_use ∷ uninstalling ∷ [] else uninstalling ∷ []))
        × (expires (cleanup_module k ten_seconds t).1.my_timer ≡ none)
  unfolding cleanup_module report
  init-Firings-cleanup jiffies times s t out zeroed firings =
      let (fired, most, same) =
        Firings-Fired 0 (length times) times (init_module k ten_seconds jiffies s).1 t out
          (omega arith) (init_module-Fired jiffies s zeroed) (omega arith) firings in
      let pending = IsDue-was_pending (expires t.my_timer) (length times) fired.due in
      (
        most,
        same,
        pending,
        rw (del-was t.my_timer, pending) (report_if (leb (length times) 50)),
        expires-del t.my_timer,
      )

  -- The times of firings, the first due at `due`, and each by its delay later than it is due.
  abbrev pub times_from : (due : ℕ) → (delays : List ℕ) → List ℕ
  times_from due [] = []
  times_from due (d ∷ ds) = (due + d) ∷ times_from (add64 (due + d) ten_seconds) ds

  times_from-length : (due : ℕ) (delays : List ℕ) → length (times_from due delays) ≡ length delays
  times_from-length due [] = refl
  times_from-length due (d ∷ ds) = ap suc (times_from-length (add64 (due + d) ten_seconds) ds)

  tick-again :
      (m jiffies : ℕ) (s : State k ten_seconds)
      → s.counter ≡ m
      → m < 50
      → expires (tick k ten_seconds jiffies s).1.my_timer ≡ some (add64 jiffies ten_seconds)
  unfolding tick my_timer_callback start_again
  tick-again m jiffies s count few =
      let below : below_iteration s.counter ≡ true = rw count (below_yes m few) in
      rw below (expires-mod (detach s.my_timer) (add64 jiffies ten_seconds))

  Fired-Firings :
      (m due d : ℕ) (ds : List ℕ) (s : State k ten_seconds)
      → Fired m s
      → expires s.my_timer ≡ some due
      → m + suc (length ds) ≡ 51
      → (out : List Line) × (t : State k ten_seconds) × Firings k ten_seconds s
          (times_from due (d ∷ ds))
          out
          t
  Fired-Firings m due d [] s fired pending e =
      (_, _, fires [] (due + d) due pending (omega arith) none_more)
  Fired-Firings m due d (d' ∷ ds) s fired pending e =
      let (line, fired', few) = tick-Fired m (due + d) due s fired pending in
      let again = tick-again m (due + d) s fired.counter (omega arith) in
      let (out, t, rest) =
        Fired-Firings (suc m) (add64 (due + d) ten_seconds) d' ds (tick k ten_seconds (due + d) s).1
          fired' again (omega (arith, e)) in
      (
        (tick k ten_seconds (due + d) s).0 ++ out,
        t,
        fires out (due + d) due pending (omega arith) rest,
      )

  -- From the loading of the module on, with the counter at 0: if the kernel gets to the timer each
  -- time it is due, by any 51 delays, the timer fires 51 times, the first time by the first delay
  -- later than 10 seconds after the loading, and each further time by its delay later than 10 seconds
  -- after the firing before; each firing prints the line with its time, and no error; and then the
  -- timer is off.
  pub init-fires_51 :
      (jiffies : ℕ) (delays : List ℕ) (s : State k ten_seconds)
      → s.counter ≡ 0
      → length delays ≡ 51
      → (t : State k ten_seconds) × Firings k ten_seconds
          (init_module k ten_seconds jiffies s).1
          (times_from (add64 jiffies ten_seconds) delays)
          (calls (times_from (add64 jiffies ten_seconds) delays))
          t
        × (was_pending (expires t.my_timer) ≡ 0)
  unfolding init_module start_again
  init-fires_51 jiffies [] s zeroed count = absurd (omega arith)
  init-fires_51 jiffies (d ∷ ds) s zeroed count =
      let due = add64 jiffies ten_seconds in
      let s1 = (init_module k ten_seconds jiffies s).1 in
      let (out, t, firings) =
        Fired-Firings 0 due d ds s1 (init_module-Fired jiffies s zeroed)
          (expires-mod setup_timer due) (omega (arith, count)) in
      let (most, same, idle, lines, off) =
        init-Firings-cleanup jiffies (times_from due (d ∷ ds)) s t out zeroed firings in
      let all : length (times_from due (d ∷ ds)) ≡ 51 = times_from-length due (d ∷ ds) ∙ count in
      (t, rw same at firings, rw all at idle)
