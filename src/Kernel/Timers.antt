-- ===== src/Kernel/Timers.antt =====
-- linux/timer.h as the modules use it: a timer that is pending until a time, or not.
use lkms.Prelude.{ℕ, ◌≡◌, refl, Option, none, some}

-- 1 if a timer is pending, else 0: what `mod_timer` and `del_timer` return.
abbrev pub was_pending : Option ℕ → ℕ
was_pending none = 0
was_pending (some e) = 1

pub record Timers : Type 1 where
  pub Timer : Type 0
  -- The time at which it is due, while it is pending.
  pub expires : Timer → Option ℕ
  -- A timer of the function and the data, not pending.
  pub setup_timer : Timer
  pub mod_timer : Timer → ℕ → ℕ × Timer
  pub del_timer : Timer → ℕ × Timer
  -- The kernel takes a timer that is due off its list before it calls the function.
  pub detach : Timer → Timer
  pub expires-setup : expires setup_timer ≡ none
  pub expires-mod : (t : Timer) (e : ℕ) → expires (mod_timer t e).1 ≡ some e
  pub mod-was : (t : Timer) (e : ℕ) → (mod_timer t e).0 ≡ was_pending (expires t)
  pub expires-del : (t : Timer) → expires (del_timer t).1 ≡ none
  pub del-was : (t : Timer) → (del_timer t).0 ≡ was_pending (expires t)
  pub expires-detach : (t : Timer) → expires (detach t) ≡ none

-- A timer that behaves so: the time itself.
abbrev pub plain_timers : Timers
plain_timers = record {
  Timer = Option ℕ;
  expires = λ t. t;
  setup_timer = none;
  mod_timer = λ t e. (was_pending t, some e);
  del_timer = λ t. (was_pending t, none);
  detach = λ t. none;
  expires-setup = refl;
  expires-mod = λ t e. refl;
  mod-was = λ t e. refl;
  expires-del = λ t. refl;
  del-was = λ t. refl;
  expires-detach = λ t. refl;
}
