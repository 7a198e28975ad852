-- ===== src/Kernel/Semaphore.antt =====
-- linux/semaphore.h as the modules use it. Whether a signal arrives during a wait is an input.
use lkms.Prelude.{ℕ, zero, suc, ◌+◌, ◌<◌, ◌≡◌, Bool, true, false, refl, arith}

-- What `down_interruptible` comes to: it takes the semaphore and returns 0, or returns -EINTR, or
-- waits and no `up` comes.
pub data Wait (S : Type 0) : Type 0 where
  taken : S → Wait S
  interrupted : Wait S
  waits : Wait S

pub record Semaphores : Type 1 where
  pub Sem : Type 0
  pub count : Sem → ℕ
  pub sema_init : ℕ → Sem
  pub up : Sem → Sem
  pub down_interruptible : (signal : Bool) → Sem → Wait Sem
  pub count-init : (n : ℕ) → count (sema_init n) ≡ n
  pub count-up : (s : Sem) → count (up s) ≡ count s + 1
  -- A semaphore with a count above 0 is taken at once, signal or not.
  pub down_free :
      (b : Bool) (s : Sem)
      → 0 < count s
      → (t : Sem) × (down_interruptible b s ≡ taken t) × (count t + 1 ≡ count s)
  pub down_signal : (s : Sem) → count s ≡ 0 → down_interruptible true s ≡ interrupted
  pub down_waits : (s : Sem) → count s ≡ 0 → down_interruptible false s ≡ waits

abbrev pub count_down : Bool → ℕ → Wait ℕ
count_down b (suc n) = taken n
count_down true zero = interrupted
count_down false zero = waits

pub count_down_free :
    (b : Bool) (s : ℕ) → 0 < s → (t : ℕ) × (count_down b s ≡ taken t) × (t + 1 ≡ s)
count_down_free b zero h = elim h [ ]
count_down_free b (suc n) h = (n, refl, omega arith)

pub count_down_signal : (s : ℕ) → s ≡ 0 → count_down true s ≡ interrupted
count_down_signal s e = rw e

pub count_down_waits : (s : ℕ) → s ≡ 0 → count_down false s ≡ waits
count_down_waits s e = rw e

-- Semaphores that behave so: their counts.
abbrev pub counting : Semaphores
counting = record {
  Sem = ℕ;
  count = λ n. n;
  sema_init = λ n. n;
  up = λ n. suc n;
  down_interruptible = count_down;
  count-init = λ n. refl;
  count-up = λ n. omega arith;
  down_free = count_down_free;
  down_signal = count_down_signal;
  down_waits = count_down_waits;
}
