-- ===== src/Timer.antt =====
-- hrtimer.c: a timer that starts itself again a number of times. `my_timer_callback`, `init_module`
-- and `cleanup_module` model the functions of that name; `jiffies` and `msecs_to_jiffies(10000)` are
-- arguments.
mod Fires
mod Examples
use lkms.Prelude.{
  Bool, ◌^◌, ℕ, suc, ◌+◌, ◌≤◌, ◌≡◌, ◌==◌, ltb, leb, ◌||◌, if◌then◌else◌, List, [], ◌∷◌, ◌++◌, add32,
  add64, some,
}
use lkms.Kernel.Timers.{Timers}

-- The lines that the module prints.
pub data Line : Type 0 where
  installing : Line
  starting : (jiffies : ℕ) → Line
  called : (jiffies : ℕ) → Line
  mod_timer_error : Line
  still_in_use : Line
  uninstalling : Line

abbrev pub iteration : ℕ
iteration = 50

-- `i < ITERATION`, of an int as its 32-bit pattern; patterns from 2 ^ 31 on are the negative numbers.
abbrev pub below_iteration : ℕ → Bool
below_iteration i = leb (2 ^ 31) i || ltb i iteration

-- `if (ret) printk("Error in mod_timer\n")`
unfoldable pub report : Line → ℕ → List Line
report line ret = if ret == 0 then [] else line ∷ []

module _ (k : Timers) (ten_seconds : ℕ) where
  open k use {Timer, expires, setup_timer, mod_timer, del_timer, detach}

  pub record State : Type 0 where
    pub counter : ℕ
    pub my_timer : Timer

  -- `mod_timer(&my_timer, jiffies + msecs_to_jiffies(10000))`, and the line on its result.
  unfoldable pub start_again : (jiffies : ℕ) → State → List Line × State
  start_again jiffies s =
      let (ret, t) = mod_timer s.my_timer (add64 jiffies ten_seconds) in
      (report mod_timer_error ret, record s { my_timer = t })

  unfoldable pub my_timer_callback : (jiffies : ℕ) → State → List Line × State
  my_timer_callback jiffies s =
      let s' = record s { counter = add32 s.counter 1 } in
      let (out, t) = if below_iteration s.counter then start_again jiffies s' else ([], s') in
      (called jiffies ∷ out, t)

  unfoldable pub init_module : (jiffies : ℕ) → State → List Line × State
  init_module jiffies s =
      let (out, t) = start_again jiffies (record s { my_timer = setup_timer }) in
      (installing ∷ starting jiffies ∷ out, t)

  unfoldable pub cleanup_module : State → List Line × State
  cleanup_module s =
      let (ret, t) = del_timer s.my_timer in
      (report still_in_use ret ++ (uninstalling ∷ []), record s { my_timer = t })

  -- The kernel calls the function of a timer that is due, and has taken it off its list before.
  unfoldable pub tick : (jiffies : ℕ) → State → List Line × State
  tick jiffies s = my_timer_callback jiffies (record s { my_timer = detach s.my_timer })

  -- The timer fires at these times, once it is due: what is printed, and the state behind.
  pub data Firings : State → List ℕ → List Line → State → Type 0 where
    none_more : {s : State} → Firings s [] [] s
    fires :
        {s t : State} {times : List ℕ} (out : List Line) (jiffies due : ℕ)
        → expires s.my_timer ≡ some due
        → due ≤ jiffies
        → Firings (tick jiffies s).1 times out t
        → Firings s (jiffies ∷ times) ((tick jiffies s).0 ++ out) t
