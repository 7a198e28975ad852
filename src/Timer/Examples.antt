-- ===== src/Timer/Examples.antt =====
-- hrtimer.c at concrete data: tests, and an instance of each theorem.
use lkms.Prelude.{replicate, ◌≡◌, refl, none, some, [], ◌∷◌, arith, ◌≤◌}
use lkms.Kernel.Timers.{plain_timers, was_pending}
use lkms.Timer.{
  called, still_in_use, uninstalling, starting, installing, State, report, start_again,
  my_timer_callback, init_module, cleanup_module, tick, Firings, none_more, fires,
}
use lkms.Timer.Fires.{calls, times_from, init-Firings-cleanup, init-fires_51}

-- 10 seconds are 2500 ticks of the clock.
abbrev zeroed : State plain_timers 2500
zeroed = record { counter = 0; my_timer = none }

abbrev loaded : State plain_timers 2500
loaded = record { counter = 0; my_timer = some 3500 }

load_prints : init_module plain_timers 2500 1000 zeroed ≡ (installing ∷ starting 1000 ∷ [], loaded)
unfolding init_module start_again report
load_prints = refl

-- The timer fires a tick late.
one_firing :
    Firings plain_timers 2500
      (init_module plain_timers 2500 1000 zeroed).1
      (3501 ∷ [])
      (called 3501 ∷ [])
      (record { counter = 1; my_timer = some 6001 })
unfolding init_module start_again tick my_timer_callback report
one_firing = fires [] 3501 3500 refl (omega arith) none_more

init-Firings-cleanup_example :
    (1 ≤ 51)
    × (called 3501 ∷ [] ≡ calls (3501 ∷ []))
    × (was_pending (some 6001) ≡ 1)
    × ((cleanup_module plain_timers 2500 (record { counter = 1; my_timer = some 6001 })).0
        ≡ still_in_use ∷ uninstalling ∷ [])
    × ((cleanup_module plain_timers 2500 (record { counter = 1; my_timer = some 6001 })).1.my_timer
        ≡ none)
init-Firings-cleanup_example =
    init-Firings-cleanup plain_timers 2500 1000 (3501 ∷ []) zeroed
      (record { counter = 1; my_timer = some 6001 }) (called 3501 ∷ []) refl one_firing

-- The timer is a tick late each time.
init-fires_51_example :
    (t : State plain_timers 2500) × Firings plain_timers 2500
      (init_module plain_timers 2500 1000 zeroed).1
      (times_from plain_timers 2500 3500 (replicate 51 1))
      (calls (times_from plain_timers 2500 3500 (replicate 51 1)))
      t
    × (was_pending t.my_timer ≡ 0)
init-fires_51_example = init-fires_51 plain_timers 2500 1000 (replicate 51 1) zeroed refl refl
