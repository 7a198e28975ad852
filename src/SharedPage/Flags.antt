-- ===== src/SharedPage/Flags.antt =====
-- ex77.c: `flag` and the number of mappings over any sequence of mappings and writes to `flag`.
use lkms.Prelude.{
  ℕ, ◌+◌, ◌-◌, ◌^◌, ◌<◌, ◌≤◌, ◌≡◌, arith, ◌==◌, if◌then◌else◌, List, [], ◌∷◌, ℤ, pos, ◌==ℤ◌, length,
}
use lkms.SharedPage.{State, mmap_open, mmap_close, flag_store}
use lkms.SharedPage.Counted.{VmArea, mmap_mmap}

pub data Event : Type 0 where
  mapped : (private_data : ℕ) → VmArea → Event
  unmapped : Event
  wrote : ℤ → Event

abbrev pub happens : Event → State → State
happens (mapped private_data vma) s = (mmap_mmap private_data vma s).2
happens unmapped s = mmap_close s
happens (wrote var) s = flag_store var s

abbrev pub run_events : List Event → State → State
run_events [] s = s
run_events (e ∷ es) s = run_events es (happens e s)

-- The device as its users see it: the flag, and how many mappings there are.
pub record View : Type 0 where
  pub flag : ℤ
  pub mappings : ℕ

-- Every write is taken but that of 0 while there are mappings.
abbrev pub sees : Event → View → View
sees (mapped private_data vma) v = record v { mappings = v.mappings + 1 }
sees unmapped v = record v { mappings = v.mappings - 1 }
sees (wrote var) v = record v {
  flag = if var ==ℤ pos 0 then (if v.mappings == 0 then var else v.flag) else var;
}

abbrev pub run_view : List Event → View → View
run_view [] v = v
run_view (e ∷ es) v = run_view es (sees e v)

-- Only a mapping that is there goes away.
abbrev pub Goes : Event → View → Type 0
Goes unmapped v = 0 < v.mappings
Goes _ v = Unit {0}

abbrev pub AllGo : List Event → View → Type 0
AllGo [] v = Unit {0}
AllGo (e ∷ es) v = Goes e v × AllGo es (sees e v)

-- The state shows the view.
pub record Shows (v : View) (s : State) : Type 0 where
  pub flag : s.flag ≡ v.flag
  pub count : s.count ≡ v.mappings

happens-Shows :
    (e : Event) (v : View) (s : State)
    → Goes e v
    → v.mappings + 1 < 2 ^ 32
    → Shows v s
    → Shows (sees e v) (happens e s)
unfolding mmap_mmap mmap_open mmap_close flag_store
happens-Shows (mapped private_data vma) v s go small sh = record {
  flag = sh.flag;
  count = omega (arith, sh.count);
}
happens-Shows unmapped v s go small sh = record {
  flag = sh.flag;
  count = omega (arith, sh.count, go);
}
happens-Shows (wrote var) v s go small sh = ground (arith, sh.flag, sh.count)

sees-bound : (e : Event) (v : View) → (sees e v).mappings ≤ v.mappings + 1
sees-bound (mapped private_data vma) v = omega arith
sees-bound unmapped v = omega arith
sees-bound (wrote var) v = omega arith

-- If only mappings that are there go away, and there can be no more than 2 ^ 32 of them, then after
-- any sequence of mappings made and ended and of writes to `flag`, `count` is the number of
-- mappings, and `flag` is the last number written to it, where a 0 does not count that was
-- written while there were mappings.
pub run_events-Shows :
    (es : List Event) (v : View) (s : State)
    → AllGo es v
    → v.mappings + length es < 2 ^ 32
    → Shows v s
    → Shows (run_view es v) (run_events es s)
run_events-Shows [] v s go small sh = sh
run_events-Shows (e ∷ es) v s (g, go) small sh =
    run_events-Shows es (sees e v) (happens e s) go (omega (arith, small, sees-bound e v))
      (happens-Shows e v s g (omega (arith, small)) sh)
