-- ===== src/SchedStats/Load.antt =====
-- assg4/assg4.c, loading and unloading.
use lkms.Prelude.{ℕ, ◌≡◌, ◌⊎◌, inl, inr, refl, Bool, true, false, pos, neg, if-elim, ap}
use lkms.Kernel.Run.{ok, ◌>>=◌}
use mathlib.Core.Bool.{false≢true}
use lkms.Prelude.{sym, ◌∙◌}
use lkms.SchedStats.{Task, Rq, Stats, switch_hooks, schedule_hooks, init, cleanup}

-- Once the module is unloaded, with its program counter hook never set, a call of `__schedule` and
-- a context switch leave its variables as they are, whatever they were when it was unloaded.
pub cleanup-quiet :
    (rq : Rq) (prev next current : Task) (pc : ℕ) (s : Stats)
    → s.current_pc ≡ false
    → (schedule_hooks rq prev (cleanup s) >>= λ t. switch_hooks rq prev next current pc t)
      ≡ ok (cleanup s)
unfolding schedule_hooks switch_hooks cleanup
cleanup-quiet rq prev next current pc s unset = ap ok (
    if-elim (λ t. t ≡ cleanup s) s.current_pc (λ hooked. absurd (false≢true (sym unset ∙ hooked)))
      (λ _. refl))

-- From a state with no hook set, init either answers 0 with the three hooks set and both /proc
-- entries made, or answers -1 with no hook set; then the first entry is there if its own
-- proc_create succeeded, and the second is not.
pub init-hooks :
    (made made2 : Bool) (s : Stats)
    → s.context_counter ≡ false
    → s.rq_size ≡ false
    → s.per_pid_stats ≡ false
    → s.proc_file2 ≡ false
    → (((init made made2 s).0 ≡ pos 0)
        × ((init made made2 s).1.context_counter ≡ true)
        × ((init made made2 s).1.rq_size ≡ true)
        × ((init made made2 s).1.per_pid_stats ≡ true)
        × ((init made made2 s).1.proc_file ≡ true)
        × ((init made made2 s).1.proc_file2 ≡ true))
      ⊎ (((init made made2 s).0 ≡ neg 1)
          × ((init made made2 s).1.context_counter ≡ false)
          × ((init made made2 s).1.rq_size ≡ false)
          × ((init made made2 s).1.per_pid_stats ≡ false)
          × ((init made made2 s).1.proc_file ≡ made)
          × ((init made made2 s).1.proc_file2 ≡ false))
unfolding init
init-hooks true true s a b c d = inl (refl, refl, refl, refl, refl, refl)
init-hooks true false s a b c d = inr (refl, a, b, c, refl, refl)
init-hooks false made2 s a b c d = inr (refl, a, b, c, refl, d)
