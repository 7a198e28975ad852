-- ===== src/ProdCons/Fifo10.antt =====
-- fifo10.c: fifo11.c with `if (tsk = next_task(ts) != &init_task) ts = tsk;` at the end of each
-- turn. C reads this as `tsk = (next_task(ts) != &init_task)`, so that `tsk` becomes 0 or 1, which
-- is no task.
use lkms.Prelude.{◌++◌, Bool, ℕ, zero, suc, List, [], ◌∷◌, Option, none, some, ℤ, pos}
use lkms.Kernel.Run.{Run, ok, fault, out_of_fuel, ◌>>=◌}
use lkms.Kernel.Fifo.{Kfifo}
use lkms.ProdCons.{
  Line, log_pid, console_pid, console_task, console_output, first_line, sprintf, task_here,
  producer,
}

-- `ts` : the tasks from it on, or an address where no task is.
abbrev pub Ts : Type 0
Ts = Option (List ℕ)

-- `ts->pid`
abbrev pub pid_of : Ts → Run ℕ
pid_of none = fault
pid_of (some here) = ok (task_here here)

-- Behind the last task comes `init_task`.
unfoldable pub advance : Ts → Ts
advance none = none
advance (some []) = some []
advance (some (t ∷ [])) = some (t ∷ [])
advance (some (t ∷ u ∷ ts)) = none

module _ (f : Kfifo) (tty : Bool) where
  open f use {Queue, kfifo_out, kfifo_peek}

  -- The loop of `consumer`.
  unfoldable pub consume : ℕ → Ts → Queue → Run (List Line × Queue)
  consume zero ts q = out_of_fuel
  consume (suc fuel) ts q = elim (kfifo_out q 1).0 [
    | [] ↦ ok ([], (kfifo_out q 1).1)
    | i ∷ _ ↦ sprintf 8 i >>= λ shown. pid_of ts >>= λ own. sprintf 14 own >>= λ shown_own.
        consume fuel (advance ts) (kfifo_out q 1).1 >>= λ (out, q'). ok (
          log_pid i
              ∷ console_output tty (console_pid shown)
              ∷ console_output tty (console_task shown_own)
              ∷ out,
          q',
        )
  ]

  -- `ts = &init_task`
  unfoldable pub consumer : ℕ → (tasks : List ℕ) → Queue → Run (List Line × Queue)
  consumer fuel tasks q =
      consume fuel (some (0 ∷ tasks)) q >>= λ (out, q'). ok (first_line (kfifo_peek q) ++ out, q')

  unfoldable pub init : ℕ → (tasks tasks2 : List ℕ) → Queue → Run (ℤ × List Line × Queue)
  init fuel tasks tasks2 q =
      consumer fuel tasks2 (producer f tasks q) >>= λ (out, q'). ok (pos 0, out, q')
