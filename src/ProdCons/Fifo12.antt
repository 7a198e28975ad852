-- ===== src/ProdCons/Fifo12.antt =====
-- fifo12.c: fifo10.c, with `if (!flag_first++) ts = tsk;` behind it: in the first turn `ts` becomes
-- `tsk` in any case, which is 0 or 1.
use lkms.Prelude.{
  ◌++◌, ℕ, zero, suc, Bool, true, false, List, [], ◌∷◌, none, some, if◌then◌else◌, ℤ, pos,
}
use lkms.Kernel.Run.{Run, ok, out_of_fuel, ◌>>=◌}
use lkms.Kernel.Fifo.{Kfifo}
use lkms.ProdCons.{
  Line, log_pid, console_pid, console_task, console_output, first_line, sprintf, producer,
}
use lkms.ProdCons.Fifo10.{Ts, pid_of, advance}

module _ (f : Kfifo) (tty : Bool) where
  open f use {Queue, kfifo_out, kfifo_peek}

  -- `first` is whether `flag_first` is 0.
  unfoldable pub consume : ℕ → (first : Bool) → Ts → Queue → Run (List Line × Queue)
  consume zero first ts q = out_of_fuel
  consume (suc fuel) first ts q = elim (kfifo_out q 1).0 [
    | [] ↦ ok ([], (kfifo_out q 1).1)
    | i ∷ _ ↦ sprintf 8 i >>= λ shown. pid_of ts >>= λ own. sprintf 14 own >>= λ shown_own.
        consume fuel false (if first then none else advance ts) (kfifo_out q 1).1 >>= λ (out, q').
        ok (
          log_pid i
              ∷ console_output tty (console_pid shown)
              ∷ console_output tty (console_task shown_own)
              ∷ out,
          q',
        )
  ]

  unfoldable pub consumer : ℕ → (tasks : List ℕ) → Queue → Run (List Line × Queue)
  consumer fuel tasks q = consume fuel true (some (0 ∷ tasks)) q >>= λ (out, q').
      ok (first_line (kfifo_peek q) ++ out, q')

  unfoldable pub init : ℕ → (tasks tasks2 : List ℕ) → Queue → Run (ℤ × List Line × Queue)
  init fuel tasks tasks2 q =
      consumer fuel tasks2 (producer f tasks q) >>= λ (out, q'). ok (pos 0, out, q')
