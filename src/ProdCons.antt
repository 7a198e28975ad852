-- ===== src/ProdCons.antt =====
-- prod_cons.c (fifo13.c is the same file): puts the pid of every process into a queue, takes them
-- out again and prints each, to the log and to the console, beside the pid of the task that the second walk of the task list has
-- reached. `producer`, `consumer` and `init` model the functions of that name.
mod Pairs
mod Fifo8
mod Fifo11
mod Fifo10
mod Fifo12
mod Lost
mod Examples
use lkms.Prelude.{
  ℕ, zero, suc, ◌+◌, leb, ltb, Bool, Option, none, some, if◌then◌else◌, true, false, List, [], ◌∷◌,
  ◌++◌, length, ℤ, pos,
}
use lkms.Kernel.Run.{Run, ok, fault, out_of_fuel, ◌>>=◌}
use lkms.Kernel.Fifo.{Kfifo}

-- How many characters %d prints of a pid, which is below 2 ^ 31.
abbrev pub digits : ℕ → ℕ
digits n =
    if ltb n 10
    then 1
    else if ltb n 100
    then 2
    else if ltb n 1000
    then 3
    else if ltb n 10000
    then 4
    else if ltb n 100000
    then 5
    else if ltb n 1000000
    then 6
    else if ltb n 10000000
    then 7
    else if ltb n 100000000
    then 8
    else if ltb n 1000000000
    then 9
    else 10

-- `sprintf(buffer, …, n)` into `char buffer[20]`, of a format with `fixed` characters beside the
-- number; more than 20 with the NUL at the end are a fault.
pub sprintf : (fixed n : ℕ) → Run ℕ
sprintf fixed n = if leb (fixed + digits n + 1) 20 then ok n else fault

-- The tasks from one on, to the end of the circular list; behind the last comes the first again,
-- which is `init_task`, with pid 0.
abbrev pub task_here : List ℕ → ℕ
task_here [] = 0
task_here (t ∷ ts) = t

abbrev pub next_task : (tasks here : List ℕ) → List ℕ
next_task tasks [] = tasks
next_task tasks (t ∷ ts) = ts

-- The lines of output: those of printk go to the log, those of `console_output` to the console.
pub data Line : Type 0 where
  log_first : ℕ → Line
  log_pid : ℕ → Line
  log_no_tty : Line
  console_pid : ℕ → Line
  console_task : ℕ → Line

-- Without a tty a line of the log says so, in place of the text.
unfoldable pub console_output : (tty : Bool) → Line → Line
console_output tty str = if tty then str else log_no_tty

-- `if (kfifo_peek(&test, &i)) printk(…, i)`
unfoldable pub first_line : Option ℕ → List Line
first_line none = []
first_line (some i) = log_first i ∷ []

module _ (f : Kfifo) where
  open f use {Queue, kfifo_in, kfifo_out, kfifo_peek}

  -- `for_each_process` visits every task but `init_task`; the result of `kfifo_put` is not looked
  -- at.
  pub producer : List ℕ → Queue → Queue
  producer [] q = q
  producer (p ∷ ps) q = producer ps (kfifo_in q (p ∷ [])).1

  module _ (tty : Bool) where
    -- The loop of `consumer`.
    pub consume : ℕ → (tasks here : List ℕ) → Queue → Run (List Line × Queue)
    consume zero tasks here q = out_of_fuel
    consume (suc fuel) tasks here q = elim (kfifo_out q 1).0 [
      | [] ↦ ok ([], (kfifo_out q 1).1)
      | i ∷ _ ↦ sprintf 8 i >>= λ shown. sprintf 14 (task_here here) >>= λ own.
          consume fuel tasks (next_task tasks here) (kfifo_out q 1).1 >>= λ (out, q'). ok (
            log_pid i
                ∷ console_output tty (console_pid shown)
                ∷ console_output tty (console_task own)
                ∷ out,
            q',
          )
    ]

    -- `ts = next_task(&init_task)`
    pub consumer : ℕ → (tasks : List ℕ) → Queue → Run (List Line × Queue)
    consumer fuel tasks q =
        consume fuel tasks tasks q >>= λ (out, q'). ok (first_line (kfifo_peek q) ++ out, q')

    -- `tasks` and `tasks2` are the pids of the processes when the producer and when the consumer
    -- runs; `tty` is whether the process that loads the module has one.
    pub init : ℕ → (tasks tasks2 : List ℕ) → Queue → Run (ℤ × List Line × Queue)
    init fuel tasks tasks2 q =
        consumer fuel tasks2 (producer tasks q) >>= λ (out, q'). ok (pos 0, out, q')
