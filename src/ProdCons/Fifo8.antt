-- ===== src/ProdCons/Fifo8.antt =====
-- fifo8.c (fifo.c and fifo7.c differ in the size of `buffer` and in a line feed): puts the pid of
-- every process into the queue, takes them out and prints them. `producer` is that of prod_cons.c.
use lkms.Prelude.{
  Bool, true, false, ◌++◌, ℕ, zero, suc, ◌<◌, ◌≡◌, refl, ◌∙◌, ap, arith, List, [], ◌∷◌, length,
  take, drop, ℤ, pos,
}
use lkms.Kernel.Run.{Run, ok, out_of_fuel, ◌>>=◌, Ends, ends, Ends-value, Ends->>=}
use lkms.Kernel.Fifo.{Kfifo}
use lkms.ProdCons.{
  Line, log_pid, log_no_tty, console_pid, console_output, first_line, sprintf, producer,
}
use lkms.ProdCons.Pairs.{first_of, peeked, sprintf-pid, producer-takes}

-- What is printed of the pids from the queue: each to the log and to the console, or, without a tty,
-- to the log with a line that says so.
abbrev pub shown : (tty : Bool) → List ℕ → List Line
shown tty [] = []
shown true (p ∷ ps) = log_pid p ∷ console_pid p ∷ shown true ps
shown false (p ∷ ps) = log_pid p ∷ log_no_tty ∷ shown false ps

shown-cons :
    (tty : Bool) (p : ℕ) (ps : List ℕ)
    → log_pid p ∷ console_output tty (console_pid p) ∷ shown tty ps ≡ shown tty (p ∷ ps)
unfolding console_output
shown-cons true p ps = refl
shown-cons false p ps = refl

module _ (f : Kfifo) (tty : Bool) where
  open f use {Queue, contents, size, bytes-out, contents-out, kfifo_out, kfifo_peek}

  -- The loop of `consumer`.
  pub consume : ℕ → Queue → Run (List Line × Queue)
  consume zero q = out_of_fuel
  consume (suc fuel) q = elim (kfifo_out q 1).0 [
    | [] ↦ ok ([], (kfifo_out q 1).1)
    | i ∷ _ ↦ sprintf 8 i >>= λ pid. consume fuel (kfifo_out q 1).1 >>= λ (out, q').
        ok (log_pid i ∷ console_output tty (console_pid pid) ∷ out, q')
  ]

  pub consumer : ℕ → Queue → Run (List Line × Queue)
  consumer fuel q = consume fuel q >>= λ (out, q'). ok (first_line (kfifo_peek q) ++ out, q')

  pub init : ℕ → (tasks : List ℕ) → Queue → Run (ℤ × List Line × Queue)
  init fuel tasks q = consumer fuel (producer f tasks q) >>= λ (out, q'). ok (pos 0, out, q')

  consume-shown :
      (fuel : ℕ) (xs : List ℕ) (q : Queue)
      → contents q ≡ xs
      → length xs < fuel
      → Ends (λ (out, q'). (out ≡ shown tty xs) × (contents q' ≡ [])) (consume fuel q)
  unfolding consume
  consume-shown zero xs q e h = absurd (omega arith)
  consume-shown (suc fuel) [] q e h =
      rw (consume, bytes-out q 1, e) (ends (refl, contents-out q 1 ∙ ap (drop 1) e))
  consume-shown (suc fuel) (x ∷ xs) q e h =
      rw (consume, bytes-out q 1, e, sprintf-pid x, ◌>>=◌)
        (Ends->>=
          (consume-shown fuel xs (kfifo_out q 1).1 (contents-out q 1 ∙ ap (drop 1) e)
            (omega (arith, h)))
          (λ (out, q') (same, empty). ends (
            ap (λ r. log_pid x ∷ console_output tty (console_pid x) ∷ r) same ∙ shown-cons tty x xs,
            empty,
          )))

  -- If the queue is empty, fifo8.c comes to its end without a fault and returns 0, however many
  -- processes there are and however long their pids. Of the pids in the order of the list, as many as
  -- the queue has room for, the first is printed once to the log alone, and then each once to the log
  -- and once to the console; where there is no tty, the log says so in place of the console. The queue
  -- is empty again. The fuel is more than the pids that the queue takes.
  pub init-shows_room :
      (fuel : ℕ) (tasks : List ℕ) (q : Queue)
      → contents q ≡ []
      → length (take size tasks) < fuel
      → Ends
          (λ (r, out, q').
            (r ≡ pos 0)
            × (out ≡ first_of (take size tasks) ++ shown tty (take size tasks))
            × (contents q' ≡ []))
          (init fuel tasks q)
  unfolding init consumer
  init-shows_room fuel tasks q empty enough =
      let full = producer-takes f tasks q empty in
      let ((out, q'), run, (same, drained)) =
        Ends-value (consume-shown fuel (take size tasks) (producer f tasks q) full enough) in
      rw (run, ◌>>=◌, peeked f (producer f tasks q) (take size tasks) full, same)
        (ends (refl, refl, drained))
