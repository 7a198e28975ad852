-- ===== src/ProdCons/Fifo11.antt =====
-- fifo11.c: prod_cons.c, but the second walk of the task list starts at `init_task`. `producer` and
-- the loop are those of prod_cons.c.
use lkms.Prelude.{
  Bool, ◌++◌, ℕ, zero, suc, ◌<◌, ◌≡◌, refl, ◌∙◌, ap, arith, List, [], ◌∷◌, All, length, take, drop,
  ℤ, pos,
}
use lkms.Kernel.Run.{Run, ok, ◌>>=◌, Ends, ends, Ends-value, Ends->>=}
use lkms.Kernel.Fifo.{Kfifo}
use lkms.ProdCons.{
  Line, log_pid, console_pid, console_task, console_output, first_line, producer, consume,
}
use lkms.ProdCons.Pairs.{
  first_of, lines_of, lines_of-cons, peeked, sprintf-pid, sprintf-short, producer-takes,
}

-- Each pid beside the one before it in the list.
abbrev pub with_previous : ℕ → List ℕ → List (ℕ × ℕ)
with_previous p [] = []
with_previous p (t ∷ ts) = (t, p) ∷ with_previous t ts

module _ (f : Kfifo) (tty : Bool) where
  open f use {Queue, contents, size, bytes-out, contents-out, kfifo_out, kfifo_peek}

  -- `ts = &init_task`, whose pid is 0; behind it comes the first process.
  pub consumer : ℕ → (tasks : List ℕ) → Queue → Run (List Line × Queue)
  consumer fuel tasks q = consume f tty fuel tasks (0 ∷ tasks) q >>= λ (out, q').
      ok (first_line (kfifo_peek q) ++ out, q')

  pub init : ℕ → (tasks tasks2 : List ℕ) → Queue → Run (ℤ × List Line × Queue)
  init fuel tasks tasks2 q =
      consumer fuel tasks2 (producer f tasks q) >>= λ (out, q'). ok (pos 0, out, q')

  consume-previous :
      (fuel n p : ℕ) (tasks ys : List ℕ) (q : Queue)
      → contents q ≡ take n ys
      → length (take n ys) < fuel
      → p < 100000
      → All (λ t. t < 100000) ys
      → Ends
          (λ (out, q'). (out ≡ lines_of tty (with_previous p (take n ys))) × (contents q' ≡ []))
          (consume f tty fuel tasks (p ∷ ys) q)
  unfolding consume
  consume-previous zero n p tasks ys q e h small all = absurd (omega arith)
  consume-previous (suc fuel) zero p tasks ys q e h small all =
      rw (consume, bytes-out q 1, e) (ends (refl, contents-out q 1 ∙ ap (drop 1) e))
  consume-previous (suc fuel) (suc n) p tasks [] q e h small all =
      rw (consume, bytes-out q 1, e) (ends (refl, contents-out q 1 ∙ ap (drop 1) e))
  consume-previous (suc fuel) (suc n) p tasks (y ∷ ys) q e h small (here, all) =
      rw
        (
          consume,
          bytes-out q 1,
          e,
          sprintf-pid y,
          ◌>>=◌,
          sprintf-short 14 p (omega arith) small,
          ◌>>=◌,
        )
        (Ends->>=
          (consume-previous fuel n y tasks ys (kfifo_out q 1).1 (contents-out q 1 ∙ ap (drop 1) e)
            (omega (arith, h)) here all)
          (λ (out, q') (same, empty). ends (
            ap
                  (λ r.
                    log_pid y
                    ∷ console_output tty (console_pid y)
                    ∷ console_output tty (console_task p)
                    ∷ r)
                  same
                ∙ lines_of-cons tty y p (with_previous y (take n ys)),
            empty,
          )))

  -- If the queue is empty, the processes are the same in both walks and every pid has at most five
  -- digits, then fifo11.c comes to its end without a fault and returns 0. Of the pids in the order of
  -- the list, as many as the queue has room for, the first is printed once to the log alone; then each
  -- is printed once to the log and once to the console, where the pid of the process before it in the
  -- list stands beside it, at the first one 0; where there is no tty, the log says so twice in place of
  -- these two. The queue is empty again.
  pub init-shows_previous :
      (fuel : ℕ) (tasks : List ℕ) (q : Queue)
      → contents q ≡ []
      → length (take size tasks) < fuel
      → All (λ t. t < 100000) tasks
      → Ends
          (λ (r, out, q').
            (r ≡ pos 0)
            × (out ≡ first_of (take size tasks) ++ lines_of tty (with_previous 0 (take size tasks)))
            × (contents q' ≡ []))
          (init fuel tasks tasks q)
  unfolding init consumer
  init-shows_previous fuel tasks q empty enough all =
      let full = producer-takes f tasks q empty in
      let ((out, q'), run, (same, drained)) = Ends-value (
        consume-previous fuel size 0 tasks tasks (producer f tasks q) full enough (omega arith)
          all) in
      rw (run, ◌>>=◌, peeked f (producer f tasks q) (take size tasks) full, same)
        (ends (refl, refl, drained))
