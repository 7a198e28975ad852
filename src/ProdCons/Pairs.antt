-- ===== src/ProdCons/Pairs.antt =====
-- prod_cons.c: which pairs of numbers are printed.
use lkms.Prelude.{
  Bool, true, false, ℕ, zero, suc, ◌+◌, ◌-◌, ◌≤◌, ◌<◌, ◌≡◌, refl, sym, ◌∙◌, ap, arith, le→leb,
  lt→leb, List, [], ◌∷◌, ◌++◌, map, All, length, take, drop, pos, append_assoc, append_nil,
  take_of_length-le,
}
use lkms.Kernel.Run.{ok, fault, Ends, ends, Ends-value, Ends->>=, ◌>>=◌}
use lkms.Kernel.Fifo.{Kfifo, first}
use lkms.ProdCons.{
  Line, log_first, log_pid, log_no_tty, console_pid, console_task, console_output, first_line,
  digits, sprintf, producer, consume, consumer, init,
}

digits-small : (n : ℕ) → n < 100000 → digits n ≤ 5
digits-small n h = ground arith

digits-large : (n : ℕ) → 100000 ≤ n → 6 ≤ digits n
digits-large n h = ground arith

pub sprintf-short : (fixed n : ℕ) → fixed ≤ 14 → n < 100000 → sprintf fixed n ≡ ok n
unfolding sprintf
sprintf-short fixed n h small =
    rw (sprintf, le→leb (fixed + digits n + 1) 20 (omega (arith, h, digits-small n small))) refl

digits_le_ten : (n : ℕ) → digits n ≤ 10
digits_le_ten n = ground arith

pub sprintf-pid : (n : ℕ) → sprintf 8 n ≡ ok n
unfolding sprintf
sprintf-pid n = rw (sprintf, le→leb (8 + digits n + 1) 20 (omega (arith, digits_le_ten n))) refl

sprintf-overflow : (n : ℕ) → 100000 ≤ n → sprintf 14 n ≡ fault
unfolding sprintf
sprintf-overflow n h =
    rw (sprintf, lt→leb (14 + digits n + 1) 20 (omega (arith, digits-large n h))) refl

length_snoc : (xs : List ℕ) (x : ℕ) → length (xs ++ (x ∷ [])) ≡ length xs + 1
length_snoc [] x = refl
length_snoc (y ∷ xs) x = omega (arith, length_snoc xs x)

take_one : (n : ℕ) (x : ℕ) → 0 < n → take n (x ∷ []) ≡ x ∷ []
take_one zero x h = let no_room : ⊥ = omega (arith, h) in absurd no_room
take_one (suc n) x h = ap (λ r. x ∷ r) (take_of_length-le n [] (omega arith))

-- The line of the log with the pid that comes out first.
abbrev pub first_of : List ℕ → List Line
first_of [] = []
first_of (p ∷ ps) = log_first p ∷ []

-- What is printed of pids from the queue, each beside the pid of a task: with a tty the first goes to
-- the log and both to the console; without one two lines of the log say so each time.
abbrev pub lines_of : (tty : Bool) → List (ℕ × ℕ) → List Line
lines_of tty [] = []
lines_of true ((p, own) ∷ ps) = log_pid p ∷ console_pid p ∷ console_task own ∷ lines_of true ps
lines_of false ((p, own) ∷ ps) = log_pid p ∷ log_no_tty ∷ log_no_tty ∷ lines_of false ps

pub lines_of-cons :
    (tty : Bool) (p own : ℕ) (ps : List (ℕ × ℕ))
    → log_pid p
        ∷ console_output tty (console_pid p)
        ∷ console_output tty (console_task own)
        ∷ lines_of tty ps
      ≡ lines_of tty ((p, own) ∷ ps)
unfolding console_output
lines_of-cons true p own ps = refl
lines_of-cons false p own ps = refl

pub first_line-first : (xs : List ℕ) → first_line (first xs) ≡ first_of xs
unfolding first_line
first_line-first [] = refl
first_line-first (x ∷ xs) = refl

module _ (f : Kfifo) where
  open f use {
    Queue, contents, size, contents-in, bytes-out, contents-out, kfifo_in, kfifo_out, kfifo_peek,
    peek-first,
  }

  kfifo_put-contents :
      (p : ℕ) (q : Queue) (xs : List ℕ) (n : ℕ)
      → contents q ≡ xs
      → length xs + n ≡ size
      → contents (kfifo_in q (p ∷ [])).1 ≡ xs ++ take n (p ∷ [])
  kfifo_put-contents p q xs n e room =
      let left : size - length xs ≡ n = omega (arith, room) in
      contents-in q (p ∷ []) ∙ rw (e, left) refl

  producer-fills :
      (n : ℕ) (ps : List ℕ) (q : Queue) (xs : List ℕ)
      → contents q ≡ xs
      → length xs + n ≡ size
      → contents (producer f ps q) ≡ xs ++ take n ps
  unfolding producer
  producer-fills zero [] q xs e room = e ∙ append_nil xs
  producer-fills (suc n) [] q xs e room = e ∙ append_nil xs
  producer-fills zero (p ∷ ps) q xs e room =
      let same = kfifo_put-contents p q xs zero e room ∙ sym (append_nil xs) in
      producer-fills zero ps (kfifo_in q (p ∷ [])).1 xs same room
  producer-fills (suc n) (p ∷ ps) q xs e room =
      let put : contents (kfifo_in q (p ∷ [])).1 ≡ xs ++ (p ∷ []) =
        kfifo_put-contents p q xs (suc n) e room
        ∙ ap (λ r. xs ++ r) (take_one (suc n) p (omega arith)) in
      producer-fills n ps (kfifo_in q (p ∷ [])).1 (xs ++ (p ∷ [])) put
        (omega (arith, room, length_snoc xs p))
      ∙ append_assoc xs (p ∷ []) (take n ps)

  -- What an empty queue holds after the producer: the pids that it has room for.
  pub producer-takes :
      (ps : List ℕ) (q : Queue) → contents q ≡ [] → contents (producer f ps q) ≡ take size ps
  producer-takes ps q empty = producer-fills size ps q [] empty (omega arith)

  producer-all :
      (ps : List ℕ) (q : Queue)
      → contents q ≡ []
      → length ps ≤ size
      → contents (producer f ps q) ≡ ps
  producer-all ps q empty room = producer-takes ps q empty ∙ take_of_length-le size ps room

  pub peeked : (q : Queue) (xs : List ℕ) → contents q ≡ xs → first_line (kfifo_peek q) ≡ first_of xs
  peeked q xs e = ap first_line (peek-first q ∙ ap first e) ∙ first_line-first xs

  consume-pairs :
      (tty : Bool) (fuel : ℕ) (tasks here : List ℕ) (q : Queue)
      → contents q ≡ here
      → length here < fuel
      → All (λ p. p < 100000) here
      → Ends
          (λ (out, q'). (out ≡ lines_of tty (map (λ p. (p, p)) here)) × (contents q' ≡ []))
          (consume f tty fuel tasks here q)
  unfolding consume
  consume-pairs tty zero tasks here q e h small =
      let no_fuel : ⊥ = omega (arith, h) in absurd no_fuel
  consume-pairs tty (suc fuel) tasks [] q e h small =
      rw (consume, bytes-out q 1, e) (ends (refl, contents-out q 1 ∙ ap (drop 1) e))
  consume-pairs tty (suc fuel) tasks (p ∷ ps) q e h (s, small) =
      rw
        (consume, bytes-out q 1, e, sprintf-pid p, ◌>>=◌, sprintf-short 14 p (omega arith) s, ◌>>=◌)
        (Ends->>=
          (consume-pairs tty fuel tasks ps (kfifo_out q 1).1 (contents-out q 1 ∙ ap (drop 1) e)
            (omega (arith, h)) small)
          (λ (out, q') (same, empty). ends (
            ap
                  (λ r.
                    log_pid p
                    ∷ console_output tty (console_pid p)
                    ∷ console_output tty (console_task p)
                    ∷ r)
                  same
                ∙ lines_of-cons tty p p (map (λ p'. (p', p')) ps),
            empty,
          )))

  consume_overflow :
      (tty : Bool) (fuel : ℕ) (tasks xs : List ℕ) (p : ℕ) (ys : List ℕ) (q : Queue)
      → contents q ≡ xs ++ (p ∷ ys)
      → length xs < fuel
      → All (λ n. n < 100000) xs
      → 100000 ≤ p
      → consume f tty fuel tasks (xs ++ (p ∷ ys)) q ≡ fault
  unfolding consume
  consume_overflow tty zero tasks xs p ys q e h small big =
      let no_fuel : ⊥ = omega (arith, h) in absurd no_fuel
  consume_overflow tty (suc fuel) tasks [] p ys q e h small big =
      rw (consume, bytes-out q 1, e, sprintf-pid p, ◌>>=◌, sprintf-overflow p big) refl
  consume_overflow tty (suc fuel) tasks (x ∷ xs) p ys q e h (s, small) big =
      rw
        (
          consume,
          bytes-out q 1,
          e,
          sprintf-pid x,
          ◌>>=◌,
          sprintf-short 14 x (omega arith) s,
          ◌>>=◌,
          consume_overflow tty fuel tasks xs p ys (kfifo_out q 1).1
              (contents-out q 1 ∙ ap (drop 1) e) (omega (arith, h)) small big,
        )
        refl

  -- If the queue is empty and has room for a pid of every process, the processes are the same in both
  -- walks, and every pid has at most five digits, then `init` comes to its end without a fault and
  -- returns 0. The first pid is printed once to the log alone; then each pid, in the order of the
  -- list, is printed once to the log, and to the console once as it comes from the queue and once as
  -- it is read from the list; where there is no tty, the log says so twice in place of these two. The
  -- queue is empty again.
  pub init-shows_each :
      (tty : Bool) (fuel : ℕ) (tasks : List ℕ) (q : Queue)
      → contents q ≡ []
      → length tasks ≤ size
      → length tasks < fuel
      → All (λ p. p < 100000) tasks
      → Ends
          (λ (r, out, q').
            (r ≡ pos 0)
            × (out ≡ first_of tasks ++ lines_of tty (map (λ p. (p, p)) tasks))
            × (contents q' ≡ []))
          (init f tty fuel tasks tasks q)
  unfolding init consumer
  init-shows_each tty fuel tasks q empty room enough small =
      let full = producer-all tasks q empty room in
      let ((out, q'), run, (same, drained)) =
        Ends-value (consume-pairs tty fuel tasks tasks (producer f tasks q) full enough small) in
      rw (run, ◌>>=◌, peeked (producer f tasks q) tasks full, same) (ends (refl, refl, drained))

  -- A pid of six digits or more is a fault: the line `task->pid is …` does not fit into the 20
  -- characters of `buffer`. The queue is empty before and has room for all pids, the processes are
  -- the same in both walks, and the pids before this one have at most five digits.
  pub init-overflow :
      (tty : Bool) (fuel : ℕ) (xs : List ℕ) (p : ℕ) (ys : List ℕ) (q : Queue)
      → contents q ≡ []
      → length (xs ++ (p ∷ ys)) ≤ size
      → length xs < fuel
      → All (λ n. n < 100000) xs
      → 100000 ≤ p
      → init f tty fuel (xs ++ (p ∷ ys)) (xs ++ (p ∷ ys)) q ≡ fault
  unfolding init consumer
  init-overflow tty fuel xs p ys q empty room enough small big =
      let tasks = xs ++ (p ∷ ys) in
      let full = producer-all tasks q empty room in
      rw (consume_overflow tty fuel tasks xs p ys (producer f tasks q) full enough small big) refl
