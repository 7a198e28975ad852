-- ===== src/ProdCons/Lost.antt =====
-- fifo10.c and fifo12.c: what becomes of the second walk of the task list.
use lkms.Prelude.{
  Bool, ℕ, zero, suc, ◌≤◌, ◌≡◌, refl, ◌∙◌, ap, arith, List, [], ◌∷◌, false, none, take, drop, pos,
}
use lkms.Kernel.Run.{ok, fault, ◌>>=◌}
use lkms.Kernel.Fifo.{Kfifo}
use lkms.ProdCons.{producer}
use lkms.ProdCons.Pairs.{sprintf-pid, sprintf-short, producer-takes}
use lkms.ProdCons.Fifo10 as Fifo10
use lkms.ProdCons.Fifo12 as Fifo12

module _ (f : Kfifo) (tty : Bool) where
  open f use {Queue, contents, size, bytes-out, contents-out, kfifo_out}

  lost10 :
      (fuel p : ℕ) (ps : List ℕ) (q : Queue)
      → contents q ≡ p ∷ ps
      → Fifo10.consume f tty (suc fuel) none q ≡ fault
  unfolding Fifo10.consume
  lost10 fuel p ps q e = rw (Fifo10.consume, bytes-out q 1, e, sprintf-pid p) refl

  lost12 :
      (fuel p : ℕ) (ps : List ℕ) (q : Queue)
      → contents q ≡ p ∷ ps
      → Fifo12.consume f tty (suc fuel) false none q ≡ fault
  unfolding Fifo12.consume
  lost12 fuel p ps q e = rw (Fifo12.consume, bytes-out q 1, e, sprintf-pid p) refl

  -- What the queue holds when the consumer starts, if it has room for two.
  two_taken :
      (n a b : ℕ) (ps : List ℕ) → 2 ≤ n → (rest : List ℕ) × (take n (a ∷ b ∷ ps) ≡ a ∷ b ∷ rest)
  two_taken zero a b ps two = absurd (omega arith)
  two_taken (suc zero) a b ps two = absurd (omega arith)
  two_taken (suc (suc n)) a b ps two = (take n ps, refl)

  consumer10 :
      (fuel a b c : ℕ) (rest cs : List ℕ) (q : Queue)
      → contents q ≡ a ∷ b ∷ rest
      → Fifo10.consumer f tty (suc (suc fuel)) (c ∷ cs) q ≡ fault
  unfolding Fifo10.consumer Fifo10.consume Fifo10.advance
  consumer10 fuel a b c rest cs q e =
      let lost = lost10 fuel b rest (kfifo_out q 1).1 (contents-out q 1 ∙ ap (drop 1) e) in
      rw
        (
          Fifo10.consumer,
          Fifo10.consume,
          bytes-out q 1,
          e,
          sprintf-pid a,
          ◌>>=◌,
          sprintf-short 14 0 (omega arith) (omega arith),
          ◌>>=◌,
          lost,
        )
        refl

  consumer12 :
      (fuel a b c : ℕ) (rest cs : List ℕ) (q : Queue)
      → contents q ≡ a ∷ b ∷ rest
      → Fifo12.consumer f tty (suc (suc fuel)) (c ∷ cs) q ≡ fault
  unfolding Fifo12.consumer Fifo12.consume
  consumer12 fuel a b c rest cs q e =
      let lost = lost12 fuel b rest (kfifo_out q 1).1 (contents-out q 1 ∙ ap (drop 1) e) in
      rw
        (
          Fifo12.consumer,
          Fifo12.consume,
          bytes-out q 1,
          e,
          sprintf-pid a,
          ◌>>=◌,
          sprintf-short 14 0 (omega arith) (omega arith),
          ◌>>=◌,
          lost,
        )
        refl

  -- fifo10.c and fifo12.c come to a fault if the producer finds at least two processes and the
  -- consumer at least one, and the queue, empty before, has room for two: in the second turn `ts` is
  -- the value of a comparison, not a task. The fuel is two turns or more.
  pub init-lost :
      (fuel a b c : ℕ) (ps cs : List ℕ) (q : Queue)
      → contents q ≡ []
      → 2 ≤ size
      → (Fifo10.init f tty (suc (suc fuel)) (a ∷ b ∷ ps) (c ∷ cs) q ≡ fault)
        × (Fifo12.init f tty (suc (suc fuel)) (a ∷ b ∷ ps) (c ∷ cs) q ≡ fault)
  unfolding Fifo10.init Fifo12.init
  init-lost fuel a b c ps cs q empty room =
      let (rest, two) = two_taken size a b ps room in
      let full = producer-takes f (a ∷ b ∷ ps) q empty ∙ two in
      let filled = producer f (a ∷ b ∷ ps) q in
      (
        ap (λ r. r >>= λ (out, q'). ok (pos 0, out, q'))
            (consumer10 fuel a b c rest cs filled full),
        ap (λ r. r >>= λ (out, q'). ok (pos 0, out, q'))
            (consumer12 fuel a b c rest cs filled full),
      )
