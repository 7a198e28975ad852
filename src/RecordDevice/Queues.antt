-- ===== src/RecordDevice/Queues.antt =====
-- ttt.c as a queue of texts: any sequence of writes and reads.
use lkms.Prelude.{
  ℕ, suc, ◌+◌, ◌-◌, ◌<◌, ◌≤◌, ◌≡◌, ◌≢◌, refl, ◌∙◌, ap, arith, ◌==◌, ==_of_ne, ne_of_==, leb, ltb,
  if◌then◌else◌, Bool, true, Bool-cases, inl, inr, leb→le, leb→lt, Option, none, some, List, [],
  ◌∷◌, ◌++◌, All, ℤ, pos, neg, length, set, drop, take_of_length-le, All-append, replicate,
  length-append, length-replicate, if-elim, ◌⊎◌,
}
use mathlib.Core.Path.{subst}
use lkms.Kernel.Run.{Run, ok, ◌>>=◌, Ends, ends, Ends->>=}
use lkms.Kernel.Copy.{c_string, copy_in-copied, strlen-copied, take-c_string}
use lkms.Kernel.Records.{RecordFifo, used}
use lkms.Kernel.Semaphore.{Semaphores}
use lkms.RecordDevice.{State, put_text, dev_read, dev_write}

pub data Event : Type 0 where
  write : (buff : List ℕ) → Event
  read : (user_ok : ℕ → Bool) → Event

-- What a read returns, and what it stores in the user's buffer.
abbrev pub Reply : Type 0
Reply = ℤ × List (Option ℕ)

-- A text as the user's buffer takes it, from offset `i` on.
abbrev pub deliver : (user_ok : ℕ → Bool) → (i : ℕ) → List ℕ → List (Option ℕ)
deliver user_ok i [] = []
deliver user_ok i (b ∷ bs) = (if user_ok i then some b else none) ∷ deliver user_ok (suc i) bs

-- The queue of texts that the device promises: a write puts in the bytes before the first NUL, if
-- the queue has room, and a read takes out the oldest text, or returns -1.
abbrev pub answer : (size : ℕ) → Event → List (List ℕ) → List Reply × List (List ℕ)
answer size (write buff) q =
    ([], if leb (used q + length (c_string buff) + 1) size then q ++ c_string buff ∷ [] else q)
answer size (read user_ok) [] = ((neg 1, []) ∷ [], [])
answer size (read user_ok) (x ∷ xs) = ((pos 0, deliver user_ok 0 x) ∷ [], xs)

abbrev pub answers : (size : ℕ) → List Event → List (List ℕ) → List Reply × List (List ℕ)
answers size [] q = ([], q)
answers size (e ∷ es) q =
    let first = answer size e q in let rest = answers size es first.1 in (first.0 ++ rest.0, rest.1)

-- A text that fits into `data` and holds no NUL.
abbrev pub Clean : List ℕ → Type 0
Clean x = (length x < 100) × All (λ b. b ≢ 0) x

-- A write is of less than 100 bytes.
abbrev pub Short : Event → Type 0
Short (write buff) = length buff < 100
Short (read user_ok) = Unit

c_string-Clean : (bs : List ℕ) → (length (c_string bs) ≤ length bs) × All (λ b. b ≢ 0) (c_string bs)
c_string-Clean [] = (omega arith, tt)
c_string-Clean (b ∷ bs) = elim (Bool-cases (b == 0)) [
  | inl nul ↦ rw nul (omega arith, tt)
  | inr other ↦
      let (short, clean) = c_string-Clean bs in
      rw other (omega (arith, short), (ne_of_== b 0 other, clean))
]

put_text-deliver :
    (user_ok : ℕ → Bool) (i : ℕ) (x rest : List ℕ)
    → All (λ b. b ≢ 0) x
    → put_text user_ok i (x ++ 0 ∷ rest) ≡ ok (deliver user_ok i x)
unfolding put_text
put_text-deliver user_ok i [] rest clean = refl
put_text-deliver user_ok i (b ∷ bs) rest (n, clean) =
    rw (==_of_ne b 0 n, put_text-deliver user_ok (suc i) bs rest clean) refl

-- The NUL that is written behind a text in the array.
nul_behind :
    (x d : List ℕ)
    → length x < length d
    → (rest : List ℕ) × (set (x ++ drop (length x) d) (length x) 0 ≡ x ++ 0 ∷ rest)
      × (length (x ++ 0 ∷ rest) ≡ length d)
nul_behind [] [] h = absurd (omega arith)
nul_behind [] (y ∷ ys) h = (ys, refl, refl)
nul_behind (a ∷ as') [] h = absurd (omega arith)
nul_behind (a ∷ as') (y ∷ ys) h =
    let (rest, e, l) = nul_behind as' ys (omega arith) in (rest, ap (λ r. a ∷ r) e, ap suc l)

queue_cases : (q : List (List ℕ)) → (q ≡ []) ⊎ ((x : List ℕ) × (xs : List (List ℕ)) × (q ≡ x ∷ xs))
queue_cases [] = inl refl
queue_cases (x ∷ xs) = inr (x, xs, refl)

module _ (f : RecordFifo) (σ : Semaphores) where
  open f use {
    Queue, records, size, kfifo_in, in_fits, in_full, out_first, empty_of_nil, not_empty_of_cons,
  }

  -- The array is whole, and the queue holds clean texts.
  pub record IsClean (s : State f σ) : Type 0 where
    pub whole : length s.data100 ≡ 100
    pub texts : All Clean (records s.test)

  -- Replies and queue are those of the promise, and the state is still clean.
  abbrev pub Answered : List Reply × List (List ℕ) → List Reply × State f σ → Type 0
  Answered (replies, q) (out, t) = (out ≡ replies) × (records t.test ≡ q) × IsClean t

  records_after :
      (q : Queue) (x : List ℕ)
      → records (kfifo_in q x).1
        ≡ (if leb (used (records q) + length x + 1) size then records q ++ x ∷ [] else records q)
  records_after q x = elim (Bool-cases (leb (used (records q) + length x + 1) size)) [
    | inl fits ↦ rw fits (in_fits q x (leb→le (used (records q) + length x + 1) size fits))
    | inr full ↦ rw full (in_full q x (leb→lt (used (records q) + length x + 1) size full))
  ]

  abbrev pub happens : Event → State f σ → Run (List Reply × State f σ)
  happens (write buff) s = dev_write f σ buff s >>= λ (r, t). ok ([], t)
  happens (read user_ok) s = dev_read f σ user_ok s >>= λ (out, r, t). ok ((r, out) ∷ [], t)

  abbrev pub run_events : List Event → State f σ → Run (List Reply × State f σ)
  run_events [] s = ok ([], s)
  run_events (e ∷ es) s =
      happens e s >>= λ (out, t). run_events es t >>= λ (rest, u). ok (out ++ rest, u)

  write-Answered :
      (buff : List ℕ) (s : State f σ)
      → length buff < 100
      → IsClean s
      → Ends (Answered (answer size (write buff) (records s.test))) (happens (write buff) s)
  unfolding dev_write
  write-Answered buff s short clean =
      let x = c_string buff in
      let (shorter, nonzero) = c_string-Clean buff in
      let q = (kfifo_in s.test x).1 in
      let after = records_after s.test x in
      rw
        (
          copy_in-copied 100 buff (omega arith),
          strlen-copied 100 buff short,
          take-c_string buff (replicate (100 - length buff) 0),
        )
        (ends (
          refl,
          after,
          record {
            whole = omega (
              arith,
              length-append buff (replicate {A = ℕ} (100 - length buff) 0),
              length-replicate {A = ℕ} (100 - length buff) 0,
            );
            texts = rw after (
                if-elim (All Clean) (leb (used (records s.test) + length x + 1) size)
                  (λ _.
                    All-append Clean (records s.test) (x ∷ []) clean.texts
                      ((omega arith, nonzero), tt))
                  (λ _. clean.texts));
          },
        ))

  read-Answered :
      (user_ok : ℕ → Bool) (s : State f σ)
      → IsClean s
      → Ends (Answered (answer size (read user_ok) (records s.test))) (happens (read user_ok) s)
  unfolding dev_read
  read-Answered user_ok s clean = elim (queue_cases (records s.test)) [
    | inl nil ↦ rw (empty_of_nil s.test nil, nil) (ends (refl, nil, clean))
    | inr (x, xs, cons) ↦
        let (first, left) = out_first s.test 100 x xs cons in
        let texts : All Clean (x ∷ xs) = subst (All Clean) cons clean.texts in
        let taken : (f.kfifo_out s.test 100).0 ≡ x =
          first ∙ take_of_length-le 100 x (omega (arith, texts.0.0)) in
        let (rest, ended, kept) = nul_behind x s.data100 (omega (arith, texts.0.0, clean.whole)) in
        let small : ltb (length x) 100 ≡ true = ground (arith, texts.0.0) in
        rw
          (
            not_empty_of_cons s.test x xs cons,
            cons,
            taken,
            small,
            ended,
            put_text-deliver user_ok 0 x rest texts.0.1,
          )
          (ends (refl, left, record { whole = kept ∙ clean.whole; texts = rw left texts.1 }))
  ]

  happens-Answered :
      (e : Event) (s : State f σ)
      → Short e
      → IsClean s
      → Ends (Answered (answer size e (records s.test))) (happens e s)
  happens-Answered (write buff) s short clean = write-Answered buff s short clean
  happens-Answered (read user_ok) s short clean = read-Answered user_ok s clean

  -- Any sequence of writes of less than 100 bytes each and of reads ends, with the replies and the
  -- texts in the fifo that a bounded queue of texts gives: a write puts in the bytes before its
  -- first NUL if they fit, and each read takes out one text, whole and in the order of the writes,
  -- and returns 0, or returns -1 if there is none. At first the array has its 100 bytes, and the
  -- fifo holds texts of less than 100 bytes without a NUL.
  pub run_events-Answered :
      (es : List Event) (s : State f σ)
      → All Short es
      → IsClean s
      → Ends (Answered (answers size es (records s.test))) (run_events es s)
  run_events-Answered [] s short clean = ends (refl, refl, clean)
  run_events-Answered (e ∷ es) s (short, shorts) clean =
      Ends->>= (happens-Answered e s short clean) (λ (out, t) (o, q, c).
        Ends->>= (run_events-Answered es t shorts c) (λ (rest, u) (o', q', c').
          ends (rw (o, o', q) refl, q' ∙ ap (λ r. (answers size es r).1) q, c')))
