-- ===== src/CharDevice/Read.antt =====
-- char.c, `char_read`: what the reader gets, and what is left.
use lkms.Prelude.{
  ℕ, zero, suc, ◌+◌, ◌<◌, ◌≡◌, refl, ◌∙◌, ap, Bool, false, Option, none, some, List, [], ◌∷◌, arith,
  length, take, drop, pos, add32, if◌then◌else◌,
}
use lkms.Kernel.Run.{ok, blocked, Ends, ends, Ends->>=, ◌>>=◌}
use lkms.Kernel.Fifo.{Kfifo}
use lkms.Kernel.Semaphore.{Semaphores}
use lkms.CharDevice.{Device, enter, step_back, drain, consumer, char_read}
use lkms.CharDevice.Write.{enter-free, enter-blocked}

-- `queue_head` after `n` bytes have been taken.
abbrev pub heads_back : ℕ → (head initial : ℕ) → ℕ
heads_back zero head initial = head
heads_back (suc n) head initial = heads_back n (step_back head initial) initial

module _ (f : Kfifo) (σ : Semaphores) (user_ok : ℕ → Bool) where
  open f use {
    Queue, contents, kfifo_out, kfifo_is_empty, bytes-out, contents-out, not_empty_of_cons,
    empty_of_nil,
  }
  open σ use {Sem, count, up, count-up}

  -- What the reader's buffer gets of the bytes, from offset `i` on.
  abbrev pub delivered : ℕ → List ℕ → List (Option ℕ)
  delivered i [] = []
  delivered i (b ∷ bs) = (if user_ok i then some b else none) ∷ delivered (i + 1) bs

  record Drained (q : List ℕ) (d d' : Device f σ) : Type 0 where
    bytes : contents d'.c_queue ≡ []
    s : d'.s ≡ d.s
    sem : d'.sem ≡ d.sem
    writes : d'.read_count ≡ d.read_count
    reads : d'.write_count ≡ d.write_count
    head : d'.queue_head ≡ heads_back (length q) d.queue_head d.initial_head_pos
    start : d'.initial_head_pos ≡ d.initial_head_pos
    major : d'.major_number ≡ d.major_number

  drain-Drained :
      (fuel i : ℕ) (q : List ℕ) (d : Device f σ)
      → contents d.c_queue ≡ q
      → length q < fuel
      → Ends (λ (out, d'). (out ≡ delivered i q) × Drained q d d') (drain f σ fuel user_ok i d)
  unfolding drain
  drain-Drained zero i q d e h = absurd (omega arith)
  drain-Drained (suc fuel) i [] d e h =
      let out : (kfifo_out d.c_queue 1).0 ≡ [] = bytes-out d.c_queue 1 ∙ ap (take 1) e in
      rw (drain, out)
        (ends (
          refl,
          record {
            bytes = contents-out d.c_queue 1 ∙ ap (drop 1) e;
            s = refl;
            sem = refl;
            writes = refl;
            reads = refl;
            head = refl;
            start = refl;
            major = refl;
          },
        ))
  drain-Drained (suc fuel) i (b ∷ q) d e h =
      let out : (kfifo_out d.c_queue 1).0 ≡ b ∷ [] = bytes-out d.c_queue 1 ∙ ap (take 1) e in
      rw (drain, out)
        (Ends->>=
          (drain-Drained fuel (i + 1) q _ (contents-out d.c_queue 1 ∙ ap (drop 1) e) (omega arith))
          λ (bs, d') (same, done). ends (
            ap (λ r. (if user_ok i then some b else none) ∷ r) same,
            record {
              bytes = done.bytes;
              s = done.s;
              sem = done.sem;
              writes = done.writes;
              reads = done.reads;
              head = done.head;
              start = done.start;
              major = done.major;
            },
          ))

  -- A read after which the queue is empty and the semaphore as it was.
  pub record ReadAll (q : List ℕ) (d d' : Device f σ) : Type 0 where
    pub bytes : contents d'.c_queue ≡ []
    pub s : count d'.s ≡ count d.s
    pub sem : d'.sem ≡ d.sem
    pub writes : d'.read_count ≡ d.read_count
    pub reads : d'.write_count ≡ add32 d.write_count 1
    pub head : d'.queue_head ≡ heads_back (length q) d.queue_head d.initial_head_pos
    pub start : d'.initial_head_pos ≡ d.initial_head_pos
    pub major : d'.major_number ≡ d.major_number

  -- What `consumer` has done when it returns.
  record Given (q : List ℕ) (d d' : Device f σ) : Type 0 where
    bytes : contents d'.c_queue ≡ []
    s : count d'.s ≡ count d.s
    sem : d'.sem ≡ d.sem
    writes : d'.read_count ≡ d.read_count
    reads : d'.write_count ≡ d.write_count
    head : d'.queue_head ≡ heads_back (length q) d.queue_head d.initial_head_pos
    start : d'.initial_head_pos ≡ d.initial_head_pos
    major : d'.major_number ≡ d.major_number

  consumer-drains :
      (fuel : ℕ) (signal : Bool) (b : ℕ) (q : List ℕ) (d : Device f σ) (t : Sem)
      → contents d.c_queue ≡ b ∷ q
      → enter f σ signal d.s ≡ ok t
      → consumer f σ fuel signal user_ok d ≡ (
          drain f σ fuel user_ok 0 (record d { s = t }) >>= λ (out, d2).
          ok (out, record d2 { s = up d2.s }))
  unfolding consumer
  consumer-drains fuel signal b q d t e run =
      rw (consumer, run, ◌>>=◌, not_empty_of_cons d.c_queue b q e)

  -- If the semaphore is free and the queue is not empty, `char_read` returns 0 and hands over every
  -- byte of the queue in order, whatever length was asked for; a byte whose place cannot be written
  -- is lost. The queue is then empty, and the semaphore given back.
  pub char_read-delivered :
      (fuel : ℕ) (signal : Bool) (b : ℕ) (q : List ℕ) (d : Device f σ)
      → contents d.c_queue ≡ b ∷ q
      → 0 < count d.s
      → length (b ∷ q) < fuel
      → Ends
          (λ (out, r, d'). (out ≡ delivered 0 (b ∷ q)) × (r ≡ pos 0) × ReadAll (b ∷ q) d d')
          (char_read f σ fuel signal user_ok d)
  unfolding char_read
  char_read-delivered fuel signal b q d e free h =
      let (t, run, less) = enter-free f σ signal d.s free in
      rw (char_read, consumer-drains fuel signal b q d t e run)
        (Ends->>=
          (Ends->>= {Q = λ (out, d'). (out ≡ delivered 0 (b ∷ q)) × Given (b ∷ q) d d'}
            (drain-Drained fuel 0 (b ∷ q) (record d { s = t }) e h)
            λ (out, d2) (same, done). ends (
              same,
              record {
                bytes = done.bytes;
                s = count-up d2.s ∙ ap (λ u. count u + 1) done.s ∙ less;
                sem = done.sem;
                writes = done.writes;
                reads = done.reads;
                head = done.head;
                start = done.start;
                major = done.major;
              },
            ))
          λ (out, d') (same, g). ends (
            same,
            refl,
            record {
              bytes = g.bytes;
              s = g.s;
              sem = g.sem;
              writes = g.writes;
              reads = ap (λ w. add32 w 1) g.reads;
              head = g.head;
              start = g.start;
              major = g.major;
            },
          ))

  -- Reading an empty device takes the semaphore and does not give it back.
  pub char_read-keeps_semaphore :
      (fuel : ℕ) (signal : Bool) (d : Device f σ)
      → contents d.c_queue ≡ []
      → 0 < count d.s
      → Ends
          (λ (out, r, d').
            (out ≡ []) × (r ≡ pos 0) × (contents d'.c_queue ≡ []) × (count d'.s + 1 ≡ count d.s))
          (char_read f σ fuel signal user_ok d)
  unfolding char_read consumer
  char_read-keeps_semaphore fuel signal d e free =
      let (t, run, less) = enter-free f σ signal d.s free in
      rw (char_read, consumer, run, ◌>>=◌, empty_of_nil d.c_queue e) (ends (refl, refl, e, less))

  pub char_read-blocked :
      (fuel : ℕ) (d : Device f σ) → count d.s ≡ 0 → char_read f σ fuel false user_ok d ≡ blocked
  unfolding char_read consumer
  char_read-blocked fuel d held = rw (char_read, consumer, enter-blocked f σ d.s held)
