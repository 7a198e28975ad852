-- ===== src/CharDevice/Session.antt =====
-- char.c, several calls in a row: what was written is what is read, the counters in /proc, the
-- head position, and the semaphore.
use mathlib.Core.List.{append-nil, append_assoc}
use lkms.Prelude.{
  ℕ, zero, suc, ◌+◌, ◌-◌, ◌≤◌, ◌<◌, ◌^◌, ◌≡◌, ◌≢◌, refl, sym, ◌∙◌, ap, Bool, false, List, [], ◌∷◌,
  ◌++◌, arith, length, add32, sub64, All, length-append, take_of_length-le,
}
use lkms.Kernel.Run.{Run, ok, Ends, ends, Ends->>=, Ends-weaken, ◌>>=◌}
use lkms.Kernel.Fifo.{Kfifo}
use lkms.Kernel.Semaphore.{Semaphores}
use lkms.CharDevice.{Device, step_on, step_back, char_read, char_write, proc_readings}
use lkms.CharDevice.Write.{Written, char_write-Written}
use lkms.CharDevice.Read.{delivered, heads_back, char_read-delivered}
use lkms.Kernel.Copy.{c_string}

-- The strings that writes of these buffers put into the queue.
abbrev pub strings : List (List ℕ) → List ℕ
strings [] = []
strings (b ∷ bs) = c_string b ++ strings bs

module _ (f : Kfifo) (σ : Semaphores) where
  open f use {contents, size}
  open σ use {count}

  -- One `char_write` for each buffer.
  abbrev pub write_all : List (List ℕ) → Device f σ → Run (Device f σ)
  write_all [] d = ok d
  write_all (b ∷ bs) d = char_write f σ false b d >>= λ (_, d1). write_all bs d1

  -- The head position is as far from where it began as there are bytes in the queue.
  abbrev pub Tracks : Device f σ → Type 0
  Tracks d =
      (sub64 d.queue_head d.initial_head_pos ≡ length (contents d.c_queue))
      × (d.queue_head < 2 ^ 64)
      × (d.initial_head_pos < 2 ^ 64)

  pub record WrittenAll (bufs : List (List ℕ)) (d d' : Device f σ) : Type 0 where
    pub bytes : contents d'.c_queue ≡ contents d.c_queue ++ strings bufs
    pub s : count d'.s ≡ count d.s
    pub shown : (proc_readings f σ d').0 ≡ add32 (proc_readings f σ d).0 (length bufs)
    pub other : (proc_readings f σ d').1 ≡ (proc_readings f σ d).1
    pub tracks : Tracks d'

  step_on-tracks :
      (head initial q n : ℕ)
      → sub64 head initial ≡ q
      → head < 2 ^ 64
      → initial < 2 ^ 64
      → q + n < 4095
      → (sub64 (step_on head initial n) initial ≡ q + n) × (step_on head initial n < 2 ^ 64)
  unfolding step_on
  step_on-tracks head initial q n e h i small = ground arith

  step_back-tracks :
      (head initial q : ℕ)
      → sub64 head initial ≡ suc q
      → head < 2 ^ 64
      → initial < 2 ^ 64
      → suc q < 4095
      → (sub64 (step_back head initial) initial ≡ q) × (step_back head initial < 2 ^ 64)
  unfolding step_back
  step_back-tracks head initial q e h i small = ground arith

  heads_back-tracks :
      (n head initial : ℕ)
      → sub64 head initial ≡ n
      → head < 2 ^ 64
      → initial < 2 ^ 64
      → n < 4095
      → heads_back n head initial ≡ initial
  heads_back-tracks zero head initial e h i small = omega arith
  heads_back-tracks (suc n) head initial e h i small =
      let (e', h') = step_back-tracks head initial n e h i small in
      heads_back-tracks n _ initial e' h' i (omega arith)

  write-one :
      (b : List ℕ) (d d1 : Device f σ)
      → length (contents d.c_queue) + length (c_string b) ≤ size
      → length (contents d.c_queue) + length (c_string b) < 4095
      → Tracks d
      → Written f σ b d d1
      → (contents d1.c_queue ≡ contents d.c_queue ++ c_string b) × Tracks d1
  write-one b d d1 fits small tracks w =
      let q : ℕ = length (contents d.c_queue) in
      let bytes : contents d1.c_queue ≡ contents d.c_queue ++ c_string b =
        w.bytes
        ∙ ap (λ r. contents d.c_queue ++ r)
            (take_of_length-le (size - q) (c_string b) (omega arith)) in
      let (near, low) =
        step_on-tracks d.queue_head d.initial_head_pos q (length (c_string b)) tracks.0 tracks.1
          tracks.2 small in
      (
        bytes,
        (
          rw (w.head, w.start, bytes)
              (near ∙ sym (length-append (contents d.c_queue) (c_string b))),
          rw w.head low,
          rw w.start tracks.2,
        ),
      )

  length-after :
      (q c rest : List ℕ) {q1 : List ℕ}
      → q1 ≡ q ++ c
      → length q1 + length rest ≡ length q + length (c ++ rest)
  length-after q c rest e = rw e (omega (arith, length-append q c, length-append c rest))

  -- If every buffer has fewer than 50 bytes, the strings fit into the queue, all of it is shorter
  -- than 4095 bytes, and the semaphore is free, then the writes all succeed: the queue holds its
  -- bytes and then the strings, in order; the semaphore is given back; the number that /proc shows
  -- as "No of Reads" has grown by the number of writes, and "No of Writes" is as it was; and the
  -- head position still tracks the queue.
  pub write_all-WrittenAll :
      (bufs : List (List ℕ)) (d : Device f σ)
      → All (λ b. length b < 50) bufs
      → length (contents d.c_queue) + length (strings bufs) ≤ size
      → length (contents d.c_queue) + length (strings bufs) < 4095
      → 0 < count d.s
      → d.read_count < 2 ^ 32
      → Tracks d
      → Ends (WrittenAll bufs d) (write_all bufs d)
  unfolding proc_readings
  write_all-WrittenAll [] d short fits small free word tracks = ends (record {
    bytes = sym (append-nil (contents d.c_queue));
    s = refl;
    shown = omega arith;
    other = refl;
    tracks = tracks;
  })
  write_all-WrittenAll (b ∷ bs) d short fits small free word tracks =
      Ends->>= (char_write-Written f σ false b d free short.0) λ (r, d1) (z, w, c).
        let (bytes, tracks1) =
          write-one b d d1 (omega (arith, length-append (c_string b) (strings bs)))
            (omega (arith, length-append (c_string b) (strings bs))) tracks w in
        let more = length-after (contents d.c_queue) (c_string b) (strings bs) bytes in
        Ends-weaken
          (write_all-WrittenAll bs d1 short.1 (omega (arith, more)) (omega (arith, more))
            (omega arith) (omega (arith, w.writes)) tracks1)
          λ d2 done. record {
            bytes =
                done.bytes
                ∙ rw (bytes, append_assoc (contents d.c_queue) (c_string b) (strings bs));
            s = done.s ∙ c;
            shown = done.shown ∙ omega (arith, w.writes);
            other = done.other ∙ w.reads;
            tracks = done.tracks;
          }

  read_tracked :
      (fuel : ℕ) (signal : Bool) (user_ok : ℕ → Bool) (q : List ℕ) (d : Device f σ)
      → contents d.c_queue ≡ q
      → q ≢ []
      → length q < 4095
      → length q < fuel
      → 0 < count d.s
      → Tracks d
      → Ends
          (λ (out, r, d').
            (out ≡ delivered f σ user_ok 0 q)
            × (contents d'.c_queue ≡ [])
            × (d'.queue_head ≡ d'.initial_head_pos)
            × (count d'.s ≡ count d.s))
          (char_read f σ fuel signal user_ok d)
  read_tracked fuel signal user_ok [] d e some_byte small enough free tracks =
      absurd (some_byte refl)
  read_tracked fuel signal user_ok (b ∷ q) d e some_byte small enough free tracks =
      let back : heads_back (length (b ∷ q)) d.queue_head d.initial_head_pos ≡ d.initial_head_pos =
        heads_back-tracks (length (b ∷ q)) d.queue_head d.initial_head_pos
          (tracks.0 ∙ ap (λ (r : List ℕ). length r) e) tracks.1 tracks.2 small in
      Ends-weaken (char_read-delivered f σ user_ok fuel signal b q d e free enough)
        λ (out, r, d') (same, z, w). (same, w.bytes, w.head ∙ back ∙ sym w.start, w.s)

  -- Over an empty device whose semaphore is free, several writes of fewer than 50 bytes each and
  -- then one read hand the strings over, one behind the other, if they fit into the queue and are
  -- shorter than 4095 bytes and not all empty. The device is then empty, the semaphore given back,
  -- and the head position back where it began.
  pub read_what_was_written :
      (fuel : ℕ) (signal : Bool) (user_ok : ℕ → Bool) (bufs : List (List ℕ)) (d : Device f σ)
      → All (λ b. length b < 50) bufs
      → contents d.c_queue ≡ []
      → strings bufs ≢ []
      → length (strings bufs) ≤ size
      → length (strings bufs) < 4095
      → length (strings bufs) < fuel
      → 0 < count d.s
      → d.read_count < 2 ^ 32
      → Tracks d
      → Ends
          (λ (out, r, d').
            (out ≡ delivered f σ user_ok 0 (strings bufs))
            × (contents d'.c_queue ≡ [])
            × (d'.queue_head ≡ d'.initial_head_pos)
            × (count d'.s ≡ count d.s))
          (write_all bufs d >>= λ d1. char_read f σ fuel signal user_ok d1)
  read_what_was_written fuel signal user_ok bufs d short empty some_byte fits small enough free word
        tracks =
      let none_yet : length (contents d.c_queue) ≡ 0 = ap (λ (r : List ℕ). length r) empty in
      Ends->>= (write_all-WrittenAll bufs d short (omega arith) (omega arith) free word tracks)
        λ d1 w.
          Ends-weaken
            (read_tracked fuel signal user_ok (strings bufs) d1 (w.bytes ∙ rw empty) some_byte small
              enough (omega (arith, w.s)) w.tracks)
            λ (out, r, d') (same, gone, head, s). (same, gone, head, s ∙ w.s)
