-- ===== src/CharDevice/Write.antt =====
-- char.c, `char_write`: what it puts into the queue, and when it runs past `data`.
use lkms.Prelude.{
  ℕ, ◌+◌, ◌-◌, ◌≤◌, ◌<◌, ◌≡◌, ◌≢◌, refl, ◌∙◌, ap, Bool, true, false, List, ◌++◌, arith, length,
  take, replicate, All, pos, add32,
}
use native.Mathlib.Decide.{dec_lt}
use lkms.Kernel.Run.{ok, fault, blocked, Ends, ends, Ends-weaken, ◌>>=◌}
use lkms.Kernel.Fifo.{Kfifo}
use lkms.Kernel.Semaphore.{Semaphores}
use lkms.CharDevice.{Device, enter, step_on, char_write}
use lkms.Kernel.Copy.{
  c_string, copy_in-copied, strlen-copied, copy_in-too_long, copied-full, take-c_string,
  strlen-no_nul,
}

module _ (f : Kfifo) (σ : Semaphores) where
  open f use {contents, size, kfifo_in, contents-in}
  open σ use {Sem, count, up, down_free, down_signal, down_waits, down_interruptible, count-up}

  pub enter-free :
      (signal : Bool) (s : Sem)
      → 0 < count s
      → (t : Sem) × (enter f σ signal s ≡ ok t) × (count t + 1 ≡ count s)
  unfolding enter
  enter-free signal s h = let (t, run, less) = down_free signal s h in (t, rw (enter, run), less)

  pub enter-interrupted : (s : Sem) → count s ≡ 0 → enter f σ true s ≡ ok s
  unfolding enter
  enter-interrupted s h = rw (enter, down_signal s h)

  pub enter-blocked : (s : Sem) → count s ≡ 0 → enter f σ false s ≡ blocked
  unfolding enter
  enter-blocked s h = rw (enter, down_waits s h)

  -- What fits of the string goes behind the bytes of the queue.
  abbrev pub queued : List ℕ → List ℕ → List ℕ
  queued q buf = q ++ take (size - length q) (c_string buf)

  pub record Written (buf : List ℕ) (d d' : Device f σ) : Type 0 where
    pub bytes : contents d'.c_queue ≡ queued (contents d.c_queue) buf
    pub writes : d'.read_count ≡ add32 d.read_count 1
    pub reads : d'.write_count ≡ d.write_count
    pub head : d'.queue_head ≡ step_on d.queue_head d.initial_head_pos (length (c_string buf))
    pub start : d'.initial_head_pos ≡ d.initial_head_pos
    pub sem : d'.sem ≡ d.sem
    pub major : d'.major_number ≡ d.major_number

  -- `char_write` once its three calls have returned.
  char_write-run :
      (signal : Bool) (buf : List ℕ) (d : Device f σ) (t : Sem)
      → enter f σ signal d.s ≡ ok t
      → length buf < 50
      → Ends
          (λ (r, d'). (r ≡ pos 0) × Written buf d d' × (count d'.s ≡ count t + 1))
          (char_write f σ signal buf d)
  unfolding char_write
  char_write-run signal buf d t e h =
      rw (copy_in-copied 50 buf (omega arith), e, ◌>>=◌, strlen-copied 50 buf h)
        (ends (
          refl,
          record {
            bytes =
                contents-in d.c_queue _
                ∙ ap (λ r. contents d.c_queue ++ take (size - length (contents d.c_queue)) r)
                    (take-c_string buf (replicate (50 - length buf) 0));
            writes = refl;
            reads = refl;
            head = refl;
            start = refl;
            sem = refl;
            major = refl;
          },
          count-up t,
        ))

  -- With fewer than 50 bytes and the semaphore free, `char_write` returns 0; the bytes before the
  -- first NUL, as far as they fit, stand behind those of the queue; the semaphore is given back.
  pub char_write-Written :
      (signal : Bool) (buf : List ℕ) (d : Device f σ)
      → 0 < count d.s
      → length buf < 50
      → Ends
          (λ (r, d'). (r ≡ pos 0) × Written buf d d' × (count d'.s ≡ count d.s))
          (char_write f σ signal buf d)
  char_write-Written signal buf d free h =
      let (t, e, less) = enter-free signal d.s free in
      Ends-weaken (char_write-run signal buf d t e h) λ (r, d') (z, w, c). (z, w, c ∙ less)

  -- A write whose wait is broken off by a signal goes on all the same, and its `up` gives the
  -- semaphore back while another call still holds it.
  pub char_write-interrupted :
      (buf : List ℕ) (d : Device f σ)
      → count d.s ≡ 0
      → length buf < 50
      → Ends
          (λ (r, d'). (r ≡ pos 0) × Written buf d d' × (count d'.s ≡ 1))
          (char_write f σ true buf d)
  char_write-interrupted buf d held h =
      Ends-weaken (char_write-run true buf d d.s (enter-interrupted d.s held) h)
        λ (r, d') (z, w, c). (z, w, omega arith)

  -- 50 bytes or more with no NUL among them are a fault, if the semaphore is free: a 51st byte is
  -- written past `data`, and 50 bytes leave a string that has no end in it.
  pub char_write-faults :
      (signal : Bool) (buf : List ℕ) (d : Device f σ)
      → 0 < count d.s
      → 50 ≤ length buf
      → All (λ b. b ≢ 0) buf
      → char_write f σ signal buf d ≡ fault
  unfolding char_write
  char_write-faults signal buf d free h clean = elim (dec_lt 50 (length buf)) [
    | yes long ↦ rw (copy_in-too_long 50 buf long)
    | no short ↦
        let full : length buf ≡ 50 = omega arith in
        let (t, e, less) = enter-free signal d.s free in
        rw (
          copy_in-copied 50 buf (omega arith),
          copied-full 50 buf full,
          ◌>>=◌,
          e,
          ◌>>=◌,
          strlen-no_nul buf clean,
        )
  ]

  -- With the semaphore taken and no signal, the writer waits.
  pub char_write-blocked :
      (buf : List ℕ) (d : Device f σ)
      → count d.s ≡ 0
      → length buf < 50
      → char_write f σ false buf d ≡ blocked
  unfolding char_write
  char_write-blocked buf d held h =
      rw (char_write, copy_in-copied 50 buf (omega arith), enter-blocked d.s held)
