-- ===== src/RecordDevice.antt =====
-- ttt.c: a device over a record fifo, where each write puts in a record and each read takes one out,
-- and a file in /proc with the numbers of both.
-- `read_proc`, `init_module`, `cleanup_module`, `dev_open`, `dev_read`, `dev_write` and
-- `dev_release` model the functions of that name.
mod Stats
mod Queues
mod Examples
use lkms.Prelude.{
  ℕ, zero, suc, ◌+◌, ◌-◌, ◌/◌, ◌%◌, ◌^◌, ◌==◌, leb, ltb, if◌then◌else◌, Bool, true, false, Option,
  none, some, List, [], ◌∷◌, ◌++◌, ℤ, pos, neg, negsuc, add32, length, set, take, drop, replicate,
}
use lkms.Kernel.Run.{Run, ok, fault, blocked, ◌>>=◌}
use lkms.Kernel.Copy.{copy_in, strlen}
use lkms.Kernel.Records.{RecordFifo}
use lkms.Kernel.Semaphore.{Semaphores, taken, interrupted, waits}

-- What %d prints of a 32-bit pattern; a number below 2 ^ 32 has at most ten digits.
pub decimal : (digits n : ℕ) → List ℕ
decimal zero n = []
decimal (suc digits) n =
    let tens = decimal digits (n / 10) in
    if ltb n 10 then (48 + n) ∷ [] else tens ++ (48 + n % 10) ∷ []

pub signed : ℕ → List ℕ
signed n = if ltb n (2 ^ 31) then decimal 10 n else b'-' ∷ decimal 10 (2 ^ 32 - n)

-- "writes# %d\nreads# %d\n"
abbrev pub writes_label : List ℕ
writes_label = b'w' ∷ b'r' ∷ b'i' ∷ b't' ∷ b'e' ∷ b's' ∷ b'#' ∷ b' ' ∷ []

abbrev pub reads_label : List ℕ
reads_label = b'\n' ∷ b'r' ∷ b'e' ∷ b'a' ∷ b'd' ∷ b's' ∷ b'#' ∷ b' ' ∷ []

pub message : (reads writes : ℕ) → List ℕ
message reads writes = writes_label ++ signed reads ++ reads_label ++ signed writes ++ b'\n' ∷ []

-- The loop of `dev_read`: put_user of the bytes up to the first NUL, at offset `i` of the user's
-- buffer; what cannot be written is passed over. No NUL means a read past the array.
pub put_text : (user_ok : ℕ → Bool) → (i : ℕ) → List ℕ → Run (List (Option ℕ))
put_text user_ok i [] = fault
put_text user_ok i (b ∷ bs) =
    let rest = put_text user_ok (suc i) bs in
    if b == 0 then ok [] else (rest >>= λ out. ok ((if user_ok i then some b else none) ∷ out))

module _ (f : RecordFifo) (σ : Semaphores) where
  open f use {Queue, empty, kfifo_in, kfifo_out, kfifo_is_empty}
  open σ use {Sem, sema_init, up, down_interruptible}

  -- The module's variables: the device's array of 100 bytes and its semaphore, the text in `msg`,
  -- and the counters as 32-bit patterns. `registered`: whether the kernel knows the device.
  pub record State : Type 0 where
    pub data100 : List ℕ
    pub sem : Sem
    pub test : Queue
    pub msg : List ℕ
    pub len : ℕ
    pub temp : ℕ
    pub reads : ℕ
    pub writes : ℕ
    pub t : ℤ
    pub proc_entry : Bool
    pub registered : Bool

  -- The number returned, and the bytes that copy_to_user copies: those at the start of `msg`, each
  -- time. `len` and `temp` are never negative.
  pub read_proc : (count : ℕ) → State → ℕ × List ℕ × State
  read_proc count s =
      let n = if ltb s.temp count then s.temp else count in
      let text = message s.reads s.writes in
      (n, take n text, record s { msg = text; temp = if n == 0 then s.len else s.temp - n })

  pub has_number : ℤ → Bool
  has_number (pos m) = true
  has_number (negsuc e) = false

  -- `major` is what register_chrdev returns.
  pub init_module : (created : Bool) → (major : ℤ) → State → ℤ × State
  init_module created major s =
      let text = message 0 0 in
      (
        pos 0,
        record s {
          proc_entry = created;
          reads = 0;
          writes = 0;
          msg = text;
          len = length text;
          temp = length text;
          t = major;
          registered = has_number major;
          sem = sema_init 1;
          data100 = replicate 100 0;
          test = empty;
        },
      )

  pub cleanup_module : State → State
  cleanup_module s = record s { proc_entry = false; registered = false }

  pub dev_open : (signal : Bool) → State → Run (ℤ × State)
  dev_open signal s = elim (down_interruptible signal s.sem) [
    | taken g ↦ ok (pos 0, record s { sem = g })
    | interrupted ↦ ok (neg 1, s)
    | waits ↦ blocked
  ]

  pub dev_release : State → ℤ × State
  dev_release s = (pos 0, record s { sem = up s.sem })

  -- What is stored in the user's buffer, and the result.
  pub dev_read : (user_ok : ℕ → Bool) → State → Run (List (Option ℕ) × ℤ × State)
  dev_read user_ok s =
      let (text, q) = kfifo_out s.test 100 in
      let ret = length text in
      let bytes = set (text ++ drop ret s.data100) ret 0 in
      let shown = put_text user_ok 0 bytes >>= λ out.
      ok (out, pos 0, record s { test = q; data100 = bytes; writes = add32 s.writes 1 }) in
      if kfifo_is_empty s.test then ok ([], neg 1, s) else if ltb ret 100 then shown else fault

  -- `buff` holds the `len` bytes that are written.
  pub dev_write : (buff : List ℕ) → State → Run (ℤ × State)
  dev_write buff s = copy_in 0 buff (replicate 100 0) >>= λ bytes. strlen bytes >>= λ n. ok (
    pos 1,
    record s {
      data100 = bytes;
      test = (kfifo_in s.test (take n bytes)).1;
      reads = add32 s.reads 1;
    },
  )
