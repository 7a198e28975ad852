-- ===== src/CharDevice.antt =====
-- char.c: a character device over a queue of bytes, guarded by two semaphores, and a /proc entry
-- with counters. Each call of a file operation is one step; `char_open`, `char_read`,
-- `char_write`, `char_close`, `proc_readings`, `init` and `cleanup` model the functions of that name.
mod Write
mod Read
mod Session
mod Locks
mod Load
mod Examples
use lkms.Prelude.{
  ℕ, zero, suc, ◌+◌, ◌-◌, leb, ltb, if◌then◌else◌, Bool, true, false, Option, none, some, List, [],
  ◌∷◌, ◌++◌, ℤ, pos, negsuc, neg, ◌==ℤ◌, ◌==◌, add32, add64, sub64, length, set, take, replicate,
}
use lkms.Kernel.Copy.{copy_in, strlen}
use lkms.Kernel.Run.{Run, ok, fault, blocked, out_of_fuel, ◌>>=◌}
use lkms.Kernel.Fifo.{Kfifo}
use lkms.Kernel.Semaphore.{Semaphores, taken, interrupted, waits}

-- The updates of `queue_head`, for a byte read and for `n` bytes written.
pub step_back : (head initial : ℕ) → ℕ
step_back head initial = if leb 4095 (sub64 head initial) then initial else sub64 head 1

pub step_on : (head initial n : ℕ) → ℕ
step_on head initial n = if leb 4095 (sub64 head initial) then initial else add64 head n

-- A major number of 0 or more is the device's; an error gives none.
pub grant : ℤ → List ℕ → List ℕ
grant (pos m) ms = m ∷ ms
grant (negsuc e) ms = ms

-- unregister_chrdev
pub unregister : ℕ → List ℕ → List ℕ
unregister m [] = []
unregister m (n ∷ ns) = if m == n then ns else n ∷ unregister m ns

module _ (f : Kfifo) (σ : Semaphores) where
  open f use {Queue, kfifo_in, kfifo_out, kfifo_is_empty}
  open σ use {Sem, sema_init, up, down_interruptible}

  -- The module's variables; the counters are 32-bit patterns, the head positions 64-bit addresses.
  -- `registered` holds the major numbers that the kernel has given to the module.
  pub record Device : Type 0 where
    pub sem : Sem
    pub s : Sem
    pub c_queue : Queue
    pub data50 : List ℕ
    pub ret : ℤ
    pub major_number : ℕ
    pub read_count : ℕ
    pub write_count : ℕ
    pub queue_head : ℕ
    pub initial_head_pos : ℕ
    pub proc_entry : Bool
    pub registered : List ℕ

  -- `if (down_interruptible(&s) != 0) printk(…);`: when interrupted, the code goes on without the
  -- semaphore.
  pub enter : (signal : Bool) → Sem → Run Sem
  enter signal s = elim (down_interruptible signal s) [
    | taken t ↦ ok t
    | interrupted ↦ ok s
    | waits ↦ blocked
  ]

  -- The loop of `consumer`, at offset `i` of the reader's buffer: what it stores there, where the
  -- buffer can be written (`user_ok`).
  pub drain : ℕ → (user_ok : ℕ → Bool) → ℕ → Device → Run (List (Option ℕ) × Device)
  drain zero user_ok i d = out_of_fuel
  drain (suc fuel) user_ok i d = elim (kfifo_out d.c_queue 1).0 [
    | [] ↦ ok ([], record d { c_queue = (kfifo_out d.c_queue 1).1 })
    | b ∷ _ ↦
        drain fuel user_ok (i + 1) (record d {
          c_queue = (kfifo_out d.c_queue 1).1;
          ret = if user_ok i then pos 0 else neg 14;
          queue_head = step_back d.queue_head d.initial_head_pos;
        })
        >>= λ (out, d'). ok ((if user_ok i then some b else none) ∷ out, d')
  ]

  -- An empty queue is left by a `return` without `up`.
  pub consumer :
      ℕ → (signal : Bool) → (user_ok : ℕ → Bool) → Device → Run (List (Option ℕ) × Device)
  consumer fuel signal user_ok d = enter signal d.s >>= λ t.
      let d1 = record d { s = t } in
      let drained = drain fuel user_ok 0 d1 in
      if kfifo_is_empty d.c_queue
      then ok ([], d1)
      else (drained >>= λ (out, d2). ok (out, record d2 { s = up d2.s }))

  -- The return value is 0 in each case, whatever `length` asks for.
  pub char_read :
      ℕ → (signal : Bool) → (user_ok : ℕ → Bool) → Device → Run (List (Option ℕ) × ℤ × Device)
  char_read fuel signal user_ok d = consumer fuel signal user_ok d >>= λ (out, d').
      ok (out, pos 0, record d' { write_count = add32 d'.write_count 1 })

  -- `buffer` holds the `length` bytes that are written.
  pub char_write : (signal : Bool) → (buffer : List ℕ) → Device → Run (ℤ × Device)
  char_write signal buffer d = copy_in 0 buffer (replicate 50 0) >>= λ bytes.
      enter signal d.s >>= λ t. strlen bytes >>= λ n.
      let put = kfifo_in d.c_queue (take n bytes) in
      ok (
        pos 0,
        record d {
          data50 = bytes;
          c_queue = put.1;
          ret = pos put.0;
          read_count = add32 d.read_count 1;
          queue_head = step_on d.queue_head d.initial_head_pos n;
          s = up t;
        },
      )

  pub char_open : (signal : Bool) → Device → Run (ℤ × Device)
  char_open signal d = enter signal d.sem >>= λ t. ok (pos 0, record d { sem = t })

  pub char_close : Device → ℤ × Device
  char_close d = (pos 0, record d { sem = up d.sem })

  -- What reading /proc/my_proc_file prints: "No of Reads", "No of Writes", "Queue_head".
  pub proc_readings : Device → ℕ × ℕ × ℕ
  proc_readings d = (d.read_count, d.write_count, d.queue_head)

  -- `created`: whether `proc_create` succeeds; `major`: what `register_chrdev` returns.
  pub init : (created : Bool) → (major : ℤ) → Device → ℤ × Device
  init created major d =
      let d1 = record d {
        sem = sema_init 1;
        s = sema_init 1;
        data50 = replicate 50 0;
        proc_entry = created;
      } in
      if created
      then (
        pos 0,
        record d1 {
          read_count = 0;
          write_count = 0;
          ret = major;
          registered = grant major d.registered;
        },
      )
      else (neg 1, d1)

  pub cleanup : Device → Device
  cleanup d = record d { registered = unregister d.major_number d.registered; proc_entry = false }
