-- ===== src/CharDevice/Locks.antt =====
-- char.c: an empty device that is read keeps its semaphore.
use lkms.Prelude.{ℕ, ◌<◌, ◌≡◌, Bool, false, List, [], arith, length}
use lkms.Kernel.Run.{blocked, Ends-value, ◌>>=◌}
use lkms.Kernel.Fifo.{Kfifo}
use lkms.Kernel.Semaphore.{Semaphores}
use lkms.CharDevice.{Device, char_read, char_write}
use lkms.CharDevice.Write.{char_write-blocked}
use lkms.CharDevice.Read.{char_read-keeps_semaphore, char_read-blocked}

module _ (f : Kfifo) (σ : Semaphores) where
  open f use {contents}
  open σ use {count}

  -- Once an empty device has been read, with the semaphore free before, the operation that comes next
  -- waits for the semaphore for ever, unless a signal breaks the wait off: a read, or a write of fewer
  -- than 50 bytes (a longer one is a fault before it comes to the semaphore).
  pub empty_read_locks :
      (fuel : ℕ) (signal : Bool) (user_ok : ℕ → Bool) (buf : List ℕ) (d : Device f σ)
      → contents d.c_queue ≡ []
      → count d.s ≡ 1
      → length buf < 50
      → ((char_read f σ fuel signal user_ok d >>= λ (_, _, d'). char_read f σ fuel false user_ok d')
          ≡ blocked)
        × ((char_read f σ fuel signal user_ok d >>= λ (_, _, d'). char_write f σ false buf d')
            ≡ blocked)
  empty_read_locks fuel signal user_ok buf d e one short =
      let ((out, r, d'), run, (_, _, _, c)) =
        Ends-value (char_read-keeps_semaphore f σ user_ok fuel signal d e (omega arith)) in
      (
        rw (run, ◌>>=◌) (char_read-blocked f σ user_ok fuel d' (omega arith)),
        rw (run, ◌>>=◌) (char_write-blocked f σ buf d' (omega arith) short),
      )
