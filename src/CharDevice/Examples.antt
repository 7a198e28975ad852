-- ===== src/CharDevice/Examples.antt =====
-- char.c at concrete inputs: tests of the definitions, and an instance of each theorem.
use lkms.Prelude.{
  ℕ, ◌≡◌, refl, Bool, true, false, Option, none, some, List, [], ◌∷◌, arith, pos, replicate, ltb,
}
use lkms.Kernel.Copy.{copy_in, strlen}
use lkms.Kernel.Run.{Run, ok, fault, blocked, Ends, ◌>>=◌}
use lkms.Kernel.Fifo.{Kfifo, list_fifo}
use lkms.Kernel.Semaphore.{counting}
use lkms.CharDevice.{Device, enter, step_on, step_back, drain, consumer, char_read, char_write}
use lkms.CharDevice.Write.{char_write-faults}
use lkms.CharDevice.Session.{write_all, WrittenAll, write_all-WrittenAll, read_what_was_written}
use lkms.CharDevice.Locks.{empty_read_locks}

abbrev fifo : Kfifo
fifo = list_fifo 4096

-- A device as `init` leaves it.
abbrev idle : Device fifo counting
idle = record {
  sem = 1;
  s = 1;
  c_queue = [];
  data50 = replicate 50 0;
  ret = pos 250;
  major_number = 0;
  read_count = 0;
  write_count = 0;
  queue_head = 5000;
  initial_head_pos = 5000;
  proc_entry = true;
  registered = 250 ∷ [];
}

-- The second call holds `s`, and the device is open.
abbrev busy : Device fifo counting
busy = record idle { s = 0; sem = 0 }

abbrev hello : List (List ℕ)
hello = (b'h' ∷ b'e' ∷ []) ∷ (b'y' ∷ 0 ∷ b'z' ∷ []) ∷ []

-- The reader's buffer has room for two bytes.
abbrev room_for_two : ℕ → Bool
room_for_two i = ltb i 2

abbrev talk : Run (List (Option ℕ) × ℕ × ℕ × ℕ)
talk = do
  d ← write_all fifo counting hello idle
  (out, _, d') ← char_read fifo counting 9 false room_for_two d
  ok (out, d'.read_count, d'.write_count, d'.queue_head)

talk_prints : talk ≡ ok (some b'h' ∷ some b'e' ∷ none ∷ [], 2, 1, 5000)
unfolding char_write copy_in strlen enter step_on char_read consumer drain step_back
talk_prints = refl

write_all-WrittenAll_example :
    Ends (WrittenAll fifo counting hello idle) (write_all fifo counting hello idle)
write_all-WrittenAll_example =
    write_all-WrittenAll fifo counting hello idle (omega arith) (omega arith) (omega arith)
      (omega arith) (omega arith) (omega arith)

read_what_was_written_example :
    Ends
      (λ (out, r, d').
        (out ≡ some b'h' ∷ some b'e' ∷ none ∷ [])
        × (d'.c_queue ≡ [])
        × (d'.queue_head ≡ d'.initial_head_pos)
        × (d'.s ≡ 1))
      (write_all fifo counting hello idle >>= λ d1. char_read fifo counting 9 false room_for_two d1)
read_what_was_written_example =
    read_what_was_written fifo counting 9 false room_for_two hello idle (omega arith) refl (λ e. cc)
      (omega arith) (omega arith) (omega arith) (omega arith) (omega arith) (omega arith)

empty_read_locks_example :
    ((char_read fifo counting 9 true room_for_two idle >>= λ (_, _, d').
    char_read fifo counting 9 false room_for_two d')
      ≡ blocked)
    × ((char_read fifo counting 9 true room_for_two idle >>= λ (_, _, d').
          char_write fifo counting false (b'x' ∷ []) d')
        ≡ blocked)
empty_read_locks_example =
    empty_read_locks fifo counting 9 true room_for_two (b'x' ∷ []) idle refl refl (omega arith)

char_write-faults_example : char_write fifo counting false (replicate 50 b'x') idle ≡ fault
char_write-faults_example =
    char_write-faults fifo counting false (replicate 50 b'x') idle (omega arith) (omega arith)
      (omega arith)

abbrev two_bytes : Device fifo counting
two_bytes = record idle { c_queue = 7 ∷ 8 ∷ [] }
