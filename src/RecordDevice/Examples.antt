-- ===== src/RecordDevice/Examples.antt =====
-- ttt.c at concrete data: tests of the definitions, and an instance of each theorem.
use lkms.Prelude.{◌≡◌, refl, true, List, [], ◌∷◌, arith, pos, replicate, ltb}
use lkms.Kernel.Run.{Ends}
use lkms.Kernel.Records.{RecordFifo, list_records}
use lkms.Kernel.Semaphore.{counting}
use lkms.RecordDevice.{State, decimal, signed, message, has_number, init_module}
use lkms.RecordDevice.Queues.{
  Event, write, read, IsClean, answers, Answered, run_events, run_events-Answered,
}
use lkms.RecordDevice.Stats.{read_all, AllRead, read_all-AllRead}

abbrev fifo : RecordFifo
fifo = list_records 128

-- The device as `init_module` leaves it.
abbrev idle : State fifo counting
idle = record {
  data100 = replicate 100 0;
  sem = 1;
  test = [];
  msg = message 0 0;
  len = 19;
  temp = 19;
  reads = 0;
  writes = 0;
  t = pos 250;
  proc_entry = true;
  registered = true;
}

init_module_test : (init_module fifo counting true (pos 250) (record idle { temp = 3 })).1 ≡ idle
unfolding init_module message signed decimal has_number
init_module_test = refl

message_test :
    message 12 7
    ≡ b'w' ∷ b'r' ∷ b'i' ∷ b't' ∷ b'e' ∷ b's' ∷ b'#' ∷ b' ' ∷ b'1' ∷ b'2' ∷ b'\n' ∷ b'r' ∷ b'e'
      ∷ b'a' ∷ b'd' ∷ b's' ∷ b'#' ∷ b' ' ∷ b'7' ∷ b'\n' ∷ []
unfolding message signed decimal
message_test = refl

-- Two writes, the second with a NUL in it, and three reads; the last user has room for one byte.
abbrev talk : List Event
talk =
    write (b'h' ∷ b'i' ∷ [])
    ∷ write (b'y' ∷ b'o' ∷ 0 ∷ b'z' ∷ [])
    ∷ read (λ i. true)
    ∷ read (λ i. ltb i 1)
    ∷ read (λ i. true)
    ∷ []

idle-IsClean : IsClean fifo counting idle
idle-IsClean = record { whole = refl; texts = tt }

run_events-Answered_example :
    Ends (Answered fifo counting (answers 128 talk [])) (run_events fifo counting talk idle)
run_events-Answered_example =
    run_events-Answered fifo counting talk idle (omega arith, (omega arith, (tt, (tt, (tt, tt)))))
      idle-IsClean

read_all-AllRead_example : Ends (AllRead fifo counting idle) (read_all fifo counting 20 8 idle)
read_all-AllRead_example =
    read_all-AllRead fifo counting 20 8 idle (omega arith) (omega arith) (omega arith)
