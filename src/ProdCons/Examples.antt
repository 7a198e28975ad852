-- ===== src/ProdCons/Examples.antt =====
-- prod_cons.c and the versions fifo8.c to fifo12.c, the theorems at concrete data.
use lkms.Prelude.{true, false, ℕ, ◌≡◌, refl, List, [], ◌∷◌, ◌++◌, map, pos, arith}
use lkms.Kernel.Run.{fault, Ends}
use lkms.Kernel.Fifo.{list_fifo}
use lkms.ProdCons.{log_first, log_pid, console_pid, init}
use lkms.ProdCons.Fifo8 as Fifo8
use lkms.ProdCons.Fifo8.{init-shows_room}
use lkms.ProdCons.Fifo10 as Fifo10
use lkms.ProdCons.Fifo11 as Fifo11
use lkms.ProdCons.Fifo11.{init-shows_previous, with_previous}
use lkms.ProdCons.Fifo12 as Fifo12
use lkms.ProdCons.Lost.{init-lost}
use lkms.ProdCons.Pairs.{lines_of, init-shows_each, init-overflow}

-- The queue has room for 4096 pids.
abbrev tasks : List ℕ
tasks = 1 ∷ 2 ∷ 31415 ∷ []

init-shows_each_example :
    Ends
      (λ (r, out, q').
        (r ≡ pos 0) × (out ≡ log_first 1 ∷ lines_of true (map (λ p. (p, p)) tasks)) × (q' ≡ []))
      (init (list_fifo 4096) true 4 tasks tasks [])
init-shows_each_example =
    init-shows_each (list_fifo 4096) true 4 tasks [] refl (omega arith) (omega arith) (omega arith)

init-overflow_example :
    init (list_fifo 4096) true 4 (tasks ++ (123456 ∷ [])) (tasks ++ (123456 ∷ [])) [] ≡ fault
init-overflow_example =
    init-overflow (list_fifo 4096) true 4 tasks 123456 [] [] refl (omega arith) (omega arith)
      (omega arith) (omega arith)

-- A queue with room for two, and pids of many digits.
init-shows_room_example :
    Ends
      (λ (r, out, q').
        (r ≡ pos 0)
        × (out ≡ log_first 1 ∷ log_pid 1 ∷ console_pid 1 ∷ log_pid 123456 ∷ console_pid 123456 ∷ [])
        × (q' ≡ []))
      (Fifo8.init (list_fifo 2) true 3 (1 ∷ 123456 ∷ 31415 ∷ []) [])
init-shows_room_example =
    init-shows_room (list_fifo 2) true 3 (1 ∷ 123456 ∷ 31415 ∷ []) [] refl (omega arith)

init-shows_previous_example :
    Ends
      (λ (r, out, q').
        (r ≡ pos 0)
        × (out ≡ log_first 1 ∷ lines_of false ((1, 0) ∷ (2, 1) ∷ (31415, 2) ∷ []))
        × (q' ≡ []))
      (Fifo11.init (list_fifo 4096) false 4 tasks tasks [])
init-shows_previous_example =
    init-shows_previous (list_fifo 4096) false 4 tasks [] refl (omega arith)
      (omega arith, (omega arith, (omega arith, tt)))

init-lost_example :
    (Fifo10.init (list_fifo 4096) true 4 tasks tasks [] ≡ fault)
    × (Fifo12.init (list_fifo 4096) true 4 tasks tasks [] ≡ fault)
init-lost_example =
    init-lost (list_fifo 4096) true 2 1 2 1 (31415 ∷ []) (2 ∷ 31415 ∷ []) [] refl (omega arith)
