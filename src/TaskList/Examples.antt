-- ===== src/TaskList/Examples.antt =====
-- ex5.c and ex5list3.c at concrete data: tests of the definitions, and an instance of each theorem.
use lkms.Prelude.{
  All, ℕ, ◌==◌, ◌≡◌, refl, arith, if◌then◌else◌, Option, none, some, List, [], ◌∷◌, map, pos,
}
use lkms.Kernel.Run.{ok, fault, ◌>>=◌, Ends}
use lkms.TaskList.{Task, State, load, last, add_task_data, init, print_list, cleanup}
use lkms.Kernel.Lists.{plain_lists}
use lkms.TaskList.ListHead as ListHead
use lkms.TaskList.ListHead.{rows_of, mylist_of, pids, init-rows}
use lkms.TaskList.Linked.{Linked, AllNew, tasks_of, init-Linked}
use lkms.TaskList.Printed.{all_but_last, row, init-cleanup_rows}

abbrev task : ℕ → Task
task p = record { state = pos 0; pid = p; comm = 1000; on_cpu = 0 }

abbrev empty : State
empty = record { head = 0; nodes = λ p. none }

abbrev three : List (Task × ℕ)
three = (task 1, 64) ∷ (task 2, 128) ∷ (task 3, 192) ∷ []

-- The name at 1000 can be read.
abbrev names : ℕ → Option (List ℕ)
names a = if a == 1000 then some (b's' ∷ b'h' ∷ []) else none

abbrev said : ℕ → List ℕ
said a = b's' ∷ b'h' ∷ []

-- A list without tasks cannot be printed.
no_tasks_test : cleanup 5 names empty ≡ fault
unfolding cleanup print_list load
no_tasks_test = refl

rows_test :
    (init 5 three empty >>= λ s. cleanup 5 names s)
    ≡ ok ((1, b's' ∷ b'h' ∷ [], 0) ∷ (2, b's' ∷ b'h' ∷ [], 0) ∷ [])
unfolding init add_task_data last cleanup print_list load
rows_test = refl

three-AllNew : AllNew empty.nodes three
three-AllNew = (
  omega arith,
  refl,
  (omega arith, (omega arith, tt)),
  (omega arith, refl, (omega arith, tt), (omega arith, refl, tt, tt)),
)

init-Linked_example : Ends (λ t. Linked t.nodes 0 t.head (tasks_of three)) (init 3 three empty)
init-Linked_example = init-Linked 3 three empty refl three-AllNew (omega arith)

init-cleanup_rows_example :
    Ends
      (λ rows. rows ≡ map (row names said) (all_but_last (tasks_of three)))
      (init 3 three empty >>= λ s. cleanup 3 names s)
init-cleanup_rows_example =
    init-cleanup_rows names said 3 (task 1) 64 ((task 2, 128) ∷ (task 3, 192) ∷ []) empty refl
      three-AllNew (refl, (refl, tt)) (omega arith)

init-rows_example :
    Ends
      (λ (rows, nodes').
        (rows ≡ rows_of said three) × All (λ (tsk, temp). nodes' temp ≡ some (mylist_of tsk)) three)
      (ListHead.init plain_lists three names (pids three) (λ p. none))
init-rows_example =
    init-rows plain_lists three names said (λ p. none)
      (
        omega arith,
        (omega arith, (omega arith, tt)),
        (omega arith, (omega arith, tt), (omega arith, tt, tt)),
      )
      (refl, (refl, (refl, tt)))
