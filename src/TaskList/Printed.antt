-- ===== src/TaskList/Printed.antt =====
-- ex5.c: what is printed when the module is unloaded.
use lkms.Prelude.{
  ℕ, zero, suc, ◌<◌, ◌≡◌, refl, ap, arith, ==_of_ne, Option, some, List, [], ◌∷◌, map, All, length,
}
use lkms.Kernel.Run.{ok, ◌>>=◌, Ends, ends, Ends->>=}
use lkms.TaskList.{Task, node_of, State, print_list, init, cleanup}
use lkms.TaskList.Linked.{Linked, load-run, AllNew, tasks_of, init-Linked}

abbrev pub all_but_last : List Task → List Task
all_but_last [] = []
all_but_last (t ∷ []) = []
all_but_last (t ∷ (u ∷ us)) = t ∷ all_but_last (u ∷ us)

length-tasks_of : (tasks : List (Task × ℕ)) → length (tasks_of tasks) ≡ length tasks
length-tasks_of [] = refl
length-tasks_of ((t, a) ∷ tasks) = ap suc (length-tasks_of tasks)

module _ (names : ℕ → Option (List ℕ)) (said : ℕ → List ℕ) where
  -- The task's name can still be read.
  abbrev pub Readable : Task → Type 0
  Readable t = names t.comm ≡ some (said t.comm)

  abbrev pub row : Task → ℕ × List ℕ × ℕ
  row t = (t.pid, said t.comm, t.on_cpu)

  print_list-run :
      (fuel back p : ℕ) (t : Task) (ts : List Task) (s : State)
      → Linked s.nodes back p (t ∷ ts)
      → All Readable (all_but_last (t ∷ ts))
      → length ts < fuel
      → print_list fuel names p s ≡ ok (map row (all_but_last (t ∷ ts)))
  unfolding print_list
  print_list-run zero back p t ts s linked readable f = absurd (omega arith)
  print_list-run (suc fuel) back p t [] s (q, pn, e, z) readable f =
      rw (print_list, load-run s.nodes p (node_of t back q) pn e, ◌>>=◌, z) refl
  print_list-run (suc fuel) back p t (u ∷ us) s (q, pn, e, rest) (here, readable) f =
      rw
        (
          print_list,
          load-run s.nodes p (node_of t back q) pn e,
          ◌>>=◌,
          ==_of_ne q 0 rest.1,
          here,
          print_list-run fuel p q u us s rest readable (omega arith),
        )
        refl

  -- The list of all tasks that is built on loading is printed on unloading, in order and without its
  -- last task. There is at least one task, and the names of those that are printed can still be
  -- read; kmalloc returns new addresses that are not NULL, the list is empty at first, and the fuel
  -- is at least the number of tasks.
  pub init-cleanup_rows :
      (fuel : ℕ) (t : Task) (a : ℕ) (tasks : List (Task × ℕ)) (s : State)
      → s.head ≡ 0
      → AllNew s.nodes ((t, a) ∷ tasks)
      → All Readable (all_but_last (t ∷ tasks_of tasks))
      → length tasks < fuel
      → Ends
          (λ rows. rows ≡ map row (all_but_last (t ∷ tasks_of tasks)))
          (init fuel ((t, a) ∷ tasks) s >>= λ s1. cleanup fuel names s1)
  unfolding cleanup
  init-cleanup_rows fuel t a tasks s empty fresh readable f =
      Ends->>= (init-Linked fuel ((t, a) ∷ tasks) s empty fresh (omega arith)) (λ s1 linked.
        rw
          (print_list-run fuel 0 s1.head t (tasks_of tasks) s1 linked readable
            (omega (arith, length-tasks_of tasks)))
          (ends refl))
