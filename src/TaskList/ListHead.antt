-- ===== src/TaskList/ListHead.antt =====
-- ex5list3.c: a version of ex5.c that uses the kernel's lists, and prints the list at once, beside a
-- second walk of the tasks. `fill` and `traverse` are the two loops of `init`.
use lkms.Prelude.{
  ℕ, ◌==◌, ◌≡◌, ◌≢◌, refl, ◌∙◌, ap, ==-self, ==_of_ne, if◌then◌else◌, Option, none, some, List, [],
  ◌∷◌, ◌++◌, ℤ, All, append_nil, append_assoc,
}
use lkms.Kernel.Run.{Run, ok, fault, ◌>>=◌, Ends, ends, Ends-value}
use lkms.Kernel.Lists.{ListHeads}
use lkms.TaskList.{Task}
use lkms.ProdCons.{task_here, next_task}

-- `struct mylist`; `list` is its first field, so that an entry's address is that of its node.
pub record MyList : Type 0 where
  pub state : ℤ
  pub pid : ℕ
  pub processor : ℕ
  pub name : ℕ

-- A line: the pid in the list, the pid of the second walk, the state, the name and the processor.
pub record Row : Type 0 where
  pub mylist_pid : ℕ
  pub task_pid : ℕ
  pub state : ℤ
  pub name : List ℕ
  pub on_cpu : ℕ

abbrev pub Nodes : Type 0
Nodes = ℕ → Option MyList

abbrev pub put : Nodes → ℕ → MyList → Nodes
put nodes p n q = if p == q then some n else nodes q

abbrev pub mylist_of : Task → MyList
mylist_of tsk = record { state = tsk.state; pid = tsk.pid; processor = tsk.on_cpu; name = tsk.comm }

-- The loop of list_for_each over the entries `pos`; `here` is where the second walk is, and `names`
-- the memory of the names.
pub traverse :
    (pos : List ℕ) → Nodes → (names : ℕ → Option (List ℕ)) → (tasks2 here : List ℕ) → Run (List Row)
traverse [] nodes names tasks2 here = ok []
traverse (p ∷ pos) nodes names tasks2 here =
    let rest = traverse pos nodes names tasks2 (next_task tasks2 here) in
    elim (nodes p) [
      | none ↦ fault
      | some temp ↦ elim (names temp.name) [
        | none ↦ fault
        | some name ↦ rest >>= λ rows. ok (
            record {
              mylist_pid = temp.pid;
              task_pid = task_here here;
              state = temp.state;
              name = name;
              on_cpu = temp.processor;
            }
            ∷ rows)
      ]
    ]

-- What the second walk meets where it finds the same tasks.
abbrev pub pids : List (Task × ℕ) → List ℕ
pids [] = []
pids ((tsk, temp) ∷ tasks) = tsk.pid ∷ pids tasks

abbrev pub addresses : List (Task × ℕ) → List ℕ
addresses [] = []
addresses ((tsk, temp) ∷ tasks) = temp ∷ addresses tasks

abbrev pub rows_of : (said : ℕ → List ℕ) → List (Task × ℕ) → List Row
rows_of said [] = []
rows_of said ((tsk, temp) ∷ tasks) =
    record {
      mylist_pid = tsk.pid;
      task_pid = tsk.pid;
      state = tsk.state;
      name = said tsk.comm;
      on_cpu = tsk.on_cpu;
    }
    ∷ rows_of said tasks

-- kmalloc gives every task memory of its own.
abbrev pub AllNew : List (Task × ℕ) → Type 0
AllNew [] = Unit {0}
AllNew ((tsk, temp) ∷ tasks) = (temp ≢ 0) × All (λ (t, b). b ≢ temp) tasks × AllNew tasks

put-other : (nodes : Nodes) (p : ℕ) (n : MyList) (q : ℕ) → p ≢ q → put nodes p n q ≡ nodes q
put-other nodes p n q away = rw (==_of_ne p q away) refl

traverse-rows :
    (tasks : List (Task × ℕ)) (nodes : Nodes) (names : ℕ → Option (List ℕ)) (said : ℕ → List ℕ)
    (tasks2 : List ℕ)
    → All (λ (tsk, temp). nodes temp ≡ some (mylist_of tsk)) tasks
    → All (λ (tsk, temp). names tsk.comm ≡ some (said tsk.comm)) tasks
    → traverse (addresses tasks) nodes names tasks2 (pids tasks) ≡ ok (rows_of said tasks)
unfolding traverse
traverse-rows [] nodes names said tasks2 stored named = refl
traverse-rows ((tsk, temp) ∷ tasks) nodes names said tasks2 (here, stored) (name, named) =
    rw (traverse, here, name, traverse-rows tasks nodes names said tasks2 stored named) refl

module _ (k : ListHeads) where
  open k use {Head, entries, init_list_head, list_add_tail, entries-init, entries-add_tail}

  -- The loop of for_each_process: the tasks, each with what kmalloc returns for it.
  pub fill : List (Task × ℕ) → Nodes → Head → Run (Nodes × Head)
  fill [] nodes ptr = ok (nodes, ptr)
  fill ((tsk, temp) ∷ tasks) nodes ptr =
      let rest = fill tasks (put nodes temp (mylist_of tsk)) (list_add_tail ptr temp) in
      if temp == 0 then fault else rest

  -- `nodes` is the memory before; the second walk starts behind `init_task`.
  pub init :
      (tasks : List (Task × ℕ))
      → (names : ℕ → Option (List ℕ)) → (tasks2 : List ℕ) → Nodes
      → Run (List Row × Nodes)
  init tasks names tasks2 nodes = fill tasks nodes init_list_head >>= λ (nodes', ptr).
      traverse (entries ptr) nodes' names tasks2 tasks2 >>= λ rows. ok (rows, nodes')

  -- What `fill` leaves: the entries behind those of before, their nodes, and all else as it was.
  pub record Filled (tasks : List (Task × ℕ)) (nodes : Nodes) (ptr : Head) (r : Nodes × Head)
      : Type 0 where
    pub entries_of : entries r.1 ≡ entries ptr ++ addresses tasks
    pub stored : All (λ (tsk, temp). r.0 temp ≡ some (mylist_of tsk)) tasks
    pub kept : (q : ℕ) → All (λ (t, b). b ≢ q) tasks → r.0 q ≡ nodes q

  fill-Filled :
      (tasks : List (Task × ℕ)) (nodes : Nodes) (ptr : Head)
      → AllNew tasks
      → Ends (Filled tasks nodes ptr) (fill tasks nodes ptr)
  unfolding fill
  fill-Filled [] nodes ptr new =
      ends (record { entries_of = append_nil (entries ptr); stored = tt; kept = λ q away. refl })
  fill-Filled ((tsk, temp) ∷ tasks) nodes ptr (not_null, others, new) =
      let nodes1 = put nodes temp (mylist_of tsk) in
      let ((nodes', ptr'), run, f) =
        Ends-value (fill-Filled tasks nodes1 (list_add_tail ptr temp) new) in
      let own : nodes1 temp ≡ some (mylist_of tsk) = rw (==-self temp) refl in
      let added : entries ptr' ≡ entries ptr ++ (temp ∷ addresses tasks) =
        f.entries_of
        ∙ ap (λ l. l ++ addresses tasks) (entries-add_tail ptr temp)
        ∙ append_assoc (entries ptr) (temp ∷ []) (addresses tasks) in
      rw (==_of_ne temp 0 not_null, run)
        (ends (record {
          entries_of = added;
          stored = (f.kept temp others ∙ own, f.stored);
          kept = λ q (away, rest). f.kept q rest ∙ put-other nodes temp (mylist_of tsk) q away;
        }))

  -- If kmalloc gives each task memory of its own, the names can be read, and the second walk finds
  -- the same tasks, then ex5list3.c comes to its end without a fault and prints a line for each task,
  -- in order, in which both pids are the task's; the nodes stay in use, with what was read of the
  -- tasks.
  pub init-rows :
      (tasks : List (Task × ℕ)) (names : ℕ → Option (List ℕ)) (said : ℕ → List ℕ) (nodes : Nodes)
      → AllNew tasks
      → All (λ (tsk, temp). names tsk.comm ≡ some (said tsk.comm)) tasks
      → Ends
          (λ (rows, nodes').
            (rows ≡ rows_of said tasks)
            × All (λ (tsk, temp). nodes' temp ≡ some (mylist_of tsk)) tasks)
          (init tasks names (pids tasks) nodes)
  unfolding init
  init-rows tasks names said nodes new named =
      let ((nodes', ptr), run, f) = Ends-value (fill-Filled tasks nodes init_list_head new) in
      let all : entries ptr ≡ addresses tasks =
        f.entries_of ∙ ap (λ l. l ++ addresses tasks) entries-init in
      let printed = traverse-rows tasks nodes' names said (pids tasks) f.stored named in
      rw (run, ◌>>=◌, all, printed) (ends (refl, f.stored))
