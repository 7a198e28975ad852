-- ===== src/TaskList.antt =====
-- ex5.c: a doubly linked list of the tasks, built when the module is loaded and printed when it is
-- unloaded.
-- `add_task_data`, `init` and `cleanup` model the functions of that name.
mod Linked
mod Printed
mod ListHead
mod Examples
use lkms.Prelude.{ℕ, zero, suc, ◌==◌, if◌then◌else◌, Option, none, some, List, [], ◌∷◌, ℤ}
use lkms.Kernel.Run.{Run, ok, fault, out_of_fuel, ◌>>=◌}

-- What is read of a `struct task_struct`; `comm` is the address of the name in it.
pub record Task : Type 0 where
  pub state : ℤ
  pub pid : ℕ
  pub comm : ℕ
  pub on_cpu : ℕ

-- `struct mylist`; `name` is a pointer into the task.
pub record Node : Type 0 where
  pub state : ℤ
  pub pid : ℕ
  pub name : ℕ
  pub processor : ℕ
  pub prev : ℕ
  pub next : ℕ

-- The node of a task, with its links.
abbrev pub node_of : Task → (prev next : ℕ) → Node
node_of ts prev next = record {
  state = ts.state;
  pid = ts.pid;
  name = ts.comm;
  processor = ts.on_cpu;
  prev = prev;
  next = next;
}

-- `head`, and the nodes in use by their addresses.
pub record State : Type 0 where
  pub head : ℕ
  pub nodes : ℕ → Option Node

abbrev pub put : (ℕ → Option Node) → ℕ → Node → ℕ → Option Node
put h p n q = if p == q then some n else h q

-- A dereference: NULL, and what is not in use, is a fault.
pub load : ℕ → (ℕ → Option Node) → Run Node
load p h = if p == 0 then fault else (elim (h p) [ none ↦ fault | some n ↦ ok n ])

-- `while (tmp->next != NULL) tmp = tmp->next;`
pub last : ℕ → (tmp : ℕ) → (ℕ → Option Node) → Run ℕ
last zero tmp h = out_of_fuel
last (suc fuel) tmp h =
    load tmp h >>= λ n. let rest = last fuel n.next h in if n.next == 0 then ok tmp else rest

-- `new` is what kmalloc returns; its links are set in each branch before they are read.
pub add_task_data : ℕ → (new : ℕ) → Task → State → Run State
add_task_data fuel new ts s =
    let first = ok (record { head = new; nodes = put s.nodes new (node_of ts 0 0) }) in
    let linked = last fuel s.head s.nodes >>= λ tmp. load tmp s.nodes >>= λ n.
    ok (record s {
      nodes = put (put s.nodes tmp (record n { next = new })) new (node_of ts tmp 0);
    }) in
    if new == 0 then fault else if s.head == 0 then first else linked

-- for_each_process: the tasks, each with what kmalloc returns for it.
pub init : ℕ → List (Task × ℕ) → State → Run State
init fuel [] s = ok s
init fuel ((ts, new) ∷ tasks) s = add_task_data fuel new ts s >>= λ t. init fuel tasks t

-- The loop of `cleanup`: the pid, the name and the processor of each line printed. `names` is the
-- memory of the names by then; one that is gone is a fault.
pub print_list : ℕ → (names : ℕ → Option (List ℕ)) → (ptr : ℕ) → State → Run (List (ℕ × List ℕ × ℕ))
print_list zero names ptr s = out_of_fuel
print_list (suc fuel) names ptr s = load ptr s.nodes >>= λ n.
    let rest = print_list fuel names n.next s in
    let printed : Run (List (ℕ × List ℕ × ℕ)) = elim (names n.name) [
      | none ↦ fault
      | some name ↦ rest >>= λ rows. ok ((n.pid, name, n.processor) ∷ rows)
    ] in
    if n.next == 0 then ok [] else printed

pub cleanup : ℕ → (names : ℕ → Option (List ℕ)) → State → Run (List (ℕ × List ℕ × ℕ))
cleanup fuel names s = print_list fuel names s.head s
