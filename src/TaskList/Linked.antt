-- ===== src/TaskList/Linked.antt =====
-- ex5.c: the list that `init` builds is linked both ways.
use lkms.Prelude.{
  ℕ, zero, suc, ◌+◌, ◌<◌, ◌≤◌, ◌≡◌, ◌≢◌, refl, sym, ◌∙◌, ap, arith, ==-self, ==_of_ne, true, false,
  length-append, append_assoc, append_nil, Bool, Option, none, some, List, [], ◌∷◌, ◌++◌, All,
  length,
}
use mathlib.Core.Bool.{false≢true}
use mathlib.Core.Path.{subst}
use lkms.Kernel.Run.{ok, ◌>>=◌, Ends, ends, Ends->>=}
use lkms.TaskList.{Task, Node, node_of, State, put, load, last, add_task_data, init}

-- From `p`, behind `back`, nodes of these tasks are linked both ways, to NULL.
abbrev pub Linked : (h : ℕ → Option Node) → (back p : ℕ) → List Task → Type 0
Linked h back p [] = p ≡ 0
Linked h back p (t ∷ ts) = (q : ℕ) × (p ≢ 0) × (h p ≡ some (node_of t back q)) × Linked h p q ts

pub load-run : (h : ℕ → Option Node) (p : ℕ) (n : Node) → p ≢ 0 → h p ≡ some n → load p h ≡ ok n
unfolding load
load-run h p n ne e = rw (==_of_ne p 0 ne, e) refl

put_self : (h : ℕ → Option Node) (p : ℕ) (n : Node) → put h p n p ≡ some n
put_self h p n = rw (==-self p) refl

put-other : (h : ℕ → Option Node) (p q : ℕ) (n : Node) → p ≢ q → put h p n q ≡ h q
put-other h p q n ne = rw (==_of_ne p q ne) refl

-- Nodes with a node behind them are the same in both heaps.
abbrev KeepsInner : (h h' : ℕ → Option Node) → Type 0
KeepsInner h h' = (x : ℕ) (m : Node) → h x ≡ some m → m.next ≢ 0 → h' x ≡ some m

-- The walk finds the last node `c`, and a list is linked that differs in what stands behind it.
record LinksBehind (fuel : ℕ) (h : ℕ → Option Node) (back p : ℕ) (ts : List Task) (u : Task)
    (new : ℕ) : Type 0 where
  c : ℕ
  n : Node
  found : last fuel p h ≡ ok c
  real : c ≢ 0
  here : h c ≡ some n
  at_end : n.next ≡ 0
  extended :
      (h' : ℕ → Option Node)
      → KeepsInner h h'
      → h' c ≡ some (record n { next = new })
      → h' new ≡ some (node_of u c 0)
      → Linked h' back p (ts ++ u ∷ [])

last-LinksBehind :
    (fuel : ℕ) (h : ℕ → Option Node) (back p : ℕ) (t : Task) (ts : List Task) (u : Task) (new : ℕ)
    → new ≢ 0
    → Linked h back p (t ∷ ts)
    → length ts < fuel
    → LinksBehind fuel h back p (t ∷ ts) u new
unfolding last
last-LinksBehind zero h back p t ts u new real linked f = absurd (omega arith)
last-LinksBehind (suc fuel) h back p t [] u new real (q, pn, e, z) f = record {
  c = p;
  n = node_of t back q;
  found = rw (load-run h p (node_of t back q) pn e, ◌>>=◌, z) refl;
  real = pn;
  here = e;
  at_end = z;
  extended = λ h' keep at_p at_new. (new, pn, at_p, (0, real, at_new, refl));
}
last-LinksBehind (suc fuel) h back p t (t2 ∷ ts) u new real (q, pn, e, rest) f =
    let l = last-LinksBehind fuel h p q t2 ts u new real rest (omega arith) in
    let qn : q ≢ 0 = rest.1 in
    record {
      c = l.c;
      n = l.n;
      found = rw (load-run h p (node_of t back q) pn e, ◌>>=◌, ==_of_ne q 0 qn) l.found;
      real = l.real;
      here = l.here;
      at_end = l.at_end;
      extended = λ h' keep at_c at_new.
          (q, pn, keep p (node_of t back q) e qn, l.extended h' keep at_c at_new);
    }

-- `head` leads to the linked list of these tasks.
abbrev pub Holds : List Task → State → Type 0
Holds ts s = Linked s.nodes 0 s.head ts

-- What is not in use, but for `new`, is not in use afterwards.
abbrev Spares : (new : ℕ) → (s t : State) → Type 0
Spares new s t = (x : ℕ) → s.nodes x ≡ none → x ≢ new → t.nodes x ≡ none

abbrev is_used : Option Node → Bool
is_used none = false
is_used (some n) = true

abbrev next_of : Option Node → ℕ
next_of none = 0
next_of (some n) = n.next

free_ne_used : (h : ℕ → Option Node) (p q : ℕ) (n : Node) → h p ≡ none → h q ≡ some n → p ≢ q
free_ne_used h p q n free used e = false≢true (ap is_used (sym free ∙ ap h e ∙ used))

-- The two nodes that linking writes are the last one and a new one.
put_two-KeepsInner :
    (h : ℕ → Option Node) (c new : ℕ) (n v w : Node)
    → h c ≡ some n
    → n.next ≡ 0
    → h new ≡ none
    → KeepsInner h (put (put h c v) new w)
put_two-KeepsInner h c new n v w here at_end fresh x m e inner =
    put-other (put h c v) new x w (free_ne_used h new x m fresh e)
    ∙ put-other h c x v (λ same. inner (sym (ap next_of (sym here ∙ ap h same ∙ e)) ∙ at_end))
    ∙ e

add_task_data-Holds :
    (fuel new : ℕ) (u : Task) (ts : List Task) (s : State)
    → new ≢ 0
    → s.nodes new ≡ none
    → Holds ts s
    → length ts ≤ fuel
    → Ends (λ t. Holds (ts ++ u ∷ []) t × Spares new s t) (add_task_data fuel new u s)
unfolding add_task_data
add_task_data-Holds fuel new u [] s real fresh empty f =
    rw (==_of_ne new 0 real, empty)
      (ends (
        (0, real, put_self s.nodes new (node_of u 0 0), refl),
        λ x gone other. put-other s.nodes new x (node_of u 0 0) (λ e. other (sym e)) ∙ gone,
      ))
add_task_data-Holds fuel new u (t ∷ ts) s real fresh linked f =
    let l = last-LinksBehind fuel s.nodes 0 s.head t ts u new real linked (omega arith) in
    let changed = put s.nodes l.c (record l.n { next = new }) in
    let apart : new ≢ l.c = free_ne_used s.nodes new l.c l.n fresh l.here in
    let changed' = put changed new (node_of u l.c 0) in
    let spares : (x : ℕ) → s.nodes x ≡ none → x ≢ new → changed' x ≡ none = λ x gone other.
      put-other changed new x (node_of u l.c 0) (λ e. other (sym e))
      ∙ put-other s.nodes l.c x (record l.n { next = new })
          (λ e. free_ne_used s.nodes x l.c l.n gone l.here (sym e))
      ∙ gone in
    rw
      (
        ==_of_ne new 0 real,
        ==_of_ne s.head 0 linked.1,
        l.found,
        ◌>>=◌,
        load-run s.nodes l.c l.n l.real l.here,
      )
      (ends (
        l.extended changed'
            (put_two-KeepsInner s.nodes l.c new l.n (record l.n { next = new }) (node_of u l.c 0)
              l.here l.at_end fresh)
            (put-other changed new l.c (node_of u l.c 0) apart
              ∙ put_self s.nodes l.c (record l.n { next = new }))
            (put_self changed new (node_of u l.c 0)),
        spares,
      ))

-- Each address from kmalloc is real, is not in use, and is given once.
abbrev pub AllNew : (ℕ → Option Node) → List (Task × ℕ) → Type 0
AllNew h [] = Unit
AllNew h ((t, a) ∷ tasks) = (a ≢ 0) × (h a ≡ none) × All (λ (u, b). b ≢ a) tasks × AllNew h tasks

AllNew-kept :
    (s t : State) (new : ℕ) (tasks : List (Task × ℕ))
    → Spares new s t
    → All (λ (u, b). b ≢ new) tasks
    → AllNew s.nodes tasks
    → AllNew t.nodes tasks
AllNew-kept s t new [] spares others fresh = tt
AllNew-kept s t new ((u, a) ∷ tasks) spares (other, others) (real, free, once, fresh) =
    (real, spares a free other, once, AllNew-kept s t new tasks spares others fresh)

abbrev pub tasks_of : List (Task × ℕ) → List Task
tasks_of [] = []
tasks_of ((t, a) ∷ tasks) = t ∷ tasks_of tasks

init-Holds :
    (fuel : ℕ) (tasks : List (Task × ℕ)) (before : List Task) (s : State)
    → AllNew s.nodes tasks
    → Holds before s
    → length before + length tasks ≤ fuel
    → Ends (Holds (before ++ tasks_of tasks)) (init fuel tasks s)
unfolding init
init-Holds fuel [] before s fresh held f = ends (subst (λ ts. Holds ts s) (append_nil before) held)
init-Holds fuel ((t, a) ∷ tasks) before s (real, free, once, fresh) held f =
    Ends->>= (add_task_data-Holds fuel a t before s real free held (omega arith))
      (λ s1 (held1, spares).
        let step =
          init-Holds fuel tasks (before ++ t ∷ []) s1 (AllNew-kept s s1 a tasks spares once fresh)
            held1 (omega (arith, length-append before (t ∷ []))) in
        subst (λ ts. Ends (Holds ts) (init fuel tasks s1))
          (append_assoc before (t ∷ []) (tasks_of tasks)) step)

-- Adding tasks one by one to an empty list ends, and leaves a list of them all in that order, which
-- is linked in both directions and ends in NULL. Each address that kmalloc returns is not NULL, was
-- not in use, and is returned once; the fuel is at least the number of tasks.
pub init-Linked :
    (fuel : ℕ) (tasks : List (Task × ℕ)) (s : State)
    → s.head ≡ 0
    → AllNew s.nodes tasks
    → length tasks ≤ fuel
    → Ends (λ t. Linked t.nodes 0 t.head (tasks_of tasks)) (init fuel tasks s)
init-Linked fuel tasks s empty fresh f = init-Holds fuel tasks [] s fresh empty (omega arith)
