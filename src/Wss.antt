-- ===== src/Wss.antt =====
-- workingwss.c: estimates the working set of a process. Each second `wss_marking` makes its pages
-- inaccessible and records their entries in a list; the page-fault hook `page_check` counts a
-- page that is touched and makes it accessible again.
-- Loops run on fuel. `append`, `wss_marking`, `page_check`, `start` and `cleanup` model the
-- functions of that name.
pub mod Memory
mod Append
mod Entries
mod Marked
mod Mark
mod Check
mod Cleanup
mod Erase
mod Kept
mod Same
mod Examples
use lkms.Prelude.{
  ℕ, zero, suc, ◌+◌, ◌==◌, leb, ltb, if◌then◌else◌, Bool, true, false, Option, none, some, List, [],
  ◌∷◌, ℤ, pos, neg, ◌==ℤ◌, add32, add64, page_size,
}
use lkms.Kernel.Run.{Run, ok, fault, out_of_fuel, ◌>>=◌}
use lkms.Kernel.Paging.{
  Paging, present, protnone, Ptes, set_pte, Vma, no_pgd, no_pud, no_pmd, entry, descend,
}
use lkms.Wss.Memory.{Heap, load, store, Allocator}

module _ (k : Paging) where
  open k use {Mm, Pte, pte_set_flags, pte_clear_flags, any_flag, pte_present}

  -- The module's variables `head` and `wss` (a 32-bit pattern) and the kernel's hook
  -- `page_fault_check` (set or NULL), with the memory that they lead to.
  pub record State : Type 0 where
    pub ptes : Ptes k
    pub heap : Heap k
    pub head : ℕ
    pub wss : ℕ
    pub hooked : Bool

  -- A task as it is found; a kernel thread has no `mm`.
  pub record Task : Type 0 where
    pub pid : ℕ
    pub mm : Option Mm
    pub mmap : List Vma

  -- `while (right->next != NULL) right = right->next; right->next = temp;`
  pub link : ℕ → Heap k → (right temp : ℕ) → Run (Heap k)
  link zero h right temp = out_of_fuel
  link (suc fuel) h right temp = load k h right >>= λ n. elim (n.next == 0) [
    | true ↦ store k h right (record { addr = n.addr; next = temp })
    | false ↦ link fuel h n.next temp
  ]

  -- The two `set_pte` of `wss_marking`.
  pub protect : Ptes k → ℕ → Ptes k
  protect m p =
      let m1 = set_pte k m p (pte_set_flags (m p) protnone) in
      set_pte k m1 p (pte_clear_flags (m1 p) present)

  -- The two `set_pte` of `page_check`.
  pub unprotect : Ptes k → ℕ → Ptes k
  unprotect m p =
      let m1 = set_pte k m p (pte_set_flags (m p) present) in
      set_pte k m1 p (pte_clear_flags (m1 p) protnone)

  module _ (a : Allocator k) where
    -- A write through the NULL of a failed `malloc` is a fault.
    pub append : ℕ → Pte → State → Run State
    append fuel address s =
        let temp = a.malloc s.heap in
        let h = (temp, record { addr = address; next = 0 }) ∷ s.heap in
        let linked = link fuel h s.head temp in
        if temp == 0
        then fault
        else if s.head == 0
        then ok (record s { heap = h; head = temp })
        else linked >>= λ h'. ok (record s { heap = h' })

    -- The body of `wss_marking`'s inner loop, from the entry's address on.
    pub mark_entry : ℕ → ℕ → State → Run (ℤ × State)
    mark_entry fuel p s =
        let m = protect s.ptes p in
        if p == 0
        then ok (neg 2, s)
        else if pte_present (s.ptes p)
        then (append fuel (m p) (record s { ptes = m }) >>= λ t. ok (pos 0, t))
        else ok (pos 0, s)

    pub mark_page : ℕ → Mm → ℕ → State → Run (ℤ × State)
    mark_page fuel mm addr s = elim (descend k mm addr) [
      | no_pgd ↦ ok (neg 2, s)
      | no_pud ↦ ok (neg 2, s)
      | no_pmd ↦ ok (neg 2, s)
      | entry p ↦ mark_entry fuel p s
    ]

    -- The loop over the pages of an area, its end included; a result that is not 0 is a `return`.
    pub mark_area : ℕ → ℕ → Mm → (page_addr vm_end : ℕ) → State → Run (ℤ × State)
    mark_area zero fuel mm i b s = out_of_fuel
    mark_area (suc rounds) fuel mm i b s = elim (leb i b) [
      | true ↦ mark_page fuel mm i s >>= λ (r, t). elim (r ==ℤ pos 0) [
        | true ↦ mark_area rounds fuel mm (add64 i page_size) b t
        | false ↦ ok (r, t)
      ]
      | false ↦ ok (pos 0, s)
    ]

    pub mark_areas : ℕ → Mm → List Vma → State → Run (ℤ × State)
    mark_areas fuel mm [] s = ok (pos 0, s)
    mark_areas fuel mm (v ∷ vs) s = mark_area fuel fuel mm v.vm_start v.vm_end s >>= λ (r, t).
        elim (r ==ℤ pos 0) [ true ↦ mark_areas fuel mm vs t | false ↦ ok (r, t) ]

    pub wss_marking : ℕ → Option Task → State → Run (ℤ × State)
    wss_marking fuel none s = ok (pos 0, s)
    wss_marking fuel (some ts) s = elim ts.mm [
      | none ↦ fault
      | some mm ↦ mark_areas fuel mm ts.mmap s
    ]

  -- `page_check`, from the entry's address on.
  pub check_entry : ℕ → State → State
  check_entry p s =
      if p == 0
      then s
      else if any_flag (s.ptes p)
      then record s { wss = add32 s.wss 1; ptes = unprotect s.ptes p }
      else s

  pub check_page : Mm → ℕ → State → State
  check_page mm addr s = elim (descend k mm addr) [
    | no_pgd ↦ s
    | no_pud ↦ s
    | no_pmd ↦ s
    | entry p ↦ check_entry p s
  ]

  -- The hook: `pid` is the module's parameter; the caller's `pidd` is not looked at.
  pub page_check : (pid : ℕ) → Option Task → (addr pidd : ℕ) → State → Run State
  page_check pid none addr pidd s = ok s
  page_check pid (some ts) addr pidd s =
      if ts.pid == pid
      then (elim ts.mm [ none ↦ fault | some mm ↦ ok (check_page mm addr s) ])
      else ok s

  -- What happens while the module sleeps: the fault handler calls the hook, if it is set, or the
  -- kernel changes an entry.
  pub data Event : Type 0 where
    page_fault : Option Task → (addr pidd : ℕ) → Event
    kernel_sets : ℕ → Pte → Event

  pub happen : (pid : ℕ) → Event → State → Run State
  happen pid (page_fault ts addr pidd) s = if s.hooked then page_check pid ts addr pidd s else ok s
  happen pid (kernel_sets p v) s = ok (record s { ptes = set_pte k s.ptes p v })

  -- msleep
  pub sleep : (pid : ℕ) → List Event → State → Run State
  sleep pid [] s = ok s
  sleep pid (e ∷ es) s = happen pid e s >>= λ t. sleep pid es t

  module _ (a : Allocator k) where
    -- `while (i++ < 10)`, with the WSS that each round prints.
    pub rounds_from : ℕ → (fuel pid i : ℕ) → (ℕ → Task × List Event) → State → Run (List ℕ × State)
    rounds_from zero fuel pid i world s = out_of_fuel
    rounds_from (suc rounds) fuel pid i world s = elim (ltb i 10) [
      | true ↦ wss_marking a fuel (some (world i).0) s >>= λ (_, t).
          sleep pid (world i).1 t >>= λ u.
          rounds_from rounds fuel pid (i + 1) world u >>= λ (out, v). ok (t.wss ∷ out, v)
      | false ↦ ok ([], s)
    ]

    -- `found` is what `pid_task` returns; the world tells how the task looks at each round and what
    -- happens in the sleep after it.
    pub start :
        (fuel pid : ℕ) → Option Task → (ℕ → Task × List Event) → State → Run (List ℕ × State)
    start fuel pid none world s = ok ([], record s { hooked = true })
    start fuel pid (some ts) world s =
        let s' = record s { hooked = true } in
        let out = rounds_from 11 fuel pid 0 world s' in if ts.pid == pid then out else ok ([], s')

  -- `while (ptr->next != NULL)`: the new entries that its body computes are not stored anywhere.
  pub restore : ℕ → Heap k → ℕ → Run (Unit {0})
  restore zero h ptr = out_of_fuel
  restore (suc fuel) h ptr =
      load k h ptr >>= λ n. elim (n.next == 0) [ true ↦ ok tt | false ↦ restore fuel h n.next ]

  pub cleanup : ℕ → State → Run State
  cleanup fuel s = let s' = record s { hooked = false } in restore fuel s.heap s.head >>= λ _. ok s'
