-- ===== src/WssNull.antt =====
-- wss.c (wss1.c and rbb.c are the same file, copy1.c prints a line more): an early version of workingwss.c. `follow_pte` is to
-- hand the entry back through `page_entry`, but only sets its own copy of that pointer.
-- `follow_pte`, `page_check`, `wss_marking`, `start` and `cleanup` model the functions of that name.
mod Marking
mod Examples
use lkms.Prelude.{
  ℕ, zero, suc, ◌+◌, ◌==◌, ltb, if◌then◌else◌, Bool, true, false, not, ◌&&◌, Option, none, some,
  List, [], ◌∷◌, ℤ, pos, neg, ◌==ℤ◌, add32,
}
use lkms.Kernel.Run.{Run, ok, fault, out_of_fuel, ◌>>=◌}
use lkms.Kernel.Paging.{
  Paging, present, protnone, Ptes, set_pte, Vma, no_pgd, no_pud, no_pmd, entry, descend,
}
use lkms.Kernel.Walks.{walk_vmas}

module _ (k : Paging) where
  open k use {Mm, Pte, pte_set_flags, pte_clear_flags, has_flag, pte_present}

  -- The module's variable `wss_size` (a 32-bit pattern), the hook (set or NULL), and the entries.
  pub record State : Type 0 where
    pub ptes : Ptes k
    pub wss_size : ℕ
    pub hooked : Bool

  -- A task as it is found; a kernel thread has no `mm`.
  pub record Task : Type 0 where
    pub pid : ℕ
    pub mm : Option Mm
    pub mmap : List Vma

  -- The result, and the caller's `page_entry`, which stays what it was.
  pub follow_pte : Ptes k → Mm → (addr page_entry : ℕ) → ℤ × ℕ
  follow_pte m mm addr page_entry = elim (descend k mm addr) [
    | no_pgd ↦ (neg 2, page_entry)
    | no_pud ↦ (neg 2, page_entry)
    | no_pmd ↦ (neg 2, page_entry)
    | entry p ↦
        if p == 0
        then (neg 2, page_entry)
        else if pte_present (m p)
        then (pos 1, page_entry)
        else (neg 1, page_entry)
  ]

  -- `*page_entry`
  pub read : Ptes k → ℕ → Run Pte
  read m p = if p == 0 then fault else ok (m p)

  -- The two `set_pte`, which each read the entry first.
  pub protect : ℕ → Ptes k → Run (Ptes k)
  protect p m = read m p >>= λ e.
      let m1 = set_pte k m p (pte_set_flags e protnone) in
      read m1 p >>= λ e1. ok (set_pte k m1 p (pte_clear_flags e1 present))

  pub check_entry : (page_entry : ℕ) → State → Run State
  check_entry p s = read s.ptes p >>= λ e.
      let counted =
        protect p s.ptes >>= λ m. ok (record s { wss_size = add32 s.wss_size 1; ptes = m }) in
      if has_flag e present && not (has_flag e protnone) then counted else ok s

  -- The hook looks at the pid that it is given.
  pub page_check : (pid : ℕ) → Option Task → (address pidd : ℕ) → State → Run State
  page_check pid none address pidd s = if pid == pidd then fault else ok s
  page_check pid (some ts) address pidd s =
      let checked = λ (mm : Mm).
        let (r, page_entry) = follow_pte s.ptes mm address 0 in
        if r ==ℤ pos 1 then check_entry page_entry s else ok s in
      if pid == pidd then (elim ts.mm [ none ↦ fault | some mm ↦ checked mm ]) else ok s

  pub mark_page : Mm → ℕ → State → Run (ℤ × State)
  mark_page mm page_addr s =
      let (r, page_entry) = follow_pte s.ptes mm page_addr 0 in
      if r ==ℤ pos 1
      then (protect page_entry s.ptes >>= λ m. ok (pos 0, record s { ptes = m }))
      else ok (pos 0, s)

  pub wss_marking : ℕ → Option Task → State → Run (ℤ × State)
  wss_marking fuel none s = ok (pos 0, s)
  wss_marking fuel (some ts) s = elim ts.mm [
    | none ↦ fault
    | some mm ↦ walk_vmas (mark_page mm) fuel ts.mmap s
  ]

  -- What happens while the module sleeps: the fault handler calls the hook, if it is set, or the
  -- kernel changes an entry.
  pub data Event : Type 0 where
    page_fault : Option Task → (address pidd : ℕ) → Event
    kernel_sets : ℕ → Pte → Event

  pub happen : (pid : ℕ) → Event → State → Run State
  happen pid (page_fault ts address pidd) s =
      if s.hooked then page_check pid ts address pidd s else ok s
  happen pid (kernel_sets p v) s = ok (record s { ptes = set_pte k s.ptes p v })

  -- msleep
  pub sleep : (pid : ℕ) → List Event → State → Run State
  sleep pid [] s = ok s
  sleep pid (e ∷ es) s = happen pid e s >>= λ t. sleep pid es t

  -- `while (i++ < 60)`, with the WSS that each round prints.
  pub rounds_from : ℕ → (fuel pid i : ℕ) → (ℕ → Task × List Event) → State → Run (List ℕ × State)
  rounds_from zero fuel pid i world s = out_of_fuel
  rounds_from (suc rounds) fuel pid i world s = elim (ltb i 60) [
    | true ↦ wss_marking fuel (some (world i).0) s >>= λ (_, t). sleep pid (world i).1 t >>= λ u.
        rounds_from rounds fuel pid (i + 1) world u >>= λ (out, v). ok (t.wss_size ∷ out, v)
    | false ↦ ok ([], s)
  ]

  -- `found` is what `pid_task` returns; the world tells how the task looks at each round and what
  -- happens in the sleep after it.
  pub start :
      (fuel pid : ℕ)
      → (found : Option Task) → (ℕ → Task × List Event)
      → State
      → Run (List ℕ × State)
  start fuel pid none world s = ok ([], record s { hooked = true })
  start fuel pid (some ts) world s =
      let s' = record s { hooked = true } in
      let out = rounds_from 61 fuel pid 0 world s' in if ts.pid == pid then out else ok ([], s')

  pub cleanup : State → State
  cleanup s = record s { hooked = false }
