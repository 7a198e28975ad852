-- ===== src/WssZero.antt =====
-- wssdemo3.c: a version of workingwss.c that keeps no list, and sets the count to 0 each second.
-- `page_check`, `wss_marking`, `start` and `cleanup` model the functions of that name.
pub mod Prints
mod Examples
use lkms.Prelude.{
  ℕ, zero, suc, ◌+◌, ◌==◌, ltb, if◌then◌else◌, Bool, true, false, Option, none, some, List, [], ◌∷◌,
  ℤ, pos, neg, add32,
}
use lkms.Kernel.Run.{Run, ok, fault, out_of_fuel, ◌>>=◌}
use lkms.Kernel.Paging.{
  Paging, present, protnone, Ptes, set_pte, Vma, no_pgd, no_pud, no_pmd, entry, descend,
}
use lkms.Kernel.Walks.{walk_vmas}

module _ (k : Paging) where
  open k use {Mm, Pte, pte_set_flags, pte_clear_flags, any_flag, pte_present}

  -- The module's variable `wss` (a 32-bit pattern), the hook (set or NULL), and the entries.
  pub record State : Type 0 where
    pub ptes : Ptes k
    pub wss : ℕ
    pub hooked : Bool

  -- A task as it is found; a kernel thread has no `mm`.
  pub record Task : Type 0 where
    pub pid : ℕ
    pub mm : Option Mm
    pub mmap : List Vma

  -- The two `set_pte` of `wss_marking`, and those of `page_check`.
  unfoldable pub protect : Ptes k → ℕ → Ptes k
  protect m p =
      let m1 = set_pte k m p (pte_set_flags (m p) protnone) in
      set_pte k m1 p (pte_clear_flags (m1 p) present)

  unfoldable pub unprotect : Ptes k → ℕ → Ptes k
  unprotect m p =
      let m1 = set_pte k m p (pte_set_flags (m p) present) in
      set_pte k m1 p (pte_clear_flags (m1 p) protnone)

  unfoldable pub mark_entry : ℕ → State → Run (ℤ × State)
  mark_entry p s =
      if p == 0
      then ok (neg 2, s)
      else if pte_present (s.ptes p)
      then ok (pos 0, record s { ptes = protect s.ptes p })
      else ok (pos 0, s)

  unfoldable pub mark_page : Mm → ℕ → State → Run (ℤ × State)
  mark_page mm addr s = elim (descend k mm addr) [
    | no_pgd ↦ ok (neg 2, s)
    | no_pud ↦ ok (neg 2, s)
    | no_pmd ↦ ok (neg 2, s)
    | entry p ↦ mark_entry p s
  ]

  unfoldable pub wss_marking : ℕ → Option Task → State → Run (ℤ × State)
  wss_marking fuel none s = ok (pos 0, s)
  wss_marking fuel (some ts) s = elim ts.mm [
    | none ↦ fault
    | some mm ↦ walk_vmas (mark_page mm) fuel ts.mmap s
  ]

  -- `page_check`, from the entry's address on.
  unfoldable pub check_entry : ℕ → State → State
  check_entry p s =
      if p == 0
      then s
      else if any_flag (s.ptes p)
      then record s { wss = add32 s.wss 1; ptes = unprotect s.ptes p }
      else s

  unfoldable pub check_page : Mm → ℕ → State → State
  check_page mm addr s = elim (descend k mm addr) [
    | no_pgd ↦ s
    | no_pud ↦ s
    | no_pmd ↦ s
    | entry p ↦ check_entry p s
  ]

  unfoldable pub page_check : (pid : ℕ) → Option Task → (addr pidd : ℕ) → State → Run State
  page_check pid none addr pidd s = ok s
  page_check pid (some ts) addr pidd s =
      if ts.pid == pid
      then (elim ts.mm [ none ↦ fault | some mm ↦ ok (check_page mm addr s) ])
      else ok s

  -- A page fault, which the fault handler reports to the hook, if it is set.
  pub record PageFault : Type 0 where
    pub task : Option Task
    pub addr : ℕ
    pub pidd : ℕ

  -- What happens in the sleep: a page fault, or the kernel's own change of an entry.
  pub data Event : Type 0 where
    page_fault : PageFault → Event
    kernel_sets : ℕ → Pte → Event

  unfoldable pub happen : (pid : ℕ) → Event → State → Run State
  happen pid (page_fault e) s = if s.hooked then page_check pid e.task e.addr e.pidd s else ok s
  happen pid (kernel_sets p v) s = ok (record s { ptes = set_pte k s.ptes p v })

  -- msleep
  unfoldable pub sleep : (pid : ℕ) → List Event → State → Run State
  sleep pid [] s = ok s
  sleep pid (e ∷ es) s = happen pid e s >>= λ t. sleep pid es t

  -- `while (i++ < 10)`, with the WSS that each round prints: `wss = 0; wss_marking(ts);
  -- printk(…, wss); msleep(10000);`
  unfoldable pub rounds_from :
      ℕ → (fuel pid i : ℕ) → (ℕ → Task × List Event) → State → Run (List ℕ × State)
  rounds_from zero fuel pid i world s = out_of_fuel
  rounds_from (suc rounds) fuel pid i world s = elim (ltb i 10) [
    | true ↦ wss_marking fuel (some (world i).0) (record s { wss = 0 }) >>= λ (_, t).
        sleep pid (world i).1 t >>= λ u.
        rounds_from rounds fuel pid (i + 1) world u >>= λ (out, v). ok (t.wss ∷ out, v)
    | false ↦ ok ([], s)
  ]

  -- `found` is what `pid_task` returns; the world tells how the task looks at each round and what
  -- happens in the sleep after it.
  unfoldable pub start :
      (fuel pid : ℕ)
      → (found : Option Task) → (ℕ → Task × List Event)
      → State
      → Run (List ℕ × State)
  start fuel pid none world s = ok ([], record s { hooked = true })
  start fuel pid (some ts) world s =
      let s' = record s { hooked = true } in
      let out = rounds_from 11 fuel pid 0 world s' in if ts.pid == pid then out else ok ([], s')

  unfoldable pub cleanup : State → State
  cleanup s = record s { hooked = false }
