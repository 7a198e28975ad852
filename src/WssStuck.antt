-- ===== src/WssStuck.antt =====
-- wssdemo.c: a version of workingwss.c that keeps no list, runs for 60 rounds, and whose `page_check`
-- hides an entry again where workingwss.c makes it accessible. The variables are those of
-- wssdemo3.c. `page_check`, `wss_marking`, `start` and `cleanup` model the functions of that name.
mod Hides
mod Counts
mod Examples
use lkms.Prelude.{
  ℕ, zero, suc, ◌+◌, ◌==◌, ltb, if◌then◌else◌, ◌&&◌, true, false, Option, none, some, List, [], ◌∷◌,
  ℤ, pos, neg, add32,
}
use lkms.Kernel.Run.{Run, ok, fault, out_of_fuel, ◌>>=◌}
use lkms.Kernel.Paging.{
  Paging, present, protnone, Ptes, set_pte, no_pgd, no_pud, no_pmd, entry, descend,
}
use lkms.Kernel.Walks.{walk_vmas}
use lkms.WssZero.{State, Task, Event, page_fault, kernel_sets}

module _ (k : Paging) where
  open k use {Mm, pte_set_flags, pte_clear_flags, pte_present, has_flag}

  -- The two `set_pte`, the same in `wss_marking` and in `page_check`.
  unfoldable pub protect : Ptes k → ℕ → Ptes k
  protect m p =
      let m1 = set_pte k m p (pte_clear_flags (m p) present) in
      set_pte k m1 p (pte_set_flags (m1 p) protnone)

  unfoldable pub mark_entry : ℕ → State k → Run (ℤ × State k)
  mark_entry p s =
      if p == 0
      then ok (neg 2, s)
      else if pte_present (s.ptes p)
      then ok (pos 0, record s { ptes = protect s.ptes p })
      else ok (pos 0, s)

  unfoldable pub mark_page : Mm → ℕ → State k → Run (ℤ × State k)
  mark_page mm page_addr s = elim (descend k mm page_addr) [
    | no_pgd ↦ ok (neg 2, s)
    | no_pud ↦ ok (neg 2, s)
    | no_pmd ↦ ok (neg 2, s)
    | entry p ↦ mark_entry p s
  ]

  unfoldable pub wss_marking : ℕ → Option (Task k) → State k → Run (ℤ × State k)
  wss_marking fuel none s = ok (pos 0, s)
  wss_marking fuel (some ts) s = elim ts.mm [
    | none ↦ fault
    | some mm ↦ walk_vmas (mark_page mm) fuel ts.mmap s
  ]

  -- `page_check`, from the entry's address on.
  unfoldable pub check_entry : ℕ → State k → State k
  check_entry p s =
      if p == 0
      then s
      else if pte_present (s.ptes p) && has_flag (s.ptes p) protnone
      then record s { wss = add32 s.wss 1; ptes = protect s.ptes p }
      else s

  unfoldable pub check_page : Mm → ℕ → State k → State k
  check_page mm addr s = elim (descend k mm addr) [
    | no_pgd ↦ s
    | no_pud ↦ s
    | no_pmd ↦ s
    | entry p ↦ check_entry p s
  ]

  unfoldable pub page_check :
      (pid : ℕ) → Option (Task k) → (addr pidd : ℕ) → State k → Run (State k)
  page_check pid none addr pidd s = ok s
  page_check pid (some ts) addr pidd s =
      if ts.pid == pid
      then (elim ts.mm [ none ↦ fault | some mm ↦ ok (check_page mm addr s) ])
      else ok s

  -- What happens in the sleep.
  unfoldable pub happen : (pid : ℕ) → Event k → State k → Run (State k)
  happen pid (page_fault e) s = if s.hooked then page_check pid e.task e.addr e.pidd s else ok s
  happen pid (kernel_sets p v) s = ok (record s { ptes = set_pte k s.ptes p v })

  -- msleep
  unfoldable pub sleep : (pid : ℕ) → List (Event k) → State k → Run (State k)
  sleep pid [] s = ok s
  sleep pid (e ∷ es) s = happen pid e s >>= λ t. sleep pid es t

  -- `while (i++ < 60)`, with the WSS that each round prints.
  unfoldable pub rounds_from :
      ℕ → (fuel pid i : ℕ) → (ℕ → Task k × List (Event k)) → State k → Run (List ℕ × State k)
  rounds_from zero fuel pid i world s = out_of_fuel
  rounds_from (suc rounds) fuel pid i world s = elim (ltb i 60) [
    | true ↦ wss_marking fuel (some (world i).0) s >>= λ (_, t). sleep pid (world i).1 t >>= λ u.
        rounds_from rounds fuel pid (i + 1) world u >>= λ (out, v). ok (t.wss ∷ out, v)
    | false ↦ ok ([], s)
  ]

  -- `found` is what `pid_task` returns; the world tells how the task looks at each round and what
  -- happens in the sleep after it.
  unfoldable pub start :
      (fuel pid : ℕ)
      → (found : Option (Task k)) → (ℕ → Task k × List (Event k))
      → State k
      → Run (List ℕ × State k)
  start fuel pid none world s = ok ([], record s { hooked = true })
  start fuel pid (some ts) world s =
      let s' = record s { hooked = true } in
      let out = rounds_from 61 fuel pid 0 world s' in if ts.pid == pid then out else ok ([], s')

  unfoldable pub cleanup : State k → State k
  cleanup s = record s { hooked = false }
