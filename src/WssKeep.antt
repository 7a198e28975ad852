-- ===== src/WssKeep.antt =====
-- wss4.c, wss5.c and wss3.c: versions of workingwss.c that keep no list. Their `page_check` and
-- `wss_marking` are those of wssdemo3.c, but the count is never set back; they differ in the number
-- of rounds, 10, 30 and 40.
mod Prefix
mod Examples
use lkms.Prelude.{
  ℕ, zero, suc, ◌+◌, ◌==◌, ltb, if◌then◌else◌, true, false, Option, none, some, List, [], ◌∷◌,
}
use lkms.Kernel.Run.{Run, ok, out_of_fuel, ◌>>=◌}
use lkms.Kernel.Paging.{Paging}
use lkms.WssZero.{State, Task, Event, wss_marking, sleep}

module _ (k : Paging) where
  -- `while (i++ < limit)`, with the WSS that each round prints.
  unfoldable pub rounds_from :
      (limit : ℕ)
      → ℕ
      → (fuel pid i : ℕ) → (ℕ → Task k × List (Event k))
      → State k
      → Run (List ℕ × State k)
  rounds_from limit zero fuel pid i world s = out_of_fuel
  rounds_from limit (suc rounds) fuel pid i world s = elim (ltb i limit) [
    | true ↦ wss_marking k fuel (some (world i).0) s >>= λ (_, t).
        sleep k pid (world i).1 t >>= λ u.
        rounds_from limit rounds fuel pid (i + 1) world u >>= λ (out, v). ok (t.wss ∷ out, v)
    | false ↦ ok ([], s)
  ]

  -- `start`, with its number of rounds. `found` is what `pid_task` returns; the world tells how the
  -- task looks at each round and what happens in the sleep after it.
  unfoldable pub start_with :
      (limit fuel pid : ℕ)
      → (found : Option (Task k)) → (ℕ → Task k × List (Event k))
      → State k
      → Run (List ℕ × State k)
  start_with limit fuel pid none world s = ok ([], record s { hooked = true })
  start_with limit fuel pid (some ts) world s =
      let s' = record s { hooked = true } in
      let out = rounds_from limit (suc limit) fuel pid 0 world s' in
      if ts.pid == pid then out else ok ([], s')

  -- wss4.c, wss5.c and wss3.c
  abbrev pub start4 :
      (fuel pid : ℕ)
      → (found : Option (Task k)) → (ℕ → Task k × List (Event k))
      → State k
      → Run (List ℕ × State k)
  start4 fuel pid found world s = start_with 10 fuel pid found world s

  abbrev pub start5 :
      (fuel pid : ℕ)
      → (found : Option (Task k)) → (ℕ → Task k × List (Event k))
      → State k
      → Run (List ℕ × State k)
  start5 fuel pid found world s = start_with 30 fuel pid found world s

  abbrev pub start3 :
      (fuel pid : ℕ)
      → (found : Option (Task k)) → (ℕ → Task k × List (Event k))
      → State k
      → Run (List ℕ × State k)
  start3 fuel pid found world s = start_with 40 fuel pid found world s
