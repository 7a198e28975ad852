-- ===== src/Rss/Resetting.antt =====
-- rss2.c (rss3.c is the same file): rss.c with the counters set to 0 before each pass. `follow_pte`,
-- `page_walk` and `rss_assi2` are as in rss.c.
use lkms.Prelude.{
  ℕ, zero, suc, ◌+◌, ◌==◌, leb, if◌then◌else◌, true, false, Option, none, some, List, [], ◌∷◌,
}
use lkms.Kernel.Run.{Run, ok, out_of_fuel, ◌>>=◌}
use lkms.Kernel.Paging.{Paging}
use lkms.Rss.{Counters, Snapshot, rss_assi2}

module _ (k : Paging) where
  -- `while (i++ <= 20)`, with what each pass prints.
  unfoldable pub watch : ℕ → ℕ → (ℕ → Snapshot k) → ℕ → Counters → Run (List Counters)
  watch fuel zero world i c = out_of_fuel
  watch fuel (suc rounds) world i c = elim (leb i 20) [
    | true ↦ do
      c' ← rss_assi2 k fuel (some (world i)) (record c { virt_page_count = 0; phy_page_count = 0 })
      out ← watch fuel rounds world (i + 1) c'
      ok (c' ∷ out)
    | false ↦ ok []
  ]

  -- `found` is the pid of the task that `pid_task` returns, if it returns one.
  unfoldable pub start : ℕ → (pid : ℕ) → (found : Option ℕ) → (ℕ → Snapshot k) → Run (List Counters)
  start fuel pid none world = ok []
  start fuel pid (some p) world =
      let out = watch fuel 22 world 0 (record { virt_page_count = 0; phy_page_count = 0 }) in
      if p == pid then out else ok []
