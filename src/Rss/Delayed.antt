-- ===== src/Rss/Delayed.antt =====
-- assi22.c: rss.c with 51 passes, and the counters set back to 0 after each. `follow_pte`,
-- `page_walk` and `rss_assi2` are as in rss.c.
use lkms.Prelude.{
  ℕ, zero, suc, ◌+◌, ◌==◌, leb, if◌then◌else◌, true, false, Option, none, some, List, [], ◌∷◌,
}
use lkms.Kernel.Run.{Run, ok, out_of_fuel, ◌>>=◌}
use lkms.Kernel.Paging.{Paging}
use lkms.Rss.{Counters, Snapshot, rss_assi2}

module _ (k : Paging) where
  -- `for (i = 0; i <= 50; i++)`, with what each pass prints.
  unfoldable pub watch : ℕ → ℕ → (ℕ → Snapshot k) → ℕ → Counters → Run (List Counters)
  watch fuel zero world i c = out_of_fuel
  watch fuel (suc rounds) world i c = elim (leb i 50) [
    | true ↦ do
      c' ← rss_assi2 k fuel (some (world i)) c
      out ← watch fuel rounds world (i + 1) (record c' { virt_page_count = 0; phy_page_count = 0 })
      ok (c' ∷ out)
    | false ↦ ok []
  ]

  unfoldable pub start : ℕ → (pid : ℕ) → (found : Option ℕ) → (ℕ → Snapshot k) → Run (List Counters)
  start fuel pid none world = ok []
  start fuel pid (some p) world =
      let out = watch fuel 52 world 0 (record { virt_page_count = 0; phy_page_count = 0 }) in
      if p == pid then out else ok []
