-- ===== src/Rss.antt =====
-- rss.c: once every ten seconds, counts the pages of a process and those that are in memory.
-- `follow_pte`, `page_walk`, `rss_assi2` and `start` model the functions of that name.
mod Count
mod Total
mod Resetting
mod Delayed
mod Versions
mod Examples
use lkms.Prelude.{
  ℕ, zero, suc, ◌+◌, ◌==◌, leb, if◌then◌else◌, true, false, Option, none, some, List, [], ◌∷◌, ℤ,
  pos, neg, ◌==ℤ◌, add32, add64, page_size,
}
use lkms.Kernel.Run.{Run, ok, fault, out_of_fuel, ◌>>=◌}
use lkms.Kernel.Paging.{Paging, Ptes, Vma, Walk, no_pgd, no_pud, no_pmd, entry, descend}

-- The two `static int` counters, as 32-bit patterns.
pub record Counters : Type 0 where
  pub virt_page_count : ℕ
  pub phy_page_count : ℕ

-- One page of `page_walk`'s loop, at what `follow_pte` returned for it.
pub visit : ℤ → Counters → Counters
visit r c = record {
  virt_page_count = add32 c.virt_page_count 1;
  phy_page_count = if r ==ℤ pos 1 then add32 c.phy_page_count 1 else c.phy_page_count;
}

module _ (k : Paging) where
  open k use {Mm, pte_present}

  -- The process as one pass finds it; it runs on between two passes.
  -- A kernel thread has no `mm`.
  pub record Snapshot : Type 0 where
    pub mm : Option Mm
    pub mmap : List Vma
    pub ptes : Ptes k

  -- 1 for a present page, -1 for an absent one, -2 where there is no entry
  pub follow_pte : Ptes k → Mm → ℕ → ℤ
  follow_pte m mm addr = elim (descend k mm addr) [
    | no_pgd ↦ neg 2
    | no_pud ↦ neg 2
    | no_pmd ↦ neg 2
    | entry p ↦ if p == 0 then neg 2 else if pte_present (m p) then pos 1 else neg 1
  ]

  -- The loop from `addr1` to `addr2`, both included.
  pub page_walk : ℕ → Ptes k → Mm → (addr1 addr2 : ℕ) → Counters → Run Counters
  page_walk zero m mm i addr2 c = out_of_fuel
  page_walk (suc fuel) m mm i addr2 c = elim (leb i addr2) [
    | true ↦ page_walk fuel m mm (add64 i page_size) addr2 (visit (follow_pte m mm i) c)
    | false ↦ ok c
  ]

  pub walk_areas : ℕ → Ptes k → Mm → List Vma → Counters → Run Counters
  walk_areas fuel m mm [] c = ok c
  walk_areas fuel m mm (v ∷ vs) c = do
    c' ← page_walk fuel m mm v.vm_start v.vm_end c
    walk_areas fuel m mm vs c'

  -- The counters afterwards are also what the pass prints. Without an `mm` it is a fault.
  pub rss_assi2 : ℕ → Option Snapshot → Counters → Run Counters
  rss_assi2 fuel none c = ok c
  rss_assi2 fuel (some s) c = elim s.mm [
    | none ↦ fault
    | some mm ↦ walk_areas fuel s.ptes mm s.mmap c
  ]

  -- `while (i++ <= 20)`, with what each pass prints.
  pub watch : ℕ → ℕ → (ℕ → Snapshot) → ℕ → Counters → Run (List Counters)
  watch fuel zero world i c = out_of_fuel
  watch fuel (suc rounds) world i c = elim (leb i 20) [
    | true ↦ do
      c' ← rss_assi2 fuel (some (world i)) c
      out ← watch fuel rounds world (i + 1) c'
      ok (c' ∷ out)
    | false ↦ ok []
  ]

  -- `found` is the pid of the task that `pid_task` returns, if it returns one.
  pub start : ℕ → (pid : ℕ) → (found : Option ℕ) → (ℕ → Snapshot) → Run (List Counters)
  start fuel pid none world = ok []
  start fuel pid (some p) world =
      let out = watch fuel 22 world 0 (record { virt_page_count = 0; phy_page_count = 0 }) in
      if p == pid then out else ok []
