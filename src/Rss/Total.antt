-- ===== src/Rss/Total.antt =====
-- rss.c, the whole process: a pass over its areas, and the 21 passes of `start`.
use lkms.Prelude.{
  ℕ, zero, suc, ◌+◌, ◌*◌, ◌<◌, ◌≡◌, ◌∙◌, ap, some, List, [], ◌∷◌, arith, le→leb, lt→leb, All,
  get_elem?, ==-self,
}
use lkms.Kernel.Run.{ok, ◌>>=◌}
use lkms.Kernel.Paging.{Paging, Ptes, Vma}
use lkms.Kernel.Areas.{page_addrs, pages, Fits, total_pages}
use lkms.Rss.{Counters, Snapshot, walk_areas, rss_assi2, watch, start}
use lkms.Rss.Count.{IsWord, advance, advance-IsWord, advance-advance, resident, page_walk-count}

module _ (k : Paging) where
  abbrev pub total_resident : Ptes k → k.Mm → List Vma → ℕ
  total_resident m mm [] = 0
  total_resident m mm (v ∷ vs) =
      resident k m mm (page_addrs v.vm_start (pages v.vm_start v.vm_end)) + total_resident m mm vs

  -- The resident pages that a pass visits.
  abbrev pub rss : k.Mm → Snapshot k → ℕ
  rss mm s = total_resident s.ptes mm s.mmap

  walk_areas-count :
      (fuel : ℕ) (m : Ptes k) (mm : k.Mm) (vs : List Vma) (c : Counters)
      → All (Fits fuel) vs
      → IsWord c
      → walk_areas k fuel m mm vs c ≡ ok (advance (total_pages vs) (total_resident m mm vs) c)
  unfolding walk_areas
  walk_areas-count fuel m mm [] c fit w = ground arith
  walk_areas-count fuel m mm (v ∷ vs) c fit w =
      let n : ℕ = pages v.vm_start v.vm_end in
      let r : ℕ = resident k m mm (page_addrs v.vm_start n) in
      rw (page_walk-count k m mm fuel v.vm_start v.vm_end c fit.0.fuelled fit.0.ordered fit.0.low w)
        (walk_areas-count fuel m mm vs (advance n r c) fit.1 (advance-IsWord n r c)
          ∙ ap ok (advance-advance n r (total_pages vs) (total_resident m mm vs) c))

  abbrev pub sums : ℕ → ℕ → Counters
  sums v p = advance v p (record { virt_page_count = 0; phy_page_count = 0 })

  -- `n` terms of `f` from `f i` on.
  abbrev pub sum_from : ℕ → ℕ → (ℕ → ℕ) → ℕ
  sum_from i zero f = 0
  sum_from i (suc n) f = f i + sum_from (i + 1) n f

  sum_from-const : (n i c : ℕ) → sum_from i n (λ _. c) ≡ n * c
  sum_from-const zero i c = omega arith
  sum_from-const (suc n) i c = grind (arith, sum_from-const n (i + 1) c)

  module _ (fuel : ℕ) (world : ℕ → Snapshot k) (mms : ℕ → k.Mm)
      (has_mm : (i : ℕ) → (world i).mm ≡ some (mms i))
      (fit : (i : ℕ) → All (Fits fuel) (world i).mmap) where
    -- The pages, and the resident pages, of pass `i`.
    abbrev pub pages_at : ℕ → ℕ
    pages_at i = total_pages (world i).mmap

    abbrev pub rss_at : ℕ → ℕ
    rss_at i = rss (mms i) (world i)

    -- What `n` passes print from pass `i` on, if earlier passes have counted `v` and `p`.
    unfoldable pub reports : ℕ → ℕ → ℕ → ℕ → List Counters
    reports zero i v p = []
    reports (suc n) i v p =
        sums (v + pages_at i) (p + rss_at i) ∷ reports n (i + 1) (v + pages_at i) (p + rss_at i)

    pub pass-sums :
        (i v p : ℕ)
        → rss_assi2 k fuel (some (world i)) (sums v p) ≡ ok (sums (v + pages_at i) (p + rss_at i))
    unfolding rss_assi2
    pass-sums i v p =
        rw (rss_assi2, has_mm i)
          (walk_areas-count fuel (world i).ptes (mms i) (world i).mmap (sums v p) (fit i)
              (advance-IsWord v p _)
            ∙ ap ok (advance-advance v p (pages_at i) (rss_at i) _))

    pub watch-reports :
        (n rounds i v p : ℕ)
        → i + n ≡ 21
        → n < rounds
        → watch k fuel rounds world i (sums v p) ≡ ok (reports n i v p)
    unfolding watch reports
    watch-reports n zero i v p e f = absurd (omega arith)
    watch-reports zero (suc rounds) i v p e f = rw (watch, lt→leb i 20 (omega arith))
    watch-reports (suc n) (suc rounds) i v p e f = rw (
      watch,
      le→leb i 20 (omega arith),
      pass-sums i v p,
      watch-reports n rounds (i + 1) (v + pages_at i) (p + rss_at i) (omega arith) (omega arith),
    )

    reports_at :
        (n i j v p : ℕ)
        → j < n
        → get_elem? (reports n i v p) j
          ≡ some (sums (v + sum_from i (suc j) pages_at) (p + sum_from i (suc j) rss_at))
    unfolding reports
    reports_at zero i j v p h = absurd (omega arith)
    reports_at (suc n) i zero v p h = ground arith
    reports_at (suc n) i (suc j) v p h =
        reports_at n (i + 1) j (v + pages_at i) (p + rss_at i) (omega arith) ∙ ground arith

    -- If the task is found, has an `mm` in every pass and areas that fit, then `start` comes to its
    -- end, and line `j` of the 21 that it prints holds running totals, modulo 2 ^ 32: the pages and
    -- the resident pages of pass `j` and of every pass before it.
    pub start_accumulates :
        (pid j : ℕ)
        → j < 21
        → (start k fuel pid (some pid) world >>= λ out. ok (get_elem? out j))
          ≡ ok (some (sums (sum_from 0 (suc j) pages_at) (sum_from 0 (suc j) rss_at)))
    unfolding start
    start_accumulates pid j h =
        rw (==-self pid, watch-reports 21 22 0 0 0 (omega arith) (omega arith))
          (ap ok (reports_at 21 0 j 0 0 h ∙ ground arith))

  -- In a process whose memory stays as it is, line `j` (from 0) shows `j + 1` times the resident
  -- pages, modulo 2 ^ 32, and not the resident pages.
  pub start_steady :
      (fuel pid j : ℕ) (mm : k.Mm) (s : Snapshot k)
      → s.mm ≡ some mm
      → All (Fits fuel) s.mmap
      → j < 21
      → (start k fuel pid (some pid) (λ _. s) >>= λ out. ok (get_elem? out j))
        ≡ ok (some (sums (suc j * total_pages s.mmap) (suc j * rss mm s)))
  start_steady fuel pid j mm s e fit h =
      start_accumulates fuel (λ _. s) (λ _. mm) (λ _. e) (λ _. fit) pid j h
      ∙ ap (λ c. ok (some c))
          (rw (sum_from-const (suc j) 0 (total_pages s.mmap), sum_from-const (suc j) 0 (rss mm s)))
