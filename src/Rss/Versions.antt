-- ===== src/Rss/Versions.antt =====
-- rss.c, rss2.c and assi22.c: what the three print of the same process.
use lkms.Prelude.{
  ℕ, zero, suc, ◌+◌, ◌<◌, ◌≡◌, refl, ◌∙◌, ap, arith, le→leb, lt→leb, ==-self, some, List, [], ◌∷◌,
  All, length, get_elem?, add32,
}
use lkms.Kernel.Run.{ok, Ends, ends}
use lkms.Kernel.Paging.{Paging}
use lkms.Kernel.Areas.{Fits}
use lkms.Rss.{Counters, Snapshot, rss_assi2, start}
use lkms.Rss.Resetting
use lkms.Rss.Delayed
use lkms.Rss.Total.{sums, pages_at, rss_at, reports, pass-sums, watch-reports}

abbrev pub zeros : Counters
zeros = record { virt_page_count = 0; phy_page_count = 0 }

-- Counters added up, in 32 bits each.
abbrev pub plus : Counters → Counters → Counters
plus c d = record {
  virt_page_count = add32 c.virt_page_count d.virt_page_count;
  phy_page_count = add32 c.phy_page_count d.phy_page_count;
}

-- The running sums of a list, from `c` on.
abbrev pub running : Counters → List Counters → List Counters
running c [] = []
running c (d ∷ ds) = plus c d ∷ running (plus c d) ds

module _ (k : Paging) (fuel : ℕ) (world : ℕ → Snapshot k) (mms : ℕ → k.Mm)
    (has_mm : (i : ℕ) → (world i).mm ≡ some (mms i))
    (fit : (i : ℕ) → All (Fits fuel) (world i).mmap) where
  abbrev pub pages_here : ℕ → ℕ
  pages_here i = pages_at k fuel world mms has_mm fit i

  abbrev pub rss_here : ℕ → ℕ
  rss_here i = rss_at k fuel world mms has_mm fit i

  -- The pages, and the resident pages, of `n` passes from pass `i` on, each by itself.
  abbrev pub counts : ℕ → ℕ → List Counters
  counts zero i = []
  counts (suc n) i = sums k (pages_here i) (rss_here i) ∷ counts n (i + 1)

  pass_from_zero :
      (i : ℕ) → rss_assi2 k fuel (some (world i)) zeros ≡ ok (sums k (pages_here i) (rss_here i))
  pass_from_zero i = pass-sums k fuel world mms has_mm fit i 0 0 ∙ ap ok (ground arith)

  watch_resetting :
      (n rounds i : ℕ) (c : Counters)
      → i + n ≡ 21
      → n < rounds
      → Resetting.watch k fuel rounds world i c ≡ ok (counts n i)
  unfolding Resetting.watch
  watch_resetting n zero i c e f = absurd (omega arith)
  watch_resetting zero (suc rounds) i c e f = rw (Resetting.watch, lt→leb i 20 (omega arith)) refl
  watch_resetting (suc n) (suc rounds) i c e f = rw (
    Resetting.watch,
    le→leb i 20 (omega arith),
    pass_from_zero i,
    watch_resetting n rounds (i + 1) _ (omega arith) (omega arith),
  )

  watch_delayed :
      (n rounds i : ℕ)
      → i + n ≡ 51
      → n < rounds
      → Delayed.watch k fuel rounds world i zeros ≡ ok (counts n i)
  unfolding Delayed.watch
  watch_delayed n zero i e f = absurd (omega arith)
  watch_delayed zero (suc rounds) i e f = rw (Delayed.watch, lt→leb i 50 (omega arith))
  watch_delayed (suc n) (suc rounds) i e f = rw (
    Delayed.watch,
    le→leb i 50 (omega arith),
    pass_from_zero i,
    watch_delayed n rounds (i + 1) (omega arith) (omega arith),
  )

  reports-running :
      (n i v p : ℕ)
      → reports k fuel world mms has_mm fit n i v p ≡ running (sums k v p) (counts n i)
  unfolding reports
  reports-running zero i v p = refl
  reports-running (suc n) i v p =
      let here : plus (sums k v p) (sums k (pages_here i) (rss_here i))
          ≡ sums k (v + pages_here i) (p + rss_here i) =
        ground arith in
      rw here (
        ap (λ r. sums k (v + pages_here i) (p + rss_here i) ∷ r)
          (reports-running n (i + 1) (v + pages_here i) (p + rss_here i)))

  counts_at :
      (n i j : ℕ)
      → j < n
      → get_elem? (counts n i) j ≡ some (sums k (pages_here (i + j)) (rss_here (i + j)))
  counts_at zero i j h = absurd (omega arith)
  counts_at (suc n) i zero h =
      ap (λ m. some (sums k (pages_here m) (rss_here m))) {x = i} {y = i + 0} (omega arith)
  counts_at (suc n) i (suc j) h =
      counts_at n (i + 1) j (omega arith)
      ∙ ap (λ m. some (sums k (pages_here m) (rss_here m))) {x = i + 1 + j} {y = i + suc j}
          (omega arith)

  from_zero :
      (j : ℕ)
      → some (sums k (pages_here (0 + j)) (rss_here (0 + j)))
        ≡ some (sums k (pages_here j) (rss_here j))
  from_zero j =
      ap (λ m. some (sums k (pages_here m) (rss_here m))) {x = 0 + j} {y = j} (omega arith)

  counts_length : (n i : ℕ) → length (counts n i) ≡ n
  counts_length zero i = refl
  counts_length (suc n) i = ap suc (counts_length n (i + 1))

  -- A process that is found, has an `mm` in every pass and areas that fit: then rss.c and rss2.c
  -- come to their ends without a fault, each after 21 lines, and what rss.c prints are the running
  -- sums, in 32 bits, of what rss2.c prints.
  pub start-running :
      (pid : ℕ)
      → (out : List Counters) × (length out ≡ 21)
        × (Resetting.start k fuel pid (some pid) world ≡ ok out)
        × (start k fuel pid (some pid) world ≡ ok (running zeros out))
  unfolding start Resetting.start
  start-running pid = (
    counts 21 0,
    counts_length 21 0,
    rw (==-self pid) (watch_resetting 21 22 0 zeros (omega arith) (omega arith)),
    rw (==-self pid) (
        watch-reports k fuel world mms has_mm fit 21 22 0 0 0 (omega arith) (omega arith)
        ∙ ap ok (reports-running 21 0 0 0)),
  )

  -- A process that is found, has an `mm` in every pass and areas that fit: then rss2.c comes to its
  -- end with 21 lines, of which line `j` holds the pages and the resident pages of pass `j` alone, as
  -- 32-bit numbers, and assi22.c with 51 lines, of which line `m` holds those of pass `m`.
  pub start-resident :
      (pid j m : ℕ)
      → j < 21
      → m < 51
      → Ends
          (λ out. (length out ≡ 21) × (get_elem? out j ≡ some (sums k (pages_here j) (rss_here j))))
          (Resetting.start k fuel pid (some pid) world)
        × Ends
            (λ out.
              (length out ≡ 51) × (get_elem? out m ≡ some (sums k (pages_here m) (rss_here m))))
            (Delayed.start k fuel pid (some pid) world)
  unfolding Resetting.start Delayed.start
  start-resident pid j m h h2 = (
    rw (==-self pid, watch_resetting 21 22 0 zeros (omega arith) (omega arith))
        (ends (counts_length 21 0, counts_at 21 0 j h ∙ from_zero j)),
    rw (==-self pid, watch_delayed 51 52 0 (omega arith) (omega arith))
        (ends (counts_length 51 0, counts_at 51 0 m h2 ∙ from_zero m)),
  )
