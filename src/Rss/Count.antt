-- ===== src/Rss/Count.antt =====
-- rss.c, one area: which addresses `page_walk` visits, and what it counts.
use lkms.Prelude.{
  ℕ, zero, suc, ◌+◌, ◌*◌, ◌^◌, ◌≤◌, ◌<◌, ◌≡◌, Bool, true, List, arith, leb, if◌then◌else◌, le→leb,
  lt→leb, ℤ, pos, ◌==ℤ◌, ◌∙◌, ap, add32, add64, page_size, count_if,
}
use lkms.Kernel.Run.{ok}
use lkms.Kernel.Paging.{Paging, Ptes}
use lkms.Kernel.Areas.{page_addrs, pages}
use lkms.Rss.{Counters, visit, follow_pte, page_walk}

-- Both counters fit in their 32 bits.
pub record IsWord (c : Counters) : Type 0 where
  pub virt : c.virt_page_count < 2 ^ 32
  pub phy : c.phy_page_count < 2 ^ 32

abbrev pub advance : ℕ → ℕ → Counters → Counters
advance v p c = record {
  virt_page_count = add32 c.virt_page_count v;
  phy_page_count = add32 c.phy_page_count p;
}

pub advance-IsWord : (v p : ℕ) (c : Counters) → IsWord (advance v p c)
advance-IsWord v p c = omega arith

pub advance-advance :
    (v p w q : ℕ) (c : Counters) → advance w q (advance v p c) ≡ advance (v + w) (p + q) c
advance-advance v p w q c = ground arith

visit-IsWord : (r : ℤ) (c : Counters) → IsWord c → IsWord (visit r c)
unfolding visit
visit-IsWord r c w = ground arith

module _ (k : Paging) (m : Ptes k) (mm : k.Mm) where
  abbrev pub is_resident : ℕ → Bool
  is_resident a = follow_pte k m mm a ==ℤ pos 1

  -- How many of the pages are in memory.
  abbrev pub resident : List ℕ → ℕ
  resident xs = count_if is_resident xs

  visit-advance :
      (a v p : ℕ) (c : Counters)
      → IsWord c
      → advance v p (visit (follow_pte k m mm a) c)
        ≡ advance (suc v) ((if is_resident a then 1 else 0) + p) c
  unfolding visit
  visit-advance a v p c w = ground arith

  page_walk-rounds :
      (n fuel i b : ℕ) (c : Counters)
      → n < fuel
      → b < i + page_size * n
      → i + page_size * n ≤ b + page_size
      → b + page_size < 2 ^ 64
      → IsWord c
      → page_walk k fuel m mm i b c ≡ ok (advance n (resident (page_addrs i n)) c)
  unfolding page_walk
  page_walk-rounds n zero i b c f lo hi small w = absurd (omega arith)
  page_walk-rounds zero (suc fuel) i b c f lo hi small w =
      rw (page_walk, lt→leb i b (omega arith)) (ground arith)
  page_walk-rounds (suc n) (suc fuel) i b c f lo hi small w =
      let inside : leb i b ≡ true = le→leb i b (omega arith) in
      let next : add64 i page_size ≡ i + page_size = omega arith in
      rw (page_walk, inside, next)
        (page_walk-rounds n fuel (i + page_size) b (visit (follow_pte k m mm i) c) (omega arith)
            (omega arith) (omega arith) small (visit-IsWord _ c w)
          ∙ ap ok (visit-advance i n (resident (page_addrs (i + page_size) n)) c w))

  -- Where the area ends a page below the top of the address space, the loop ends, and it has
  -- counted every page from the first to the one at the area's end, and those in memory.
  pub page_walk-count :
      (fuel a b : ℕ) (c : Counters)
      → pages a b < fuel
      → a ≤ b
      → b + page_size < 2 ^ 64
      → IsWord c
      → page_walk k fuel m mm a b c
        ≡ ok (advance (pages a b) (resident (page_addrs a (pages a b))) c)
  page_walk-count fuel a b c f near small w =
      page_walk-rounds (pages a b) fuel a b c f (omega arith) (omega arith) small w
