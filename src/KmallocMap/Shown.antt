-- ===== src/KmallocMap/Shown.antt =====
-- ex7.c and new_st.c: the texts that `init` writes are those that are printed.
use lkms.Prelude.{
  ℕ, zero, suc, ◌+◌, ◌*◌, ◌≤◌, ◌<◌, ◌≡◌, refl, arith, ltb, true, false, List, [], ◌∷◌, ◌++◌, length,
  length-append, length-replicate, append_assoc, add64, page_size, drop, replicate,
}
use mathlib.Core.Path.{subst}
use native.Mathlib.Decide.{dec_lt}
use lkms.Kernel.Run.{ok, Ends, ends, Ends-weaken, ◌>>=◌}
use lkms.KmallocMap.{State, page_limit, page_text, put_bytes, store}
use lkms.KmallocMap.Bytes.{
  Spells, put_bytes-Spells, Spells-put_bytes, Spells-prefix, is_inside-true, store-run, filled,
  sprintf-run, page_text-short,
}
use lkms.KmallocMap.Pages.{IsReady, Texts}
use lkms.KmallocMap.Printing
use lkms.KmallocMap.Clearing

-- The address of page `n`.
abbrev pub page_at : ℕ → State → ℕ
page_at n s = s.kmalloc_area + page_size * n

-- `s` with bytes written at page `n`.
abbrev written : ℕ → List ℕ → State → State
written n vs s = record s { memory = put_bytes (page_at n s) vs s.memory }

text-short : (n : ℕ) → length (page_text n ++ (0 ∷ [])) ≤ 36
text-short n = omega (arith, length-append (page_text n) (0 ∷ []), page_text-short n)

-- A write to page `n` leaves the pages before it.
written-Texts : (n : ℕ) (vs : List ℕ) (s : State) → Texts n s → Texts n (written n vs s)
written-Texts n vs s texts j h =
    Spells-put_bytes s.memory (page_at j s) (page_text (j + 1) ++ (0 ∷ [])) (page_at n s) vs
      (omega (arith, h, text-short (j + 1))) (texts j h)

-- A write of its text makes page `n` one of those that hold their texts.
written-text :
    (n : ℕ) (buffer : List ℕ) (s : State)
    → Texts n s
    → Texts (n + 1) (written n (filled (n + 1) buffer) s)
written-text n buffer s texts j h = elim (dec_lt j n) [
  | yes before ↦ written-Texts n (filled (n + 1) buffer) s texts j before
  | no last ↦
      let here : n ≡ j = omega (arith, h, last) in
      subst
        (λ i.
          Spells (put_bytes (page_at n s) (filled (n + 1) buffer) s.memory) (page_at i s)
            (page_text (i + 1) ++ (0 ∷ [])))
        here
        (Spells-prefix (put_bytes (page_at n s) (filled (n + 1) buffer) s.memory) (page_at n s)
          (page_text (n + 1) ++ (0 ∷ [])) (drop (length (page_text (n + 1)) + 1) buffer)
          (rw
            (append_assoc (page_text (n + 1)) (0 ∷ [])
              (drop (length (page_text (n + 1)) + 1) buffer))
            (put_bytes-Spells (page_at n s) (filled (n + 1) buffer) s.memory)))
]

store-page :
    (n : ℕ) (vs : List ℕ) (s : State)
    → IsReady s
    → n < 16
    → length vs ≤ page_size
    → store (page_at n s) vs s ≡ ok (written n vs s)
store-page n vs s ready h short = store-run (page_at n s) vs s (
    is_inside-true (page_at n s) (length vs) s ready.used (omega (arith, ready.above))
      (omega (arith, ready.near, h, short)))

-- The 16 texts are there, and where the memory lies is as before.
pub record Shows (s t : State) : Type 0 where
  pub ready : IsReady t
  pub texts : Texts 16 t
  pub area : t.kmalloc_area ≡ s.kmalloc_area
  pub end : t.end ≡ s.end

pub Printing-write_pages :
    (n fuel i : ℕ) (buffer : List ℕ) (s : State)
    → IsReady s
    → Texts i s
    → length buffer ≡ 50
    → n < fuel
    → i + n ≡ 16
    → Ends (Shows s) (
        Printing.write_pages fuel
          (page_at i s)
          (s.kmalloc_area + page_limit * page_size)
          (i + 1)
          buffer
          s)
unfolding Printing.write_pages
Printing-write_pages n zero i buffer s ready texts len f e = absurd (omega arith)
Printing-write_pages zero (suc fuel) i buffer s ready texts len f e =
    let over : ltb (page_at i s) (s.kmalloc_area + page_limit * page_size) ≡ false = ground arith in
    let all_done : i ≡ 16 = omega (arith, e) in
    rw (Printing.write_pages, over)
      (ends (record {
        ready = ready;
        texts = subst (λ k. Texts k s) all_done texts;
        area = refl;
        end = refl;
      }))
Printing-write_pages (suc n) (suc fuel) i buffer s ready texts len f e =
    let more : ltb (page_at i s) (s.kmalloc_area + page_limit * page_size) ≡ true = ground arith in
    let next : add64 (page_at i s) page_size ≡ page_at (i + 1) s =
      omega (arith, ready.near, ready.low) in
    let (run, len') = sprintf-run (i + 1) buffer len in
    let t = written i (filled (i + 1) buffer) s in
    let ready' : IsReady t = record {
      used = ready.used;
      above = ready.above;
      near = ready.near;
      low = ready.low;
    } in
    rw
      (
        Printing.write_pages,
        more,
        run,
        ◌>>=◌,
        store-page i (filled (i + 1) buffer) s ready (omega (arith, e)) (omega (arith, len')),
        ◌>>=◌,
        next,
      )
      (Ends-weaken
        (Printing-write_pages n fuel (i + 1) (filled (i + 1) buffer) t ready'
          (written-text i buffer s texts) len' (omega arith) (omega arith))
        (λ u sh. record { ready = sh.ready; texts = sh.texts; area = sh.area; end = sh.end }))

pub Clearing-write_pages :
    (n fuel i : ℕ) (buffer : List ℕ) (s : State)
    → IsReady s
    → Texts i s
    → length buffer ≡ 50
    → n < fuel
    → i + n ≡ 16
    → Ends (Shows s) (
        Clearing.write_pages fuel
          (page_at i s)
          (s.kmalloc_area + page_limit * page_size)
          (i + 1)
          buffer
          s)
unfolding Clearing.write_pages
Clearing-write_pages n zero i buffer s ready texts len f e = absurd (omega arith)
Clearing-write_pages zero (suc fuel) i buffer s ready texts len f e =
    let over : ltb (page_at i s) (s.kmalloc_area + page_limit * page_size) ≡ false = ground arith in
    let all_done : i ≡ 16 = omega (arith, e) in
    rw (Clearing.write_pages, over)
      (ends (record {
        ready = ready;
        texts = subst (λ k. Texts k s) all_done texts;
        area = refl;
        end = refl;
      }))
Clearing-write_pages (suc n) (suc fuel) i buffer s ready texts len f e =
    let more : ltb (page_at i s) (s.kmalloc_area + page_limit * page_size) ≡ true = ground arith in
    let next : add64 (page_at i s) page_size ≡ page_at (i + 1) s =
      omega (arith, ready.near, ready.low) in
    let (run, len') = sprintf-run (i + 1) buffer len in
    let zeros : List ℕ = replicate page_size 0 in
    let z = written i zeros s in
    let t = written i (filled (i + 1) buffer) z in
    let ready_z : IsReady z = record {
      used = ready.used;
      above = ready.above;
      near = ready.near;
      low = ready.low;
    } in
    let ready' : IsReady t = record {
      used = ready.used;
      above = ready.above;
      near = ready.near;
      low = ready.low;
    } in
    rw
      (
        Clearing.write_pages,
        more,
        run,
        ◌>>=◌,
        store-page i zeros s ready (omega (arith, e))
            (omega (arith, length-replicate {A = ℕ} page_size 0)),
        ◌>>=◌,
        store-page i (filled (i + 1) buffer) z ready_z (omega (arith, e)) (omega (arith, len')),
        ◌>>=◌,
        next,
      )
      (Ends-weaken
        (Clearing-write_pages n fuel (i + 1) (filled (i + 1) buffer) t ready'
          (written-text i buffer z (written-Texts i zeros s texts)) len' (omega arith)
          (omega arith))
        (λ u sh. record { ready = sh.ready; texts = sh.texts; area = sh.area; end = sh.end }))
