-- ===== src/KmallocMap/Pages.antt =====
-- ex7.c and new_st.c: where the pages lie, and the loops over them.
use lkms.Prelude.{
  ℕ, zero, suc, ◌+◌, ◌*◌, ◌/◌, ◌%◌, ◌^◌, ◌≤◌, ◌<◌, ◌≡◌, refl, ◌∙◌, ap, arith, ◌==◌, ltb,
  if◌then◌else◌, true, false, List, [], ◌∷◌, ◌++◌, add64, page_size,
}
use lkms.Kernel.Run.{Run, ok, Ends, ends, ◌>>=◌}
use lkms.KmallocMap.{State, page_limit, page_align, page_text, c_string, reserve_pages, print_pages}
use lkms.KmallocMap.Bytes.{Spells, c_string-run, page_text-short, page_text-nonzero}

-- The rounded address is the first multiple of the page size from `ptr` on.
pub page_align_bounds :
    (ptr : ℕ)
    → ptr + (page_limit + 2) * page_size ≤ 2 ^ 64
    → (page_align ptr % page_size ≡ 0) × (ptr ≤ page_align ptr) × (page_align ptr < ptr + page_size)
unfolding page_align
page_align_bounds ptr h = omega arith

-- The area lies in the memory from kmalloc, which is in use.
pub record IsReady (s : State) : Type 0 where
  pub used : s.allocated ≡ true
  pub above : s.kmalloc_ptr ≤ s.kmalloc_area
  pub near : s.kmalloc_area < s.kmalloc_ptr + page_size
  pub low : s.kmalloc_ptr + (page_limit + 2) * page_size ≤ 2 ^ 64

-- The first `n` pages each begin with their text, ended by a NUL.
abbrev pub Texts : ℕ → State → Type 0
Texts n s =
    (j : ℕ)
    → j < n
    → Spells s.memory (s.kmalloc_area + page_size * j) (page_text (j + 1) ++ (0 ∷ []))

-- The texts of `n` pages, from page `i` on, counted from 0.
abbrev pub texts_from : ℕ → ℕ → List (List ℕ)
texts_from i zero = []
texts_from i (suc n) = page_text (i + 1) ∷ texts_from (i + 1) n

-- The two states differ at most in which pages are reserved.
pub record Reserves (s t : State) : Type 0 where
  pub ptr : t.kmalloc_ptr ≡ s.kmalloc_ptr
  pub area : t.kmalloc_area ≡ s.kmalloc_area
  pub end : t.end ≡ s.end
  pub memory : t.memory ≡ s.memory
  pub allocated : t.allocated ≡ s.allocated

reserve_pages-rounds :
    (n fuel i : ℕ) (s : State)
    → n < fuel
    → i + page_size * n ≡ page_limit * page_size
    → Ends (Reserves s) (reserve_pages fuel i s)
unfolding reserve_pages
reserve_pages-rounds n zero i s f e = absurd (omega arith)
reserve_pages-rounds zero (suc fuel) i s f e =
    let over : ltb i (page_limit * page_size) ≡ false = ground arith in
    rw (reserve_pages, over)
      (ends (record { ptr = refl; area = refl; end = refl; memory = refl; allocated = refl }))
reserve_pages-rounds (suc n) (suc fuel) i s f e =
    let more : ltb i (page_limit * page_size) ≡ true = ground arith in
    let t : State = record s {
      reserved = λ p. if (s.kmalloc_area + i) / page_size == p then true else s.reserved p;
    } in
    rw (reserve_pages, more)
      (rest (reserve_pages-rounds n fuel (i + page_size) t (omega arith) (omega arith)))
  where
    rest :
        {r : Run State}
        → Ends
            (Reserves (record s {
              reserved = λ p. if (s.kmalloc_area + i) / page_size == p then true else s.reserved p;
            }))
            r
        → Ends (Reserves s) r
    rest (ends v) = ends (record {
      ptr = v.ptr;
      area = v.area;
      end = v.end;
      memory = v.memory;
      allocated = v.allocated;
    })

pub reserve_pages-Reserves : (s : State) → Ends (Reserves s) (reserve_pages 17 0 s)
reserve_pages-Reserves s = reserve_pages-rounds 16 17 0 s (omega arith) refl

pub Reserves-IsReady : {s t : State} → Reserves s t → IsReady s → IsReady t
Reserves-IsReady r ready = record {
  used = r.allocated ∙ ready.used;
  above = omega (arith, r.ptr, r.area, ready.above);
  near = omega (arith, r.ptr, r.area, ready.near);
  low = omega (arith, r.ptr, ready.low);
}

print_pages-rounds :
    (n fuel i : ℕ) (s : State)
    → IsReady s
    → Texts 16 s
    → n < fuel
    → i + n ≡ 16
    → print_pages fuel (s.kmalloc_area + page_size * i) (s.kmalloc_area + page_limit * page_size) s
      ≡ ok (texts_from i n)
unfolding print_pages
print_pages-rounds n zero i s ready texts f e = absurd (omega arith)
print_pages-rounds zero (suc fuel) i s ready texts f e =
    let over : ltb (s.kmalloc_area + page_size * i) (s.kmalloc_area + page_limit * page_size)
        ≡ false =
      ground arith in
    rw (print_pages, over) refl
print_pages-rounds (suc n) (suc fuel) i s ready texts f e =
    let a : ℕ = s.kmalloc_area + page_size * i in
    let more : ltb a (s.kmalloc_area + page_limit * page_size) ≡ true = ground arith in
    let next : add64 a page_size ≡ s.kmalloc_area + page_size * (i + 1) =
      omega (arith, ready.near, ready.low) in
    let text : c_string page_size a s ≡ ok (page_text (i + 1)) =
      c_string-run page_size a (page_text (i + 1)) s ready.used (omega (arith, ready.above))
        (omega (arith, ready.near, page_text-short (i + 1)))
        (omega (arith, page_text-short (i + 1))) (page_text-nonzero (i + 1))
        (texts i (omega arith)) in
    rw
      (
        print_pages,
        more,
        text,
        ◌>>=◌,
        next,
        print_pages-rounds n fuel (i + 1) s ready texts (omega arith) (omega arith),
      )
      refl

-- If the 16 pages hold their texts, they are what is printed.
pub print_pages-Texts :
    (s : State)
    → IsReady s
    → Texts 16 s
    → print_pages 17 s.kmalloc_area (s.kmalloc_area + page_limit * page_size) s
      ≡ ok (texts_from 0 16)
print_pages-Texts s ready texts =
    ap (λ a. print_pages 17 a (s.kmalloc_area + page_limit * page_size) s) {x = s.kmalloc_area}
      {y = s.kmalloc_area + page_size * 0} (omega arith)
    ∙ print_pages-rounds 16 17 0 s ready texts (omega arith) refl
