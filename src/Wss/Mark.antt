-- ===== src/Wss/Mark.antt =====
-- workingwss.c, `wss_marking`: which entries it hides, and what it records.
use lkms.Prelude.{
  Memᴰ, ℕ, zero, suc, ◌+◌, ◌*◌, ◌≤◌, ◌<◌, ◌^◌, ◌≡◌, ◌≢◌, refl, ◌∙◌, ◌==◌, eq_of_==, sym, ne_of_==,
  Bool-cases, true, false, some, List, [], ◌∷◌, ◌++◌, arith, length, length-append, ℤ, ◌==ℤ◌, pos,
  neg, inl, inr, All, leb, le→leb, lt→leb, add64, page_size,
}
use lkms.Kernel.Run.{Run, ok, Ends, ends, Ends->>=, Ends-weaken}
use lkms.Kernel.Areas.{length-page_addrs, page_addrs, pages, Fits, area_addrs, total_pages}
use lkms.Kernel.Paging.{Paging, Ptes, present, Vma, Walk, no_pgd, no_pud, no_pmd, entry, descend}
use lkms.Wss.{
  State, Task, protect, append, mark_entry, mark_page, mark_area, mark_areas, wss_marking,
}
use lkms.Wss.Append.{Chain, Recorded, append-Chain}
use lkms.Wss.Entries.{has-protect_self, protect-hides}
use lkms.Wss.Marked.{
  Marked, Outcome, complete, stopped, MarkedAll, Marked-refl, MarkedAll-append, MarkedAll-stop,
}
use lkms.Wss.Memory.{Heap, Allocator}

module _ (k : Paging) (m : Allocator k) (never_full : (h : Heap k) → m.malloc h ≢ 0) where
  open k use {Mm, Pte, has_flag, pte_present, present_iff}

  mark_entry-null :
      (fuel p : ℕ) (s : State k) → (p == 0) ≡ true → mark_entry k m fuel p s ≡ ok (neg 2, s)
  unfolding mark_entry
  mark_entry-null fuel p s e = rw e

  mark_entry-absent :
      (fuel p : ℕ) (s : State k)
      → (p == 0) ≡ false
      → pte_present (s.ptes p) ≡ false
      → mark_entry k m fuel p s ≡ ok (pos 0, s)
  unfolding mark_entry
  mark_entry-absent fuel p s e a = rw (e, a)

  mark_entry-present :
      (fuel p : ℕ) (s t : State k)
      → (p == 0) ≡ false
      → pte_present (s.ptes p) ≡ true
      → append k m fuel (protect k s.ptes p p) (record s { ptes = protect k s.ptes p }) ≡ ok t
      → mark_entry k m fuel p s ≡ ok (pos 0, t)
  unfolding mark_entry
  mark_entry-present fuel p s t e a r = rw (e, a, r)

  Recorded-Marked :
      (p : ℕ) (vs : List Pte) (s t : State k)
      → Recorded k m (protect k s.ptes p p) vs (record s { ptes = protect k s.ptes p }) t
      → Marked k vs 1 s t
  Recorded-Marked p vs s t r = record {
    recorded = protect k s.ptes p p ∷ [];
    chain = r.chain;
    few = omega arith;
    hides = λ q h. rw r.ptes (protect-hides k s.ptes p q h);
    wss = r.wss;
    hooked = r.hooked;
  }

  mark_entry-hides :
      (fuel : ℕ) (mm : Mm) (p addr : ℕ) (vs : List Pte) (s : State k)
      → descend k mm addr ≡ entry p
      → (p == 0) ≡ false
      → pte_present (s.ptes p) ≡ true
      → Chain k s.heap s.head vs
      → length vs < fuel
      → Ends (MarkedAll k mm (addr ∷ []) vs s) (mark_entry k m fuel p s)
  mark_entry-hides fuel mm p addr vs s e nz here c f =
      let ptes : Ptes k = protect k s.ptes p in
      let (t, run, done) =
        append-Chain k m fuel (ptes p) vs (record s { ptes = ptes }) (never_full s.heap) c f in
      let hidden : has_flag (t.ptes p) present ≡ false =
        rw done.ptes (has-protect_self k s.ptes p).0 in
      rw (mark_entry-present fuel p s t nz here run) (
        ends (
          complete (record { pte = p; found = e; not_null = ne_of_== p 0 nz; hidden = hidden }, tt),
          Recorded-Marked p vs s t done,
        ))

  mark_entry-Marked :
      (fuel : ℕ) (mm : Mm) (p addr : ℕ) (vs : List Pte) (s : State k)
      → descend k mm addr ≡ entry p
      → Chain k s.heap s.head vs
      → length vs < fuel
      → Ends (MarkedAll k mm (addr ∷ []) vs s) (mark_entry k m fuel p s)
  mark_entry-Marked fuel mm p addr vs s e c f = elim (Bool-cases (p == 0)) [
    | inl z ↦ rw (mark_entry-null fuel p s z) (
        ends (
          stopped addr (Memᴰ.head refl) (λ q h. ground (arith, eq_of_== p 0)),
          Marked-refl k vs 1 s c,
        ))
    | inr nz ↦ elim (Bool-cases (pte_present (s.ptes p))) [
      | inl here ↦ mark_entry-hides fuel mm p addr vs s e nz here c f
      | inr gone ↦ rw (mark_entry-absent fuel p s nz gone) (
          ends (
            complete (
              record {
                pte = p;
                found = e;
                not_null = ne_of_== p 0 nz;
                hidden = ground (arith, present_iff (s.ptes p));
              },
              tt,
            ),
            Marked-refl k vs 1 s c,
          ))
    ]
  ]

  mark_page-Marked :
      (fuel : ℕ) (mm : Mm) (addr : ℕ) (vs : List Pte) (s : State k)
      → Chain k s.heap s.head vs
      → length vs < fuel
      → Ends (MarkedAll k mm (addr ∷ []) vs s) (mark_page k m fuel mm addr s)
  unfolding mark_page
  mark_page-Marked fuel mm addr vs s c f = go (descend k mm addr) refl
    where
      none_there :
          (w : Walk)
          → descend k mm addr ≡ w
          → ((p : ℕ) → w ≢ entry p)
          → MarkedAll k mm (addr ∷ []) vs s (neg 2, s)
      none_there w e never = (
        stopped addr (Memᴰ.head refl) (λ q h. absurd (never q (sym e ∙ h))),
        Marked-refl k vs 1 s c,
      )

      go :
          (w : Walk)
          → descend k mm addr ≡ w
          → Ends (MarkedAll k mm (addr ∷ []) vs s) (mark_page k m fuel mm addr s)
      go no_pgd e = rw (mark_page, e) (ends (none_there no_pgd e (λ p x. cc)))
      go no_pud e = rw (mark_page, e) (ends (none_there no_pud e (λ p x. cc)))
      go no_pmd e = rw (mark_page, e) (ends (none_there no_pmd e (λ p x. cc)))
      go (entry p) e = rw (mark_page, e) (mark_entry-Marked fuel mm p addr vs s e c f)

  -- One page is marked, and then the rest, if there was no `return`.
  then_rest :
      (mm : Mm) (xs ys : List ℕ) (vs : List Pte) (s t : State k) (r : ℤ) (rest : Run (ℤ × State k))
      → Outcome k mm xs t r
      → (mk : Marked k vs (length xs) s t) → Ends (MarkedAll k mm ys (vs ++ mk.recorded) t) rest
      → Ends
          (MarkedAll k mm (xs ++ ys) vs s)
          (elim (r ==ℤ pos 0) [ true ↦ rest | false ↦ ok (r, t) ])
  then_rest mm xs ys vs s t r rest (complete h) mk after =
      Ends-weaken after λ x p. MarkedAll-append k mm xs ys x mk h p
  then_rest mm xs ys vs s t r rest (stopped a i u) mk after =
      ends (MarkedAll-stop k mm xs ys a i u mk)

  mark_area-rounds :
      (n rounds fuel i b : ℕ) (mm : Mm) (vs : List Pte) (s : State k)
      → n < rounds
      → b < i + page_size * n
      → i + page_size * n ≤ b + page_size
      → b + page_size < 2 ^ 64
      → Chain k s.heap s.head vs
      → length vs + n ≤ fuel
      → Ends (MarkedAll k mm (page_addrs i n) vs s) (mark_area k m rounds fuel mm i b s)
  unfolding mark_area
  mark_area-rounds n zero fuel i b mm vs s r lo hi small c f = absurd (omega arith)
  mark_area-rounds zero (suc rounds) fuel i b mm vs s r lo hi small c f =
      rw (mark_area, lt→leb i b (omega arith)) (ends (complete tt, Marked-refl k vs 0 s c))
  mark_area-rounds (suc n) (suc rounds) fuel i b mm vs s r lo hi small c f =
      let inside : leb i b ≡ true = le→leb i b (omega arith) in
      let next : add64 i page_size ≡ i + page_size = omega arith in
      rw (mark_area, inside)
        (Ends->>= (mark_page-Marked fuel mm i vs s c (omega arith)) λ (q, t) (o, mk).
          then_rest mm (i ∷ []) (page_addrs (i + page_size) n) vs s t q _ o mk (
            rw next (
              mark_area-rounds n rounds fuel (i + page_size) b mm (vs ++ mk.recorded) t
                (omega arith) (omega arith) (omega arith) small mk.chain
                (omega (arith, length-append vs mk.recorded, mk.few)))))

  mark_areas-Marked :
      (fuel : ℕ) (mm : Mm) (areas : List Vma) (vs : List Pte) (s : State k)
      → All (Fits fuel) areas
      → Chain k s.heap s.head vs
      → length vs + total_pages areas ≤ fuel
      → Ends (MarkedAll k mm (area_addrs areas) vs s) (mark_areas k m fuel mm areas s)
  unfolding mark_areas
  mark_areas-Marked fuel mm [] vs s fit c f = ends (complete tt, Marked-refl k vs 0 s c)
  mark_areas-Marked fuel mm (v ∷ areas) vs s fit c f =
      let n : ℕ = pages v.vm_start v.vm_end in
      Ends->>=
        (mark_area-rounds n fuel fuel v.vm_start v.vm_end mm vs s fit.0.fuelled
          (omega (arith, fit.0)) (omega (arith, fit.0)) fit.0.low c (omega arith))
        λ (q, t) (o, mk).
          then_rest mm (page_addrs v.vm_start n) (area_addrs areas) vs s t q _ o mk (
            mark_areas-Marked fuel mm areas (vs ++ mk.recorded) t fit.1 mk.chain
              (omega (arith, length-append vs mk.recorded, mk.few, length-page_addrs v.vm_start n)))

  -- If `malloc` never fails, the areas fit, and the fuel covers the list and the pages of the
  -- process, then for a task with an `mm` `wss_marking` comes to its end without a fault. Either it returns 0 and every page that it
  -- visits has an entry and is hidden (not present), or it returns -2 and one of the pages has no
  -- entry. It makes no entry present, adds at most one entry a page to the end of the list, and
  -- changes neither the count nor the hook.
  pub wss_marking-Marked :
      (fuel : ℕ) (ts : Task k) (mm : Mm) (vs : List Pte) (s : State k)
      → ts.mm ≡ some mm
      → All (Fits fuel) ts.mmap
      → Chain k s.heap s.head vs
      → length vs + total_pages ts.mmap ≤ fuel
      → Ends (MarkedAll k mm (area_addrs ts.mmap) vs s) (wss_marking k m fuel (some ts) s)
  unfolding wss_marking
  wss_marking-Marked fuel ts mm vs s e fit c f =
      rw (wss_marking, e) (mark_areas-Marked fuel mm ts.mmap vs s fit c f)
