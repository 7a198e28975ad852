-- ===== src/Kernel/Walks.antt =====
-- The two nested loops by which the modules go through the pages of a process:
-- `for (vma = mm->mmap; vma; vma = vma->vm_next)` and, inside it,
-- `for (page_addr = vma->vm_start; page_addr <= vma->vm_end; page_addr += PAGE_SIZE)`, with a body
-- whose result, where it is not 0, is a `return`.
use lkms.Prelude.{
  ℕ, zero, suc, ◌+◌, ◌*◌, ◌^◌, ◌≤◌, ◌<◌, ◌≡◌, refl, ◌∙◌, ap, sym, Bool-cases, inl, inr, true, false,
  List, [], ◌∷◌, ◌++◌, All, arith, leb, le→leb, lt→leb, ℤ, pos, ◌==ℤ◌, add64, page_size,
}
use mathlib.Core.Path.{fun_ext}
use lkms.Kernel.Run.{Run, ok, fault, blocked, out_of_fuel, ◌>>=◌, Ends, ends, Ends->>=}
use lkms.Kernel.Paging.{Vma}
use lkms.Kernel.Areas.{page_addrs, pages, Fits, area_addrs}

module _ {S : Type 0} (body : ℕ → S → Run (ℤ × S)) where
  unfoldable pub walk_pages : ℕ → (page_addr vm_end : ℕ) → S → Run (ℤ × S)
  walk_pages zero i b s = out_of_fuel
  walk_pages (suc fuel) i b s = elim (leb i b) [
    | true ↦ body i s >>= λ (r, t). elim (r ==ℤ pos 0) [
      | true ↦ walk_pages fuel (add64 i page_size) b t
      | false ↦ ok (r, t)
    ]
    | false ↦ ok (pos 0, s)
  ]

  unfoldable pub walk_vmas : ℕ → List Vma → S → Run (ℤ × S)
  walk_vmas fuel [] s = ok (pos 0, s)
  walk_vmas fuel (v ∷ vs) s = walk_pages fuel v.vm_start v.vm_end s >>= λ (r, t).
      elim (r ==ℤ pos 0) [ true ↦ walk_vmas fuel vs t | false ↦ ok (r, t) ]

  -- The body at each address of a list.
  unfoldable pub visit_all : List ℕ → S → Run (ℤ × S)
  visit_all [] s = ok (pos 0, s)
  visit_all (a ∷ as') s =
      body a s >>= λ (r, t). elim (r ==ℤ pos 0) [ true ↦ visit_all as' t | false ↦ ok (r, t) ]

  -- What follows on a result of 0.
  abbrev continue : (S → Run (ℤ × S)) → ℤ × S → Run (ℤ × S)
  continue next (r, t) = elim (r ==ℤ pos 0) [ true ↦ next t | false ↦ ok (r, t) ]

  walk_pages-visits :
      (n fuel i b : ℕ) (s : S)
      → n < fuel
      → b < i + page_size * n
      → i + page_size * n ≤ b + page_size
      → b + page_size < 2 ^ 64
      → walk_pages fuel i b s ≡ visit_all (page_addrs i n) s
  unfolding walk_pages visit_all
  walk_pages-visits n zero i b s f lo hi small = absurd (omega arith)
  walk_pages-visits zero (suc fuel) i b s f lo hi small =
      rw (walk_pages, lt→leb i b (omega arith)) refl
  walk_pages-visits (suc n) (suc fuel) i b s f lo hi small =
      let inside : leb i b ≡ true = le→leb i b (omega arith) in
      let next : add64 i page_size ≡ i + page_size = omega arith in
      rw (walk_pages, inside)
        (ap (λ g. body i s >>= continue g) {x = walk_pages fuel (add64 i page_size) b}
          {y = visit_all (page_addrs (i + page_size) n)}
          (fun_ext (λ t. rw next (
            walk_pages-visits n fuel (i + page_size) b t (omega arith) (omega arith) (omega arith)
              small))))

  continue_assoc :
      (f g h : S → Run (ℤ × S)) (p : ℤ × S)
      → ((t : S) → f t ≡ (g t >>= continue h))
      → continue f p ≡ (continue g p >>= continue h)
  continue_assoc f g h (r, t) e = elim (Bool-cases (r ==ℤ pos 0)) [
    | inl done ↦ rw (continue, done) (e t)
    | inr other ↦ rw (continue, other, ◌>>=◌, continue, other) refl
  ]

  bind_assoc :
      (f g h : S → Run (ℤ × S)) (m : Run (ℤ × S))
      → ((t : S) → f t ≡ (g t >>= continue h))
      → (m >>= continue f) ≡ ((m >>= continue g) >>= continue h)
  bind_assoc f g h (ok p) e = continue_assoc f g h p e
  bind_assoc f g h fault e = refl
  bind_assoc f g h blocked e = refl
  bind_assoc f g h out_of_fuel e = refl

  visit_all-append :
      (xs ys : List ℕ) (s : S)
      → visit_all (xs ++ ys) s ≡ (visit_all xs s >>= continue (visit_all ys))
  unfolding visit_all
  visit_all-append [] ys s = refl
  visit_all-append (x ∷ xs) ys s =
      bind_assoc (visit_all (xs ++ ys)) (visit_all xs) (visit_all ys) (body x s)
        (λ t. visit_all-append xs ys t)

  -- If the areas fit, the loops run the body at the address of every page, in order.
  pub walk_vmas-visits :
      (fuel : ℕ) (vs : List Vma) (s : S)
      → All (Fits fuel) vs
      → walk_vmas fuel vs s ≡ visit_all (area_addrs vs) s
  unfolding walk_vmas visit_all
  walk_vmas-visits fuel [] s fit = refl
  walk_vmas-visits fuel (v ∷ vs) s (fits, fit) =
      let own =
        walk_pages-visits (pages v.vm_start v.vm_end) fuel v.vm_start v.vm_end s fits.fuelled
          (omega (arith, fits.ordered)) (omega (arith, fits.ordered)) fits.low in
      ap (λ r. r >>= continue (walk_vmas fuel vs)) own
      ∙ ap (λ g. visit_all (page_addrs v.vm_start (pages v.vm_start v.vm_end)) s >>= continue g)
          (fun_ext (λ t. walk_vmas-visits fuel vs t fit))
      ∙ sym (visit_all-append (page_addrs v.vm_start (pages v.vm_start v.vm_end)) (area_addrs vs) s)

  -- What every run of the body keeps, all of them keep.
  pub visit_all-Ends :
      (P : S → Type 0)
      → ((a : ℕ) (s : S) → P s → Ends (λ (r, t). P t) (body a s))
      → (xs : List ℕ) (s : S) → P s
      → Ends (λ (r, t). P t) (visit_all xs s)
  unfolding visit_all
  visit_all-Ends P keep [] s p = ends p
  visit_all-Ends P keep (x ∷ xs) s p = Ends->>= (keep x s p) (λ (r, t) q.
      elim (Bool-cases (r ==ℤ pos 0)) [
        | inl zero_result ↦ rw zero_result (visit_all-Ends P keep xs t q)
        | inr other ↦ rw other (ends q)
      ])
