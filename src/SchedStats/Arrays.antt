-- ===== src/SchedStats/Arrays.antt =====
-- assg4/assg4.c, the arrays that are indexed by a CPU.
use lkms.Prelude.{
  ℕ, ◌≤◌, ◌<◌, ◌^◌, ◌≡◌, ◌∙◌, ap, ◌==◌, if◌then◌else◌, Bool-cases, inl, inr, some, List, arith,
  add64, get_elem?, set, length, length-set, get_elem?-set_self, get_elem?-set_ne, get_elem?-lt,
  get_elem?-ge, eq_of_==, ne_of_==,
}
use lkms.Kernel.Run.{ok, fault}
use lkms.SchedStats.{bump, assign}

-- The array `ys` is `xs` with the element at `i` counted up.
pub record Bumped (xs : List ℕ) (i : ℕ) (ys : List ℕ) : Type 0 where
  pub same_length : length ys ≡ length xs
  pub elements :
      (c v : ℕ)
      → get_elem? xs c ≡ some v
      → v < 2 ^ 64
      → get_elem? ys c ≡ some (add64 v (if i == c then 1 else 0))

set-Bumped :
    (xs : List ℕ) (i w : ℕ)
    → i < length xs
    → get_elem? xs i ≡ some w
    → Bumped xs i (set xs i (add64 w 1))
set-Bumped xs i w h e = record {
  same_length = length-set xs i (add64 w 1);
  elements = λ c v g small. elim (Bool-cases (i == c)) [
    | inl hit ↦
        let here : i ≡ c = eq_of_== i c hit in
        let same : w ≡ v = cc in
        rw (hit, ← here) (get_elem?-set_self xs i (add64 w 1) h ∙ ap (λ u. some (add64 u 1)) same)
    | inr miss ↦ rw miss (
        get_elem?-set_ne xs i c (add64 w 1) (ne_of_== i c miss)
        ∙ g
        ∙ ap some {x = v} {y = add64 v 0} (omega arith))
  ];
}

pub bump-Bumped :
    (xs : List ℕ) (i : ℕ) → i < length xs → (ys : List ℕ) × (bump xs i ≡ ok ys) × Bumped xs i ys
unfolding bump
bump-Bumped xs i h =
    let (w, e) = get_elem?-lt xs i h in (set xs i (add64 w 1), rw (bump, e), set-Bumped xs i w h e)

pub bump-fault : (xs : List ℕ) (i : ℕ) → length xs ≤ i → bump xs i ≡ fault
unfolding bump
bump-fault xs i h = rw (bump, get_elem?-ge xs i h)

pub assign-set : (xs : List ℕ) (i v : ℕ) → i < length xs → assign xs i v ≡ ok (set xs i v)
unfolding assign
assign-set xs i v h = let (w, e) = get_elem?-lt xs i h in rw (assign, e)

pub assign-fault : (xs : List ℕ) (i v : ℕ) → length xs ≤ i → assign xs i v ≡ fault
unfolding assign
assign-fault xs i v h = rw (assign, get_elem?-ge xs i h)
