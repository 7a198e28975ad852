-- ===== src/Wss/Entries.antt =====
-- workingwss.c, what its pairs of `set_pte` do to the bits of an entry and to other entries.
use lkms.Prelude.{
  ℕ, ◌≡◌, ◌≢◌, refl, true, false, ◌==◌, ==-self, ==_of_ne, eq_of_==, ne_of_==, Bool-cases, inl, inr,
}
use lkms.Kernel.Paging.{Paging, Ptes, present, protnone}
use lkms.Wss.{protect, unprotect}

module _ (k : Paging) (m : Ptes k) where
  open k use {has_flag, pte_set_flags, pte_clear_flags, has-set, has-clear}

  pub has-protect_self :
      (p : ℕ)
      → (has_flag (protect k m p p) present ≡ false) × (has_flag (protect k m p p) protnone ≡ true)
  unfolding protect
  has-protect_self p = (rw (==-self p, has-clear) refl, rw (==-self p, has-clear, has-set) refl)

  pub protect-other : (p q : ℕ) → p ≢ q → protect k m p q ≡ m q
  unfolding protect
  protect-other p q ne = rw (==_of_ne p q ne)

  pub has-unprotect_self :
      (p : ℕ)
      → (has_flag (unprotect k m p p) present ≡ true)
        × (has_flag (unprotect k m p p) protnone ≡ false)
  unfolding unprotect
  has-unprotect_self p = (rw (==-self p, has-clear, has-set) refl, rw (==-self p, has-clear) refl)

  pub unprotect-other : (p q : ℕ) → p ≢ q → unprotect k m p q ≡ m q
  unfolding unprotect
  unprotect-other p q ne = rw (==_of_ne p q ne)

  -- No entry becomes present.
  pub protect-hides :
      (p q : ℕ) → has_flag (m q) present ≡ false → has_flag (protect k m p q) present ≡ false
  protect-hides p q h = elim (Bool-cases (p == q)) [
    | inl e ↦ rw (← eq_of_== p q e) (has-protect_self p).0
    | inr e ↦ rw (protect-other p q (ne_of_== p q e)) h
  ]
