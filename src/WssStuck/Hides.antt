-- ===== src/WssStuck/Hides.antt =====
-- wssdemo.c: no entry becomes accessible again.
use lkms.Prelude.{
  ℕ, zero, suc, ◌+◌, ◌<◌, ◌≡◌, refl, ap, arith, ◌==◌, ◌&&◌, ==-self, eq_of_==, if-elim, ltb,
  Bool-cases, inl, inr, Option, none, some, List, [], ◌∷◌, All, true, false, length,
}
use lkms.Kernel.Run.{Ends, ends, Ends->>=}
use lkms.Kernel.Paging.{
  Paging, Ptes, present, protnone, Walk, no_pgd, no_pud, no_pmd, entry, descend,
}
use lkms.Kernel.Walks.{visit_all-Ends, walk_vmas-visits}
use lkms.WssZero.{State, Task, Event, page_fault, kernel_sets}
use lkms.WssZero.Prints.{IsUser, HasMm}
use lkms.WssStuck.{
  protect, mark_entry, mark_page, wss_marking, check_entry, check_page, page_check, happen, sleep,
  rounds_from, start,
}

module _ (k : Paging) (q : ℕ) where
  open k use {Mm, has_flag, has-set, has-clear}

  -- The entry `q` has no present bit in the second state, if it has none in the first.
  abbrev pub Hides : (s t : State k) → Type 0
  Hides s t = has_flag (s.ptes q) present ≡ false → has_flag (t.ptes q) present ≡ false

  -- The kernel's own changes in a sleep do not make the entry `q` present.
  abbrev pub Spares : Event k → Type 0
  Spares (page_fault e) = Unit {0}
  Spares (kernel_sets p v) = p ≡ q → has_flag v present ≡ false

  pub protect-hides :
      (m : Ptes k) (p : ℕ)
      → has_flag (m q) present ≡ false
      → has_flag (protect k m p q) present ≡ false
  unfolding protect
  protect-hides m p hidden = elim (Bool-cases (p == q)) [
    | inl same ↦ rw (same, ==-self p, has-set, has-clear) refl
    | inr other ↦ rw other hidden
  ]

  mark_entry-Hides :
      (p : ℕ) (s t : State k) → Hides s t → Ends (λ (r, u). Hides s u) (mark_entry k p t)
  unfolding mark_entry
  mark_entry-Hides p s t hides =
      if-elim (Ends (λ (r, u). Hides s u)) (p == 0) (λ _. ends hides)
        (λ _.
          if-elim (Ends (λ (r, u). Hides s u)) (k.pte_present (t.ptes p))
            (λ _. ends (λ h. protect-hides t.ptes p (hides h))) (λ _. ends hides))

  mark_page-Hides :
      (mm : Mm) (a : ℕ) (s t : State k)
      → Hides s t
      → Ends (λ (r, u). Hides s u) (mark_page k mm a t)
  unfolding mark_page
  mark_page-Hides mm a s t hides = go (descend k mm a) refl
    where
      go : (w : Walk) → descend k mm a ≡ w → Ends (λ (r, u). Hides s u) (mark_page k mm a t)
      go no_pgd e = rw (mark_page, e) (ends hides)
      go no_pud e = rw (mark_page, e) (ends hides)
      go no_pmd e = rw (mark_page, e) (ends hides)
      go (entry p) e = rw (mark_page, e) (mark_entry-Hides p s t hides)

  wss_marking-Hides :
      (fuel : ℕ) (ts : Task k) (s t : State k)
      → IsUser k fuel ts
      → Hides s t
      → Ends (λ (r, u). Hides s u) (wss_marking k fuel (some ts) t)
  unfolding wss_marking
  wss_marking-Hides fuel ts s t user hides =
      rw (wss_marking, user.has_mm, walk_vmas-visits (mark_page k user.mm) fuel ts.mmap t user.fit)
        (visit_all-Ends (mark_page k user.mm) (Hides s)
          (λ a u kept. mark_page-Hides user.mm a s u kept) _ t hides)

  check_entry-Hides : (p : ℕ) (s t : State k) → Hides s t → Hides s (check_entry k p t)
  unfolding check_entry
  check_entry-Hides p s t hides =
      if-elim (Hides s) (p == 0) (λ _. hides)
        (λ _.
          if-elim (Hides s) (k.pte_present (t.ptes p) && has_flag (t.ptes p) protnone)
            (λ _ h. protect-hides t.ptes p (hides h)) (λ _. hides))

  check_page-Hides : (mm : Mm) (a : ℕ) (s t : State k) → Hides s t → Hides s (check_page k mm a t)
  unfolding check_page
  check_page-Hides mm a s t hides = go (descend k mm a) refl
    where
      go : (w : Walk) → descend k mm a ≡ w → Hides s (check_page k mm a t)
      go no_pgd e = rw (check_page, e) hides
      go no_pud e = rw (check_page, e) hides
      go no_pmd e = rw (check_page, e) hides
      go (entry p) e = rw (check_page, e) (check_entry-Hides p s t hides)

  page_check-Hides :
      (pid : ℕ) (o : Option (Task k)) (addr pidd : ℕ) (s t : State k)
      → ((ts : Task k) → o ≡ some ts → (mm : Mm) × (ts.mm ≡ some mm))
      → Hides s t
      → Ends (Hides s) (page_check k pid o addr pidd t)
  unfolding page_check
  page_check-Hides pid none addr pidd s t has hides = ends hides
  page_check-Hides pid (some ts) addr pidd s t has hides =
      let (mm, has_mm) = has ts refl in
      if-elim (Ends (Hides s)) (ts.pid == pid)
        (λ _. rw has_mm (ends (check_page-Hides mm addr s t hides))) (λ _. ends hides)

  happen-Hides :
      (pid : ℕ) (e : Event k) (s t : State k)
      → HasMm k e
      → Spares e
      → Hides s t
      → Ends (Hides s) (happen k pid e t)
  unfolding happen
  happen-Hides pid (page_fault e) s t user spares hides =
      if-elim (Ends (Hides s)) t.hooked
        (λ _. page_check-Hides pid e.task e.addr e.pidd s t user hides) (λ _. ends hides)
  happen-Hides pid (kernel_sets p v) s t user spares hides = elim (Bool-cases (p == q)) [
    | inl here ↦ ends (λ h. rw here (spares (eq_of_== p q here)))
    | inr other ↦ ends (λ h. rw other (hides h))
  ]

  sleep-Hides :
      (pid : ℕ) (es : List (Event k)) (s t : State k)
      → All (HasMm k) es
      → All Spares es
      → Hides s t
      → Ends (Hides s) (sleep k pid es t)
  unfolding sleep
  sleep-Hides pid [] s t users spared hides = ends hides
  sleep-Hides pid (e ∷ es) s t (user, users) (spares, spared) hides =
      Ends->>= (happen-Hides pid e s t user spares hides)
        (λ u kept. sleep-Hides pid es s u users spared kept)

  module _ (fuel pid : ℕ) (world : ℕ → Task k × List (Event k))
      (user : (i : ℕ) → IsUser k fuel (world i).0) (users : (i : ℕ) → All (HasMm k) (world i).1)
      (spared : (i : ℕ) → All Spares (world i).1) where
    rounds_from-Hides :
        (n rounds i : ℕ) (s t : State k)
        → n < rounds
        → i + n ≡ 60
        → Hides s t
        → Ends (λ (out, u). (length out ≡ n) × Hides s u) (rounds_from k rounds fuel pid i world t)
    unfolding rounds_from
    rounds_from-Hides n zero i s t f e hides = absurd (omega arith)
    rounds_from-Hides zero (suc rounds) i s t f e hides =
        let over : ltb i 60 ≡ false = ground arith in rw (rounds_from, over) (ends (refl, hides))
    rounds_from-Hides (suc n) (suc rounds) i s t f e hides =
        let more : ltb i 60 ≡ true = ground arith in
        rw (rounds_from, more)
          (Ends->>= (wss_marking-Hides fuel (world i).0 s t (user i) hides) (λ (r, u) kept.
            Ends->>= (sleep-Hides pid (world i).1 s u (users i) (spared i) kept) (λ v kept'.
              Ends->>= (rounds_from-Hides n rounds (i + 1) s v (omega arith) (omega arith) kept')
                (λ (out, w) (count, rest). ends (ap suc count, rest)))))

    -- If the process is found, and is in no round a kernel thread, nor is any task whose page fault
    -- is reported, and its areas fit, then `start` ends without a fault and prints 60 lines. An entry
    -- that has no present bit at the start, and that the kernel itself does not make present in one
    -- of the sleeps, has none at the end, whatever page faults happen and whatever the kernel does to
    -- other entries: no page fault reported to the module gives it the bit.
    pub start-Hides :
        (ts : Task k) (s : State k)
        → ts.pid ≡ pid
        → Ends (λ (out, t). (length out ≡ 60) × Hides s t) (start k fuel pid (some ts) world s)
    unfolding start
    start-Hides ts s own =
        rw (start, own, ==-self pid)
          (rounds_from-Hides 60 61 0 s (record s { hooked = true }) (omega arith) refl (λ h. h))
