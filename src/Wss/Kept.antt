-- ===== src/Wss/Kept.antt =====
-- workingwss.c and wss4.c: what the hook does in the one is what it does in the other, and the list
-- stays as it is.
use lkms.Prelude.{
  ℕ, ◌≡◌, refl, ◌∙◌, ap, ◌==◌, Bool-cases, inl, inr, Bool, true, false, Option, none, some, List,
  [], ◌∷◌, All, if◌then◌else◌,
}
use lkms.Kernel.Run.{Run, ok, ◌>>=◌, Ends, ends, Ends-value}
use lkms.WssZero.Prints.{HasMm}
use lkms.Kernel.Paging.{Paging, Walk, no_pgd, no_pud, no_pmd, entry, descend}
use lkms.Wss.{State, unprotect, check_entry, check_page, page_check, happen, sleep}
use lkms.WssZero as Plain
use lkms.Wss.Erase.{erase, task_found, events_of, event_of}

module _ (k : Paging) where
  open k use {Mm, Pte}

  -- What the hook does to the state: the same, and the list stays.
  abbrev Kept : (s t : State k) → Plain.State k → Type 0
  Kept s t p = (p ≡ erase k t) × (t.heap ≡ s.heap) × (t.head ≡ s.head)

  check_entry-Kept :
      (p : ℕ) (s : State k) → Kept s (check_entry k p s) (Plain.check_entry k p (erase k s))
  unfolding check_entry Plain.check_entry unprotect Plain.unprotect
  check_entry-Kept p s = elim (Bool-cases (p == 0)) [
    | inl z ↦ rw z (refl, refl, refl)
    | inr ne ↦ elim (Bool-cases (k.any_flag (s.ptes p))) [
      | inl marked ↦ rw (ne, marked) (refl, refl, refl)
      | inr bare ↦ rw (ne, bare) (refl, refl, refl)
    ]
  ]

  check_page-Kept :
      (mm : Mm) (addr : ℕ) (s : State k)
      → Kept s (check_page k mm addr s) (Plain.check_page k mm addr (erase k s))
  unfolding check_page Plain.check_page
  check_page-Kept mm addr s = go (descend k mm addr) refl
    where
      go :
          (w : Walk)
          → descend k mm addr ≡ w
          → Kept s (check_page k mm addr s) (Plain.check_page k mm addr (erase k s))
      go no_pgd e = rw (check_page, Plain.check_page, e) (refl, refl, refl)
      go no_pud e = rw (check_page, Plain.check_page, e) (refl, refl, refl)
      go no_pmd e = rw (check_page, Plain.check_page, e) (refl, refl, refl)
      go (entry p) e = rw (check_page, Plain.check_page, e) (check_entry-Kept p s)

  -- Both runs end, and the second where the first does, without the list, which stays.
  abbrev pub BothKept : State k → Run (State k) → Run (Plain.State k) → Type 0
  BothKept s m n = Ends (λ t. (n ≡ ok (erase k t)) × (t.heap ≡ s.heap) × (t.head ≡ s.head)) m

  page_check-BothKept :
      (pid : ℕ) (o : Option (Plain.Task k)) (addr pidd : ℕ) (s : State k)
      → ((ts : Plain.Task k) → o ≡ some ts → (mm : Mm) × (ts.mm ≡ some mm))
      → BothKept s
          (page_check k pid (task_found k o) addr pidd s)
          (Plain.page_check k pid o addr pidd (erase k s))
  unfolding page_check Plain.page_check
  page_check-BothKept pid none addr pidd s has = ends (refl, refl, refl)
  page_check-BothKept pid (some ts) addr pidd s has =
      let (mm, user) = has ts refl in
      let (same, heap, head) = check_page-Kept mm addr s in
      elim (Bool-cases (ts.pid == pid)) [
        | inl ours ↦ rw (ours, user) (ends (ap ok same, heap, head))
        | inr other ↦ rw other (ends (refl, refl, refl))
      ]

  if_hooked :
      (s : State k) (b : Bool) {m : Run (State k)} {n : Run (Plain.State k)}
      → BothKept s m n
      → BothKept s (if b then m else ok s) (if b then n else ok (erase k s))
  if_hooked s true kept = kept
  if_hooked s false kept = ends (refl, refl, refl)

  happen-BothKept :
      (pid : ℕ) (e : Plain.Event k) (s : State k)
      → HasMm k e
      → BothKept s (happen k pid (event_of k e) s) (Plain.happen k pid e (erase k s))
  unfolding happen Plain.happen
  happen-BothKept pid (Plain.page_fault e) s has =
      if_hooked s s.hooked (page_check-BothKept pid e.task e.addr e.pidd s has)
  happen-BothKept pid (Plain.kernel_sets p v) s has = ends (refl, refl, refl)

  pub sleep-BothKept :
      (pid : ℕ) (es : List (Plain.Event k)) (s : State k)
      → All (HasMm k) es
      → BothKept s (sleep k pid (events_of k es) s) (Plain.sleep k pid es (erase k s))
  unfolding sleep Plain.sleep
  sleep-BothKept pid [] s users = ends (refl, refl, refl)
  sleep-BothKept pid (e ∷ es) s (user, users) =
      let (t, run, (same, heap, head)) = Ends-value (happen-BothKept pid e s user) in
      let (u, run', (same', heap', head')) = Ends-value (sleep-BothKept pid es t users) in
      rw (run, ◌>>=◌, run') (ends (rw (same, ◌>>=◌, same') refl, heap' ∙ heap, head' ∙ head))
