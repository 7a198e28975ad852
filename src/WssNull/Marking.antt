-- ===== src/WssNull/Marking.antt =====
-- wss.c: what marking and the hook come to, since `page_entry` stays NULL.
use lkms.Prelude.{
  ℕ, zero, suc, ◌+◌, ◌<◌, ◌≡◌, refl, ◌∙◌, arith, ◌==◌, ==-self, if-elim, if◌then◌else◌, Bool,
  Bool-cases, inl, inr, ◌||◌, ltb, Option, none, some, List, [], ◌∷◌, All, pos, ◌==ℤ◌, replicate,
  true, false,
}
use lkms.Kernel.Run.{Run, ok, fault, FaultsOr, faults, returns, FaultsOr->>=, ◌>>=◌}
use lkms.Kernel.Paging.{Paging, Ptes, no_pgd, no_pud, no_pmd, entry, descend, set_pte}
use lkms.Kernel.Areas.{Fits, area_addrs}
use lkms.Kernel.Walks.{visit_all, walk_vmas-visits}
use lkms.WssNull.{
  State, Task, Event, page_fault, kernel_sets, follow_pte, read, protect, check_entry, page_check,
  mark_page, wss_marking, happen, sleep, rounds_from, start,
}

module _ (k : Paging) where
  -- The page has an entry, and it is present.
  abbrev pub is_resident : Ptes k → k.Mm → ℕ → Bool
  is_resident m mm a = elim (descend k mm a) [
    | no_pgd ↦ false
    | no_pud ↦ false
    | no_pmd ↦ false
    | entry p ↦ if p == 0 then false else k.pte_present (m p)
  ]

  abbrev pub any_resident : Ptes k → k.Mm → List ℕ → Bool
  any_resident m mm [] = false
  any_resident m mm (a ∷ as') = is_resident m mm a || any_resident m mm as'

  follow_pte-resident :
      (m : Ptes k) (mm : k.Mm) (a page_entry : ℕ)
      → ((follow_pte k m mm a page_entry).0 ==ℤ pos 1 ≡ is_resident m mm a)
        × ((follow_pte k m mm a page_entry).1 ≡ page_entry)
  unfolding follow_pte
  follow_pte-resident m mm a page_entry = ground arith

  mark_page-decides :
      (mm : k.Mm) (a : ℕ) (s : State k)
      → mark_page k mm a s ≡ (if is_resident s.ptes mm a then fault else ok (pos 0, s))
  unfolding mark_page protect read
  mark_page-decides mm a s =
      let (answer, same) = follow_pte-resident s.ptes mm a 0 in rw (mark_page, answer, same) refl

  visit_all-decides :
      (mm : k.Mm) (xs : List ℕ) (s : State k)
      → visit_all (mark_page k mm) xs s
        ≡ (if any_resident s.ptes mm xs then fault else ok (pos 0, s))
  unfolding visit_all
  visit_all-decides mm [] s = refl
  visit_all-decides mm (x ∷ xs) s = elim (Bool-cases (is_resident s.ptes mm x)) [
    | inl there ↦ rw (visit_all, mark_page-decides mm x s, there, ◌>>=◌) refl
    | inr absent ↦
        rw (visit_all, mark_page-decides mm x s, absent, ◌>>=◌) (visit_all-decides mm xs s)
  ]

  -- If the areas of the task fit, `wss_marking` is a fault as soon as one of the pages that it
  -- visits is present, and otherwise returns 0 and changes nothing.
  pub wss_marking-decides :
      (fuel : ℕ) (ts : Task k) (mm : k.Mm) (s : State k)
      → ts.mm ≡ some mm
      → All (Fits fuel) ts.mmap
      → wss_marking k fuel (some ts) s
        ≡ (if any_resident s.ptes mm (area_addrs ts.mmap) then fault else ok (pos 0, s))
  unfolding wss_marking
  wss_marking-decides fuel ts mm s has_mm fit =
      rw (wss_marking, has_mm)
        (walk_vmas-visits (mark_page k mm) fuel ts.mmap s fit
          ∙ visit_all-decides mm (area_addrs ts.mmap) s)

  abbrev SameCount : ℕ → State k → Type 0
  SameCount w t = t.wss_size ≡ w

  wss_marking-SameCount :
      (fuel w : ℕ) (ts : Task k) (s : State k)
      → All (Fits fuel) ts.mmap
      → s.wss_size ≡ w
      → FaultsOr (λ (r, t). SameCount w t) (wss_marking k fuel (some ts) s)
  unfolding wss_marking
  wss_marking-SameCount fuel w ts s fit e = go ts.mm refl
    where
      go :
          (o : Option k.Mm)
          → ts.mm ≡ o
          → FaultsOr (λ (r, t). SameCount w t) (wss_marking k fuel (some ts) s)
      go none at = rw (wss_marking, at) faults
      go (some mm) at = rw (wss_marking-decides fuel ts mm s at fit) (
          if-elim (FaultsOr (λ (r, t). SameCount w t)) (any_resident s.ptes mm (area_addrs ts.mmap))
            (λ _. faults) (λ _. returns e))

  -- The hook faults at a page that is present, and does nothing at any other.
  page_check-SameCount :
      (pid w : ℕ) (o : Option (Task k)) (a pidd : ℕ) (s : State k)
      → s.wss_size ≡ w
      → FaultsOr (SameCount w) (page_check k pid o a pidd s)
  unfolding page_check check_entry read
  page_check-SameCount pid w none a pidd s e =
      if-elim (FaultsOr (SameCount w)) (pid == pidd) (λ _. faults) (λ _. returns e)
  page_check-SameCount pid w (some ts) a pidd s e =
      if-elim (FaultsOr (SameCount w)) (pid == pidd) (λ _. go ts.mm refl) (λ _. returns e)
    where
      checked : k.Mm → Run (State k)
      checked mm =
          let (r, page_entry) = follow_pte k s.ptes mm a 0 in
          if r ==ℤ pos 1 then check_entry k page_entry s else ok s

      go :
          (o : Option k.Mm)
          → ts.mm ≡ o
          → FaultsOr (SameCount w) (elim ts.mm [ none ↦ fault | some mm ↦ checked mm ])
      go none at = rw at faults
      go (some mm) at =
          let (answer, same) = follow_pte-resident s.ptes mm a 0 in
          rw at (
            if-elim (FaultsOr (SameCount w)) ((follow_pte k s.ptes mm a 0).0 ==ℤ pos 1)
              (λ _. rw (same, check_entry, read) faults) (λ _. returns e))

  sleep-SameCount :
      (pid w : ℕ) (es : List (Event k)) (s : State k)
      → s.wss_size ≡ w
      → FaultsOr (SameCount w) (sleep k pid es s)
  unfolding sleep happen
  sleep-SameCount pid w [] s e = returns e
  sleep-SameCount pid w (page_fault o a pidd ∷ es) s e =
      FaultsOr->>=
        (if-elim (FaultsOr (SameCount w)) s.hooked (λ _. page_check-SameCount pid w o a pidd s e)
          (λ _. returns e))
        (λ t same. sleep-SameCount pid w es t same)
  sleep-SameCount pid w (kernel_sets p v ∷ es) s e =
      sleep-SameCount pid w es (record s { ptes = set_pte k s.ptes p v }) e

  module _ (fuel pid : ℕ) (world : ℕ → Task k × List (Event k))
      (fit : (i : ℕ) → All (Fits fuel) (world i).0.mmap) where
    rounds_from-prints :
        (n rounds i w : ℕ) (s : State k)
        → n < rounds
        → i + n ≡ 60
        → s.wss_size ≡ w
        → FaultsOr (λ (out, t). out ≡ replicate n w) (rounds_from k rounds fuel pid i world s)
    unfolding rounds_from
    rounds_from-prints n zero i w s f e same = absurd (omega arith)
    rounds_from-prints zero (suc rounds) i w s f e same =
        let over : ltb i 60 ≡ false = ground arith in rw (rounds_from, over) (returns refl)
    rounds_from-prints (suc n) (suc rounds) i w s f e same =
        let more : ltb i 60 ≡ true = ground arith in
        rw (rounds_from, more)
          (FaultsOr->>= (wss_marking-SameCount fuel w (world i).0 s (fit i) same) (λ (r, t) kept.
            FaultsOr->>= (sleep-SameCount pid w (world i).1 t kept) (λ u kept'.
              FaultsOr->>=
                (rounds_from-prints n rounds (i + 1) w u (omega arith) (omega arith) kept')
                (λ (out, v) rest. returns (rw (kept, rest) refl)))))

    -- If the process is found and its areas fit in every round, `start` comes to an end: in a
    -- fault, or after printing 60 times the WSS that was there before, 0 from the start; what the
    -- process and the kernel do meanwhile makes no difference to what is printed.
    pub start-counts_nothing :
        (ts : Task k) (s : State k)
        → ts.pid ≡ pid
        → FaultsOr (λ (out, t). out ≡ replicate 60 s.wss_size) (start k fuel pid (some ts) world s)
    unfolding start
    start-counts_nothing ts s own =
        rw (start, own, ==-self pid)
          (rounds_from-prints 60 61 0 s.wss_size (record s { hooked = true }) (omega arith) refl
            refl)
