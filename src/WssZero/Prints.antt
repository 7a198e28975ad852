-- ===== src/WssZero/Prints.antt =====
-- wssdemo3.c: what `start` prints.
use lkms.Prelude.{
  ℕ, zero, suc, ◌+◌, ◌<◌, ◌≡◌, refl, arith, ◌==◌, ==-self, if-elim, ltb, Option, none, some, List,
  [], ◌∷◌, All, true, false, replicate,
}
use lkms.Kernel.Run.{Ends, ends, Ends->>=}
use lkms.Kernel.Paging.{Paging, Walk, no_pgd, no_pud, no_pmd, entry, descend}
use lkms.Kernel.Areas.{Fits}
use lkms.Kernel.Walks.{visit_all-Ends, walk_vmas-visits}
use lkms.WssZero.{
  State, Task, PageFault, Event, page_fault, kernel_sets, happen, mark_entry, mark_page,
  wss_marking, page_check, sleep, rounds_from, start,
}

module _ (k : Paging) where
  -- The task is no kernel thread, and its areas fit.
  pub record IsUser (fuel : ℕ) (ts : Task k) : Type 0 where
    pub mm : k.Mm
    pub has_mm : ts.mm ≡ some mm
    pub fit : All (Fits fuel) ts.mmap

  -- A page fault is no kernel thread's.
  abbrev pub HasMm : Event k → Type 0
  HasMm (page_fault e) = (ts : Task k) → e.task ≡ some ts → (mm : k.Mm) × (ts.mm ≡ some mm)
  HasMm (kernel_sets p v) = Unit {0}

  mark_entry-wss : (p : ℕ) (s : State k) → Ends (λ (r, t). t.wss ≡ s.wss) (mark_entry k p s)
  unfolding mark_entry
  mark_entry-wss p s =
      if-elim (Ends (λ (r, t). t.wss ≡ s.wss)) (p == 0) (λ _. ends refl)
        (λ _.
          if-elim (Ends (λ (r, t). t.wss ≡ s.wss)) (k.pte_present (s.ptes p)) (λ _. ends refl)
            (λ _. ends refl))

  mark_page-wss :
      (mm : k.Mm) (a : ℕ) (s : State k) → Ends (λ (r, t). t.wss ≡ s.wss) (mark_page k mm a s)
  unfolding mark_page
  mark_page-wss mm a s = go (descend k mm a) refl
    where
      go : (w : Walk) → descend k mm a ≡ w → Ends (λ (r, t). t.wss ≡ s.wss) (mark_page k mm a s)
      go no_pgd e = rw (mark_page, e) (ends refl)
      go no_pud e = rw (mark_page, e) (ends refl)
      go no_pmd e = rw (mark_page, e) (ends refl)
      go (entry p) e = rw (mark_page, e) (mark_entry-wss p s)

  pub wss_marking-wss :
      (fuel w : ℕ) (ts : Task k) (s : State k)
      → IsUser fuel ts
      → s.wss ≡ w
      → Ends (λ (r, t). t.wss ≡ w) (wss_marking k fuel (some ts) s)
  unfolding wss_marking
  wss_marking-wss fuel w ts s user e =
      rw (wss_marking, user.has_mm, walk_vmas-visits (mark_page k user.mm) fuel ts.mmap s user.fit)
        (visit_all-Ends (mark_page k user.mm) (λ t. t.wss ≡ w)
          (λ a t same. rw (← same) (mark_page-wss user.mm a t)) _ s e)

  page_check-Ends :
      (pid : ℕ) (e : PageFault k) (s : State k)
      → HasMm (page_fault e)
      → Ends (λ t. Unit {0}) (page_check k pid e.task e.addr e.pidd s)
  unfolding page_check
  page_check-Ends pid e s has = go e.task refl
    where
      go :
          (o : Option (Task k))
          → e.task ≡ o
          → Ends (λ t. Unit {0}) (page_check k pid o e.addr e.pidd s)
      go none at = ends tt
      go (some ts) at =
          let (mm, has_mm) = has ts at in
          if-elim (Ends (λ t. Unit {0})) (ts.pid == pid) (λ _. rw has_mm (ends tt)) (λ _. ends tt)

  happen-Ends :
      (pid : ℕ) (e : Event k) (s : State k) → HasMm e → Ends (λ t. Unit {0}) (happen k pid e s)
  unfolding happen
  happen-Ends pid (page_fault e) s user =
      if-elim (Ends (λ t. Unit {0})) s.hooked (λ _. page_check-Ends pid e s user) (λ _. ends tt)
  happen-Ends pid (kernel_sets p v) s user = ends tt

  pub sleep-Ends :
      (pid : ℕ) (es : List (Event k)) (s : State k)
      → All HasMm es
      → Ends (λ t. Unit {0}) (sleep k pid es s)
  unfolding sleep
  sleep-Ends pid [] s users = ends tt
  sleep-Ends pid (e ∷ es) s (user, users) =
      Ends->>= (happen-Ends pid e s user) (λ t _. sleep-Ends pid es t users)

  module _ (fuel pid : ℕ) (world : ℕ → Task k × List (Event k))
      (user : (i : ℕ) → IsUser fuel (world i).0) (users : (i : ℕ) → All HasMm (world i).1) where
    rounds_from-zeros :
        (n rounds i : ℕ) (s : State k)
        → n < rounds
        → i + n ≡ 10
        → Ends (λ (out, t). out ≡ replicate n 0) (rounds_from k rounds fuel pid i world s)
    unfolding rounds_from
    rounds_from-zeros n zero i s f e = absurd (omega arith)
    rounds_from-zeros zero (suc rounds) i s f e =
        let over : ltb i 10 ≡ false = ground arith in rw (rounds_from, over) (ends refl)
    rounds_from-zeros (suc n) (suc rounds) i s f e =
        let more : ltb i 10 ≡ true = ground arith in
        rw (rounds_from, more)
          (Ends->>= (wss_marking-wss fuel 0 (world i).0 (record s { wss = 0 }) (user i) refl)
            (λ (r, t) zeroed. Ends->>= (sleep-Ends pid (world i).1 t (users i)) (λ u _.
              Ends->>= (rounds_from-zeros n rounds (i + 1) u (omega arith) (omega arith))
                (λ (out, v) rest. ends (rw (zeroed, rest) refl)))))

    -- If the process is found, and is in no round a kernel thread, nor is any task whose page
    -- fault is reported, and its areas fit, then `start` ends without a fault and prints ten
    -- times the WSS 0, whatever pages the process uses.
    pub start-prints_zero :
        (ts : Task k) (s : State k)
        → ts.pid ≡ pid
        → Ends (λ (out, t). out ≡ replicate 10 0) (start k fuel pid (some ts) world s)
    unfolding start
    start-prints_zero ts s own =
        rw (start, own, ==-self pid)
          (rounds_from-zeros 10 11 0 (record s { hooked = true }) (omega arith) refl)
