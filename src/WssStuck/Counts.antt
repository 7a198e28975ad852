-- ===== src/WssStuck/Counts.antt =====
-- wssdemo.c: what page faults at hidden pages count.
use lkms.Prelude.{
  ℕ, suc, ◌<◌, ◌≡◌, ◌≢◌, refl, sym, ap, arith, ◌==◌, ◌∙◌, ◌^◌, ==-self, eq_of_==, ==_of_ne,
  Bool-cases, inl, inr, some, List, [], ◌∷◌, All, true, false, length, add32, Bool, if◌then◌else◌,
}
use lkms.Kernel.Run.{ok, Ends, ends, Ends-weaken}
use lkms.Kernel.Paging.{Paging, Ptes, Flag, present, protnone, entry, descend}
use lkms.WssZero.{State, Task, PageFault, Event, page_fault}
use lkms.WssStuck.{protect, check_entry, check_page, page_check, happen, sleep}

if_true : {A : Type 0} (b : Bool) {m : A} (n : A) → b ≡ true → (if b then m else n) ≡ m
if_true true n e = refl
if_true false n e = cc

module _ (k : Paging) where
  -- The sleep in which these page faults happen.
  abbrev pub faults : List (PageFault k) → List (Event k)
  faults [] = []
  faults (e ∷ es) = page_fault e ∷ faults es

  open k use {Mm, Pte, has_flag, has-set, has-clear, present_iff}

  -- The bits of all entries are the same.
  abbrev pub SameFlags : (m n : Ptes k) → Type 0
  SameFlags m n = (q : ℕ) (f : Flag) → has_flag (n q) f ≡ has_flag (m q) f

  -- A page fault of the process at a page that `wss_marking` has hidden.
  pub record AtHidden (pid : ℕ) (m : Ptes k) (e : PageFault k) : Type 0 where
    pub ts : Task k
    pub found : e.task ≡ some ts
    pub own : ts.pid ≡ pid
    pub mm : Mm
    pub has_mm : ts.mm ≡ some mm
    pub pte : ℕ
    pub walk : descend k mm e.addr ≡ entry pte
    pub not_null : pte ≢ 0
    pub hidden : has_flag (m pte) present ≡ false
    pub marked : has_flag (m pte) protnone ≡ true

  protect-SameFlags :
      (m n : Ptes k) (p : ℕ)
      → SameFlags m n
      → has_flag (m p) present ≡ false
      → has_flag (m p) protnone ≡ true
      → SameFlags m (protect k n p)
  unfolding protect
  protect-SameFlags m n p same hidden marked q present = elim (Bool-cases (p == q)) [
    | inl here ↦ rw (here, ==-self p, has-set, has-clear) (sym (rw (eq_of_== p q here) at hidden))
    | inr other ↦ rw other (same q present)
  ]
  protect-SameFlags m n p same hidden marked q protnone = elim (Bool-cases (p == q)) [
    | inl here ↦ rw (here, ==-self p, has-set) (sym (rw (eq_of_== p q here) at marked))
    | inr other ↦ rw other (same q protnone)
  ]

  check_entry-counts :
      (p : ℕ) (m : Ptes k) (s : State k)
      → SameFlags m s.ptes
      → p ≢ 0
      → has_flag (m p) present ≡ false
      → has_flag (m p) protnone ≡ true
      → check_entry k p s ≡ record s { wss = add32 s.wss 1; ptes = protect k s.ptes p }
  unfolding check_entry
  check_entry-counts p m s same not_null hidden marked =
      rw (==_of_ne p 0 not_null, present_iff, same p present, same p protnone, hidden, marked) refl

  page_check-counts :
      (pid : ℕ) (m : Ptes k) (e : PageFault k) (s : State k)
      → SameFlags m s.ptes
      → (h : AtHidden pid m e)
      → page_check k pid e.task e.addr e.pidd s
        ≡ ok (record s { wss = add32 s.wss 1; ptes = protect k s.ptes h.pte })
  unfolding page_check check_page
  page_check-counts pid m e s same h =
      let ours : (h.ts.pid == pid) ≡ true = rw h.own (==-self pid) in
      rw (h.found, page_check, ours, h.has_mm, check_page, h.walk)
        (ap ok (check_entry-counts h.pte m s same h.not_null h.hidden h.marked))

  sleep-counts :
      (pid w : ℕ) (m : Ptes k) (es : List (PageFault k)) (s : State k)
      → s.hooked ≡ true
      → s.wss ≡ w
      → w < 2 ^ 32
      → SameFlags m s.ptes
      → All (AtHidden pid m) es
      → Ends (λ t. (t.wss ≡ add32 w (length es)) × SameFlags m t.ptes) (sleep k pid (faults es) s)
  unfolding sleep happen
  sleep-counts pid w m [] s hooked e small same at = ends (omega (arith, e, small), same)
  sleep-counts pid w m (e ∷ es) s hooked count small same (at, rest) =
      let t : State k = record s { wss = add32 s.wss 1; ptes = protect k s.ptes at.pte } in
      let ran = if_true s.hooked (ok s) hooked ∙ page_check-counts pid m e s same at in
      let still = protect-SameFlags m s.ptes at.pte same at.hidden at.marked in
      let more = sleep-counts pid (add32 s.wss 1) m es t hooked refl (omega arith) still rest in
      let one_more : add32 (add32 s.wss 1) (length es) ≡ add32 w (suc (length es)) =
        omega (arith, count) in
      rw ran (Ends-weaken more (λ u (counted, kept). (counted ∙ one_more, kept)))

  -- If the hook is set, then each page fault of the process at a hidden page, one with an entry that
  -- has the second bit but not the present bit, is counted, again and again at the same page, and
  -- none changes a bit of an entry, so that the page cannot be used. The count wraps at 2 ^ 32.
  pub sleep_counts_each :
      (pid : ℕ) (es : List (PageFault k)) (s : State k)
      → s.hooked ≡ true
      → s.wss < 2 ^ 32
      → All (AtHidden pid s.ptes) es
      → Ends
          (λ t. (t.wss ≡ add32 s.wss (length es)) × SameFlags s.ptes t.ptes)
          (sleep k pid (faults es) s)
  sleep_counts_each pid es s hooked small at =
      sleep-counts pid s.wss s.ptes es s hooked refl small (λ q f. refl) at
