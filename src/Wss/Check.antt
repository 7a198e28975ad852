-- ===== src/Wss/Check.antt =====
-- workingwss.c, the page-fault hook: what it counts, and what it does to a hidden page.
use mathlib.Core.Path.{fun_ext}
use lkms.Prelude.{
  ℕ, ◌+◌, ◌^◌, ◌<◌, ◌≡◌, ◌≢◌, refl, sym, ◌∙◌, ap, ◌==◌, ==-self, ==_of_ne, eq_of_==, ne_of_==,
  Bool-cases, Option-cases, Bool, true, false, Option, none, some, List, [], ◌∷◌, arith, All,
  count_if, add32, if◌then◌else◌, inl, inr,
}
use lkms.Kernel.Run.{ok, Ends, ends, ◌>>=◌}
use lkms.Kernel.Paging.{
  Paging, Ptes, present, protnone, Walk, no_pgd, no_pud, no_pmd, entry, descend,
}
use lkms.Wss.{
  State, Task, Event, page_fault, unprotect, check_entry, check_page, page_check, happen, sleep,
}
use lkms.Wss.Entries.{has-unprotect_self, unprotect-other}
use lkms.Wss.Marked.{Hidden}

module _ (k : Paging) where
  open k use {Mm, Pte, has_flag, any_flag, any_of_has}

  -- Which entries have some flag set.
  abbrev pub flags_of : State k → ℕ → Bool
  flags_of s q = any_flag (s.ptes q)

  -- Whether the hook counts a fault at an entry, at an address of a process, and a call of it.
  abbrev pub counts_entry : (ℕ → Bool) → ℕ → Bool
  counts_entry flags p = if p == 0 then false else flags p

  abbrev pub counts_walk : (ℕ → Bool) → Walk → Bool
  counts_walk flags no_pgd = false
  counts_walk flags no_pud = false
  counts_walk flags no_pmd = false
  counts_walk flags (entry p) = counts_entry flags p

  -- A call of the hook: the task and the address.
  abbrev pub Fault : Type 0
  Fault = Task k × ℕ

  abbrev pub counts_in : (ℕ → Bool) → Option Mm → ℕ → Bool
  counts_in flags none addr = false
  counts_in flags (some mm) addr = counts_walk flags (descend k mm addr)

  -- The call is for the process that is watched, and the page has an entry with some flag.
  abbrev pub is_counted : (pid : ℕ) → (ℕ → Bool) → Fault → Bool
  is_counted pid flags (ts, addr) = if ts.pid == pid then counts_in flags ts.mm addr else false

  -- The task is no kernel thread, on which the hook would fault.
  abbrev pub HasMm : Fault → Type 0
  HasMm (ts, _) = ts.mm ≢ none

  abbrev pub calls : List Fault → List (Event k)
  calls [] = []
  calls ((ts, addr) ∷ fs) = page_fault (some ts) addr 0 ∷ calls fs

  unprotect-flags :
      (m : Ptes k) (p : ℕ)
      → any_flag (m p) ≡ true
      → (q : ℕ) → any_flag (unprotect k m p q) ≡ any_flag (m q)
  unprotect-flags m p h q = elim (Bool-cases (p == q)) [
    | inl e ↦
        rw (← eq_of_== p q e)
          (any_of_has (unprotect k m p p) present (has-unprotect_self k m p).0 ∙ sym h)
    | inr e ↦ rw (unprotect-other k m p q (ne_of_== p q e))
  ]

  -- One call: the count goes up if `b`, and the entries with flags are the same ones.
  record Called (b : Bool) (s t : State k) : Type 0 where
    wss : t.wss ≡ (if b then add32 s.wss 1 else s.wss)
    hooked : t.hooked ≡ s.hooked
    same : flags_of t ≡ flags_of s

  Called-refl : (s : State k) → Called false s s
  Called-refl s = record { wss = refl; hooked = refl; same = refl }

  check_entry-Called :
      (p : ℕ) (s : State k) → Called (counts_entry (flags_of s) p) s (check_entry k p s)
  unfolding check_entry
  check_entry-Called p s = elim (Bool-cases (p == 0)) [
    | inl z ↦ rw z (Called-refl s)
    | inr z ↦ elim (Bool-cases (any_flag (s.ptes p))) [
      | inl h ↦
          rw (z, h)
            (record { wss = refl; hooked = refl; same = fun_ext (unprotect-flags s.ptes p h) })
      | inr h ↦ rw (z, h) (Called-refl s)
    ]
  ]

  check_page-Called :
      (mm : Mm) (addr : ℕ) (s : State k)
      → Called (counts_in (flags_of s) (some mm) addr) s (check_page k mm addr s)
  unfolding check_page
  check_page-Called mm addr s = go (descend k mm addr) refl
    where
      go :
          (w : Walk)
          → descend k mm addr ≡ w
          → Called (counts_in (flags_of s) (some mm) addr) s (check_page k mm addr s)
      go no_pgd e = rw (check_page, e) (Called-refl s)
      go no_pud e = rw (check_page, e) (Called-refl s)
      go no_pmd e = rw (check_page, e) (Called-refl s)
      go (entry p) e = rw (check_page, e) (check_entry-Called p s)

  page_check-Called :
      (pid addr pidd : ℕ) (ts : Task k) (s : State k)
      → ts.mm ≢ none
      → (t : State k) × (page_check k pid (some ts) addr pidd s ≡ ok t)
        × Called (is_counted pid (flags_of s) (ts, addr)) s t
  unfolding page_check
  page_check-Called pid addr pidd ts s has = elim (Bool-cases (ts.pid == pid)) [
    | inr other ↦ rw (other) (s, refl, Called-refl s)
    | inl ours ↦ elim (Option-cases ts.mm) [
      | inl e ↦ absurd (has e)
      | inr (mm, e) ↦ rw (ours, e) (check_page k mm addr s, refl, check_page-Called mm addr s)
    ]
  ]

  sleep-call :
      (pid : ℕ) (ts : Task k) (addr : ℕ) (fs : List Fault) (s t : State k)
      → s.hooked ≡ true
      → page_check k pid (some ts) addr 0 s ≡ ok t
      → sleep k pid (calls ((ts, addr) ∷ fs)) s ≡ sleep k pid (calls fs) t
  unfolding sleep happen
  sleep-call pid ts addr fs s t hooked run =
      ap (λ r. r >>= λ u. sleep k pid (calls fs) u) (happen-call hooked run)
    where
      happen-call :
          s.hooked ≡ true
          → page_check k pid (some ts) addr 0 s ≡ ok t
          → happen k pid (page_fault (some ts) addr 0) s ≡ ok t
      happen-call h r = ap (λ b. if b then page_check k pid (some ts) addr 0 s else ok s) h ∙ r

  sleep-calls :
      (pid : ℕ) (fs : List Fault) (s : State k)
      → s.hooked ≡ true
      → s.wss < 2 ^ 32
      → All HasMm fs
      → (t : State k) × (sleep k pid (calls fs) s ≡ ok t)
        × (t.wss ≡ add32 s.wss (count_if (is_counted pid (flags_of s)) fs))
  unfolding sleep
  sleep-calls pid [] s hooked word has = (s, refl, omega arith)
  sleep-calls pid ((ts, addr) ∷ fs) s hooked word has =
      let (t, run, called) = page_check-Called pid addr 0 ts s has.0 in
      let (u, rest, total) =
        sleep-calls pid fs t (called.hooked ∙ hooked) (ground (arith, called.wss)) has.1 in
      (
        u,
        sleep-call pid ts addr fs s t hooked run ∙ rest,
        total
            ∙ rw called.same (
                add-called s t.wss (is_counted pid (flags_of s) (ts, addr))
                  (count_if (is_counted pid (flags_of s)) fs) called.wss),
      )
    where
      add-called :
          (s : State k) (w : ℕ) (b : Bool) (n : ℕ)
          → w ≡ (if b then add32 s.wss 1 else s.wss)
          → add32 w n ≡ add32 s.wss ((if b then 1 else 0) + n)
      add-called s w b n e = ground arith

  -- While only page faults happen, and no kernel thread is among them, the hook does not fault, and
  -- the count grows, modulo 2 ^ 32, by the number of calls for the watched process at a page whose
  -- entry has a flag when the sleep begins: by every such call, also a second one at a page.
  pub sleep_counts :
      (pid : ℕ) (fs : List Fault) (s : State k)
      → s.hooked ≡ true
      → s.wss < 2 ^ 32
      → All HasMm fs
      → Ends
          (λ t. t.wss ≡ add32 s.wss (count_if (is_counted pid (flags_of s)) fs))
          (sleep k pid (calls fs) s)
  sleep_counts pid fs s hooked word has =
      let (t, run, total) = sleep-calls pid fs s hooked word has in rw run (ends total)

  -- A fault of the watched process at a hidden page whose entry has a flag makes the page present
  -- again, clears the mark, counts one, and leaves every other entry alone.
  pub page_check_reveals :
      (pid addr pidd : ℕ) (ts : Task k) (mm : Mm) (s : State k) (hid : Hidden k mm s addr)
      → ts.mm ≡ some mm
      → ts.pid ≡ pid
      → any_flag (s.ptes hid.pte) ≡ true
      → Ends
          (λ t.
            (has_flag (t.ptes hid.pte) present ≡ true)
            × (has_flag (t.ptes hid.pte) protnone ≡ false)
            × (t.wss ≡ add32 s.wss 1)
            × ((q : ℕ) → q ≢ hid.pte → t.ptes q ≡ s.ptes q))
          (page_check k pid (some ts) addr pidd s)
  unfolding page_check check_page check_entry
  page_check_reveals pid addr pidd ts mm s hid e same flag =
      let p : ℕ = hid.pte in
      let ours : (ts.pid == pid) ≡ true = rw same (==-self pid) in
      let seen = has-unprotect_self k s.ptes p in
      rw (page_check, ours, e, check_page, hid.found, check_entry, ==_of_ne p 0 hid.not_null, flag)
        (ends (seen.0, seen.1, refl, λ q ne. unprotect-other k s.ptes p q (λ x. ne (sym x))))
