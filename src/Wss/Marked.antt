-- ===== src/Wss/Marked.antt =====
-- workingwss.c, what `wss_marking` promises: which entries it hides, what it records, and what it leaves.
use mathlib.Core.List.{append-nil, append_assoc}
use lkms.Prelude.{
  Memᴰ, ℕ, ◌+◌, ◌≤◌, ◌≡◌, ◌≢◌, refl, ◌∙◌, false, List, [], ◌∷◌, ◌++◌, All-append, mem-append_left,
  mem-append_right, arith, length, length-append, ℤ, pos, neg, All,
}
use lkms.Kernel.Paging.{Paging, present, entry, descend}
use lkms.Wss.{State}
use lkms.Wss.Append.{Chain}

module _ (k : Paging) where
  open k use {Mm, Pte, has_flag, pte_present, present_iff}

  -- The page has an entry, and that entry is not present.
  pub record Hidden (mm : Mm) (s : State k) (addr : ℕ) : Type 0 where
    pub pte : ℕ
    pub found : descend k mm addr ≡ entry pte
    pub not_null : pte ≢ 0
    pub hidden : has_flag (s.ptes pte) present ≡ false

  -- The walk for the page ends without an entry.
  abbrev pub IsUnmapped : Mm → ℕ → Type 0
  IsUnmapped mm addr = (p : ℕ) → descend k mm addr ≡ entry p → p ≡ 0

  -- The list had the entries `vs`, and has gained at most `n`; no entry has become present; the
  -- count and the hook are as they were.
  pub record Marked (vs : List Pte) (n : ℕ) (s t : State k) : Type 0 where
    pub recorded : List Pte
    pub chain : Chain k t.heap t.head (vs ++ recorded)
    pub few : length recorded ≤ n
    pub hides : (q : ℕ) → has_flag (s.ptes q) present ≡ false → has_flag (t.ptes q) present ≡ false
    pub wss : t.wss ≡ s.wss
    pub hooked : t.hooked ≡ s.hooked

  -- How marking the pages of `addrs` may end: all of them are hidden, or one has no entry.
  pub data Outcome (mm : Mm) (addrs : List ℕ) (t : State k) : ℤ → Type 0 where
    complete : All (Hidden mm t) addrs → Outcome mm addrs t (pos 0)
    stopped : (a : ℕ) → Memᴰ a addrs → IsUnmapped mm a → Outcome mm addrs t (neg 2)

  abbrev pub MarkedAll : Mm → List ℕ → List Pte → State k → ℤ × State k → Type 0
  MarkedAll mm addrs vs s (r, t) = Outcome mm addrs t r × Marked vs (length addrs) s t

  pub Marked-trans :
      {vs : List Pte} {n l : ℕ} {s t u : State k} (a : Marked vs n s t)
      → Marked (vs ++ a.recorded) l t u
      → Marked vs (n + l) s u
  Marked-trans {vs} a b = record {
    recorded = a.recorded ++ b.recorded;
    chain = rw append_assoc at b.chain;
    few = omega (arith, length-append a.recorded b.recorded);
    hides = λ q h. b.hides q (a.hides q h);
    wss = b.wss ∙ a.wss;
    hooked = b.hooked ∙ a.hooked;
  }

  pub Hidden-Marked :
      (mm : Mm) {vs : List Pte} {n : ℕ} {s t : State k}
      → Marked vs n s t
      → (addrs : List ℕ) → All (Hidden mm s) addrs
      → All (Hidden mm t) addrs
  Hidden-Marked mm m [] h = tt
  Hidden-Marked mm m (a ∷ l) h = (
    record {
      pte = h.0.pte;
      found = h.0.found;
      not_null = h.0.not_null;
      hidden = m.hides h.0.pte h.0.hidden;
    },
    Hidden-Marked mm m l h.1,
  )

  pub Marked-refl :
      (vs : List Pte) (n : ℕ) (s : State k) → Chain k s.heap s.head vs → Marked vs n s s
  Marked-refl vs n s c = record {
    recorded = [];
    chain = rw append-nil c;
    few = omega arith;
    hides = λ q h. h;
    wss = refl;
    hooked = refl;
  }

  pub Marked-weaken :
      {vs : List Pte} {n l : ℕ} {s t : State k} → n ≤ l → Marked vs n s t → Marked vs l s t
  Marked-weaken le a = record {
    recorded = a.recorded;
    chain = a.chain;
    few = omega arith;
    hides = a.hides;
    wss = a.wss;
    hooked = a.hooked;
  }

  Outcome-append :
      (mm : Mm) (xs ys : List ℕ) {t : State k} {r : ℤ}
      → All (Hidden mm t) xs
      → Outcome mm ys t r
      → Outcome mm (xs ++ ys) t r
  Outcome-append mm xs ys h (complete g) = complete (All-append (Hidden mm _) xs ys h g)
  Outcome-append mm xs ys h (stopped a i u) = stopped a (mem-append_right xs ys i) u

  -- Two stretches of pages, one after the other.
  pub MarkedAll-append :
      (mm : Mm) (xs ys : List ℕ) {vs : List Pte} {s t : State k} (x : ℤ × State k)
      (mk : Marked vs (length xs) s t)
      → All (Hidden mm t) xs
      → MarkedAll mm ys (vs ++ mk.recorded) t x
      → MarkedAll mm (xs ++ ys) vs s x
  MarkedAll-append mm xs ys x mk h (o, mk') = (
    Outcome-append mm xs ys (Hidden-Marked mm mk' xs h) o,
    Marked-weaken (omega (arith, length-append xs ys)) (Marked-trans mk mk'),
  )

  -- The walk stopped in the first stretch.
  pub MarkedAll-stop :
      (mm : Mm) (xs ys : List ℕ) {vs : List Pte} {s t : State k} (a : ℕ)
      → Memᴰ a xs
      → IsUnmapped mm a
      → Marked vs (length xs) s t
      → MarkedAll mm (xs ++ ys) vs s (neg 2, t)
  MarkedAll-stop mm xs ys a i u mk =
      (stopped a (mem-append_left xs ys i) u, Marked-weaken (omega (arith, length-append xs ys)) mk)
