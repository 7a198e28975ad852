-- ===== src/KmallocMap/Bytes.antt =====
-- ex7.c and new_st.c: bytes at an address, and the text that is read there.
use lkms.Prelude.{
  length-drop, ℕ, zero, suc, ◌+◌, ◌*◌, ◌≤◌, ◌<◌, ◌≡◌, ◌≢◌, refl, ◌∙◌, arith, ==-self, ==_of_ne,
  le→leb, true, List, [], ◌∷◌, ◌++◌, All, All-append, length, length-append, drop, page_size,
  if-elim, ltb,
}
use lkms.Kernel.Run.{ok}
use lkms.KmallocMap.{
  State, page_limit, is_inside, put, put_bytes, store, c_string, writing_on_page, decimal,
  page_text, sprintf,
}

-- The bytes from `a` on.
abbrev pub Spells : (ℕ → ℕ) → ℕ → List ℕ → Type 0
Spells m a [] = Unit {0}
Spells m a (v ∷ vs) = (m a ≡ v) × Spells m (a + 1) vs

put_bytes-below : (a : ℕ) (vs : List ℕ) (m : ℕ → ℕ) (x : ℕ) → x < a → put_bytes a vs m x ≡ m x
unfolding put_bytes
put_bytes-below a [] m x h = refl
put_bytes-below a (v ∷ vs) m x h =
    put_bytes-below (a + 1) vs (put m a v) x (omega arith) ∙ rw (==_of_ne a x (omega arith)) refl

put_bytes-above :
    (a : ℕ) (vs : List ℕ) (m : ℕ → ℕ) (x : ℕ) → a + length vs ≤ x → put_bytes a vs m x ≡ m x
unfolding put_bytes
put_bytes-above a [] m x h = refl
put_bytes-above a (v ∷ vs) m x h =
    put_bytes-above (a + 1) vs (put m a v) x (omega arith) ∙ rw (==_of_ne a x (omega arith)) refl

pub put_bytes-Spells : (a : ℕ) (vs : List ℕ) (m : ℕ → ℕ) → Spells (put_bytes a vs m) a vs
unfolding put_bytes
put_bytes-Spells a [] m = tt
put_bytes-Spells a (v ∷ vs) m = (
  put_bytes-below (a + 1) vs (put m a v) a (omega arith) ∙ rw (==-self a) refl,
  put_bytes-Spells (a + 1) vs (put m a v),
)

Spells-same :
    (m m' : ℕ → ℕ) (a : ℕ) (vs : List ℕ)
    → ((x : ℕ) → a ≤ x → x < a + length vs → m' x ≡ m x)
    → Spells m a vs
    → Spells m' a vs
Spells-same m m' a [] same sp = tt
Spells-same m m' a (v ∷ vs) same (e, sp) = (
  same a (omega arith) (omega arith) ∙ e,
  Spells-same m m' (a + 1) vs (λ x lo hi. same x (omega arith) (omega arith)) sp,
)

-- Bytes written further on leave those before them.
pub Spells-put_bytes :
    (m : ℕ → ℕ) (a : ℕ) (vs : List ℕ) (b : ℕ) (ws : List ℕ)
    → a + length vs ≤ b
    → Spells m a vs
    → Spells (put_bytes b ws m) a vs
Spells-put_bytes m a vs b ws h sp =
    Spells-same m (put_bytes b ws m) a vs (λ x lo hi. put_bytes-below b ws m x (omega arith)) sp

pub Spells-prefix : (m : ℕ → ℕ) (a : ℕ) (xs ys : List ℕ) → Spells m a (xs ++ ys) → Spells m a xs
Spells-prefix m a [] ys sp = tt
Spells-prefix m a (x ∷ xs) ys (e, sp) = (e, Spells-prefix m (a + 1) xs ys sp)

pub is_inside-true :
    (a n : ℕ) (s : State)
    → s.allocated ≡ true
    → s.kmalloc_ptr ≤ a
    → a + n ≤ s.kmalloc_ptr + (page_limit + 2) * page_size
    → is_inside a n s ≡ true
unfolding is_inside
is_inside-true a n s used lo hi =
    rw
      (
        is_inside,
        used,
        le→leb s.kmalloc_ptr a lo,
        le→leb (a + n) (s.kmalloc_ptr + (page_limit + 2) * page_size) hi,
      )
      refl

pub store-run :
    (a : ℕ) (vs : List ℕ) (s : State)
    → is_inside a (length vs) s ≡ true
    → store a vs s ≡ ok (record s { memory = put_bytes a vs s.memory })
unfolding store
store-run a vs s h = rw (store, h) refl

pub c_string-run :
    (fuel a : ℕ) (text : List ℕ) (s : State)
    → s.allocated ≡ true
    → s.kmalloc_ptr ≤ a
    → a + (length text + 1) ≤ s.kmalloc_ptr + (page_limit + 2) * page_size
    → length text < fuel
    → All (λ v. v ≢ 0) text
    → Spells s.memory a (text ++ (0 ∷ []))
    → c_string fuel a s ≡ ok text
unfolding c_string
c_string-run zero a text s used lo hi f nonzero sp = absurd (omega arith)
c_string-run (suc fuel) a [] s used lo hi f nonzero (e, sp) =
    rw (c_string, is_inside-true a 1 s used lo (omega arith), e) refl
c_string-run (suc fuel) a (v ∷ vs) s used lo hi f (n, nonzero) (e, sp) =
    rw
      (
        c_string,
        is_inside-true a 1 s used lo (omega arith),
        e,
        ==_of_ne v 0 n,
        c_string-run fuel (a + 1) vs s used (omega arith) (omega arith) (omega arith) nonzero sp,
      )
      refl

decimal_short : (n : ℕ) → length (decimal n) ≤ 2
unfolding decimal
decimal_short n = ground arith

decimal_nonzero : (n : ℕ) → All (λ v. v ≢ 0) (decimal n)
unfolding decimal
decimal_nonzero n = if-elim (All (λ v. v ≢ 0)) (ltb n 10) (λ _. omega arith) (λ _. omega arith)

writing_nonzero : All (λ v. v ≢ 0) writing_on_page
writing_nonzero = omega arith

pub page_text-short : (n : ℕ) → length (page_text n) ≤ 35
unfolding page_text
page_text-short n = omega (arith, length-append writing_on_page (decimal n), decimal_short n)

pub page_text-nonzero : (n : ℕ) → All (λ v. v ≢ 0) (page_text n)
unfolding page_text
page_text-nonzero n =
    All-append (λ v. v ≢ 0) writing_on_page (decimal n) writing_nonzero (decimal_nonzero n)

-- What `buffer[50]` holds after a sprintf of a page's text.
abbrev pub filled : ℕ → List ℕ → List ℕ
filled count buffer = page_text count ++ (0 ∷ drop (length (page_text count) + 1) buffer)

pub sprintf-run :
    (count : ℕ) (buffer : List ℕ)
    → length buffer ≡ 50
    → (sprintf (page_text count) buffer ≡ ok (filled count buffer))
      × (length (filled count buffer) ≡ 50)
unfolding sprintf
sprintf-run count buffer e = (
  rw
      (
        sprintf,
        le→leb (length (page_text count) + 1) (length buffer)
            (omega (arith, page_text-short count)),
      )
      refl,
  omega (
    arith,
    page_text-short count,
    length-append (page_text count) (0 ∷ drop (length (page_text count) + 1) buffer),
    length-drop (length (page_text count) + 1) buffer,
  ),
)
