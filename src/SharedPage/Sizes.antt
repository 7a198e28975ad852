-- ===== src/SharedPage/Sizes.antt =====
-- ex7_ver2.c: what writes to `size` allocate, while no file has been closed.
use lkms.Prelude.{
  ℕ, ◌≡◌, ◌≢◌, refl, ◌∙◌, sym, ap, arith, ◌==◌, ==-self, ==_of_ne, if◌then◌else◌, Bool-cases, inl,
  inr, true, ◌⊎◌, Option, none, some, List, [], ◌∷◌, ℤ, pos, negsuc, All,
}
use lkms.Kernel.Run.{Run, ok, Ends, ends, Ends->>=, Ends-weaken, ◌>>=◌}
use lkms.SharedPage.{State, Page, update, data_of, free_page}
use lkms.SharedPage.Paged.{lt_int, hello, kfree, release_old, size_store}

-- A page that only the module holds, with the text.
abbrev pub fresh_page : Page
fresh_page = record { text = hello; refs = 1 }

-- What is in use: nothing as long as `size` is 0, and else one object and one page with the text.
pub data InUse (s : State) : Type 0 where
  nothing : s.size ≡ pos 0 → ((p : ℕ) → s.infos p ≡ none) → ((a : ℕ) → s.pages a ≡ none) → InUse s
  one :
      lt_int (pos 0) s.size ≡ true
      → (page : ℕ) → s.mp_info ≢ 0
      → page ≢ 0
      → s.infos s.mp_info ≡ some page
      → s.pages page ≡ some fresh_page
      → ((p : ℕ) → p ≢ s.mp_info → s.infos p ≡ none)
      → ((a : ℕ) → a ≢ page → s.pages a ≡ none)
      → InUse s

pub data_of-run : (p a : ℕ) (s : State) → p ≢ 0 → s.infos p ≡ some a → data_of p s ≡ ok a
unfolding data_of
data_of-run p a s n e = rw (data_of, e, ==_of_ne p 0 n) refl

pub free_page-last :
    (a : ℕ) (s : State)
    → a ≢ 0
    → s.pages a ≡ some fresh_page
    → free_page a s ≡ ok (record s { pages = update s.pages a none })
unfolding free_page
free_page-last a s n e = rw (free_page, ==_of_ne a 0 n, e) refl

abbrev IsEmpty : State → State → Type 0
IsEmpty s t =
    ((p : ℕ) → t.infos p ≡ none)
    × ((a : ℕ) → t.pages a ≡ none)
    × (t.count ≡ s.count)
    × (t.flag ≡ s.flag)

update-none :
    {A : Type 0} (m : ℕ → Option A) (p : ℕ)
    → ((q : ℕ) → q ≢ p → m q ≡ none)
    → (q : ℕ) → update m p none q ≡ none
update-none m p others q = elim (Bool-cases (p == q)) [
  | inl here ↦ rw here refl
  | inr other ↦ rw other (others q (λ e. ground arith))
]

release_old-IsEmpty : (s : State) → InUse s → Ends (IsEmpty s) (release_old s)
unfolding release_old kfree
release_old-IsEmpty s (nothing e infos pages) =
    rw (release_old, e) (ends (infos, pages, refl, refl))
release_old-IsEmpty s (one positive page n n2 info held infos pages) =
    rw
      (
        release_old,
        positive,
        data_of-run s.mp_info page s n info,
        ◌>>=◌,
        free_page-last page s n2 held,
        ◌>>=◌,
        kfree,
      )
      (ends (update-none s.infos s.mp_info infos, update-none s.pages page pages, refl, refl))

-- The larger of two sizes.
abbrev pub max_int : ℤ → ℤ → ℤ
max_int a b = if lt_int a b then b else a

-- A size that is larger than 0 or a positive one is positive.
lt_int-trans_zero :
    (a b : ℤ)
    → (a ≡ pos 0) ⊎ (lt_int (pos 0) a ≡ true)
    → lt_int a b ≡ true
    → lt_int (pos 0) b ≡ true
lt_int-trans_zero a b (inl e) h = rw e at h
lt_int-trans_zero (pos a) (pos b) (inr p) h = ground arith
lt_int-trans_zero (pos a) (negsuc b) (inr p) h = cc
lt_int-trans_zero (negsuc a) b (inr p) h = cc

size_bound : (s : State) → InUse s → (s.size ≡ pos 0) ⊎ (lt_int (pos 0) s.size ≡ true)
size_bound s (nothing e infos pages) = inl e
size_bound s (one positive page n n2 info held infos pages) = inr positive

-- What a write to `size` leaves.
pub record Stored (tmp : ℤ) (s t : State) : Type 0 where
  pub in_use : InUse t
  pub size : t.size ≡ max_int s.size tmp
  pub count : t.count ≡ s.count
  pub flag : t.flag ≡ s.flag

pub size_store-Stored :
    (tmp : ℤ) (got got_page : ℕ) (s : State)
    → s.count ≡ 0
    → got ≢ 0
    → got_page ≢ 0
    → InUse s
    → Ends (Stored tmp s) (size_store tmp got got_page s)
unfolding size_store
size_store-Stored tmp got got_page s free n n2 in_use = elim (Bool-cases (lt_int s.size tmp)) [
  | inl larger ↦
      let unmapped : (s.count == 0) ≡ true = ground arith in
      rw (size_store, larger, unmapped)
        (Ends->>= (release_old-IsEmpty s in_use) (λ t (infos, pages, count, flag).
          rw (==_of_ne got 0 n, ==_of_ne got_page 0 n2)
            (ends (record {
              in_use =
                  one (lt_int-trans_zero s.size tmp (size_bound s in_use) larger) got_page n n2
                    (rw (==-self got) refl) (rw (==-self got_page) refl)
                    (λ p ne. rw (==_of_ne got p (λ e. ne (sym e))) (infos p))
                    (λ a ne. rw (==_of_ne got_page a (λ e. ne (sym e))) (pages a));
              size = rw larger refl;
              count = count;
              flag = flag;
            }))))
  | inr small ↦
      rw (size_store, small)
        (ends (record { in_use = in_use; size = rw small refl; count = refl; flag = refl }))
]

-- A write to `size`, with what kmalloc and get_zeroed_page return if they are called.
pub record Write : Type 0 where
  pub tmp : ℤ
  pub got : ℕ
  pub got_page : ℕ

abbrev pub run_writes : List Write → State → Run State
run_writes [] s = ok s
run_writes (w ∷ ws) s = size_store w.tmp w.got w.got_page s >>= λ t. run_writes ws t

abbrev pub largest : ℤ → List Write → ℤ
largest a [] = a
largest a (w ∷ ws) = largest (max_int a w.tmp) ws

-- From a state in which the memory in use is in order (`size` is 0 and nothing is in use, or `size` is
-- above 0 and what is in use is the module's one object and its one page, which reads as the greeting
-- and which no closed file has given back), while no mapping is counted and memory is given out, any
-- sequence of writes to `size` runs without a fault; `size` is then the largest number written, or
-- what it was; the memory is in order again; and `flag` is as it was.
pub run_writes-Stored :
    (ws : List Write) (s : State)
    → s.count ≡ 0
    → All (λ w. (w.got ≢ 0) × (w.got_page ≢ 0)) ws
    → InUse s
    → Ends (λ t. InUse t × (t.size ≡ largest s.size ws) × (t.flag ≡ s.flag)) (run_writes ws s)
run_writes-Stored [] s free given in_use = ends (in_use, refl, refl)
run_writes-Stored (w ∷ ws) s free ((n, n2), given) in_use =
    Ends->>= (size_store-Stored w.tmp w.got w.got_page s free n n2 in_use) (λ t st.
      Ends-weaken (run_writes-Stored ws t (st.count ∙ free) given st.in_use)
        (λ u (held', size, flag). (held', size ∙ ap (λ a. largest a ws) st.size, flag ∙ st.flag)))
