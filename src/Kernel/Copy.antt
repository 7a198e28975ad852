-- ===== src/Kernel/Copy.antt =====
-- Bytes that are copied one by one into an array of char, and the length of the string in it.
use mathlib.Core.List.{append_assoc, append-nil}
use lkms.Prelude.{
  ℕ, zero, suc, ◌+◌, ◌-◌, ◌≤◌, ◌<◌, ◌≡◌, ◌≢◌, refl, sym, ◌∙◌, ap, ◌==◌, ltb, List, [], ◌∷◌, ◌++◌,
  true, false, arith, length, set, take, drop, replicate, length-set, length-replicate,
  length-append, All, if◌then◌else◌, Bool-cases, inl, inr, ==_of_ne,
}
use lkms.Kernel.Run.{Run, ok, fault, ◌>>=◌}

-- `data[i] = buffer[i]` for each byte; an index past the end of `data` is a fault.
unfoldable pub copy_in : ℕ → List ℕ → (data50 : List ℕ) → Run (List ℕ)
copy_in i [] d = ok d
copy_in i (b ∷ bs) d = elim (ltb i (length d)) [
  | true ↦ copy_in (i + 1) bs (set d i b)
  | false ↦ fault
]

-- strlen in an array: no NUL in it means a read past its end.
unfoldable pub strlen : List ℕ → Run ℕ
strlen [] = fault
strlen (b ∷ bs) = if b == 0 then ok 0 else (strlen bs >>= λ n. ok (suc n))

-- The bytes before the first NUL.
abbrev pub c_string : List ℕ → List ℕ
c_string [] = []
c_string (b ∷ bs) = if b == 0 then [] else b ∷ c_string bs

set-append : (xs ys : List ℕ) (y b : ℕ) → set (xs ++ y ∷ ys) (length xs) b ≡ xs ++ b ∷ ys
set-append [] ys y b = refl
set-append (x ∷ xs) ys y b = ap (λ r. x ∷ r) (set-append xs ys y b)

copy_in-step :
    (i b : ℕ) (bs d : List ℕ) → i < length d → copy_in i (b ∷ bs) d ≡ copy_in (i + 1) bs (set d i b)
unfolding copy_in
copy_in-step i b bs d h = ground arith

copy_in-nil : (i : ℕ) (d : List ℕ) → copy_in i [] d ≡ ok d
unfolding copy_in
copy_in-nil i d = refl

-- Behind the bytes that are there, the copy replaces as many bytes as it brings.
copy_in-append :
    (i : ℕ) (before bs after : List ℕ)
    → i ≡ length before
    → length bs ≤ length after
    → copy_in i bs (before ++ after) ≡ ok (before ++ bs ++ drop (length bs) after)
copy_in-append i before [] after e h =
    copy_in-nil i (before ++ after) ∙ ap (λ r. ok (r ++ after)) (sym (append-nil before))
copy_in-append i before (b ∷ bs) [] e h = absurd (omega arith)
copy_in-append i before (b ∷ bs) (y ∷ after) e h =
    copy_in-step i b bs (before ++ y ∷ after) (omega (arith, length-append before (y ∷ after)))
    ∙ rw (e, set-append before after y b, ← append_assoc before (b ∷ []) after)
        (copy_in-append (length before + 1) (before ++ b ∷ []) bs after
            (omega (arith, length-append before (b ∷ []))) (omega arith)
          ∙ ap (λ r. ok (r ++ drop (length bs) after)) (append_assoc before (b ∷ []) bs))

-- Too many bytes run off the end.
copy_in-overflow :
    (bs d : List ℕ) (i : ℕ) → length d < i + length bs → i ≤ length d → copy_in i bs d ≡ fault
unfolding copy_in
copy_in-overflow [] d i h l = absurd (omega arith)
copy_in-overflow (b ∷ bs) d i h l = elim (Bool-cases (ltb i (length d))) [
  | inr out ↦ rw (copy_in, out)
  | inl inside ↦
      rw (copy_in, inside)
        (copy_in-overflow bs (set d i b) (i + 1) (omega (arith, length-set d i b))
          (ground (arith, length-set d i b)))
]

drop-replicate : (n m x : ℕ) → drop n (replicate m x) ≡ replicate (m - n) x
drop-replicate zero m x = ap (λ k. replicate k x) {x = m} {y = m - 0} (omega arith)
drop-replicate (suc n) zero x = ap (λ k. replicate k x) {x = 0} {y = 0 - suc n} (omega arith)
drop-replicate (suc n) (suc m) x =
    drop-replicate n m x ∙ ap (λ k. replicate k x) {x = m - n} {y = suc m - suc n} (omega arith)

strlen-c_string : (bs rest : List ℕ) → strlen (bs ++ 0 ∷ rest) ≡ ok (length (c_string bs))
unfolding strlen
strlen-c_string [] rest = refl
strlen-c_string (b ∷ bs) rest = ground (arith, strlen-c_string bs rest)

pub take-c_string : (bs rest : List ℕ) → take (length (c_string bs)) (bs ++ rest) ≡ c_string bs
take-c_string [] rest = refl
take-c_string (b ∷ bs) rest = ground (arith, take-c_string bs rest)

pub strlen-no_nul : (bs : List ℕ) → All (λ b. b ≢ 0) bs → strlen bs ≡ fault
unfolding strlen
strlen-no_nul [] h = refl
strlen-no_nul (b ∷ bs) h = rw (==_of_ne b 0 h.0, strlen-no_nul bs h.1)

-- What an array of `n` bytes, all 0 at first, holds after the copy: the bytes, and zeros behind them.
abbrev pub copied : ℕ → List ℕ → List ℕ
copied n buf = buf ++ replicate (n - length buf) 0

pub copy_in-copied :
    (n : ℕ) (buf : List ℕ) → length buf ≤ n → copy_in 0 buf (replicate n 0) ≡ ok (copied n buf)
copy_in-copied n buf h =
    copy_in-append 0 [] buf (replicate n 0) refl (omega (arith, length-replicate {A = ℕ} n 0))
    ∙ ap (λ r. ok (buf ++ r)) (drop-replicate (length buf) n 0)

pub strlen-copied :
    (n : ℕ) (buf : List ℕ) → length buf < n → strlen (copied n buf) ≡ ok (length (c_string buf))
strlen-copied n buf h =
    let e : n - length buf ≡ suc (n - length buf - 1) = omega arith in
    rw e (strlen-c_string buf (replicate (n - length buf - 1) 0))

pub copy_in-too_long :
    (n : ℕ) (buf : List ℕ) → n < length buf → copy_in 0 buf (replicate n 0) ≡ fault
copy_in-too_long n buf h =
    copy_in-overflow buf (replicate n 0) 0 (omega (arith, length-replicate {A = ℕ} n 0))
      (omega arith)

-- As many bytes as the array has leave no room for a NUL behind them.
pub copied-full : (n : ℕ) (buf : List ℕ) → length buf ≡ n → copied n buf ≡ buf
copied-full n buf h =
    let none_left : n - length buf ≡ 0 = omega arith in rw none_left (append-nil buf)
