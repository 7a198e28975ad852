-- ===== src/SharedFile/Text.antt =====
-- ex6_ver2.c: the text that `char_open` writes into a file's page.
use lkms.Prelude.{
  append_assoc, ℕ, zero, suc, ◌+◌, ◌-◌, ◌≤◌, ◌<◌, ◌≡◌, ◌≢◌, refl, ◌∙◌, sym, ap, arith, ==_of_ne,
  le→leb, List, [], ◌∷◌, ◌++◌, All, All-append, length, take, drop, replicate, length-append,
  length-replicate, page_size,
}
use lkms.Kernel.Run.{ok, ◌>>=◌}
use lkms.SharedFile.{memcpy, c_string, hello}

pub c_string-prefix : (xs ys : List ℕ) → All (λ b. b ≢ 0) xs → c_string (xs ++ (0 ∷ ys)) ≡ ok xs
unfolding c_string
c_string-prefix [] ys h = refl
c_string-prefix (x ∷ xs) ys (n, h) =
    rw (c_string, ==_of_ne x 0 n, c_string-prefix xs ys h, ◌>>=◌) refl

zero-not_lt : ¬ (0 < 0)
zero-not_lt = omega arith

c_string-padded :
    (xs : List ℕ) (n : ℕ) → 0 < n → All (λ b. b ≢ 0) xs → c_string (xs ++ replicate n 0) ≡ ok xs
c_string-padded xs zero p h = absurd (zero-not_lt p)
c_string-padded xs (suc n) p h = c_string-prefix xs (replicate n 0) h

drop-replicate : (k n : ℕ) (x : ℕ) → drop k (replicate n x) ≡ replicate (n - k) x
drop-replicate zero n x = ap (λ m. replicate m x) {x = n} {y = n - 0} (omega arith)
drop-replicate (suc k) zero x = ap (λ m. replicate m x) {x = 0} {y = 0 - suc k} (omega arith)
drop-replicate (suc k) (suc n) x =
    drop-replicate k n x ∙ ap (λ m. replicate m x) {x = n - k} {y = suc n - suc k} (omega arith)

drop-append : (xs ys : List ℕ) (k : ℕ) → drop (length xs + k) (xs ++ ys) ≡ drop k ys
drop-append [] ys k = ap (λ m. drop m ys) {x = 0 + k} {y = k} (omega arith)
drop-append (x ∷ xs) ys k =
    ap (λ m. drop m (x ∷ (xs ++ ys))) {x = suc (length xs) + k} {y = suc (length xs + k)}
      (omega arith)
    ∙ drop-append xs ys k

take-append : (xs ys : List ℕ) → take (length xs) (xs ++ ys) ≡ xs
take-append [] ys = refl
take-append (x ∷ xs) ys = ap (◌∷◌ x) (take-append xs ys)

pub memcpy-run :
    (i : ℕ) (xs page : List ℕ)
    → i + length xs ≤ length page
    → memcpy i xs page ≡ ok (take i page ++ (xs ++ drop (i + length xs) page))
unfolding memcpy
memcpy-run i xs page h = rw (memcpy, le→leb (i + length xs) (length page) h) refl

memcpy-start :
    (xs : List ℕ) (n : ℕ)
    → length xs ≤ n
    → memcpy 0 xs (replicate n 0) ≡ ok (xs ++ replicate (n - length xs) 0)
memcpy-start xs n h =
    memcpy-run 0 xs (replicate n 0) (omega (arith, h, length-replicate {A = ℕ} n 0))
    ∙ ap (λ r. ok (xs ++ r))
        (ap (λ m. drop m (replicate n 0)) {x = 0 + length xs} {y = length xs} (omega arith)
          ∙ drop-replicate (length xs) n 0)

pub memcpy-behind :
    (xs ys rest : List ℕ)
    → length ys ≤ length rest
    → memcpy (length xs) ys (xs ++ rest) ≡ ok (xs ++ (ys ++ drop (length ys) rest))
memcpy-behind xs ys rest h =
    memcpy-run (length xs) ys (xs ++ rest) (omega (arith, h, length-append xs rest))
    ∙ ap ok (
        ap (λ p. p ++ (ys ++ drop (length xs + length ys) (xs ++ rest))) (take-append xs rest)
        ∙ ap (λ r. xs ++ (ys ++ r)) (drop-append xs rest (length ys)))

hello_nonzero : All (λ b. b ≢ 0) hello
hello_nonzero = omega arith

-- The two copies of `char_open`, and how the page then reads.
pub record Greeted (name : List ℕ) : Type 0 where
  pub start : List ℕ
  pub bytes : List ℕ
  pub first : memcpy 0 hello (replicate page_size 0) ≡ ok start
  pub second : memcpy 32 name start ≡ ok bytes
  pub text : c_string bytes ≡ ok (hello ++ name)

pub greets : (name : List ℕ) → length name < 4064 → All (λ b. b ≢ 0) name → Greeted name
greets name small nonzero = record {
  start = hello ++ replicate (4096 - 32) 0;
  bytes = (hello ++ name) ++ replicate (4096 - 32 - length name) 0;
  first = memcpy-start hello 4096 (omega arith);
  second =
      memcpy-behind hello name (replicate (4096 - 32) 0)
        (omega (arith, small, length-replicate {A = ℕ} (4096 - 32) 0))
      ∙ ap ok (
          ap (λ r. hello ++ (name ++ r)) (drop-replicate (length name) (4096 - 32) 0)
          ∙ sym (append_assoc hello name (replicate (4096 - 32 - length name) 0)));
  text =
      c_string-padded (hello ++ name) (4096 - 32 - length name) (omega arith)
        (All-append (λ b. b ≢ 0) hello name hello_nonzero nonzero);
}
