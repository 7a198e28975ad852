-- ===== src/Kernel/Fifo.antt =====
-- linux/kfifo.h as the modules use it: a bounded queue of bytes, or of numbers,
-- which `kfifo_put` and `kfifo_get` put in and take out one by one. What does not fit is not put in.
use lkms.Prelude.{
  ℕ, ◌-◌, ◌≡◌, Bool, true, false, Option, none, some, List, [], ◌∷◌, ◌++◌, length, take, drop, refl,
}

abbrev pub first : List ℕ → Option ℕ
first [] = none
first (x ∷ xs) = some x

pub record Kfifo : Type 1 where
  pub Queue : Type 0
  pub contents : Queue → List ℕ
  pub size : ℕ
  -- The number of elements that were put in, and the queue.
  pub kfifo_in : Queue → List ℕ → ℕ × Queue
  -- The elements that were taken out, at most `n`, and the queue.
  pub kfifo_out : Queue → (n : ℕ) → List ℕ × Queue
  -- The element that comes out next, which stays.
  pub kfifo_peek : Queue → Option ℕ
  pub kfifo_is_empty : Queue → Bool
  pub contents-in :
      (q : Queue) (xs : List ℕ)
      → contents (kfifo_in q xs).1 ≡ contents q ++ take (size - length (contents q)) xs
  pub count-in :
      (q : Queue) (xs : List ℕ) → (kfifo_in q xs).0 ≡ length (take (size - length (contents q)) xs)
  pub bytes-out : (q : Queue) (n : ℕ) → (kfifo_out q n).0 ≡ take n (contents q)
  pub contents-out : (q : Queue) (n : ℕ) → contents (kfifo_out q n).1 ≡ drop n (contents q)
  pub peek-first : (q : Queue) → kfifo_peek q ≡ first (contents q)
  pub empty_of_nil : (q : Queue) → contents q ≡ [] → kfifo_is_empty q ≡ true
  pub not_empty_of_cons :
      (q : Queue) (x : ℕ) (xs : List ℕ) → contents q ≡ x ∷ xs → kfifo_is_empty q ≡ false

abbrev pub is_nil : List ℕ → Bool
is_nil [] = true
is_nil (x ∷ xs) = false

pub is_nil-cons : (q : List ℕ) (x : ℕ) (xs : List ℕ) → q ≡ x ∷ xs → is_nil q ≡ false
is_nil-cons q x xs e = rw e

pub is_nil-nil : (q : List ℕ) → q ≡ [] → is_nil q ≡ true
is_nil-nil q e = rw e

-- A queue that behaves so: a list, with a size.
abbrev pub list_fifo : ℕ → Kfifo
list_fifo n = record {
  Queue = List ℕ;
  contents = λ q. q;
  size = n;
  kfifo_in = λ q xs. (length (take (n - length q) xs), q ++ take (n - length q) xs);
  kfifo_out = λ q m. (take m q, drop m q);
  kfifo_peek = first;
  kfifo_is_empty = is_nil;
  contents-in = λ q xs. refl;
  count-in = λ q xs. refl;
  bytes-out = λ q m. refl;
  contents-out = λ q m. refl;
  peek-first = λ q. refl;
  empty_of_nil = is_nil-nil;
  not_empty_of_cons = is_nil-cons;
}
