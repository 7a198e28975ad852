-- ===== src/Kernel/Records.antt =====
-- linux/kfifo.h with records, as ttt.c uses it: a queue of texts, each stored behind one byte with
-- its length. A record that does not fit is not put in.
use lkms.Prelude.{
  ℕ, ◌+◌, ◌≤◌, ◌<◌, ◌≡◌, refl, leb, lt→leb, le→leb, Bool, true, false, List, [], ◌∷◌, ◌++◌, length,
  take, if◌then◌else◌,
}

-- How many bytes the records take up.
abbrev pub used : List (List ℕ) → ℕ
used [] = 0
used (x ∷ xs) = length x + 1 + used xs

pub record RecordFifo : Type 1 where
  pub Queue : Type 0
  pub records : Queue → List (List ℕ)
  pub size : ℕ
  -- INIT_KFIFO
  pub empty : Queue
  -- The number of bytes that were put in, and the queue.
  pub kfifo_in : Queue → List ℕ → ℕ × Queue
  -- The first record, cut to `n` bytes, and the queue.
  pub kfifo_out : Queue → (n : ℕ) → List ℕ × Queue
  pub kfifo_is_empty : Queue → Bool
  pub records-empty : records empty ≡ []
  pub in_fits :
      (q : Queue) (xs : List ℕ)
      → used (records q) + length xs + 1 ≤ size
      → records (kfifo_in q xs).1 ≡ records q ++ xs ∷ []
  pub in_full :
      (q : Queue) (xs : List ℕ)
      → size < used (records q) + length xs + 1
      → records (kfifo_in q xs).1 ≡ records q
  pub out_first :
      (q : Queue) (n : ℕ) (x : List ℕ) (xs : List (List ℕ))
      → records q ≡ x ∷ xs
      → ((kfifo_out q n).0 ≡ take n x) × (records (kfifo_out q n).1 ≡ xs)
  pub empty_of_nil : (q : Queue) → records q ≡ [] → kfifo_is_empty q ≡ true
  pub not_empty_of_cons :
      (q : Queue) (x : List ℕ) (xs : List (List ℕ)) → records q ≡ x ∷ xs → kfifo_is_empty q ≡ false

abbrev pub put_record : ℕ → List (List ℕ) → List ℕ → ℕ × List (List ℕ)
put_record n q xs = if leb (used q + length xs + 1) n then (length xs, q ++ xs ∷ []) else (0, q)

abbrev pub take_record : List (List ℕ) → ℕ → List ℕ × List (List ℕ)
take_record [] n = ([], [])
take_record (x ∷ xs) n = (take n x, xs)

abbrev pub no_record : List (List ℕ) → Bool
no_record [] = true
no_record (x ∷ xs) = false

pub put_record_fits :
    (n : ℕ) (q : List (List ℕ)) (xs : List ℕ)
    → used q + length xs + 1 ≤ n
    → (put_record n q xs).1 ≡ q ++ xs ∷ []
put_record_fits n q xs h = rw (le→leb (used q + length xs + 1) n h) refl

pub put_record_full :
    (n : ℕ) (q : List (List ℕ)) (xs : List ℕ)
    → n < used q + length xs + 1
    → (put_record n q xs).1 ≡ q
put_record_full n q xs h = rw (lt→leb (used q + length xs + 1) n h) refl

pub take_record_first :
    (q : List (List ℕ)) (n : ℕ) (x : List ℕ) (xs : List (List ℕ))
    → q ≡ x ∷ xs
    → ((take_record q n).0 ≡ take n x) × ((take_record q n).1 ≡ xs)
take_record_first q n x xs e = rw e (refl, refl)

pub no_record-nil : (q : List (List ℕ)) → q ≡ [] → no_record q ≡ true
no_record-nil q e = rw e refl

pub no_record-cons :
    (q : List (List ℕ)) (x : List ℕ) (xs : List (List ℕ)) → q ≡ x ∷ xs → no_record q ≡ false
no_record-cons q x xs e = rw e refl

-- A queue that behaves so: a list of the records, with a size.
abbrev pub list_records : ℕ → RecordFifo
list_records n = record {
  Queue = List (List ℕ);
  records = λ q. q;
  size = n;
  empty = [];
  kfifo_in = put_record n;
  kfifo_out = take_record;
  kfifo_is_empty = no_record;
  records-empty = refl;
  in_fits = put_record_fits n;
  in_full = put_record_full n;
  out_first = take_record_first;
  empty_of_nil = no_record-nil;
  not_empty_of_cons = no_record-cons;
}
