-- ===== src/RecordDevice/Stats.antt =====
-- ttt.c: reading the file in /proc to its end.
use lkms.Prelude.{
  ℕ, zero, suc, ◌+◌, ◌-◌, ◌/◌, ◌%◌, ◌^◌, ◌<◌, ◌≤◌, ◌≡◌, ◌≢◌, refl, sym, ap, arith, ◌==◌, ltb,
  if◌then◌else◌, if-elim, Bool-cases, inl, inr, List, [], ◌∷◌, ◌++◌, All, length, length-append,
  take, ne_of_==,
}
use lkms.Kernel.Run.{Run, ok, out_of_fuel, ◌>>=◌, Ends, ends, Ends->>=}
use lkms.Kernel.Records.{RecordFifo}
use lkms.Kernel.Semaphore.{Semaphores}
use lkms.RecordDevice.{State, decimal, signed, message, writes_label, reads_label, read_proc}

length-decimal : (digits n : ℕ) → 1 ≤ length (decimal (suc digits) n)
unfolding decimal
length-decimal digits n = elim (Bool-cases (ltb n 10)) [
  | inl small ↦ rw small (omega arith)
  | inr large ↦
      rw large (omega (arith, length-append (decimal digits (n / 10)) ((48 + n % 10) ∷ [])))
]

length-signed : (n : ℕ) → 1 ≤ length (signed n)
unfolding signed
length-signed n = elim (Bool-cases (ltb n (2 ^ 31))) [
  | inl small ↦ rw small (length-decimal 9 n)
  | inr large ↦ rw large (omega (arith, length-decimal 9 (2 ^ 32 - n)))
]

parts_length :
    (a b c d e : List ℕ)
    → length (a ++ b ++ c ++ d ++ e) ≡ length a + length b + length c + length d + length e
parts_length a b c d e = omega (
  arith,
  length-append (a ++ b ++ c ++ d) e,
  length-append (a ++ b ++ c) d,
  length-append (a ++ b) c,
  length-append a b,
)

-- The text never gets shorter than it is at first.
pub length-message : (reads writes : ℕ) → 19 ≤ length (message reads writes)
unfolding message
length-message reads writes = omega (
  arith,
  parts_length writes_label (signed reads) reads_label (signed writes) (b'\n' ∷ []),
  length-signed reads,
  length-signed writes,
)

length-take : (n : ℕ) (xs : List ℕ) → n ≤ length xs → length (take n xs) ≡ n
length-take zero xs h = refl
length-take (suc n) [] h = absurd (omega arith)
length-take (suc n) (x ∷ xs) h = ap suc (length-take n xs (omega arith))

abbrev pub total : List (List ℕ) → ℕ
total [] = 0
total (c ∷ cs) = length c + total cs

module _ (f : RecordFifo) (σ : Semaphores) where
  -- A user who reads `count` bytes at a time until a read returns 0: the pieces.
  abbrev pub read_all : (fuel count : ℕ) → State f σ → Run (List (List ℕ) × State f σ)
  read_all zero count s = out_of_fuel
  read_all (suc fuel) count s =
      let (n, bytes, t) = read_proc f σ count s in
      let rest = read_all fuel count t >>= λ (cs, u). ok (bytes ∷ cs, u) in
      if n == 0 then ok ([], t) else rest

  -- Each piece is the text's start, the pieces have the length that was left, and the next user
  -- starts afresh.
  abbrev pub AllRead : State f σ → List (List ℕ) × State f σ → Type 0
  AllRead s (cs, t) =
      All (λ c. c ≡ take (length c) (message s.reads s.writes)) cs
      × (total cs ≡ s.temp)
      × (t.temp ≡ s.len)
      × (t.reads ≡ s.reads)
      × (t.writes ≡ s.writes)

  -- Reading the file `count` bytes at a time, `count` above 0, comes to a read that returns 0, within
  -- any number of reads above `temp`: the pieces have `temp` bytes together, `temp` is then `len` again, the
  -- counters stay, and each piece is the beginning of the text and not what follows the piece
  -- before. At first `temp` is at most 19.
  pub read_all-AllRead :
      (fuel count : ℕ) (s : State f σ)
      → 0 < count
      → s.temp < fuel
      → s.temp ≤ 19
      → Ends (AllRead s) (read_all fuel count s)
  unfolding read_proc
  read_all-AllRead zero count s some_bytes fuelled low = absurd (omega arith)
  read_all-AllRead (suc fuel) count s some_bytes fuelled low =
      let n : ℕ = if ltb s.temp count then s.temp else count in
      let text = message s.reads s.writes in
      let bound : n ≤ s.temp = ground arith in
      let long = length-message s.reads s.writes in
      if-elim (Ends (AllRead s)) (n == 0)
        (λ done.
          let over : s.temp ≡ 0 = ground arith in rw done (ends (tt, sym over, refl, refl, refl)))
        (λ more.
          let t = (read_proc f σ count s).2 in
          let some_left : n ≢ 0 = ne_of_== n 0 more in
          let left : t.temp ≡ s.temp - n = rw more refl in
          Ends->>= (read_all-AllRead fuel count t some_bytes (omega arith) (omega arith))
            (λ (cs, u) (starts, sum, len, r, w). ends (
              (ap (λ k. take k text) (sym (length-take n text (omega arith))), starts),
              omega (arith, length-take n text (omega arith)),
              len,
              r,
              w,
            )))
