-- ===== src/Kernel/Run.antt =====
-- What a piece of kernel code can come to: a value, a fault (a null or dangling pointer, an access
-- outside an array), a wait that nothing ends, or the end of the fuel that the model gives its
-- loops.

use lkms.Prelude.{◌≡◌, refl}

pub data Run {ℓ} (A : Type ℓ) : Type ℓ where
  ok : A → Run A
  fault : Run A
  blocked : Run A
  out_of_fuel : Run A

infixl 5 ◌>>=◌ ◌>>◌
abbrev pub ◌>>=◌ {ℓ κ} : {A : Type ℓ} {B : Type κ} → Run A → (A → Run B) → Run B
ok a >>= f = f a
fault >>= f = fault
blocked >>= f = blocked
out_of_fuel >>= f = out_of_fuel

abbrev pub ◌>>◌ {ℓ κ} : {A : Type ℓ} {B : Type κ} → Run A → Run B → Run B
m >> n = m >>= λ _. n

-- A sequence that comes to a value: its first part came to one, and the rest goes on from there.
pub >>=-ok :
    {A B : Type 0} {b : B} (r : Run A) (next : A → Run B)
    → r >>= next ≡ ok b
    → (a : A) × (next a ≡ ok b) × (r ≡ ok a)
>>=-ok fault next ran = cc
>>=-ok blocked next ran = cc
>>=-ok out_of_fuel next ran = cc
>>=-ok (ok a) next ran = (a, ran, refl)

-- The code ends with a value, without a fault and within its fuel, and the value satisfies `P`.
pub data Ends {A : Type 0} (P : A → Type 0) : Run A → Type 0 where
  ends : {a : A} → P a → Ends P (ok a)

module _ {A : Type 0} {P : A → Type 0} where
  pub Ends->>= :
      {B : Type 0} {Q : B → Type 0} {r : Run A} {f : A → Run B}
      → Ends P r
      → ((a : A) → P a → Ends Q (f a))
      → Ends Q (r >>= f)
  Ends->>= (ends p) next = next _ p

  pub Ends-weaken : {Q : A → Type 0} {r : Run A} → Ends P r → ((a : A) → P a → Q a) → Ends Q r
  Ends-weaken (ends p) weaker = ends (weaker _ p)

  pub Ends-value : {r : Run A} → Ends P r → (a : A) × (r ≡ ok a) × P a
  Ends-value (ends p) = (_, refl, p)

-- The code comes to an end within its fuel: in a fault, or with a value that satisfies `P`.
pub data FaultsOr {A : Type 0} (P : A → Type 0) : Run A → Type 0 where
  faults : FaultsOr P fault
  returns : {a : A} → P a → FaultsOr P (ok a)

module _ {A : Type 0} {P : A → Type 0} where
  pub FaultsOr->>= :
      {B : Type 0} {Q : B → Type 0} {r : Run A} {f : A → Run B}
      → FaultsOr P r
      → ((a : A) → P a → FaultsOr Q (f a))
      → FaultsOr Q (r >>= f)
  FaultsOr->>= faults next = faults
  FaultsOr->>= (returns p) next = next _ p
