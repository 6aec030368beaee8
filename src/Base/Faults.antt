-- ===== src/Base/Faults.antt =====
-- Code that may leave what C defines. Such a run has no result, and says what went wrong.
use mathlib.Core.Path.{◌≡◌, subst}

pub data Fault : Type 0 where
  bad_index : Fault  -- an array access outside the array
  uninitialised : Fault  -- a read of bytes that nothing has written
  null_pointer : Fault  -- an access through NULL
  dangling : Fault  -- an access to memory that is not in use, or has other contents

pub data Run {ℓ} (A : Type ℓ) : Type ℓ where
  ok : A → Run A
  fault : Fault → Run A

infixl 5 ◌>>=◌ ◌>>◌
abbrev pub ◌>>=◌ {ℓ κ} : {A : Type ℓ} {B : Type κ} → Run A → (A → Run B) → Run B
fault what >>= next = fault what
ok result >>= next = next result

abbrev pub ◌>>◌ {ℓ} : {B : Type ℓ} → Run (Unit {0}) → Run B → Run B
m >> k = m >>= λ _. k

-- The run ends, with a result of which `P` holds.
abbrev pub Returns {ℓ κ} : {A : Type ℓ} → Run A → (A → Type κ) → Type (ℓ ⊔ κ)
Returns {A} run Post = (result : A) × (run ≡ ok result) × Post result

-- `P` holds of the result, if the run does not fault.
abbrev pub Ensures {ℓ κ} : {A : Type ℓ} → (A → Type κ) → Run A → Type κ
Ensures P (ok a) = P a
Ensures P (fault _) = Unit

pub Ensures-bind {ℓ κ μ ν} :
    {A : Type ℓ} {B : Type κ} (P : A → Type μ) (Q : B → Type ν) (r : Run A) (f : A → Run B)
    → Ensures P r
    → ((a : A) → P a → Ensures Q (f a))
    → Ensures Q (r >>= f)
Ensures-bind P Q (ok a) f p step = step a p
Ensures-bind P Q (fault _) f p step = tt

pub Ensures-ok {ℓ κ} :
    {A : Type ℓ} (P : A → Type κ) (r : Run A) {a : A} → Ensures P r → r ≡ ok a → P a
Ensures-ok P (ok b) p e = subst P (cc) p
Ensures-ok P (fault _) p e = cc

pub Returns-eq {ℓ κ} :
    {A : Type ℓ} (P : A → Type κ) {r : Run A} {a : A} → Returns r P → r ≡ ok a → P a
Returns-eq P (b, ran, p) e = subst P (cc) p

-- Where nothing is known of the first part.
pub Ensures-any {ℓ κ ν} :
    {A : Type ℓ} {B : Type κ} (Q : B → Type ν) (r : Run A) (f : A → Run B)
    → ((a : A) → Ensures Q (f a))
    → Ensures Q (r >>= f)
Ensures-any Q (ok a) f step = step a
Ensures-any Q (fault _) f step = tt
