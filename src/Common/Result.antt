-- ===== src/Common/Result.antt =====
-- `Result<A, E>` of Rust: `and_then` is the bind of do blocks and stands for `?`.
use mathlib.Core.Path.{◌≡◌, refl}
use mathlib.Core.Logic.{◌⊎◌, inl, inr}
use mathlib.Core.Option.{Option, none, some}
use native.Mathlib.Omega.{arith}

pub data Result {ℓ} (E A : Type ℓ) : Type ℓ where
  ok : (value : A) → Result E A
  err : (error : E) → Result E A

module _ {ℓ} {E : Type ℓ} where
  -- `r.and_then(k)`.
  abbrev pub and_then : {A B : Type ℓ} → Result E A → (A → Result E B) → Result E B
  and_then (err error) k = err error
  and_then (ok value) k = k value

  infixl 5 ◌>>=◌ ◌>>◌
  abbrev pub ◌>>=◌ : {A B : Type ℓ} → Result E A → (A → Result E B) → Result E B
  r >>= k = and_then r k

  abbrev pub ◌>>◌ : {A B : Type ℓ} → Result E A → Result E B → Result E B
  first >> second = and_then first (λ value. second)

  -- `o.ok_or(error)`.
  abbrev pub ok_or : {A : Type ℓ} → Option A → E → Result E A
  ok_or none error = err error
  ok_or (some value) error = ok value

  -- If a chain succeeds, its first part does, and the rest does on the value of it.
  pub >>=-eq-ok :
      {A B : Type ℓ} {b : B} (r : Result E A) (k : A → Result E B)
      → (r >>= k) ≡ ok b
      → (value : A) × (r ≡ ok value) × (k value ≡ ok b)
  >>=-eq-ok (err error) k chain = cc
  >>=-eq-ok (ok value) k chain = (value, refl, chain)

  pub ok_or-eq-ok :
      {A : Type ℓ} {a : A} (o : Option A) (error : E) → ok_or o error ≡ ok a → o ≡ some a
  ok_or-eq-ok o error h = ground arith

  pub ok-injective : {A : Type ℓ} {a b : A} → ◌≡◌ {A = Result E A} (ok a) (ok b) → a ≡ b
  ok-injective h = cc

-- `r.map_err(f)`.
abbrev pub map_err {ℓ} : {E F A : Type ℓ} → (E → F) → Result E A → Result F A
map_err f (ok value) = ok value
map_err f (err error) = err (f error)

pub map_err-eq-ok {ℓ} :
    {E F A : Type ℓ} {a : A} (f : E → F) (r : Result E A) → map_err f r ≡ ok a → r ≡ ok a
map_err-eq-ok f (ok value) h = cc
map_err-eq-ok f (err error) h = cc

pub Result-cases {ℓ} :
    {E A : Type ℓ} (r : Result E A)
    → ((value : A) × (r ≡ ok value)) ⊎ ((error : E) × (r ≡ err error))
Result-cases (ok value) = inl (value, refl)
Result-cases (err error) = inr (error, refl)
