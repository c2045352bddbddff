-- ===== src/Prelude/Results.antt =====
-- `Result<T, E>` with its `?`, and `Option` as the same kind of chain.
use mathlib.Core.Path.{◌≡◌, refl}
use mathlib.Core.Logic.{◌⊎◌, inl, inr}
use mathlib.Core.Bool.{Bool, true, false}
use mathlib.Core.Option.{Option, none, some}

pub data Result {ℓ} (E A : Type ℓ) : Type ℓ where
  ok : A → Result E A
  err : E → Result E A

-- `e?` binds what stands after it.
infixl 5 ◌>>=◌ ◌>>◌
abbrev pub ◌>>=◌ {ℓ} : {E A B : Type ℓ} → Result E A → (A → Result E B) → Result E B
ok value >>= next = next value
err reason >>= next = err reason

abbrev pub ◌>>◌ {ℓ} : {E B : Type ℓ} → Result E (Unit {ℓ}) → Result E B → Result E B
first >> second = first >>= λ done. second

-- `if !test { return Err(e) }`
abbrev pub guard {ℓ} : {E : Type ℓ} → Bool → E → Result E (Unit {ℓ})
guard true reason = ok tt
guard false reason = err reason

-- `Result::map`, `Result::map_err`, `Option::ok_or`
abbrev pub map_ok {ℓ} : {E A B : Type ℓ} → (A → B) → Result E A → Result E B
map_ok f (ok a) = ok (f a)
map_ok f (err e) = err e

abbrev pub map_err {ℓ} : {E F A : Type ℓ} → (E → F) → Result E A → Result F A
map_err f (ok a) = ok a
map_err f (err e) = err (f e)

abbrev pub ok_or {ℓ} : {E A : Type ℓ} → E → Option A → Result E A
ok_or e none = err e
ok_or e (some a) = ok a

abbrev pub is_some {ℓ} : {A : Type ℓ} → Option A → Bool
is_some none = false
is_some (some _) = true

pub Result-cases {ℓ} :
    {E A : Type ℓ} (r : Result E A) → ((a : A) × (r ≡ ok a)) ⊎ ((e : E) × (r ≡ err e))
Result-cases (ok a) = inl (a, refl)
Result-cases (err e) = inr (e, refl)

pub Option-cases {ℓ} : {A : Type ℓ} (o : Option A) → (o ≡ none) ⊎ ((a : A) × (o ≡ some a))
Option-cases none = inl refl
Option-cases (some a) = inr (a, refl)

-- What a successful chain has gone through.
pub >>=-eq-ok {ℓ} :
    {E A B : Type ℓ} (first : Result E A) (next : A → Result E B) {result : B}
    → first >>= next ≡ ok result
    → (value : A) × (first ≡ ok value) × (next value ≡ ok result)
>>=-eq-ok (ok value) next success = (value, refl, success)
>>=-eq-ok (err reason) next success = cc

-- Where a failed chain has failed: in its first step, or behind it.
pub >>=-eq-err {ℓ} :
    {E A B : Type ℓ} (m : Result E A) (f : A → Result E B) {e : E}
    → (m >>= f) ≡ err e
    → (m ≡ err e) ⊎ ((a : A) × (m ≡ ok a) × (f a ≡ err e))
>>=-eq-err (ok a) f h = inr (a, refl, h)
>>=-eq-err (err e') f h = inl (cc)

pub map_err-eq-err {ℓ} :
    {E F A : Type ℓ} (f : E → F) (r : Result E A) {e : F}
    → map_err f r ≡ err e
    → (e' : E) × (r ≡ err e') × (e ≡ f e')
map_err-eq-err f (ok a) h = cc
map_err-eq-err f (err e') h = (e', refl, cc)
