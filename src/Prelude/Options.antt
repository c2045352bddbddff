-- ===== src/Prelude/Options.antt =====
-- `Option<T>` with its `?`, for the functions that return one.
use mathlib.Core.Path.{◌≡◌, refl}
use mathlib.Core.Bool.{Bool, false}
use mathlib.Core.Option.{Option, none, some}

infixl 5 ◌>>=◌
abbrev pub ◌>>=◌ {ℓ} : {A B : Type ℓ} → Option A → (A → Option B) → Option B
none >>= next = none
some value >>= next = next value

-- `Option::is_some_and`
abbrev pub is_some_and {ℓ} : {A : Type ℓ} → Option A → (A → Bool) → Bool
is_some_and none test = false
is_some_and (some value) test = test value

-- `Option::unwrap_or`
abbrev pub unwrap_or {ℓ} : {A : Type ℓ} → Option A → A → A
unwrap_or none default = default
unwrap_or (some value) default = value

pub >>=-eq-some {ℓ} :
    {A B : Type ℓ} (first : Option A) (next : A → Option B) {result : B}
    → first >>= next ≡ some result
    → (value : A) × (first ≡ some value) × (next value ≡ some result)
>>=-eq-some none next success = cc
>>=-eq-some (some value) next success = (value, refl, success)
