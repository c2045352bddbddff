-- ===== src/Prelude/Bytes.antt =====
-- Machine words, and their big-endian bytes.
use Prim.Native.Nat.{ℕ, zero, suc, ◌+◌, ◌*◌, ◌/◌, ◌%◌, ◌^◌, ◌<◌}
use mathlib.Core.Path.{◌≡◌, ap₂, ◌∙◌}
use mathlib.Core.Bool.{Bool, true, false, ◌&&◌}
use mathlib.Core.List.{List, [], ◌∷◌, ◌++◌}
use native.Mathlib.Omega.{arith}
use rust_x11_hello.Prelude.Tests.{◌==◌}
use rust_x11_hello.Prelude.Lists.{All, get_or}

abbrev pub IsU8 : ℕ → Type 0
IsU8 x = x < 256

abbrev pub IsU16 : ℕ → Type 0
IsU16 x = x < 65536

abbrev pub IsU32 : ℕ → Type 0
IsU32 x = x < 2 ^ 32

abbrev pub IsU64 : ℕ → Type 0
IsU64 x = x < 2 ^ 64

-- A read of a byte, in range or not, is a byte.
pub IsU8-get_or : (xs : List ℕ) (i : ℕ) → All IsU8 xs → IsU8 (get_or xs i 0)
IsU8-get_or [] i h = omega arith
IsU8-get_or (x ∷ xs) zero h = h.0
IsU8-get_or (x ∷ xs) (suc i) h = IsU8-get_or xs i h.1

-- `u16::to_be_bytes`, `u32::to_be_bytes`, `u64::to_be_bytes`
abbrev pub to_be16 : ℕ → List ℕ
to_be16 x = (x / 256 % 256) ∷ (x % 256) ∷ []

abbrev pub to_be32 : ℕ → List ℕ
to_be32 x = (x / 16777216 % 256) ∷ (x / 65536 % 256) ∷ (x / 256 % 256) ∷ (x % 256) ∷ []

abbrev pub to_be64 : ℕ → List ℕ
to_be64 x = to_be32 (x / 2 ^ 32) ++ to_be32 (x % 2 ^ 32)

-- `from_be_bytes`, at every width
abbrev pub from_be_acc : ℕ → List ℕ → ℕ
from_be_acc acc [] = acc
from_be_acc acc (b ∷ bs) = from_be_acc (acc * 256 + b) bs

abbrev pub from_be : List ℕ → ℕ
from_be bs = from_be_acc 0 bs

pub from_be-to_be16 : (x : ℕ) → IsU16 x → from_be (to_be16 x) ≡ x
from_be-to_be16 x h = omega arith

pub from_be-to_be32 : (x : ℕ) → IsU32 x → from_be (to_be32 x) ≡ x
from_be-to_be32 x h = omega arith

pub from_be-to_be64 : (x : ℕ) → IsU64 x → from_be (to_be64 x) ≡ x
from_be-to_be64 x h = omega arith

pub to_be16-from_be : (a b : ℕ) → IsU8 a → IsU8 b → to_be16 (from_be (a ∷ b ∷ [])) ≡ a ∷ b ∷ []
to_be16-from_be a b ha hb = ground arith

pub to_be32-from_be :
    (a b c d : ℕ)
    → IsU8 a
    → IsU8 b
    → IsU8 c
    → IsU8 d
    → to_be32 (from_be (a ∷ b ∷ c ∷ d ∷ [])) ≡ a ∷ b ∷ c ∷ d ∷ []
to_be32-from_be a b c d ha hb hc hd = ground arith

pub to_be64-from_be :
    (a b c d e f g h : ℕ)
    → All IsU8 (a ∷ b ∷ c ∷ d ∷ e ∷ f ∷ g ∷ h ∷ [])
    → to_be64 (from_be (a ∷ b ∷ c ∷ d ∷ e ∷ f ∷ g ∷ h ∷ [])) ≡ a ∷ b ∷ c ∷ d ∷ e ∷ f ∷ g ∷ h ∷ []
to_be64-from_be a b c d e f g h bytes =
    let high = from_be (a ∷ b ∷ c ∷ d ∷ []) in
    let low = from_be (e ∷ f ∷ g ∷ h ∷ []) in
    let all = from_be (a ∷ b ∷ c ∷ d ∷ e ∷ f ∷ g ∷ h ∷ []) in
    let q : all / 2 ^ 32 ≡ high = omega arith in
    let r : all % 2 ^ 32 ≡ low = omega arith in
    ap₂ (λ x y. to_be32 x ++ to_be32 y) q r
    ∙ ap₂ (λ x y. x ++ y)
        (to_be32-from_be a b c d (omega arith) (omega arith) (omega arith) (omega arith))
        (to_be32-from_be e f g h (omega arith) (omega arith) (omega arith) (omega arith))

-- Equality of byte slices
abbrev pub bytes_eq : List ℕ → List ℕ → Bool
bytes_eq [] [] = true
bytes_eq [] (b ∷ bs) = false
bytes_eq (a ∷ as') [] = false
bytes_eq (a ∷ as') (b ∷ bs) = (a == b) && bytes_eq as' bs
