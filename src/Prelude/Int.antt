-- ===== src/Prelude/Int.antt =====
-- Signed integers over the native numbers, as far as window coordinates need them.
use Prim.Native.Nat.{ℕ, ◌+◌, ◌-◌, ◌%◌, ◌^◌, ◌<◌}
use mathlib.Core.Bool.{Bool, true, false}
use rust_x11_hello.Prelude.Tests.{ltb, leb, if◌then◌else◌}

-- `negsuc n` is -(n + 1).
pub data ℤ : Type 0 where
  pos : ℕ → ℤ
  negsuc : ℕ → ℤ

-- `z < n`, `z >= n` and `z - n` for a number that is not negative
abbrev pub below : ℤ → ℕ → Bool
below (pos m) n = ltb m n
below (negsuc m) n = true

abbrev pub at_least : ℤ → ℕ → Bool
at_least (pos m) n = leb n m
at_least (negsuc m) n = false

abbrev pub minus : ℤ → ℕ → ℤ
minus (pos m) n = if leb n m then pos (m - n) else negsuc (n - m - 1)
minus (negsuc m) n = negsuc (m + n)

-- `z as u16`
abbrev pub as_u16 : ℤ → ℕ
as_u16 (pos m) = m % 2 ^ 16
as_u16 (negsuc m) = 65535 - m % 2 ^ 16

-- The values of `i16`
abbrev pub IsI16 : ℤ → Type 0
IsI16 (pos n) = n < 2 ^ 15
IsI16 (negsuc n) = n < 2 ^ 15
