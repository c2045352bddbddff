-- ===== src/Prelude/Checked.antt =====
-- Checked arithmetic on the unsigned machine integers.
use Prim.Native.Nat.{ℕ, ◌+◌, ◌*◌, ◌^◌}
use mathlib.Core.Option.{Option, none, some}
use rust_x11_hello.Prelude.Tests.{ltb, if◌then◌else◌}

-- `a.checked_add(b)` and `a.checked_mul(b)` on integers of `bits` bits
abbrev pub checked_add : ℕ → ℕ → ℕ → Option ℕ
checked_add bits a b = if ltb (a + b) (2 ^ bits) then some (a + b) else none

abbrev pub checked_times : ℕ → ℕ → ℕ → Option ℕ
checked_times bits a b = if ltb (a * b) (2 ^ bits) then some (a * b) else none
