-- ===== src/Prelude/Bits.antt =====
-- Facts about the masks on one byte, each checked over all its values.
use Prim.Native.Nat.{ℕ, zero, suc, ◌+◌, ◌*◌, ◌/◌, ◌%◌, ◌<◌}
use mathlib.Core.Path.{◌≡◌}
use mathlib.Core.Bool.{Bool, true, false}
use rust_x11_hello.Prelude.Tests.{if◌then◌else◌}
use native.Mathlib.Omega.{arith}

-- `test` holds of every number under `bound`.
unfoldable pub holds_under : ℕ → (ℕ → Bool) → Bool
holds_under zero test = true
holds_under (suc bound) test =
    let others = holds_under bound test in if test bound then others else false

pub holds_under-at :
    (bound i : ℕ) (test : ℕ → Bool) → i < bound → holds_under bound test ≡ true → test i ≡ true
unfolding holds_under
holds_under-at zero i test below table = absurd (omega (arith, below))
holds_under-at (suc bound) i test below table = ground (arith, holds_under-at bound i test)

-- The same over a small number `n` of rows and a byte.
pub byte_table :
    (n : ℕ) (p : ℕ → ℕ → Bool) (k b : ℕ)
    → holds_under (n * 256) (λ i. p (i / 256) (i % 256)) ≡ true
    → k < n
    → b < 256
    → p k b ≡ true
byte_table n p k b table hk hb =
    let row : (k * 256 + b) / 256 ≡ k = omega arith in
    let col : (k * 256 + b) % 256 ≡ b = omega arith in
    rw (row, col) at
      (holds_under-at (n * 256) (k * 256 + b) (λ i. p (i / 256) (i % 256)) (omega arith) table)
