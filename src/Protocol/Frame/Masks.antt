-- ===== src/Protocol/Frame/Masks.antt =====
-- The two masks of framebuffer.rs, as arithmetic on one byte.
use Prim.Native.Nat.{bit_and}
use rust_x11_hello.Prelude.{
  ℕ, ◌+◌, ◌-◌, ◌*◌, ◌/◌, ◌%◌, ◌^◌, ◌≤◌, ◌<◌, ◌≡◌, refl, Bool, true, arith, ◌==◌, ltb, if◌then◌else◌,
  ◌||◌, not,
}
use rust_x11_hello.Prelude.Bits.{holds_under, byte_table}
use rust_x11_hello.Protocol.Frame.{padding_mask}

abbrev padding_agrees : ℕ → ℕ → Bool
padding_agrees k b = (k == 0) || (bit_and b (padding_mask k) == b % 2 ^ (8 - k))

-- Bit `7 - k` of a byte, so that bit 0 is the leftmost pixel.
abbrev pub msb_bit : ℕ → ℕ → ℕ
msb_bit k b = b / 2 ^ (7 - k) % 2

abbrev same : Bool → Bool → Bool
same p q = if p then q else not q

abbrev pixel_agrees : ℕ → ℕ → Bool
pixel_agrees k b = same (bit_and b (0x80 / 2 ^ k) == 0) (msb_bit k b == 0)

-- `j` stands for a number of used bits and a bit behind them.
abbrev padding_clears : ℕ → ℕ → Bool
padding_clears j b =
    ltb (j % 8) (j / 8)
    || ((j / 8 == 0) || (not (b % 2 ^ (8 - j / 8) == 0) || (msb_bit (j % 8) b == 0)))

padding_table : holds_under (8 * 256) (λ i. padding_agrees (i / 256) (i % 256)) ≡ true
unfolding holds_under padding_mask
padding_table = refl

pixel_table : holds_under (8 * 256) (λ i. pixel_agrees (i / 256) (i % 256)) ≡ true
unfolding holds_under
pixel_table = refl

-- The padding mask keeps the unused low bits of a row's last byte.
pub bit_and-padding_mask :
    (used b : ℕ)
    → 0 < used
    → used < 8
    → b < 256
    → bit_and b (padding_mask used) ≡ b % 2 ^ (8 - used)
bit_and-padding_mask used b pos small byte =
    ground (arith, byte_table 8 padding_agrees used b padding_table)

same→eq : (p q : Bool) → same p q ≡ true → p ≡ q
same→eq p q h = ground arith

-- The pixel mask tests bit `7 - k`.
pub bit_and-pixel_mask :
    (k b : ℕ) → k < 8 → b < 256 → (bit_and b (0x80 / 2 ^ k) == 0) ≡ (msb_bit k b == 0)
bit_and-pixel_mask k b small byte =
    same→eq _ _ (byte_table 8 pixel_agrees k b pixel_table small byte)

clears_table : holds_under (64 * 256) (λ i. padding_clears (i / 256) (i % 256)) ≡ true
unfolding holds_under
clears_table = refl

-- Behind `used` bits a byte whose low bits are zero has only zero bits.
pub padding-msb_bit :
    (used k b : ℕ)
    → 0 < used
    → used ≤ k
    → k < 8
    → b < 256
    → b % 2 ^ (8 - used) ≡ 0
    → msb_bit k b ≡ 0
padding-msb_bit used k b pos le small byte zero_low =
    let row : (used * 8 + k) / 8 ≡ used = omega arith in
    let col : (used * 8 + k) % 8 ≡ k = omega arith in
    let t =
      rw (row, col) at
        (byte_table 64 padding_clears (used * 8 + k) b clears_table (omega arith) byte) in
    ground (arith, t)

-- A byte is its eight bits.
pub byte_ext : (a b : ℕ) → a < 256 → b < 256 → ((k : ℕ) → k < 8 → msb_bit k a ≡ msb_bit k b) → a ≡ b
byte_ext a b ha hb h = omega (
  arith,
  h 0 (omega arith),
  h 1 (omega arith),
  h 2 (omega arith),
  h 3 (omega arith),
  h 4 (omega arith),
  h 5 (omega arith),
  h 6 (omega arith),
  h 7 (omega arith),
)
