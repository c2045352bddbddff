-- ===== src/Paperspoon/Diagnostic/Bits.antt =====
-- One pixel of a Mono1 image, behind the store that makes it black.
use Prim.Native.Nat.{bit_and, bit_or}
use native.Mathlib.Decide.{ℕ_discrete, dec_lt}
use rust_x11_hello.Prelude.{
  ℕ, ◌+◌, ◌*◌, ◌/◌, ◌%◌, ◌^◌, ◌<◌, ◌≤◌, ◌≡◌, ◌≢◌, refl, ap, sym, arith, List, Bool, true, false,
  ◌&&◌, not, ltb, Bool-cases, inl, inr, ◌==◌, if◌then◌else◌, length, get_or,
}
use rust_x11_hello.Prelude.Bits.{holds_under, byte_table}
use rust_x11_hello.Paperpad.Mxcfb.Memory.Rows.{get_or-set_self, get_or-set_ne}
use rust_x11_hello.Paperspoon.Diagnostic.{draw_black}

abbrev pub pixel_mask : ℕ → ℕ
pixel_mask k = 0x80 / 2 ^ k

-- `k` stands for the pixel that is drawn and the one that is asked for, in one byte.
abbrev or_agrees : ℕ → ℕ → Bool
or_agrees k b =
    let drawn = bit_or b (pixel_mask (k / 8)) in
    let white = bit_and b (pixel_mask (k % 8)) == 0 in
    let still = bit_and drawn (pixel_mask (k % 8)) == 0 in
    ltb drawn 256 && (if k / 8 == k % 8 then not still else if white then still else not still)

or_table : holds_under (64 * 256) (λ i. or_agrees (i / 256) (i % 256)) ≡ true
unfolding holds_under
or_table = refl

decided :
    (small same white still : Bool)
    → (small && (if same then not still else if white then still else not still)) ≡ true
    → (small ≡ true) × (still ≡ (not same && white))
decided true true white false e = (refl, refl)
decided true true white true e = absurd (ground (arith, e))
decided true false true true e = (refl, refl)
decided true false true false e = absurd (ground (arith, e))
decided true false false true e = absurd (ground (arith, e))
decided true false false false e = (refl, refl)
decided false same white still e = absurd (ground (arith, e))

-- A pixel of a byte is white after the store exactly when it was, and is not the one that is drawn.
pub bit_or-white :
    (k j b : ℕ)
    → k < 8
    → j < 8
    → b < 256
    → (bit_or b (pixel_mask k) < 256)
      × ((bit_and (bit_or b (pixel_mask k)) (pixel_mask j) == 0)
          ≡ (not (k == j) && (bit_and b (pixel_mask j) == 0)))
bit_or-white k j b hk hj hb =
    let row : (k * 8 + j) / 8 ≡ k = omega arith in
    let column : (k * 8 + j) % 8 ≡ j = omega arith in
    let table =
      rw (row, column) at (byte_table 64 or_agrees (k * 8 + j) b or_table (omega arith) hb) in
    let (small, is) =
      decided (ltb (bit_or b (pixel_mask k)) 256) (k == j) (bit_and b (pixel_mask j) == 0)
        (bit_and (bit_or b (pixel_mask k)) (pixel_mask j) == 0) table in
    (ground (arith, small), is)

abbrev pub white_at : ℕ → List ℕ → ℕ → ℕ → Bool
white_at stride pixels x y =
    bit_and (get_or pixels (y * stride + x / 8) 0) (pixel_mask (x % 8)) == 0

abbrev pub IsBytes : List ℕ → Type 0
IsBytes pixels = (i : ℕ) → get_or pixels i 0 < 256

pub draw_black-IsBytes :
    (stride : ℕ) (pixels : List ℕ) (x y : ℕ)
    → y * stride + x / 8 < length pixels
    → IsBytes pixels
    → IsBytes (draw_black stride pixels x y)
unfolding draw_black
draw_black-IsBytes stride pixels x y fits bytes i =
    let at = y * stride + x / 8 in
    let new = bit_or (get_or pixels at 0) (pixel_mask (x % 8)) in
    elim (ℕ_discrete i at) [
      | yes same ↦
          rw (same, get_or-set_self pixels at new fits)
            (bit_or-white (x % 8) 0 (get_or pixels at 0) (omega arith) (omega arith) (bytes at)).0
      | no other ↦ rw (get_or-set_ne pixels at i new other) (bytes i)
    ]

next_row : (s y y' : ℕ) → y < y' → y * s + s ≤ y' * s
next_row s y y' lt = grind arith

row_ends : (m n a b : ℕ) → m ≡ n → m + a ≡ n + b → a ≡ b
row_ends m n a b same e = omega arith

pub same_row : (s y y' a b : ℕ) → a < s → b < s → y * s + a ≡ y' * s + b → (y ≡ y') × (a ≡ b)
same_row s y y' a b ha hb e = elim (dec_lt y y') [
  | yes lt ↦ absurd (omega (arith, next_row s y y' lt))
  | no ge ↦ elim (dec_lt y' y) [
    | yes gt ↦ absurd (omega (arith, next_row s y' y gt))
    | no le ↦
        let same : y ≡ y' = omega arith in
        (same, row_ends (y * s) (y' * s) a b (ap (λ n. n * s) same) e)
  ]
]

pub same_pixel :
    (x y x' y' : ℕ) → y' ≡ y → x' / 8 ≡ x / 8 → ((x == x') && (y == y')) ≡ (x % 8 == x' % 8)
same_pixel x y x' y' rows bytes = ground arith

equal_pixel : (x y x' y' : ℕ) → ((x == x') && (y == y')) ≡ true → (x ≡ x') × (y ≡ y')
equal_pixel x y x' y' e = (ground (arith, e), ground (arith, e))

pub other_pixel :
    (s x y x' y' : ℕ) → y' * s + x' / 8 ≢ y * s + x / 8 → ((x == x') && (y == y')) ≡ false
other_pixel s x y x' y' other = elim (Bool-cases ((x == x') && (y == y'))) [
  | inl e ↦ let (columns, rows) = equal_pixel x y x' y' e in absurd (other (cong2 s columns rows))
  | inr e ↦ e
]
  where
    cong2 : (s : ℕ) {x y x' y' : ℕ} → x ≡ x' → y ≡ y' → y' * s + x' / 8 ≡ y * s + x / 8
    cong2 s p q = λ i. sym q i * s + sym p i / 8

-- The store makes its own pixel black, and leaves every other one.
pub draw_black-white :
    (stride : ℕ) (pixels : List ℕ) (x y x' y' : ℕ)
    → x / 8 < stride
    → x' / 8 < stride
    → y * stride + x / 8 < length pixels
    → IsBytes pixels
    → white_at stride (draw_black stride pixels x y) x' y'
      ≡ (not ((x == x') && (y == y')) && white_at stride pixels x' y')
unfolding draw_black
draw_black-white stride pixels x y x' y' hx hx' fits bytes =
    let at = y * stride + x / 8 in
    let new = bit_or (get_or pixels at 0) (pixel_mask (x % 8)) in
    elim (ℕ_discrete (y' * stride + x' / 8) at) [
      | yes same ↦
          let (rows, bytes') = same_row stride y' y (x' / 8) (x / 8) hx' hx same in
          rw (same_pixel x y x' y' rows bytes', same, get_or-set_self pixels at new fits)
            (bit_or-white (x % 8) (x' % 8) (get_or pixels at 0) (omega arith) (omega arith)
              (bytes at)).1
      | no other ↦
          rw
            (
              other_pixel stride x y x' y' other,
              get_or-set_ne pixels at (y' * stride + x' / 8) new other,
            )
            refl
    ]
