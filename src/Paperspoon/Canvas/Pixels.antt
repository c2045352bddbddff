-- ===== src/Paperspoon/Canvas/Pixels.antt =====
-- MonoCanvas::set_pixel and fill_rect: which pixels change.
use Prim.Native.Nat.{bit_and}
use native.Mathlib.Decide.{ℕ_discrete}
use rust_x11_hello.Prelude.{
  ℕ, ◌+◌, ◌-◌, ◌*◌, ◌/◌, ◌%◌, ◌<◌, ◌≤◌, ◌≡◌, ◌∙◌, refl, arith, List, Bool, true, false, ◌&&◌, not,
  ◌==◌, ltb, if◌then◌else◌, length, get_or,
}
use rust_x11_hello.Prelude.Bits.{holds_under, byte_table}
use rust_x11_hello.Protocol.Frame.{Mono1Pixel, black, white}
use rust_x11_hello.Paperpad.Mxcfb.Memory.{set}
use rust_x11_hello.Paperpad.Mxcfb.Memory.Rows.{length-set, get_or-set_self, get_or-set_ne}
use rust_x11_hello.Paperspoon.Diagnostic.Bits.{
  pixel_mask, white_at, IsBytes, same_row, bit_or-white, same_pixel, other_pixel,
}
use rust_x11_hello.Paperspoon.Canvas.{MonoCanvas, coloured, set_pixel}

abbrev and_agrees : ℕ → ℕ → Bool
and_agrees k b =
    let drawn = bit_and b (255 - pixel_mask (k / 8)) in
    let white = bit_and b (pixel_mask (k % 8)) == 0 in
    let still = bit_and drawn (pixel_mask (k % 8)) == 0 in
    ltb drawn 256 && (if k / 8 == k % 8 then still else if white then still else not still)

and_table : holds_under (64 * 256) (λ i. and_agrees (i / 256) (i % 256)) ≡ true
unfolding holds_under
and_table = refl

abbrev pub is_white : Mono1Pixel → Bool
is_white white = true
is_white black = false

decided :
    (small same clear still : Bool)
    → (small && (if same then still else if clear then still else not still)) ≡ true
    → (small ≡ true) × (still ≡ (if same then true else clear))
decided true true clear true e = (refl, refl)
decided true true clear false e = absurd (ground (arith, e))
decided true false true true e = (refl, refl)
decided true false true false e = absurd (ground (arith, e))
decided true false false true e = absurd (ground (arith, e))
decided true false false false e = (refl, refl)
decided false same clear still e = absurd (ground (arith, e))

blackened : (same clear : Bool) → (not same && clear) ≡ (if same then false else clear)
blackened true clear = refl
blackened false clear = refl

-- A coloured pixel of a byte, and the others
pub coloured-white :
    (color : Mono1Pixel) (k j b : ℕ)
    → k < 8
    → j < 8
    → b < 256
    → (coloured color b (pixel_mask k) < 256)
      × ((bit_and (coloured color b (pixel_mask k)) (pixel_mask j) == 0)
          ≡ (if k == j then is_white color else bit_and b (pixel_mask j) == 0))
unfolding coloured
coloured-white black k j b hk hj hb =
    let (small, is) = bit_or-white k j b hk hj hb in
    (small, is ∙ blackened (k == j) (bit_and b (pixel_mask j) == 0))
coloured-white white k j b hk hj hb =
    let row : (k * 8 + j) / 8 ≡ k = omega arith in
    let column : (k * 8 + j) % 8 ≡ j = omega arith in
    let table =
      rw (row, column) at (byte_table 64 and_agrees (k * 8 + j) b and_table (omega arith) hb) in
    let (small, is) =
      decided (ltb (bit_and b (255 - pixel_mask k)) 256) (k == j) (bit_and b (pixel_mask j) == 0)
        (bit_and (bit_and b (255 - pixel_mask k)) (pixel_mask j) == 0) table in
    (ground (arith, small), is)

-- A canvas whose rows fit its stride, and whose bytes fit its rows
pub record IsCanvas (c : MonoCanvas) : Type 0 where
  pub wide : c.width ≤ c.stride * 8
  pub size : length c.pixels ≡ c.stride * c.height
  pub bytes : IsBytes c.pixels

-- The same canvas, but for its pixels
pub record IsLike (before after : MonoCanvas) : Type 0 where
  pub width : after.width ≡ before.width
  pub height : after.height ≡ before.height
  pub stride : after.stride ≡ before.stride
  pub canvas : IsCanvas after

stored-white :
    (color : Mono1Pixel) (stride : ℕ) (pixels : List ℕ) (x y x' y' : ℕ)
    → x / 8 < stride
    → x' / 8 < stride
    → y * stride + x / 8 < length pixels
    → IsBytes pixels
    → white_at stride
        (set pixels
          (y * stride + x / 8)
          (coloured color (get_or pixels (y * stride + x / 8) 0) (pixel_mask (x % 8))))
        x'
        y'
      ≡ (if (x == x') && (y == y') then is_white color else white_at stride pixels x' y')
stored-white color stride pixels x y x' y' hx hx' fits bytes =
    let place = y * stride + x / 8 in
    let new = coloured color (get_or pixels place 0) (pixel_mask (x % 8)) in
    elim (ℕ_discrete (y' * stride + x' / 8) place) [
      | yes same ↦
          let (rows, cells) = same_row stride y' y (x' / 8) (x / 8) hx' hx same in
          rw (same_pixel x y x' y' rows cells, same, get_or-set_self pixels place new fits)
            (coloured-white color (x % 8) (x' % 8) (get_or pixels place 0) (omega arith)
              (omega arith) (bytes place)).1
      | no other ↦
          rw
            (
              other_pixel stride x y x' y' other,
              get_or-set_ne pixels place (y' * stride + x' / 8) new other,
            )
            refl
    ]

stored-IsBytes :
    (color : Mono1Pixel) (pixels : List ℕ) (place k : ℕ)
    → place < length pixels
    → k < 8
    → IsBytes pixels
    → IsBytes (set pixels place (coloured color (get_or pixels place 0) (pixel_mask k)))
stored-IsBytes color pixels place k fits hk bytes i =
    let new = coloured color (get_or pixels place 0) (pixel_mask k) in
    elim (ℕ_discrete i place) [
      | yes same ↦
          rw (same, get_or-set_self pixels place new fits)
            (coloured-white color k 0 (get_or pixels place 0) hk (omega arith) (bytes place)).0
      | no other ↦ rw (get_or-set_ne pixels place i new other) (bytes i)
    ]

abbrev pub white_in : MonoCanvas → ℕ → ℕ → Bool
white_in c x y = white_at c.stride c.pixels x y

place_fits : (s h x y : ℕ) → x / 8 < s → y < h → y * s + x / 8 < s * h
place_fits s h x y hx hy = grind arith

set_inside :
    (c : MonoCanvas) (x y : ℕ) (color : Mono1Pixel)
    → x < c.width
    → y < c.height
    → (set_pixel c x y color).1 ≡ record c {
      pixels =
          set c.pixels
            (y * c.stride + x / 8)
            (coloured color (get_or c.pixels (y * c.stride + x / 8) 0) (pixel_mask (x % 8)));
    }
unfolding set_pixel
set_inside c x y color hx hy = ground (arith, hx, hy)

pub set_pixel-IsLike :
    (c : MonoCanvas) (x y : ℕ) (color : Mono1Pixel)
    → IsCanvas c
    → x < c.width
    → y < c.height
    → IsLike c (set_pixel c x y color).1
set_pixel-IsLike c x y color is hx hy = rw (set_inside c x y color hx hy) (record {
  width = refl;
  height = refl;
  stride = refl;
  canvas = record {
    wide = is.wide;
    size = length-set c.pixels (y * c.stride + x / 8) _ ∙ is.size;
    bytes =
        stored-IsBytes color c.pixels (y * c.stride + x / 8) (x % 8)
          (omega (arith, is.size, place_fits c.stride c.height x y (omega (arith, is.wide)) hy))
          (omega arith) is.bytes;
  };
})

-- A pixel inside the canvas is coloured, and the others stay.
pub painted :
    (c : MonoCanvas) (x y x' y' : ℕ) (color : Mono1Pixel)
    → IsCanvas c
    → x < c.width
    → y < c.height
    → x' < c.stride * 8
    → white_in (set_pixel c x y color).1 x' y'
      ≡ (if (x == x') && (y == y') then is_white color else white_in c x' y')
painted c x y x' y' color is hx hy hx' = rw (set_inside c x y color hx hy) (
    stored-white color c.stride c.pixels x y x' y' (omega (arith, is.wide)) (omega arith)
      (omega (arith, is.size, place_fits c.stride c.height x y (omega (arith, is.wide)) hy))
      is.bytes)
