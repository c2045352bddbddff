-- ===== src/Protocol/Frame/Pixels.antt =====
-- What the pixels of a valid frame are, and that they determine it.
use native.Mathlib.Decide.{dec_lt}
use native.Mathlib.Nat.{div-add-mod', div-lt_iff_lt-mul, mod-lt, mul_comm}
use rust_x11_hello.Prelude.{◌≤◌, ◌⊎◌, inl, inr, none}
use rust_x11_hello.Prelude.{
  ◌∙◌, sym, ℕ, ◌+◌, ◌-◌, ◌*◌, ◌/◌, ◌%◌, ◌≤◌, ◌<◌, ◌≡◌, arith, ◌==◌, if◌then◌else◌, length, get_or,
  List, All, list_ext, some, ◌≢◌, some,
}
use rust_x11_hello.Prelude.Bytes.{IsU8, IsU8-get_or}
use rust_x11_hello.Protocol.Frame.{Mono1Pixel, mono1_stride, mono1_pixel, Mono1Frame, white, black}
use rust_x11_hello.Protocol.Frame.Masks.{msb_bit, bit_and-pixel_mask, padding-msb_bit, byte_ext}
use rust_x11_hello.Protocol.Frame.Validity.{IsMono1}

row_index : (y b s h : ℕ) → y < h → b < s → y * s + b < s * h
row_index y b s h hy hb = grind arith

pub column-lt-stride : (x w : ℕ) → x < w → x / 8 < mono1_stride w
unfolding mono1_stride
column-lt-stride x w h = ground arith

mono1_pixel-inside :
    (f : Mono1Frame) (x y : ℕ)
    → IsMono1 f.width f.height f.stride f.pixels
    → All IsU8 f.pixels
    → x < f.width
    → y < f.height
    → (y * f.stride + x / 8 < length f.pixels)
      × (mono1_pixel f x y
          ≡ some (
              if msb_bit (x % 8) (get_or f.pixels (y * f.stride + x / 8) 0) == 0
              then white
              else black))
unfolding mono1_pixel
mono1_pixel-inside f x y v bytes hx hy = (
  omega (
    arith,
    v.size,
    v.stride_eq,
    column-lt-stride x f.width hx,
    row_index y (x / 8) f.stride f.height hy
        (omega (arith, v.stride_eq, column-lt-stride x f.width hx)),
  ),
  ground (
    arith,
    bit_and-pixel_mask (x % 8) (get_or f.pixels (y * f.stride + x / 8) 0) (omega arith)
        (IsU8-get_or f.pixels (y * f.stride + x / 8) bytes),
  ),
)

mono1_pixel-outside :
    (f : Mono1Frame) (x y : ℕ) → (f.width ≤ x) ⊎ (f.height ≤ y) → mono1_pixel f x y ≡ none
unfolding mono1_pixel
mono1_pixel-outside f x y (inl h) = ground arith
mono1_pixel-outside f x y (inr h) = ground arith

-- A valid Mono1 frame of bytes has a pixel exactly at the coordinates inside it. The byte that is
-- read there is in range, and the pixel is black exactly if bit `7 - x % 8` of that byte is set.
pub mono1_pixel_lem :
    (f : Mono1Frame) (x y : ℕ)
    → IsMono1 f.width f.height f.stride f.pixels
    → All IsU8 f.pixels
    → ((x < f.width) × (y < f.height)
        → (y * f.stride + x / 8 < length f.pixels)
          × (mono1_pixel f x y
              ≡ some (
                  if msb_bit (x % 8) (get_or f.pixels (y * f.stride + x / 8) 0) == 0
                  then white
                  else black)))
      × ((f.width ≤ x) ⊎ (f.height ≤ y) → mono1_pixel f x y ≡ none)
mono1_pixel_lem f x y v bytes =
    (λ (hx, hy). mono1_pixel-inside f x y v bytes hx hy, mono1_pixel-outside f x y)

-- A bit read as a colour.
abbrev colour : ℕ → Mono1Pixel
colour bit = if bit == 0 then white else black

colour-injective : (a b : ℕ) → a < 2 → b < 2 → colour a ≡ colour b → a ≡ b
colour-injective a b ha hb e = ground arith

module _ (w h s : ℕ) (xs : List ℕ) (v : IsMono1 w h s xs) (bytes : All IsU8 xs) (row b k : ℕ)
    (hr : row < h) (hb : b < s) (hk : k < 8) where
  -- The pixel at column `8 * b + k` is bit `k` of byte `b` of its row.
  column_pixel :
      b * 8 + k < w
      → mono1_pixel (record { width = w; height = h; stride = s; pixels = xs }) (b * 8 + k) row
        ≡ some (colour (msb_bit k (get_or xs (row * s + b) 0)))
  column_pixel inside =
      let q : (b * 8 + k) / 8 ≡ b = omega arith in
      let r : (b * 8 + k) % 8 ≡ k = omega arith in
      rw (q, r) at
        ((mono1_pixel-inside (record { width = w; height = h; stride = s; pixels = xs }) (b * 8 + k)
          row v bytes inside hr).1)

  -- Behind the last column every bit is zero.
  padding_bit : w ≤ b * 8 + k → msb_bit k (get_or xs (row * s + b) 0) ≡ 0
  unfolding mono1_stride
  padding_bit outside =
      let partial : w % 8 ≢ 0 = ground (arith, v.stride_eq) in
      let last : s ≡ b + 1 = ground (arith, v.stride_eq) in
      let used : w % 8 ≤ k = ground (arith, v.stride_eq) in
      let index : (row + 1) * s - 1 ≡ row * s + b = grind (arith, last) in
      padding-msb_bit (w % 8) k (get_or xs (row * s + b) 0) (omega arith) used hk
        (IsU8-get_or xs (row * s + b) bytes) (rw index at (v.padded row hr partial))

-- Two Mono1 frames of the same dimensions.
module _ (w h s : ℕ) (xs ys : List ℕ) (v : IsMono1 w h s xs) (u : IsMono1 w h s ys)
    (xs_bytes : All IsU8 xs) (ys_bytes : All IsU8 ys)
    (same : (x y : ℕ)
      → x < w
      → y < h
      → mono1_pixel (record { width = w; height = h; stride = s; pixels = xs }) x y
        ≡ mono1_pixel (record { width = w; height = h; stride = s; pixels = ys }) x y) where
  same_bit :
      (row b k : ℕ)
      → row < h
      → b < s
      → k < 8
      → msb_bit k (get_or xs (row * s + b) 0) ≡ msb_bit k (get_or ys (row * s + b) 0)
  same_bit row b k hr hb hk = elim (dec_lt (b * 8 + k) w) [
    | yes inside ↦ colour-injective _ _ (omega arith) (omega arith) (
        cc (
          column_pixel w h s xs v xs_bytes row b k hr hb hk inside,
          same (b * 8 + k) row inside hr,
          column_pixel w h s ys u ys_bytes row b k hr hb hk inside,
        ))
    | no out ↦
        padding_bit w h s xs v xs_bytes row b k hr hb hk (omega arith)
        ∙ sym (padding_bit w h s ys u ys_bytes row b k hr hb hk (omega arith))
  ]

  same_byte : (row b : ℕ) → row < h → b < s → get_or xs (row * s + b) 0 ≡ get_or ys (row * s + b) 0
  same_byte row b hr hb =
      byte_ext _ _ (IsU8-get_or xs _ xs_bytes) (IsU8-get_or ys _ ys_bytes)
        (λ k hk. same_bit row b k hr hb hk)

  positive : 0 < s
  unfolding mono1_stride
  positive = ground (arith, v.stride_eq, v.wide)

  same_at : (i : ℕ) → i < length xs → get_or xs i 0 ≡ get_or ys i 0
  same_at i lt =
      let split : i / s * s + i % s ≡ i = div-add-mod' i s in
      let row_in : i / s < h =
        (div-lt_iff_lt-mul positive).1 (omega (arith, v.size, mul_comm s h)) in
      let col_in : i % s < s = mod-lt i positive in
      rw split at (same_byte (i / s) (i % s) row_in col_in)

  mono1_ext : xs ≡ ys
  mono1_ext = list_ext xs ys 0 (omega (arith, v.size, u.size)) same_at

-- A Mono1 image is determined by its pixels: two valid byte images of the same dimensions whose
-- frames agree at every coordinate inside have the same bytes, the unused bits of each row included.
pub mono1_pixel-determines :
    (f g : Mono1Frame)
    → IsMono1 f.width f.height f.stride f.pixels
    → IsMono1 g.width g.height g.stride g.pixels
    → All IsU8 f.pixels
    → All IsU8 g.pixels
    → f.width ≡ g.width
    → f.height ≡ g.height
    → ((x y : ℕ) → x < f.width → y < f.height → mono1_pixel f x y ≡ mono1_pixel g x y)
    → f ≡ g
mono1_pixel-determines f g v u fb gb ew eh same =
    let es : f.stride ≡ g.stride = cc (v.stride_eq, u.stride_eq) in
    let g' : Mono1Frame = record {
      width = f.width;
      height = f.height;
      stride = f.stride;
      pixels = g.pixels;
    } in
    let eg : g' ≡ g = cc (ew, eh, es) in
    let u' : IsMono1 f.width f.height f.stride g.pixels = rw (ew, eh, es) u in
    let agree : (x y : ℕ) → x < f.width → y < f.height → mono1_pixel f x y ≡ mono1_pixel g' x y =
      λ x y hx hy. rw eg (same x y hx hy) in
    cc (mono1_ext f.width f.height f.stride f.pixels g.pixels v u' fb gb agree, eg)
