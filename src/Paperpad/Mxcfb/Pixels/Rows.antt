-- ===== src/Paperpad/Mxcfb/Pixels/Rows.antt =====
-- The bytes of one row are the pixels of the frame.
use Prim.Native.Nat.{bit_and}
use mathlib.Core.Option
use rust_x11_hello.Prelude.{
  ℕ, zero, suc, ◌+◌, ◌-◌, ◌*◌, ◌/◌, ◌%◌, ◌^◌, ◌≤◌, ◌<◌, ◌≡◌, ◌∙◌, refl, ap, arith, List, [], ◌∷◌,
  Option, some, if◌then◌else◌, ◌==◌, length, get_or, take, drop, slice, length-take, length-drop,
}
use rust_x11_hello.Protocol.Frame.{
  PixelFormat, mono1, gray8, Mono1Pixel, white, black, mono1_pixel, gray8_pixel,
}
use rust_x11_hello.Protocol.Frame.Owned.{IsImage}
use rust_x11_hello.Protocol.Frame.Pixels.{column-lt-stride}
use rust_x11_hello.Paperpad.Mxcfb.Pixels.{expand_mono1, native_row}

-- White is the brightest byte, black the darkest.
abbrev pub shade : Mono1Pixel → ℕ
shade white = 255
shade black = 0

-- The byte that a pixel of a frame should become, by the accessors of the frames
abbrev pub pixel_byte : PixelFormat → ℕ → ℕ → ℕ → List ℕ → ℕ → ℕ → Option ℕ
pixel_byte mono1 w h s pixels x y =
    Option.map shade
      (mono1_pixel (record { width = w; height = h; stride = s; pixels = pixels }) x y)
pixel_byte gray8 w h s pixels x y =
    gray8_pixel (record { width = w; height = h; stride = s; pixels = pixels }) x y

get_or-take : (n : ℕ) (xs : List ℕ) (i : ℕ) → i < n → get_or (take n xs) i 0 ≡ get_or xs i 0
get_or-take zero xs i h = absurd (omega arith)
get_or-take (suc n) [] i h = refl
get_or-take (suc n) (x ∷ xs) zero h = refl
get_or-take (suc n) (x ∷ xs) (suc i) h = get_or-take n xs i (omega arith)

get_or-drop : (n : ℕ) (xs : List ℕ) (i : ℕ) → get_or (drop n xs) i 0 ≡ get_or xs (n + i) 0
get_or-drop zero xs i = ap (λ k. get_or xs k 0) (omega arith)
get_or-drop (suc n) [] i = refl
get_or-drop (suc n) (x ∷ xs) i =
    let e : suc n + i ≡ suc (n + i) = omega arith in rw e (get_or-drop n xs i)

pub get_or-slice :
    (xs : List ℕ) (from len i : ℕ)
    → i < len
    → get_or (slice xs from (from + len)) i 0 ≡ get_or xs (from + i) 0
get_or-slice xs from len i h =
    get_or-take (from + len - from) (drop from xs) i (omega arith) ∙ get_or-drop from xs i

pub length-slice :
    (xs : List ℕ) (from len : ℕ)
    → from + len ≤ length xs
    → length (slice xs from (from + len)) ≡ len
length-slice xs from len h =
    omega (arith, length-take (from + len - from) (drop from xs), length-drop from xs)

length-expand_mono1 : (source : List ℕ) (n c : ℕ) → length (expand_mono1 source n c) ≡ n
unfolding expand_mono1
length-expand_mono1 source zero c = refl
length-expand_mono1 source (suc n) c = ap suc (length-expand_mono1 source n (c + 1))

get_or-expand_mono1 :
    (source : List ℕ) (n c i : ℕ)
    → i < n
    → get_or (expand_mono1 source n c) i 0 ≡ (
        if bit_and (get_or source ((c + i) / 8) 0) (0x80 / 2 ^ ((c + i) % 8)) == 0
        then 0xff
        else 0x00)
unfolding expand_mono1
get_or-expand_mono1 source zero c i h = absurd (omega arith)
get_or-expand_mono1 source (suc n) c zero h = let e : c + 0 ≡ c = omega arith in rw e refl
get_or-expand_mono1 source (suc n) c (suc i) h =
    let e : c + suc i ≡ c + 1 + i = omega arith in
    rw e (get_or-expand_mono1 source n (c + 1) i (omega arith))

stride_row : (y s h : ℕ) → y < h → y * s + s ≤ s * h
stride_row y s h lt = grind arith

-- In an image, the source of a row lies in its bytes, its native row has a byte for each column, and
-- this is the pixel's.
module _ (w h s : ℕ) (xs : List ℕ) (y : ℕ) (lt : y < h) where
  abbrev source : List ℕ
  source = slice xs (y * s) (y * s + s)

  pub length-native_row :
      (format : PixelFormat) → IsImage format w h s xs → length (native_row format source w) ≡ w
  unfolding native_row
  length-native_row mono1 v = length-expand_mono1 source w 0
  length-native_row gray8 v =
      omega (arith, length-slice xs (y * s) s, stride_row y s h lt, v.size, v.stride_eq)

  pub native_row-pixel_byte :
      (format : PixelFormat) (x : ℕ)
      → IsImage format w h s xs
      → x < w
      → pixel_byte format w h s xs x y ≡ some (get_or (native_row format source w) x 0)
  unfolding native_row mono1_pixel gray8_pixel
  native_row-pixel_byte mono1 x v inside =
      let e : 0 + x ≡ x = omega arith in
      let byte = rw e at (get_or-expand_mono1 source w 0 x inside) in
      let column : x / 8 < s = omega (arith, column-lt-stride x w inside, v.stride_eq) in
      ground (arith, byte, get_or-slice xs (y * s) s (x / 8) column)
  native_row-pixel_byte gray8 x v inside = ground (arith, get_or-slice xs (y * s) s x, v.stride_eq)
