-- ===== src/Paperspoon/Diagnostic/Mono.antt =====
-- A Mono1 pattern: the drawn image is valid, and each pixel is the one that is asked for.
use Prim.Native.Nat.{bit_and}
use native.Mathlib.Decide.{ℕ_discrete}
use rust_x11_hello.Prelude.{
  ℕ, zero, suc, ◌+◌, ◌-◌, ◌*◌, ◌/◌, ◌%◌, ◌<◌, ◌≤◌, ◌≡◌, ◌≢◌, ◌∙◌, inr, refl, ap, arith, List, [],
  ◌∷◌, All, Bool, true, false, ◌&&◌, ◌||◌, not, ◌==◌, ltb, if◌then◌else◌, length, get_or, replicate,
  some, ok,
}
use rust_x11_hello.Prelude.Bytes.{IsU8, IsU16}
use rust_x11_hello.Prelude.Bits.{holds_under, holds_under-at, byte_table}
use rust_x11_hello.Protocol.Frame.{
  black, white, Mono1Frame, mono1_stride, mono1_pixel, validate_mono1_pixels, padding_mask,
}
use rust_x11_hello.Protocol.Frame.Validity.{check_padding_complete, mono1_payload_len-eq}
use rust_x11_hello.Paperspoon.Diagnostic.{draw_rows}
use rust_x11_hello.Paperspoon.Diagnostic.Bits.{pixel_mask, white_at}
use rust_x11_hello.Paperspoon.Diagnostic.Drawn.{
  IsImage, draw_rows_other, draw_rows_self, draw_rows-IsImage,
}

-- Is the pixel `j` of a byte white, or in front of `used`?
abbrev clear_from : ℕ → ℕ → ℕ → Bool
clear_from used b j = ltb j used || bit_and b (pixel_mask j) == 0

abbrev padding_agrees : ℕ → ℕ → Bool
padding_agrees used b =
    (used == 0)
    || (bit_and b (padding_mask used) == 0)
    || not (
        clear_from used b 1
        && (clear_from used b 2
            && (clear_from used b 3
                && (clear_from used b 4
                    && (clear_from used b 5 && (clear_from used b 6 && clear_from used b 7))))))

padding_table : holds_under (8 * 256) (λ i. padding_agrees (i / 256) (i % 256)) ≡ true
unfolding holds_under padding_mask
padding_table = refl

-- Behind `used` pixels a byte of white pixels has no bit under the padding mask.
white_padding :
    (used b : ℕ)
    → 0 < used
    → used < 8
    → b < 256
    → ((j : ℕ) → used ≤ j → j < 8 → (bit_and b (pixel_mask j) == 0) ≡ true)
    → bit_and b (padding_mask used) ≡ 0
white_padding used b pos small byte clear =
    let table = byte_table 8 padding_agrees used b padding_table small byte in
    ground (arith, table, clear 1, clear 2, clear 3, clear 4, clear 5, clear 6, clear 7)

abbrev zeros : ℕ → List ℕ
zeros n = replicate n 0

get_or-replicate : (n i : ℕ) → get_or (zeros n) i 0 ≡ 0
get_or-replicate zero i = refl
get_or-replicate (suc n) zero = refl
get_or-replicate (suc n) (suc i) = get_or-replicate n i

length-replicate_zero : (n : ℕ) → length (zeros n) ≡ n
length-replicate_zero zero = refl
length-replicate_zero (suc n) = ap suc (length-replicate_zero n)

pub stride_bounds : (w : ℕ) → 0 < w → (w ≤ mono1_stride w * 8) × (mono1_stride w * 8 < w + 8)
unfolding mono1_stride
stride_bounds w pos = (ground arith, ground arith)

white_table : holds_under 8 (λ k. bit_and 0 (pixel_mask k) == 0) ≡ true
unfolding holds_under
white_table = refl

white_mask : (k : ℕ) → k < 8 → (bit_and 0 (pixel_mask k) == 0) ≡ true
white_mask k h = holds_under-at 8 k (λ k. bit_and 0 (pixel_mask k) == 0) h white_table

and_true : (b : Bool) → (b && true) ≡ b
and_true true = refl
and_true false = refl

stride_part : (w : ℕ) → w % 8 ≢ 0 → mono1_stride w ≡ w / 8 + 1
unfolding mono1_stride
stride_part w ne = ground arith

-- The pixels of a row's last byte
last_byte :
    (s y j : ℕ)
    → 0 < s
    → j < 8
    → (y * s + ((s - 1) * 8 + j) / 8 ≡ (y + 1) * s - 1) × (((s - 1) * 8 + j) % 8 ≡ j)
last_byte s y j pos small =
    let cell : ((s - 1) * 8 + j) / 8 ≡ s - 1 = omega arith in
    let next : (y + 1) * s ≡ y * s + s = grind arith in (omega arith, omega arith)

IsU8-All : (xs : List ℕ) → ((i : ℕ) → get_or xs i 0 < 256) → All IsU8 xs
IsU8-All [] h = tt
IsU8-All (x ∷ xs) h = (h 0, IsU8-All xs (λ i. h (suc i)))

-- The image that the loops draw, for a pattern, a width and a height
module _ (p : ℕ → ℕ → Bool) (w h : ℕ) (pos : 0 < w) where
  abbrev pub drawn : List ℕ
  drawn = draw_rows p (mono1_stride w) w h 0 (zeros (mono1_stride w * h))

  blank-IsImage : IsImage (mono1_stride w * h) (zeros (mono1_stride w * h))
  blank-IsImage = record {
    size = length-replicate_zero (mono1_stride w * h);
    bytes = λ i. rw (get_or-replicate (mono1_stride w * h) i) (ground arith);
  }

  blank_white : (x y : ℕ) → white_at (mono1_stride w) (zeros (mono1_stride w * h)) x y ≡ true
  blank_white x y =
      rw (get_or-replicate (mono1_stride w * h) (y * mono1_stride w + x / 8))
        (white_mask (x % 8) (omega arith))

  all_rows : (0 + h) * mono1_stride w ≤ mono1_stride w * h
  all_rows = grind arith

  pub drawn_self : (x y : ℕ) → x < w → y < h → white_at (mono1_stride w) drawn x y ≡ not (p x y)
  drawn_self x y hx hy =
      draw_rows_self p (mono1_stride w) (mono1_stride w * h) w (stride_bounds w pos).0 h 0
        (zeros (mono1_stride w * h)) x y hx all_rows blank-IsImage (omega arith) (omega arith)
      ∙ rw (blank_white x y) (and_true (not (p x y)))

  drawn_padding :
      (x y : ℕ) → w ≤ x → x < mono1_stride w * 8 → white_at (mono1_stride w) drawn x y ≡ true
  drawn_padding x y lo hi =
      draw_rows_other p (mono1_stride w) (mono1_stride w * h) w (stride_bounds w pos).0 h 0
        (zeros (mono1_stride w * h)) x y hi all_rows blank-IsImage (inr lo)
      ∙ blank_white x y

  drawn-IsImage : IsImage (mono1_stride w * h) drawn
  drawn-IsImage =
      draw_rows-IsImage p (mono1_stride w) (mono1_stride w * h) w (stride_bounds w pos).0 h 0
        (zeros (mono1_stride w * h)) all_rows blank-IsImage

  pub drawn-IsU8 : All IsU8 drawn
  drawn-IsU8 = IsU8-All drawn drawn-IsImage.bytes

  pub length-drawn : length drawn ≡ mono1_stride w * h
  length-drawn = drawn-IsImage.size

  drawn_byte :
      (y : ℕ)
      → y < h
      → w % 8 ≢ 0
      → bit_and (get_or drawn ((y + 1) * mono1_stride w - 1) 0) (padding_mask (w % 8)) ≡ 0
  drawn_byte y hy ne =
      white_padding (w % 8) (get_or drawn ((y + 1) * mono1_stride w - 1) 0) (omega arith)
        (omega arith) (drawn-IsImage.bytes ((y + 1) * mono1_stride w - 1))
        (λ j lo hi.
          let (index, bit) = last_byte (mono1_stride w) y j (omega (arith, stride_part w ne)) hi in
          rw (index, bit) at
            (drawn_padding ((mono1_stride w - 1) * 8 + j) y (omega (arith, stride_part w ne))
              (omega (arith, stride_part w ne))))

  pub drawn-validated :
      0 < h → IsU16 w → IsU16 h → validate_mono1_pixels w h drawn ≡ ok (mono1_stride w)
  unfolding validate_mono1_pixels
  drawn-validated high hw hh = elim (ℕ_discrete (w % 8) 0) [
    | yes whole ↦ ground (arith, mono1_payload_len-eq w h hw hh, drawn-IsImage.size)
    | no ne ↦ ground (
      arith,
      mono1_payload_len-eq w h hw hh,
      drawn-IsImage.size,
      check_padding_complete (padding_mask (w % 8)) (mono1_stride w) drawn h 0
          (λ i lo hi. drawn_byte i (omega arith) ne),
    )
  ]

pub mono1_drawn :
    (p : ℕ → ℕ → Bool) (f : Mono1Frame) (x y : ℕ)
    → x < f.width
    → y < f.height
    → white_at f.stride f.pixels x y ≡ not (p x y)
    → mono1_pixel f x y ≡ some (if p x y then black else white)
unfolding mono1_pixel
mono1_drawn p f x y hx hy e = ground (arith, e)
