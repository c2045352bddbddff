-- ===== src/Protocol/Frame/Validity.antt =====
-- Which pixels the frame constructors accept.
use Prim.Native.Nat.{bit_and}
use rust_x11_hello.Prelude.{
  ℕ, zero, suc, ◌+◌, ◌-◌, ◌*◌, ◌%◌, ◌^◌, ◌≤◌, ◌<◌, ◌≡◌, refl, arith, ok, length, get_or, List, All,
}
use rust_x11_hello.Prelude.Bytes.{IsU8-get_or, IsU8, IsU16}
use rust_x11_hello.Protocol.Frame.{
  padding_mask, check_padding, mono1_stride, mono1_payload_len, checked_mul, validate_mono1_pixels,
  validate_gray8_pixels, usize_mod, gray8_payload_len, gray8_stride,
}
use rust_x11_hello.Prelude.{some, ◌≢◌, ◌↔◌, ◌∙◌}
use native.Mathlib.Decide.{ℕ_discrete}
use rust_x11_hello.Protocol.Frame.Masks.{bit_and-padding_mask}

-- A Mono1 image: exact length, and the unused bits of each row's last byte white.
pub record IsMono1 (width height stride : ℕ) (pixels : List ℕ) : Type 0 where
  pub wide : 0 < width
  pub high : 0 < height
  pub stride_eq : stride ≡ mono1_stride width
  pub size : length pixels ≡ stride * height
  pub padded :
      (row : ℕ)
      → row < height
      → width % 8 ≢ 0
      → get_or pixels ((row + 1) * stride - 1) 0 % 2 ^ (8 - width % 8) ≡ 0

pub record IsGray8 (width height stride : ℕ) (pixels : List ℕ) : Type 0 where
  pub wide : 0 < width
  pub high : 0 < height
  pub stride_eq : stride ≡ width
  pub size : length pixels ≡ stride * height

-- The pixels of 16-bit dimensions fit `usize`, with 16 bytes to spare.
pub product_fits :
    (stride height : ℕ) → stride < 65536 → height < 65536 → 16 + stride * height < usize_mod
product_fits stride height hs hh = grind arith

pub mono1_stride-le : (w : ℕ) → IsU16 w → mono1_stride w < 65536
unfolding mono1_stride
mono1_stride-le w h = ground arith

-- No frame of 16-bit dimensions is too large for `usize`.
pub mono1_payload_len-eq :
    (w h : ℕ) → IsU16 w → IsU16 h → mono1_payload_len w h ≡ some (mono1_stride w * h)
unfolding mono1_payload_len checked_mul
mono1_payload_len-eq w h hw hh = ground (arith, product_fits (mono1_stride w) h, mono1_stride-le w)

pub gray8_payload_len-eq : (w h : ℕ) → IsU16 w → IsU16 h → gray8_payload_len w h ≡ some (w * h)
unfolding gray8_payload_len checked_mul gray8_stride
gray8_payload_len-eq w h hw hh = ground (arith, product_fits w h)

-- The loop over the rows passes exactly if every remaining row's last byte passes the mask.
check_padding_sound :
    (mask stride : ℕ) (pixels : List ℕ) (rows row i : ℕ)
    → check_padding mask stride pixels rows row ≡ ok tt
    → row ≤ i
    → i < row + rows
    → bit_and (get_or pixels ((i + 1) * stride - 1) 0) mask ≡ 0
unfolding check_padding
check_padding_sound mask stride pixels zero row i e lo hi = absurd (omega arith)
check_padding_sound mask stride pixels (suc rows) row i e lo hi =
    ground (arith, check_padding_sound mask stride pixels rows (row + 1) i)

pub check_padding_complete :
    (mask stride : ℕ) (pixels : List ℕ) (rows row : ℕ)
    → ((i : ℕ)
        → row ≤ i
        → i < row + rows
        → bit_and (get_or pixels ((i + 1) * stride - 1) 0) mask ≡ 0)
    → check_padding mask stride pixels rows row ≡ ok tt
unfolding check_padding
check_padding_complete mask stride pixels zero row h = refl
check_padding_complete mask stride pixels (suc rows) row h = ground (
  arith,
  h row (omega arith) (omega arith),
  check_padding_complete mask stride pixels rows (row + 1)
      (λ i lo hi. h i (omega arith) (omega arith)),
)

module _ (w h : ℕ) (pixels : List ℕ) (hw : IsU16 w) (hh : IsU16 h) (bytes : All IsU8 pixels) where
  masked_byte :
      (j : ℕ)
      → w % 8 ≢ 0
      → bit_and (get_or pixels j 0) (padding_mask (w % 8)) ≡ get_or pixels j 0 % 2 ^ (8 - w % 8)
  masked_byte j ne =
      bit_and-padding_mask (w % 8) (get_or pixels j 0) (omega arith) (omega arith)
        (IsU8-get_or pixels j bytes)

  validate_mono1_pixels-IsMono1 :
      {s : ℕ} → validate_mono1_pixels w h pixels ≡ ok s → IsMono1 w h s pixels
  unfolding validate_mono1_pixels
  validate_mono1_pixels-IsMono1 {s} e = record {
    wide = ground arith;
    high = ground arith;
    stride_eq = ground (arith, mono1_payload_len-eq w h hw hh);
    size = ground (arith, mono1_payload_len-eq w h hw hh);
    padded = λ row lt ne. ground (
      arith,
      mono1_payload_len-eq w h hw hh,
      masked_byte ((row + 1) * s - 1) ne,
      check_padding_sound (padding_mask (w % 8)) (mono1_stride w) pixels h 0 row,
    );
  }

  IsMono1-validate_mono1_pixels :
      {s : ℕ} → IsMono1 w h s pixels → validate_mono1_pixels w h pixels ≡ ok s
  unfolding validate_mono1_pixels
  IsMono1-validate_mono1_pixels {s} v = elim (ℕ_discrete (w % 8) 0) [
    | yes whole ↦ ground (arith, mono1_payload_len-eq w h hw hh)
    | no ne ↦ ground (
      arith,
      mono1_payload_len-eq w h hw hh,
      check_padding_complete (padding_mask (w % 8)) s pixels h 0
          (λ i lo hi. masked_byte ((i + 1) * s - 1) ne ∙ v.padded i (omega arith) ne),
    )
  ]

  -- Of bytes and 16-bit dimensions, `validate_mono1_pixels` accepts exactly the images: no dimension
  -- is zero, the length is that of all rows, and the unused bits of each row's last byte are zero. It
  -- returns their stride.
  pub validate_mono1_pixels_iff :
      (s : ℕ) → (validate_mono1_pixels w h pixels ≡ ok s) ↔ IsMono1 w h s pixels
  validate_mono1_pixels_iff s = (validate_mono1_pixels-IsMono1, IsMono1-validate_mono1_pixels)

-- Of 16-bit dimensions, `validate_gray8_pixels` accepts exactly the images: no dimension is zero, and
-- the length is that of all rows. It returns their stride.
pub validate_gray8_pixels_iff :
    (w h s : ℕ) (pixels : List ℕ)
    → IsU16 w
    → IsU16 h
    → (validate_gray8_pixels w h pixels ≡ ok s) ↔ IsGray8 w h s pixels
unfolding validate_gray8_pixels gray8_stride
validate_gray8_pixels_iff w h s pixels hw hh = (
  λ e. ground (arith, gray8_payload_len-eq w h hw hh),
  λ v. ground (arith, gray8_payload_len-eq w h hw hh),
)
