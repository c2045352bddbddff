-- ===== src/Protocol/Frame/Tests.antt =====
-- Witnesses and tests of the frames, on the images of the crate's own tests.
use rust_x11_hello.Prelude.{none}
use rust_x11_hello.Prelude.{ℕ, ◌≡◌, ◌↔◌, refl, List, [], ◌∷◌, arith, ok, err, some, none}
use rust_x11_hello.Protocol.Frame.{
  Mono1Frame, mono1, mono1_frame, black, white, validate_mono1_pixels, check_padding, mono1_stride,
  mono1_payload_len, checked_mul, padding_mask, new_mono1, new_frame, mono1_pixel,
  non_white_padding, Mono1FrameError,
}
use rust_x11_hello.Protocol.Frame.Validity.{IsMono1, validate_mono1_pixels_iff}

abbrev small_pixels : List ℕ
small_pixels = 0x81 ∷ 0x80 ∷ 0x40 ∷ 0x00 ∷ []

abbrev small : Mono1Frame
small = record { width = 9; height = 2; stride = 2; pixels = small_pixels }

small_valid : validate_mono1_pixels 9 2 small_pixels ≡ ok 2
unfolding validate_mono1_pixels check_padding mono1_stride mono1_payload_len checked_mul
    padding_mask
small_valid = refl

dirty_padding : validate_mono1_pixels 9 2 (0 ∷ 0x80 ∷ 0 ∷ 1 ∷ []) ≡ err (non_white_padding 1 1)
unfolding validate_mono1_pixels check_padding mono1_stride mono1_payload_len checked_mul
    padding_mask
dirty_padding = refl

short_payload :
    validate_mono1_pixels 9 2 (0 ∷ 0 ∷ 0 ∷ []) ≡ err (Mono1FrameError.payload_length 4 3)
unfolding validate_mono1_pixels check_padding mono1_stride mono1_payload_len checked_mul
    padding_mask
short_payload = refl

first_pixels :
    (mono1_pixel small 0 0 ≡ some black)
    × (mono1_pixel small 1 0 ≡ some white)
    × (mono1_pixel small 8 0 ≡ some black)
    × (mono1_pixel small 9 0 ≡ none)
unfolding mono1_pixel
first_pixels = (refl, refl, refl, refl)

validate_mono1_pixels_iff_example :
    (validate_mono1_pixels 9 2 small_pixels ≡ ok 2) ↔ IsMono1 9 2 2 small_pixels
validate_mono1_pixels_iff_example =
    validate_mono1_pixels_iff 9 2 small_pixels (omega arith) (omega arith) (omega arith) 2

small-IsMono1 : IsMono1 9 2 2 small_pixels
small-IsMono1 = validate_mono1_pixels_iff_example.0 small_valid

new_small : new_frame 9 2 mono1 small_pixels ≡ ok (mono1_frame small)
unfolding new_frame new_mono1 validate_mono1_pixels check_padding mono1_stride mono1_payload_len
    checked_mul padding_mask
new_small = refl
