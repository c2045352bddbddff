-- ===== src/Protocol/Payload/Formats.antt =====
-- The sets of pixel formats that a peer can advertise.
use Prim.Native.Nat.{bit_and}
use rust_x11_hello.Prelude.{
  ℕ, ok, List, All, get_or, if◌then◌else◌, ◌*◌, ◌/◌, ◌%◌, ◌≡◌, refl, ◌↔◌, ◌⊎◌, inl, inr, Bool, true,
  false, ◌||◌, some, arith, not, ◌==◌, ◌&&◌,
}
use rust_x11_hello.Prelude.Bits.{holds_under, byte_table}
use rust_x11_hello.Prelude.Bytes.{IsU8, IsU8-get_or}
use rust_x11_hello.Protocol.Frame.{PixelFormat, mono1, gray8}
use rust_x11_hello.Protocol.Payload.{
  V2PixelFormats, only, with_format, supports, from_mask, decode_hello, V2Hello,
}

abbrev pub same_format : PixelFormat → PixelFormat → Bool
same_format mono1 mono1 = true
same_format gray8 gray8 = true
same_format _ _ = false

-- The sets that can be built: those that `new` and `with` make.
pub data IsFormats : V2PixelFormats → Type 0 where
  one : (f : PixelFormat) → IsFormats (only f)
  more : {s : V2PixelFormats} (f : PixelFormat) → IsFormats s → IsFormats (with_format s f)

abbrev known_mask : ℕ → Bool
known_mask m = (m == 1) || ((m == 2) || (m == 3))

abbrev mask_agrees : ℕ → ℕ → Bool
mask_agrees _ m = if not (m == 0) && (bit_and m 252 == 0) then known_mask m else not (known_mask m)

mask_table : holds_under (1 * 256) (λ i. mask_agrees (i / 256) (i % 256)) ≡ true
unfolding holds_under
mask_table = refl

-- `from_mask` accepts, of all bytes, exactly the three masks of a non-empty set of known formats.
pub from_mask_iff :
    (m : ℕ) → IsU8 m → (from_mask m ≡ some (record { mask = m })) ↔ ((m ≡ 1) ⊎ (m ≡ 2) ⊎ (m ≡ 3))
unfolding from_mask
from_mask_iff m h = (
  λ e. ground (arith, byte_table 1 mask_agrees 0 m mask_table),
  λ k. ground (arith, byte_table 1 mask_agrees 0 m mask_table),
)

masks : {s : V2PixelFormats} → IsFormats s → (s.mask ≡ 1) ⊎ (s.mask ≡ 2) ⊎ (s.mask ≡ 3)
unfolding only with_format
masks (one mono1) = inl refl
masks (one gray8) = inr (inl refl)
masks (more mono1 k) = ground (arith, masks k)
masks (more gray8 k) = ground (arith, masks k)

from_mask-known : (m : ℕ) → (m ≡ 1) ⊎ (m ≡ 2) ⊎ (m ≡ 3) → from_mask m ≡ some (record { mask = m })
unfolding from_mask
from_mask-known m (inl e) = rw e
from_mask-known m (inr (inl e)) = rw e
from_mask-known m (inr (inr e)) = rw e

supports-only : (f g : PixelFormat) → supports (only f) g ≡ same_format f g
unfolding supports only
supports-only mono1 mono1 = refl
supports-only mono1 gray8 = refl
supports-only gray8 mono1 = refl
supports-only gray8 gray8 = refl

abbrev AddsFormat : ℕ → PixelFormat → PixelFormat → Type 0
AddsFormat m f g =
    supports (with_format (record { mask = m }) f) g
    ≡ (supports (record { mask = m }) g || same_format f g)

adds_table : (f g : PixelFormat) → AddsFormat 1 f g × AddsFormat 2 f g × AddsFormat 3 f g
unfolding supports with_format
adds_table mono1 mono1 = (refl, refl, refl)
adds_table mono1 gray8 = (refl, refl, refl)
adds_table gray8 mono1 = (refl, refl, refl)
adds_table gray8 gray8 = (refl, refl, refl)

supports-with_format :
    (m : ℕ) → (m ≡ 1) ⊎ (m ≡ 2) ⊎ (m ≡ 3) → (f g : PixelFormat) → AddsFormat m f g
supports-with_format m (inl e) f g = rw e (adds_table f g).0
supports-with_format m (inr (inl e)) f g = rw e (adds_table f g).1
supports-with_format m (inr (inr e)) f g = rw e (adds_table f g).2

-- Every set that `new` and `with` build passes `from_mask`; adding a format adds support for it
-- and for nothing else, and a set of one format supports that one only.
pub IsFormats_lem :
    {s : V2PixelFormats}
    → IsFormats s
    → (from_mask s.mask ≡ some s)
      × ((f g : PixelFormat) → supports (only f) g ≡ same_format f g)
      × ((f g : PixelFormat) → supports (with_format s f) g ≡ (supports s g || same_format f g))
IsFormats_lem {s} k =
    (from_mask-known s.mask (masks k), supports-only, supports-with_format s.mask (masks k))

supports_some :
    (m : ℕ)
    → (m ≡ 1) ⊎ (m ≡ 2) ⊎ (m ≡ 3)
    → (supports (record { mask = m }) mono1 || supports (record { mask = m }) gray8) ≡ true
unfolding supports
supports_some m (inl e) = rw e
supports_some m (inr (inl e)) = rw e
supports_some m (inr (inr e)) = rw e

-- The mask of a decoded Hello is byte 1 of its payload, which passed the test.
decode_hello-mask :
    (payload : List ℕ) {h : V2Hello}
    → decode_hello payload ≡ ok h
    → (from_mask (get_or payload 1 0) ≡ some (record { mask = get_or payload 1 0 }))
      × (h.pixel_formats ≡ record { mask = get_or payload 1 0 })
unfolding decode_hello from_mask
decode_hello-mask payload e = (ground arith, ground arith)

-- A decoded Hello advertises at least one format.
pub decode_hello-supports :
    (payload : List ℕ) {h : V2Hello}
    → All IsU8 payload
    → decode_hello payload ≡ ok h
    → (supports h.pixel_formats mono1 || supports h.pixel_formats gray8) ≡ true
decode_hello-supports payload {h} bytes e =
    let m = get_or payload 1 0 in
    let (known, same) = decode_hello-mask payload e in
    rw same (supports_some m ((from_mask_iff m (IsU8-get_or payload 1 bytes)).0 known))
