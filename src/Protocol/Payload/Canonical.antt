-- ===== src/Protocol/Payload/Canonical.antt =====
-- What the typed decoder accepts is what the encoders write.
use rust_x11_hello.Prelude.{
  ℕ, All-drop, ◌≡◌, ◌∙◌, refl, List, [], ◌∷◌, ◌++◌, arith, ok, All, inl, inr, Result-cases, ap,
}
use rust_x11_hello.Prelude.Bytes.{IsU8, IsU16, to_be16-from_be, to_be64-from_be, to_be64, to_be16}
use rust_x11_hello.Protocol.Message.{hello, viewport_changed, frame, encode_v2_message}
use rust_x11_hello.Protocol.Frame.{
  Frame, PixelFormat, mono1, gray8, frame_stride, mono1_frame, gray8_frame, new_frame, new_mono1,
  new_gray8,
}
use rust_x11_hello.Protocol.Frame.Validity.{validate_mono1_pixels_iff, validate_gray8_pixels_iff}
use rust_x11_hello.Protocol.Frame.Owned.{IsImage, IsFrame, new_frame-IsFrame}
use rust_x11_hello.Protocol.Payload.{
  V2Hello, V2Pointer, V2Viewport, V2PointerPhase, V2FramePayload, encode_hello, encode_pointer,
  encode_viewport, encode_v2_frame, frame_prefix, pixel_format_value, decode_hello, decode_pointer,
  decode_viewport, decode_frame, decode_pixel_format, validate_pixels, from_mask,
  phase_message_type, to_owned_frame,
}
use rust_x11_hello.Protocol.Payload.RoundTrip.{frame_view, encode_v2_frame-eq-encode_v2_message}

-- An accepted Hello payload of bytes is what the encoder writes for the Hello that it was decoded to.
pub encode-decode_hello :
    (payload : List ℕ) {h : V2Hello}
    → All IsU8 payload
    → decode_hello payload ≡ ok h
    → encode_hello h ≡ encode_v2_message hello payload
unfolding decode_hello encode_hello from_mask
encode-decode_hello (v ∷ m ∷ r ∷ q ∷ a ∷ b ∷ c ∷ d ∷ []) {h} bytes e =
    ground (arith, to_be16-from_be a b, to_be16-from_be c d)
encode-decode_hello _ bytes e = absurd (ground arith)

pub encode-decode_pointer :
    (phase : V2PointerPhase) (payload : List ℕ) {p : V2Pointer}
    → All IsU8 payload
    → decode_pointer phase payload ≡ ok p
    → encode_pointer p ≡ encode_v2_message (phase_message_type phase) payload
unfolding decode_pointer encode_pointer
encode-decode_pointer phase (a ∷ b ∷ c ∷ d ∷ []) bytes e =
    ground (arith, to_be16-from_be a b, to_be16-from_be c d)
encode-decode_pointer phase _ bytes e = absurd (ground arith)

pub encode-decode_viewport :
    (payload : List ℕ) {v : V2Viewport}
    → All IsU8 payload
    → decode_viewport payload ≡ ok v
    → encode_viewport v ≡ encode_v2_message viewport_changed payload
unfolding decode_viewport encode_viewport
encode-decode_viewport (a ∷ b ∷ c ∷ d ∷ []) bytes e =
    ground (arith, to_be16-from_be a b, to_be16-from_be c d)
encode-decode_viewport _ bytes e = absurd (ground arith)

pixel_format_value-decode :
    (v : ℕ) (p : PixelFormat) → decode_pixel_format v ≡ ok p → pixel_format_value p ≡ v
unfolding decode_pixel_format pixel_format_value
pixel_format_value-decode v mono1 e = ground arith
pixel_format_value-decode v gray8 e = ground arith

-- What `validate_pixels` accepts is a valid image in its format.
pub validate_pixels-IsImage :
    (p : PixelFormat) (w h : ℕ) (pixels : List ℕ) {s : ℕ}
    → IsU16 w
    → IsU16 h
    → All IsU8 pixels
    → validate_pixels p w h pixels ≡ ok s
    → IsImage p w h s pixels
unfolding validate_pixels
validate_pixels-IsImage mono1 w h pixels {s} hw hh bytes e =
    (validate_mono1_pixels_iff w h pixels hw hh bytes s).0 (ground arith)
validate_pixels-IsImage gray8 w h pixels {s} hw hh bytes e =
    (validate_gray8_pixels_iff w h s pixels hw hh).0 (ground arith)

-- Validated pixels make an owned frame, of the stride that the validation returned.
validate_pixels-new_frame :
    (p : PixelFormat) (w h : ℕ) (pixels : List ℕ) {s : ℕ}
    → validate_pixels p w h pixels ≡ ok s
    → (f : Frame) × (new_frame w h p pixels ≡ ok f) × (frame_stride f ≡ s)
unfolding validate_pixels new_frame new_mono1 new_gray8 frame_stride
validate_pixels-new_frame mono1 w h pixels {s} e = (
  mono1_frame (record { width = w; height = h; stride = s; pixels = pixels }),
  ground arith,
  refl,
)
validate_pixels-new_frame gray8 w h pixels {s} e = (
  gray8_frame (record { width = w; height = h; stride = s; pixels = pixels }),
  ground arith,
  refl,
)

-- The metadata that `decode_frame` read is what `frame_prefix` writes.
pub decode_frame_inv :
    (payload : List ℕ) {p : V2FramePayload}
    → All IsU8 payload
    → decode_frame payload ≡ ok p
    → (validate_pixels p.pixel_format p.width p.height p.pixels ≡ ok p.stride)
      × IsU16 p.width
      × IsU16 p.height
      × All IsU8 p.pixels
      × (payload
          ≡ to_be64 p.frame_id
            ++ (to_be16 p.width
                ++ (to_be16 p.height
                    ++ (pixel_format_value p.pixel_format ∷ 0 ∷ 0 ∷ 0 ∷ p.pixels))))
unfolding decode_frame
decode_frame_inv (a ∷ b ∷ c ∷ d ∷ e ∷ f ∷ g ∷ h ∷ w ∷ v ∷ k ∷ l ∷ t ∷ x ∷ y ∷ z ∷ rest) {p} bytes
      eq =
    elim (Result-cases (decode_pixel_format t)) [
      | inl (format, known) ↦ (
        ground (arith, known),
        ground (arith, known),
        ground (arith, known),
        (let same : p.pixels ≡ rest = ground (arith, known) in
            rw same (
              All-drop IsU8 16
                (a ∷ b ∷ c ∷ d ∷ e ∷ f ∷ g ∷ h ∷ w ∷ v ∷ k ∷ l ∷ t ∷ x ∷ y ∷ z ∷ rest) bytes)),
        ground (
          arith,
          known,
          pixel_format_value-decode t format known,
          to_be16-from_be w v,
          to_be16-from_be k l,
          to_be64-from_be a b c d e f g h,
        ),
      )
      | inr (er, unknown) ↦ absurd (ground (arith, unknown))
    ]
decode_frame_inv _ bytes eq = absurd (ground arith)

-- An accepted Frame payload of bytes owns a valid frame: `to_owned_frame` returns it, the payload
-- shows that frame, and encoding the frame under the same id writes the payload's message again.
pub encode-decode_frame :
    (payload : List ℕ) {p : V2FramePayload}
    → All IsU8 payload
    → decode_frame payload ≡ ok p
    → (f : Frame) × (to_owned_frame p ≡ ok f)
      × IsFrame f
      × (p ≡ frame_view p.frame_id f)
      × (encode_v2_frame p.frame_id f ≡ encode_v2_message frame payload)
unfolding to_owned_frame frame_prefix
encode-decode_frame payload {p} bytes e =
    let (valid, hw, hh, pixels, written) = decode_frame_inv payload bytes e in
    let (f, made, stride) =
      validate_pixels-new_frame p.pixel_format p.width p.height p.pixels valid in
    let (v, ew, eh, ef, ep) =
      new_frame-IsFrame p.width p.height p.pixel_format p.pixels hw hh pixels made in
    (
      f,
      made,
      v,
      cc (stride, ew, eh, ef, ep),
      encode_v2_frame-eq-encode_v2_message p.frame_id f v
          ∙ ap (encode_v2_message frame) (cc (written, ew, eh, ef, ep)),
    )
