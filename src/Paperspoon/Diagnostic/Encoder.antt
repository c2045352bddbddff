-- ===== src/Paperspoon/Diagnostic/Encoder.antt =====
-- The diagnostic frames are what the sender of PaperSpoon takes for them.
use rust_x11_hello.Prelude.{
  ℕ, ◌≡◌, arith, List, Option, none, some, Result, ok, err, Result-cases, inl, inr, map_err, ok_or,
  guard, leb, >>=-eq-ok,
}
use rust_x11_hello.Prelude.Checked.{checked_add}
use rust_x11_hello.Protocol.Message.{v2_max_payload_len}
use rust_x11_hello.Protocol.Frame.{Frame}
use rust_x11_hello.Protocol.Payload.{encode_v2_frame, v2_frame_prefix_len}
use rust_x11_hello.Paperspoon.Diagnostic.{
  DiagnosticFrame, pattern_format, encode_diagnostic_frame, encode_failed, build_frame,
  diagnostic_payload_len, dimensions_overflow, payload_too_large,
}
use rust_x11_hello.Paperspoon.Sender.{Diagnostics}
use rust_x11_hello.Paperspoon.Sender.Ops.{IsEncoder}

abbrev succeeded : {A : Type 0} {E : Type 0} → Result E A → Option A
succeeded (ok a) = some a
succeeded (err e) = none

abbrev pub diagnostic_frames : Diagnostics
diagnostic_frames = record {
  DiagnosticFrame = DiagnosticFrame;
  dimensions = λ d. (d.width, d.height);
  pixel_format = λ d. pattern_format d.pattern;
  encode = λ d frame_id. succeeded (encode_diagnostic_frame d frame_id);
}

mapped : {E A : Type 0} (r : Result E A) {a : A} → map_err (λ e. encode_failed) r ≡ ok a → r ≡ ok a
mapped (ok a) e = ground (arith, e)
mapped (err x) e = absurd (ground (arith, e))

encoded_frame :
    (d : DiagnosticFrame) (frame_id : ℕ) {bytes : List ℕ}
    → encode_diagnostic_frame d frame_id ≡ ok bytes
    → (frame : Frame) × (encode_v2_frame frame_id frame ≡ ok bytes)
unfolding encode_diagnostic_frame
encoded_frame d frame_id e =
    let (pixel_bytes, _, e1) =
      >>=-eq-ok
        (ok_or dimensions_overflow
          (diagnostic_payload_len (pattern_format d.pattern) d.width d.height))
        _ e in
    let (payload_bytes, _, e2) =
      >>=-eq-ok (ok_or dimensions_overflow (checked_add 32 v2_frame_prefix_len pixel_bytes)) _ e1 in
    let (fits, _, e3) =
      >>=-eq-ok (guard (leb payload_bytes v2_max_payload_len) payload_too_large) _ e2 in
    let (frame, _, e4) = >>=-eq-ok (build_frame d (pattern_format d.pattern) pixel_bytes) _ e3 in
    (frame, mapped (encode_v2_frame frame_id frame) e4)

-- What is sent for a diagnostic frame is a frame under the number that it is given.
pub diagnostic_frames-IsEncoder : IsEncoder diagnostic_frames
diagnostic_frames-IsEncoder d frame_id bytes e =
    elim (Result-cases (encode_diagnostic_frame d frame_id)) [
      | inl (made, done) ↦ encoded_frame d frame_id (ground (arith, done, e))
      | inr (reason, failed) ↦ absurd (ground (arith, failed, e))
    ]
