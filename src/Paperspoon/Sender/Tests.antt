-- ===== src/Paperspoon/Sender/Tests.antt =====
-- A sender whose diagnostic frames are frames, a connection, and some frames sent to it.
use rust_x11_hello.Prelude.{
  ℕ, ◌≡◌, ◌≢◌, ◌↔◌, arith, List, [], ◌∷◌, true, false, Option, none, some, Result, ok, err,
  Result-cases, inl, inr,
}
use rust_x11_hello.Protocol.Frame.{
  Mono1Frame, Frame, gray8_frame, frame_width, frame_height, frame_pixel_format,
}
use rust_x11_hello.Protocol.Payload.{encode_v2_frame}
use rust_x11_hello.Paperspoon.Sender.{Diagnostics, SendError, unchanged}
use rust_x11_hello.Paperspoon.Sender.Sends.{send_application, send_application_locked}
use rust_x11_hello.Paperspoon.Sender.Ops.{IsEncoder, IsSender, IsLast}
use rust_x11_hello.Paperspoon.Sender.Trace.{
  SenderOp, connect, show_diagnostic, show_application, sender_after, sender_after-IsSender,
}
use rust_x11_hello.Paperspoon.Sender.Unchanged.{Suppresses, send_application_iff}

abbrev to_option : {A : Type 0} {E : Type 0} → Result E A → Option A
to_option (ok a) = some a
to_option (err e) = none

abbrev frames : Diagnostics
frames = record {
  DiagnosticFrame = Frame;
  dimensions = λ f. (frame_width f, frame_height f);
  pixel_format = frame_pixel_format;
  encode = λ f id. to_option (encode_v2_frame id f);
}

frames-IsEncoder : IsEncoder frames
frames-IsEncoder d frame_id bytes e = elim (Result-cases (encode_v2_frame frame_id d)) [
  | inl (made, done) ↦ (d, ground (arith, done, e))
  | inr (reason, failed) ↦ absurd (ground (arith, failed, e))
]

abbrev dot : Mono1Frame
dot = record { width = 1; height = 1; stride = 1; pixels = 128 ∷ [] }

abbrev grey : Frame
grey = gray8_frame (record { width = 1; height = 1; stride = 1; pixels = 7 ∷ [] })

abbrev render : ℕ → ℕ → Result SendError Mono1Frame
render width height = ok dot

abbrev ops : List (SenderOp Frame)
ops =
    show_application (λ socket. true) render (1, 1)
    ∷ show_diagnostic (λ socket. true) grey
    ∷ connect true 4 (record { mask = 3 }) (1, 1)
    ∷ []

sender_after-IsSender_example : IsSender frames frames-IsEncoder (sender_after frames ops)
sender_after-IsSender_example = sender_after-IsSender frames frames-IsEncoder ops

send_application_iff_example :
    (((send_application frames (λ socket. true) (sender_after frames ops) render (1, 1)).0
        ≡ ok unchanged)
      ↔ ((c : Mono1Frame) × Suppresses frames (sender_after frames ops) render (1, 1) c))
    × ((c : Mono1Frame)
        → (sender_after frames ops).last_application_frame ≡ some c
        → IsLast frames frames-IsEncoder c (sender_after frames ops))
    × ((send_application_locked frames
          (λ socket. true)
          (sender_after frames ops)
          render
          (1, 1)
          false).0
        ≢ ok unchanged)
send_application_iff_example =
    send_application_iff frames frames-IsEncoder ops (λ socket. true) render (1, 1)
