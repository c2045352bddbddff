-- ===== src/Paperspoon/Diagnostic/Tests.antt =====
-- A checkerboard of 9 x 2 pixels.
use rust_x11_hello.Prelude.{◌+◌, ◌≤◌, ◌<◌, ◌≡◌, ℕ, List, arith, ok, err}
use rust_x11_hello.Protocol.Frame.{Frame}
use rust_x11_hello.Protocol.Message.{v2_max_payload_len}
use rust_x11_hello.Protocol.Payload.{frame_payload}
use rust_x11_hello.Protocol.Payload.RoundTrip.{Carries, frame_view}
use rust_x11_hello.Paperspoon.Diagnostic.{
  DiagnosticFrame, checkerboard, encode_diagnostic_frame, payload_too_large, pattern_format,
}
use rust_x11_hello.Paperspoon.Diagnostic.Built.{
  IsDiagnostic, image_len, encode_diagnostic_frame_lem,
}

abbrev board : DiagnosticFrame
board = record { pattern = checkerboard; width = 9; height = 2 }

encode_diagnostic_frame_lem_example :
    (16 + image_len (pattern_format board.pattern) 9 2 ≤ v2_max_payload_len
      → (frame : Frame) × IsDiagnostic board frame
        × ((bytes : List ℕ) × (encode_diagnostic_frame board 1 ≡ ok bytes)
            × Carries bytes (frame_payload (frame_view 1 frame))))
    × (v2_max_payload_len < 16 + image_len (pattern_format board.pattern) 9 2
        → encode_diagnostic_frame board 1 ≡ err payload_too_large)
encode_diagnostic_frame_lem_example =
    encode_diagnostic_frame_lem board 1 (ground arith) (ground arith) (ground arith) (ground arith)
      tt (ground arith)
