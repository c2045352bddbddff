-- ===== src/Paperspoon/Sender.antt =====
-- tools/paperspoon/src/main.rs: the sender of frames, which numbers them and remembers the last one.
pub mod Sends
pub mod Numbered
pub mod Ops
pub mod Trace
pub mod Unchanged
mod Tests
use rust_x11_hello.Prelude.{
  ℕ, ◌+◌, ◌≡◌, ◌^◌, List, [], ◌∷◌, Bool, true, false, ◌&&◌, not, Option, none, some, Result, ok,
  err, ◌>>=◌, map_err, ok_or, is_some, length, ltb, ◌==◌, if◌then◌else◌,
}
use rust_x11_hello.Prelude.Checked.{checked_add}
use rust_x11_hello.Protocol.Frame.{
  PixelFormat, mono1, gray8, Mono1Frame, Gray8Frame, Frame, mono1_frame, gray8_frame,
}
use rust_x11_hello.Protocol.Payload.{V2PixelFormats, supports, encode_v2_frame}
use rust_x11_hello.Paperspoon.Server.{
  Server, FrameTarget, FrameTargetError, FrameForward, ServerError, empty_server, frame_target,
  forward_frame, forward_frame_to,
}

-- What the sender uses of the other producers: diagnostic frames, by their dimensions, format and
-- encoding, and the decoding of an image for a viewport.
pub record Diagnostics : Type 1 where
  pub DiagnosticFrame : Type 0
  pub dimensions : DiagnosticFrame → ℕ × ℕ
  pub pixel_format : DiagnosticFrame → PixelFormat
  pub encode : DiagnosticFrame → ℕ → Option (List ℕ)

pub data AuthoritativeFrame (D : Type 0) : Type 0 where
  application : ℕ × ℕ → AuthoritativeFrame D
  diagnostic : D → AuthoritativeFrame D
  jpeg now_playing : Gray8Frame → AuthoritativeFrame D

-- `FrameSenderState`, with the current connection that the sender forwards to
pub record FrameSender (D : Type 0) : Type 0 where
  pub server : Server
  pub next_frame_id : ℕ
  pub authoritative : Option (AuthoritativeFrame D)
  pub last_application_frame : Option Mono1Frame

pub record SentFrame : Type 0 where
  pub frame_id : ℕ
  pub encoded_len : ℕ
  pub application_viewport : Option (ℕ × ℕ)

-- `SentJpeg` and `SentNowPlaying`
pub record SentGray : Type 0 where
  pub sent_frame : SentFrame
  pub viewport : ℕ × ℕ

pub data ApplicationSend : Type 0 where
  sent_application : SentFrame → ApplicationSend
  unchanged no_connection : ApplicationSend

pub record HelloFrame (D : Type 0) : Type 0 where
  pub sent_frame : SentFrame
  pub retained : Bool
  pub frame : AuthoritativeFrame D

pub data SendError : Type 0 where
  frame_id_exhausted encode_failed write_failed unsupported_format connection_changed
        viewport_changed viewport_unavailable image_failed render_failed suppressed :
      SendError

-- What a method of the sender returns, and what it makes of the sender
abbrev pub Sending : Type 0 → Type 0 → Type 0
Sending D A = Result SendError A × FrameSender D

-- `e?` on it
unfoldable pub and_then :
    {D A B : Type 0} → Sending D A → (A → FrameSender D → Sending D B) → Sending D B
and_then (ok value, s) next = next value s
and_then (err e, s) next = (err e, s)

abbrev pub same_size : ℕ × ℕ → ℕ × ℕ → Bool
same_size a b = (a.0 == b.0) && (a.1 == b.1)

-- `encode_v2_frame(…).map_err(…)`
unfoldable pub encode_frame : Frame → ℕ → Result SendError (List ℕ)
encode_frame frame frame_id = map_err (λ e. encode_failed) (encode_v2_frame frame_id frame)

-- `match target`
unfoldable pub forward :
    (ℕ → Bool)
    → Server
    → List ℕ
    → PixelFormat
    → Option FrameTarget
    → Result ServerError FrameForward × Server
forward writes server bytes format none = forward_frame writes server bytes format
forward writes server bytes format (some target) =
    forward_frame_to writes server bytes format target

-- The next number and the bytes, before anything is written
unfoldable pub encoded_next :
    {D : Type 0} → FrameSender D → (ℕ → Result SendError (List ℕ)) → Result SendError (ℕ × List ℕ)
encoded_next s encode = do
  next ← ok_or frame_id_exhausted (checked_add 64 s.next_frame_id 1)
  bytes ← encode s.next_frame_id
  ok (next, bytes)

module _ (diagnostics : Diagnostics) where
  abbrev D : Type 0
  D = diagnostics.DiagnosticFrame

  unfoldable pub frame_dimensions : AuthoritativeFrame D → ℕ × ℕ
  frame_dimensions (application viewport) = viewport
  frame_dimensions (diagnostic d) = diagnostics.dimensions d
  frame_dimensions (jpeg f) = (f.width, f.height)
  frame_dimensions (now_playing f) = (f.width, f.height)

  unfoldable pub application_viewport_of : AuthoritativeFrame D → Option (ℕ × ℕ)
  application_viewport_of (application viewport) = some viewport
  application_viewport_of (diagnostic d) = none
  application_viewport_of (jpeg f) = none
  application_viewport_of (now_playing f) = none

  unfoldable pub frame_format : AuthoritativeFrame D → PixelFormat
  frame_format (application viewport) = mono1
  frame_format (diagnostic d) = diagnostics.pixel_format d
  frame_format (jpeg f) = gray8
  frame_format (now_playing f) = gray8

  -- `FrameSender::new`
  abbrev pub new_sender : Server → FrameSender D
  new_sender server = record {
    server = server;
    next_frame_id = 1;
    authoritative = none;
    last_application_frame = none;
  }

  unfoldable pub encode_diagnostic : D → ℕ → Result SendError (List ℕ)
  encode_diagnostic d frame_id = ok_or encode_failed (diagnostics.encode d frame_id)

  -- The last application frame, behind a frame that is sent
  unfoldable pub kept_application : AuthoritativeFrame D → Option Mono1Frame → Option Mono1Frame
  kept_application (application viewport) last = last
  kept_application (diagnostic d) last = none
  kept_application (jpeg f) last = none
  kept_application (now_playing f) last = none

  -- What a frame that was forwarded leaves; every caller gives an authoritative frame.
  unfoldable pub advanced :
      FrameSender D
      → ℕ
      → List ℕ
      → AuthoritativeFrame D
      → Result ServerError FrameForward × Server
      → Sending D (Option SentFrame)
  advanced s next bytes frame (err e, server) = (err write_failed, record s { server = server })
  advanced s next bytes frame (ok FrameForward.sent, server) = (
    ok (
        some (record {
          frame_id = s.next_frame_id;
          encoded_len = length bytes;
          application_viewport = application_viewport_of frame;
        })),
    record {
      server = server;
      next_frame_id = next;
      authoritative = some frame;
      last_application_frame = kept_application frame s.last_application_frame;
    },
  )
  advanced s next bytes frame (ok FrameForward.no_connection, server) =
      (ok none, record s { server = server })
  advanced s next bytes frame (ok FrameForward.unsupported_pixel_format, server) =
      (err unsupported_format, record s { server = server })
  advanced s next bytes frame (ok FrameForward.connection_changed, server) =
      (err connection_changed, record s { server = server })
  advanced s next bytes frame (ok FrameForward.viewport_changed, server) =
      (err viewport_changed, record s { server = server })

  unfoldable pub send_encoded :
      (ℕ → Bool)
      → FrameSender D
      → PixelFormat
      → Option FrameTarget
      → AuthoritativeFrame D
      → Result SendError (ℕ × List ℕ)
      → Sending D (Option SentFrame)
  send_encoded writes s format target frame (err e) = (err e, s)
  send_encoded writes s format target frame (ok (next, bytes)) =
      advanced s next bytes frame (forward writes s.server bytes format target)

  unfoldable pub send_locked :
      (ℕ → Bool)
      → FrameSender D
      → PixelFormat
      → Option FrameTarget
      → (ℕ → Result SendError (List ℕ))
      → AuthoritativeFrame D
      → Sending D (Option SentFrame)
  send_locked writes s format target encode frame =
      send_encoded writes s format target frame (encoded_next s encode)
