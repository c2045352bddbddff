-- ===== src/Paperspoon/Sender/Sends.antt =====
-- tools/paperspoon/src/main.rs: what the sender sends for a command, an application frame and a Hello.
use rust_x11_hello.Prelude.{
  ℕ, List, [], ◌∷◌, Bool, true, false, ◌&&◌, not, Option, none, some, Result, ok, err, is_some,
  ◌==◌, if◌then◌else◌,
}
use mathlib.Core.Option
use rust_x11_hello.Protocol.Frame.{mono1, gray8, Mono1Frame, Gray8Frame, mono1_frame, gray8_frame}
use rust_x11_hello.Protocol.Payload.{V2PixelFormats, supports}
use rust_x11_hello.Paperspoon.Server.{FrameTarget, FrameTargetError, frame_target}
use rust_x11_hello.Paperspoon.Sender.{
  Diagnostics, AuthoritativeFrame, application, diagnostic, jpeg, now_playing, FrameSender,
  SentFrame, SentGray, ApplicationSend, sent_application, unchanged, no_connection, HelloFrame,
  SendError, unsupported_format, viewport_unavailable, suppressed, Sending, and_then, same_size,
  frame_dimensions, frame_format, encode_frame, encode_diagnostic, send_locked,
}

unfoldable pub same_pixels : List ℕ → List ℕ → Bool
same_pixels [] [] = true
same_pixels [] (y ∷ ys) = false
same_pixels (x ∷ xs) [] = false
same_pixels (x ∷ xs) (y ∷ ys) = let rest = same_pixels xs ys in (x == y) && rest

-- `Mono1Frame`'s derived equality
unfoldable pub same_frame : Mono1Frame → Mono1Frame → Bool
same_frame a b =
    (a.width == b.width)
    && ((a.height == b.height) && ((a.stride == b.stride) && same_pixels a.pixels b.pixels))

-- `state.last_application_frame.as_ref() == Some(&candidate)`
unfoldable pub is_last : Option Mono1Frame → Mono1Frame → Bool
is_last none candidate = false
is_last (some last) candidate = same_frame last candidate

-- `target.map_err(…)`, where no connection is no error
unfoldable pub target_error : FrameTargetError → Result SendError (Option FrameTarget)
target_error FrameTargetError.no_connection = ok none
target_error FrameTargetError.unsupported_pixel_format = err unsupported_format
target_error FrameTargetError.viewport_unavailable = err viewport_unavailable

unfoldable pub gray_target :
    Result FrameTargetError FrameTarget → Result SendError (Option FrameTarget)
gray_target (ok target) = ok (some target)
gray_target (err e) = target_error e

module _ (diagnostics : Diagnostics) where
  abbrev D : Type 0
  D = diagnostics.DiagnosticFrame

  unfoldable pub send_diagnostic : (ℕ → Bool) → FrameSender D → D → Sending D (Option SentFrame)
  send_diagnostic writes s d =
      send_locked diagnostics writes s (diagnostics.pixel_format d) none
        (encode_diagnostic diagnostics d) (diagnostic d)

  -- `send_jpeg_frame` and `send_now_playing_frame`, which differ in what `made` makes of the frame
  unfoldable pub send_gray_frame :
      (ℕ → Bool)
      → FrameSender D
      → (Gray8Frame → AuthoritativeFrame D)
      → Gray8Frame
      → FrameTarget
      → Sending D (Option SentGray)
  send_gray_frame writes s made frame target =
      and_then
        (send_locked diagnostics writes s gray8 (some target) (encode_frame (gray8_frame frame))
          (made frame))
        λ sent next.
          (ok (Option.map (λ f. record { sent_frame = f; viewport = target.viewport }) sent), next)

  -- Behind the image, which is loaded without the lock
  unfoldable pub send_loaded :
      (ℕ → Bool)
      → FrameSender D
      → (Gray8Frame → AuthoritativeFrame D)
      → FrameTarget
      → Result SendError Gray8Frame
      → Sending D (Option SentGray)
  send_loaded writes s made target (err e) = (err e, s)
  send_loaded writes s made target (ok frame) = send_gray_frame writes s made frame target

  -- The target is `found` before the image is loaded: when that is done, the sender is another, `later`.
  unfoldable pub send_gray :
      (ℕ → Bool)
      → FrameSender D
      → (Gray8Frame → AuthoritativeFrame D)
      → (ℕ → ℕ → Result SendError Gray8Frame)
      → Result SendError (Option FrameTarget)
      → Sending D (Option SentGray)
  send_gray writes later made load (err e) = (err e, later)
  send_gray writes later made load (ok none) = (ok none, later)
  send_gray writes later made load (ok (some target)) =
      send_loaded writes later made target (load target.viewport.0 target.viewport.1)

  -- `send_jpeg`, for an image file that is decoded by `load`
  unfoldable pub send_jpeg :
      (ℕ → Bool)
      → (now later : FrameSender D) → (ℕ → ℕ → Result SendError Gray8Frame)
      → Sending D (Option SentGray)
  send_jpeg writes now later load =
      send_gray writes later jpeg load (gray_target (frame_target now.server gray8))

  -- `send_now_playing_with`
  unfoldable pub send_now_playing :
      (ℕ → Bool)
      → (now later : FrameSender D) → (ℕ → ℕ → Result SendError Gray8Frame)
      → Sending D (Option SentGray)
  send_now_playing writes now later load =
      send_gray writes later now_playing load (gray_target (frame_target now.server gray8))

  -- The authoritative frame is an application frame of this viewport.
  unfoldable pub shows_application : Option (AuthoritativeFrame D) → ℕ × ℕ → Bool
  shows_application none viewport = false
  shows_application (some (application current)) viewport = same_size current viewport
  shows_application (some (diagnostic d)) viewport = false
  shows_application (some (jpeg f)) viewport = false
  shows_application (some (now_playing f)) viewport = false

  -- What is kept of an application frame that was sent
  unfoldable pub application_sent :
      Mono1Frame → Option SentFrame → FrameSender D → Sending D ApplicationSend
  application_sent candidate none s = (ok no_connection, s)
  application_sent candidate (some f) s =
      (ok (sent_application f), record s { last_application_frame = some candidate })

  -- Behind the candidate
  unfoldable pub send_candidate :
      (ℕ → Bool)
      → FrameSender D
      → ℕ × ℕ
      → Bool
      → Result SendError Mono1Frame
      → Sending D ApplicationSend
  send_candidate writes s viewport suppress_unchanged (err e) = (err e, s)
  send_candidate writes s viewport suppress_unchanged (ok candidate) =
      if not (is_some s.server.active)
      then (ok no_connection, s)
      else if suppress_unchanged
          && (shows_application s.authoritative viewport
              && is_last s.last_application_frame candidate)
      then (ok unchanged, s)
      else and_then
          (send_locked diagnostics writes s mono1 none (encode_frame (mono1_frame candidate))
            (application viewport))
          (application_sent candidate)

  -- `send_application_locked`, for a user interface that `render` renders
  unfoldable pub send_application_locked :
      (ℕ → Bool)
      → FrameSender D
      → (ℕ → ℕ → Result SendError Mono1Frame)
      → ℕ × ℕ
      → Bool
      → Sending D ApplicationSend
  send_application_locked writes s render viewport suppress_unchanged =
      send_candidate writes s viewport suppress_unchanged (render viewport.0 viewport.1)

  unfoldable pub send_application :
      (ℕ → Bool)
      → FrameSender D
      → (ℕ → ℕ → Result SendError Mono1Frame)
      → ℕ × ℕ
      → Sending D ApplicationSend
  send_application writes s render viewport = send_application_locked writes s render viewport true

  -- The frame of a send that is not to be suppressed
  unfoldable pub unsuppressed : ApplicationSend → FrameSender D → Sending D (Option SentFrame)
  unsuppressed (sent_application f) s = (ok (some f), s)
  unsuppressed no_connection s = (ok none, s)
  unsuppressed unchanged s = (err suppressed, s)

  unfoldable pub send_application_for_viewport_change :
      (ℕ → Bool)
      → FrameSender D
      → (ℕ → ℕ → Result SendError Mono1Frame)
      → ℕ × ℕ
      → Sending D (Option SentFrame)
  send_application_for_viewport_change writes s render viewport =
      and_then
        (send_application_locked writes (record s { last_application_frame = none }) render viewport
          false)
        unsuppressed

  -- The frame that is retained for a Hello: one of its viewport's size, in a format that it supports
  unfoldable pub retained_frame :
      Option (AuthoritativeFrame D) → ℕ × ℕ → V2PixelFormats → Option (AuthoritativeFrame D)
  retained_frame none viewport formats = none
  retained_frame (some frame) viewport formats =
      if same_size (frame_dimensions diagnostics frame) viewport
        && supports formats (frame_format diagnostics frame)
      then some frame
      else none

  unfoldable pub hello_frame_of : Option (AuthoritativeFrame D) → ℕ × ℕ → AuthoritativeFrame D
  hello_frame_of none viewport = application viewport
  hello_frame_of (some frame) viewport = frame

  -- `match &frame`
  unfoldable pub send_hello_frame :
      (ℕ → Bool)
      → FrameSender D
      → (ℕ → ℕ → Result SendError Mono1Frame)
      → AuthoritativeFrame D
      → Sending D (Option SentFrame)
  send_hello_frame writes s render (application viewport) =
      and_then (send_application_locked writes s render viewport false) unsuppressed
  send_hello_frame writes s render (diagnostic d) =
      send_locked diagnostics writes s (diagnostics.pixel_format d) none
        (encode_diagnostic diagnostics d) (diagnostic d)
  send_hello_frame writes s render (jpeg f) =
      send_locked diagnostics writes s gray8 none (encode_frame (gray8_frame f)) (jpeg f)
  send_hello_frame writes s render (now_playing f) =
      send_locked diagnostics writes s gray8 none (encode_frame (gray8_frame f)) (now_playing f)

  unfoldable pub send_for_hello :
      (ℕ → Bool)
      → FrameSender D
      → (ℕ → ℕ → Result SendError Mono1Frame)
      → ℕ × ℕ
      → V2PixelFormats
      → Sending D (Option (HelloFrame D))
  send_for_hello writes s render viewport formats =
      let retained = retained_frame s.authoritative viewport formats in
      let frame = hello_frame_of retained viewport in
      and_then (send_hello_frame writes s render frame) λ sent next. (
        ok (
            Option.map (λ f. record { sent_frame = f; retained = is_some retained; frame = frame })
              sent),
        next,
      )
