-- ===== src/Paperspoon/Session/Hello.antt =====
-- FrameSender::send_for_hello: whether the frame that it sends shows the application.
use rust_x11_hello.Prelude.{
  ℕ, ◌≡◌, ◌⊎◌, inl, inr, refl, arith, List, Bool, true, false, ◌&&◌, not, is_some, Option, none,
  some, Result, ok, err, if◌then◌else◌,
}
use rust_x11_hello.Protocol.Frame.{PixelFormat, mono1, gray8, Mono1Frame, mono1_frame, gray8_frame}
use rust_x11_hello.Protocol.Payload.{V2PixelFormats, supports}
use rust_x11_hello.Paperspoon.Sender.{
  Diagnostics, AuthoritativeFrame, application, diagnostic, jpeg, now_playing, FrameSender,
  SentFrame, no_connection, SendError, Sending, and_then, same_size, application_viewport_of,
  send_locked, encode_frame, encode_diagnostic, frame_dimensions, frame_format,
}
use rust_x11_hello.Paperspoon.Server.{FrameTarget}
use rust_x11_hello.Paperspoon.Sender.Sends.{
  application_sent, send_candidate, send_application_locked, unsuppressed, retained_frame,
  hello_frame_of, send_hello_frame,
}
use rust_x11_hello.Paperspoon.Sender.Numbered.{Outcome, send_locked-Outcome}

module _ (diagnostics : Diagnostics) where
  abbrev D : Type 0
  D = diagnostics.DiagnosticFrame

  -- What is sent says whether it shows the application, and in which viewport.
  abbrev pub Tells : AuthoritativeFrame D → Sending D (Option SentFrame) → Type 0
  Tells frame (ok (some sent), s) =
      sent.application_viewport ≡ application_viewport_of diagnostics frame
  Tells frame (ok none, s) = Unit {0}
  Tells frame (err e, s) = Unit {0}

  Outcome-Tells :
      (s : FrameSender D) (encode : ℕ → Result SendError (List ℕ)) (frame : AuthoritativeFrame D)
      (r : Sending D (Option SentFrame))
      → Outcome diagnostics s encode frame r
      → Tells frame r
  Outcome-Tells s encode frame (ok (some sent), next) o = o.viewport
  Outcome-Tells s encode frame (ok none, next) o = tt
  Outcome-Tells s encode frame (err e, next) o = tt

  send_locked-Tells :
      (writes : ℕ → Bool) (s : FrameSender D) (format : PixelFormat) (target : Option FrameTarget)
      (encode : ℕ → Result SendError (List ℕ)) (frame : AuthoritativeFrame D)
      → Tells frame (send_locked diagnostics writes s format target encode frame)
  send_locked-Tells writes s format target encode frame =
      Outcome-Tells s encode frame (send_locked diagnostics writes s format target encode frame)
        (send_locked-Outcome diagnostics writes s format target encode frame)

  unsuppressed_sent :
      (frame : AuthoritativeFrame D) (candidate : Mono1Frame) (r : Sending D (Option SentFrame))
      → Tells frame r
      → Tells frame (
          and_then (and_then r (application_sent diagnostics candidate)) (unsuppressed diagnostics))
  unfolding and_then application_sent unsuppressed
  unsuppressed_sent frame candidate (ok (some sent), s) t = t
  unsuppressed_sent frame candidate (ok none, s) t = tt
  unsuppressed_sent frame candidate (err e, s) t = tt

  send_candidate-Tells :
      (writes : ℕ → Bool) (s : FrameSender D) (viewport : ℕ × ℕ)
      (candidate : Result SendError Mono1Frame)
      → Tells (application viewport) (
          and_then
            (send_candidate diagnostics writes s viewport false candidate)
            (unsuppressed diagnostics))
  unfolding send_candidate and_then unsuppressed
  send_candidate-Tells writes s viewport (err e) = tt
  send_candidate-Tells writes s viewport (ok candidate) =
      elim (is_some s.server.active)
        as (λ b. Tells (application viewport) (
          and_then
            (if not b
              then (ok no_connection, s)
              else and_then
                  (send_locked diagnostics writes s mono1 none
                    (encode_frame (mono1_frame candidate)) (application viewport))
                  (application_sent diagnostics candidate))
            (unsuppressed diagnostics))) [
              | false ↦ tt
              | true ↦
                  unsuppressed_sent (application viewport) candidate
                    (send_locked diagnostics writes s mono1 none
                      (encode_frame (mono1_frame candidate)) (application viewport))
                    (send_locked-Tells writes s mono1 none (encode_frame (mono1_frame candidate))
                      (application viewport))
            ]

  pub send_hello_frame-Tells :
      (writes : ℕ → Bool) (s : FrameSender D) (render : ℕ → ℕ → Result SendError Mono1Frame)
      (frame : AuthoritativeFrame D)
      → Tells frame (send_hello_frame diagnostics writes s render frame)
  unfolding send_hello_frame send_application_locked
  send_hello_frame-Tells writes s render (application viewport) =
      send_candidate-Tells writes s viewport (render viewport.0 viewport.1)
  send_hello_frame-Tells writes s render (diagnostic d) =
      send_locked-Tells writes s (diagnostics.pixel_format d) none (encode_diagnostic diagnostics d)
        (diagnostic d)
  send_hello_frame-Tells writes s render (jpeg f) =
      send_locked-Tells writes s gray8 none (encode_frame (gray8_frame f)) (jpeg f)
  send_hello_frame-Tells writes s render (now_playing f) =
      send_locked-Tells writes s gray8 none (encode_frame (gray8_frame f)) (now_playing f)

  -- The frame shows the application in this viewport, or something else.
  abbrev pub ShowsAt : ℕ × ℕ → AuthoritativeFrame D → Type 0
  ShowsAt viewport frame =
      (application_viewport_of diagnostics frame ≡ none)
      ⊎ (application_viewport_of diagnostics frame ≡ some viewport)

  hello_kept :
      (b : Bool) (frame : AuthoritativeFrame D) (viewport : ℕ × ℕ)
      → (b ≡ true → ShowsAt viewport frame)
      → ShowsAt viewport (hello_frame_of diagnostics (if b then some frame else none) viewport)
  unfolding hello_frame_of application_viewport_of
  hello_kept true frame viewport shows = shows refl
  hello_kept false frame viewport shows = inr refl

  same_viewport :
      (v viewport : ℕ × ℕ) (b : Bool) → (same_size v viewport && b) ≡ true → some v ≡ some viewport
  same_viewport v viewport b e = ground (arith, e)

  pub hello_frame-ShowsAt :
      (retained : Option (AuthoritativeFrame D)) (viewport : ℕ × ℕ) (formats : V2PixelFormats)
      → ShowsAt viewport (
          hello_frame_of diagnostics
            (retained_frame diagnostics retained viewport formats)
            viewport)
  unfolding retained_frame hello_frame_of application_viewport_of frame_dimensions
  hello_frame-ShowsAt none viewport formats = inr refl
  hello_frame-ShowsAt (some frame) viewport formats =
      hello_kept
        (same_size (frame_dimensions diagnostics frame) viewport
          && supports formats (frame_format diagnostics frame))
        frame viewport (shows frame)
    where
      shows :
          (frame : AuthoritativeFrame D)
          → (same_size (frame_dimensions diagnostics frame) viewport
              && supports formats (frame_format diagnostics frame))
            ≡ true
          → ShowsAt viewport frame
      shows (application v) e =
          inr (
            same_viewport v viewport (supports formats (frame_format diagnostics (application v)))
              e)
      shows (diagnostic d) e = inl refl
      shows (jpeg f) e = inl refl
      shows (now_playing f) e = inl refl
