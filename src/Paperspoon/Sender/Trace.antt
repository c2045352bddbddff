-- ===== src/Paperspoon/Sender/Trace.antt =====
-- Every operation of the sender and of the connection keeps the numbering.
use rust_x11_hello.Prelude.{
  ℕ, ◌≡◌, refl, arith, List, [], ◌∷◌, Bool, true, false, Option, none, some, Result, ok, err, not,
  is_some, ◌&&◌, if◌then◌else◌,
}
use rust_x11_hello.Protocol.Frame.{
  PixelFormat, mono1, gray8, Mono1Frame, Gray8Frame, mono1_frame, gray8_frame,
}
use rust_x11_hello.Protocol.Payload.{V2PixelFormats}
use rust_x11_hello.Paperspoon.Server.{
  Server, FrameTarget, empty_server, install, install_for_hello, update_viewport_if_current,
  clear_if_current,
}
use rust_x11_hello.Paperspoon.Sender.{
  Diagnostics, AuthoritativeFrame, application, diagnostic, jpeg, now_playing, FrameSender,
  ApplicationSend, sent_application, unchanged, no_connection, SendError, Sending, and_then,
  encode_frame, encode_diagnostic, send_locked, new_sender, kept_application,
}
use rust_x11_hello.Paperspoon.Sender.Sends.{
  send_diagnostic, send_gray_frame, send_candidate, send_application_locked, send_application,
  send_application_for_viewport_change, unsuppressed, send_hello_frame, send_for_hello,
  retained_frame, hello_frame_of, shows_application, is_last,
}
use rust_x11_hello.Paperspoon.Sender.Numbered.{nothing, send_locked-Outcome}
use rust_x11_hello.Paperspoon.Sender.Ops.{
  IsEncoder, IsSender, unsent-IsSender, other_sent, application_sent-IsSender,
  encode_frame-IsNumberedFrame, encode_diagnostic-IsNumberedFrame,
}

-- What the threads of PaperSpoon do: the first three to the connection, the others with the sender.
-- A Jpeg or Now Playing frame comes with the target that was found before it was made.
pub data SenderOp (D : Type 0) : Type 0 where
  connect : Bool → ℕ → V2PixelFormats → ℕ × ℕ → SenderOp D
  resize : ℕ → ℕ × ℕ → SenderOp D
  clear : ℕ → SenderOp D
  show_diagnostic : (ℕ → Bool) → D → SenderOp D
  show_jpeg show_now_playing : (ℕ → Bool) → Gray8Frame → FrameTarget → SenderOp D
  show_application change_viewport :
      (ℕ → Bool) → (ℕ → ℕ → Result SendError Mono1Frame) → ℕ × ℕ → SenderOp D
  say_hello :
      (ℕ → Bool) → (ℕ → ℕ → Result SendError Mono1Frame) → ℕ × ℕ → V2PixelFormats → SenderOp D

module _ (diagnostics : Diagnostics) where
  abbrev D : Type 0
  D = diagnostics.DiagnosticFrame

  unfoldable pub sender_step : FrameSender D → SenderOp D → FrameSender D
  sender_step s (connect cloned stream formats viewport) = record s {
    server = (install_for_hello cloned s.server stream formats viewport).1;
  }
  sender_step s (resize token viewport) = record s {
    server = (update_viewport_if_current s.server token viewport).1;
  }
  sender_step s (clear token) = record s { server = (clear_if_current s.server token).1 }
  sender_step s (show_diagnostic writes d) = (send_diagnostic diagnostics writes s d).1
  sender_step s (show_jpeg writes f target) = (send_gray_frame diagnostics writes s jpeg f target).1
  sender_step s (show_now_playing writes f target) =
      (send_gray_frame diagnostics writes s now_playing f target).1
  sender_step s (show_application writes render viewport) =
      (send_application diagnostics writes s render viewport).1
  sender_step s (change_viewport writes render viewport) =
      (send_application_for_viewport_change diagnostics writes s render viewport).1
  sender_step s (say_hello writes render viewport formats) =
      (send_for_hello diagnostics writes s render viewport formats).1

  -- After the operations of a list, the latest one first
  unfoldable pub sender_after : List (SenderOp D) → FrameSender D
  sender_after [] = new_sender diagnostics empty_server
  sender_after (op ∷ earlier) = sender_step (sender_after earlier) op

  unsuppressed-sender :
      (a : ApplicationSend) (s : FrameSender D) → (unsuppressed diagnostics a s).1 ≡ s
  unfolding unsuppressed
  unsuppressed-sender (sent_application f) s = refl
  unsuppressed-sender no_connection s = refl
  unsuppressed-sender unchanged s = refl

  connection-sent :
      (server : Server) (cloned : Bool) (stream : ℕ) (formats : V2PixelFormats) (viewport : ℕ × ℕ)
      → (install_for_hello cloned server stream formats viewport).1.sent ≡ server.sent
  unfolding install_for_hello install
  connection-sent server true stream formats viewport = refl
  connection-sent server false stream formats viewport = refl

  resize-sent :
      (server : Server) (token : ℕ) (viewport : ℕ × ℕ)
      → (update_viewport_if_current server token viewport).1.sent ≡ server.sent
  unfolding update_viewport_if_current
  resize-sent server token viewport = ground arith

  clear-sent : (server : Server) (token : ℕ) → (clear_if_current server token).1.sent ≡ server.sent
  unfolding clear_if_current
  clear-sent server token = ground arith

  module _ (encoder : IsEncoder diagnostics) where
    abbrev Holds : FrameSender D → Type 0
    Holds s = IsSender diagnostics encoder s

    either :
        {A : Type 0} (b : Bool) (x y : Sending D A)
        → Holds x.1
        → Holds y.1
        → Holds (if b then x else y).1
    either true x y hx hy = hx
    either false x y hx hy = hy

    -- A step of `and_then` that leaves the sender alone
    through :
        {A B : Type 0} (r : Sending D A) (next : A → FrameSender D → Sending D B)
        → ((a : A) (s : FrameSender D) → (next a s).1 ≡ s)
        → Holds r.1
        → Holds (and_then r next).1
    unfolding and_then
    through (ok a, s) next same v = rw (same a s) v
    through (err e, s) next same v = v

    reconnected :
        (s : FrameSender D) (server : Server)
        → server.sent ≡ s.server.sent
        → Holds s
        → Holds (record s { server = server })
    reconnected s server e v =
        unsent-IsSender diagnostics encoder s (record s { server = server }) v
          (record { wire = e; next = refl; authoritative = refl; last = refl })

    candidate-IsSender :
        (writes : ℕ → Bool) (s : FrameSender D) (viewport : ℕ × ℕ) (b : Bool)
        (candidate : Result SendError Mono1Frame)
        → Holds s
        → Holds (send_candidate diagnostics writes s viewport b candidate).1
    unfolding send_candidate
    candidate-IsSender writes s viewport b (err e) v = v
    candidate-IsSender writes s viewport b (ok c) v = either (not (is_some s.server.active)) _ _ v (
        either
          (b
            && (shows_application diagnostics s.authoritative viewport
                && is_last s.last_application_frame c))
          _ _ v
          (application_sent-IsSender diagnostics encoder s c viewport _ v (
            send_locked-Outcome diagnostics writes s mono1 none (encode_frame (mono1_frame c))
              (application viewport))))

    locked-IsSender :
        (writes : ℕ → Bool) (s : FrameSender D) (format : PixelFormat) (target : Option FrameTarget)
        (frame : AuthoritativeFrame D) (f : Gray8Frame)
        → ((last : Option Mono1Frame) → kept_application diagnostics frame last ≡ none)
        → Holds s
        → Holds
            (send_locked diagnostics writes s format target (encode_frame (gray8_frame f)) frame).1
    locked-IsSender writes s format target frame f drops v =
        other_sent diagnostics encoder s (encode_frame (gray8_frame f)) frame _
          (λ id bytes e. (gray8_frame f, encode_frame-IsNumberedFrame (gray8_frame f) id bytes e))
          drops v
          (send_locked-Outcome diagnostics writes s format target (encode_frame (gray8_frame f))
            frame)

    diagnostic-IsSender :
        (writes : ℕ → Bool) (s : FrameSender D) (d : D)
        → Holds s
        → Holds (send_diagnostic diagnostics writes s d).1
    unfolding send_diagnostic kept_application
    diagnostic-IsSender writes s d v =
        other_sent diagnostics encoder s (encode_diagnostic diagnostics d) (diagnostic d) _
          (encode_diagnostic-IsNumberedFrame diagnostics encoder d) (λ last. refl) v
          (send_locked-Outcome diagnostics writes s (diagnostics.pixel_format d) none
            (encode_diagnostic diagnostics d) (diagnostic d))

    -- The frame that a viewport change forgets
    forgotten : (s : FrameSender D) → Holds s → Holds (record s { last_application_frame = none })
    forgotten s v = record { numbered = v.numbered; last = λ f e. absurd (ground arith) }

    hello_frame-IsSender :
        (writes : ℕ → Bool) (s : FrameSender D) (render : ℕ → ℕ → Result SendError Mono1Frame)
        (frame : AuthoritativeFrame D)
        → Holds s
        → Holds (send_hello_frame diagnostics writes s render frame).1
    unfolding send_hello_frame send_application_locked kept_application send_diagnostic
    hello_frame-IsSender writes s render (application viewport) v =
        through (send_application_locked diagnostics writes s render viewport false)
          (unsuppressed diagnostics) unsuppressed-sender
          (candidate-IsSender writes s viewport false (render viewport.0 viewport.1) v)
    hello_frame-IsSender writes s render (diagnostic d) v = diagnostic-IsSender writes s d v
    hello_frame-IsSender writes s render (jpeg f) v =
        locked-IsSender writes s gray8 none (jpeg f) f (λ last. refl) v
    hello_frame-IsSender writes s render (now_playing f) v =
        locked-IsSender writes s gray8 none (now_playing f) f (λ last. refl) v

    sender_step-IsSender :
        (s : FrameSender D) (op : SenderOp D) → Holds s → Holds (sender_step s op)
    unfolding sender_step send_gray_frame send_application send_application_locked
        send_application_for_viewport_change send_for_hello kept_application
    sender_step-IsSender s (connect cloned stream formats viewport) v =
        reconnected s _ (connection-sent s.server cloned stream formats viewport) v
    sender_step-IsSender s (resize token viewport) v =
        reconnected s _ (resize-sent s.server token viewport) v
    sender_step-IsSender s (clear token) v = reconnected s _ (clear-sent s.server token) v
    sender_step-IsSender s (show_diagnostic writes d) v = diagnostic-IsSender writes s d v
    sender_step-IsSender s (show_jpeg writes f target) v =
        through _ _ (λ a s. refl)
          (locked-IsSender writes s gray8 (some target) (jpeg f) f (λ last. refl) v)
    sender_step-IsSender s (show_now_playing writes f target) v =
        through _ _ (λ a s. refl)
          (locked-IsSender writes s gray8 (some target) (now_playing f) f (λ last. refl) v)
    sender_step-IsSender s (show_application writes render viewport) v =
        candidate-IsSender writes s viewport true (render viewport.0 viewport.1) v
    sender_step-IsSender s (change_viewport writes render viewport) v =
        through _ _ unsuppressed-sender (
          candidate-IsSender writes (record s { last_application_frame = none }) viewport false
            (render viewport.0 viewport.1) (forgotten s v))
    sender_step-IsSender s (say_hello writes render viewport formats) v =
        through _ _ (λ a s. refl)
          (hello_frame-IsSender writes s render
            (hello_frame_of diagnostics
              (retained_frame diagnostics s.authoritative viewport formats) viewport)
            v)

    sender_after-Holds : (ops : List (SenderOp D)) → Holds (sender_after ops)
    unfolding sender_after
    sender_after-Holds [] = record { numbered = nothing; last = λ f e. absurd (ground arith) }
    sender_after-Holds (op ∷ ops) =
        sender_step-IsSender (sender_after ops) op (sender_after-Holds ops)

-- After any operations of the sender and of the connection, in any order, whatever fails: the frames
-- written are numbered 1, 2, 3 and so on in the order of their writes, none twice and none left out,
-- across connections; and an application frame that is remembered is the last frame written.
pub sender_after-IsSender :
    (diagnostics : Diagnostics) (encoder : IsEncoder diagnostics)
    (ops : List (SenderOp diagnostics.DiagnosticFrame))
    → IsSender diagnostics encoder (sender_after diagnostics ops)
sender_after-IsSender diagnostics encoder ops = sender_after-Holds diagnostics encoder ops
