-- ===== src/Paperspoon/Session/Activated.antt =====
-- A connection from its Hello on: its input is told the same as said in Told.
use rust_x11_hello.Prelude.{
  ℕ, ◌≡◌, ◌↔◌, refl, ap, List, [], ◌∷◌, Bool, is_some, Option, some, Result,
}
use rust_x11_hello.Protocol.Frame.{Mono1Frame}
use rust_x11_hello.Protocol.Payload.{V2Hello, V2Pointer}
use rust_x11_hello.Paperspoon.Inbound.{SessionMessage}
use rust_x11_hello.Paperspoon.Server.{update_viewport_if_current}
use rust_x11_hello.Paperspoon.Application.{ApplicationUi}
use rust_x11_hello.Paperspoon.Application.Input.{ApplicationActivation, handle_input_pointer, hit}
use rust_x11_hello.Paperspoon.Application.Input.Presses.{
  InputEvent, point, input_after, IsTap, handle_input_pointer_iff,
}
use rust_x11_hello.Paperspoon.Sender.{Diagnostics, FrameSender, SendError}
use rust_x11_hello.Paperspoon.Sender.Sends.{
  send_application_for_viewport_change, send_for_hello, retained_frame, hello_frame_of,
  send_hello_frame,
}
use rust_x11_hello.Paperspoon.Session.Hello.{send_hello_frame-Tells}
use rust_x11_hello.Paperspoon.Session.{
  Session, new_shown, note_viewports, handle_session_pointer, replace_application_frame,
  replace_hello_frame, open_session, change_session_viewport, handle_session_message,
}
use rust_x11_hello.Paperspoon.Session.Trace.{
  SessionEvent, session_after, after-IsMatching, session_pointer,
}
use rust_x11_hello.Paperspoon.Session.Told.{
  noted, reported_after, noted_input, told_hello, told_change, hello_input, change_input,
}

-- A connection under `token`, behind its Hello
module _ (diagnostics : Diagnostics) (ui : ApplicationUi)
    (render : ℕ → ℕ → Result SendError Mono1Frame) (writes : ℕ → Bool)
    (s : FrameSender diagnostics.DiagnosticFrame) (token : ℕ) (hello : V2Hello) where
  -- What the input is told by a message, with the sender as the other threads have left it
  abbrev told_message :
      SessionEvent diagnostics.DiagnosticFrame
      → ℕ × ℕ
      → List InputEvent
      → SessionMessage
      → List InputEvent
  told_message event reported told (SessionMessage.viewport_changed v) =
      told_change diagnostics (v.width, v.height) told
        (send_application_for_viewport_change diagnostics event.writes
          (record event.found {
            server = (update_viewport_if_current event.found.server token (v.width, v.height)).1;
          })
          render (v.width, v.height)).0
  told_message event reported told (SessionMessage.pointer p) =
      point p ∷ noted reported event.viewports told

  -- All that the input is told, the latest one first
  abbrev pub told : List (SessionEvent diagnostics.DiagnosticFrame) → List InputEvent
  told [] =
      told_hello diagnostics
        (send_for_hello diagnostics writes s render (hello.viewport_width, hello.viewport_height)
          hello.pixel_formats).0
  told (event ∷ events) =
      told_message event (reported_after hello events) (told events) event.message

  -- The session is told the same.
  record IsTold (session : Session) (reported : ℕ × ℕ) (events : List InputEvent) : Type 0 where
    token_same : session.token ≡ token
    reported_same : session.reported ≡ reported
    input_same : session.shown.input ≡ input_after ui events

  open-IsTold :
      IsTold
        (open_session diagnostics writes s render token hello).1
        (reported_after {D = diagnostics.DiagnosticFrame} hello [])
        (told [])
  unfolding open_session replace_hello_frame send_for_hello
  open-IsTold =
      let viewport : ℕ × ℕ = (hello.viewport_width, hello.viewport_height) in
      let retained = retained_frame diagnostics s.authoritative viewport hello.pixel_formats in
      let frame = hello_frame_of diagnostics retained viewport in
      record {
        token_same = refl;
        reported_same = refl;
        input_same =
            hello_input diagnostics ui new_shown (is_some retained) frame
              (send_hello_frame diagnostics writes s render frame)
              (send_hello_frame-Tells diagnostics writes s render frame);
      }

  change-IsTold :
      (event : SessionEvent diagnostics.DiagnosticFrame) (session : Session) (reported : ℕ × ℕ)
      (events : List InputEvent) (viewport : ℕ × ℕ)
      → session.token ≡ token
      → IsTold
          (change_session_viewport diagnostics event.writes event.found render session viewport).1
          viewport
          (told_change diagnostics viewport events
            (send_application_for_viewport_change diagnostics event.writes
              (record event.found {
                server = (update_viewport_if_current event.found.server token viewport).1;
              })
              render
              viewport).0)
  unfolding change_session_viewport replace_application_frame
  change-IsTold event session reported events viewport same = record {
    token_same = same;
    reported_same = refl;
    input_same = rw same (
        change_input diagnostics ui session.shown viewport events (
          send_application_for_viewport_change diagnostics event.writes
            (record event.found {
              server = (update_viewport_if_current event.found.server token viewport).1;
            })
            render viewport));
  }

  noted_same :
      (session : Session) (reported : ℕ × ℕ) (events : List InputEvent)
      (viewports : List (Option (ℕ × ℕ)))
      → IsTold session reported events
      → (note_viewports session.reported session.shown viewports).input
        ≡ input_after ui (noted reported viewports events)
  noted_same session reported events viewports is =
      rw is.reported_same (noted_input ui reported session.shown viewports events is.input_same)

  pointer-IsTold :
      (session : Session) (reported : ℕ × ℕ) (events : List InputEvent)
      (viewports : List (Option (ℕ × ℕ))) (p : V2Pointer)
      → IsTold session reported events
      → IsTold
          (handle_session_pointer ui session viewports p).1
          reported
          (point p ∷ noted reported viewports events)
  unfolding handle_session_pointer input_after
  pointer-IsTold session reported events viewports p is = record {
    token_same = is.token_same;
    reported_same = is.reported_same;
    input_same =
        ap (λ input. (handle_input_pointer ui input p).1)
          (noted_same session reported events viewports is);
  }

  message-IsTold :
      (event : SessionEvent diagnostics.DiagnosticFrame)
      (events : List (SessionEvent diagnostics.DiagnosticFrame)) (session : Session)
      (m : SessionMessage)
      → IsTold session (reported_after hello events) (told events)
      → IsTold
          (handle_session_message diagnostics ui event.writes event.found render session
            event.viewports m).1.1
          (reported_after hello (record event { message = m } ∷ events))
          (told (record event { message = m } ∷ events))
  unfolding handle_session_message
  message-IsTold event events session (SessionMessage.viewport_changed v) is =
      change-IsTold event session (reported_after hello events) (told events) (v.width, v.height)
        is.token_same
  message-IsTold event events session (SessionMessage.pointer p) is =
      pointer-IsTold session (reported_after hello events) (told events) event.viewports p is

  after-IsTold :
      (events : List (SessionEvent diagnostics.DiagnosticFrame))
      → IsTold
          (session_after diagnostics ui render writes s token hello events)
          (reported_after hello events)
          (told events)
  unfolding session_after
  after-IsTold [] = open-IsTold
  after-IsTold (event ∷ events) =
      message-IsTold event events (session_after diagnostics ui render writes s token hello events)
        event.message (after-IsTold events)

  -- On a connection, whatever it has received behind its Hello, whatever the other threads have made
  -- of the sender, and whichever viewports the commands have reported in between: a pointer activates
  -- a button exactly if it ends a tap on it, among all that the input was told. That is nothing shown
  -- from a Hello or a changed viewport on; the application, if the frame that is then sent is one of
  -- it, in the viewport of that frame; and one after the other the viewports that the commands
  -- report, nothing shown for one that is not the viewport that PaperPad reported last. The button is
  -- hit in that last reported viewport.
  pub session_activation_iff :
      (events : List (SessionEvent diagnostics.DiagnosticFrame)) (writes' : ℕ → Bool)
      (found : FrameSender diagnostics.DiagnosticFrame) (viewports : List (Option (ℕ × ℕ)))
      (p : V2Pointer) (a : ApplicationActivation)
      → (((handle_session_message diagnostics ui writes' found render
              (session_after diagnostics ui render writes s token hello events)
              viewports
              (SessionMessage.pointer p)).0
            ≡ some a)
          ↔ IsTap ui (noted (reported_after hello events) viewports (told events)) p a)
        × ((handle_session_message diagnostics ui writes' found render
                (session_after diagnostics ui render writes s token hello events)
                viewports
                (SessionMessage.pointer p)).0
              ≡ some a
            → hit ui (reported_after hello events) p ≡ some a.button_id)
  unfolding handle_session_message handle_session_pointer
  session_activation_iff events writes' found viewports p a =
      let session = session_after diagnostics ui render writes s token hello events in
      let is = after-IsTold events in
      let told_same = noted_same session (reported_after hello events) (told events) viewports is in
      (
        rw told_same (
            handle_input_pointer_iff ui
              (noted (reported_after hello events) viewports (told events)) p a),
        λ e.
            let done =
              session_pointer ui session viewports p a
                (after-IsMatching diagnostics ui render writes s token hello events) e in
            rw (← is.reported_same) done.on,
      )
