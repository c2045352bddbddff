-- ===== src/Paperspoon/Session.antt =====
-- tools/paperspoon/src/main.rs: a connection behind its Hello, its frames and its pointers.
mod Hello
mod Trace
mod Told
mod Activated
pub mod Matching
mod Tests
use rust_x11_hello.Prelude.{
  ℕ, ◌&&◌, List, [], ◌∷◌, Bool, true, false, Option, none, some, Result, ok, err, ◌==◌,
  if◌then◌else◌,
}
use rust_x11_hello.Protocol.Frame.{Mono1Frame}
use rust_x11_hello.Protocol.Payload.{V2PixelFormats, V2Hello, V2Viewport, V2Pointer}
use rust_x11_hello.Paperspoon.Inbound.{SessionMessage}
use rust_x11_hello.Paperspoon.Server.{install_for_hello, update_viewport_if_current, ServerError}
use rust_x11_hello.Paperspoon.Application.{ApplicationUi}
use rust_x11_hello.Paperspoon.Application.Input.{
  ApplicationInput, ApplicationActivation, new_input, set_input_viewport, handle_input_pointer,
}
use rust_x11_hello.Paperspoon.Sender.{
  Diagnostics, FrameSender, SentFrame, HelloFrame, SendError, Sending, same_size,
}
use rust_x11_hello.Paperspoon.Sender.Sends.{send_application_for_viewport_change, send_for_hello}

-- `rendered_application_viewport.filter(|viewport| *viewport == reported_viewport)`
unfoldable pub matching_application_viewport : ℕ × ℕ → Option (ℕ × ℕ) → Option (ℕ × ℕ)
matching_application_viewport reported none = none
matching_application_viewport reported (some rendered) =
    if same_size rendered reported then some rendered else none

-- `application_input` and `rendered_application_viewport`
pub record Shown : Type 0 where
  pub input : ApplicationInput
  pub rendered : Option (ℕ × ℕ)

abbrev pub new_shown : Shown
new_shown = record { input = new_input; rendered = none }

-- `*rendered_viewport = …; input.set_viewport(…)` of one viewport
unfoldable pub show_viewport : Shown → Option (ℕ × ℕ) → Shown
show_viewport shown viewport = record {
  input = set_input_viewport shown.input viewport;
  rendered = viewport;
}

-- The variables of the loop over a connection
pub record Session : Type 0 where
  pub token : ℕ
  pub reported : ℕ × ℕ
  pub shown : Shown

-- The last of the viewports that the commands have reported
unfoldable pub latest_viewport : Option (ℕ × ℕ) → List (Option (ℕ × ℕ)) → Option (ℕ × ℕ)
latest_viewport rendered [] = rendered
latest_viewport rendered (viewport ∷ viewports) = latest_viewport viewport viewports

-- `if rendered_viewport_changed`, behind `for viewport in application_viewport_rx.try_iter()`
unfoldable pub note_viewports : ℕ × ℕ → Shown → List (Option (ℕ × ℕ)) → Shown
note_viewports reported shown [] = shown
note_viewports reported shown (viewport ∷ viewports) =
    let rendered = latest_viewport viewport viewports in
    record {
      input = set_input_viewport shown.input (matching_application_viewport reported rendered);
      rendered = rendered;
    }

unfoldable pub handle_session_pointer :
    ApplicationUi
    → Session
    → List (Option (ℕ × ℕ))
    → V2Pointer
    → Option ApplicationActivation × Session
handle_session_pointer ui session viewports p =
    let shown = note_viewports session.reported session.shown viewports in
    let (activation, input) = handle_input_pointer ui shown.input p in
    (activation, record session { shown = record shown { input = input } })

module _ (diagnostics : Diagnostics) where
  abbrev D : Type 0
  D = diagnostics.DiagnosticFrame

  -- `if sent.is_some()`
  unfoldable pub replaced_application :
      Shown → ℕ × ℕ → Sending D (Option SentFrame) → Sending D (Option SentFrame) × Shown
  replaced_application hidden viewport (ok (some sent), s) =
      ((ok (some sent), s), show_viewport hidden (some viewport))
  replaced_application hidden viewport (ok none, s) = ((ok none, s), hidden)
  replaced_application hidden viewport (err e, s) = ((err e, s), hidden)

  unfoldable pub replace_application_frame :
      (ℕ → Bool)
      → FrameSender D
      → (ℕ → ℕ → Result SendError Mono1Frame)
      → Shown
      → ℕ × ℕ
      → Sending D (Option SentFrame) × Shown
  replace_application_frame writes s render shown viewport =
      replaced_application (show_viewport shown none) viewport
        (send_application_for_viewport_change diagnostics writes s render viewport)

  -- `if let Some(ref hello_frame) = sent`
  unfoldable pub replaced_hello :
      Shown → Sending D (Option (HelloFrame D)) → Sending D (Option (HelloFrame D)) × Shown
  replaced_hello hidden (ok (some h), s) =
      ((ok (some h), s), show_viewport hidden h.sent_frame.application_viewport)
  replaced_hello hidden (ok none, s) = ((ok none, s), hidden)
  replaced_hello hidden (err e, s) = ((err e, s), hidden)

  unfoldable pub replace_hello_frame :
      (ℕ → Bool)
      → FrameSender D
      → (ℕ → ℕ → Result SendError Mono1Frame)
      → Shown
      → ℕ × ℕ
      → V2PixelFormats
      → Sending D (Option (HelloFrame D)) × Shown
  replace_hello_frame writes s render shown viewport formats =
      replaced_hello (show_viewport shown none)
        (send_for_hello diagnostics writes s render viewport formats)

  -- Behind a Hello whose connection is installed under `token`
  unfoldable pub open_session :
      (ℕ → Bool)
      → FrameSender D
      → (ℕ → ℕ → Result SendError Mono1Frame)
      → ℕ
      → V2Hello
      → FrameSender D × Session
  open_session writes s render token hello =
      let viewport : ℕ × ℕ = (hello.viewport_width, hello.viewport_height) in
      let ((result, next), shown) =
        replace_hello_frame writes s render new_shown viewport hello.pixel_formats in
      (next, record { token = token; reported = viewport; shown = shown })

  -- `SessionMessage::ViewportChanged`: what the commands have reported is overwritten.
  unfoldable pub change_session_viewport :
      (ℕ → Bool)
      → FrameSender D
      → (ℕ → ℕ → Result SendError Mono1Frame)
      → Session
      → ℕ × ℕ
      → FrameSender D × Session
  change_session_viewport writes s render session viewport =
      let server = (update_viewport_if_current s.server session.token viewport).1 in
      let ((result, next), shown) =
        replace_application_frame writes (record s { server = server }) render session.shown
          viewport in
      (next, record session { reported = viewport; shown = shown })

  -- The body of the loop, for a message and the viewports that the commands have reported by then
  unfoldable pub handle_session_message :
      ApplicationUi
      → (ℕ → Bool)
      → FrameSender D
      → (ℕ → ℕ → Result SendError Mono1Frame)
      → Session
      → List (Option (ℕ × ℕ))
      → SessionMessage
      → Option ApplicationActivation × (FrameSender D × Session)
  handle_session_message ui writes s render session viewports (SessionMessage.viewport_changed v) =
      (none, change_session_viewport writes s render session (v.width, v.height))
  handle_session_message ui writes s render session viewports (SessionMessage.pointer p) =
      let (activation, next) = handle_session_pointer ui session viewports p in
      (activation, (s, next))
