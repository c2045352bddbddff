-- ===== src/Paperspoon/Session/Matching.antt =====
-- The input of a connection takes pointers only on an application frame of the reported viewport.
use mathlib.Core.Path.{subst}
use rust_x11_hello.Prelude.{
  ℕ, ◌≡◌, ◌∙◌, ◌⊎◌, inl, inr, refl, sym, arith, List, [], ◌∷◌, Bool, is_some, Option, none, some,
  Result, ok, err,
}
use rust_x11_hello.Protocol.Frame.{Mono1Frame}
use rust_x11_hello.Protocol.Payload.{V2Hello, V2Pointer}
use rust_x11_hello.Paperspoon.Inbound.{SessionMessage}
use rust_x11_hello.Paperspoon.Application.{ApplicationUi}
use rust_x11_hello.Paperspoon.Application.Input.{nonempty, set_input_viewport, handle_input_pointer}
use rust_x11_hello.Paperspoon.Application.Input.Presses.{handle_in_viewport}
use rust_x11_hello.Paperspoon.Sender.{
  Diagnostics, AuthoritativeFrame, FrameSender, SentFrame, SendError, Sending, and_then,
}
use rust_x11_hello.Paperspoon.Server.{update_viewport_if_current}
use rust_x11_hello.Paperspoon.Sender.Sends.{
  send_application_for_viewport_change, retained_frame, hello_frame_of, send_hello_frame,
  send_for_hello,
}
use mathlib.Core.Option
use rust_x11_hello.Paperspoon.Session.Hello.{
  Tells, ShowsAt, send_hello_frame-Tells, hello_frame-ShowsAt,
}
use rust_x11_hello.Paperspoon.Session.{
  matching_application_viewport, Shown, new_shown, show_viewport, Session, note_viewports,
  handle_session_pointer, replaced_application, replace_application_frame, replaced_hello,
  replace_hello_frame, open_session, change_session_viewport, handle_session_message,
}

-- The viewport of the input is the rendered one, when that is the reported one.
abbrev pub IsMatching : ℕ × ℕ → Shown → Type 0
IsMatching reported shown =
    shown.input.viewport ≡ nonempty (matching_application_viewport reported shown.rendered)

matching_same : (v : ℕ × ℕ) → matching_application_viewport v (some v) ≡ some v
unfolding matching_application_viewport
matching_same v = ground arith

show-IsMatching :
    (reported : ℕ × ℕ) (shown : Shown) (v : Option (ℕ × ℕ))
    → (v ≡ none) ⊎ (v ≡ some reported)
    → IsMatching reported (show_viewport shown v)
unfolding show_viewport set_input_viewport matching_application_viewport
show-IsMatching reported shown v (inl e) = rw e refl
show-IsMatching reported shown v (inr e) = rw (e, matching_same reported) refl

pub note-IsMatching :
    (reported : ℕ × ℕ) (shown : Shown) (viewports : List (Option (ℕ × ℕ)))
    → IsMatching reported shown
    → IsMatching reported (note_viewports reported shown viewports)
unfolding note_viewports set_input_viewport
note-IsMatching reported shown [] m = m
note-IsMatching reported shown (viewport ∷ viewports) m = refl

pointer-IsMatching :
    (ui : ApplicationUi) (s : Session) (viewports : List (Option (ℕ × ℕ))) (p : V2Pointer)
    → IsMatching s.reported s.shown
    → IsMatching s.reported (handle_session_pointer ui s viewports p).1.shown
unfolding handle_session_pointer handle_input_pointer
pointer-IsMatching ui s viewports p m =
    let shown = note_viewports s.reported s.shown viewports in
    handle_in_viewport ui shown.input p shown.input.viewport
    ∙ note-IsMatching s.reported s.shown viewports m

module _ (diagnostics : Diagnostics) where
  abbrev D : Type 0
  D = diagnostics.DiagnosticFrame

  hello-IsMatching :
      (shown : Shown) (viewport : ℕ × ℕ) (retained : Bool) (frame : AuthoritativeFrame D)
      (r : Sending D (Option SentFrame))
      → ShowsAt diagnostics viewport frame
      → Tells diagnostics frame r
      → IsMatching viewport
          (replaced_hello diagnostics (show_viewport shown none) (
            and_then r λ sent next. (
              ok (
                  Option.map
                    (λ f. record { sent_frame = f; retained = retained; frame = frame })
                    sent),
              next,
            ))).1
  unfolding replaced_hello and_then
  hello-IsMatching shown viewport retained frame (ok (some sent), s) shows t =
      show-IsMatching viewport (show_viewport shown none) sent.application_viewport
        (subst (λ v. (v ≡ none) ⊎ (v ≡ some viewport)) (sym t) shows)
  hello-IsMatching shown viewport retained frame (ok none, s) shows t =
      show-IsMatching viewport shown none (inl refl)
  hello-IsMatching shown viewport retained frame (err e, s) shows t =
      show-IsMatching viewport shown none (inl refl)

  replaced-IsMatching :
      (shown : Shown) (viewport : ℕ × ℕ) (r : Sending D (Option SentFrame))
      → IsMatching viewport
          (replaced_application diagnostics (show_viewport shown none) viewport r).1
  unfolding replaced_application
  replaced-IsMatching shown viewport (ok (some sent), s) =
      show-IsMatching viewport (show_viewport shown none) (some viewport) (inr refl)
  replaced-IsMatching shown viewport (ok none, s) = show-IsMatching viewport shown none (inl refl)
  replaced-IsMatching shown viewport (err e, s) = show-IsMatching viewport shown none (inl refl)

  pub open-IsMatching :
      (writes : ℕ → Bool) (s : FrameSender D) (render : ℕ → ℕ → Result SendError Mono1Frame)
      (token : ℕ) (hello : V2Hello)
      → IsMatching
          (open_session diagnostics writes s render token hello).1.reported
          (open_session diagnostics writes s render token hello).1.shown
  unfolding open_session replace_hello_frame send_for_hello
  open-IsMatching writes s render token hello =
      let viewport : ℕ × ℕ = (hello.viewport_width, hello.viewport_height) in
      let retained = retained_frame diagnostics s.authoritative viewport hello.pixel_formats in
      let frame = hello_frame_of diagnostics retained viewport in
      hello-IsMatching new_shown viewport (is_some retained) frame
        (send_hello_frame diagnostics writes s render frame)
        (hello_frame-ShowsAt diagnostics s.authoritative viewport hello.pixel_formats)
        (send_hello_frame-Tells diagnostics writes s render frame)

  change-IsMatching :
      (writes : ℕ → Bool) (s : FrameSender D) (render : ℕ → ℕ → Result SendError Mono1Frame)
      (session : Session) (viewport : ℕ × ℕ)
      → IsMatching
          (change_session_viewport diagnostics writes s render session viewport).1.reported
          (change_session_viewport diagnostics writes s render session viewport).1.shown
  unfolding change_session_viewport replace_application_frame
  change-IsMatching writes s render session viewport =
      let server = (update_viewport_if_current s.server session.token viewport).1 in
      replaced-IsMatching session.shown viewport (
        send_application_for_viewport_change diagnostics writes (record s { server = server })
          render viewport)

  pub message-IsMatching :
      (ui : ApplicationUi) (writes : ℕ → Bool) (s : FrameSender D)
      (render : ℕ → ℕ → Result SendError Mono1Frame) (session : Session)
      (viewports : List (Option (ℕ × ℕ))) (m : SessionMessage)
      → IsMatching session.reported session.shown
      → IsMatching
          (handle_session_message diagnostics ui writes s render session viewports m).1.1.reported
          (handle_session_message diagnostics ui writes s render session viewports m).1.1.shown
  unfolding handle_session_message handle_session_pointer
  message-IsMatching ui writes s render session viewports (SessionMessage.viewport_changed v) is =
      change-IsMatching writes s render session (v.width, v.height)
  message-IsMatching ui writes s render session viewports (SessionMessage.pointer p) is =
      pointer-IsMatching ui session viewports p is
