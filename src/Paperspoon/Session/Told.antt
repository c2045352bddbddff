-- ===== src/Paperspoon/Session/Told.antt =====
-- What the input of a connection is told, said apart from the loop of main.rs.
use rust_x11_hello.Prelude.{
  ℕ, ◌≡◌, refl, arith, List, [], ◌∷◌, Bool, ◌&&◌, ◌==◌, if◌then◌else◌, Option, none, some, Result,
  ok, err,
}
use rust_x11_hello.Protocol.Payload.{V2Hello}
use rust_x11_hello.Paperspoon.Inbound.{SessionMessage}
use rust_x11_hello.Paperspoon.Application.{ApplicationUi}
use rust_x11_hello.Paperspoon.Application.Input.{ApplicationInput, set_input_viewport}
use rust_x11_hello.Paperspoon.Application.Input.Presses.{InputEvent, show, input_after}
use rust_x11_hello.Paperspoon.Sender.{
  Diagnostics, SentFrame, HelloFrame, SendError, Sending, AuthoritativeFrame, application,
  diagnostic, jpeg, now_playing, and_then, application_viewport_of,
}
use mathlib.Core.Option
use rust_x11_hello.Paperspoon.Session.Hello.{Tells}
use rust_x11_hello.Paperspoon.Session.{
  matching_application_viewport, Shown, show_viewport, latest_viewport, note_viewports,
  replaced_application, replaced_hello,
}
use rust_x11_hello.Paperspoon.Session.Trace.{SessionEvent}

-- A viewport that a command has reported counts if it is the one that PaperPad has reported.
abbrev pub only : ℕ × ℕ → Option (ℕ × ℕ) → Option (ℕ × ℕ)
only reported none = none
only reported (some v) = if (v.0 == reported.0) && (v.1 == reported.1) then some reported else none

-- The viewports of the commands, shown one after the other
abbrev pub noted : ℕ × ℕ → List (Option (ℕ × ℕ)) → List InputEvent → List InputEvent
noted reported [] told = told
noted reported (v ∷ viewports) told = noted reported viewports (show (only reported v) ∷ told)

-- The viewport that PaperPad has reported last, in its Hello or since
abbrev pub reported_after : {D : Type 0} → V2Hello → List (SessionEvent D) → ℕ × ℕ
reported_after hello [] = (hello.viewport_width, hello.viewport_height)
reported_after hello (event ∷ events) = elim event.message [
  | SessionMessage.viewport_changed v ↦ (v.width, v.height)
  | SessionMessage.pointer p ↦ reported_after hello events
]

only-eq :
    (reported : ℕ × ℕ) (v : Option (ℕ × ℕ))
    → only reported v ≡ matching_application_viewport reported v
unfolding matching_application_viewport
only-eq reported none = refl
only-eq reported (some v) = ground arith

-- Of viewports shown one after the other, only the last one counts.
noted_latest :
    (ui : ApplicationUi) (reported : ℕ × ℕ) (v : Option (ℕ × ℕ)) (viewports : List (Option (ℕ × ℕ)))
    (told : List InputEvent) (input : ApplicationInput)
    → set_input_viewport input
        (matching_application_viewport reported (latest_viewport v viewports))
      ≡ input_after ui (noted reported viewports (show (only reported v) ∷ told))
unfolding input_after latest_viewport
noted_latest ui reported v [] told input =
    rw (only-eq reported v) (unfold set_input_viewport in refl)
noted_latest ui reported v (w ∷ viewports) told input =
    noted_latest ui reported w viewports (show (only reported v) ∷ told) input

pub noted_input :
    (ui : ApplicationUi) (reported : ℕ × ℕ) (shown : Shown) (viewports : List (Option (ℕ × ℕ)))
    (told : List InputEvent)
    → shown.input ≡ input_after ui told
    → (note_viewports reported shown viewports).input
      ≡ input_after ui (noted reported viewports told)
unfolding note_viewports
noted_input ui reported shown [] told e = e
noted_input ui reported shown (v ∷ viewports) told e =
    noted_latest ui reported v viewports told shown.input

module _ (diagnostics : Diagnostics) where
  abbrev D : Type 0
  D = diagnostics.DiagnosticFrame

  -- The viewport in which a frame shows the application
  abbrev pub shown_in : AuthoritativeFrame D → Option (ℕ × ℕ)
  shown_in (application viewport) = some viewport
  shown_in (diagnostic d) = none
  shown_in (jpeg f) = none
  shown_in (now_playing f) = none

  -- A Hello hides what was shown; the frame that is sent then shows the application or not.
  abbrev pub told_hello : Result SendError (Option (HelloFrame D)) → List InputEvent
  told_hello (ok (some h)) = show (shown_in h.frame) ∷ show none ∷ []
  told_hello (ok none) = show none ∷ []
  told_hello (err e) = show none ∷ []

  -- So does a changed viewport, whose frame shows the application in it.
  abbrev pub told_change :
      ℕ × ℕ → List InputEvent → Result SendError (Option SentFrame) → List InputEvent
  told_change viewport told (ok (some sent)) = show (some viewport) ∷ show none ∷ told
  told_change viewport told (ok none) = show none ∷ told
  told_change viewport told (err e) = show none ∷ told

  shown_in-eq :
      (frame : AuthoritativeFrame D) → application_viewport_of diagnostics frame ≡ shown_in frame
  unfolding application_viewport_of
  shown_in-eq (application viewport) = refl
  shown_in-eq (diagnostic d) = refl
  shown_in-eq (jpeg f) = refl
  shown_in-eq (now_playing f) = refl

  pub hello_input :
      (ui : ApplicationUi) (shown : Shown) (retained : Bool) (frame : AuthoritativeFrame D)
      (r : Sending D (Option SentFrame))
      → Tells diagnostics frame r
      → (replaced_hello diagnostics (show_viewport shown none) (
          and_then r λ sent next. (
            ok (
                Option.map
                  (λ f. record { sent_frame = f; retained = retained; frame = frame })
                  sent),
            next,
          ))).1.input
        ≡ input_after ui (
            told_hello
              (and_then r λ sent next. (
                ok (
                    Option.map
                      (λ f. record { sent_frame = f; retained = retained; frame = frame })
                      sent),
                next,
              )).0)
  unfolding replaced_hello show_viewport input_after set_input_viewport and_then
  hello_input ui shown retained frame (ok (some sent), s) t = rw (t, shown_in-eq frame) refl
  hello_input ui shown retained frame (ok none, s) t = refl
  hello_input ui shown retained frame (err e, s) t = refl

  pub change_input :
      (ui : ApplicationUi) (shown : Shown) (viewport : ℕ × ℕ) (told : List InputEvent)
      (r : Sending D (Option SentFrame))
      → (replaced_application diagnostics (show_viewport shown none) viewport r).1.input
        ≡ input_after ui (told_change viewport told r.0)
  unfolding replaced_application show_viewport input_after set_input_viewport
  change_input ui shown viewport told (ok (some sent), s) = refl
  change_input ui shown viewport told (ok none, s) = refl
  change_input ui shown viewport told (err e, s) = refl
