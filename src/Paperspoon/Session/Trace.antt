-- ===== src/Paperspoon/Session/Trace.antt =====
-- A whole connection of PaperSpoon: what its pointers may activate, whatever the other threads do.
use mathlib.Core.Path.{subst}
use rust_x11_hello.Prelude.{
  ℕ, ◌≡◌, ◌∙◌, refl, sym, ap, arith, List, [], ◌∷◌, Bool, true, Option, none, some, Result,
  Bool-cases, inl, inr,
}
use rust_x11_hello.Protocol.Frame.{Mono1Frame}
use rust_x11_hello.Protocol.Payload.{V2Hello, V2Pointer, up}
use rust_x11_hello.Paperspoon.Inbound.{SessionMessage}
use rust_x11_hello.Paperspoon.Application.{ApplicationUi}
use rust_x11_hello.Paperspoon.Application.Input.{
  ApplicationInput, ApplicationActivation, nonempty, handle_input_pointer, handle_in, hit,
  action_for_button,
}
use rust_x11_hello.Paperspoon.Application.Input.Presses.{released_iff, phase_activates}
use rust_x11_hello.Paperspoon.Sender.{Diagnostics, FrameSender, SendError, same_size}
use rust_x11_hello.Paperspoon.Session.{
  matching_application_viewport, Session, note_viewports, handle_session_pointer, open_session,
  handle_session_message,
}
use rust_x11_hello.Paperspoon.Session.Matching.{
  IsMatching, note-IsMatching, open-IsMatching, message-IsMatching,
}

-- A message that is read, with the sender as the other threads have left it by then, and the viewports
-- that the commands have reported
pub record SessionEvent (D : Type 0) : Type 0 where
  pub writes : ℕ → Bool
  pub found : FrameSender D
  pub viewports : List (Option (ℕ × ℕ))
  pub message : SessionMessage

in_activates :
    (ui : ApplicationUi) (input : ApplicationInput) (p : V2Pointer) (a : ApplicationActivation)
    (viewport : Option (ℕ × ℕ))
    → (handle_in ui input p viewport).0 ≡ some a
    → (v : ℕ × ℕ) × (viewport ≡ some v)
      × (p.phase ≡ up)
      × (hit ui v p ≡ some a.button_id)
      × (action_for_button a.button_id ≡ some a.action_id)
unfolding handle_in
in_activates ui input p a none e = absurd (ground (arith, e))
in_activates ui input p a (some v) e =
    let (lifts, gives) = (phase_activates ui input p.phase (hit ui v p) a).0 e in
    let (c, on, action) = (released_iff input.contact (hit ui v p) a).0 gives in
    (v, refl, lifts, on, action)

same_viewport : (v w : ℕ × ℕ) → same_size v w ≡ true → v ≡ w
same_viewport v w e = ground (arith, e)

nonempty_same : (v : ℕ × ℕ) {w : ℕ × ℕ} → nonempty (some v) ≡ some w → v ≡ w
unfolding nonempty
nonempty_same v e = ground (arith, e)

matching_shown :
    (reported : ℕ × ℕ) (rendered : Option (ℕ × ℕ)) {v : ℕ × ℕ}
    → nonempty (matching_application_viewport reported rendered) ≡ some v
    → (rendered ≡ some reported) × (v ≡ reported)
unfolding nonempty matching_application_viewport
matching_shown reported none e = absurd (ground (arith, e))
matching_shown reported (some rendered) e = elim (Bool-cases (same_size rendered reported)) [
  | inl same ↦
      let is = same_viewport rendered reported same in
      (ap some is, sym (nonempty_same rendered (rw same at (e))) ∙ is)
  | inr other ↦ absurd (ground (arith, rw other at (e)))
]

module _ (diagnostics : Diagnostics) (ui : ApplicationUi)
    (render : ℕ → ℕ → Result SendError Mono1Frame) where
  abbrev D : Type 0
  D = diagnostics.DiagnosticFrame

  -- The connection after the messages, the latest one first
  unfoldable pub session_after :
      (ℕ → Bool) → FrameSender D → ℕ → V2Hello → List (SessionEvent D) → Session
  session_after writes s token hello [] = (open_session diagnostics writes s render token hello).1
  session_after writes s token hello (event ∷ events) =
      (handle_session_message diagnostics ui event.writes event.found render
        (session_after writes s token hello events) event.viewports event.message).1.1

  pub after-IsMatching :
      (writes : ℕ → Bool) (s : FrameSender D) (token : ℕ) (hello : V2Hello)
      (events : List (SessionEvent D))
      → IsMatching
          (session_after writes s token hello events).reported
          (session_after writes s token hello events).shown
  unfolding session_after
  after-IsMatching writes s token hello [] = open-IsMatching diagnostics writes s render token hello
  after-IsMatching writes s token hello (event ∷ events) =
      message-IsMatching diagnostics ui event.writes event.found render
        (session_after writes s token hello events) event.viewports event.message
        (after-IsMatching writes s token hello events)

-- The pointer is an Up on a button in the reported viewport, which is also the rendered one.
pub record IsShownActivation (ui : ApplicationUi) (before after : Session) (p : V2Pointer)
    (a : ApplicationActivation) : Type 0 where
  pub same : after.reported ≡ before.reported
  pub rendered : after.shown.rendered ≡ some after.reported
  pub is_up : p.phase ≡ up
  pub on : hit ui after.reported p ≡ some a.button_id
  pub action : action_for_button a.button_id ≡ some a.action_id

pub session_pointer :
    (ui : ApplicationUi) (session : Session) (viewports : List (Option (ℕ × ℕ))) (p : V2Pointer)
    (a : ApplicationActivation)
    → IsMatching session.reported session.shown
    → (handle_session_pointer ui session viewports p).0 ≡ some a
    → IsShownActivation ui session (handle_session_pointer ui session viewports p).1 p a
unfolding handle_session_pointer handle_input_pointer
session_pointer ui session viewports p a m e =
    let shown = note_viewports session.reported session.shown viewports in
    let (v, shows, lifts, on, action) = in_activates ui shown.input p a shown.input.viewport e in
    let (rendered, same) =
      matching_shown session.reported shown.rendered
        (sym (note-IsMatching session.reported session.shown viewports m) ∙ shows) in
    record {
      same = refl;
      rendered = rendered;
      is_up = lifts;
      on = subst (λ v. hit ui v p ≡ some a.button_id) same on;
      action = action;
    }
