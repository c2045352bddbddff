-- ===== src/Paperpad/App/Contact.antt =====
-- The contact that PaperSpoon sees, and the one that exits.
use rust_x11_hello.Prelude.{
  ℕ, ◌≡◌, ◌≢◌, inl, inr, refl, arith, List, [], ◌∷◌, Bool, true, false, Option, none, some, ◌==◌,
  Bool-cases, Option-cases,
}
use mathlib.Core.Option
use rust_x11_hello.Paperpad.Ui.Screen.{RemotePoint, new_layout}
use rust_x11_hello.Paperpad.Ui.System.{
  PointerEventKind, press, release, PointerEvent, SystemAction, SystemUi, ExitContact, idle, armed,
  cancelled, handle_system_pointer, primary_exit, press_contact, is_armed, in_exit,
}
use rust_x11_hello.Paperpad.Ui.System.Bounds.{in_exit-not_remote}
use rust_x11_hello.Paperpad.App.{
  AppState, new_app, update_geometry, cancel_contact, primary_remote, handle_remote_pointer,
  remote_of, activation_of, handle_pointer,
}

-- What the event loop does with the application's state.
pub data AppEvent : Type 0 where
  pointer : PointerEvent → AppEvent
  geometry : ℕ × ℕ → AppEvent
  cancel : AppEvent

unfoldable pub app_step : AppState → AppEvent → AppState
app_step s (pointer e) = (handle_pointer s e).1
app_step s (geometry size) = (update_geometry s size).1
app_step s cancel = cancel_contact s

-- The state after events, the latest one first.
unfoldable pub app_after : ℕ × ℕ → List AppEvent → AppState
app_after size [] = new_app size
app_after size (e ∷ past) = app_step (app_after size past) e

-- While PaperSpoon sees a contact, the same contact cannot exit.
pub IsContact : AppState → Type 0
IsContact s = s.remote_contact_active ≡ true → s.system_ui.exit_contact ≡ cancelled

press_contact-outside : (c : ExitContact) → press_contact c false ≡ cancelled
unfolding press_contact
press_contact-outside idle = refl
press_contact-outside armed = refl
press_contact-outside cancelled = refl

-- One event of the primary button, on the two state machines at once.
primary-IsContact :
    (ui : SystemUi) (active : Bool) (kind : PointerEventKind) (inside : Bool)
    (at : Option RemotePoint) (corner : RemotePoint)
    → (inside ≡ true → at ≡ none)
    → (primary_remote active kind at corner).1 ≡ true
    → (primary_exit ui kind inside).1.exit_contact ≡ cancelled
unfolding primary_remote primary_exit
primary-IsContact ui false press false (some q) corner apart on =
    press_contact-outside ui.exit_contact
primary-IsContact ui false press true (some q) corner apart on = absurd (ground (arith, apart refl))
primary-IsContact ui false press inside none corner apart on = absurd (ground arith)
primary-IsContact ui true press inside at corner apart on = absurd (ground arith)
primary-IsContact ui active release inside at corner apart on = absurd (on_release active at on)
  where
    on_release :
        (active : Bool) (at : Option RemotePoint)
        → ¬ ((primary_remote active release at corner).1 ≡ true)
    on_release true at e = ground arith
    on_release false at e = ground arith

primary-exclusive :
    (ui : SystemUi) (active : Bool) (kind : PointerEventKind) (inside : Bool)
    (at : Option RemotePoint) (corner : RemotePoint)
    → (active ≡ true → ui.exit_contact ≡ cancelled)
    → (primary_exit ui kind inside).0 ≢ none
    → (primary_remote active kind at corner).0 ≡ none
unfolding primary_remote primary_exit is_armed
primary-exclusive ui true press inside at corner contact exits = absurd (exits refl)
primary-exclusive ui false press inside at corner contact exits = absurd (exits refl)
primary-exclusive ui true release inside at corner contact exits = ground (arith, contact refl)
primary-exclusive ui false release inside at corner contact exits = refl

-- No event is both inside Exit and inside the remote viewport.
remote_of-apart :
    (w h : ℕ) (e : PointerEvent)
    → in_exit w h e.point ≡ true
    → (remote_of (new_layout w h) e).0 ≡ none
remote_of-apart w h e inside = elim (Option-cases (new_layout w h)) [
  | inl nothing ↦ rw nothing (unfold remote_of in refl)
  | inr (l, there) ↦ rw there (unfold remote_of in in_exit-not_remote w h e.point there inside)
]

handle_pointer-IsContact :
    (s : AppState) (e : PointerEvent) → IsContact s → IsContact (handle_pointer s e).1
unfolding IsContact handle_pointer handle_remote_pointer handle_system_pointer
handle_pointer-IsContact s e contact = elim (Bool-cases (e.detail == 1)) [
  | inl primary ↦ rw primary (
      primary-IsContact s.system_ui s.remote_contact_active e.kind
        (in_exit s.width s.height e.point) _ _ (remote_of-apart s.width s.height e))
  | inr other ↦ rw other contact
]

app_step-IsContact : (s : AppState) (e : AppEvent) → IsContact s → IsContact (app_step s e)
unfolding app_step
app_step-IsContact s (pointer e) contact = handle_pointer-IsContact s e contact
app_step-IsContact s (geometry size) contact =
    unfold IsContact update_geometry in ground (arith, contact)
app_step-IsContact s cancel contact = unfold IsContact cancel_contact in λ on. absurd (ground arith)

app_after-IsContact : (size : ℕ × ℕ) (past : List AppEvent) → IsContact (app_after size past)
unfolding app_after
app_after-IsContact size [] = unfold IsContact new_app in λ on. absurd (ground arith)
app_after-IsContact size (e ∷ past) =
    app_step-IsContact (app_after size past) e (app_after-IsContact size past)

map-none : (o : Option SystemAction) → Option.map activation_of o ≢ none → o ≢ none
map-none none some_one e = some_one refl
map-none (some a) some_one e = ground arith

-- Whatever happened before, an event that exits the program is not sent to PaperSpoon.
pub exit-not_remote :
    (size : ℕ × ℕ) (past : List AppEvent) (e : PointerEvent)
    → (handle_pointer (app_after size past) e).0.activation ≢ none
    → (handle_pointer (app_after size past) e).0.remote ≡ none
unfolding handle_pointer handle_remote_pointer handle_system_pointer
exit-not_remote size past e exits =
    let s = app_after size past in
    elim (Bool-cases (e.detail == 1)) [
      | inl primary ↦ rw primary (
          primary-exclusive s.system_ui s.remote_contact_active e.kind
            (in_exit s.width s.height e.point) _ _
            (unfold IsContact in app_after-IsContact size past) (map-none _ (rw primary at exits)))
      | inr other ↦ absurd (ground (arith, other, exits))
    ]
