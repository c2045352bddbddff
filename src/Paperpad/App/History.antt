-- ===== src/Paperpad/App/History.antt =====
-- What one event does to the size of the window and to the Exit contact.
use mathlib.Core.Path.{subst}
use rust_x11_hello.Prelude.{
  ℕ, ◌≡◌, inl, inr, refl, arith, List, [], ◌∷◌, Bool, true, false, ◌&&◌, ◌||◌, if◌then◌else◌, ◌==◌,
  Bool-cases, ap, ◌∙◌, sym,
}
use rust_x11_hello.Paperpad.Ui.System.{
  PointerEventKind, press, release, PointerEvent, SystemUi, ExitContact, idle,
  handle_system_pointer, cancel_exit_contact, primary_exit, press_contact, in_exit,
}
use rust_x11_hello.Paperpad.App.{AppState, new_app, update_geometry, cancel_contact, handle_pointer}
use rust_x11_hello.Paperpad.App.Contact.{AppEvent, pointer, geometry, cancel, app_step, app_after}

-- The size of the window after events, the latest one first: a report of no columns or no rows is
-- not one of a size.
abbrev pub resized : ℕ × ℕ → ℕ × ℕ → ℕ × ℕ
resized window reported = if reported.0 == 0 || reported.1 == 0 then window else reported

unfoldable pub window_after : ℕ × ℕ → List AppEvent → ℕ × ℕ
window_after size [] = size
window_after size (geometry reported ∷ past) = resized (window_after size past) reported
window_after size (pointer e ∷ past) = window_after size past
window_after size (cancel ∷ past) = window_after size past

-- The window has this size already, or the report is none.
abbrev pub keeps_window : ℕ × ℕ → ℕ × ℕ → Bool
keeps_window window reported =
    (reported.0 == 0 || reported.1 == 0) || ((reported.0 == window.0) && (reported.1 == window.1))

-- Events that no contact notices
abbrev pub is_ignored : ℕ × ℕ → AppEvent → Bool
is_ignored window (pointer e) = if e.detail == 1 then false else true
is_ignored window (geometry reported) = keeps_window window reported
is_ignored window cancel = false

-- One event, on the state that it finds
module _ (s : AppState) where
  step-window :
      (reported : ℕ × ℕ)
      → resized (s.width, s.height) reported
        ≡ ((update_geometry s reported).1.width, (update_geometry s reported).1.height)
  unfolding update_geometry
  step-window reported = ground arith

  step-geometry :
      (reported : ℕ × ℕ)
      → (update_geometry s reported).1.system_ui.exit_contact
        ≡ (if keeps_window (s.width, s.height) reported then s.system_ui.exit_contact else idle)
  unfolding update_geometry cancel_exit_contact
  step-geometry reported = ground arith

  step-other :
      (e : PointerEvent)
      → (e.detail == 1) ≡ false
      → (handle_pointer s e).1.system_ui.exit_contact ≡ s.system_ui.exit_contact
  unfolding handle_pointer handle_system_pointer
  step-other e other = ground (arith, other)

  step-primary :
      (e : PointerEvent)
      → (e.detail == 1) ≡ true
      → (handle_pointer s e).1.system_ui.exit_contact
        ≡ (primary_exit s.system_ui e.kind (in_exit s.width s.height e.point)).1.exit_contact
  unfolding handle_pointer handle_system_pointer
  step-primary e primary = ground (arith, primary)

pub window-app_after :
    (size : ℕ × ℕ) (past : List AppEvent)
    → window_after size past ≡ ((app_after size past).width, (app_after size past).height)
unfolding window_after app_after app_step new_app handle_pointer cancel_contact
window-app_after size [] = refl
window-app_after size (pointer e ∷ past) = window-app_after size past
window-app_after size (cancel ∷ past) = window-app_after size past
window-app_after size (geometry reported ∷ past) =
    ap (λ w. resized w reported) (window-app_after size past)
    ∙ step-window (app_after size past) reported

unfoldable pub contact : ℕ × ℕ → List AppEvent → ExitContact
contact size past = (app_after size past).system_ui.exit_contact

-- The next contact, from the one before and the event
abbrev pub primary_next : PointerEventKind → Bool → ExitContact → ExitContact
primary_next press inside before = press_contact before inside
primary_next release inside before = idle

abbrev pub next_contact : ℕ × ℕ → AppEvent → ExitContact → ExitContact
next_contact window (pointer e) before =
    if e.detail == 1 then primary_next e.kind (in_exit window.0 window.1 e.point) before else before
next_contact window (geometry reported) before =
    if keeps_window window reported then before else idle
next_contact window cancel before = idle

primary_exit-next :
    (ui : SystemUi) (kind : PointerEventKind) (inside : Bool)
    → (primary_exit ui kind inside).1.exit_contact ≡ primary_next kind inside ui.exit_contact
unfolding primary_exit
primary_exit-next ui press inside = refl
primary_exit-next ui release inside = refl

step-contact :
    (s : AppState) (e : AppEvent)
    → (app_step s e).system_ui.exit_contact
      ≡ next_contact (s.width, s.height) e s.system_ui.exit_contact
unfolding app_step
step-contact s (pointer e) = elim (Bool-cases (e.detail == 1)) [
  | inl primary ↦ ground (
    arith,
    primary,
    step-primary s e primary,
    primary_exit-next s.system_ui e.kind (in_exit s.width s.height e.point),
  )
  | inr other ↦ ground (arith, other, step-other s e other)
]
step-contact s (geometry reported) = step-geometry s reported
step-contact s cancel = unfold cancel_contact cancel_exit_contact in refl

pub contact-next :
    (size : ℕ × ℕ) (e : AppEvent) (past : List AppEvent)
    → contact size (e ∷ past) ≡ next_contact (window_after size past) e (contact size past)
unfolding contact app_after
contact-next size e past =
    subst
      (λ w.
        (app_step (app_after size past) e).system_ui.exit_contact
        ≡ next_contact w e (app_after size past).system_ui.exit_contact)
      (sym (window-app_after size past)) (step-contact (app_after size past) e)
