-- ===== src/Paperpad/App/Exit.antt =====
-- Which histories exit the program.
use mathlib.Core.Option
use rust_x11_hello.Prelude.{
  ℕ, ◌≡◌, ◌≢◌, ◌↔◌, ◌⊎◌, inl, inr, refl, arith, List, [], ◌∷◌, Bool, true, false, ◌&&◌, none,
  if◌then◌else◌, ◌==◌, Bool-cases, ◌∙◌, sym,
}
use rust_x11_hello.Paperpad.Ui.System.{
  PointerEventKind, press, release, PointerEvent, SystemUi, ExitContact, idle, armed, cancelled,
  handle_system_pointer, primary_exit, press_contact, is_armed, in_exit,
}
use rust_x11_hello.Paperpad.App.{AppState, new_app, activation_of, handle_pointer}
use rust_x11_hello.Paperpad.App.Contact.{AppEvent, pointer, geometry, cancel, app_after}
use rust_x11_hello.Paperpad.App.History.{
  window_after, keeps_window, is_ignored, window-app_after, contact, next_contact, contact-next,
}

-- No contact is under way: there was none since the start, the last release, cancellation or other
-- window size.
pub data Settled (size : ℕ × ℕ) : List AppEvent → Type 0 where
  start : Settled size []
  released :
      {past : List AppEvent} (e : PointerEvent)
      → (e.detail == 1) ≡ true
      → e.kind ≡ release
      → Settled size (pointer e ∷ past)
  ended : {past : List AppEvent} → Settled size (cancel ∷ past)
  moved :
      {past : List AppEvent} (reported : ℕ × ℕ)
      → keeps_window (window_after size past) reported ≡ false
      → Settled size (geometry reported ∷ past)
  ignored :
      {past : List AppEvent} (e : AppEvent)
      → is_ignored (window_after size past) e ≡ true
      → Settled size past
      → Settled size (e ∷ past)

-- A contact is under way that began with a press in Exit and has had no second press.
pub data Armed (size : ℕ × ℕ) : List AppEvent → Type 0 where
  pressed :
      {past : List AppEvent} (e : PointerEvent)
      → (e.detail == 1) ≡ true
      → e.kind ≡ press
      → in_exit (window_after size past).0 (window_after size past).1 e.point ≡ true
      → Settled size past
      → Armed size (pointer e ∷ past)
  ignored :
      {past : List AppEvent} (e : AppEvent)
      → is_ignored (window_after size past) e ≡ true
      → Armed size past
      → Armed size (e ∷ past)

Kind-cases : (k : PointerEventKind) → (k ≡ press) ⊎ (k ≡ release)
Kind-cases press = inl refl
Kind-cases release = inr refl

press_contact-not_idle : (c : ExitContact) (inside : Bool) → press_contact c inside ≢ idle
unfolding press_contact
press_contact-not_idle idle true e = ground arith
press_contact-not_idle idle false e = ground arith
press_contact-not_idle armed inside e = ground arith
press_contact-not_idle cancelled inside e = ground arith

press_contact-armed :
    (c : ExitContact) (inside : Bool)
    → press_contact c inside ≡ armed
    → (c ≡ idle) × (inside ≡ true)
unfolding press_contact
press_contact-armed idle true e = (refl, refl)
press_contact-armed idle false e = absurd (ground arith)
press_contact-armed armed inside e = absurd (ground arith)
press_contact-armed cancelled inside e = absurd (ground arith)

module _ (size : ℕ × ℕ) where
  contact-Settled : (past : List AppEvent) → contact size past ≡ idle → Settled size past
  contact-Settled [] e = start
  contact-Settled (cancel ∷ past) e = ended
  contact-Settled (geometry r ∷ past) e =
      let now : (if keeps_window (window_after size past) r then contact size past else idle)
          ≡ idle =
        sym (contact-next size (geometry r) past) ∙ e in
      elim (Bool-cases (keeps_window (window_after size past) r)) [
        | inl kept ↦ ignored (geometry r) kept (contact-Settled past (rw kept at now))
        | inr changed ↦ moved r changed
      ]
  contact-Settled (pointer p ∷ past) e =
      let now : next_contact (window_after size past) (pointer p) (contact size past) ≡ idle =
        sym (contact-next size (pointer p) past) ∙ e in
      elim (Bool-cases (p.detail == 1)) [
        | inl primary ↦ elim (Kind-cases p.kind) [
          | inl down ↦ absurd (
              press_contact-not_idle (contact size past)
                (in_exit (window_after size past).0 (window_after size past).1 p.point)
                (rw (primary, down) at now))
          | inr up ↦ released p primary up
        ]
        | inr other ↦ ignored (pointer p) (rw other refl) (contact-Settled past (rw other at now))
      ]

  contact-Armed : (past : List AppEvent) → contact size past ≡ armed → Armed size past
  contact-Armed [] e = absurd (unfold contact app_after new_app in ground arith)
  contact-Armed (cancel ∷ past) e = absurd (ground (arith, contact-next size cancel past))
  contact-Armed (geometry r ∷ past) e =
      let now : (if keeps_window (window_after size past) r then contact size past else idle)
          ≡ armed =
        sym (contact-next size (geometry r) past) ∙ e in
      elim (Bool-cases (keeps_window (window_after size past) r)) [
        | inl kept ↦ ignored (geometry r) kept (contact-Armed past (rw kept at now))
        | inr changed ↦ absurd (ground (arith, changed, now))
      ]
  contact-Armed (pointer p ∷ past) e =
      let now : next_contact (window_after size past) (pointer p) (contact size past) ≡ armed =
        sym (contact-next size (pointer p) past) ∙ e in
      elim (Bool-cases (p.detail == 1)) [
        | inl primary ↦ elim (Kind-cases p.kind) [
          | inl down ↦
              let (before, inside) =
                press_contact-armed (contact size past)
                  (in_exit (window_after size past).0 (window_after size past).1 p.point)
                  (rw (primary, down) at now) in
              pressed p primary down inside (contact-Settled past before)
          | inr up ↦ absurd (ground (arith, primary, up, now))
        ]
        | inr other ↦ ignored (pointer p) (rw other refl) (contact-Armed past (rw other at now))
      ]

  ignored-contact :
      (e : AppEvent) (past : List AppEvent)
      → is_ignored (window_after size past) e ≡ true
      → contact size (e ∷ past) ≡ contact size past
  ignored-contact (pointer p) past i = ground (arith, contact-next size (pointer p) past, i)
  ignored-contact (geometry r) past i = ground (arith, contact-next size (geometry r) past, i)
  ignored-contact cancel past i = absurd (ground arith)

  Settled-contact : {past : List AppEvent} → Settled size past → contact size past ≡ idle
  Settled-contact start = unfold contact app_after new_app in refl
  Settled-contact (released {past} e primary up) =
      ground (arith, contact-next size (pointer e) past, primary, up)
  Settled-contact (ended {past}) = contact-next size cancel past
  Settled-contact (moved {past} r changed) =
      ground (arith, contact-next size (geometry r) past, changed)
  Settled-contact (ignored {past} e i settled) = ignored-contact e past i ∙ Settled-contact settled

  Armed-contact : {past : List AppEvent} → Armed size past → contact size past ≡ armed
  Armed-contact (pressed {past} e primary down inside settled) =
      contact-next size (pointer e) past
      ∙ rw (primary, down, inside, Settled-contact settled) (unfold press_contact in refl)
  Armed-contact (ignored {past} e i there) = ignored-contact e past i ∙ Armed-contact there

is_armed_iff : (c : ExitContact) → (is_armed c ≡ true) ↔ (c ≡ armed)
unfolding is_armed
is_armed_iff idle = (λ e. absurd (ground arith), λ e. absurd (ground arith))
is_armed_iff armed = (λ e. refl, λ e. refl)
is_armed_iff cancelled = (λ e. absurd (ground arith), λ e. absurd (ground arith))

primary_exit_iff :
    (ui : SystemUi) (kind : PointerEventKind) (inside : Bool)
    → (Option.map activation_of (primary_exit ui kind inside).0 ≢ none)
      ↔ ((kind ≡ release) × (inside ≡ true) × (ui.exit_contact ≡ armed))
unfolding primary_exit
primary_exit_iff ui press inside = (λ h. absurd (h refl), λ (k, i, c). absurd (ground arith))
primary_exit_iff ui release inside = elim (Bool-cases (is_armed ui.exit_contact && inside)) [
  | inl fires ↦ (
    λ h. (refl, ground (arith, fires), (is_armed_iff ui.exit_contact).0 (ground (arith, fires))),
    λ (k, i, c) nothing. ground (arith, fires, nothing),
  )
  | inr quiet ↦ (
    λ h. absurd (h (rw quiet refl)),
    λ (k, i, c). absurd (ground (arith, quiet, i, (is_armed_iff ui.exit_contact).1 c)),
  )
]

exits_iff :
    (s : AppState) (e : PointerEvent)
    → ((handle_pointer s e).0.activation ≢ none) ↔ (
        ((e.detail == 1) ≡ true)
        × (e.kind ≡ release)
        × (in_exit s.width s.height e.point ≡ true)
        × (s.system_ui.exit_contact ≡ armed))
unfolding handle_pointer handle_system_pointer
exits_iff s e = elim (Bool-cases (e.detail == 1)) [
  | inl primary ↦
      let (to, from) = primary_exit_iff s.system_ui e.kind (in_exit s.width s.height e.point) in
      (
        λ h. let (up, inside, there) = to (rw primary at h) in (primary, up, inside, there),
        λ (same, up, inside, there). rw primary (from (up, inside, there)),
      )
  | inr other ↦ (
    λ h. absurd (h (rw other refl)),
    λ (primary, up, inside, there). absurd (ground (arith, other, primary)),
  )
]

-- An event exits the program exactly if it is a release of the primary button in Exit, and the
-- contact that it ends began with a press in Exit, had no second press, and was neither cancelled
-- nor cut off by another window size.
pub activation_iff :
    (size : ℕ × ℕ) (past : List AppEvent) (e : PointerEvent)
    → ((handle_pointer (app_after size past) e).0.activation ≢ none) ↔ (
        ((e.detail == 1) ≡ true)
        × (e.kind ≡ release)
        × (in_exit (window_after size past).0 (window_after size past).1 e.point ≡ true)
        × Armed size past)
activation_iff size past e =
    let (to, from) = exits_iff (app_after size past) e in
    let window = window-app_after size past in
    (
      λ h.
          let (primary, up, inside, there) = to h in
          (primary, up, rw window inside, contact-Armed size past (unfold contact in there)),
      λ (primary, up, inside, there).
          from (primary, up, rw window at inside, unfold contact in Armed-contact size there),
    )
