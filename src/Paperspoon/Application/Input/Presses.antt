-- ===== src/Paperspoon/Application/Input/Presses.antt =====
-- ApplicationInput over the events of a connection: which pointers activate a button.
use mathlib.Core.Path.{subst}
use rust_x11_hello.Prelude.{
  ℕ, ◌≡◌, ◌↔◌, ◌∙◌, refl, sym, arith, List, [], ◌∷◌, Bool, true, false, Option, none, some,
  Option-cases, ◌≢◌, inl, ap, ◌==◌, Bool-cases, inr,
}
use rust_x11_hello.Protocol.Payload.{V2Pointer, V2PointerPhase, down, up}
use rust_x11_hello.Paperspoon.Application.{ApplicationUi}
use rust_x11_hello.Paperspoon.Application.Input.{
  ActionId, ApplicationActivation, ContactState, idle, cancelled, armed, ApplicationInput,
  new_input, nonempty, set_input_viewport, action_for_button, hit, armed_or_cancelled, pressed,
  activation_for, released, handle_phase, handle_in, handle_input_pointer,
}

pub data InputEvent : Type 0 where
  point : V2Pointer → InputEvent
  show : Option (ℕ × ℕ) → InputEvent

-- The input after the events, the latest one first
unfoldable pub input_after : ApplicationUi → List InputEvent → ApplicationInput
input_after ui [] = new_input
input_after ui (point p ∷ events) = (handle_input_pointer ui (input_after ui events) p).1
input_after ui (show viewport ∷ events) = set_input_viewport (input_after ui events) viewport

-- The viewport that is shown last
abbrev pub viewport_after : List InputEvent → Option (ℕ × ℕ)
viewport_after [] = none
viewport_after (point p ∷ events) = viewport_after events
viewport_after (show viewport ∷ events) = nonempty viewport

abbrev pub lifts : V2PointerPhase → Bool
lifts up = true
lifts down = false

-- No contact is down: there was none yet, it was lifted, or the viewport changed.
abbrev pub is_lifted : List InputEvent → Bool
is_lifted [] = true
is_lifted (show viewport ∷ events) = true
is_lifted (point p ∷ events) = lifts p.phase

-- The events end with a press of the button `id`: a Down on it, when no contact was down.
pub record IsPress (ui : ApplicationUi) (events : List InputEvent) (viewport : ℕ × ℕ) (id : ℕ)
    : Type 0 where
  pub first : V2Pointer
  pub earlier : List InputEvent
  pub at_end : events ≡ point first ∷ earlier
  pub is_down : first.phase ≡ down
  pub lifted : is_lifted earlier ≡ true
  pub on : hit ui viewport first ≡ some id

-- An Up that ends a press on the same button
pub record IsTap (ui : ApplicationUi) (events : List InputEvent) (pointer : V2Pointer)
    (a : ApplicationActivation) : Type 0 where
  pub viewport : ℕ × ℕ
  pub shown : viewport_after events ≡ some viewport
  pub press : IsPress ui events viewport a.button_id
  pub is_up : pointer.phase ≡ up
  pub on : hit ui viewport pointer ≡ some a.button_id
  pub action : action_for_button a.button_id ≡ some a.action_id

handle_phase_viewport :
    (input : ApplicationInput) (phase : V2PointerPhase) (on : Option ℕ)
    → (handle_phase input phase on).1.viewport ≡ input.viewport
unfolding handle_phase
handle_phase_viewport input down on = refl
handle_phase_viewport input up on = refl

pub handle_in_viewport :
    (ui : ApplicationUi) (input : ApplicationInput) (pointer : V2Pointer)
    (viewport : Option (ℕ × ℕ))
    → (handle_in ui input pointer viewport).1.viewport ≡ input.viewport
unfolding handle_in
handle_in_viewport ui input pointer none = refl
handle_in_viewport ui input pointer (some v) =
    handle_phase_viewport input pointer.phase (hit ui v pointer)

viewport-input_after :
    (ui : ApplicationUi) (events : List InputEvent)
    → (input_after ui events).viewport ≡ viewport_after events
unfolding input_after handle_input_pointer set_input_viewport
viewport-input_after ui [] = refl
viewport-input_after ui (point p ∷ events) =
    let input = input_after ui events in
    handle_in_viewport ui input p input.viewport ∙ viewport-input_after ui events
viewport-input_after ui (show viewport ∷ events) = refl

-- Behind the viewport, the phase decides.
handled :
    (ui : ApplicationUi) (events : List InputEvent) (p : V2Pointer) {v : ℕ × ℕ}
    → viewport_after events ≡ some v
    → handle_input_pointer ui (input_after ui events) p
      ≡ handle_phase (input_after ui events) p.phase (hit ui v p)
unfolding handle_input_pointer handle_in
handled ui events p e = rw (viewport-input_after ui events ∙ e) refl

input_after-point :
    (ui : ApplicationUi) (events : List InputEvent) (p : V2Pointer) {v : ℕ × ℕ}
    → viewport_after events ≡ some v
    → input_after ui (point p ∷ events)
      ≡ (handle_phase (input_after ui events) p.phase (hit ui v p)).1
unfolding input_after
input_after-point ui events p e = ap (λ r. r.1) (handled ui events p e)

unhandled :
    (ui : ApplicationUi) (events : List InputEvent) (p : V2Pointer)
    → viewport_after events ≡ none
    → (handle_input_pointer ui (input_after ui events) p).0 ≡ none
unfolding handle_input_pointer handle_in
unhandled ui events p e = rw (viewport-input_after ui events ∙ e) refl

pressed_iff :
    (c : ContactState) (on : Option ℕ) (id : ℕ)
    → (pressed c on ≡ armed id) ↔ ((c ≡ idle) × (on ≡ some id))
unfolding pressed armed_or_cancelled
pressed_iff idle none id = (λ e. ground (arith, e), λ e. ground (arith, e.1))
pressed_iff idle (some i) id = (λ e. (refl, ground (arith, e)), λ e. ground (arith, e.1))
pressed_iff (armed i) on id = (λ e. ground (arith, e), λ e. ground (arith, e.0))
pressed_iff cancelled on id = (λ e. ground (arith, e), λ e. ground (arith, e.0))

pressed_busy : (c : ContactState) (on : Option ℕ) → pressed c on ≢ idle
unfolding pressed armed_or_cancelled
pressed_busy idle none e = ground (arith, e)
pressed_busy idle (some id) e = ground (arith, e)
pressed_busy (armed i) on e = ground (arith, e)
pressed_busy cancelled on e = ground (arith, e)

phase_idle :
    (input : ApplicationInput) (phase : V2PointerPhase) (on : Option ℕ)
    → ((handle_phase input phase on).1.contact ≡ idle) ↔ (lifts phase ≡ true)
unfolding handle_phase
phase_idle input up on = (λ _. refl, λ _. refl)
phase_idle input down on = (λ e. absurd (pressed_busy input.contact on e), λ e. ground (arith, e))

phase_armed :
    (input : ApplicationInput) (phase : V2PointerPhase) (on : Option ℕ) (id : ℕ)
    → ((handle_phase input phase on).1.contact ≡ armed id)
      ↔ ((phase ≡ down) × (input.contact ≡ idle) × (on ≡ some id))
unfolding handle_phase
phase_armed input up on id = (λ e. ground (arith, e), λ e. ground (arith, e.0))
phase_armed input down on id = (
  λ e. (refl, ((pressed_iff input.contact on id).0 e).0, ((pressed_iff input.contact on id).0 e).1),
  λ (_, c, o). (pressed_iff input.contact on id).1 (c, o),
)

activation_for_iff :
    (id : ℕ) (action : Option ActionId) (a : ApplicationActivation)
    → (activation_for id action ≡ some a) ↔ ((id ≡ a.button_id) × (action ≡ some a.action_id))
unfolding activation_for
activation_for_iff id none a = (λ e. ground (arith, e), λ e. ground (arith, e.1))
activation_for_iff id (some action) a =
    (λ e. (ground (arith, e), ground (arith, e)), λ e. ground (arith, e.0, e.1))

armed_id : {i j : ℕ} → armed i ≡ armed j → i ≡ j
armed_id e = ground (arith, e)

pub released_iff :
    (c : ContactState) (on : Option ℕ) (a : ApplicationActivation)
    → (released c on ≡ some a) ↔ (
        (c ≡ armed a.button_id)
        × (on ≡ some a.button_id)
        × (action_for_button a.button_id ≡ some a.action_id))
unfolding released
released_iff idle on a = (λ e. ground (arith, e), λ e. ground (arith, e.0))
released_iff cancelled on a = (λ e. ground (arith, e), λ e. ground (arith, e.0))
released_iff (armed i) none a = (λ e. ground (arith, e), λ e. ground (arith, e.1))
released_iff (armed i) (some j) a =
    let (to, from) = activation_for_iff i (action_for_button i) a in
    elim (Bool-cases (i == j)) [
      | inl same ↦ (
        λ e.
            let (b, action) = to (rw same at (e)) in
            (ap armed b, ground (arith, same, b), rw b at (action)),
        λ (c, on, action). ground (
          arith,
          same,
          from (
            armed_id c,
            subst (λ k. action_for_button k ≡ some a.action_id) (sym (armed_id c)) action,
          ),
        ),
      )
      | inr other ↦ (
        λ e. ground (arith, rw other at (e)),
        λ (c, on, action). absurd (ground (arith, other, armed_id c, on)),
      )
    ]

module _ (ui : ApplicationUi) where
  input_idle :
      (events : List InputEvent) {v : ℕ × ℕ}
      → viewport_after events ≡ some v
      → ((input_after ui events).contact ≡ idle) ↔ (is_lifted events ≡ true)
  unfolding input_after set_input_viewport
  input_idle [] e = (λ _. refl, λ _. refl)
  input_idle (show viewport ∷ events) e = (λ _. refl, λ _. refl)
  input_idle (point p ∷ events) {v = v} e =
      rw (input_after-point ui events p e) (phase_idle (input_after ui events) p.phase (hit ui v p))

  armed-IsPress :
      (events : List InputEvent) {v : ℕ × ℕ} {id : ℕ}
      → viewport_after events ≡ some v
      → (input_after ui events).contact ≡ armed id
      → IsPress ui events v id
  unfolding input_after set_input_viewport
  armed-IsPress [] e c = absurd (ground (arith, c))
  armed-IsPress (show viewport ∷ events) e c = absurd (ground (arith, c))
  armed-IsPress (point p ∷ events) {v} {id} e c =
      let (d, i, on) =
        (phase_armed (input_after ui events) p.phase (hit ui v p) id).0
          (rw (input_after-point ui events p e) at (c)) in
      record {
        first = p;
        earlier = events;
        at_end = refl;
        is_down = d;
        lifted = (input_idle events e).0 i;
        on = on;
      }

  down-armed :
      (p : V2Pointer) (events : List InputEvent) {v : ℕ × ℕ} {id : ℕ}
      → viewport_after events ≡ some v
      → p.phase ≡ down
      → is_lifted events ≡ true
      → hit ui v p ≡ some id
      → (input_after ui (point p ∷ events)).contact ≡ armed id
  down-armed p events {v} {id} e d lifted on = rw (input_after-point ui events p e) (
      (phase_armed (input_after ui events) p.phase (hit ui v p) id).1
        (d, (input_idle events e).1 lifted, on))

  IsPress-armed :
      (events : List InputEvent) {v : ℕ × ℕ} {id : ℕ}
      → viewport_after events ≡ some v
      → IsPress ui events v id
      → (input_after ui events).contact ≡ armed id
  IsPress-armed events {v} {id} e press =
      subst (λ es. (input_after ui es).contact ≡ armed id) (sym press.at_end)
        (down-armed press.first press.earlier
          (subst (λ es. viewport_after es ≡ some v) press.at_end e) press.is_down press.lifted
          press.on)

  pub phase_activates :
      (input : ApplicationInput) (phase : V2PointerPhase) (on : Option ℕ)
      (a : ApplicationActivation)
      → ((handle_phase input phase on).0 ≡ some a)
        ↔ ((phase ≡ up) × (released input.contact on ≡ some a))
  unfolding handle_phase
  phase_activates input down on a = (λ e. ground (arith, e), λ e. ground (arith, e.0))
  phase_activates input up on a = (λ e. (refl, e), λ e. e.1)

-- A pointer activates a button with its action exactly when it is an Up on that button, shown in the
-- current viewport, and the event just before was a Down on the same button, with no contact down by
-- then: a second Down, a Down or an Up beside the button, and a viewport in between all give nothing.
pub handle_input_pointer_iff :
    (ui : ApplicationUi) (events : List InputEvent) (pointer : V2Pointer)
    (a : ApplicationActivation)
    → ((handle_input_pointer ui (input_after ui events) pointer).0 ≡ some a)
      ↔ IsTap ui events pointer a
handle_input_pointer_iff ui events pointer a = (
  λ e. elim (Option-cases (viewport_after events)) as (λ _. IsTap ui events pointer a) [
    | inl hidden ↦ absurd (ground (arith, unhandled ui events pointer hidden, e))
    | inr (v, shown) ↦
        let input = input_after ui events in
        let (lifts, gives) =
          (phase_activates ui input pointer.phase (hit ui v pointer) a).0
            (rw (handled ui events pointer shown) at (e)) in
        let (c, on, action) = (released_iff input.contact (hit ui v pointer) a).0 gives in
        record {
          viewport = v;
          shown = shown;
          press = armed-IsPress ui events shown c;
          is_up = lifts;
          on = on;
          action = action;
        }
  ],
  λ tap.
      let input = input_after ui events in
      rw (handled ui events pointer tap.shown) (
        (phase_activates ui input pointer.phase (hit ui tap.viewport pointer) a).1 (
          tap.is_up,
          (released_iff input.contact (hit ui tap.viewport pointer) a).1
              (IsPress-armed ui events tap.shown tap.press, tap.on, tap.action),
        )),
)
