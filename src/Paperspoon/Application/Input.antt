-- ===== src/Paperspoon/Application/Input.antt =====
-- tools/paperspoon/src/application_input.rs: the contact that presses a button.
pub mod Presses
use rust_x11_hello.Prelude.{
  ℕ, ◌≡◌, List, [], ◌∷◌, Bool, true, false, ◌&&◌, Option, none, some, is_some, ltb, ◌==◌,
  if◌then◌else◌,
}
use rust_x11_hello.Protocol.Payload.{V2Pointer, V2PointerPhase, down, up}
use rust_x11_hello.Paperspoon.Application.{
  ButtonLayout, ApplicationLayout, ApplicationUi, contains, ui_layout,
}

-- The action ids, a constructor for each text
pub data ActionId : Type 0 where
  media_play_pause media_next media_previous terminal_new_window tmux_work zoom_toggle_mute
        stub_button_7 stub_button_8 stub_button_9 :
      ActionId

pub record ApplicationActivation : Type 0 where
  pub button_id : ℕ
  pub action_id : ActionId

pub data ContactState : Type 0 where
  idle cancelled : ContactState
  armed : ℕ → ContactState

pub record ApplicationInput : Type 0 where
  pub viewport : Option (ℕ × ℕ)
  pub contact : ContactState

-- `ApplicationInput::default`
abbrev pub new_input : ApplicationInput
new_input = record { viewport = none; contact = idle }

unfoldable pub is_active : ApplicationInput → Bool
is_active input = is_some input.viewport

-- `viewport.filter(|(width, height)| *width > 0 && *height > 0)`
unfoldable pub nonempty : Option (ℕ × ℕ) → Option (ℕ × ℕ)
nonempty none = none
nonempty (some (width, height)) = if ltb 0 width && ltb 0 height then some (width, height) else none

unfoldable pub set_input_viewport : ApplicationInput → Option (ℕ × ℕ) → ApplicationInput
set_input_viewport input viewport = record { viewport = nonempty viewport; contact = idle }

unfoldable pub action_for_button : ℕ → Option ActionId
action_for_button button_id =
    if button_id == 1
    then some media_play_pause
    else if button_id == 2
    then some media_next
    else if button_id == 3
    then some media_previous
    else if button_id == 4
    then some terminal_new_window
    else if button_id == 5
    then some tmux_work
    else if button_id == 6
    then some zoom_toggle_mute
    else if button_id == 7
    then some stub_button_7
    else if button_id == 8
    then some stub_button_8
    else if button_id == 9
    then some stub_button_9
    else none

-- The id of the first button with the point, `find(…).map(|button| button.id)`
unfoldable pub first_hit : List ButtonLayout → ℕ → ℕ → Option ℕ
first_hit [] x y = none
first_hit (b ∷ buttons) x y =
    let later = first_hit buttons x y in if contains b.bounds x y then some b.id else later

unfoldable pub hit_in : Option ApplicationLayout → ℕ → ℕ → Option ℕ
hit_in none x y = none
hit_in (some l) x y = first_hit l.buttons x y

unfoldable pub hit : ApplicationUi → ℕ × ℕ → V2Pointer → Option ℕ
hit ui viewport pointer = hit_in (ui_layout ui viewport.0 viewport.1) pointer.x pointer.y

-- `hit.map(ContactState::Armed).unwrap_or(ContactState::Cancelled)`
unfoldable pub armed_or_cancelled : Option ℕ → ContactState
armed_or_cancelled none = cancelled
armed_or_cancelled (some id) = armed id

unfoldable pub pressed : ContactState → Option ℕ → ContactState
pressed idle on = armed_or_cancelled on
pressed (armed id) on = cancelled
pressed cancelled on = cancelled

unfoldable pub activation_for : ℕ → Option ActionId → Option ApplicationActivation
activation_for id none = none
activation_for id (some action) = some (record { button_id = id; action_id = action })

unfoldable pub released : ContactState → Option ℕ → Option ApplicationActivation
released idle on = none
released cancelled on = none
released (armed armed_id) none = none
released (armed armed_id) (some released_id) =
    if armed_id == released_id then activation_for armed_id (action_for_button armed_id) else none

-- `match pointer.phase()`, behind the viewport
unfoldable pub handle_phase :
    ApplicationInput → V2PointerPhase → Option ℕ → Option ApplicationActivation × ApplicationInput
handle_phase input down on = (none, record input { contact = pressed input.contact on })
handle_phase input up on = (released input.contact on, record input { contact = idle })

unfoldable pub handle_in :
    ApplicationUi
    → ApplicationInput
    → V2Pointer
    → Option (ℕ × ℕ)
    → Option ApplicationActivation × ApplicationInput
handle_in ui input pointer none = (none, record input { contact = idle })
handle_in ui input pointer (some viewport) =
    handle_phase input pointer.phase (hit ui viewport pointer)

unfoldable pub handle_input_pointer :
    ApplicationUi → ApplicationInput → V2Pointer → Option ApplicationActivation × ApplicationInput
handle_input_pointer ui input pointer = handle_in ui input pointer input.viewport
