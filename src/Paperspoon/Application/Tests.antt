-- ===== src/Paperspoon/Application/Tests.antt =====
-- Buttons on a screen of 600 x 800, and a tap of the middle one.
use rust_x11_hello.Prelude.{◌+◌, ◌≡◌, ◌↔◌, refl, List, [], ◌∷◌, none, some, All}
use rust_x11_hello.Protocol.Payload.{V2Pointer, down, up}
use rust_x11_hello.Paperspoon.Application.{
  ApplicationUi, ApplicationLayout, ui_layout, button_grid, title_text, grid_of, grid_cell_side,
  grid_from, grid_row, button_at, contains,
}
use rust_x11_hello.Paperspoon.Application.Input.{
  ApplicationActivation, handle_input_pointer, hit, tmux_work, handle_in, handle_phase, released,
  set_input_viewport, nonempty, hit_in, first_hit, pressed, armed_or_cancelled, activation_for,
  action_for_button,
}
use rust_x11_hello.Paperspoon.Application.Hits.{IsOn, hit_iff}
use rust_x11_hello.Paperspoon.Application.Placed.{IsPlaced, ui_layout-IsPlaced}
use rust_x11_hello.Paperspoon.Application.Input.Presses.{
  InputEvent, point, show, input_after, IsTap, handle_input_pointer_iff,
}

abbrev plain_ui : ApplicationUi
plain_ui = record { status = none }

abbrev middle_down : V2Pointer
middle_down = record { phase = down; x = 300; y = 400 }

abbrev middle_up : V2Pointer
middle_up = record { phase = up; x = 310; y = 410 }

abbrev tapped : List InputEvent
tapped = point middle_down ∷ show (some (600, 800)) ∷ []

abbrev tmux_activation : ApplicationActivation
tmux_activation = record { button_id = 5; action_id = tmux_work }

abbrev plain_layout : ApplicationLayout
plain_layout = record {
  width = 600;
  height = 800;
  title = record { x = 20; baseline_y = 40; text = title_text };
  buttons = button_grid 600 800;
  status_region = record { x = 0; y = 760; width = 600; height = 40 };
  status = none;
}

plain_laid_out : ui_layout plain_ui 600 800 ≡ some plain_layout
unfolding ui_layout
plain_laid_out = refl

middle_activates :
    (handle_input_pointer plain_ui (input_after plain_ui tapped) middle_up).0 ≡ some tmux_activation
unfolding input_after handle_input_pointer handle_in handle_phase released set_input_viewport
    nonempty hit hit_in ui_layout button_grid grid_of grid_cell_side grid_from grid_row button_at
    first_hit contains pressed armed_or_cancelled activation_for action_for_button
middle_activates = refl

hit_iff_example : (hit plain_ui (600, 800) middle_down ≡ some 5) ↔ IsOn 600 800 300 400 5
hit_iff_example = hit_iff plain_ui 600 800 middle_down 5

ui_layout-IsPlaced_example :
    All (IsPlaced 600 plain_layout.status_region) (button_grid 600 800)
    × (760 + 40 ≡ 800)
    × (0 + 600 ≡ 600)
ui_layout-IsPlaced_example = ui_layout-IsPlaced plain_ui 600 800 plain_laid_out

handle_input_pointer_iff_example :
    ((handle_input_pointer plain_ui (input_after plain_ui tapped) middle_up).0
      ≡ some tmux_activation)
    ↔ IsTap plain_ui tapped middle_up tmux_activation
handle_input_pointer_iff_example =
    handle_input_pointer_iff plain_ui tapped middle_up tmux_activation
