-- ===== src/Paperspoon/Session/Tests.antt =====
-- A connection whose Hello gets no frame, and a button that is tapped once a command has drawn them.
use rust_x11_hello.Prelude.{ℕ, ◌≡◌, ◌↔◌, refl, List, [], ◌∷◌, Bool, true, none, some, Result, ok}
use rust_x11_hello.Protocol.Frame.{Mono1Frame, Frame, frame_width, frame_height, frame_pixel_format}
use rust_x11_hello.Protocol.Payload.{V2Pointer, V2Hello, down, up}
use rust_x11_hello.Paperspoon.Inbound.{SessionMessage}
use rust_x11_hello.Paperspoon.Server.{empty_server}
use rust_x11_hello.Paperspoon.Application.{
  ApplicationUi, ui_layout, button_grid, grid_of, grid_cell_side, grid_from, grid_row, button_at,
  contains,
}
use rust_x11_hello.Paperspoon.Application.Input.{
  ApplicationActivation, tmux_work, handle_input_pointer, handle_in, handle_phase, released,
  set_input_viewport, nonempty, hit, hit_in, first_hit, pressed, armed_or_cancelled, activation_for,
  action_for_button,
}
use rust_x11_hello.Paperspoon.Sender.{Diagnostics, FrameSender, SendError, new_sender, and_then}
use rust_x11_hello.Paperspoon.Sender.Sends.{
  send_for_hello, send_hello_frame, send_application_locked, send_candidate, unsuppressed,
  retained_frame, hello_frame_of,
}
use rust_x11_hello.Paperspoon.Session.{
  handle_session_message, open_session, replace_hello_frame, replaced_hello, show_viewport,
  handle_session_pointer, note_viewports, latest_viewport, matching_application_viewport,
}
use rust_x11_hello.Paperspoon.Session.Trace.{SessionEvent, session_after}
use rust_x11_hello.Paperspoon.Session.Told.{noted}
use rust_x11_hello.Paperspoon.Session.Activated.{told, session_activation_iff}
use rust_x11_hello.Paperspoon.Application.Input.Presses.{IsTap}

abbrev no_diagnostics : Diagnostics
no_diagnostics = record {
  DiagnosticFrame = Frame;
  dimensions = λ f. (frame_width f, frame_height f);
  pixel_format = frame_pixel_format;
  encode = λ f id. none;
}

abbrev sender : FrameSender Frame
sender = new_sender no_diagnostics empty_server

abbrev render : ℕ → ℕ → Result SendError Mono1Frame
render width height = ok (record { width = 1; height = 1; stride = 1; pixels = 128 ∷ [] })

abbrev always : ℕ → Bool
always stream = true

abbrev ui : ApplicationUi
ui = record { status = none }

abbrev hello : V2Hello
hello = record { viewport_width = 600; viewport_height = 800; pixel_formats = record { mask = 3 } }

abbrev finger_down : V2Pointer
finger_down = record { phase = down; x = 300; y = 400 }

abbrev finger_up : V2Pointer
finger_up = record { phase = up; x = 310; y = 410 }

abbrev pressed_down : List (SessionEvent Frame)
pressed_down =
    record {
      writes = always;
      found = sender;
      viewports = some (300, 300) ∷ some (600, 800) ∷ [];
      message = SessionMessage.pointer finger_down;
    }
    ∷ []

abbrev tmux_activation : ApplicationActivation
tmux_activation = record { button_id = 5; action_id = tmux_work }

activates :
    (handle_session_message no_diagnostics ui always sender render
      (session_after no_diagnostics ui render always sender 4 hello pressed_down)
      []
      (SessionMessage.pointer finger_up)).0
    ≡ some tmux_activation
unfolding handle_session_message handle_session_pointer session_after open_session
    replace_hello_frame replaced_hello show_viewport note_viewports latest_viewport
    matching_application_viewport send_for_hello send_hello_frame send_application_locked
    send_candidate unsuppressed retained_frame hello_frame_of and_then handle_input_pointer
    handle_in handle_phase released set_input_viewport nonempty hit hit_in ui_layout button_grid
    grid_of grid_cell_side grid_from grid_row button_at first_hit contains pressed
    armed_or_cancelled activation_for action_for_button
activates = refl

session_activation_iff_example :
    (((handle_session_message no_diagnostics ui always sender render
          (session_after no_diagnostics ui render always sender 4 hello pressed_down)
          []
          (SessionMessage.pointer finger_up)).0
        ≡ some tmux_activation)
      ↔ IsTap ui
          (noted (600, 800) [] (told no_diagnostics ui render always sender 4 hello pressed_down))
          finger_up
          tmux_activation)
    × ((handle_session_message no_diagnostics ui always sender render
            (session_after no_diagnostics ui render always sender 4 hello pressed_down)
            []
            (SessionMessage.pointer finger_up)).0
          ≡ some tmux_activation
        → hit ui (600, 800) finger_up ≡ some 5)
session_activation_iff_example =
    session_activation_iff no_diagnostics ui render always sender 4 hello pressed_down always sender
      [] finger_up tmux_activation
