-- ===== src/Paperpad/App.antt =====
-- src/app.rs, `AppState`: what a touch becomes, a record for PaperSpoon or a local Exit.
pub mod Contact
pub mod Remote
pub mod History
pub mod Exit
mod Tests
use rust_x11_hello.Prelude.{
  ℕ, ◌≡◌, Bool, true, false, ◌&&◌, ◌||◌, Option, none, some, if◌then◌else◌, ◌==◌,
}
use mathlib.Core.Option
use rust_x11_hello.Prelude.Options.{unwrap_or}
use rust_x11_hello.Paperpad.Ui.Screen.{RemotePoint, ScreenLayout, new_layout, physical_to_remote}
use rust_x11_hello.Paperpad.Ui.System.{
  PointerEventKind, press, release, PointerEvent, primary_button_detail, SystemAction, exit,
  SystemUi, idle, handle_system_pointer, cancel_exit_contact,
}

pub data Activation : Type 0 where
  exit_program : Activation

pub data GeometryUpdate : Type 0 where
  ignored_zero unchanged : GeometryUpdate
  redraw : ℕ × ℕ → GeometryUpdate

pub record RemotePointerEvent : Type 0 where
  pub kind : PointerEventKind
  pub point : RemotePoint

pub record PointerOutcome : Type 0 where
  pub activation : Option Activation
  pub remote : Option RemotePointerEvent

pub record AppState : Type 0 where
  pub width : ℕ
  pub height : ℕ
  pub remote_contact_active : Bool
  pub system_ui : SystemUi

-- `AppState::new`
unfoldable pub new_app : ℕ × ℕ → AppState
new_app size = record {
  width = size.0;
  height = size.1;
  remote_contact_active = false;
  system_ui = record { exit_contact = idle };
}

unfoldable pub update_geometry : AppState → ℕ × ℕ → GeometryUpdate × AppState
unfolding cancel_exit_contact
update_geometry s reported =
    if reported.0 == 0 || reported.1 == 0
    then (ignored_zero, s)
    else if (reported.0 == s.width) && (reported.1 == s.height)
    then (unchanged, s)
    else (
      redraw reported,
      record {
        width = reported.0;
        height = reported.1;
        remote_contact_active = false;
        system_ui = cancel_exit_contact s.system_ui;
      },
    )

unfoldable pub cancel_contact : AppState → AppState
unfolding cancel_exit_contact
cancel_contact s = record s {
  remote_contact_active = false;
  system_ui = cancel_exit_contact s.system_ui;
}

-- The `match` of `handle_remote_pointer` on the kind of an event: the record for PaperSpoon, and
-- whether a remote contact is active afterwards.
unfoldable pub primary_remote :
    Bool → PointerEventKind → Option RemotePoint → RemotePoint → Option RemotePointerEvent × Bool
primary_remote true press remote_point cancel_point =
    (some (record { kind = release; point = cancel_point }), false)
primary_remote false press (some point) cancel_point =
    (some (record { kind = press; point = point }), true)
primary_remote false press none cancel_point = (none, false)
primary_remote true release remote_point cancel_point =
    (some (record { kind = release; point = unwrap_or remote_point cancel_point }), false)
primary_remote false release remote_point cancel_point = (none, false)

unfoldable pub handle_remote_pointer :
    Bool → PointerEvent → Option RemotePoint → ℕ × ℕ → Option RemotePointerEvent × Bool
handle_remote_pointer active event remote_point remote_size =
    if event.detail == primary_button_detail
    then primary_remote active event.kind remote_point
        (record { x = remote_size.0; y = remote_size.1 })
    else (none, active)

-- The `match` on the layout
unfoldable pub remote_of : Option ScreenLayout → PointerEvent → Option RemotePoint × (ℕ × ℕ)
remote_of none event = (none, (0, 0))
remote_of (some layout) event = (
  physical_to_remote layout event.point,
  (layout.remote_viewport.width, layout.remote_viewport.height),
)

unfoldable pub activation_of : SystemAction → Activation
activation_of exit = exit_program

unfoldable pub handle_pointer : AppState → PointerEvent → PointerOutcome × AppState
handle_pointer s event =
    let (system_action, system_ui) = handle_system_pointer s.system_ui event s.width s.height in
    let (remote_point, remote_size) = remote_of (new_layout s.width s.height) event in
    let (remote, active) =
      handle_remote_pointer s.remote_contact_active event remote_point remote_size in
    (
      record { activation = Option.map activation_of system_action; remote = remote },
      record s { remote_contact_active = active; system_ui = system_ui },
    )
