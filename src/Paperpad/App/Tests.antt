-- ===== src/Paperpad/App/Tests.antt =====
-- Touches on a window of 100 columns and 80 rows.
use rust_x11_hello.Prelude.{◌==◌, ◌↔◌, true}
use rust_x11_hello.Paperpad.App.History.{window_after}
use rust_x11_hello.Paperpad.App.Exit.{Armed, activation_iff}
use rust_x11_hello.Prelude.{ℕ, ◌≡◌, ◌≢◌, refl, arith, List, [], ◌∷◌, none, some}
use rust_x11_hello.Prelude.Int.{pos}
use rust_x11_hello.Paperpad.Ui.Screen.{
  ScreenLayout, new_layout, partition, physical_to_remote, to_relative_point,
}
use rust_x11_hello.Paperpad.Ui.System.{
  PointerEventKind, press, release, PointerEvent, contains_physical, indicator_in,
  connection_indicator_bounds, exit_left, exit_in, exit_bounds, in_exit, handle_system_pointer,
  primary_exit, press_contact, is_armed,
}
use rust_x11_hello.Paperpad.App.{
  RemotePointerEvent, new_app, primary_remote, handle_remote_pointer, remote_of, activation_of,
  handle_pointer,
}
use rust_x11_hello.Paperpad.App.Contact.{pointer, app_after, app_step, exit-not_remote}
use rust_x11_hello.Paperpad.App.Remote.{
  remote_records, record_in_front, Alternates, remote_records-Alternates,
}

abbrev touch : PointerEventKind → ℕ → ℕ → PointerEvent
touch kind x y = record { kind = kind; detail = 1; point = record { x = pos x; y = pos y } }

abbrev layout : ScreenLayout
layout = record {
  physical_size = (100, 80);
  remote_viewport = record { x = 0; y = 0; width = 100; height = 8 };
  system_ui_region = record { x = 0; y = 8; width = 100; height = 72 };
}

-- A press in Exit, and then a release there
exits :
    (handle_pointer
      (app_after (100, 80) (pointer (touch press 70 20) ∷ []))
      (touch release 70 20)).0.activation
    ≢ none
unfolding handle_pointer handle_system_pointer handle_remote_pointer primary_remote primary_exit
    press_contact is_armed activation_of remote_of in_exit contains_physical exit_bounds exit_in
    exit_left connection_indicator_bounds indicator_in new_layout partition app_after app_step
    new_app physical_to_remote to_relative_point
exits e = ground arith

exit-not_remote_example :
    (handle_pointer
      (app_after (100, 80) (pointer (touch press 70 20) ∷ []))
      (touch release 70 20)).0.remote
    ≡ none
exit-not_remote_example =
    exit-not_remote (100, 80) (pointer (touch press 70 20) ∷ []) (touch release 70 20) exits

-- A contact that starts in the viewport and ends in Exit
abbrev drag : List PointerEvent
drag = touch press 5 7 ∷ touch release 70 20 ∷ []

drag-records :
    remote_records (new_app (100, 80)) drag
    ≡ record { kind = press; point = record { x = 5; y = 7 } }
      ∷ record { kind = release; point = record { x = 100; y = 8 } }
      ∷ []
unfolding remote_records record_in_front handle_pointer handle_system_pointer handle_remote_pointer
    primary_remote primary_exit press_contact is_armed activation_of remote_of in_exit
    contains_physical exit_bounds exit_in exit_left connection_indicator_bounds indicator_in
    new_layout partition new_app physical_to_remote to_relative_point
drag-records = refl

remote_records-Alternates_example :
    Alternates (new_app (100, 80)).remote_contact_active (remote_records (new_app (100, 80)) drag)
remote_records-Alternates_example = remote_records-Alternates (new_app (100, 80)) drag

layout-eq : new_layout (new_app (100, 80)).width (new_app (100, 80)).height ≡ some layout
unfolding new_layout partition new_app
layout-eq = refl

abbrev pressed : RemotePointerEvent
pressed = record { kind = press; point = record { x = 5; y = 7 } }

pressed-sent : (handle_pointer (new_app (100, 80)) (touch press 5 7)).0.remote ≡ some pressed
unfolding handle_pointer handle_system_pointer handle_remote_pointer primary_remote remote_of
    new_layout partition new_app physical_to_remote to_relative_point
pressed-sent = refl

activation_iff_example :
    ((handle_pointer
        (app_after (100, 80) (pointer (touch press 70 20) ∷ []))
        (touch release 70 20)).0.activation
      ≢ none)
    ↔ (((1 == 1) ≡ true)
        × (release ≡ release)
        × (in_exit 100 80 (record { x = pos 70; y = pos 20 }) ≡ true)
        × Armed (100, 80) (pointer (touch press 70 20) ∷ []))
unfolding window_after
activation_iff_example =
    activation_iff (100, 80) (pointer (touch press 70 20) ∷ []) (touch release 70 20)
