-- ===== src/Paperpad/Ui/Screen/Tests.antt =====
-- A window of 100 columns and 80 rows.
use rust_x11_hello.Prelude.{ℕ, ◌<◌, ◌≡◌, ◌↔◌, ◌⊎◌, refl, arith, none, some, min}
use rust_x11_hello.Prelude.Int.{pos, negsuc}
use rust_x11_hello.Paperpad.Ui.Screen.{ScreenRect, ScreenLayout, to_relative_point, new_layout}
use rust_x11_hello.Paperpad.Ui.Screen.Partition.{Covers, new_layout_lem}

abbrev box : ScreenRect
box = record { x = 10; y = 20; width = 30; height = 40 }

inside_box :
    to_relative_point box (record { x = pos 12; y = pos 23 }) ≡ some (record { x = 2; y = 3 })
unfolding to_relative_point
inside_box = refl

left_of_box : to_relative_point box (record { x = negsuc 0; y = pos 23 }) ≡ none
unfolding to_relative_point
left_of_box = refl

new_layout_lem_example :
    (l : ScreenLayout) × (new_layout 100 80 ≡ some l)
    × (l.physical_size ≡ (min 100 32767, min 80 32767))
    × (l.system_ui_region.height ≡ min 80 72)
    × ((x y : ℕ)
        → (((x < min 100 32767) × (y < min 80 32767))
            ↔ (Covers l.remote_viewport x y ⊎ Covers l.system_ui_region x y))
          × ¬ (Covers l.remote_viewport x y × Covers l.system_ui_region x y))
new_layout_lem_example = new_layout_lem 100 80 (omega arith) (omega arith)
