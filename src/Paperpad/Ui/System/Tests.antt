-- ===== src/Paperpad/Ui/System/Tests.antt =====
-- Exit in a window of 100 columns and 80 rows.
use rust_x11_hello.Prelude.{◌≡◌, refl, some}
use rust_x11_hello.Prelude.Int.{pos}
use rust_x11_hello.Paperpad.Ui.Screen.{ScreenLayout, new_layout, partition}
use rust_x11_hello.Paperpad.Ui.System.{
  LogicalRect, indicator_in, connection_indicator_bounds, exit_left, exit_in, exit_bounds,
  draw_layout, layout_rect, logical_coordinate, exit_text,
}

abbrev layout : ScreenLayout
layout = record {
  physical_size = (100, 80);
  remote_viewport = record { x = 0; y = 0; width = 100; height = 8 };
  system_ui_region = record { x = 0; y = 8; width = 100; height = 72 };
}

layout-eq : new_layout 100 80 ≡ some layout
unfolding new_layout partition
layout-eq = refl

abbrev bounds : LogicalRect
bounds = record { x = 64; y = 8; width = 16; height = 72 }

bounds-eq : exit_bounds 100 80 ≡ some bounds
unfolding exit_bounds exit_in exit_left connection_indicator_bounds indicator_in new_layout
    partition
bounds-eq = refl

-- The Kindle's own size
kindle : exit_bounds 1272 1696 ≡ some (record { x = 64; y = 1624; width = 1188; height = 72 })
unfolding exit_bounds exit_in exit_left connection_indicator_bounds indicator_in new_layout
    partition
kindle = refl

kindle_drawn :
    draw_layout 1272 1696
    ≡ some (record {
      rectangle = record { x = pos 64; y = pos 1624; width = 1188; height = 72 };
      text = record { x = pos 640; y = pos 1665; text = exit_text };
      connection_indicator = some (record { x = pos 20; y = pos 1648; width = 24; height = 24 });
    })
unfolding draw_layout layout_rect logical_coordinate exit_bounds exit_in exit_left
    connection_indicator_bounds indicator_in new_layout partition
kindle_drawn = refl
