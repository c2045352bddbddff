-- ===== src/Paperpad/Mxcfb/Request/Tests.antt =====
-- Markers around the wrap of `u32`
use rust_x11_hello.Prelude.{◌≡◌, refl}
use rust_x11_hello.Paperpad.Mxcfb.Request.{from_seed, next_marker}
use rust_x11_hello.Paperpad.Mxcfb.Request.Markers.{issued}
use rust_x11_hello.Prelude.{List, [], ◌∷◌, length}
use rust_x11_hello.Paperpad.Ui.Screen.{ScreenLayout}
use rust_x11_hello.Paperpad.Mxcfb.Request.Sequence.{
  Ask, remote, system_ui, asked, next_markers, asked-next_markers,
}

wraps : (issued 1 (from_seed 4294967295)).next ≡ 1
unfolding issued from_seed next_marker
wraps = refl

abbrev kindle : ScreenLayout
kindle = record {
  physical_size = (1272, 1696);
  remote_viewport = record { x = 0; y = 0; width = 1272; height = 1624 };
  system_ui_region = record { x = 0; y = 1624; width = 1272; height = 72 };
}

abbrev asks : List Ask
asks = remote kindle 1271 1696 ∷ system_ui kindle 1272 1696 ∷ remote kindle 1272 1696 ∷ []

asked-next_markers_example :
    asked asks (from_seed 42) ≡ next_markers (length (asked asks (from_seed 42)).0) (from_seed 42)
asked-next_markers_example = asked-next_markers asks (from_seed 42)
