-- ===== src/Paperpad/Mxcfb/Region.antt =====
-- src/mxcfb/region.rs: the parts of the visible screen that an update may refresh.
pub mod Regions
mod Tests
use rust_x11_hello.Prelude.{
  ℕ, ◌+◌, ◌≡◌, Bool, true, false, ◌&&◌, Option, none, some, Result, ok, err, ◌>>=◌, ◌>>◌, guard,
  ok_or, ltb, leb, ◌==◌, if◌then◌else◌,
}
use rust_x11_hello.Prelude.Checked.{checked_add}
use rust_x11_hello.Paperpad.Ui.Screen.{ScreenRect, ScreenLayout, system_ui_height}

-- `UpdateRegion` of src/mxcfb/update_abi.rs
pub record UpdateRegion : Type 0 where
  pub top : ℕ
  pub left : ℕ
  pub width : ℕ
  pub height : ℕ

pub data RegionError : Type 0 where
  empty_screen empty_region x_overflow y_overflow exceeds_screen dimensions_differ bottom_overflow
        overlaps incomplete_strip :
      RegionError

unfoldable pub checked_visible_region :
    (left top width height visible_width visible_height : ℕ) → Result RegionError UpdateRegion
checked_visible_region left top width height visible_width visible_height = do
  guard (ltb 0 visible_width && ltb 0 visible_height) empty_screen
  guard (ltb 0 width && ltb 0 height) empty_region
  right ← ok_or x_overflow (checked_add 32 left width)
  bottom ← ok_or y_overflow (checked_add 32 top height)
  guard (leb right visible_width && leb bottom visible_height) exceeds_screen
  ok (record { top = top; left = left; width = width; height = height })

unfoldable pub remote_update_region : ScreenLayout → ℕ → ℕ → Result RegionError UpdateRegion
unfolding checked_visible_region
remote_update_region screen visible_width visible_height = do
  guard ((screen.physical_size.0 == visible_width) && (screen.physical_size.1 == visible_height))
      dimensions_differ
  let remote = screen.remote_viewport
  remote_bottom ← ok_or bottom_overflow (checked_add 32 remote.y remote.height)
  guard (leb remote_bottom screen.system_ui_region.y) overlaps
  checked_visible_region remote.x remote.y remote.width remote.height visible_width visible_height

unfoldable pub system_ui_update_region : ScreenLayout → ℕ → ℕ → Result RegionError UpdateRegion
unfolding checked_visible_region
system_ui_update_region screen visible_width visible_height = do
  guard ((screen.physical_size.0 == visible_width) && (screen.physical_size.1 == visible_height))
      dimensions_differ
  let local = screen.system_ui_region
  guard (local.height == system_ui_height) incomplete_strip
  remote_bottom ←
      ok_or bottom_overflow (checked_add 32 screen.remote_viewport.y screen.remote_viewport.height)
  guard (leb remote_bottom local.y) overlaps
  checked_visible_region local.x local.y local.width local.height visible_width visible_height
