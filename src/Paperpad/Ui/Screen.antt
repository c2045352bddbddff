-- ===== src/Paperpad/Ui/Screen.antt =====
-- src/ui/screen.rs: the partition of the screen into the remote viewport and the system strip.
pub mod Partition
mod Tests
use rust_x11_hello.Prelude.{
  ℕ, ◌+◌, ◌-◌, ◌≡◌, Bool, true, false, ◌||◌, Option, none, some, if◌then◌else◌, ltb, leb, ◌==◌, min,
}
use rust_x11_hello.Prelude.Int.{ℤ, pos, negsuc, below, at_least, minus, as_u16}

abbrev pub system_ui_height : ℕ
system_ui_height = 72

-- `i16::MAX as u16`
abbrev pub i16_max : ℕ
i16_max = 32767

pub record PhysicalPoint : Type 0 where
  pub x : ℤ
  pub y : ℤ

pub record RemotePoint : Type 0 where
  pub x : ℕ
  pub y : ℕ

pub record ScreenRect : Type 0 where
  pub x : ℕ
  pub y : ℕ
  pub width : ℕ
  pub height : ℕ

-- The sums of two `u16` fit the `i32` that they are computed in.
unfoldable pub to_relative_point : ScreenRect → PhysicalPoint → Option RemotePoint
to_relative_point r p =
    let right = r.x + r.width in
    let bottom = r.y + r.height in
    if below p.x r.x || (below p.y r.y || (at_least p.x right || at_least p.y bottom))
    then none
    else some (record { x = as_u16 (minus p.x r.x); y = as_u16 (minus p.y r.y) })

pub record ScreenLayout : Type 0 where
  pub physical_size : ℕ × ℕ
  pub remote_viewport : ScreenRect
  pub system_ui_region : ScreenRect

-- The layout behind the test for an empty window
unfoldable pub partition : ℕ → ℕ → ScreenLayout
partition width height =
    let w = min width i16_max in
    let h = min height i16_max in
    let system_height = min h system_ui_height in
    let remote_height = h - system_height in
    record {
      physical_size = (w, h);
      remote_viewport = record { x = 0; y = 0; width = w; height = remote_height };
      system_ui_region = record { x = 0; y = remote_height; width = w; height = system_height };
    }

unfoldable pub new_layout : ℕ → ℕ → Option ScreenLayout
new_layout width height = if width == 0 || height == 0 then none else some (partition width height)

unfoldable pub physical_to_remote : ScreenLayout → PhysicalPoint → Option RemotePoint
physical_to_remote l p = to_relative_point l.remote_viewport p
