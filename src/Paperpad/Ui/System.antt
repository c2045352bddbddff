-- ===== src/Paperpad/Ui/System.antt =====
-- src/ui/system.rs, src/ui/geometry.rs and src/ui/button.rs: the local Exit control.
pub mod Bounds
mod Tests
use rust_x11_hello.Prelude.{
  ℕ, ◌+◌, ◌-◌, ◌*◌, ◌/◌, ◌≡◌, List, [], ◌∷◌, Bool, true, false, ◌&&◌, ◌||◌, Option, none, some,
  if◌then◌else◌, ltb, leb, ◌==◌, min,
}
use mathlib.Core.Option
use rust_x11_hello.Prelude.Options.{◌>>=◌, is_some_and}
use rust_x11_hello.Prelude.Int.{ℤ, pos, negsuc, below, at_least}
use rust_x11_hello.Paperpad.Ui.Screen.{
  PhysicalPoint, ScreenRect, ScreenLayout, new_layout, system_ui_height, i16_max,
}

abbrev pub cell_margin : ℕ
cell_margin = 20

abbrev pub label_text_y_offset : ℕ
label_text_y_offset = 5

abbrev pub exit_text_x_offset : ℕ
exit_text_x_offset = 18

-- `b"EXIT"`
abbrev pub exit_text : List ℕ
exit_text = 69 ∷ 88 ∷ 73 ∷ 84 ∷ []

abbrev pub connection_indicator_diameter : ℕ
connection_indicator_diameter = 24

abbrev pub primary_button_detail : ℕ
primary_button_detail = 1

pub data PointerEventKind : Type 0 where
  press release : PointerEventKind

pub record PointerEvent : Type 0 where
  pub kind : PointerEventKind
  pub detail : ℕ
  pub point : PhysicalPoint

pub record LogicalRect : Type 0 where
  pub x : ℕ
  pub y : ℕ
  pub width : ℕ
  pub height : ℕ

unfoldable pub contains_physical : LogicalRect → PhysicalPoint → Bool
contains_physical r p =
    at_least p.x r.x
    && (below p.x (r.x + r.width) && (at_least p.y r.y && below p.y (r.y + r.height)))

-- The part of `connection_indicator_bounds` behind the layout; `required_width` is 85, and no sum
-- leaves `u16` in a region of a screen.
unfoldable pub indicator_in : ScreenRect → Option LogicalRect
indicator_in region =
    let required_width = cell_margin * 3 + connection_indicator_diameter + 1 in
    if ltb region.height system_ui_height
      || (ltb region.width required_width || ltb region.height connection_indicator_diameter)
    then none
    else some (record {
      x = cell_margin;
      y = region.y + (region.height - connection_indicator_diameter) / 2;
      width = connection_indicator_diameter;
      height = connection_indicator_diameter;
    })

unfoldable pub connection_indicator_bounds : ℕ → ℕ → Option LogicalRect
connection_indicator_bounds width height = do
  screen ← new_layout width height
  indicator_in screen.system_ui_region

-- `.map(…).unwrap_or(CELL_MARGIN)`
unfoldable pub exit_left : Option LogicalRect → ℕ
exit_left none = cell_margin
exit_left (some indicator) = indicator.x + indicator.width + cell_margin

-- The part of `exit_bounds` behind the layout
unfoldable pub exit_in : ScreenLayout → Option LogicalRect → Option LogicalRect
exit_in screen indicator =
    let region = screen.system_ui_region in
    let physical_width = screen.physical_size.0 in
    let left = exit_left indicator in
    if ltb region.height system_ui_height || leb region.width (cell_margin * 2)
    then none
    else if leb physical_width (left + cell_margin)
    then none
    else some (record {
      x = left;
      y = region.y;
      width = physical_width - left - cell_margin;
      height = region.height;
    })

unfoldable pub exit_bounds : ℕ → ℕ → Option LogicalRect
exit_bounds width height = do
  screen ← new_layout width height
  exit_in screen (connection_indicator_bounds width height)

pub record LayoutRect : Type 0 where
  pub x : ℤ
  pub y : ℤ
  pub width : ℕ
  pub height : ℕ

pub record TextPlacement : Type 0 where
  pub x : ℤ
  pub y : ℤ
  pub text : List ℕ

pub record SystemDrawLayout : Type 0 where
  pub rectangle : LayoutRect
  pub text : TextPlacement
  pub connection_indicator : Option LayoutRect

unfoldable pub logical_coordinate : ℕ → ℤ
logical_coordinate value = pos (min value i16_max)

unfoldable pub layout_rect : LogicalRect → LayoutRect
layout_rect bounds = record {
  x = logical_coordinate bounds.x;
  y = logical_coordinate bounds.y;
  width = bounds.width;
  height = bounds.height;
}

unfoldable pub draw_layout : ℕ → ℕ → Option SystemDrawLayout
draw_layout width height = do
  bounds ← exit_bounds width height
  let center_x = bounds.x + bounds.width / 2
  let center_y = bounds.y + bounds.height / 2
  some (record {
    rectangle = layout_rect bounds;
    text = record {
      x = logical_coordinate (center_x - exit_text_x_offset);
      y = logical_coordinate (center_y + label_text_y_offset);
      text = exit_text;
    };
    connection_indicator = Option.map layout_rect (connection_indicator_bounds width height);
  })

pub data SystemAction : Type 0 where
  exit : SystemAction

pub data ExitContact : Type 0 where
  idle armed cancelled : ExitContact

pub record SystemUi : Type 0 where
  pub exit_contact : ExitContact

-- `.is_some_and(|bounds| bounds.contains_physical(event.point))`
unfoldable pub in_exit : ℕ → ℕ → PhysicalPoint → Bool
in_exit width height p =
    is_some_and (exit_bounds width height) (λ bounds. contains_physical bounds p)

unfoldable pub press_contact : ExitContact → Bool → ExitContact
press_contact idle inside = if inside then armed else cancelled
press_contact armed inside = cancelled
press_contact cancelled inside = cancelled

unfoldable pub is_armed : ExitContact → Bool
is_armed armed = true
is_armed _ = false

-- The `match` on the kind of an event of the primary button
unfoldable pub primary_exit : SystemUi → PointerEventKind → Bool → Option SystemAction × SystemUi
primary_exit ui press inside =
    (none, record { exit_contact = press_contact ui.exit_contact inside })
primary_exit ui release inside =
    (if is_armed ui.exit_contact && inside then some exit else none, record { exit_contact = idle })

unfoldable pub handle_system_pointer :
    SystemUi → PointerEvent → ℕ → ℕ → Option SystemAction × SystemUi
handle_system_pointer ui event width height =
    if event.detail == primary_button_detail
    then primary_exit ui event.kind (in_exit width height event.point)
    else (none, ui)

unfoldable pub cancel_exit_contact : SystemUi → SystemUi
cancel_exit_contact ui = record { exit_contact = idle }
