-- ===== src/Paperspoon/Application.antt =====
-- tools/paperspoon/src/application_ui.rs: the grid of buttons that PaperSpoon draws.
pub mod Grid
pub mod Hits
pub mod Placed
pub mod Input
mod Tests
use rust_x11_hello.Prelude.{
  ℕ, zero, suc, ◌+◌, ◌-◌, ◌*◌, ◌/◌, ◌≡◌, List, [], ◌∷◌, ◌++◌, Bool, true, false, ◌&&◌, ◌||◌, Option,
  none, some, ltb, leb, ◌==◌, if◌then◌else◌, min,
}
use mathlib.Core.Option

abbrev grid_columns : ℕ
grid_columns = 3

abbrev grid_rows : ℕ
grid_rows = 3

abbrev grid_cell_margin : ℕ
grid_cell_margin = 20

abbrev grid_top_inset : ℕ
grid_top_inset = 60

abbrev status_bar_height : ℕ
status_bar_height = 40

abbrev status_text_bottom_margin : ℕ
status_text_bottom_margin = 10

abbrev title_x : ℕ
title_x = grid_cell_margin

abbrev title_baseline : ℕ
title_baseline = 40

abbrev grid_label_x_offset : ℕ
grid_label_x_offset = 3

abbrev grid_label_y_offset : ℕ
grid_label_y_offset = 5

-- `"Core X11 button grid: tap 1-9"`
abbrev title_text : List ℕ
title_text =
    67 ∷ 111 ∷ 114 ∷ 101 ∷ 32 ∷ 88 ∷ 49 ∷ 49 ∷ 32 ∷ 98 ∷ 117 ∷ 116 ∷ 116 ∷ 111 ∷ 110 ∷ 32 ∷ 103
    ∷ 114 ∷ 105 ∷ 100 ∷ 58 ∷ 32 ∷ 116 ∷ 97 ∷ 112 ∷ 32 ∷ 49 ∷ 45 ∷ 57 ∷ []

pub record Rect : Type 0 where
  pub x : ℕ
  pub y : ℕ
  pub width : ℕ
  pub height : ℕ

-- The sums are of `u32`s.
unfoldable pub contains : Rect → ℕ → ℕ → Bool
contains r x y = leb r.x x && (leb r.y y && (ltb x (r.x + r.width) && ltb y (r.y + r.height)))

pub record TextRun : Type 0 where
  pub x : ℕ
  pub baseline_y : ℕ
  pub text : List ℕ

pub record ButtonLayout : Type 0 where
  pub id : ℕ
  pub bounds : Rect
  pub label : TextRun

pub record ApplicationLayout : Type 0 where
  pub width : ℕ
  pub height : ℕ
  pub title : TextRun
  pub buttons : List ButtonLayout
  pub status_region : Rect
  pub status : Option TextRun

pub record ApplicationUi : Type 0 where
  pub status : Option (List ℕ)

unfoldable pub set_status : ApplicationUi → List ℕ → ApplicationUi
set_status ui text = record ui { status = some text }

unfoldable pub clear_status : ApplicationUi → ApplicationUi
clear_status ui = record ui { status = none }

-- Three cells and their gaps, and as much height as stays for a row; `saturating_sub` stops at 0 too.
unfoldable pub grid_cell_side : ℕ → ℕ → Option ℕ
grid_cell_side width height =
    let row_gap = grid_cell_margin * 2 in
    let fixed_vertical_overhead = grid_top_inset + (grid_rows - 1) * row_gap + status_bar_height in
    let side =
      min (width / grid_columns - grid_cell_margin * 2)
        ((height - fixed_vertical_overhead) / grid_rows) in
    if width == 0 || height == 0 then none else if ltb 0 side then some side else none

abbrev pub button_x : ℕ → ℕ → ℕ → ℕ
button_x width side column =
    grid_cell_margin + (width - grid_cell_margin * 2 - side) * column / (grid_columns - 1)

abbrev pub button_y : ℕ → ℕ → ℕ
button_y side row = grid_top_inset + row * (side + grid_cell_margin * 2)

abbrev pub button_bounds : ℕ → ℕ → ℕ → ℕ → Rect
button_bounds width side row column = record {
  x = button_x width side column;
  y = button_y side row;
  width = side;
  height = side;
}

-- The label is the digit `id`.
unfoldable pub button_at : ℕ → ℕ → ℕ → ℕ → ButtonLayout
button_at width side row column =
    let index = row * grid_columns + column in
    record {
      id = index + 1;
      bounds = button_bounds width side row column;
      label = record {
        x = button_x width side column + side / 2 - grid_label_x_offset;
        baseline_y = button_y side row + side / 2 + grid_label_y_offset;
        text = (49 + index) ∷ [];
      };
    }

-- `for column in 0..GRID_COLUMNS`, from `column` on with `columns` left
unfoldable pub grid_row : ℕ → ℕ → ℕ → ℕ → ℕ → List ButtonLayout
grid_row width side row zero column = []
grid_row width side row (suc columns) column =
    button_at width side row column ∷ grid_row width side row columns (column + 1)

-- `for row in 0..GRID_ROWS`
unfoldable pub grid_from : ℕ → ℕ → ℕ → ℕ → List ButtonLayout
grid_from width side zero row = []
grid_from width side (suc rows) row =
    grid_row width side row grid_columns 0 ++ grid_from width side rows (row + 1)

unfoldable pub grid_of : ℕ → Option ℕ → List ButtonLayout
grid_of width none = []
grid_of width (some side) = grid_from width side grid_rows 0

unfoldable pub button_grid : ℕ → ℕ → List ButtonLayout
button_grid width height = grid_of width (grid_cell_side width height)

-- `ApplicationUi::layout`
unfoldable pub ui_layout : ApplicationUi → ℕ → ℕ → Option ApplicationLayout
ui_layout ui width height =
    let status_height = min status_bar_height height in
    if width == 0 || height == 0
    then none
    else some (record {
      width = width;
      height = height;
      title = record {
        x = min title_x (width - 1);
        baseline_y = min title_baseline (height - 1);
        text = title_text;
      };
      buttons = button_grid width height;
      status_region = record {
        x = 0;
        y = height - status_height;
        width = width;
        height = status_height;
      };
      status =
          Option.map
            (λ text. record {
              x = min grid_cell_margin (width - 1);
              baseline_y = min (height - status_text_bottom_margin) (height - 1);
              text = text;
            })
            ui.status;
    })
