-- ===== src/Paperspoon/Application/Placed.antt =====
-- ApplicationUi::layout: where the buttons and the status bar are.
use mathlib.Core.Path.{subst}
use rust_x11_hello.Prelude.{
  ℕ, ◌+◌, ◌-◌, ◌≤◌, ◌<◌, ◌≡◌, refl, arith, some, All, Option-cases, inl, inr, sym,
}
use rust_x11_hello.Paperspoon.Application.{
  Rect, ButtonLayout, ApplicationLayout, ApplicationUi, grid_cell_side, button_at, grid_of,
  button_grid, ui_layout,
}
use rust_x11_hello.Paperspoon.Application.Grid.{
  IsSide, grid_cell_side-IsSide, grid_from-All, last_row, last_column,
}

-- A button inside the margins of the viewport, under the title and above the status bar
pub record IsPlaced (w : ℕ) (status : Rect) (b : ButtonLayout) : Type 0 where
  pub some_side : 0 < b.bounds.width
  pub square : b.bounds.width ≡ b.bounds.height
  pub left : 20 ≤ b.bounds.x
  pub right : b.bounds.x + b.bounds.width + 20 ≤ w
  pub top : 60 ≤ b.bounds.y
  pub bottom : b.bounds.y + b.bounds.height ≤ status.y

button-IsPlaced :
    (w h : ℕ) {side : ℕ} (status : Rect) (row column : ℕ)
    → IsSide w h side
    → status.y ≡ h - 40
    → row < 3
    → column < 3
    → IsPlaced w status (button_at w side row column)
unfolding button_at
button-IsPlaced w h {side} status row column v e lr lc =
    let rows = last_row w h side v row lr in
    let columns = last_column w h side v column lc in
    record {
      some_side = v.some_side;
      square = refl;
      left = ground arith;
      right = ground (arith, columns, v.columns);
      top = ground arith;
      bottom = ground (arith, rows, v.rows, e);
    }

button_grid-ArePlaced :
    (w h : ℕ) (status : Rect) → status.y ≡ h - 40 → All (IsPlaced w status) (button_grid w h)
unfolding button_grid grid_of
button_grid-ArePlaced w h status e = elim (Option-cases (grid_cell_side w h)) [
  | inl small ↦ rw (small, grid_of) tt
  | inr (side, cell) ↦
      rw (cell, grid_of)
        (grid_from-All w side (IsPlaced w status) 3 0 (λ row column lr lc.
          button-IsPlaced w h status row column (grid_cell_side-IsSide w h cell) e
            (ground (arith, lr)) lc))
]

laid_out :
    (ui : ApplicationUi) (w h : ℕ) {l : ApplicationLayout}
    → ui_layout ui w h ≡ some l
    → (l.buttons ≡ button_grid w h)
      × (l.status_region.y ≡ h - 40)
      × (l.status_region.y + l.status_region.height ≡ h)
      × (l.status_region.x + l.status_region.width ≡ w)
unfolding ui_layout
laid_out ui w h e = (ground (arith, e), ground (arith, e), ground (arith, e), ground (arith, e))

-- The buttons of a layout are squares inside the margins of the viewport, under the title and above the
-- status bar, which is as wide as the viewport and ends where it ends.
pub ui_layout-IsPlaced :
    (ui : ApplicationUi) (w h : ℕ) {l : ApplicationLayout}
    → ui_layout ui w h ≡ some l
    → All (IsPlaced w l.status_region) l.buttons
      × (l.status_region.y + l.status_region.height ≡ h)
      × (l.status_region.x + l.status_region.width ≡ w)
ui_layout-IsPlaced ui w h {l} e =
    let (buttons, y, height, width) = laid_out ui w h e in
    (
      subst (All (IsPlaced w l.status_region)) (sym buttons)
          (button_grid-ArePlaced w h l.status_region y),
      height,
      width,
    )
