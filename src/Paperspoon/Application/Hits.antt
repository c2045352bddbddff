-- ===== src/Paperspoon/Application/Hits.antt =====
-- ApplicationUi::layout and ApplicationUi::hit: where the buttons are, and which one a point hits.
use mathlib.Core.Path.{subst}
use rust_x11_hello.Prelude.{
  ℕ, ◌+◌, ◌*◌, ◌<◌, ◌≡◌, ◌↔◌, ◌∙◌, refl, arith, true, false, Option, none, some, is_some,
  Option-cases, inl, inr, Bool-cases, ◌==◌, ◌||◌, sym, ap,
}
use rust_x11_hello.Protocol.Payload.{V2Pointer}
use rust_x11_hello.Paperspoon.Application.{
  contains, ApplicationUi, grid_cell_side, button_bounds, button_at, grid_from, grid_of,
  button_grid, ui_layout,
}
use rust_x11_hello.Paperspoon.Application.Input.{first_hit, hit_in, hit}
use rust_x11_hello.Paperspoon.Application.Grid.{
  grid_cell_side-IsSide, one_button, first_hit_only, grid_from_found, grid_from-All,
}

-- Button `id` is the one in the row and column that it counts, and holds the point.
pub record IsOn (w h x y id : ℕ) : Type 0 where
  pub row : ℕ
  pub column : ℕ
  pub side : ℕ
  pub row_fits : row < 3
  pub column_fits : column < 3
  pub counted : id ≡ row * 3 + column + 1
  pub cell : grid_cell_side w h ≡ some side
  pub inside : contains (button_bounds w side row column) x y ≡ true

empty_cell : (w h : ℕ) → (w == 0 || h == 0) ≡ true → grid_cell_side w h ≡ none
unfolding grid_cell_side
empty_cell w h e = ground (arith, e)

hit-empty :
    (ui : ApplicationUi) (w h : ℕ) (pointer : V2Pointer)
    → (w == 0 || h == 0) ≡ true
    → hit ui (w, h) pointer ≡ none
unfolding hit ui_layout hit_in
hit-empty ui w h pointer e = rw e refl

hit-layout :
    (ui : ApplicationUi) (w h : ℕ) (pointer : V2Pointer)
    → (w == 0 || h == 0) ≡ false
    → hit ui (w, h) pointer ≡ first_hit (button_grid w h) pointer.x pointer.y
unfolding hit ui_layout hit_in
hit-layout ui w h pointer e = rw e refl

hit-grid :
    (ui : ApplicationUi) (w h : ℕ) (pointer : V2Pointer)
    → hit ui (w, h) pointer ≡ first_hit (button_grid w h) pointer.x pointer.y
unfolding button_grid grid_of first_hit
hit-grid ui w h pointer = elim (Bool-cases (w == 0 || h == 0)) [
  | inl e ↦ hit-empty ui w h pointer e ∙ rw (empty_cell w h e) refl
  | inr e ↦ hit-layout ui w h pointer e
]

absurd_hit :
    (w h x y : ℕ) {id : ℕ} {A : Type 0}
    → grid_cell_side w h ≡ none
    → first_hit (button_grid w h) x y ≡ some id
    → A
unfolding button_grid grid_of first_hit
absurd_hit w h x y e found = ground (arith, rw e at (found))

button_grid-cell :
    (w h x y : ℕ) {id : ℕ}
    → first_hit (button_grid w h) x y ≡ some id
    → (side : ℕ) × (grid_cell_side w h ≡ some side)
unfolding button_grid grid_of first_hit
button_grid-cell w h x y e = elim (Option-cases (grid_cell_side w h)) [
  | inl e' ↦ absurd_hit w h x y e' e
  | inr cell ↦ cell
]

grid-first :
    (w h : ℕ) {side : ℕ} → grid_cell_side w h ≡ some side → button_grid w h ≡ grid_from w side 3 0
unfolding button_grid grid_of
grid-first w h e = rw e refl

found_unique :
    (o : Option ℕ) {id : ℕ}
    → is_some o ≡ true
    → ((found : ℕ) → o ≡ some found → found ≡ id)
    → o ≡ some id
found_unique none e unique = ground (arith, e)
found_unique (some found) e unique = ap some (unique found refl)

first-IsOn :
    (w h x y : ℕ) {side id : ℕ}
    → grid_cell_side w h ≡ some side
    → first_hit (grid_from w side 3 0) x y ≡ some id
    → IsOn w h x y id
unfolding button_at
first-IsOn w h x y {side} e found =
    first_hit_only (IsOn w h x y) (grid_from w side 3 0) x y
      (grid_from-All w side (λ b. contains b.bounds x y ≡ true → IsOn w h x y b.id) 3 0
        (λ r c lr lc inside. record {
          row = r;
          column = c;
          side = side;
          row_fits = lr;
          column_fits = lc;
          counted = refl;
          cell = e;
          inside = inside;
        }))
      found

same_side :
    (w h : ℕ) {s s' : ℕ} → grid_cell_side w h ≡ some s → grid_cell_side w h ≡ some s' → s' ≡ s
same_side w h e e' = ground (arith, e, e')

IsOn-unique : (w h x y : ℕ) {id id' : ℕ} → IsOn w h x y id → IsOn w h x y id' → id' ≡ id
IsOn-unique w h x y on on' =
    let (r, c) =
      one_button w h on.side on.row on.column on'.row on'.column x y
        (grid_cell_side-IsSide w h on.cell) on.column_fits on'.column_fits on.inside
        (subst (λ s. contains (button_bounds w s on'.row on'.column) x y ≡ true)
          (same_side w h on.cell on'.cell) on'.inside) in
    ground (arith, on.counted, on'.counted, r, c)

IsOn-hit : (w h x y : ℕ) {id : ℕ} → IsOn w h x y id → first_hit (button_grid w h) x y ≡ some id
IsOn-hit w h x y {id} on = rw (grid-first w h on.cell) (
    found_unique (first_hit (grid_from w on.side 3 0) x y)
      (grid_from_found w on.side 3 0 on.row on.column x y (ground arith)
        (ground (arith, on.row_fits)) on.column_fits on.inside)
      (λ _ found. IsOn-unique w h x y on (first-IsOn w h x y on.cell found)))

-- A point hits the button `id` exactly when the viewport has room for a grid, `id` counts a row and
-- a column of it, from 1 and row by row, and the bounds of the button there hold the point: no two
-- buttons share a point, so it does not matter which one is found first.
pub hit_iff :
    (ui : ApplicationUi) (w h : ℕ) (pointer : V2Pointer) (id : ℕ)
    → (hit ui (w, h) pointer ≡ some id) ↔ IsOn w h pointer.x pointer.y id
hit_iff ui w h pointer id = (
  λ e.
      let found = sym (hit-grid ui w h pointer) ∙ e in
      let (side, cell) = button_grid-cell w h pointer.x pointer.y found in
      first-IsOn w h pointer.x pointer.y cell (rw (grid-first w h cell) at (found)),
  λ on. hit-grid ui w h pointer ∙ IsOn-hit w h pointer.x pointer.y on,
)
