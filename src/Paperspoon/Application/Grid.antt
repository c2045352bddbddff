-- ===== src/Paperspoon/Application/Grid.antt =====
-- The buttons lie in the viewport, above the status bar, and share no point; a hit finds the one.
use mathlib.Core.Path.{subst}
use native.Mathlib.Decide.{dec_lt, ℕ_discrete}
use rust_x11_hello.Prelude.{
  ℕ, zero, suc, ◌+◌, ◌-◌, ◌*◌, ◌≤◌, ◌<◌, ◌≡◌, ◌↔◌, ◌⊎◌, inl, inr, arith, List, [], ◌∷◌, ◌++◌, true,
  some, is_some, All, All-append, Bool-cases,
}
use rust_x11_hello.Paperspoon.Application.{
  Rect, contains, ButtonLayout, grid_cell_side, button_x, button_y, button_bounds, button_at,
  grid_row, grid_from,
}
use rust_x11_hello.Paperspoon.Application.Input.{first_hit}

-- The side of a cell leaves room for three of them, their gaps, the title and the status bar.
pub record IsSide (w h side : ℕ) : Type 0 where
  pub some_side : 0 < side
  pub columns : 3 * side + 120 ≤ w
  pub rows : 3 * side + 180 ≤ h

pub grid_cell_side-IsSide : (w h : ℕ) {side : ℕ} → grid_cell_side w h ≡ some side → IsSide w h side
unfolding grid_cell_side
grid_cell_side-IsSide w h {side} e = record {
  some_side = ground arith;
  columns = ground arith;
  rows = ground arith;
}

-- A point in a rectangle
contains_iff :
    (r : Rect) (x y : ℕ)
    → (contains r x y ≡ true) ↔ ((r.x ≤ x) × (x < r.x + r.width) × (r.y ≤ y) × (y < r.y + r.height))
unfolding contains
contains_iff r x y = (
  λ e. (ground (arith, e), ground (arith, e), ground (arith, e), ground (arith, e)),
  λ (a, b, c, d). ground (arith, a, b, c, d),
)

module _ (w h side : ℕ) (v : IsSide w h side) where
  rows_apart : (row row' : ℕ) → row < row' → row * (side + 40) + side < row' * (side + 40)
  rows_apart row row' lt = grind arith

  columns_apart :
      (column column' : ℕ)
      → column < column'
      → column' < 3
      → button_x w side column + side < button_x w side column'
  columns_apart zero (suc zero) lt hi = ground (arith, v.columns, v.some_side)
  columns_apart zero (suc (suc zero)) lt hi = ground (arith, v.columns, v.some_side)
  columns_apart (suc zero) (suc (suc zero)) lt hi = ground (arith, v.columns, v.some_side)
  columns_apart column (suc (suc (suc n))) lt hi = ground (arith, hi)
  columns_apart (suc (suc n)) (suc (suc zero)) lt hi = ground (arith, lt)
  columns_apart (suc n) (suc zero) lt hi = ground (arith, lt)
  columns_apart column zero lt hi = ground (arith, lt)

  pub last_row : (row : ℕ) → row < 3 → row * (side + 40) + side ≤ 3 * side + 80
  last_row row lt = grind arith

  pub last_column : (column : ℕ) → column < 3 → button_x w side column + side ≤ w - 20
  last_column zero lt = ground (arith, v.columns)
  last_column (suc zero) lt = ground (arith, v.columns)
  last_column (suc (suc zero)) lt = ground (arith, v.columns)
  last_column (suc (suc (suc n))) lt = ground (arith, lt)

-- Segments in order share no point.
same_segment :
    (m n a b len x : ℕ)
    → (m < n → a + len ≤ b)
    → (n < m → b + len ≤ a)
    → (a ≤ x) × (x < a + len)
    → (b ≤ x) × (x < b + len)
    → m ≡ n
same_segment m n a b len x before after (lo, hi) (lo', hi') = elim (dec_lt m n) [
  | yes lt ↦ ground (arith, before lt)
  | no ge ↦ elim (dec_lt n m) [ yes lt ↦ ground (arith, after lt) | no le ↦ ground (arith, ge, le) ]
]

-- No two buttons share a point.
pub one_button :
    (w h side row column row' column' x y : ℕ)
    → IsSide w h side
    → column < 3
    → column' < 3
    → contains (button_bounds w side row column) x y ≡ true
    → contains (button_bounds w side row' column') x y ≡ true
    → (row ≡ row') × (column ≡ column')
one_button w h side row column row' column' x y v lt lt' c c' =
    let (a, b, d, e) = (contains_iff (button_bounds w side row column) x y).0 c in
    let (a', b', d', e') = (contains_iff (button_bounds w side row' column') x y).0 c' in
    (
      same_segment row row' (button_y side row) (button_y side row') side y
          (λ o. ground (arith, rows_apart w h side v row row' o))
          (λ o. ground (arith, rows_apart w h side v row' row o)) (d, e) (d', e'),
      same_segment column column' (button_x w side column) (button_x w side column') side x
          (λ o. ground (arith, columns_apart w h side v column column' o lt'))
          (λ o. ground (arith, columns_apart w h side v column' column o lt)) (a, b) (a', b'),
    )

-- The first button with a point, when its id is all that matters
pub first_hit_only :
    (P : ℕ → Type 0) (buttons : List ButtonLayout) (x y : ℕ) {id : ℕ}
    → All (λ b. contains b.bounds x y ≡ true → P b.id) buttons
    → first_hit buttons x y ≡ some id
    → P id
unfolding first_hit
first_hit_only P [] x y all e = ground (arith, e)
first_hit_only P (b ∷ buttons) x y {id} (p, ps) e =
    let later = first_hit_only P buttons x y {id = id} ps in
    elim (Bool-cases (contains b.bounds x y)) as (λ _. P id) [
      | inl inside ↦ subst P (ground (arith, e, inside)) (p inside)
      | inr outside ↦ later (ground (arith, e, outside))
    ]

found_append :
    (front back : List ButtonLayout) (x y : ℕ)
    → (is_some (first_hit front x y) ≡ true) ⊎ (is_some (first_hit back x y) ≡ true)
    → is_some (first_hit (front ++ back) x y) ≡ true
unfolding first_hit
found_append [] back x y (inl e) = ground (arith, e)
found_append [] back x y (inr e) = e
found_append (b ∷ front) back x y e =
    let later = found_append front back x y in ground (arith, later, e)

grid_row_found :
    (w side row columns column c x y : ℕ)
    → column ≤ c
    → c < column + columns
    → contains (button_bounds w side row c) x y ≡ true
    → is_some (first_hit (grid_row w side row columns column) x y) ≡ true
unfolding first_hit grid_row button_at
grid_row_found w side row zero column c x y le lt e = ground (arith, le, lt)
grid_row_found w side row (suc columns) column c x y le lt e =
    elim (ℕ_discrete c column)
      as (λ _. is_some (first_hit (grid_row w side row (suc columns) column) x y) ≡ true) [
        | yes same ↦
            ground (arith, subst (λ c. contains (button_bounds w side row c) x y ≡ true) same e)
        | no other ↦
            let later =
              grid_row_found w side row columns (column + 1) c x y (ground (arith, le, other))
                (ground (arith, lt)) e in
            ground (arith, later)
      ]

pub grid_from_found :
    (w side rows row r c x y : ℕ)
    → row ≤ r
    → r < row + rows
    → c < 3
    → contains (button_bounds w side r c) x y ≡ true
    → is_some (first_hit (grid_from w side rows row) x y) ≡ true
unfolding grid_from
grid_from_found w side zero row r c x y le lt lc e = ground (arith, le, lt)
grid_from_found w side (suc rows) row r c x y le lt lc e =
    let found = found_append (grid_row w side row 3 0) (grid_from w side rows (row + 1)) x y in
    elim (ℕ_discrete r row) [
      | yes same ↦ found (
          inl (
            grid_row_found w side row 3 0 c x y (ground arith) lc
              (subst (λ r. contains (button_bounds w side r c) x y ≡ true) same e)))
      | no other ↦ found (
          inr (
            grid_from_found w side rows (row + 1) r c x y (ground (arith, le, other))
              (ground (arith, lt)) lc e))
    ]

module _ (w side : ℕ) (P : ButtonLayout → Type 0) where
  grid_row-All :
      (row columns column : ℕ)
      → ((c : ℕ) → c < column + columns → P (button_at w side row c))
      → All P (grid_row w side row columns column)
  unfolding grid_row
  grid_row-All row zero column p = tt
  grid_row-All row (suc columns) column p = (
    p column (ground arith),
    grid_row-All row columns (column + 1) (λ c lt. p c (ground (arith, lt))),
  )

  pub grid_from-All :
      (rows row : ℕ)
      → ((r c : ℕ) → r < row + rows → c < 3 → P (button_at w side r c))
      → All P (grid_from w side rows row)
  unfolding grid_from
  grid_from-All zero row p = tt
  grid_from-All (suc rows) row p =
      All-append P (grid_row w side row 3 0) (grid_from w side rows (row + 1))
        (grid_row-All row 3 0 (λ c lt. p row c (ground arith) lt))
        (grid_from-All rows (row + 1) (λ r c lt. p r c (ground (arith, lt))))
