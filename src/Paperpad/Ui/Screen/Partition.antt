-- ===== src/Paperpad/Ui/Screen/Partition.antt =====
-- The two regions of a screen share no pixel and leave none out.
use rust_x11_hello.Prelude.{
  ℕ, ◌+◌, ◌≤◌, ◌<◌, ◌≡◌, ◌↔◌, ◌⊎◌, inl, inr, refl, arith, true, none, some, ltb, Bool-cases, min,
}
use rust_x11_hello.Prelude.Int.{ℤ, pos, negsuc, at_least, IsI16}
use rust_x11_hello.Paperpad.Ui.Screen.{
  PhysicalPoint, RemotePoint, ScreenRect, ScreenLayout, to_relative_point, partition, new_layout,
  physical_to_remote,
}

-- The pixel at column `x` and row `y` belongs to a rectangle.
abbrev pub Covers : ScreenRect → ℕ → ℕ → Type 0
Covers r x y = (r.x ≤ x) × (x < r.x + r.width) × (r.y ≤ y) × (y < r.y + r.height)

-- A point of 16-bit coordinates has coordinates in a rectangle exactly if it is one of its pixels, and these are its
-- distances from the top left corner; the conversion to `u16` loses nothing.
pub to_relative_point_iff :
    (r : ScreenRect) (x y : ℤ) (q : RemotePoint)
    → IsI16 x
    → IsI16 y
    → (to_relative_point r (record { x = x; y = y }) ≡ some q)
      ↔ ((x ≡ pos (r.x + q.x)) × (y ≡ pos (r.y + q.y)) × Covers r (r.x + q.x) (r.y + q.y))
unfolding to_relative_point
to_relative_point_iff r (pos x) (pos y) q hx hy = (λ e. ground arith, λ (ex, ey, c). ground arith)
to_relative_point_iff r (pos x) (negsuc y) q hx hy =
    (λ e. absurd (ground arith), λ (ex, ey, c). absurd (ground arith))
to_relative_point_iff r (negsuc x) y q hx hy =
    (λ e. absurd (ground arith), λ (ex, ey, c). absurd (ground arith))

-- `remote` and `system` are the two parts of a screen of `w` columns and `h` rows.
pub record IsPartition (w h : ℕ) (remote system : ScreenRect) : Type 0 where
  pub left : remote.x ≡ 0
  pub top : remote.y ≡ 0
  pub wide : remote.width ≡ w
  pub system_left : system.x ≡ 0
  pub system_wide : system.width ≡ w
  pub adjacent : system.y ≡ remote.height
  pub rows : remote.height + system.height ≡ h
  pub strip : system.height ≡ min h 72
  pub reach : (w ≤ 32767) × (h ≤ 32767)

pub new_layout-IsPartition :
    (w h : ℕ) {l : ScreenLayout}
    → new_layout w h ≡ some l
    → IsPartition l.physical_size.0 l.physical_size.1 l.remote_viewport l.system_ui_region
unfolding new_layout partition
new_layout-IsPartition w h {l} e = record {
  left = ground arith;
  top = ground arith;
  wide = ground arith;
  system_left = ground arith;
  system_wide = ground arith;
  adjacent = ground arith;
  rows = ground arith;
  strip = ground arith;
  reach = ground arith;
}

-- Every pixel of the screen belongs to the remote viewport or to the system strip, and to one of
-- them only.
pub IsPartition-Covers :
    {w h : ℕ} {remote system : ScreenRect} (x y : ℕ)
    → IsPartition w h remote system
    → (((x < w) × (y < h)) ↔ (Covers remote x y ⊎ Covers system x y))
      × ¬ (Covers remote x y × Covers system x y)
IsPartition-Covers {w} {h} {remote} {system} x y v = (
  (
    λ (hx, hy). elim (Bool-cases (ltb y remote.height)) [
      | inl up ↦ inl (ground (arith, v))
      | inr down ↦ inr (ground (arith, v))
    ],
    λ c. elim c [ inl up ↦ ground (arith, v) | inr down ↦ ground (arith, v) ],
  ),
  λ (up, down). ground (arith, v),
)

-- A window has a layout if it has pixels; then each pixel of the screen, which is the window up to
-- column and row 32766, belongs to one of the remote viewport and the system strip, and the strip
-- has 72 rows or, in a lower window, all of them.
pub new_layout_lem :
    (w h : ℕ)
    → 0 < w
    → 0 < h
    → (l : ScreenLayout) × (new_layout w h ≡ some l)
      × (l.physical_size ≡ (min w 32767, min h 32767))
      × (l.system_ui_region.height ≡ min h 72)
      × ((x y : ℕ)
          → (((x < min w 32767) × (y < min h 32767))
              ↔ (Covers l.remote_viewport x y ⊎ Covers l.system_ui_region x y))
            × ¬ (Covers l.remote_viewport x y × Covers l.system_ui_region x y))
unfolding new_layout partition
new_layout_lem w h hw hh =
    let e : new_layout w h ≡ some (partition w h) = ground arith in
    (
      partition w h,
      e,
      refl,
      ground arith,
      λ x y. IsPartition-Covers x y (new_layout-IsPartition w h e),
    )

-- The remote viewport starts at the origin, so its coordinates are those of the screen.
pub physical_to_remote_iff :
    (w h : ℕ) {l : ScreenLayout} (p : PhysicalPoint) (q : RemotePoint)
    → new_layout w h ≡ some l
    → IsI16 p.x
    → IsI16 p.y
    → (physical_to_remote l p ≡ some q) ↔ (
        (p.x ≡ pos q.x)
        × (p.y ≡ pos q.y)
        × (q.x < l.remote_viewport.width)
        × (q.y < l.remote_viewport.height))
unfolding physical_to_remote
physical_to_remote_iff w h {l} p q e hx hy =
    let v = new_layout-IsPartition w h e in
    let (there, back) = to_relative_point_iff l.remote_viewport p.x p.y q hx hy in
    (λ t. ground (arith, there t, v), λ (ex, ey, cx, cy). back (ground (arith, v)))

pub new_layout-size :
    (w h : ℕ) {l : ScreenLayout}
    → new_layout w h ≡ some l
    → (0 < w) × (0 < h) × (l.physical_size.0 ≡ min w 32767) × (l.physical_size.1 ≡ min h 32767)
unfolding new_layout partition
new_layout-size w h {l} e = (ground arith, ground arith, ground arith, ground arith)

pub new_layout-exists : (w h : ℕ) → 0 < w → 0 < h → (l : ScreenLayout) × (new_layout w h ≡ some l)
unfolding new_layout
new_layout-exists w h hw hh = (partition w h, ground arith)

-- A point in no row of a rectangle has no coordinates in it.
pub to_relative_point-under :
    (r : ScreenRect) (x y : ℤ) (row : ℕ)
    → r.y + r.height ≤ row
    → at_least y row ≡ true
    → to_relative_point r (record { x = x; y = y }) ≡ none
unfolding to_relative_point
to_relative_point-under r (pos x) (pos y) row under deep = ground arith
to_relative_point-under r (negsuc x) (pos y) row under deep = ground arith
to_relative_point-under r x (negsuc y) row under deep = absurd (ground arith)
