-- ===== src/Paperpad/Mxcfb/Region/Regions.antt =====
-- The two update regions are the two parts of the screen.
use mathlib.Core.Path.{subst}
use rust_x11_hello.Prelude.{ℕ, ◌+◌, ◌≡◌, ◌≤◌, ◌<◌, ◌^◌, ◌↔◌, ◌⊎◌, arith, some, ok}
use rust_x11_hello.Paperpad.Ui.Screen.{ScreenRect, ScreenLayout, new_layout}
use rust_x11_hello.Paperpad.Ui.Screen.Partition.{
  Covers, IsPartition, IsPartition-Covers, new_layout-IsPartition, new_layout-size,
}
use rust_x11_hello.Paperpad.Mxcfb.Region.{
  UpdateRegion, checked_visible_region, remote_update_region, system_ui_update_region,
}

-- A region as a rectangle of the screen
abbrev pub rect_of : UpdateRegion → ScreenRect
rect_of r = record { x = r.left; y = r.top; width = r.width; height = r.height }

-- `checked_visible_region` accepts exactly the rectangles that are not empty and lie in the visible
-- screen, whose dimensions are `u32`, and returns the rectangle that it was given.
pub checked_visible_region_iff :
    (left top width height vw vh : ℕ) (r : UpdateRegion)
    → vw < 2 ^ 32
    → vh < 2 ^ 32
    → (checked_visible_region left top width height vw vh ≡ ok r) ↔ (
        (rect_of r ≡ record { x = left; y = top; width = width; height = height })
        × (0 < width)
        × (0 < height)
        × (left + width ≤ vw)
        × (top + height ≤ vh))
unfolding checked_visible_region
checked_visible_region_iff left top width height vw vh r hw hh =
    (λ e. ground arith, λ (same, some_columns, some_rows, right, bottom). ground arith)

abbrev pub region_of : ScreenRect → UpdateRegion
region_of s = record { top = s.y; left = s.x; width = s.width; height = s.height }

module _ (l : ScreenLayout)
    (v : IsPartition l.physical_size.0 l.physical_size.1 l.remote_viewport l.system_ui_region) where
  pub remote_update_region-ok :
      72 < l.physical_size.1
      → 0 < l.physical_size.0
      → remote_update_region l l.physical_size.0 l.physical_size.1
        ≡ ok (region_of l.remote_viewport)
  unfolding remote_update_region checked_visible_region
  remote_update_region-ok tall wide = ground (arith, v)

  pub system_ui_update_region-ok :
      72 ≤ l.physical_size.1
      → 0 < l.physical_size.0
      → system_ui_update_region l l.physical_size.0 l.physical_size.1
        ≡ ok (region_of l.system_ui_region)
  unfolding system_ui_update_region checked_visible_region
  system_ui_update_region-ok tall wide = ground (arith, v)

  remote_update_region-needs :
      (vw vh : ℕ) {r : UpdateRegion}
      → remote_update_region l vw vh ≡ ok r
      → (l.physical_size.0 ≡ vw) × (l.physical_size.1 ≡ vh) × (72 < vh)
  unfolding remote_update_region checked_visible_region
  remote_update_region-needs vw vh e = ground (arith, v)

-- For a window of more than 72 rows whose layout has the size of the visible screen, both updates
-- have a region; each visible pixel belongs to one of the regions, and none to both.
pub update_regions_lem :
    (w h : ℕ) {l : ScreenLayout}
    → new_layout w h ≡ some l
    → 72 < h
    → (remote system : UpdateRegion) × (remote_update_region l l.physical_size.0 l.physical_size.1
        ≡ ok remote)
      × (system_ui_update_region l l.physical_size.0 l.physical_size.1 ≡ ok system)
      × ((x y : ℕ)
          → (((x < l.physical_size.0) × (y < l.physical_size.1))
              ↔ (Covers (rect_of remote) x y ⊎ Covers (rect_of system) x y))
            × ¬ (Covers (rect_of remote) x y × Covers (rect_of system) x y))
update_regions_lem w h {l} e tall =
    let v = new_layout-IsPartition w h e in
    let size = new_layout-size w h e in
    (
      region_of l.remote_viewport,
      region_of l.system_ui_region,
      remote_update_region-ok l v (omega (arith, size)) (omega (arith, size)),
      system_ui_update_region-ok l v (omega (arith, size)) (omega (arith, size)),
      λ x y. IsPartition-Covers x y v,
    )

-- A remote update has a region only for the visible dimensions of the layout, and only if these have
-- more than the 72 rows of the system strip.
pub remote_update_region_iff :
    (w h vw vh : ℕ) {l : ScreenLayout}
    → new_layout w h ≡ some l
    → ((r : UpdateRegion) × (remote_update_region l vw vh ≡ ok r))
      ↔ ((l.physical_size.0 ≡ vw) × (l.physical_size.1 ≡ vh) × (72 < vh))
remote_update_region_iff w h vw vh {l} e =
    let v = new_layout-IsPartition w h e in
    let size = new_layout-size w h e in
    (
      λ (r, done). remote_update_region-needs l v vw vh done,
      λ (ew, eh, tall). (
        region_of l.remote_viewport,
        subst (λ n. remote_update_region l n vh ≡ ok (region_of l.remote_viewport)) ew
            (subst
              (λ n. remote_update_region l l.physical_size.0 n ≡ ok (region_of l.remote_viewport))
              eh (remote_update_region-ok l v (omega (arith, eh, tall)) (omega (arith, size)))),
      ),
    )
