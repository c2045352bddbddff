-- ===== src/Paperpad/Ui/System/Bounds.antt =====
-- Where the Exit control and the connection indicator are.
use rust_x11_hello.Prelude.{
  ℕ, ◌+◌, ◌≤◌, ◌<◌, ◌≡◌, ◌≢◌, ◌↔◌, inl, inr, refl, arith, true, Option, none, some, Option-cases,
}
use rust_x11_hello.Prelude.Options.{>>=-eq-some}
use rust_x11_hello.Prelude.Int.{at_least}
use rust_x11_hello.Paperpad.Ui.Screen.{PhysicalPoint, ScreenLayout, new_layout, physical_to_remote}
use rust_x11_hello.Paperpad.Ui.Screen.Partition.{
  IsPartition, new_layout-IsPartition, new_layout-size, new_layout-exists, to_relative_point-under,
}
use rust_x11_hello.Paperpad.Ui.System.{
  LogicalRect, contains_physical, indicator_in, connection_indicator_bounds, exit_left, exit_in,
  exit_bounds, in_exit,
}

exit_bounds-eq-some :
    (w h : ℕ) {b : LogicalRect}
    → exit_bounds w h ≡ some b
    → (l : ScreenLayout) × (new_layout w h ≡ some l)
      × (exit_in l (connection_indicator_bounds w h) ≡ some b)
unfolding exit_bounds
exit_bounds-eq-some w h e = >>=-eq-some (new_layout w h) _ e

-- The rows and columns of Exit lie in the system strip, and keep the margins.
pub record IsExit (l : ScreenLayout) (b : LogicalRect) : Type 0 where
  pub left : 20 ≤ b.x
  pub columns : b.x + b.width + 20 ≡ l.physical_size.0
  pub wide : 0 < b.width
  pub top : b.y ≡ l.system_ui_region.y
  pub rows : b.y + b.height ≡ l.physical_size.1
  pub tall : b.height ≡ 72

-- The same for the connection indicator, left of Exit.
pub record IsIndicator (l : ScreenLayout) (i : LogicalRect) : Type 0 where
  pub left : i.x ≡ 20
  pub wide : i.width ≡ 24
  pub tall : i.height ≡ 24
  pub top : i.y ≡ l.system_ui_region.y + 24
  pub inside : i.y + i.height < l.physical_size.1

-- Both rectangles of one window are computed from its one layout.
bounds-in :
    (w h : ℕ) {l : ScreenLayout}
    → new_layout w h ≡ some l
    → (connection_indicator_bounds w h ≡ indicator_in l.system_ui_region)
      × (exit_bounds w h ≡ exit_in l (indicator_in l.system_ui_region))
unfolding connection_indicator_bounds exit_bounds
bounds-in w h e = rw e (refl, refl)

module _ (l : ScreenLayout)
    (v : IsPartition l.physical_size.0 l.physical_size.1 l.remote_viewport l.system_ui_region) where
  indicator_in-IsIndicator :
      {i : LogicalRect} → indicator_in l.system_ui_region ≡ some i → IsIndicator l i
  unfolding indicator_in
  indicator_in-IsIndicator {i} e = record {
    left = ground arith;
    wide = ground arith;
    tall = ground arith;
    top = ground (arith, v);
    inside = ground (arith, v);
  }

  exit_in-IsExit :
      (o : Option LogicalRect) {b : LogicalRect}
      → ((i : LogicalRect) → o ≡ some i → IsIndicator l i)
      → exit_in l o ≡ some b
      → IsExit l b × ((i : LogicalRect) → o ≡ some i → i.x + i.width + 20 ≡ b.x)
  unfolding exit_in exit_left
  exit_in-IsExit none {b} is e = (
    record {
      left = ground arith;
      columns = ground (arith, v);
      wide = ground (arith, v);
      top = ground arith;
      rows = ground (arith, v);
      tall = ground (arith, v);
    },
    λ i none_is. absurd (ground arith),
  )
  exit_in-IsExit (some i) {b} is e =
      let at = is i refl in
      (
        record {
          left = ground (arith, at);
          columns = ground (arith, v);
          wide = ground (arith, v);
          top = ground arith;
          rows = ground (arith, v);
          tall = ground (arith, v);
        },
        λ j same. ground arith,
      )

  exit_in-exists :
      (40 < l.physical_size.0) × (72 ≤ l.physical_size.1)
      → exit_in l (indicator_in l.system_ui_region) ≢ none
  unfolding exit_in exit_left indicator_in
  exit_in-exists (wide, tall) e = ground (arith, v)

  exit_in-needs :
      {b : LogicalRect} (o : Option LogicalRect)
      → exit_in l o ≡ some b
      → (40 < l.physical_size.0) × (72 ≤ l.physical_size.1)
  unfolding exit_in exit_left
  exit_in-needs o e = ground (arith, v)

-- In a window with a layout, Exit lies in the system strip with its full height and a margin at
-- both ends; if there is a connection indicator, that lies in the strip too, and ends a margin
-- before Exit begins.
pub exit_bounds_lem :
    (w h : ℕ) {l : ScreenLayout} {b : LogicalRect}
    → new_layout w h ≡ some l
    → exit_bounds w h ≡ some b
    → IsExit l b
      × ((i : LogicalRect)
          → connection_indicator_bounds w h ≡ some i
          → IsIndicator l i × (i.x + i.width + 20 ≡ b.x))
exit_bounds_lem w h {l} {b} el e =
    let v = new_layout-IsPartition w h el in
    let (shown, bounds) = bounds-in w h el in
    let is =
      exit_in-IsExit l v (indicator_in l.system_ui_region) (λ i at. indicator_in-IsIndicator l v at)
        (rw bounds at e) in
    (
      is.0,
      λ i at.
          let at' : indicator_in l.system_ui_region ≡ some i = rw shown at at in
          (indicator_in-IsIndicator l v at', is.1 i at'),
    )

-- There is an Exit control exactly in the windows of more than 40 columns and at least 72 rows.
pub exit_bounds_iff : (w h : ℕ) → (exit_bounds w h ≢ none) ↔ ((40 < w) × (72 ≤ h))
exit_bounds_iff w h = (to, from)
  where
    to : exit_bounds w h ≢ none → (40 < w) × (72 ≤ h)
    to e = elim (Option-cases (exit_bounds w h)) [
      | inl nothing ↦ absurd (e nothing)
      | inr (b, there) ↦
          let (l, el, k) = exit_bounds-eq-some w h there in
          let sides =
            exit_in-needs l (new_layout-IsPartition w h el) (connection_indicator_bounds w h) k in
          ground (arith, new_layout-size w h el, sides)
    ]

    from : (40 < w) × (72 ≤ h) → exit_bounds w h ≢ none
    from (wide, tall) e =
        let (l, el) = new_layout-exists w h (omega arith) (omega arith) in
        exit_in-exists l (new_layout-IsPartition w h el) (ground (arith, new_layout-size w h el))
          (rw (bounds-in w h el).1 at e)

contains_physical-rows :
    (b : LogicalRect) (p : PhysicalPoint) → contains_physical b p ≡ true → at_least p.y b.y ≡ true
unfolding contains_physical
contains_physical-rows b p inside = ground arith

-- A contact inside Exit is outside the remote viewport: no touch is both.
pub in_exit-not_remote :
    (w h : ℕ) {l : ScreenLayout} (p : PhysicalPoint)
    → new_layout w h ≡ some l
    → in_exit w h p ≡ true
    → physical_to_remote l p ≡ none
unfolding in_exit physical_to_remote
in_exit-not_remote w h {l} p el inside = elim (Option-cases (exit_bounds w h)) [
  | inl nothing ↦ absurd (ground (arith, nothing))
  | inr (b, there) ↦
      let is = (exit_bounds_lem w h el there).0 in
      let v = new_layout-IsPartition w h el in
      to_relative_point-under l.remote_viewport p.x p.y b.y
        (omega (arith, is.top, v.adjacent, v.top))
        (contains_physical-rows b p (ground (arith, there, inside)))
]
