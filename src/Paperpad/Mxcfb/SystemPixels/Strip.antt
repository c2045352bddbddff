-- ===== src/Paperpad/Mxcfb/SystemPixels/Strip.antt =====
-- The pixels of the strip, against the places of its two controls.
use native.Mathlib.Decide.{dec_lt}
use rust_x11_hello.Prelude.{
  ℕ, zero, suc, ◌+◌, ◌-◌, ◌*◌, ◌^◌, ◌≤◌, ◌<◌, ◌≡◌, ◌∙◌, ◌⊎◌, inl, inr, refl, ap₂, arith, List, Bool,
  true, some, ok, length, get_or, replicate,
}
use rust_x11_hello.Paperpad.Ui.Screen.{ScreenRect, ScreenLayout, new_layout}
use rust_x11_hello.Paperpad.Ui.Screen.Partition.{
  IsPartition, new_layout-IsPartition, new_layout-size,
}
use rust_x11_hello.Paperpad.Ui.System.{LogicalRect, exit_bounds, connection_indicator_bounds}
use rust_x11_hello.Paperpad.Ui.System.Bounds.{IsExit, IsIndicator, exit_bounds_lem}
use rust_x11_hello.Paperpad.Mxcfb.Memory.Rows.{
  length-set, length-write_bytes, get_or-set_ne, write_bytes_outside,
}
use rust_x11_hello.Paperpad.Mxcfb.Pixels.Ready.{length-replicate}
use rust_x11_hello.Paperpad.Mxcfb.Mapped.{SystemUiPixels}
use rust_x11_hello.Paperpad.Mxcfb.SystemPixels.{in_border, strip_pixels, rasterize_system_ui}
use rust_x11_hello.Paperpad.Mxcfb.SystemPixels.Drawn.{
  strip_pixels_keeps, controls_keep, elsewhere, set_black, write_bytes_black, border-IsBlack,
}

get_or-replicate : (n x i : ℕ) → i < n → get_or (replicate n x) i 0 ≡ x
get_or-replicate zero x i h = absurd (omega arith)
get_or-replicate (suc n) x zero h = refl
get_or-replicate (suc n) x (suc i) h = get_or-replicate n x i (omega arith)

-- A rectangle of the screen has the pixel at column `x` and row `y`.
abbrev pub HasPixel : LogicalRect → ℕ → ℕ → Type 0
HasPixel r x y = (r.x ≤ x) × (x < r.x + r.width) × (r.y ≤ y) × (y < r.y + r.height)

place_in : (y s h x : ℕ) → y < h → x < s → y * s + x < s * h
place_in y s h x hy hx = grind arith

run_apart :
    (s x y x' y' n : ℕ)
    → x < s
    → x' + n ≤ s
    → ¬ ((x' ≤ x) × (x < x' + n) × (y ≡ y'))
    → (y * s + x < y' * s + x') ⊎ (y' * s + x' + n ≤ y * s + x)
run_apart s x y x' y' n hx hx' apart = elim (dec_lt y y') [
  | yes up ↦ inl (grind arith)
  | no higher ↦ elim (dec_lt y' y) [
    | yes down ↦ inr (grind arith)
    | no lower ↦ elim (dec_lt x x') [
      | yes left ↦ inl (grind arith)
      | no right ↦ elim (dec_lt x (x' + n)) [
        | yes within ↦ absurd (apart (omega arith, omega arith, omega arith))
        | no past ↦ inr (grind arith)
      ]
    ]
  ]
]

-- A window with an Exit control
module _ (w h : ℕ) (screen : ScreenLayout) (bounds : LogicalRect) (connected : Bool)
    (layout : new_layout w h ≡ some screen) (exit : exit_bounds w h ≡ some bounds) where
  abbrev region : ScreenRect
  region = screen.system_ui_region

  v : IsPartition screen.physical_size.0 screen.physical_size.1 screen.remote_viewport region
  v = new_layout-IsPartition w h layout

  is : IsExit screen bounds
  is = (exit_bounds_lem w h layout exit).0

  indicated :
      (i : LogicalRect)
      → connection_indicator_bounds w h ≡ some i
      → IsIndicator screen i × (i.x + i.width + 20 ≡ bounds.x)
  indicated = (exit_bounds_lem w h layout exit).1

  abbrev pixels : List ℕ
  pixels =
      strip_pixels connected region bounds (connection_indicator_bounds w h)
        (region.width * region.height)

  pub length-pixels : length pixels ≡ region.width * region.height
  length-pixels =
      strip_pixels_keeps (λ b. length b ≡ region.width * region.height) connected region bounds
        is.tall
        (λ b dx dy hx hy pb.
          length-set b ((bounds.y - region.y + dy) * region.width + (bounds.x - region.x + dx)) 0
          ∙ pb)
        (λ scale b y x above below before behind pb.
          length-write_bytes b (y * region.width + x) (replicate scale 0) ∙ pb)
        (connection_indicator_bounds w h) (region.width * region.height)
        (λ i b dx dy e hx hy pb.
          length-set b ((i.y - region.y + dy) * region.width + (i.x - region.x) + dx) 0 ∙ pb)
        (length-replicate (region.width * region.height) 255)

  -- A pixel of the strip in neither control
  pub white :
      (x y : ℕ)
      → x < region.width
      → y < region.height
      → ¬ (HasPixel bounds x (region.y + y))
      → ((i : LogicalRect)
          → connection_indicator_bounds w h ≡ some i
          → ¬ (HasPixel i x (region.y + y)))
      → get_or pixels (y * region.width + x) 0 ≡ 255
  white x y hx hy not_exit not_indicator =
      strip_pixels_keeps (λ b. get_or b (y * region.width + x) 0 ≡ 255) connected region bounds
        is.tall
        (λ b dx dy hdx hdy pb.
          get_or-set_ne b ((bounds.y - region.y + dy) * region.width + (bounds.x - region.x + dx))
            (y * region.width + x) 0
            (elsewhere region.width x y (bounds.x - region.x + dx) (bounds.y - region.y + dy) hx
              (omega (arith, is.columns, v.system_wide, v.system_left))
              (λ (ex, ey). not_exit (
                omega (arith, is.left, v.system_left),
                omega (arith, v.system_left),
                omega (arith, is.top),
                omega (arith, is.top),
              )))
          ∙ pb)
        (λ scale b y' x' above below before behind pb.
          write_bytes_outside b (y' * region.width + x') (replicate scale 0) (y * region.width + x)
            (rw (length-replicate scale 0) (
              run_apart region.width x y x' y' scale hx
                (omega (arith, is.columns, v.system_wide, v.system_left))
                (λ (le, lt, ey). not_exit (
                  omega (arith, is.left, v.system_left),
                  omega (arith, is.left, v.system_left),
                  omega (arith, is.top),
                  omega (arith, is.top),
                ))))
          ∙ pb)
        (connection_indicator_bounds w h) (region.width * region.height)
        (λ i b dx dy e hdx hdy pb.
          get_or-set_ne b ((i.y - region.y + dy) * region.width + (i.x - region.x) + dx)
            (y * region.width + x) 0
            (λ same.
              let at = (indicated i e).0 in
              elsewhere region.width x y (i.x - region.x + dx) (i.y - region.y + dy) hx
                (omega
                  (arith, at.left, is.columns, v.system_wide, v.system_left, (indicated i e).1))
                (λ (ex, ey). not_indicator i e (
                  omega (arith, at.left, v.system_left),
                  omega (arith, v.system_left),
                  omega (arith, at.top),
                  omega (arith, at.top, at.wide, at.tall),
                ))
                (omega (arith, same)))
          ∙ pb)
        (get_or-replicate (region.width * region.height) 255 (y * region.width + x)
          (place_in y region.width region.height x hy hx))

  -- A pixel of the border of Exit
  abbrev spot : ℕ → ℕ → ℕ
  spot dx dy = (bounds.y - region.y + dy) * region.width + (bounds.x - region.x + dx)

  border_at :
      (dx dy : ℕ)
      → dx < bounds.width
      → dy < bounds.height
      → in_border bounds.width bounds.height dx dy ≡ true
      → get_or pixels (spot dx dy) 0 ≡ 0
  unfolding strip_pixels
  border_at dx dy hx hy border =
      controls_keep (λ b. get_or b (spot dx dy) 0 ≡ 0) connected region bounds is.tall
        (λ b i j hi hj pb. set_black b (spot i j) (spot dx dy) pb)
        (λ scale b y x above below before behind pb.
          write_bytes_black scale b (y * region.width + x) (spot dx dy) pb)
        (connection_indicator_bounds w h)
        (λ i b x y e hi hj pb.
          set_black b ((i.y - region.y + y) * region.width + (i.x - region.x) + x) (spot dx dy) pb)
        _
        (border-IsBlack region.width (bounds.x - region.x) (bounds.y - region.y) bounds.width
          bounds.height (region.width * region.height) dx dy
          (replicate (region.width * region.height) 255) hx hy border
          (place_in (bounds.y - region.y + dy) region.width region.height (bounds.x - region.x + dx)
            (omega (arith, is.top, is.tall, v.strip, is.rows, v.rows, v.adjacent))
            (omega (arith, is.columns, v.system_wide, v.system_left)))
          (length-replicate (region.width * region.height) 255))

  pub black :
      (dx dy : ℕ)
      → dx < bounds.width
      → dy < 72
      → (dx < 2) ⊎ ((bounds.width ≤ dx + 2) ⊎ ((dy < 2) ⊎ (70 ≤ dy)))
      → get_or pixels (dy * region.width + (bounds.x + dx)) 0 ≡ 0
  unfolding in_border
  black dx dy hx hy border =
      let column : bounds.x - region.x + dx ≡ bounds.x + dx = omega (arith, v.system_left) in
      let row : bounds.y - region.y + dy ≡ dy = omega (arith, is.top) in
      rw (column, row) at
        (border_at dx dy hx (omega (arith, is.tall)) (ground (arith, border, is.tall)))

  abbrev pub drawn : SystemUiPixels
  drawn = record { region = region; stride = region.width; bytes = pixels }

  pub rasterize_ok : w ≤ 32767 → h ≤ 32767 → rasterize_system_ui screen connected ≡ ok drawn
  unfolding rasterize_system_ui
  rasterize_ok small_w small_h =
      let size = new_layout-size w h layout in
      let ew : screen.physical_size.0 ≡ w = omega (arith, size) in
      let eh : screen.physical_size.1 ≡ h = omega (arith, size) in
      let tall : region.height ≡ 72 = omega (arith, is.top, is.tall, is.rows, v.rows, v.adjacent) in
      let few : region.width * 72 < 2 ^ 32 = omega (arith, v.system_wide, v.reach) in
      let fits : region.width * region.height < 2 ^ 32 = rw tall few in
      rw (ew, eh, exit) (ground (arith, tall, fits))

-- In a window with an Exit control that fits the coordinates of a display, the strip is drawn: one
-- byte for each of its pixels, the border of Exit black, and every pixel in neither Exit nor the
-- connection indicator white.
pub rasterize_system_ui_lem :
    (w h : ℕ) (screen : ScreenLayout) (bounds : LogicalRect) (connected : Bool)
    → new_layout w h ≡ some screen
    → exit_bounds w h ≡ some bounds
    → w ≤ 32767
    → h ≤ 32767
    → (u : SystemUiPixels) × (rasterize_system_ui screen connected ≡ ok u)
      × (u.region ≡ screen.system_ui_region)
      × (u.stride ≡ w)
      × (length u.bytes ≡ w * 72)
      × ((dx dy : ℕ)
          → dx < bounds.width
          → dy < 72
          → (dx < 2) ⊎ ((bounds.width ≤ dx + 2) ⊎ ((dy < 2) ⊎ (70 ≤ dy)))
          → get_or u.bytes (dy * u.stride + (bounds.x + dx)) 0 ≡ 0)
      × ((x y : ℕ)
          → x < w
          → y < 72
          → ¬ (HasPixel bounds x (u.region.y + y))
          → ((i : LogicalRect)
              → connection_indicator_bounds w h ≡ some i
              → ¬ (HasPixel i x (u.region.y + y)))
          → get_or u.bytes (y * u.stride + x) 0 ≡ 255)
rasterize_system_ui_lem w h screen bounds connected layout exit small_w small_h =
    let v = new_layout-IsPartition w h layout in
    let is = (exit_bounds_lem w h layout exit).0 in
    let size = new_layout-size w h layout in
    let wide : screen.system_ui_region.width ≡ w = omega (arith, size, v.system_wide) in
    let tall : screen.system_ui_region.height ≡ 72 =
      omega (arith, is.top, is.tall, is.rows, v.rows, v.adjacent) in
    (
      drawn w h screen bounds connected layout exit,
      rasterize_ok w h screen bounds connected layout exit small_w small_h,
      refl,
      wide,
      length-pixels w h screen bounds connected layout exit ∙ ap₂ ◌*◌ wide tall,
      λ dx dy hx hy border. black w h screen bounds connected layout exit dx dy hx hy border,
      λ x y hx hy not_exit not_indicator.
          white w h screen bounds connected layout exit x y (omega (arith, wide))
            (omega (arith, tall)) not_exit not_indicator,
    )
