-- ===== src/Paperpad/Mxcfb/Mapped/Strip.antt =====
-- What `write_system_ui` leaves in the mapping: the rows of the strip, and the rest as it was.
use rust_x11_hello.Prelude.{
  ℕ, zero, suc, ◌+◌, ◌-◌, ◌*◌, ◌^◌, ◌≤◌, ◌<◌, ◌≡◌, ◌⊎◌, ◌∙◌, refl, arith, ok, some, length, get_or,
}
use rust_x11_hello.Paperpad.Ui.Screen.{ScreenLayout, new_layout}
use rust_x11_hello.Paperpad.Mxcfb.Memory.Rows.{
  length-write_rows, write_rows_outside, write_rows_inside,
}
use rust_x11_hello.Paperpad.Mxcfb.Pixels.{FramebufferSpec, validate_format}
use rust_x11_hello.Paperpad.Mxcfb.Pixels.Rows.{get_or-slice}
use rust_x11_hello.Paperpad.Mxcfb.Metadata.Valid.{IsSpecOf}
use rust_x11_hello.Paperpad.Mxcfb.Mapped.{
  WritableFramebuffer, SystemUiPixels, check_range, check_system_ui, check_strip,
  check_write_system_ui, strip_offset, strip_bytes,
}
use rust_x11_hello.Paperpad.Mxcfb.Mapped.Stores.{stored, length-strip_bytes}
use rust_x11_hello.Paperpad.Mxcfb.Mapped.Remote.{matches_spec-true}

check_strip-ok :
    (fb : WritableFramebuffer) (spec : FramebufferSpec) (fx fy width rows row : ℕ)
    → length fb.bytes < 2 ^ 31
    → fy + row + rows < 2 ^ 32
    → ((r : ℕ)
        → row ≤ r
        → r < row + rows
        → (fy + r) * spec.line_length + fx + width ≤ length fb.bytes)
    → check_strip fb spec fx fy width rows row ≡ ok tt
unfolding check_strip check_range
check_strip-ok fb spec fx fy width zero row small last inside = refl
check_strip-ok fb spec fx fy width (suc rows) row small last inside = ground (
  arith,
  inside row (omega arith) (omega arith),
  check_strip-ok fb spec fx fy width rows (row + 1) small (omega arith)
      (λ r lo hi. inside r (omega arith) (omega arith)),
)

-- The pixels are those of the strip of a screen, for a mapping that the strip's last row ends in.
pub record IsStripOf (w h : ℕ) (screen : ScreenLayout) (fb : WritableFramebuffer)
    (pixels : SystemUiPixels) (spec : FramebufferSpec) : Type 0 where
  pub layout : new_layout w h ≡ some screen
  pub visible : (spec.visible_width ≡ w) × (spec.visible_height ≡ h)
  pub reach : (w ≤ 32767) × (h ≤ 32767)
  pub format : validate_format spec ≡ ok tt
  pub same : IsSpecOf fb.geometry spec
  pub region : pixels.region ≡ screen.system_ui_region
  pub tall : pixels.region.height ≡ 72
  pub stride : pixels.stride ≡ pixels.region.width
  pub narrow : pixels.region.width ≤ spec.line_length
  pub size : length pixels.bytes ≡ pixels.region.width * pixels.region.height
  pub few : pixels.region.width * pixels.region.height < 2 ^ 32
  pub small : length fb.bytes < 2 ^ 31
  pub left : spec.xoffset + pixels.region.x < 2 ^ 32
  pub low : spec.yoffset + pixels.region.y + 72 < 2 ^ 32
  pub fits : strip_offset spec pixels 71 + pixels.region.width ≤ length fb.bytes

module _ (w h : ℕ) (screen : ScreenLayout) (fb : WritableFramebuffer) (pixels : SystemUiPixels)
    (spec : FramebufferSpec) (v : IsStripOf w h screen fb pixels spec) where
  row_fits :
      (row : ℕ)
      → row < pixels.region.height
      → strip_offset spec pixels row + pixels.region.width ≤ length fb.bytes
  row_fits row lt = grind (arith, v.fits, v.tall)

  check_system_ui-ok : check_system_ui fb pixels spec ≡ ok tt
  unfolding check_system_ui
  check_system_ui-ok =
      let parts : (pixels.region.x ≡ screen.system_ui_region.x)
          × (pixels.region.y ≡ screen.system_ui_region.y)
          × (pixels.region.width ≡ screen.system_ui_region.width)
          × (pixels.region.height ≡ screen.system_ui_region.height) =
        rw v.region (refl, refl, refl, refl) in
      rw (v.format, matches_spec-true fb spec v.same, v.visible.0, v.visible.1)
        (ground (arith, v.layout, v.reach, parts, v.tall, v.stride, v.size, v.few))

  pub check_write_system_ui-ok : check_write_system_ui fb pixels spec ≡ ok tt
  unfolding check_write_system_ui
  check_write_system_ui-ok =
      let rows =
        check_strip-ok fb spec (spec.xoffset + pixels.region.x) (spec.yoffset + pixels.region.y)
          pixels.region.width pixels.region.height 0 v.small (omega (arith, v.low, v.tall))
          (λ r lo hi. omega (arith, row_fits r (omega (arith, hi)))) in
      rw check_system_ui-ok (ground (arith, v.left, v.low, rows))

  abbrev pub after : WritableFramebuffer
  after = stored fb (strip_offset spec pixels) (strip_bytes pixels) pixels.region.height 0

  abbrev base : ℕ
  base = strip_offset spec pixels 0

  apart : (row : ℕ) → strip_offset spec pixels row ≡ base + row * spec.line_length
  apart row = grind arith

  row_wide :
      (row : ℕ) → row < pixels.region.height → length (strip_bytes pixels row) ≡ pixels.region.width
  row_wide row lt = length-strip_bytes pixels row v.size lt

  pub length-after : length after.bytes ≡ length fb.bytes
  length-after =
      length-write_rows (strip_offset spec pixels) (strip_bytes pixels) base spec.line_length
        pixels.region.width pixels.region.height apart row_wide v.narrow pixels.region.height 0
        fb.bytes

  room :
      base + (pixels.region.height - 1) * spec.line_length + pixels.region.width ≤ length fb.bytes
  room =
      let last : pixels.region.height - 1 ≡ 71 = omega (arith, v.tall) in
      rw last (omega (arith, apart 71, v.fits))

  pub after_inside :
      (x y : ℕ)
      → x < pixels.region.width
      → y < pixels.region.height
      → get_or after.bytes (strip_offset spec pixels y + x) 0
        ≡ get_or pixels.bytes (y * pixels.stride + x) 0
  after_inside x y hx hy =
      let stored =
        write_rows_inside (strip_offset spec pixels) (strip_bytes pixels) base spec.line_length
          pixels.region.width pixels.region.height apart row_wide v.narrow pixels.region.height 0
          fb.bytes y x (omega arith) room (omega arith) (omega arith) hx in
      let next : (y + 1) * pixels.region.width ≡ y * pixels.region.width + pixels.region.width =
        grind arith in
      rw (apart y, v.stride)
        (stored
          ∙ rw next (get_or-slice pixels.bytes (y * pixels.region.width) pixels.region.width x hx))

  pub after_outside :
      (i : ℕ)
      → ((y : ℕ)
          → y < pixels.region.height
          → (i < strip_offset spec pixels y)
            ⊎ (strip_offset spec pixels y + pixels.region.width ≤ i))
      → get_or after.bytes i 0 ≡ get_or fb.bytes i 0
  after_outside i out =
      write_rows_outside (strip_offset spec pixels) (strip_bytes pixels) base spec.line_length
        pixels.region.width pixels.region.height apart row_wide v.narrow pixels.region.height 0
        fb.bytes i (omega arith) (λ r lo hi. rw (← apart r) (out r (omega (arith, hi))))
