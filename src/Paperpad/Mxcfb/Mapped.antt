-- ===== src/Paperpad/Mxcfb/Mapped.antt =====
-- src/mxcfb/mapped.rs: the mapping of the framebuffer's visible page, and what is stored in it.
pub mod Stores
pub mod Remote
pub mod Strip
use rust_x11_hello.Prelude.{
  ℕ, zero, suc, ◌+◌, ◌*◌, ◌^◌, ◌≡◌, List, [], ◌∷◌, Bool, true, false, ◌&&◌, Option, none, some,
  Result, ok, err, ◌>>=◌, ◌>>◌, guard, ok_or, map_err, ltb, leb, ◌==◌, if◌then◌else◌, length, slice,
}
use rust_x11_hello.Prelude.Checked.{checked_add, checked_times}
use rust_x11_hello.Paperpad.Ui.Screen.{ScreenRect, ScreenLayout, new_layout, system_ui_height}
use rust_x11_hello.Paperpad.Mxcfb.Layout.{FramebufferGeometry}
use rust_x11_hello.Paperpad.Mxcfb.Memory.{write_bytes}
use rust_x11_hello.Paperpad.Mxcfb.Pixels.{
  FramebufferSpec, PixelsError, validate_format, PreparedRemote, row_offset, row_bytes,
}

-- The `len` bytes at `address`, and the geometry that they were mapped for
pub record WritableFramebuffer : Type 0 where
  pub bytes : List ℕ
  pub geometry : FramebufferGeometry

pub data MappedError : Type 0 where
  offset_overflow exceeds_mapping geometry_differs length_differs width_too_large height_too_large
        empty_screen wrong_region wrong_stride wrong_length row_offset_overflow :
      MappedError
  format_refused : PixelsError → MappedError

-- What a method with `&mut self` returns, and what it makes of the framebuffer
abbrev pub Written : Type 0 → Type 0
Written A = Result MappedError A × WritableFramebuffer

-- `e?` on it
unfoldable pub and_then :
    {A : Type 0} → Written (Unit {0}) → (WritableFramebuffer → Written A) → Written A
and_then (ok done, fb) next = next fb
and_then (err e, fb) next = (err e, fb)

-- A check that leaves the framebuffer alone
unfoldable pub checked :
    {A B : Type 0} → Result MappedError B → WritableFramebuffer → (B → Written A) → Written A
checked (ok value) fb next = next value
checked (err e) fb next = (err e, fb)

unfoldable pub check_range : WritableFramebuffer → ℕ → ℕ → Result MappedError (Unit {0})
check_range fb offset len = do
  end ← ok_or offset_overflow (checked_add 32 offset len)
  guard (leb end (length fb.bytes)) exceeds_mapping

unfoldable pub write_at : WritableFramebuffer → ℕ → List ℕ → Written (Unit {0})
write_at fb offset bytes =
    checked (check_range fb offset (length bytes)) fb
      λ _. (ok tt, record fb { bytes = write_bytes fb.bytes offset bytes })

unfoldable pub matches_spec : WritableFramebuffer → FramebufferSpec → Bool
matches_spec fb spec =
    (spec.visible_width == fb.geometry.xres)
    && ((spec.visible_height == fb.geometry.yres)
        && ((spec.virtual_width == fb.geometry.xres_virtual)
            && ((spec.virtual_height == fb.geometry.yres_virtual)
                && ((spec.xoffset == fb.geometry.xoffset)
                    && ((spec.yoffset == fb.geometry.yoffset)
                        && ((spec.bits_per_pixel == fb.geometry.bits_per_pixel)
                            && ((fb.geometry.line_length == spec.line_length)
                                && (fb.geometry.smem_len == spec.memory_len))))))))

-- `for (offset, row) in rows { self.check_range(offset, row.len())?; }`, from `row` on with `rows` left
unfoldable pub check_all :
    WritableFramebuffer → (ℕ → ℕ) → (ℕ → List ℕ) → ℕ → ℕ → Result MappedError (Unit {0})
check_all fb offset content zero row = ok tt
check_all fb offset content (suc rows) row =
    check_range fb (offset row) (length (content row)) >> check_all fb offset content rows (row + 1)

-- `for (offset, row) in rows { self.write_at(offset, row)?; }`
unfoldable pub write_all : WritableFramebuffer → (ℕ → ℕ) → (ℕ → List ℕ) → ℕ → ℕ → Written (Unit {0})
write_all fb offset content zero row = (ok tt, fb)
write_all fb offset content (suc rows) row =
    and_then (write_at fb (offset row) (content row))
      λ next. write_all next offset content rows (row + 1)

-- The checks of `write_prepared`, all before the first store
unfoldable pub check_prepared : WritableFramebuffer → PreparedRemote → Result MappedError (Unit {0})
check_prepared fb p = do
  guard (matches_spec fb p.spec) geometry_differs
  guard (length p.buffer == length fb.bytes) length_differs
  check_all fb (row_offset p) (row_bytes p) p.height 0

unfoldable pub write_prepared : WritableFramebuffer → PreparedRemote → Written ScreenRect
write_prepared fb p =
    checked (check_prepared fb p) fb λ _.
      and_then (write_all fb (row_offset p) (row_bytes p) p.height 0) λ next. (ok p.region, next)

-- `SystemUiPixels` of src/mxcfb/system_pixels.rs
pub record SystemUiPixels : Type 0 where
  pub region : ScreenRect
  pub stride : ℕ
  pub bytes : List ℕ

-- `u16::try_from`
abbrev u16_from : MappedError → ℕ → Result MappedError ℕ
u16_from e n = if ltb n 65536 then ok n else err e

abbrev pub same_rect : ScreenRect → ScreenRect → Bool
same_rect a b = (a.x == b.x) && ((a.y == b.y) && ((a.width == b.width) && (a.height == b.height)))

-- The checks of `write_system_ui` on the geometry and the payload
unfoldable pub check_system_ui :
    WritableFramebuffer → SystemUiPixels → FramebufferSpec → Result MappedError (Unit {0})
check_system_ui fb pixels spec = do
  map_err format_refused (validate_format spec)
  guard (matches_spec fb spec) geometry_differs
  w ← u16_from width_too_large spec.visible_width
  h ← u16_from height_too_large spec.visible_height
  screen ← ok_or empty_screen (new_layout w h)
  guard
      (same_rect pixels.region screen.system_ui_region
        && (pixels.region.height == system_ui_height))
      wrong_region
  guard (pixels.stride == pixels.region.width) wrong_stride
  len ← ok_or wrong_length (checked_times 32 pixels.region.width pixels.region.height)
  guard (length pixels.bytes == len) wrong_length

-- `for row in 0..height`, which checks the offset of each row before it is kept
unfoldable pub check_strip :
    WritableFramebuffer → FramebufferSpec → ℕ → ℕ → ℕ → ℕ → ℕ → Result MappedError (Unit {0})
check_strip fb spec first_x first_y width zero row = ok tt
check_strip fb spec first_x first_y width (suc rows) row = do
  y ← ok_or row_offset_overflow (checked_add 32 first_y row)
  start ← ok_or row_offset_overflow (checked_times 32 y spec.line_length)
  offset ← ok_or row_offset_overflow (checked_add 32 start first_x)
  check_range fb offset width
  check_strip fb spec first_x first_y width rows (row + 1)

-- The offsets that it keeps
abbrev pub strip_offset : FramebufferSpec → SystemUiPixels → ℕ → ℕ
strip_offset spec pixels row =
    (spec.yoffset + pixels.region.y + row) * spec.line_length + (spec.xoffset + pixels.region.x)

-- `&pixels.bytes[row * width..(row + 1) * width]`
abbrev pub strip_bytes : SystemUiPixels → ℕ → List ℕ
strip_bytes pixels row =
    slice pixels.bytes (row * pixels.region.width) ((row + 1) * pixels.region.width)

unfoldable pub check_write_system_ui :
    WritableFramebuffer → SystemUiPixels → FramebufferSpec → Result MappedError (Unit {0})
check_write_system_ui fb pixels spec = do
  check_system_ui fb pixels spec
  first_x ← ok_or offset_overflow (checked_add 32 spec.xoffset pixels.region.x)
  first_y ← ok_or offset_overflow (checked_add 32 spec.yoffset pixels.region.y)
  check_strip fb spec first_x first_y pixels.region.width pixels.region.height 0

-- The reservation of the offsets is taken to succeed.
unfoldable pub write_system_ui :
    WritableFramebuffer → SystemUiPixels → FramebufferSpec → Written ScreenRect
write_system_ui fb pixels spec = checked (check_write_system_ui fb pixels spec) fb λ _.
    and_then (write_all fb (strip_offset spec pixels) (strip_bytes pixels) pixels.region.height 0)
      λ next. (ok pixels.region, next)
