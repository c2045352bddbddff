-- ===== src/Paperpad/Mxcfb/Layout.antt =====
-- src/mxcfb/layout.rs: how much of the framebuffer memory the visible page needs.
pub mod Mapping
mod Tests
use rust_x11_hello.Prelude.{
  ℕ, ◌+◌, ◌*◌, ◌/◌, ◌^◌, ◌≡◌, Bool, true, false, ◌&&◌, Option, none, some, Result, ok, err, ◌>>=◌,
  ◌>>◌, guard, ok_or, ltb, leb, if◌then◌else◌,
}
use rust_x11_hello.Prelude.Checked.{checked_add, checked_times}

pub record FramebufferGeometry : Type 0 where
  pub xres : ℕ
  pub yres : ℕ
  pub xres_virtual : ℕ
  pub yres_virtual : ℕ
  pub xoffset : ℕ
  pub yoffset : ℕ
  pub bits_per_pixel : ℕ
  pub line_length : ℕ
  pub smem_len : ℕ

pub data LayoutError : Type 0 where
  empty_resolution horizontal_overflow vertical_overflow exceeds_virtual row_bits_overflow
        row_bytes_overflow short_line virtual_bytes_overflow exceeds_memory visible_bytes_overflow
        empty_mapping :
      LayoutError

-- A `u32` is a `usize` on the 32-bit Kindle, so no `usize::try_from` fails.
unfoldable pub visible_mapping_len : FramebufferGeometry → Result LayoutError ℕ
visible_mapping_len g = do
  guard (ltb 0 g.xres && (ltb 0 g.yres && ltb 0 g.bits_per_pixel)) empty_resolution
  visible_right ← ok_or horizontal_overflow (checked_add 32 g.xoffset g.xres)
  visible_bottom ← ok_or vertical_overflow (checked_add 32 g.yoffset g.yres)
  guard (leb visible_right g.xres_virtual && leb visible_bottom g.yres_virtual) exceeds_virtual
  row_bits ← ok_or row_bits_overflow (checked_times 64 g.xres_virtual g.bits_per_pixel)
  rounded ← ok_or row_bytes_overflow (checked_add 64 row_bits 7)
  guard (leb (rounded / 8) g.line_length) short_line
  virtual_bytes ← ok_or virtual_bytes_overflow (checked_times 32 g.line_length g.yres_virtual)
  guard (leb virtual_bytes g.smem_len) exceeds_memory
  visible_bytes ← ok_or visible_bytes_overflow (checked_times 32 g.line_length visible_bottom)
  guard (ltb 0 visible_bytes) empty_mapping
  ok visible_bytes
