-- ===== src/Paperpad/Mxcfb/Pixels.antt =====
-- src/mxcfb/pixels.rs: a remote frame as the bytes of an 8-bit grayscale framebuffer.
pub mod Rows
pub mod Blit
pub mod Ready
use Prim.Native.Nat.{bit_and}
use rust_x11_hello.Prelude.{
  ℕ, zero, suc, ◌+◌, ◌-◌, ◌*◌, ◌/◌, ◌%◌, ◌^◌, ◌≡◌, List, [], ◌∷◌, Bool, true, false, ◌&&◌, Option,
  none, some, Result, ok, err, ◌>>=◌, ◌>>◌, guard, ok_or, ltb, leb, ◌==◌, if◌then◌else◌, length,
  get_or, slice, replicate,
}
use rust_x11_hello.Prelude.Checked.{checked_add, checked_times}
use rust_x11_hello.Protocol.Frame.{PixelFormat, mono1, gray8}
use rust_x11_hello.Paperpad.Ui.Screen.{ScreenRect, ScreenLayout}
use rust_x11_hello.Paperpad.Display.{RemoteFrame}
use rust_x11_hello.Paperpad.Mxcfb.Memory.{write_rows}

abbrev fb_type_packed_pixels : ℕ
fb_type_packed_pixels = 0

abbrev fb_visual_mono10 : ℕ
fb_visual_mono10 = 1

pub record FramebufferSpec : Type 0 where
  pub visible_width : ℕ
  pub visible_height : ℕ
  pub virtual_width : ℕ
  pub virtual_height : ℕ
  pub xoffset : ℕ
  pub yoffset : ℕ
  pub line_length : ℕ
  pub memory_len : ℕ
  pub kind : ℕ
  pub visual : ℕ
  pub bits_per_pixel : ℕ
  pub grayscale : ℕ
  pub nonstd : ℕ

pub data PixelsError : Type 0 where
  unsupported_format screen_mismatch frame_mismatch overlaps_system_ui horizontal_overflow
        vertical_overflow outside_virtual short_row length_overflow exceeds_reported column_overflow
        row_overflow empty_viewport offset_overflow exceeds_mapped empty_mapping mapping_mismatch
        invalid_mapping_length rows_exceed_mapping :
      PixelsError

unfoldable pub validate_format : FramebufferSpec → Result PixelsError (Unit {0})
validate_format s =
    guard
      ((s.kind == fb_type_packed_pixels)
        && ((s.visual == fb_visual_mono10)
            && ((s.bits_per_pixel == 8) && ((s.grayscale == 1) && (s.nonstd == 0)))))
      unsupported_format

-- The checks of `blit_remote` on the geometry, up to the one of the reported memory. A `u32` is a
-- `usize` on the 32-bit Kindle, so no `usize::try_from` fails.
unfoldable pub check_screen :
    RemoteFrame → ScreenLayout → FramebufferSpec → Result PixelsError (Unit {0})
check_screen frame screen spec = do
  let region = screen.remote_viewport
  validate_format spec
  guard
      ((spec.visible_width == screen.physical_size.0)
        && (spec.visible_height == screen.physical_size.1))
      screen_mismatch
  guard ((frame.width == region.width) && (frame.height == region.height)) frame_mismatch
  guard (leb (region.y + region.height) screen.system_ui_region.y) overlaps_system_ui
  visible_right ← ok_or horizontal_overflow (checked_add 32 spec.xoffset spec.visible_width)
  visible_bottom ← ok_or vertical_overflow (checked_add 32 spec.yoffset spec.visible_height)
  guard (leb visible_right spec.virtual_width && leb visible_bottom spec.virtual_height)
      outside_virtual
  guard (leb spec.virtual_width spec.line_length) short_row
  virtual_bytes ← ok_or length_overflow (checked_times 32 spec.line_length spec.virtual_height)
  guard (leb virtual_bytes spec.memory_len) exceeds_reported

-- Where the first pixel goes: its row and its column
pub record Origin : Type 0 where
  pub first_x : ℕ
  pub first_y : ℕ

unfoldable pub remote_origin : ScreenRect → FramebufferSpec → Result PixelsError Origin
remote_origin region spec = do
  first_x ← ok_or column_overflow (checked_add 32 spec.xoffset region.x)
  first_y ← ok_or row_overflow (checked_add 32 spec.yoffset region.y)
  ok (record { first_x = first_x; first_y = first_y })

-- The checks of `blit_remote` on the bytes that it stores, in a memory of `len` bytes
unfoldable pub check_rows :
    ScreenRect → FramebufferSpec → Origin → ℕ → Result PixelsError (Unit {0})
check_rows region spec origin len = do
  guard (ltb 0 region.width && ltb 0 region.height) empty_viewport
  last_row ← ok_or row_overflow (checked_add 32 origin.first_y (region.height - 1))
  last_start ← ok_or offset_overflow (checked_times 32 last_row spec.line_length)
  last_first ← ok_or offset_overflow (checked_add 32 last_start origin.first_x)
  end ← ok_or offset_overflow (checked_add 32 last_first region.width)
  guard (leb end spec.memory_len && leb end len) exceeds_mapped

-- `for (column, byte) in destination.iter_mut().enumerate()`, from `column` on with `columns` left
unfoldable pub expand_mono1 : List ℕ → ℕ → ℕ → List ℕ
expand_mono1 source zero column = []
expand_mono1 source (suc columns) column =
    (if bit_and (get_or source (column / 8) 0) (0x80 / 2 ^ (column % 8)) == 0 then 0xff else 0x00)
    ∷ expand_mono1 source columns (column + 1)

-- The bytes of a row of `width` pixels; `copy_from_slice` stores the source as it is.
unfoldable pub native_row : PixelFormat → List ℕ → ℕ → List ℕ
native_row mono1 source width = expand_mono1 source width 0
native_row gray8 source width = source

-- `&pixels[row * frame.stride()..][..frame.stride()]`
abbrev pub source_row : RemoteFrame → ℕ → List ℕ
source_row frame row = slice frame.pixels (row * frame.stride) (row * frame.stride + frame.stride)

-- The memory with the rows of the frame stored
unfoldable pub blit_rows : RemoteFrame → ScreenRect → FramebufferSpec → Origin → List ℕ → List ℕ
blit_rows frame region spec origin memory =
    write_rows (λ row. (origin.first_y + row) * spec.line_length + origin.first_x)
      (λ row. native_row frame.pixel_format (source_row frame row) region.width) region.height 0
      memory

-- The region that the frame covers, and the memory with it
unfoldable pub blit_remote :
    RemoteFrame → ScreenLayout → FramebufferSpec → List ℕ → Result PixelsError (ScreenRect × List ℕ)
blit_remote frame screen spec memory = do
  let region = screen.remote_viewport
  check_screen frame screen spec
  origin ← remote_origin region spec
  check_rows region spec origin (length memory)
  ok (region, blit_rows frame region spec origin memory)

pub record PreparedRemote : Type 0 where
  pub region : ScreenRect
  pub spec : FramebufferSpec
  pub buffer : List ℕ
  pub first_offset : ℕ
  pub line_length : ℕ
  pub width : ℕ
  pub height : ℕ

-- `PreparedRemote::rows`: where a row starts, and its bytes
abbrev pub row_offset : PreparedRemote → ℕ → ℕ
row_offset p row = p.first_offset + row * p.line_length

abbrev pub row_bytes : PreparedRemote → ℕ → List ℕ
row_bytes p row = slice p.buffer (row_offset p row) (row_offset p row + p.width)

-- The checks of `prepare_remote` on the length of the mapping
unfoldable pub check_mapping : FramebufferSpec → ℕ → Result PixelsError (Unit {0})
check_mapping spec mapped_len = do
  guard (ltb 0 mapped_len) empty_mapping
  visible_bottom ← ok_or vertical_overflow (checked_add 32 spec.yoffset spec.visible_height)
  expected_len ← ok_or length_overflow (checked_times 32 visible_bottom spec.line_length)
  guard (mapped_len == expected_len) mapping_mismatch
  guard (leb mapped_len spec.memory_len && leb mapped_len (2 ^ 31 - 1)) invalid_mapping_length

-- The part of `prepare_remote` behind the call of `blit_remote`
unfoldable pub prepared :
    ScreenRect → FramebufferSpec → List ℕ → ℕ → Result PixelsError PreparedRemote
prepared region spec buffer mapped_len = do
  origin ← remote_origin region spec
  first_start ← ok_or offset_overflow (checked_times 32 origin.first_y spec.line_length)
  first_offset ← ok_or offset_overflow (checked_add 32 first_start origin.first_x)
  below_first ← ok_or offset_overflow (checked_times 32 (region.height - 1) spec.line_length)
  last_offset ← ok_or offset_overflow (checked_add 32 below_first first_offset)
  last_end ← ok_or offset_overflow (checked_add 32 last_offset region.width)
  guard (leb last_end mapped_len) rows_exceed_mapping
  ok (record {
    region = region;
    spec = spec;
    buffer = buffer;
    first_offset = first_offset;
    line_length = spec.line_length;
    width = region.width;
    height = region.height;
  })

-- The reservation of the buffer is taken to succeed.
unfoldable pub prepare_remote :
    RemoteFrame → ScreenLayout → FramebufferSpec → ℕ → Result PixelsError PreparedRemote
prepare_remote frame screen spec mapped_len = do
  check_mapping spec mapped_len
  (region, buffer) ← blit_remote frame screen spec (replicate mapped_len 0)
  prepared region spec buffer mapped_len
