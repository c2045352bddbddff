-- ===== src/Paperpad/Mxcfb/Tests.antt =====
-- A framebuffer of 44 columns and 73 rows, in lines of 48 bytes, and one row of pixels to show on it.
use rust_x11_hello.Prelude.{
  ℕ, ◌+◌, ◌*◌, ◌≤◌, ◌<◌, ◌≡◌, ◌≢◌, ◌⊎◌, ◌↔◌, refl, arith, List, [], ◌∷◌, All, true, false, some, ok,
  length, get_or, replicate,
}
use rust_x11_hello.Prelude.Int.{ℤ, pos, negsuc}
use rust_x11_hello.Prelude.Bytes.{IsU8}
use rust_x11_hello.Protocol.Frame.{
  mono1, validate_mono1_pixels, check_padding, padding_mask, mono1_stride, mono1_payload_len,
  checked_mul,
}
use rust_x11_hello.Protocol.Frame.Validity.{IsMono1, validate_mono1_pixels_iff}
use rust_x11_hello.Paperpad.Ui.Screen.{ScreenLayout, new_layout, partition}
use rust_x11_hello.Paperpad.Ui.System.{
  LogicalRect, exit_bounds, exit_in, exit_left, connection_indicator_bounds, indicator_in,
}
use rust_x11_hello.Paperpad.Display.{RemoteFrame, empty_cache}
use rust_x11_hello.Paperpad.Mxcfb.Layout.{visible_mapping_len}
use rust_x11_hello.Paperpad.Mxcfb.Request.{UpdateDataMtk, full_gc16_request_for_region, next_marker}
use rust_x11_hello.Paperpad.Mxcfb.Region.Regions.{region_of}
use rust_x11_hello.Paperpad.Mxcfb.Pixels.{
  validate_format, blit_remote, blit_rows, expand_mono1, PreparedRemote, row_offset, row_bytes,
  check_screen, check_rows, remote_origin,
}
use rust_x11_hello.Paperpad.Mxcfb.Pixels.Rows.{pixel_byte}
use rust_x11_hello.Paperpad.Mxcfb.Pixels.Blit.{index_of, blit_remote_lem}
use rust_x11_hello.Paperpad.Mxcfb.Pixels.Ready.{length-replicate}
use rust_x11_hello.Paperpad.Mxcfb.Mapped.{
  WritableFramebuffer, SystemUiPixels, check_prepared, write_prepared,
}
use rust_x11_hello.Paperpad.Mxcfb.Mapped.Stores.{Atomic, write_prepared-Atomic}
use rust_x11_hello.Paperpad.Mxcfb.SystemPixels.{rasterize_system_ui}
use rust_x11_hello.Paperpad.Mxcfb.SystemPixels.Strip.{HasPixel, rasterize_system_ui_lem}
use rust_x11_hello.Paperpad.Mxcfb.Metadata.{
  FbFixScreeninfo, FbVarScreeninfo, FramebufferInfo, from_kernel, kernel_screen, driver_name,
  same_bytes, geometry_of, spec_of,
}
use rust_x11_hello.Paperpad.Mxcfb.Metadata.Valid.{from_kernel-IsInfo}
use rust_x11_hello.Paperpad.Mxcfb.Metadata.Accepted.{IsAccepted, info_of, from_kernel_iff}
use rust_x11_hello.Paperpad.Mxcfb.Layout.Mapping.{IsU32Geometry}
use rust_x11_hello.Paperpad.Mxcfb.Present.{Device, present_remote, present_system_ui}
use rust_x11_hello.Paperpad.Mxcfb.Present.Shown.{answer}
use rust_x11_hello.Paperpad.Mxcfb.Present.Remote.{IsPainted, present_remote_lem}
use rust_x11_hello.Paperpad.Mxcfb.Present.Strip.{IsStripPainted, present_system_ui_lem}
use rust_x11_hello.Paperpad.Mxcfb.Present.Ready.{IsDevice}
use rust_x11_hello.Paperpad.Mxcfb.Backend.{MxcfbDisplayBackend}
use rust_x11_hello.Paperpad.Mxcfb.Backend.Shows.{
  Call, show, redraw, strip, after_calls, IsRemoteFrame, IsShowing,
}
use rust_x11_hello.Paperpad.Mxcfb.Backend.Trace.{after_calls-IsShowing}

abbrev blank : List ℕ
blank = replicate 3504 0

-- `hwtcon_v2`, padded with zeros
abbrev fixed : FbFixScreeninfo
fixed = record {
  id = 104 ∷ 119 ∷ 116 ∷ 99 ∷ 111 ∷ 110 ∷ 95 ∷ 118 ∷ 50 ∷ 0 ∷ 0 ∷ 0 ∷ 0 ∷ 0 ∷ 0 ∷ 0 ∷ [];
  smem_len = 3504;
  kind = 0;
  visual = 1;
  line_length = 48;
}

abbrev variable : FbVarScreeninfo
variable = record {
  xres = 44;
  yres = 73;
  xres_virtual = 44;
  yres_virtual = 73;
  xoffset = 0;
  yoffset = 0;
  bits_per_pixel = 8;
  grayscale = 1;
  nonstd = 0;
  rotate = 0;
}

abbrev screen : ScreenLayout
screen = record {
  physical_size = (44, 73);
  remote_viewport = record { x = 0; y = 0; width = 44; height = 1 };
  system_ui_region = record { x = 0; y = 1; width = 44; height = 72 };
}

abbrev info : FramebufferInfo
info = record {
  geometry = geometry_of fixed variable;
  spec = spec_of fixed variable;
  screen = screen;
  mapping_len = 3504;
}

accepted : from_kernel fixed variable ≡ ok info
unfolding from_kernel kernel_screen driver_name same_bytes new_layout partition visible_mapping_len
    validate_format
accepted = refl

words : IsU32Geometry (geometry_of fixed variable)
words = record {
  columns = omega arith;
  rows = omega arith;
  depth = omega arith;
  memory = omega arith;
}

from_kernel_iff_example :
    (from_kernel fixed variable ≡ ok info)
    ↔ (IsAccepted fixed variable 3504 × (info ≡ info_of fixed variable 3504))
from_kernel_iff_example = from_kernel_iff fixed variable info words

abbrev device : Device
device = record {
  opened = record {
    mapping = record { bytes = replicate 3504 0; geometry = geometry_of fixed variable };
    info = info;
  };
  markers = record { next = 7 };
  asked = [];
}

device-IsDevice : IsDevice device
device-IsDevice = record {
  info = from_kernel-IsInfo fixed variable accepted;
  geometry = refl;
  len = length-replicate 3504 0;
  small = omega arith;
  words = words;
  marker = omega arith;
}

abbrev bounds : LogicalRect
bounds = record { x = 20; y = 1; width = 4; height = 72 }

exit : exit_bounds 44 73 ≡ some bounds
unfolding exit_bounds exit_in exit_left connection_indicator_bounds indicator_in new_layout
    partition
exit = refl

abbrev row : List ℕ
row = 128 ∷ 1 ∷ 0 ∷ 255 ∷ 7 ∷ 240 ∷ []

row-IsU8 : All IsU8 row
row-IsU8 =
    (omega arith, (omega arith, (omega arith, (omega arith, (omega arith, (omega arith, tt))))))

abbrev frame : RemoteFrame
frame = record {
  frame_id = 3;
  width = 44;
  height = 1;
  pixel_format = mono1;
  stride = 6;
  pixels = row;
  receive_decode_us = 12;
}

valid_row : validate_mono1_pixels 44 1 row ≡ ok 6
unfolding validate_mono1_pixels check_padding padding_mask mono1_stride mono1_payload_len
    checked_mul
valid_row = refl

image : IsMono1 44 1 6 row
image = (validate_mono1_pixels_iff 44 1 row (omega arith) (omega arith) row-IsU8 6).0 valid_row

frame-IsRemoteFrame : IsRemoteFrame frame
frame-IsRemoteFrame = record {
  width16 = omega arith;
  height16 = omega arith;
  bytes = row-IsU8;
  image = image;
}

-- A frame that the kernel accepts, the strip, and a redraw that it refuses
abbrev calls : List Call
calls = redraw (negsuc 0) ∷ strip true (pos 0) ∷ show frame (pos 0) ∷ []

abbrev start : MxcfbDisplayBackend
start = record { device = device; remote_frame_cache = empty_cache (List ℕ) }

after_calls-IsShowing_example : IsShowing info calls (after_calls calls start)
after_calls-IsShowing_example =
    after_calls-IsShowing device bounds calls device-IsDevice exit
      (tt, (tt, (frame-IsRemoteFrame, tt)))

blitted-eq :
    blit_remote frame screen info.spec blank
    ≡ ok (
      screen.remote_viewport,
      blit_rows frame screen.remote_viewport info.spec (record { first_x = 0; first_y = 0 }) blank,
    )
unfolding blit_remote check_screen validate_format remote_origin check_rows
blitted-eq = refl

layout : new_layout 44 73 ≡ some screen
unfolding new_layout partition
layout = refl

abbrev blitted : List ℕ
blitted =
    blit_rows frame screen.remote_viewport info.spec (record { first_x = 0; first_y = 0 }) blank

blit_remote_lem_example :
    (screen.remote_viewport ≡ screen.remote_viewport)
    × (length blitted ≡ length blank)
    × ((x y : ℕ)
        → x < 44
        → y < 1
        → (index_of info.spec screen.remote_viewport x y < length blank)
          × (pixel_byte mono1 44 1 6 row x y
              ≡ some (get_or blitted (index_of info.spec screen.remote_viewport x y) 0)))
    × ((i : ℕ)
        → ((x y : ℕ) → x < 44 → y < 1 → i ≢ index_of info.spec screen.remote_viewport x y)
        → get_or blitted i 0 ≡ get_or blank i 0)
blit_remote_lem_example = blit_remote_lem 44 73 frame screen info.spec blank layout image blitted-eq

abbrev accepting : UpdateDataMtk → ℤ
accepting request = pos 0

present_remote_lem_example :
    ((present_remote accepting device frame).0
      ≡ answer accepting
          (full_gc16_request_for_region (region_of screen.remote_viewport) 7)
          screen.remote_viewport)
    × ((present_remote accepting device frame).1.opened.info ≡ info)
    × ((present_remote accepting device frame).1.markers ≡ (next_marker device.markers).1)
    × IsPainted device frame blank (present_remote accepting device frame).1.opened.mapping.bytes
    × IsDevice (present_remote accepting device frame).1
    × ((present_remote accepting device frame).1.asked
        ≡ record {
          request = full_gc16_request_for_region (region_of screen.remote_viewport) 7;
          bytes = (present_remote accepting device frame).1.opened.mapping.bytes;
        }
          ∷ [])
present_remote_lem_example =
    present_remote_lem accepting device frame device-IsDevice image refl refl

present_system_ui_lem_example :
    ((present_system_ui accepting device true).0
      ≡ answer accepting
          (full_gc16_request_for_region (region_of screen.system_ui_region) 7)
          screen.system_ui_region)
    × ((present_system_ui accepting device true).1.opened.info ≡ info)
    × ((present_system_ui accepting device true).1.markers ≡ (next_marker device.markers).1)
    × ((u : SystemUiPixels) × (rasterize_system_ui screen true ≡ ok u)
        × IsStripPainted device u blank
            (present_system_ui accepting device true).1.opened.mapping.bytes)
    × IsDevice (present_system_ui accepting device true).1
    × ((present_system_ui accepting device true).1.asked
        ≡ record {
          request = full_gc16_request_for_region (region_of screen.system_ui_region) 7;
          bytes = (present_system_ui accepting device true).1.opened.mapping.bytes;
        }
          ∷ [])
present_system_ui_lem_example =
    present_system_ui_lem accepting device true bounds device-IsDevice exit

rasterize_system_ui_lem_example :
    (u : SystemUiPixels) × (rasterize_system_ui screen false ≡ ok u)
    × (u.region ≡ screen.system_ui_region)
    × (u.stride ≡ 44)
    × (length u.bytes ≡ 44 * 72)
    × ((dx dy : ℕ)
        → dx < 4
        → dy < 72
        → (dx < 2) ⊎ ((4 ≤ dx + 2) ⊎ ((dy < 2) ⊎ (70 ≤ dy)))
        → get_or u.bytes (dy * u.stride + (20 + dx)) 0 ≡ 0)
    × ((x y : ℕ)
        → x < 44
        → y < 72
        → ¬ (HasPixel bounds x (u.region.y + y))
        → ((i : LogicalRect)
            → connection_indicator_bounds 44 73 ≡ some i
            → ¬ (HasPixel i x (u.region.y + y)))
        → get_or u.bytes (y * u.stride + x) 0 ≡ 255)
rasterize_system_ui_lem_example =
    rasterize_system_ui_lem 44 73 screen bounds false layout exit (omega arith) (omega arith)

-- A prepared row for a mapping of four bytes, which is too short for it
abbrev short : WritableFramebuffer
short = record { bytes = replicate 4 9; geometry = geometry_of fixed variable }

abbrev prepared_row : PreparedRemote
prepared_row = record {
  region = screen.remote_viewport;
  spec = info.spec;
  buffer = replicate 4 1;
  first_offset = 2;
  line_length = 48;
  width = 3;
  height = 1;
}

write_prepared-Atomic_example :
    Atomic short
      (check_prepared short prepared_row)
      (row_offset prepared_row)
      (row_bytes prepared_row)
      1
      screen.remote_viewport
      (write_prepared short prepared_row)
write_prepared-Atomic_example = write_prepared-Atomic short prepared_row

-- The first ten pixels of the row: one black, then white ones
expanded : expand_mono1 row 10 0 ≡ 0 ∷ 255 ∷ 255 ∷ 255 ∷ 255 ∷ 255 ∷ 255 ∷ 255 ∷ 255 ∷ 255 ∷ []
unfolding expand_mono1
expanded = refl
