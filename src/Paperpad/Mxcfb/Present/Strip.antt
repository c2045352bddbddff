-- ===== src/Paperpad/Mxcfb/Present/Strip.antt =====
-- What presenting the system strip does to the mapping, the markers and the kernel.
use rust_x11_hello.Prelude.{
  ℕ, ◌+◌, ◌*◌, ◌<◌, ◌≡◌, ◌≢◌, ◌∙◌, refl, Bool, List, ◌∷◌, ok, some, length, get_or,
}
use rust_x11_hello.Prelude.Int.{ℤ}
use rust_x11_hello.Paperpad.Ui.System.{LogicalRect, exit_bounds}
use rust_x11_hello.Paperpad.Mxcfb.Region.Regions.{region_of}
use rust_x11_hello.Paperpad.Mxcfb.Request.{UpdateDataMtk, full_gc16_request_for_region, next_marker}
use rust_x11_hello.Paperpad.Mxcfb.Pixels.Blit.{index_of}
use rust_x11_hello.Paperpad.Mxcfb.Mapped.{SystemUiPixels}
use rust_x11_hello.Paperpad.Mxcfb.SystemPixels.{rasterize_system_ui}
use rust_x11_hello.Paperpad.Mxcfb.SystemPixels.Strip.{rasterize_ok}
use rust_x11_hello.Paperpad.Mxcfb.Present.{Device, present_system_ui}
use rust_x11_hello.Paperpad.Mxcfb.Present.Ready.{IsDevice}
use rust_x11_hello.Paperpad.Mxcfb.Present.Remote.{next_marker_pos}
use rust_x11_hello.Paperpad.Mxcfb.Present.Shown.{answer}
use rust_x11_hello.Paperpad.Mxcfb.Present.Stripped.{
  pixels, present_system_ui-ok, inside, outside, length-painted,
}

-- The two mappings differ at most in the bytes of the strip, where the second has its pixels.
pub record IsStripPainted (d : Device) (u : SystemUiPixels) (before after : List ℕ) : Type 0 where
  pub len : length after ≡ length before
  pub pixels :
      (x y : ℕ)
      → x < d.opened.info.screen.system_ui_region.width
      → y < d.opened.info.screen.system_ui_region.height
      → get_or after (index_of d.opened.info.spec d.opened.info.screen.system_ui_region x y) 0
        ≡ get_or u.bytes (y * u.stride + x) 0
  pub rest :
      (i : ℕ)
      → ((x y : ℕ)
          → x < d.opened.info.screen.system_ui_region.width
          → y < d.opened.info.screen.system_ui_region.height
          → i ≢ index_of d.opened.info.spec d.opened.info.screen.system_ui_region x y)
      → get_or after i 0 ≡ get_or before i 0

-- On an opened framebuffer whose metadata was accepted and whose screen has an Exit control, the
-- system strip is never refused: its pixels are stored, and nothing else in the mapping changes. Of
-- the requests that the kernel gets, this call adds exactly one: to refresh the strip, with the next
-- marker, and the mapping holds the pixels by then. The result is the kernel's answer, and the
-- framebuffer stays valid.
pub present_system_ui_lem :
    (ioctl : UpdateDataMtk → ℤ) (d : Device) (connected : Bool) (bounds : LogicalRect)
    → IsDevice d
    → exit_bounds d.opened.info.geometry.xres d.opened.info.geometry.yres ≡ some bounds
    → ((present_system_ui ioctl d connected).0
        ≡ answer ioctl
            (full_gc16_request_for_region
              (region_of d.opened.info.screen.system_ui_region)
              d.markers.next)
            d.opened.info.screen.system_ui_region)
      × ((present_system_ui ioctl d connected).1.opened.info ≡ d.opened.info)
      × ((present_system_ui ioctl d connected).1.markers ≡ (next_marker d.markers).1)
      × ((u : SystemUiPixels) × (rasterize_system_ui d.opened.info.screen connected ≡ ok u)
          × IsStripPainted d u d.opened.mapping.bytes
              (present_system_ui ioctl d connected).1.opened.mapping.bytes)
      × IsDevice (present_system_ui ioctl d connected).1
      × ((present_system_ui ioctl d connected).1.asked
          ≡ record {
            request =
                full_gc16_request_for_region
                  (region_of d.opened.info.screen.system_ui_region)
                  d.markers.next;
            bytes = (present_system_ui ioctl d connected).1.opened.mapping.bytes;
          }
            ∷ d.asked)
present_system_ui_lem ioctl d connected bounds v exit =
    let kept = length-painted ioctl d connected bounds v exit in
    rw (present_system_ui-ok ioctl d connected bounds v exit) (
      refl,
      refl,
      refl,
      (
        pixels ioctl d connected bounds v exit,
        rasterize_ok d.opened.info.geometry.xres d.opened.info.geometry.yres d.opened.info.screen
            bounds connected v.info.screen exit v.info.small.0 v.info.small.1,
        record {
          len = kept;
          pixels = inside ioctl d connected bounds v exit;
          rest = outside ioctl d connected bounds v exit;
        },
      ),
      record {
        info = v.info;
        geometry = v.geometry;
        len = kept ∙ v.len;
        small = v.small;
        words = v.words;
        marker = next_marker_pos d;
      },
      refl,
    )
