-- ===== src/Paperpad/Mxcfb/Present/Remote.antt =====
-- What presenting a remote frame does to the mapping, the markers and the kernel.
use native.Mathlib.Decide.{dec_lt}
use rust_x11_hello.Prelude.{
  ℕ, ◌+◌, ◌-◌, ◌≤◌, ◌<◌, ◌≡◌, ◌≢◌, ◌∙◌, ◌⊎◌, inl, inr, refl, sym, ap, arith, List, ◌∷◌, some,
  length, get_or,
}
use rust_x11_hello.Prelude.Int.{ℤ}
use rust_x11_hello.Protocol.Frame.Owned.{IsImage}
use rust_x11_hello.Paperpad.Display.{RemoteFrame}
use rust_x11_hello.Paperpad.Mxcfb.Region.Regions.{region_of}
use rust_x11_hello.Paperpad.Mxcfb.Request.{UpdateDataMtk, full_gc16_request_for_region, next_marker}
use rust_x11_hello.Paperpad.Mxcfb.Pixels.{row_offset}
use rust_x11_hello.Paperpad.Mxcfb.Pixels.Rows.{pixel_byte}
use rust_x11_hello.Paperpad.Mxcfb.Pixels.Blit.{index_of, blit_rows-pixel_byte}
use rust_x11_hello.Paperpad.Mxcfb.Pixels.Ready.{origin_of}
use rust_x11_hello.Paperpad.Mxcfb.Mapped.Remote.{length-after, after_inside, after_outside}
use rust_x11_hello.Paperpad.Mxcfb.Present.{Device, present_remote}
use rust_x11_hello.Paperpad.Mxcfb.Present.Ready.{IsDevice}
use rust_x11_hello.Paperpad.Mxcfb.Present.Shown.{
  answer, present_remote-ok, placed, fits, buffered, narrow, room, shown, after, p, blank,
}

pub next_marker_pos : (d : Device) → 0 < (next_marker d.markers).1.next
unfolding next_marker
next_marker_pos d = omega arith

module _ (ioctl : UpdateDataMtk → ℤ) (d : Device) (frame : RemoteFrame) (v : IsDevice d)
    (image : IsImage frame.pixel_format frame.width frame.height frame.stride frame.pixels)
    (ew : frame.width ≡ d.opened.info.screen.remote_viewport.width)
    (eh : frame.height ≡ d.opened.info.screen.remote_viewport.height) where
  abbrev start : ℕ → ℕ
  start y = row_offset (p ioctl d frame v image ew eh) y

  index-eq :
      (x y : ℕ)
      → index_of d.opened.info.spec d.opened.info.screen.remote_viewport x y
        ≡ row_offset (p ioctl d frame v image ew eh) y + x
  index-eq x y = grind arith

  length-kept : length (after ioctl d frame v image ew eh).bytes ≡ length d.opened.mapping.bytes
  length-kept =
      length-after d.opened.mapping (p ioctl d frame v image ew eh) (rw v.geometry v.info.same)
        (buffered ioctl d frame v image ew eh) (omega (arith, v.len, v.small))
        (narrow ioctl d frame v image ew eh) (room ioctl d frame v image ew eh)

  inside :
      (x y : ℕ)
      → x < d.opened.info.screen.remote_viewport.width
      → y < d.opened.info.screen.remote_viewport.height
      → pixel_byte frame.pixel_format frame.width frame.height frame.stride frame.pixels x y
        ≡ some (
            get_or
              (after ioctl d frame v image ew eh).bytes
              (index_of d.opened.info.spec d.opened.info.screen.remote_viewport x y)
              0)
  inside x y hx hy =
      let stored =
        after_inside d.opened.mapping (p ioctl d frame v image ew eh) (rw v.geometry v.info.same)
          (buffered ioctl d frame v image ew eh) (omega (arith, v.len, v.small))
          (narrow ioctl d frame v image ew eh) (room ioctl d frame v image ew eh) x y hx hy in
      let byte =
        blit_rows-pixel_byte d.opened.info.geometry.xres d.opened.info.geometry.yres frame
          d.opened.info.screen d.opened.info.spec
          (origin_of d.opened.info.screen.remote_viewport d.opened.info.spec)
          (blank ioctl d frame v image ew eh) v.info.screen image
          (shown ioctl d frame v image ew eh) (placed ioctl d frame v image ew eh)
          (fits ioctl d frame v image ew eh) x y hx hy in
      byte ∙ ap some (rw (index-eq x y) (sym stored))

  outside :
      (i : ℕ)
      → ((x y : ℕ)
          → x < d.opened.info.screen.remote_viewport.width
          → y < d.opened.info.screen.remote_viewport.height
          → i ≢ index_of d.opened.info.spec d.opened.info.screen.remote_viewport x y)
      → get_or (after ioctl d frame v image ew eh).bytes i 0 ≡ get_or d.opened.mapping.bytes i 0
  outside i out =
      after_outside d.opened.mapping (p ioctl d frame v image ew eh) (rw v.geometry v.info.same)
        (buffered ioctl d frame v image ew eh) (omega (arith, v.len, v.small))
        (narrow ioctl d frame v image ew eh) (room ioctl d frame v image ew eh) i before_or_behind
    where
      before_or_behind :
          (y : ℕ)
          → y < d.opened.info.screen.remote_viewport.height
          → (i < start y) ⊎ (start y + d.opened.info.screen.remote_viewport.width ≤ i)
      before_or_behind y lt = elim (dec_lt i (start y)) [
        | yes before ↦ inl before
        | no later ↦ elim (dec_lt i (start y + d.opened.info.screen.remote_viewport.width)) [
          | yes within ↦
              absurd
                (out (i - start y) y (omega arith) lt (omega (arith, index-eq (i - start y) y)))
          | no behind ↦ inr (omega arith)
        ]
      ]

-- The two mappings differ at most in the bytes of the viewport, where the second has the frame.
pub record IsPainted (d : Device) (frame : RemoteFrame) (before after : List ℕ) : Type 0 where
  pub len : length after ≡ length before
  pub pixels :
      (x y : ℕ)
      → x < d.opened.info.screen.remote_viewport.width
      → y < d.opened.info.screen.remote_viewport.height
      → pixel_byte frame.pixel_format frame.width frame.height frame.stride frame.pixels x y
        ≡ some
            (get_or after (index_of d.opened.info.spec d.opened.info.screen.remote_viewport x y) 0)
  pub rest :
      (i : ℕ)
      → ((x y : ℕ)
          → x < d.opened.info.screen.remote_viewport.width
          → y < d.opened.info.screen.remote_viewport.height
          → i ≢ index_of d.opened.info.spec d.opened.info.screen.remote_viewport x y)
      → get_or after i 0 ≡ get_or before i 0

-- On an opened framebuffer whose metadata was accepted, a frame that is an image with the dimensions
-- of the viewport is never refused: its pixels are stored, and nothing else in the mapping changes. Of
-- the requests that the kernel gets, this call adds exactly one: to refresh the viewport, with the
-- next marker, and the mapping holds the pixels by then. The result is the kernel's answer, and the
-- framebuffer stays valid.
pub present_remote_lem :
    (ioctl : UpdateDataMtk → ℤ) (d : Device) (frame : RemoteFrame)
    → IsDevice d
    → IsImage frame.pixel_format frame.width frame.height frame.stride frame.pixels
    → frame.width ≡ d.opened.info.screen.remote_viewport.width
    → frame.height ≡ d.opened.info.screen.remote_viewport.height
    → ((present_remote ioctl d frame).0
        ≡ answer ioctl
            (full_gc16_request_for_region
              (region_of d.opened.info.screen.remote_viewport)
              d.markers.next)
            d.opened.info.screen.remote_viewport)
      × ((present_remote ioctl d frame).1.opened.info ≡ d.opened.info)
      × ((present_remote ioctl d frame).1.markers ≡ (next_marker d.markers).1)
      × IsPainted d frame d.opened.mapping.bytes
          (present_remote ioctl d frame).1.opened.mapping.bytes
      × IsDevice (present_remote ioctl d frame).1
      × ((present_remote ioctl d frame).1.asked
          ≡ record {
            request =
                full_gc16_request_for_region
                  (region_of d.opened.info.screen.remote_viewport)
                  d.markers.next;
            bytes = (present_remote ioctl d frame).1.opened.mapping.bytes;
          }
            ∷ d.asked)
present_remote_lem ioctl d frame v image ew eh =
    let done = present_remote-ok ioctl d frame v image ew eh in
    rw done (
      refl,
      refl,
      refl,
      record {
        len = length-kept ioctl d frame v image ew eh;
        pixels = inside ioctl d frame v image ew eh;
        rest = outside ioctl d frame v image ew eh;
      },
      record {
        info = v.info;
        geometry = v.geometry;
        len = length-kept ioctl d frame v image ew eh ∙ v.len;
        small = v.small;
        words = v.words;
        marker = next_marker_pos d;
      },
      refl,
    )
