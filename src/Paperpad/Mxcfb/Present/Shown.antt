-- ===== src/Paperpad/Mxcfb/Present/Shown.antt =====
-- A frame of the viewport reaches the mapping and the kernel.
use rust_x11_hello.Prelude.{
  ℕ, ◌+◌, ◌-◌, ◌*◌, ◌^◌, ◌≤◌, ◌<◌, ◌≡◌, ◌∙◌, inl, inr, refl, sym, arith, List, ◌∷◌, ok, Result,
  ◌>>◌, map_err, length, replicate,
}
use rust_x11_hello.Prelude.Int.{ℤ}
use rust_x11_hello.Protocol.Frame.Owned.{IsImage}
use rust_x11_hello.Paperpad.Ui.Screen.{ScreenRect}
use rust_x11_hello.Paperpad.Display.{RemoteFrame}
use rust_x11_hello.Paperpad.Mxcfb.Region.{UpdateRegion, checked_visible_region}
use rust_x11_hello.Paperpad.Mxcfb.Region.Regions.{region_of, remote_update_region-ok}
use rust_x11_hello.Paperpad.Mxcfb.Request.{
  UpdateDataMtk, full_gc16_request_for_region, next_marker, request_for,
  next_full_gc16_remote_request,
}
use rust_x11_hello.Paperpad.Mxcfb.Pixels.{
  remote_origin, check_rows, PreparedRemote, prepare_remote, row_offset, row_bytes,
}
use rust_x11_hello.Paperpad.Mxcfb.Pixels.Blit.{IsShown, length-blit_rows}
use rust_x11_hello.Paperpad.Mxcfb.Pixels.Ready.{
  ready, prepare_remote-ready, remote_origin-ok, check_rows-ok, last_end, origin_of,
  length-replicate,
}
use rust_x11_hello.Paperpad.Mxcfb.Mapped.{
  WritableFramebuffer, MappedError, write_prepared, check_prepared,
}
use rust_x11_hello.Paperpad.Mxcfb.Mapped.Stores.{stored, write_prepared-Atomic}
use rust_x11_hello.Paperpad.Mxcfb.Mapped.Remote.{check_prepared-ok}
use rust_x11_hello.Paperpad.Mxcfb.Metadata.{FramebufferInfo}
use rust_x11_hello.Paperpad.Mxcfb.Present.{
  Device, SubmittedUpdate, PresentError, submit_refused, ioctl_result, submit_update, ask_kernel,
  check_submitted, submit_checked, ensure_matching_update_region, submit_written, write_matching,
  write_requested, present_prepared, present_remote, remapped,
}
use rust_x11_hello.Paperpad.Mxcfb.Present.Ready.{
  IsDevice, viewport, info_page, info_words, info_some, info-IsShown, parts, size,
}

check_submitted-ok :
    (r : UpdateRegion) (marker vw vh : ℕ)
    → 0 < marker
    → 0 < r.width
    → 0 < r.height
    → r.left + r.width ≤ vw
    → r.top + r.height ≤ vh
    → vw < 2 ^ 32
    → vh < 2 ^ 32
    → check_submitted (full_gc16_request_for_region r marker) vw vh ≡ ok tt
unfolding check_submitted checked_visible_region full_gc16_request_for_region
check_submitted-ok r marker vw vh hm hw hh right bottom fw fh = ground arith

-- The device once it has asked the kernel
abbrev pub asking : Device → UpdateDataMtk → Device
asking device request = record device {
  asked = record { request = request; bytes = device.opened.mapping.bytes } ∷ device.asked;
}

-- The request for a region with a marker that is not zero is submitted as it is.
submit_update-ok :
    (ioctl : UpdateDataMtk → ℤ) (d : Device) (r : UpdateRegion) (marker vw vh : ℕ)
    → 0 < marker
    → 0 < r.width
    → 0 < r.height
    → r.left + r.width ≤ vw
    → r.top + r.height ≤ vh
    → vw < 2 ^ 32
    → vh < 2 ^ 32
    → submit_update ioctl d (full_gc16_request_for_region r marker) vw vh
      ≡ ask_kernel ioctl d (full_gc16_request_for_region r marker)
unfolding submit_update submit_checked
submit_update-ok ioctl d r marker vw vh hm hw hh right bottom fw fh =
    rw (check_submitted-ok r marker vw vh hm hw hh right bottom fw fh) refl

-- What is left to the kernel: the answer to the request
abbrev pub answer :
    (UpdateDataMtk → ℤ) → UpdateDataMtk → ScreenRect → Result PresentError SubmittedUpdate
answer ioctl request region =
    map_err submit_refused (ioctl_result (ioctl request))
    >> ok (record { marker = request.update_marker; region = region })

ensure_matching-ok :
    (region : ScreenRect) (marker : ℕ)
    → ensure_matching_update_region region (full_gc16_request_for_region (region_of region) marker)
      ≡ ok tt
unfolding ensure_matching_update_region full_gc16_request_for_region
ensure_matching-ok region marker = ground arith

pub write_requested-ok :
    (ioctl : UpdateDataMtk → ℤ) (d : Device) (region : ScreenRect) (marker : ℕ)
    (write : WritableFramebuffer → Result MappedError ScreenRect × WritableFramebuffer)
    (fb : WritableFramebuffer)
    → 0 < marker
    → 0 < region.width
    → 0 < region.height
    → region.x + region.width ≤ d.opened.info.spec.visible_width
    → region.y + region.height ≤ d.opened.info.spec.visible_height
    → d.opened.info.spec.visible_width < 2 ^ 32
    → d.opened.info.spec.visible_height < 2 ^ 32
    → write d.opened.mapping ≡ (ok region, fb)
    → write_requested ioctl d
        (ok (full_gc16_request_for_region (region_of region) marker))
        region
        write
      ≡ (
        answer ioctl (full_gc16_request_for_region (region_of region) marker) region,
        asking (remapped d fb) (full_gc16_request_for_region (region_of region) marker),
      )
unfolding write_requested write_matching submit_written ask_kernel
write_requested-ok ioctl d region marker write fb hm hw hh right bottom fw fh written =
    let submitted =
      submit_update-ok ioctl (remapped d fb) (region_of region) marker
        d.opened.info.spec.visible_width d.opened.info.spec.visible_height hm hw hh right bottom fw
        fh in
    rw (ensure_matching-ok region marker, written, submitted) refl

-- A device, and a frame that is an image with the dimensions of its viewport
module _ (ioctl : UpdateDataMtk → ℤ) (d : Device) (frame : RemoteFrame) (v : IsDevice d)
    (image : IsImage frame.pixel_format frame.width frame.height frame.stride frame.pixels)
    (ew : frame.width ≡ d.opened.info.screen.remote_viewport.width)
    (eh : frame.height ≡ d.opened.info.screen.remote_viewport.height) where
  abbrev info : FramebufferInfo
  info = d.opened.info

  abbrev region : ScreenRect
  region = info.screen.remote_viewport

  pub shown : IsShown frame info.screen info.spec
  shown = info-IsShown info v.info frame ew eh

  abbrev pub p : PreparedRemote
  p =
      ready info.geometry.xres info.geometry.yres frame info.screen info.spec info.mapping_len
        v.info.screen (info_words info v.info v.words) shown (viewport info v.info).1
        (viewport info v.info).0 (info_page info v.info) v.small

  prepare-ok : prepare_remote frame info.screen info.spec info.mapping_len ≡ ok p
  prepare-ok =
      prepare_remote-ready info.geometry.xres info.geometry.yres frame info.screen info.spec
        info.mapping_len v.info.screen (info_words info v.info v.words) shown
        (viewport info v.info).1 (viewport info v.info).0 (info_page info v.info) v.small
        (info_some info v.info)

  some_columns : 0 < info.screen.physical_size.0
  some_columns = omega (arith, (viewport info v.info).0, (parts info v.info).wide)

  abbrev request : UpdateDataMtk
  request = full_gc16_request_for_region (region_of region) d.markers.next

  request-ok :
      next_full_gc16_remote_request info.screen info.spec.visible_width info.spec.visible_height
        d.markers
      ≡ (ok request, (next_marker d.markers).1)
  unfolding next_full_gc16_remote_request request_for next_marker
  request-ok =
      let (ex, ey) = size info v.info in
      let made =
        remote_update_region-ok info.screen (parts info v.info)
          (omega (arith, ey, v.info.same, v.info.tall)) (omega (arith, ex, some_columns)) in
      rw (← ex, ← ey) (rw made refl)

  abbrev pub after : WritableFramebuffer
  after = stored d.opened.mapping (row_offset p) (row_bytes p) p.height 0

  abbrev pub blank : List ℕ
  blank = replicate info.mapping_len 0

  pub placed : remote_origin region info.spec ≡ ok (origin_of region info.spec)
  placed =
      remote_origin-ok info.geometry.xres info.geometry.yres frame info.screen info.spec
        info.mapping_len v.info.screen (info_words info v.info v.words) shown
        (viewport info v.info).1 (viewport info v.info).0 (info_page info v.info) v.small

  pub fits : check_rows region info.spec (origin_of region info.spec) (length blank) ≡ ok tt
  fits =
      check_rows-ok info.geometry.xres info.geometry.yres frame info.screen info.spec
        info.mapping_len v.info.screen (info_words info v.info v.words) shown
        (viewport info v.info).1 (viewport info v.info).0 (info_page info v.info) v.small
        (length blank) (length-replicate info.mapping_len 0)

  pub narrow : region.width ≤ info.spec.line_length
  narrow = omega (arith, (parts info v.info).wide, size info v.info, shown.right, shown.line)

  pub room :
      p.first_offset + (region.height - 1) * info.spec.line_length + region.width
      ≤ length d.opened.mapping.bytes
  room =
      let end =
        last_end info.geometry.xres info.geometry.yres frame info.screen info.spec info.mapping_len
          v.info.screen (info_words info v.info v.words) shown (viewport info v.info).1
          (viewport info v.info).0 (info_page info v.info) v.small in
      rw v.len (grind (arith, end))

  pub buffered : length p.buffer ≡ length d.opened.mapping.bytes
  buffered =
      length-blit_rows info.geometry.xres info.geometry.yres frame info.screen info.spec
        (origin_of region info.spec) blank v.info.screen image shown placed fits
      ∙ length-replicate info.mapping_len 0
      ∙ sym v.len

  checked : check_prepared d.opened.mapping p ≡ ok tt
  checked =
      check_prepared-ok d.opened.mapping p (rw v.geometry v.info.same) buffered
        (omega (arith, v.len, v.small)) narrow room

  written : write_prepared d.opened.mapping p ≡ (ok region, after)
  written = elim (write_prepared-Atomic d.opened.mapping p) [
    | inl (passed, done) ↦ done
    | inr (e, failed, kept) ↦ absurd (cc (failed, checked))
  ]

  abbrev pub next : Device
  next = asking (remapped (record d { markers = (next_marker d.markers).1 }) after) request

  right : region.x + region.width ≤ info.spec.visible_width
  right = omega (arith, (parts info v.info).left, (parts info v.info).wide, size info v.info)

  bottom : region.y + region.height ≤ info.spec.visible_height
  bottom = omega (arith, (parts info v.info).top, (parts info v.info).rows, size info v.info)

  small_width : info.spec.visible_width < 2 ^ 32
  small_width = omega (arith, v.info.small, v.info.same)

  small_height : info.spec.visible_height < 2 ^ 32
  small_height = omega (arith, v.info.small, v.info.same)

  pub present_remote-ok : present_remote ioctl d frame ≡ (answer ioctl request region, next)
  unfolding present_remote present_prepared
  present_remote-ok =
      rw (prepare-ok, request-ok)
        (write_requested-ok ioctl (record d { markers = (next_marker d.markers).1 }) region
          d.markers.next (λ fb. write_prepared fb p) after v.marker (viewport info v.info).0
          (viewport info v.info).1 right bottom small_width small_height written)
