-- ===== src/Paperpad/Mxcfb/Present.antt =====
-- src/mxcfb/present.rs and src/mxcfb/controller.rs: pixels in the mapping, then an update request.
pub mod Ready
pub mod Shown
pub mod Remote
pub mod Stripped
pub mod Strip
use rust_x11_hello.Prelude.{
  ℕ, ◌≡◌, List, ◌∷◌, Bool, true, false, ◌&&◌, not, Result, ok, err, ◌>>=◌, ◌>>◌, guard, map_err,
  ◌==◌, if◌then◌else◌,
}
use rust_x11_hello.Prelude.Int.{ℤ, pos, negsuc}
use rust_x11_hello.Paperpad.Ui.Screen.{ScreenRect}
use rust_x11_hello.Paperpad.Display.{RemoteFrame}
use rust_x11_hello.Paperpad.Mxcfb.Region.{RegionError, checked_visible_region}
use rust_x11_hello.Paperpad.Mxcfb.Request.{
  UpdateMarkerSequence, UpdateDataMtk, next_full_gc16_remote_request,
  next_full_gc16_system_ui_request,
}
use rust_x11_hello.Paperpad.Mxcfb.Pixels.{PixelsError, PreparedRemote, prepare_remote}
use rust_x11_hello.Paperpad.Mxcfb.Mapped.{
  WritableFramebuffer, MappedError, write_prepared, SystemUiPixels, write_system_ui,
}
use rust_x11_hello.Paperpad.Mxcfb.Metadata.{FramebufferInfo}
use rust_x11_hello.Paperpad.Mxcfb.SystemPixels.{RasterError, rasterize_system_ui}

pub record SubmittedUpdate : Type 0 where
  pub marker : ℕ
  pub region : ScreenRect

pub data SubmitError : Type 0 where
  zero_marker : SubmitError
  region_refused : RegionError → SubmitError
  system_error : SubmitError
  unexpected_value : ℤ → SubmitError

pub data PresentError : Type 0 where
  frame_refused : PixelsError → PresentError
  strip_refused : RasterError → PresentError
  update_refused : RegionError → PresentError
  regions_differ : PresentError
  write_refused : MappedError → PresentError
  submit_refused : SubmitError → PresentError

-- What the call of `ioctl` returned
unfoldable pub ioctl_result : ℤ → Result SubmitError (Unit {0})
ioctl_result (pos value) = if value == 0 then ok tt else err (unexpected_value (pos value))
ioctl_result (negsuc value) =
    if value == 0 then err system_error else err (unexpected_value (negsuc value))

-- The mapping and the metadata; the file is the argument `ioctl`.
pub record OpenedFramebuffer : Type 0 where
  pub mapping : WritableFramebuffer
  pub info : FramebufferInfo

-- What the kernel was asked, and the bytes that the mapping held by then
pub record Asked : Type 0 where
  pub request : UpdateDataMtk
  pub bytes : List ℕ

-- The opened framebuffer and the markers, which a presentation changes, with every call of `ioctl` so
-- far, the latest one first
pub record Device : Type 0 where
  pub opened : OpenedFramebuffer
  pub markers : UpdateMarkerSequence
  pub asked : List Asked

-- The call of `ioctl`, for a kernel that answers a request by it
unfoldable pub ask_kernel :
    (UpdateDataMtk → ℤ) → Device → UpdateDataMtk → Result SubmitError (Unit {0}) × Device
ask_kernel ioctl device request = (
  ioctl_result (ioctl request),
  record device {
    asked = record { request = request; bytes = device.opened.mapping.bytes } ∷ device.asked;
  },
)

-- The checks of `submit_update`
unfoldable pub check_submitted : UpdateDataMtk → ℕ → ℕ → Result SubmitError (Unit {0})
check_submitted request visible_width visible_height = do
  guard (not (request.update_marker == 0)) zero_marker
  region ← map_err region_refused (
      checked_visible_region request.update_region.left request.update_region.top
        request.update_region.width request.update_region.height visible_width visible_height)
  ok tt

-- `submit_update` behind its checks
unfoldable pub submit_checked :
    (UpdateDataMtk → ℤ)
    → Device
    → UpdateDataMtk
    → Result SubmitError (Unit {0})
    → Result SubmitError (Unit {0}) × Device
submit_checked ioctl device request (err e) = (err e, device)
submit_checked ioctl device request (ok checked) = ask_kernel ioctl device request

unfoldable pub submit_update :
    (UpdateDataMtk → ℤ) → Device → UpdateDataMtk → ℕ → ℕ → Result SubmitError (Unit {0}) × Device
submit_update ioctl device request visible_width visible_height =
    submit_checked ioctl device request (check_submitted request visible_width visible_height)

unfoldable pub ensure_matching_update_region :
    ScreenRect → UpdateDataMtk → Result PresentError (Unit {0})
ensure_matching_update_region region request =
    guard
      ((request.update_region.left == region.x)
        && ((request.update_region.top == region.y)
            && ((request.update_region.width == region.width)
                && (request.update_region.height == region.height))))
      regions_differ

-- The device with another mapping
abbrev pub remapped : Device → WritableFramebuffer → Device
remapped device fb = record device { opened = record device.opened { mapping = fb } }

-- The request is submitted if the pixels were written.
unfoldable pub submit_written :
    (UpdateDataMtk → ℤ)
    → Device
    → UpdateDataMtk
    → Result MappedError ScreenRect × WritableFramebuffer
    → ScreenRect
    → Result PresentError SubmittedUpdate × Device
submit_written ioctl device request (err e, fb) region = (err (write_refused e), remapped device fb)
submit_written ioctl device request (ok written, fb) region =
    let (submitted, next) =
      submit_update ioctl (remapped device fb) request device.opened.info.spec.visible_width
        device.opened.info.spec.visible_height in
    (
      map_err submit_refused submitted
          >> ok (record { marker = request.update_marker; region = region }),
      next,
    )

-- The pixels are written if the regions are the same.
unfoldable pub write_matching :
    (UpdateDataMtk → ℤ)
    → Device
    → UpdateDataMtk
    → ScreenRect
    → (WritableFramebuffer → Result MappedError ScreenRect × WritableFramebuffer)
    → Result PresentError (Unit {0})
    → Result PresentError SubmittedUpdate × Device
write_matching ioctl device request region write (err e) = (err e, device)
write_matching ioctl device request region write (ok matching) =
    submit_written ioctl device request (write device.opened.mapping) region

-- Behind the request: the regions are compared before the pixels are written.
unfoldable pub write_requested :
    (UpdateDataMtk → ℤ)
    → Device
    → Result RegionError UpdateDataMtk
    → ScreenRect
    → (WritableFramebuffer → Result MappedError ScreenRect × WritableFramebuffer)
    → Result PresentError SubmittedUpdate × Device
write_requested ioctl device (err e) region write = (err (update_refused e), device)
write_requested ioctl device (ok request) region write =
    write_matching ioctl device request region write (ensure_matching_update_region region request)

-- `present_remote_with(…, controller::submit_update)`, behind the prepared frame
unfoldable pub present_prepared :
    (UpdateDataMtk → ℤ)
    → Device
    → Result PixelsError PreparedRemote
    → Result PresentError SubmittedUpdate × Device
present_prepared ioctl device (err e) = (err (frame_refused e), device)
present_prepared ioctl device (ok p) =
    let info = device.opened.info in
    let (request, markers) =
      next_full_gc16_remote_request info.screen info.spec.visible_width info.spec.visible_height
        device.markers in
    write_requested ioctl (record device { markers = markers }) request p.region
      λ fb. write_prepared fb p

unfoldable pub present_remote :
    (UpdateDataMtk → ℤ) → Device → RemoteFrame → Result PresentError SubmittedUpdate × Device
present_remote ioctl device frame =
    let info = device.opened.info in
    present_prepared ioctl device (prepare_remote frame info.screen info.spec info.mapping_len)

-- `present_system_ui_with(…, controller::submit_update)`, behind the pixels
unfoldable pub present_pixels :
    (UpdateDataMtk → ℤ)
    → Device
    → Result RasterError SystemUiPixels
    → Result PresentError SubmittedUpdate × Device
present_pixels ioctl device (err e) = (err (strip_refused e), device)
present_pixels ioctl device (ok pixels) =
    let info = device.opened.info in
    let (request, markers) =
      next_full_gc16_system_ui_request info.screen info.spec.visible_width info.spec.visible_height
        device.markers in
    write_requested ioctl (record device { markers = markers }) request pixels.region
      λ fb. write_system_ui fb pixels info.spec

unfoldable pub present_system_ui :
    (UpdateDataMtk → ℤ) → Device → Bool → Result PresentError SubmittedUpdate × Device
present_system_ui ioctl device connected =
    present_pixels ioctl device (rasterize_system_ui device.opened.info.screen connected)
