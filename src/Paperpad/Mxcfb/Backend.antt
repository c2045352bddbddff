-- ===== src/Paperpad/Mxcfb/Backend.antt =====
-- src/mxcfb/backend.rs: the display backend over the framebuffer, with its frame cache.
pub mod Shows
pub mod Calls
pub mod Trace
use rust_x11_hello.Prelude.{
  ℕ, ◌≡◌, List, Bool, true, false, ◌&&◌, Option, none, some, Result, ok, err, ◌==◌, if◌then◌else◌,
}
use rust_x11_hello.Prelude.Int.{ℤ}
use rust_x11_hello.Protocol.Frame.{mono1, gray8}
use rust_x11_hello.Protocol.Payload.{V2PixelFormats, only, with_format}
use rust_x11_hello.Paperpad.Display.{
  RemoteFrame, RemoteFrameError, new_remote_frame, CachedRemoteFrame, RemoteFrameCache, replace,
}
use rust_x11_hello.Paperpad.Mxcfb.Request.{UpdateDataMtk}
use rust_x11_hello.Paperpad.Mxcfb.Present.{
  PresentError, SubmittedUpdate, Device, present_remote, present_system_ui,
}

-- The device is `opened` and `markers`; `submit_update` asks the kernel by the argument `ioctl`.
pub record MxcfbDisplayBackend : Type 0 where
  pub device : Device
  pub remote_frame_cache : RemoteFrameCache (List ℕ)

abbrev pub display_dimensions : MxcfbDisplayBackend → ℕ × ℕ
display_dimensions b = b.device.opened.info.screen.physical_size

abbrev pub pixel_formats : V2PixelFormats
pixel_formats = with_format (only mono1) gray8

pub data GeometryError : Type 0 where
  geometry_differs : GeometryError

-- Its success reports no cached frame dropped.
unfoldable pub set_dimensions : MxcfbDisplayBackend → ℕ × ℕ → Result GeometryError (Unit {0})
set_dimensions b d =
    if (d.0 == (display_dimensions b).0) && (d.1 == (display_dimensions b).1)
    then ok tt
    else err geometry_differs

-- What follows the presentation of a frame with its `cached_pixels`
unfoldable pub keep_submitted :
    MxcfbDisplayBackend
    → RemoteFrame
    → Result PresentError SubmittedUpdate × Device
    → MxcfbDisplayBackend
keep_submitted b frame (ok submitted, device) = record {
  device = device;
  remote_frame_cache = replace b.remote_frame_cache frame frame.pixels;
}
keep_submitted b frame (err e, device) = record b { device = device }

-- The reservation of the cached pixels is taken to succeed.
unfoldable pub display_remote_frame :
    (UpdateDataMtk → ℤ) → MxcfbDisplayBackend → RemoteFrame → MxcfbDisplayBackend
display_remote_frame ioctl b frame =
    let viewport = b.device.opened.info.screen.remote_viewport in
    if (frame.width == viewport.width) && (frame.height == viewport.height)
    then keep_submitted b frame (present_remote ioctl b.device frame)
    else b

-- A cached frame that is valid is presented again, and the cache stays.
unfoldable pub redraw_valid :
    (UpdateDataMtk → ℤ)
    → MxcfbDisplayBackend
    → Result RemoteFrameError RemoteFrame
    → MxcfbDisplayBackend
redraw_valid ioctl b (err e) = b
redraw_valid ioctl b (ok frame) = record b { device = (present_remote ioctl b.device frame).1 }

unfoldable pub redraw_current :
    (UpdateDataMtk → ℤ)
    → MxcfbDisplayBackend
    → Option (CachedRemoteFrame (List ℕ))
    → MxcfbDisplayBackend
redraw_current ioctl b none = b
redraw_current ioctl b (some cached) = redraw_valid ioctl b (
    new_remote_frame cached.frame_id cached.width cached.height cached.pixel_format cached.stride
      cached.payload 0)

unfoldable pub redraw_cached_frame : (UpdateDataMtk → ℤ) → MxcfbDisplayBackend → MxcfbDisplayBackend
redraw_cached_frame ioctl b = redraw_current ioctl b b.remote_frame_cache.current

unfoldable pub draw_system_ui :
    (UpdateDataMtk → ℤ)
    → MxcfbDisplayBackend
    → Bool
    → Result PresentError SubmittedUpdate × MxcfbDisplayBackend
draw_system_ui ioctl b connected =
    let (submitted, device) = present_system_ui ioctl b.device connected in
    (submitted, record b { device = device })
