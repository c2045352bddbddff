-- ===== src/Paperpad/Mxcfb/Backend/Shows.antt =====
-- What the display shows and what its cache holds, after any frames, redraws and strips.
use mathlib.Core.Option
use rust_x11_hello.Prelude.{
  ℕ, ◌+◌, ◌*◌, ◌<◌, ◌≡◌, List, [], ◌∷◌, All, Bool, true, false, ◌&&◌, ◌==◌, if◌then◌else◌, Option,
  none, some, ok, get_or,
}
use rust_x11_hello.Prelude.Int.{ℤ, pos, negsuc}
use rust_x11_hello.Prelude.Bytes.{IsU8, IsU16}
use rust_x11_hello.Protocol.Frame.Owned.{IsImage}
use rust_x11_hello.Paperpad.Display.{RemoteFrame, CachedRemoteFrame}
use rust_x11_hello.Paperpad.Display.Cached.{cached}
use rust_x11_hello.Paperpad.Mxcfb.Pixels.Rows.{pixel_byte}
use rust_x11_hello.Paperpad.Mxcfb.Pixels.Blit.{index_of}
use rust_x11_hello.Paperpad.Mxcfb.Mapped.{SystemUiPixels}
use rust_x11_hello.Paperpad.Mxcfb.Metadata.{FramebufferInfo}
use rust_x11_hello.Paperpad.Mxcfb.SystemPixels.{rasterize_system_ui}
use rust_x11_hello.Paperpad.Mxcfb.Present.Ready.{IsDevice}
use rust_x11_hello.Paperpad.Mxcfb.Backend.{
  MxcfbDisplayBackend, display_remote_frame, redraw_cached_frame, draw_system_ui,
}

-- A call of the event loop, with what the kernel answers to the one request that it may make
pub data Call : Type 0 where
  show : RemoteFrame → ℤ → Call
  redraw : ℤ → Call
  strip : Bool → ℤ → Call

unfoldable pub called : Call → MxcfbDisplayBackend → MxcfbDisplayBackend
called (show frame reply) b = display_remote_frame (λ request. reply) b frame
called (redraw reply) b = redraw_cached_frame (λ request. reply) b
called (strip connected reply) b = (draw_system_ui (λ request. reply) b connected).1

-- After the calls of a list, the latest one first
unfoldable pub after_calls : List Call → MxcfbDisplayBackend → MxcfbDisplayBackend
after_calls [] b = b
after_calls (call ∷ earlier) b = called call (after_calls earlier b)

abbrev pub accepts : ℤ → Bool
accepts (pos value) = value == 0
accepts (negsuc value) = false

abbrev pub fits : ℕ × ℕ → RemoteFrame → Bool
fits viewport frame = (frame.width == viewport.0) && (frame.height == viewport.1)

-- The latest frame of the viewport's dimensions whose update the kernel accepted
unfoldable pub last_accepted : ℕ × ℕ → List Call → Option RemoteFrame
last_accepted viewport [] = none
last_accepted viewport (show frame reply ∷ earlier) =
    let before = last_accepted viewport earlier in
    if fits viewport frame && accepts reply then some frame else before
last_accepted viewport (redraw reply ∷ earlier) = last_accepted viewport earlier
last_accepted viewport (strip connected reply ∷ earlier) = last_accepted viewport earlier

abbrev pub or_else : Option RemoteFrame → Option RemoteFrame → Option RemoteFrame
or_else none other = other
or_else (some frame) other = some frame

-- The frame that was last written: a frame of those dimensions, accepted or not, or at a redraw the
-- one last accepted
unfoldable pub last_written : ℕ × ℕ → List Call → Option RemoteFrame
last_written viewport [] = none
last_written viewport (show frame reply ∷ earlier) =
    let before = last_written viewport earlier in if fits viewport frame then some frame else before
last_written viewport (redraw reply ∷ earlier) =
    or_else (last_accepted viewport earlier) (last_written viewport earlier)
last_written viewport (strip connected reply ∷ earlier) = last_written viewport earlier

unfoldable pub last_strip : List Call → Option Bool
last_strip [] = none
last_strip (show frame reply ∷ earlier) = last_strip earlier
last_strip (redraw reply ∷ earlier) = last_strip earlier
last_strip (strip connected reply ∷ earlier) = some connected

-- What `RemoteFrame::new` has checked
pub record IsRemoteFrame (f : RemoteFrame) : Type 0 where
  pub width16 : IsU16 f.width
  pub height16 : IsU16 f.height
  pub bytes : All IsU8 f.pixels
  pub image : IsImage f.pixel_format f.width f.height f.stride f.pixels

abbrev pub IsCall : Call → Type 0
IsCall (show frame reply) = IsRemoteFrame frame
IsCall (redraw reply) = Unit {0}
IsCall (strip connected reply) = Unit {0}

-- The frame is at the viewport's place in the bytes of the mapping.
abbrev pub HasFrame : FramebufferInfo → RemoteFrame → List ℕ → Type 0
HasFrame info f bytes =
    (x y : ℕ)
    → x < info.screen.remote_viewport.width
    → y < info.screen.remote_viewport.height
    → pixel_byte f.pixel_format f.width f.height f.stride f.pixels x y
      ≡ some (get_or bytes (index_of info.spec info.screen.remote_viewport x y) 0)

-- The strip for `connected` is at its place.
abbrev pub HasStrip : FramebufferInfo → Bool → List ℕ → Type 0
HasStrip info connected bytes =
    (u : SystemUiPixels) × (rasterize_system_ui info.screen connected ≡ ok u)
    × ((x y : ℕ)
        → x < info.screen.system_ui_region.width
        → y < info.screen.system_ui_region.height
        → get_or bytes (index_of info.spec info.screen.system_ui_region x y) 0
          ≡ get_or u.bytes (y * u.stride + x) 0)

abbrev pub viewport_of : FramebufferInfo → ℕ × ℕ
viewport_of info = (info.screen.remote_viewport.width, info.screen.remote_viewport.height)

abbrev pub cached_frame : RemoteFrame → CachedRemoteFrame (List ℕ)
cached_frame f = cached f f.pixels

-- The backend is as the calls tell.
pub record IsShowing (info : FramebufferInfo) (calls : List Call) (b : MxcfbDisplayBackend)
    : Type 0 where
  pub device : IsDevice b.device
  pub same : b.device.opened.info ≡ info
  pub cache :
      b.remote_frame_cache.current
      ≡ Option.map cached_frame (last_accepted (viewport_of info) calls)
  pub valid :
      (f : RemoteFrame)
      → last_accepted (viewport_of info) calls ≡ some f
      → IsRemoteFrame f × (fits (viewport_of info) f ≡ true)
  pub frame :
      (f : RemoteFrame)
      → last_written (viewport_of info) calls ≡ some f
      → HasFrame info f b.device.opened.mapping.bytes
  pub strip : (c : Bool) → last_strip calls ≡ some c → HasStrip info c b.device.opened.mapping.bytes
