-- ===== src/Paperpad/Mxcfb/Backend/Trace.antt =====
-- The display after any calls of the event loop.
use mathlib.Core.Path.{subst}
use rust_x11_hello.Prelude.{
  ℕ, ◌≡◌, ◌∙◌, inl, inr, refl, sym, arith, List, [], ◌∷◌, All, Bool, true, false, none, some, ok,
  Bool-cases, Option-cases,
}
use rust_x11_hello.Prelude.Int.{ℤ}
use rust_x11_hello.Paperpad.Ui.System.{LogicalRect, exit_bounds}
use rust_x11_hello.Paperpad.Display.{RemoteFrame, new_remote_frame, empty_cache}
use rust_x11_hello.Paperpad.Display.Presented.{new_remote_frame_iff}
use rust_x11_hello.Paperpad.Mxcfb.Metadata.{FramebufferInfo}
use rust_x11_hello.Paperpad.Mxcfb.Present.{Device, present_remote, present_system_ui}
use rust_x11_hello.Paperpad.Mxcfb.Present.Ready.{IsDevice}
use rust_x11_hello.Paperpad.Mxcfb.Present.Strip.{present_system_ui_lem}
use rust_x11_hello.Paperpad.Mxcfb.Backend.{
  MxcfbDisplayBackend, keep_submitted, display_remote_frame, redraw_valid, redraw_current,
  redraw_cached_frame, draw_system_ui,
}
use rust_x11_hello.Paperpad.Mxcfb.Backend.Shows.{
  Call, show, redraw, strip, called, after_calls, fits, last_accepted, last_written, last_strip,
  IsRemoteFrame, IsCall, HasFrame, HasStrip, viewport_of, cached_frame, IsShowing,
}
use rust_x11_hello.Paperpad.Mxcfb.Backend.Calls.{presented_lem, shown, IsStripPainted-HasFrame}

-- What a frame of the viewport does is told by what is submitted of it; another does nothing.
called-fit :
    (b : MxcfbDisplayBackend) (f : RemoteFrame) (reply : ℤ)
    → fits (viewport_of b.device.opened.info) f ≡ true
    → called (show f reply) b ≡ keep_submitted b f (present_remote (λ request. reply) b.device f)
unfolding called display_remote_frame
called-fit b f reply fit = rw fit refl

called-other :
    (b : MxcfbDisplayBackend) (f : RemoteFrame) (reply : ℤ)
    → fits (viewport_of b.device.opened.info) f ≡ false
    → called (show f reply) b ≡ b
unfolding called display_remote_frame
called-other b f reply other = rw other refl

module _ (info : FramebufferInfo) (calls : List Call) (b : MxcfbDisplayBackend) (reply : ℤ)
    (v : IsShowing info calls b) where
  -- A call that changes nothing
  unchanged :
      (call : Call)
      → last_accepted (viewport_of info) (call ∷ calls) ≡ last_accepted (viewport_of info) calls
      → last_written (viewport_of info) (call ∷ calls) ≡ last_written (viewport_of info) calls
      → last_strip (call ∷ calls) ≡ last_strip calls
      → IsShowing info (call ∷ calls) b
  unchanged call accepted written stripped = record {
    device = v.device;
    same = v.same;
    cache = rw accepted v.cache;
    valid = λ f e. v.valid f (sym accepted ∙ e);
    frame = λ f e. v.frame f (sym written ∙ e);
    strip = λ c e. v.strip c (sym stripped ∙ e);
  }

  show_step :
      (f : RemoteFrame)
      → IsRemoteFrame f
      → IsShowing info (show f reply ∷ calls) (called (show f reply) b)
  unfolding last_accepted last_written last_strip
  show_step f is = elim (Bool-cases (fits (viewport_of info) f)) [
    | inl fit ↦
        rw (called-fit b f reply (subst (λ i. fits (viewport_of i) f ≡ true) (sym v.same) fit))
          (shown info calls b f reply v is fit)
    | inr other ↦
        rw (called-other b f reply (subst (λ i. fits (viewport_of i) f ≡ false) (sym v.same) other))
          (unchanged (show f reply) (ground (arith, other)) (ground (arith, other)) refl)
  ]

  -- The cached frame, as it is rebuilt
  abbrev again : RemoteFrame → RemoteFrame
  again f = record f { receive_decode_us = 0 }

  rebuilt :
      (f : RemoteFrame)
      → IsRemoteFrame f
      → new_remote_frame f.frame_id f.width f.height f.pixel_format f.stride f.pixels 0
        ≡ ok (again f)
  rebuilt f is =
      (new_remote_frame_iff f.frame_id f.width f.height f.pixel_format f.stride f.pixels 0
          is.width16 is.height16 is.bytes).1
        is.image

  redraw_nothing : last_accepted (viewport_of info) calls ≡ none → called (redraw reply) b ≡ b
  unfolding called redraw_cached_frame redraw_current
  redraw_nothing nothing =
      let empty : b.remote_frame_cache.current ≡ none = rw nothing at v.cache in rw empty refl

  redraw_again :
      (f : RemoteFrame)
      → last_accepted (viewport_of info) calls ≡ some f
      → called (redraw reply) b
        ≡ record b { device = (present_remote (λ request. reply) b.device (again f)).1 }
  unfolding called redraw_cached_frame redraw_current redraw_valid
  redraw_again f there =
      let full : b.remote_frame_cache.current ≡ some (cached_frame f) = rw there at v.cache in
      let made = rebuilt f (v.valid f there).0 in rw full (rw made refl)

  redraw_step : IsShowing info (redraw reply ∷ calls) (called (redraw reply) b)
  unfolding last_accepted last_written last_strip
  redraw_step = elim (Option-cases (last_accepted (viewport_of info) calls)) [
    | inl nothing ↦
        rw (redraw_nothing nothing) (unchanged (redraw reply) refl (ground (arith, nothing)) refl)
    | inr (f, there) ↦
        let (is, fit) = v.valid f there in
        let is' : IsRemoteFrame (again f) = record {
          width16 = is.width16;
          height16 = is.height16;
          bytes = is.bytes;
          image = is.image;
        } in
        let (device, same, answer, framed, stripped) =
          presented_lem info calls b (again f) reply v is' fit in
        rw (redraw_again f there) (record {
          device = device;
          same = same;
          cache = v.cache;
          valid = v.valid;
          frame = λ g e.
              let same : f ≡ g = ground (arith, there, e) in
              subst
                (λ g.
                  HasFrame info g
                    (present_remote (λ request. reply) b.device (again f)).1.opened.mapping.bytes)
                same framed;
          strip = stripped;
        })
  ]

  strip_step :
      (c : Bool) (bounds : LogicalRect)
      → exit_bounds info.geometry.xres info.geometry.yres ≡ some bounds
      → IsShowing info (strip c reply ∷ calls) (called (strip c reply) b)
  unfolding called draw_system_ui last_accepted last_written last_strip
  strip_step c bounds exit =
      let (answered, same, markers, (u, drawn, painted), device, log) =
        present_system_ui_lem (λ request. reply) b.device c bounds v.device
          (subst (λ i. exit_bounds i.geometry.xres i.geometry.yres ≡ some bounds) (sym v.same)
            exit) in
      let after = (present_system_ui (λ request. reply) b.device c).1.opened.mapping.bytes in
      record {
        device = device;
        same = same ∙ v.same;
        cache = v.cache;
        valid = v.valid;
        frame = λ f e.
            subst (λ i. HasFrame i f after) v.same
              (IsStripPainted-HasFrame b.device v.device.info b.device.opened.mapping.bytes after u
                f painted
                (subst (λ i. HasFrame i f b.device.opened.mapping.bytes) (sym v.same)
                  (v.frame f e)));
        strip = λ c' e.
            let which : c ≡ c' = cc e in
            subst (λ c. HasStrip info c after) which
              (subst (λ i. HasStrip i c after) v.same (u, drawn, painted.pixels));
      }

-- On an opened framebuffer whose metadata was accepted and whose screen has an Exit control, from an
-- empty cache and after any calls of the event loop with validated frames, whatever the kernel answers:
-- the cache holds the latest frame of the viewport's dimensions whose update was accepted; the bytes of
-- the viewport are the pixels of the frame written last, a redraw writing the cached one; the bytes of
-- the strip are those drawn for the latest connection state; and neither has damaged the other.
pub after_calls-IsShowing :
    (d : Device) (bounds : LogicalRect) (calls : List Call)
    → IsDevice d
    → exit_bounds d.opened.info.geometry.xres d.opened.info.geometry.yres ≡ some bounds
    → All IsCall calls
    → IsShowing d.opened.info calls
        (after_calls calls (record { device = d; remote_frame_cache = empty_cache (List ℕ) }))
unfolding after_calls last_accepted last_written last_strip
after_calls-IsShowing d bounds [] v exit all = record {
  device = v;
  same = refl;
  cache = refl;
  valid = λ f e. absurd (ground arith);
  frame = λ f e. absurd (ground arith);
  strip = λ c e. absurd (ground arith);
}
after_calls-IsShowing d bounds (show f reply ∷ calls) v exit all =
    show_step d.opened.info calls _ reply (after_calls-IsShowing d bounds calls v exit all.1) f
      all.0
after_calls-IsShowing d bounds (redraw reply ∷ calls) v exit all =
    redraw_step d.opened.info calls _ reply (after_calls-IsShowing d bounds calls v exit all.1)
after_calls-IsShowing d bounds (strip c reply ∷ calls) v exit all =
    strip_step d.opened.info calls _ reply (after_calls-IsShowing d bounds calls v exit all.1) c
      bounds exit
