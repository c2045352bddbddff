-- ===== src/Paperpad/Mxcfb/Backend/Calls.antt =====
-- Each call of the event loop keeps the display as the calls tell.
use mathlib.Core.Option
use mathlib.Core.Path.{subst}
use rust_x11_hello.Paperpad.Mxcfb.Region.Regions.{region_of}
use rust_x11_hello.Prelude.{
  ℕ, zero, suc, ◌+◌, ◌*◌, ◌<◌, ◌≡◌, ◌∙◌, ◌⊎◌, inl, inr, refl, sym, ap, arith, List, ◌∷◌, Bool, true,
  false, if◌then◌else◌, some, Result, ok, err, Bool-cases,
}
use rust_x11_hello.Prelude.Int.{ℤ, pos, negsuc}
use rust_x11_hello.Paperpad.Ui.Screen.{ScreenRect}
use rust_x11_hello.Paperpad.Display.{RemoteFrame, replace}
use rust_x11_hello.Paperpad.Mxcfb.Request.{UpdateDataMtk, full_gc16_request_for_region}
use rust_x11_hello.Paperpad.Mxcfb.Pixels.Blit.{index_of}
use rust_x11_hello.Paperpad.Mxcfb.Mapped.{SystemUiPixels}
use rust_x11_hello.Paperpad.Mxcfb.Metadata.{FramebufferInfo}
use rust_x11_hello.Paperpad.Mxcfb.Metadata.Valid.{IsInfo}
use rust_x11_hello.Paperpad.Mxcfb.Present.{
  Device, SubmittedUpdate, PresentError, present_remote, ioctl_result, submit_refused,
  unexpected_value,
}
use rust_x11_hello.Paperpad.Mxcfb.Present.Ready.{IsDevice, parts, size, mapping, wide_line}
use rust_x11_hello.Paperpad.Mxcfb.Present.Shown.{answer}
use rust_x11_hello.Paperpad.Mxcfb.Present.Remote.{IsPainted, present_remote_lem}
use rust_x11_hello.Paperpad.Mxcfb.Present.Strip.{IsStripPainted}
use rust_x11_hello.Paperpad.Mxcfb.Backend.{MxcfbDisplayBackend, keep_submitted}
use rust_x11_hello.Paperpad.Mxcfb.Backend.Shows.{
  Call, show, accepts, fits, last_accepted, last_written, last_strip, IsRemoteFrame, HasFrame,
  HasStrip, viewport_of, cached_frame, IsShowing,
}

-- No pixel of the viewport has its byte where one of the strip has it.
module _ (info : FramebufferInfo) (v : IsInfo info) where
  earlier_row : (a b c e s : ℕ) → a < c → b < s → a * s + b < c * s + e
  earlier_row a b c e s lt inside = grind arith

  index-apart :
      (x y x' y' : ℕ)
      → x < info.screen.remote_viewport.width
      → y < info.screen.remote_viewport.height
      → index_of info.spec info.screen.remote_viewport x y
        < index_of info.spec info.screen.system_ui_region x' y'
  index-apart x y x' y' hx hy =
      earlier_row (info.spec.yoffset + info.screen.remote_viewport.y + y)
        (info.spec.xoffset + info.screen.remote_viewport.x + x)
        (info.spec.yoffset + info.screen.system_ui_region.y + y')
        (info.spec.xoffset + info.screen.system_ui_region.x + x') info.spec.line_length
        (omega (arith, (parts info v).top, (parts info v).adjacent))
        (omega (
          arith,
          (parts info v).left,
          (parts info v).wide,
          size info v,
          (mapping info v).right,
          v.same,
          wide_line info v,
        ))

-- What the kernel's answer makes of a request's result
answer-accepts :
    (reply : ℤ) (request : UpdateDataMtk) (region : ScreenRect)
    → (accepts reply ≡ true)
        × ((s : SubmittedUpdate) × (answer (λ request. reply) request region ≡ ok s))
      ⊎ (accepts reply ≡ false)
        × ((e : PresentError) × (answer (λ request. reply) request region ≡ err e))
unfolding ioctl_result
answer-accepts (pos zero) request region = inl (refl, (_, refl))
answer-accepts (pos (suc value)) request region =
    inr (ground arith, (submit_refused (unexpected_value (pos (suc value))), ground arith))
answer-accepts (negsuc zero) request region = inr (refl, (_, refl))
answer-accepts (negsuc (suc value)) request region =
    inr (refl, (submit_refused (unexpected_value (negsuc (suc value))), ground arith))

-- A frame painted over the viewport leaves the strip, and the other way round.
module _ (d : Device) (v : IsInfo d.opened.info) (before after : List ℕ) where
  IsPainted-HasStrip :
      (f : RemoteFrame) (c : Bool)
      → IsPainted d f before after
      → HasStrip d.opened.info c before
      → HasStrip d.opened.info c after
  IsPainted-HasStrip f c painted (u, drawn, there) = (
    u,
    drawn,
    λ x y hx hy.
        painted.rest (index_of d.opened.info.spec d.opened.info.screen.system_ui_region x y)
          (λ x' y' hx' hy' e. omega (arith, e, index-apart d.opened.info v x' y' x y hx' hy'))
        ∙ there x y hx hy,
  )

  pub IsStripPainted-HasFrame :
      (u : SystemUiPixels) (f : RemoteFrame)
      → IsStripPainted d u before after
      → HasFrame d.opened.info f before
      → HasFrame d.opened.info f after
  IsStripPainted-HasFrame u f painted there x y hx hy =
      there x y hx hy
      ∙ ap some (
          sym (
            painted.rest (index_of d.opened.info.spec d.opened.info.screen.remote_viewport x y)
              (λ x' y' hx' hy' e. omega (arith, e, index-apart d.opened.info v x y x' y' hx hy))))

-- What a backend keeps of a presentation
keep_submitted-device :
    (b : MxcfbDisplayBackend) (f : RemoteFrame) (r : Result PresentError SubmittedUpdate × Device)
    → (keep_submitted b f r).device ≡ r.1
unfolding keep_submitted
keep_submitted-device b f (ok s, d) = refl
keep_submitted-device b f (err e, d) = refl

keep_submitted-cache :
    (b : MxcfbDisplayBackend) (f : RemoteFrame) (r : Result PresentError SubmittedUpdate × Device)
    (reply : ℤ) (request : UpdateDataMtk) (region : ScreenRect)
    → r.0 ≡ answer (λ request. reply) request region
    → (keep_submitted b f r).remote_frame_cache.current
      ≡ (if accepts reply then some (cached_frame f) else b.remote_frame_cache.current)
unfolding keep_submitted replace
keep_submitted-cache b f (ok s, d) reply request region e =
    elim (answer-accepts reply request region) [
      | inl (accepted, made) ↦ ground (arith, accepted)
      | inr (refused, made) ↦ absurd (cc (e, made.1))
    ]
keep_submitted-cache b f (err e', d) reply request region e =
    elim (answer-accepts reply request region) [
      | inl (accepted, made) ↦ absurd (cc (e, made.1))
      | inr (refused, made) ↦ ground (arith, refused)
    ]

-- A frame of the viewport, from the event loop or from the cache, changes the mapping as told.
module _ (info : FramebufferInfo) (calls : List Call) (b : MxcfbDisplayBackend) (f : RemoteFrame)
    (reply : ℤ) (v : IsShowing info calls b) (is : IsRemoteFrame f)
    (fit : fits (viewport_of info) f ≡ true) where
  abbrev pub presented : Result PresentError SubmittedUpdate × Device
  presented = present_remote (λ request. reply) b.device f

  fit-eq :
      (f.width ≡ b.device.opened.info.screen.remote_viewport.width)
      × (f.height ≡ b.device.opened.info.screen.remote_viewport.height)
  fit-eq = rw v.same (ground (arith, fit), ground (arith, fit))

  pub presented_lem :
      IsDevice presented.1
      × (presented.1.opened.info ≡ info)
      × ((request : UpdateDataMtk) × (region : ScreenRect) × (presented.0
            ≡ answer (λ request. reply) request region))
      × HasFrame info f presented.1.opened.mapping.bytes
      × ((c : Bool) → last_strip calls ≡ some c → HasStrip info c presented.1.opened.mapping.bytes)
  presented_lem =
      let (answered, same, markers, painted, device, log) =
        present_remote_lem (λ request. reply) b.device f v.device is.image fit-eq.0 fit-eq.1 in
      (
        device,
        same ∙ v.same,
        (
          full_gc16_request_for_region (region_of b.device.opened.info.screen.remote_viewport)
              b.device.markers.next,
          b.device.opened.info.screen.remote_viewport,
          answered,
        ),
        subst (λ i. HasFrame i f presented.1.opened.mapping.bytes) v.same painted.pixels,
        λ c e.
            subst (λ i. HasStrip i c presented.1.opened.mapping.bytes) v.same
              (IsPainted-HasStrip b.device v.device.info b.device.opened.mapping.bytes
                presented.1.opened.mapping.bytes f c painted
                (subst (λ i. HasStrip i c b.device.opened.mapping.bytes) (sym v.same)
                  (v.strip c e))),
      )

  abbrev kept : MxcfbDisplayBackend
  kept = keep_submitted b f presented

  shown_cache :
      kept.remote_frame_cache.current
      ≡ Option.map cached_frame (last_accepted (viewport_of info) (show f reply ∷ calls))
  unfolding last_accepted
  shown_cache =
      let (device, same, (request, region, answered), framed, stripped) = presented_lem in
      keep_submitted-cache b f presented reply request region answered
      ∙ ground (arith, fit, v.cache)

  shown_valid :
      (g : RemoteFrame)
      → last_accepted (viewport_of info) (show f reply ∷ calls) ≡ some g
      → IsRemoteFrame g × (fits (viewport_of info) g ≡ true)
  unfolding last_accepted
  shown_valid g e = elim (Bool-cases (accepts reply)) [
    | inl accepted ↦
        let same : f ≡ g = ground (arith, fit, accepted, e) in
        subst (λ g. IsRemoteFrame g × (fits (viewport_of info) g ≡ true)) same (is, fit)
    | inr refused ↦ v.valid g (ground (arith, fit, refused, e))
  ]

  pub shown : IsShowing info (show f reply ∷ calls) kept
  unfolding last_written last_strip
  shown =
      let (device, same, answer, framed, stripped) = presented_lem in
      let at : kept.device ≡ presented.1 = keep_submitted-device b f presented in
      record {
        device = rw at device;
        same = rw at same;
        cache = shown_cache;
        valid = shown_valid;
        frame = λ g e.
            let same : f ≡ g = ground (arith, fit, e) in
            subst (λ g. HasFrame info g kept.device.opened.mapping.bytes) same (rw at framed);
        strip = λ c e. rw at (stripped c e);
      }
