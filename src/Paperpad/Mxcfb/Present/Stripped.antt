-- ===== src/Paperpad/Mxcfb/Present/Stripped.antt =====
-- The system strip reaches the mapping and the kernel.
use native.Mathlib.Decide.{dec_lt}
use rust_x11_hello.Prelude.{
  ℕ, ◌+◌, ◌-◌, ◌*◌, ◌^◌, ◌≤◌, ◌<◌, ◌≡◌, ◌≢◌, ◌⊎◌, inl, inr, refl, arith, Bool, ok, some, length,
  get_or,
}
use rust_x11_hello.Prelude.Int.{ℤ}
use rust_x11_hello.Paperpad.Ui.Screen.{ScreenRect}
use rust_x11_hello.Paperpad.Ui.System.{LogicalRect, exit_bounds}
use rust_x11_hello.Paperpad.Mxcfb.Region.Regions.{region_of, system_ui_update_region-ok}
use rust_x11_hello.Paperpad.Mxcfb.Request.{
  UpdateDataMtk, full_gc16_request_for_region, next_marker, request_for,
  next_full_gc16_system_ui_request,
}
use rust_x11_hello.Paperpad.Mxcfb.Pixels.Blit.{index_of}
use rust_x11_hello.Paperpad.Mxcfb.Mapped.{
  WritableFramebuffer, SystemUiPixels, strip_offset, write_system_ui,
}
use rust_x11_hello.Paperpad.Mxcfb.Mapped.Stores.{write_system_ui-Atomic}
use rust_x11_hello.Paperpad.Mxcfb.Mapped.Strip.{
  IsStripOf, check_write_system_ui-ok, after, length-after, after_inside, after_outside,
}
use rust_x11_hello.Paperpad.Mxcfb.Metadata.{FramebufferInfo}
use rust_x11_hello.Paperpad.Mxcfb.SystemPixels.Strip.{drawn, rasterize_ok, length-pixels}
use rust_x11_hello.Paperpad.Mxcfb.Present.{Device, present_pixels, present_system_ui, remapped}
use rust_x11_hello.Paperpad.Mxcfb.Present.Ready.{
  IsDevice, viewport, info_page, wide_line, parts, size, mapping,
}
use rust_x11_hello.Paperpad.Mxcfb.Present.Shown.{answer, asking, write_requested-ok}

module _ (ioctl : UpdateDataMtk → ℤ) (d : Device) (connected : Bool) (bounds : LogicalRect)
    (v : IsDevice d)
    (exit : exit_bounds d.opened.info.geometry.xres d.opened.info.geometry.yres ≡ some bounds) where
  abbrev info : FramebufferInfo
  info = d.opened.info

  abbrev region : ScreenRect
  region = info.screen.system_ui_region

  abbrev pub pixels : SystemUiPixels
  pixels =
      drawn info.geometry.xres info.geometry.yres info.screen bounds connected v.info.screen exit

  in_page : (y a b line : ℕ) → y + 1 ≤ a → b ≤ line → y * line + b ≤ a * line
  in_page y a b line hy hb = grind arith

  fits : strip_offset info.spec pixels 71 + region.width ≤ length d.opened.mapping.bytes
  fits =
      let end =
        in_page (info.spec.yoffset + region.y + 71) (info.spec.yoffset + info.spec.visible_height)
          (info.spec.xoffset + region.x + region.width) info.spec.line_length
          (omega (
            arith,
            (parts info v.info).rows,
            (parts info v.info).adjacent,
            size info v.info,
            viewport info v.info,
          ))
          (omega (
            arith,
            (parts info v.info).system_left,
            (parts info v.info).system_wide,
            size info v.info,
            (mapping info v.info).right,
            v.info.same,
            wide_line info v.info,
          )) in
      omega (arith, end, info_page info v.info, v.len)

  few : (w h : ℕ) → w ≤ 32767 → h ≡ 72 → w * h < 2 ^ 32
  few w h hw hh = rw hh (omega (arith, hw))

  pub strip :
      IsStripOf info.geometry.xres info.geometry.yres info.screen d.opened.mapping pixels info.spec
  strip = record {
    layout = v.info.screen;
    visible = (v.info.same.0, v.info.same.1);
    reach = v.info.small;
    format = v.info.format;
    same = rw v.geometry v.info.same;
    region = refl;
    tall = (viewport info v.info).2;
    stride = refl;
    narrow = omega (
      arith,
      (parts info v.info).system_wide,
      size info v.info,
      (mapping info v.info).right,
      v.info.same,
      wide_line info v.info,
    );
    size =
        length-pixels info.geometry.xres info.geometry.yres info.screen bounds connected
          v.info.screen exit;
    few =
        few region.width region.height
          (omega (arith, (parts info v.info).system_wide, (parts info v.info).reach))
          (viewport info v.info).2;
    small = omega (arith, v.len, v.small);
    left = omega (
      arith,
      (parts info v.info).system_left,
      (mapping info v.info).right,
      v.words.columns,
      v.info.same,
    );
    low = omega (
      arith,
      (parts info v.info).rows,
      (parts info v.info).adjacent,
      (mapping info v.info).bottom,
      v.words.rows,
      v.info.same,
      size info v.info,
      viewport info v.info,
    );
    fits = fits;
  }

  abbrev painted : WritableFramebuffer
  painted =
      after info.geometry.xres info.geometry.yres info.screen d.opened.mapping pixels info.spec
        strip

  written : write_system_ui d.opened.mapping pixels info.spec ≡ (ok region, painted)
  written = elim (write_system_ui-Atomic d.opened.mapping pixels info.spec) [
    | inl (passed, done) ↦ done
    | inr (e, failed, kept) ↦ absurd (
        cc (
          failed,
          check_write_system_ui-ok info.geometry.xres info.geometry.yres info.screen
              d.opened.mapping pixels info.spec strip,
        ))
  ]

  abbrev request : UpdateDataMtk
  request = full_gc16_request_for_region (region_of region) d.markers.next

  request-ok :
      next_full_gc16_system_ui_request info.screen info.spec.visible_width info.spec.visible_height
        d.markers
      ≡ (ok request, (next_marker d.markers).1)
  unfolding next_full_gc16_system_ui_request request_for next_marker
  request-ok =
      let (ex, ey) = size info v.info in
      let made =
        system_ui_update_region-ok info.screen (parts info v.info)
          (omega (arith, ey, v.info.same, v.info.tall))
          (omega (arith, (viewport info v.info).0, (parts info v.info).wide)) in
      rw (← ex, ← ey) (rw made refl)

  abbrev next : Device
  next = asking (remapped (record d { markers = (next_marker d.markers).1 }) painted) request

  pub present_system_ui-ok :
      present_system_ui ioctl d connected ≡ (answer ioctl request region, next)
  unfolding present_system_ui present_pixels
  present_system_ui-ok =
      rw
        (
          rasterize_ok info.geometry.xres info.geometry.yres info.screen bounds connected
              v.info.screen exit v.info.small.0 v.info.small.1,
          request-ok,
        )
        (write_requested-ok ioctl (record d { markers = (next_marker d.markers).1 }) region
          d.markers.next (λ fb. write_system_ui fb pixels info.spec) painted v.marker
          (omega (
            arith,
            (viewport info v.info).0,
            (parts info v.info).wide,
            (parts info v.info).system_wide,
          ))
          (omega (arith, viewport info v.info))
          (omega (
            arith,
            (parts info v.info).system_left,
            (parts info v.info).system_wide,
            size info v.info,
          ))
          (omega (arith, (parts info v.info).rows, (parts info v.info).adjacent, size info v.info))
          (omega (arith, v.info.small, v.info.same)) (omega (arith, v.info.small, v.info.same))
          written)

  index-eq : (x y : ℕ) → index_of info.spec region x y ≡ strip_offset info.spec pixels y + x
  index-eq x y = grind arith

  -- The strip has its pixels, and the rest of the mapping is as before.
  pub inside :
      (x y : ℕ)
      → x < region.width
      → y < region.height
      → get_or painted.bytes (index_of info.spec region x y) 0
        ≡ get_or pixels.bytes (y * pixels.stride + x) 0
  inside x y hx hy = rw (index-eq x y) (
      after_inside info.geometry.xres info.geometry.yres info.screen d.opened.mapping pixels
        info.spec strip x y hx hy)

  pub outside :
      (i : ℕ)
      → ((x y : ℕ) → x < region.width → y < region.height → i ≢ index_of info.spec region x y)
      → get_or painted.bytes i 0 ≡ get_or d.opened.mapping.bytes i 0
  outside i out =
      after_outside info.geometry.xres info.geometry.yres info.screen d.opened.mapping pixels
        info.spec strip i before_or_behind
    where
      before_or_behind :
          (y : ℕ)
          → y < region.height
          → (i < strip_offset info.spec pixels y)
            ⊎ (strip_offset info.spec pixels y + region.width ≤ i)
      before_or_behind y lt = elim (dec_lt i (strip_offset info.spec pixels y)) [
        | yes before ↦ inl before
        | no later ↦ elim (dec_lt i (strip_offset info.spec pixels y + region.width)) [
          | yes within ↦
              let x = i - strip_offset info.spec pixels y in
              absurd (out x y (omega arith) lt (omega (arith, index-eq x y)))
          | no behind ↦ inr (omega arith)
        ]
      ]

  pub length-painted : length painted.bytes ≡ length d.opened.mapping.bytes
  length-painted =
      length-after info.geometry.xres info.geometry.yres info.screen d.opened.mapping pixels
        info.spec strip
