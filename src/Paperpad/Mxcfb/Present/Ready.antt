-- ===== src/Paperpad/Mxcfb/Present/Ready.antt =====
-- An opened framebuffer: what holds of it, and that a frame of the screen's viewport fits it.
use rust_x11_hello.Prelude.{ℕ, ◌+◌, ◌*◌, ◌/◌, ◌^◌, ◌≤◌, ◌<◌, ◌≡◌, arith, ok, length}
use rust_x11_hello.Paperpad.Ui.Screen.Partition.{
  IsPartition, new_layout-IsPartition, new_layout-size,
}
use rust_x11_hello.Paperpad.Display.{RemoteFrame}
use rust_x11_hello.Paperpad.Mxcfb.Layout.{FramebufferGeometry, visible_mapping_len}
use rust_x11_hello.Paperpad.Mxcfb.Layout.Mapping.{
  IsMapping, IsU32Geometry, visible_mapping_len-IsMapping,
}
use rust_x11_hello.Paperpad.Mxcfb.Pixels.{FramebufferSpec, validate_format}
use rust_x11_hello.Paperpad.Mxcfb.Pixels.Blit.{IsShown}
use rust_x11_hello.Paperpad.Mxcfb.Pixels.Ready.{IsU32Spec}
use rust_x11_hello.Paperpad.Mxcfb.Metadata.{FramebufferInfo}
use rust_x11_hello.Paperpad.Mxcfb.Metadata.Valid.{IsInfo}
use rust_x11_hello.Paperpad.Mxcfb.Present.{Device}

-- The metadata is valid, and the mapping is the one that it describes.
pub record IsDevice (d : Device) : Type 0 where
  pub info : IsInfo d.opened.info
  pub geometry : d.opened.mapping.geometry ≡ d.opened.info.geometry
  pub len : length d.opened.mapping.bytes ≡ d.opened.info.mapping_len
  pub small : d.opened.info.mapping_len < 2 ^ 31
  pub words : IsU32Geometry d.opened.info.geometry
  pub marker : 0 < d.markers.next

pub validate_format-eq :
    (s : FramebufferSpec)
    → validate_format s ≡ ok tt
    → (s.kind ≡ 0) × (s.visual ≡ 1) × (s.bits_per_pixel ≡ 8) × (s.grayscale ≡ 1) × (s.nonstd ≡ 0)
unfolding validate_format
validate_format-eq s e = (ground arith, ground arith, ground arith, ground arith, ground arith)

visible_mapping_len_pos :
    (g : FramebufferGeometry) {len : ℕ} → visible_mapping_len g ≡ ok len → 0 < len
unfolding visible_mapping_len
visible_mapping_len_pos g e = ground arith

module _ (i : FramebufferInfo) (v : IsInfo i) where
  abbrev spec : FramebufferSpec
  spec = i.spec

  pub mapping : IsMapping i.geometry i.mapping_len
  mapping = visible_mapping_len-IsMapping i.geometry v.mapping

  pub parts :
      IsPartition i.screen.physical_size.0 i.screen.physical_size.1 i.screen.remote_viewport
        i.screen.system_ui_region
  parts = new_layout-IsPartition i.geometry.xres i.geometry.yres v.screen

  pub size :
      (i.screen.physical_size.0 ≡ spec.visible_width)
      × (i.screen.physical_size.1 ≡ spec.visible_height)
  size =
      let s = new_layout-size i.geometry.xres i.geometry.yres v.screen in
      (ground (arith, s, v.small, v.same), ground (arith, s, v.small, v.same))

  pub viewport :
      (0 < i.screen.remote_viewport.width)
      × (0 < i.screen.remote_viewport.height)
      × (i.screen.system_ui_region.height ≡ 72)
  viewport =
      let s = new_layout-size i.geometry.xres i.geometry.yres v.screen in
      (
        ground (arith, s, parts),
        ground (arith, s, parts, v.tall, v.small),
        ground (arith, s, parts, v.tall, v.small),
      )

  pub info_page : (spec.yoffset + spec.visible_height) * spec.line_length ≡ i.mapping_len
  info_page =
      let e : spec.line_length * (spec.yoffset + spec.visible_height) ≡ i.mapping_len =
        rw (v.same.7, v.same.5, v.same.1) mapping.length in
      omega (arith, e)

  pub info_words : IsU32Geometry i.geometry → IsU32Spec spec
  info_words u = record {
    columns = omega (arith, u.columns, v.same);
    rows = omega (arith, u.rows, v.same);
    memory = omega (arith, u.memory, v.same);
  }

  pub info_some : 0 < i.mapping_len
  info_some = visible_mapping_len_pos i.geometry v.mapping

  pub wide_line : spec.virtual_width ≤ spec.line_length
  wide_line =
      let depth : i.geometry.bits_per_pixel ≡ 8 =
        omega (arith, v.same.6, validate_format-eq spec v.format) in
      let bytes : (i.geometry.xres_virtual * 8 + 7) / 8 ≤ i.geometry.line_length =
        rw depth at mapping.line in
      omega (arith, bytes, v.same.2, v.same.7)

  -- A frame with the dimensions of the viewport
  pub info-IsShown :
      (frame : RemoteFrame)
      → frame.width ≡ i.screen.remote_viewport.width
      → frame.height ≡ i.screen.remote_viewport.height
      → IsShown frame i.screen spec
  info-IsShown frame ew eh = record {
    format = validate_format-eq spec v.format;
    visible = (omega (arith, size), omega (arith, size));
    dimensions = (ew, eh);
    above = omega (arith, parts.top, parts.adjacent);
    right = omega (arith, mapping.right, v.same);
    bottom = omega (arith, mapping.bottom, v.same);
    line = wide_line;
    memory = rw (v.same.7, v.same.3, v.same.8) mapping.memory;
  }
