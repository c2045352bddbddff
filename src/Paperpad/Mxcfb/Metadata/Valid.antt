-- ===== src/Paperpad/Mxcfb/Metadata/Valid.antt =====
-- What validated metadata promises the code behind it.
use rust_x11_hello.Prelude.{◌≤◌, ◌<◌, ◌≡◌, refl, arith, ok, some, >>=-eq-ok, map_err}
use rust_x11_hello.Paperpad.Ui.Screen.{ScreenLayout, new_layout}
use rust_x11_hello.Paperpad.Ui.Screen.Partition.{new_layout-IsPartition, new_layout-size}
use rust_x11_hello.Paperpad.Mxcfb.Layout.{FramebufferGeometry, visible_mapping_len}
use rust_x11_hello.Paperpad.Mxcfb.Pixels.{FramebufferSpec, validate_format}
use rust_x11_hello.Paperpad.Mxcfb.Metadata.{
  FbFixScreeninfo, FbVarScreeninfo, FramebufferInfo, bounds_refused, format_refused, geometry_of,
  spec_of, kernel_screen, from_kernel,
}

-- The geometry of a framebuffer's metadata as a specification
abbrev pub IsSpecOf : FramebufferGeometry → FramebufferSpec → Type 0
IsSpecOf g s =
    (s.visible_width ≡ g.xres)
    × (s.visible_height ≡ g.yres)
    × (s.virtual_width ≡ g.xres_virtual)
    × (s.virtual_height ≡ g.yres_virtual)
    × (s.xoffset ≡ g.xoffset)
    × (s.yoffset ≡ g.yoffset)
    × (s.bits_per_pixel ≡ g.bits_per_pixel)
    × (s.line_length ≡ g.line_length)
    × (s.memory_len ≡ g.smem_len)

pub record IsInfo (i : FramebufferInfo) : Type 0 where
  pub screen : new_layout i.geometry.xres i.geometry.yres ≡ some i.screen
  pub tall : 72 < i.geometry.yres
  pub small : (i.geometry.xres ≤ 32767) × (i.geometry.yres ≤ 32767)
  pub mapping : visible_mapping_len i.geometry ≡ ok i.mapping_len
  pub same : IsSpecOf i.geometry i.spec
  pub format : validate_format i.spec ≡ ok tt

pub kernel_screen-tall :
    (fixed : FbFixScreeninfo) (variable : FbVarScreeninfo) {l : ScreenLayout}
    → kernel_screen fixed variable ≡ ok l
    → (new_layout variable.xres variable.yres ≡ some l)
      × (variable.xres ≤ 32767)
      × (variable.yres ≤ 32767)
      × (l.system_ui_region.height ≡ 72)
      × (0 < l.remote_viewport.height)
unfolding kernel_screen
kernel_screen-tall fixed variable e =
    (ground arith, ground arith, ground arith, ground arith, ground arith)

-- Metadata that is accepted has a screen with rows above the system strip, a mapping length, and a
-- specification of the same geometry in the format that the pixels are written in.
pub from_kernel-IsInfo :
    (fixed : FbFixScreeninfo) (variable : FbVarScreeninfo) {i : FramebufferInfo}
    → from_kernel fixed variable ≡ ok i
    → IsInfo i
unfolding from_kernel
from_kernel-IsInfo fixed variable {i} e =
    let (l, screen, k) = >>=-eq-ok (kernel_screen fixed variable) _ e in
    let (len, mapped, m) =
      >>=-eq-ok (map_err bounds_refused (visible_mapping_len (geometry_of fixed variable))) _ k in
    let (done, format, n) =
      >>=-eq-ok (map_err format_refused (validate_format (spec_of fixed variable))) _ m in
    let made : i ≡ record {
      geometry = geometry_of fixed variable;
      spec = spec_of fixed variable;
      screen = l;
      mapping_len = len;
    } =
      cc n in
    let (layout, wide, high, strip, above) = kernel_screen-tall fixed variable screen in
    rw made (record {
      screen = layout;
      tall = ground (
        arith,
        new_layout-IsPartition variable.xres variable.yres layout,
        new_layout-size variable.xres variable.yres layout,
      );
      small = (wide, high);
      mapping = ground (arith, mapped);
      same = (refl, refl, refl, refl, refl, refl, refl, refl, refl);
      format = ground (arith, format);
    })
