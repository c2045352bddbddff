-- ===== src/Paperpad/Mxcfb/Metadata.antt =====
-- src/mxcfb/metadata.rs: the framebuffer's metadata, validated before anything is mapped.
pub mod Valid
pub mod Accepted
use rust_x11_hello.Prelude.{
  ℕ, ◌≡◌, List, [], ◌∷◌, Bool, true, false, ◌&&◌, Option, none, some, Result, ok, err, ◌>>=◌, ◌>>◌,
  guard, ok_or, map_err, ltb, leb, ◌==◌, if◌then◌else◌,
}
use rust_x11_hello.Paperpad.Ui.Screen.{ScreenLayout, new_layout, system_ui_height, i16_max}
use rust_x11_hello.Paperpad.Mxcfb.Layout.{FramebufferGeometry, LayoutError, visible_mapping_len}
use rust_x11_hello.Paperpad.Mxcfb.Pixels.{FramebufferSpec, PixelsError, validate_format}

-- The fields that the kernel fills and PaperPad reads
pub record FbFixScreeninfo : Type 0 where
  pub id : List ℕ
  pub smem_len : ℕ
  pub kind : ℕ
  pub visual : ℕ
  pub line_length : ℕ

pub record FbVarScreeninfo : Type 0 where
  pub xres : ℕ
  pub yres : ℕ
  pub xres_virtual : ℕ
  pub yres_virtual : ℕ
  pub xoffset : ℕ
  pub yoffset : ℕ
  pub bits_per_pixel : ℕ
  pub grayscale : ℕ
  pub nonstd : ℕ
  pub rotate : ℕ

pub record FramebufferInfo : Type 0 where
  pub geometry : FramebufferGeometry
  pub spec : FramebufferSpec
  pub screen : ScreenLayout
  pub mapping_len : ℕ

pub data MetadataError : Type 0 where
  unsupported_driver rotated too_large empty_screen too_short : MetadataError
  bounds_refused : LayoutError → MetadataError
  format_refused : PixelsError → MetadataError

-- `&fixed.id[..id_end]`, which ends before the first zero
unfoldable pub driver_name : List ℕ → List ℕ
driver_name [] = []
driver_name (byte ∷ id) = let rest = driver_name id in if byte == 0 then [] else byte ∷ rest

unfoldable pub same_bytes : List ℕ → List ℕ → Bool
same_bytes [] [] = true
same_bytes [] (y ∷ ys) = false
same_bytes (x ∷ xs) [] = false
same_bytes (x ∷ xs) (y ∷ ys) = (x == y) && same_bytes xs ys

-- `b"hwtcon_v2"`
abbrev pub hwtcon_v2 : List ℕ
hwtcon_v2 = 104 ∷ 119 ∷ 116 ∷ 99 ∷ 111 ∷ 110 ∷ 95 ∷ 118 ∷ 50 ∷ []

abbrev pub geometry_of : FbFixScreeninfo → FbVarScreeninfo → FramebufferGeometry
geometry_of fixed variable = record {
  xres = variable.xres;
  yres = variable.yres;
  xres_virtual = variable.xres_virtual;
  yres_virtual = variable.yres_virtual;
  xoffset = variable.xoffset;
  yoffset = variable.yoffset;
  bits_per_pixel = variable.bits_per_pixel;
  line_length = fixed.line_length;
  smem_len = fixed.smem_len;
}

abbrev pub spec_of : FbFixScreeninfo → FbVarScreeninfo → FramebufferSpec
spec_of fixed variable = record {
  visible_width = variable.xres;
  visible_height = variable.yres;
  virtual_width = variable.xres_virtual;
  virtual_height = variable.yres_virtual;
  xoffset = variable.xoffset;
  yoffset = variable.yoffset;
  line_length = fixed.line_length;
  memory_len = fixed.smem_len;
  kind = fixed.kind;
  visual = fixed.visual;
  bits_per_pixel = variable.bits_per_pixel;
  grayscale = variable.grayscale;
  nonstd = variable.nonstd;
}

-- The checks on the driver and the screen. The dimensions fit `u16` behind the third.
unfoldable pub kernel_screen : FbFixScreeninfo → FbVarScreeninfo → Result MetadataError ScreenLayout
kernel_screen fixed variable = do
  guard (same_bytes (driver_name fixed.id) hwtcon_v2) unsupported_driver
  guard (variable.rotate == 0) rotated
  guard (leb variable.xres i16_max && leb variable.yres i16_max) too_large
  screen ← ok_or empty_screen (new_layout variable.xres variable.yres)
  guard
      ((screen.system_ui_region.height == system_ui_height) && ltb 0 screen.remote_viewport.height)
      too_short
  ok screen

unfoldable pub from_kernel :
    FbFixScreeninfo → FbVarScreeninfo → Result MetadataError FramebufferInfo
from_kernel fixed variable = do
  screen ← kernel_screen fixed variable
  mapping_len ← map_err bounds_refused (visible_mapping_len (geometry_of fixed variable))
  map_err format_refused (validate_format (spec_of fixed variable))
  ok (record {
    geometry = geometry_of fixed variable;
    spec = spec_of fixed variable;
    screen = screen;
    mapping_len = mapping_len;
  })
