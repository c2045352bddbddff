-- ===== src/Paperpad/Mxcfb/Layout/Mapping.antt =====
-- The mapping holds the visible page and lies in the device's memory.
use native.Mathlib.Nat.{mul-pos, mul-le-mul}
use rust_x11_hello.Prelude.{ℕ, ◌+◌, ◌*◌, ◌/◌, ◌^◌, ◌≡◌, ◌≤◌, ◌<◌, ◌↔◌, arith, ok}
use rust_x11_hello.Paperpad.Mxcfb.Layout.{FramebufferGeometry, visible_mapping_len}

-- What a usable geometry satisfies, for a mapping of `len` bytes.
pub record IsMapping (g : FramebufferGeometry) (len : ℕ) : Type 0 where
  pub columns : 0 < g.xres
  pub rows : 0 < g.yres
  pub deep : 0 < g.bits_per_pixel
  pub right : g.xoffset + g.xres ≤ g.xres_virtual
  pub bottom : g.yoffset + g.yres ≤ g.yres_virtual
  pub line : (g.xres_virtual * g.bits_per_pixel + 7) / 8 ≤ g.line_length
  pub memory : g.line_length * g.yres_virtual ≤ g.smem_len
  pub length : g.line_length * (g.yoffset + g.yres) ≡ len

pub visible_mapping_len-IsMapping :
    (g : FramebufferGeometry) {len : ℕ} → visible_mapping_len g ≡ ok len → IsMapping g len
unfolding visible_mapping_len
visible_mapping_len-IsMapping g {len} e = record {
  columns = ground arith;
  rows = ground arith;
  deep = ground arith;
  right = ground arith;
  bottom = ground arith;
  line = ground arith;
  memory = ground arith;
  length = ground arith;
}

-- The geometry holds `u32`s.
pub record IsU32Geometry (g : FramebufferGeometry) : Type 0 where
  pub columns : g.xres_virtual < 2 ^ 32
  pub rows : g.yres_virtual < 2 ^ 32
  pub depth : g.bits_per_pixel < 2 ^ 32
  pub memory : g.smem_len < 2 ^ 32

u32_product : (a b : ℕ) → a < 2 ^ 32 → b < 2 ^ 32 → a * b + 7 < 2 ^ 64
u32_product a b ha hb = grind arith

pub in_row : (row off line rows : ℕ) → row < rows → off < line → row * line + off < rows * line
in_row row off line rows hr ho = grind arith

in_line :
    (x w bpp b line : ℕ) → x < w → b < bpp → (w * bpp + 7) / 8 ≤ line → (x * bpp + b) / 8 < line
in_line x w bpp b line hx hb fits = omega (arith, in_row x b bpp w hx hb)

IsMapping-visible_mapping_len :
    (g : FramebufferGeometry) {len : ℕ}
    → IsU32Geometry g
    → IsMapping g len
    → visible_mapping_len g ≡ ok len
unfolding visible_mapping_len
IsMapping-visible_mapping_len g {len} u v =
    let visible : g.line_length * (g.yoffset + g.yres) ≤ g.line_length * g.yres_virtual =
      mul-le-mul (omega arith) v.bottom in
    let some_bits : 0 < g.xres_virtual * g.bits_per_pixel =
      mul-pos (omega (arith, v.right, v.columns)) v.deep in
    let some_bytes : 0 < g.line_length * (g.yoffset + g.yres) =
      mul-pos (omega (arith, v.line, some_bits)) (omega (arith, v.rows)) in
    ground (arith, u, v, u32_product g.xres_virtual g.bits_per_pixel, visible, some_bytes)

-- The byte of the mapping that holds bit `b` of the pixel at column `x` and row `y` of the page
abbrev pub byte_at : FramebufferGeometry → ℕ → ℕ → ℕ → ℕ
byte_at g x y b = (g.yoffset + y) * g.line_length + ((g.xoffset + x) * g.bits_per_pixel + b) / 8

-- Of a geometry of `u32`s, a length is returned exactly if the page lies in the virtual screen, the
-- lines hold its columns and the memory holds its rows; every bit of every visible pixel is then in
-- the bytes mapped, and these are in the device's memory.
pub visible_mapping_len_lem :
    (g : FramebufferGeometry) (len : ℕ)
    → IsU32Geometry g
    → ((visible_mapping_len g ≡ ok len) ↔ IsMapping g len)
      × (visible_mapping_len g ≡ ok len
          → (len ≤ g.smem_len)
            × ((x y b : ℕ)
                → x < g.xres
                → y < g.yres
                → b < g.bits_per_pixel
                → byte_at g x y b < len))
visible_mapping_len_lem g len u = (
  (visible_mapping_len-IsMapping g, IsMapping-visible_mapping_len g u),
  λ e.
      let v = visible_mapping_len-IsMapping g e in
      (omega (arith, v.length, v.memory, visible v), λ x y b hx hy hb. inside v x y b hx hy hb),
)
  where
    visible :
        IsMapping g len → g.line_length * (g.yoffset + g.yres) ≤ g.line_length * g.yres_virtual
    visible v = mul-le-mul (omega arith) v.bottom

    inside :
        IsMapping g len
        → (x y b : ℕ) → x < g.xres
        → y < g.yres
        → b < g.bits_per_pixel
        → byte_at g x y b < len
    inside v x y b hx hy hb =
        let column =
          in_line (g.xoffset + x) g.xres_virtual g.bits_per_pixel b g.line_length
            (omega (arith, v.right, hx)) hb v.line in
        let row =
          in_row (g.yoffset + y) (((g.xoffset + x) * g.bits_per_pixel + b) / 8) g.line_length
            (g.yoffset + g.yres) (omega (arith, hy)) column in
        omega (arith, row, v.length)
