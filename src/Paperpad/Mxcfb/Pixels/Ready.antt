-- ===== src/Paperpad/Mxcfb/Pixels/Ready.antt =====
-- Which frames `prepare_remote` prepares.
use rust_x11_hello.Prelude.{
  ℕ, zero, suc, ap, ◌+◌, ◌-◌, ◌*◌, ◌^◌, ◌≤◌, ◌<◌, ◌≡◌, refl, arith, some, ok, length, replicate,
  List,
}
use rust_x11_hello.Paperpad.Ui.Screen.{ScreenRect, ScreenLayout, new_layout}
use rust_x11_hello.Paperpad.Ui.Screen.Partition.{new_layout-IsPartition}
use rust_x11_hello.Paperpad.Display.{RemoteFrame}
use rust_x11_hello.Paperpad.Mxcfb.Pixels.{
  FramebufferSpec, Origin, validate_format, check_screen, remote_origin, check_rows, blit_rows,
  blit_remote, check_mapping, prepared, prepare_remote, PreparedRemote,
}
use rust_x11_hello.Paperpad.Mxcfb.Pixels.Blit.{IsShown}

-- The specification is one of `u32`s.
pub record IsU32Spec (s : FramebufferSpec) : Type 0 where
  pub columns : s.virtual_width < 2 ^ 32
  pub rows : s.virtual_height < 2 ^ 32
  pub memory : s.memory_len < 2 ^ 32

IsShown-check_screen :
    (frame : RemoteFrame) (screen : ScreenLayout) (spec : FramebufferSpec)
    → IsU32Spec spec
    → IsShown frame screen spec
    → check_screen frame screen spec ≡ ok tt
unfolding check_screen validate_format
IsShown-check_screen frame screen spec u v = ground (arith, u, v)

pub length-replicate : (n x : ℕ) → length (replicate n x) ≡ n
length-replicate zero x = refl
length-replicate (suc n) x = ap suc (length-replicate n x)

-- Where the pixels of a region start
abbrev pub origin_of : ScreenRect → FramebufferSpec → Origin
origin_of region spec = record {
  first_x = spec.xoffset + region.x;
  first_y = spec.yoffset + region.y;
}

-- A frame that fits the screen, on a mapping of the whole visible page
module _ (w h : ℕ) (frame : RemoteFrame) (screen : ScreenLayout) (spec : FramebufferSpec) (len : ℕ)
    (layout : new_layout w h ≡ some screen) (u : IsU32Spec spec) (shown : IsShown frame screen spec)
    (rows : 0 < screen.remote_viewport.height) (columns : 0 < screen.remote_viewport.width)
    (page : (spec.yoffset + spec.visible_height) * spec.line_length ≡ len)
    (small : len < 2 ^ 31) where
  abbrev region : ScreenRect
  region = screen.remote_viewport

  abbrev origin : Origin
  origin = origin_of region spec

  pub remote_origin-ok : remote_origin region spec ≡ ok origin
  unfolding remote_origin
  remote_origin-ok = let v = new_layout-IsPartition w h layout in ground (arith, v, u, shown)

  in_page : (y a b line : ℕ) → y + 1 ≤ a → b ≤ line → y * line + b ≤ a * line
  in_page y a b line hy hb = grind arith

  pub last_end :
      (origin.first_y + (region.height - 1)) * spec.line_length + (origin.first_x + region.width)
      ≤ len
  last_end =
      let v = new_layout-IsPartition w h layout in
      rw (← page) (
        in_page (origin.first_y + (region.height - 1)) (spec.yoffset + spec.visible_height)
          (origin.first_x + region.width) spec.line_length
          (omega (arith, v.top, v.rows, shown.visible, rows))
          (omega (arith, v.left, v.wide, shown.visible, shown.right, shown.line)))

  more_rows : (a b line : ℕ) → a ≤ b → a * line ≤ line * b
  more_rows a b line le = grind arith

  in_memory : len ≤ spec.memory_len
  in_memory = omega (
    arith,
    page,
    shown.memory,
    more_rows (spec.yoffset + spec.visible_height) spec.virtual_height spec.line_length
        shown.bottom,
  )

  pub check_rows-ok : (n : ℕ) → n ≡ len → check_rows region spec origin n ≡ ok tt
  unfolding check_rows
  check_rows-ok n e =
      let v = new_layout-IsPartition w h layout in ground (arith, v, u, shown, last_end, in_memory)

  abbrev pub blitted : List ℕ
  blitted = blit_rows frame region spec origin (replicate len 0)

  blit_remote-ok : blit_remote frame screen spec (replicate len 0) ≡ ok (region, blitted)
  unfolding blit_remote
  blit_remote-ok =
      rw
        (
          IsShown-check_screen frame screen spec u shown,
          remote_origin-ok,
          check_rows-ok (length (replicate len 0)) (length-replicate len 0),
        )
        refl

  check_mapping-ok : 0 < len → check_mapping spec len ≡ ok tt
  unfolding check_mapping
  check_mapping-ok some_bytes = ground (arith, u, shown, in_memory, page)

  -- What is prepared
  abbrev pub ready : PreparedRemote
  ready = record {
    region = region;
    spec = spec;
    buffer = blitted;
    first_offset = origin.first_y * spec.line_length + origin.first_x;
    line_length = spec.line_length;
    width = region.width;
    height = region.height;
  }

  prepared-ok : prepared region spec blitted len ≡ ok ready
  unfolding prepared
  prepared-ok =
      let apart : origin.first_y * spec.line_length + (region.height - 1) * spec.line_length
          ≡ (origin.first_y + (region.height - 1)) * spec.line_length =
        grind arith in
      rw remote_origin-ok (ground (arith, last_end, apart, small))

  pub prepare_remote-ready : 0 < len → prepare_remote frame screen spec len ≡ ok ready
  unfolding prepare_remote
  prepare_remote-ready some_bytes =
      rw (check_mapping-ok some_bytes, blit_remote-ok, prepared-ok) refl
