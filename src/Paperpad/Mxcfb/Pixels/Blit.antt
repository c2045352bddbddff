-- ===== src/Paperpad/Mxcfb/Pixels/Blit.antt =====
-- Which bytes of a framebuffer `blit_remote` changes, and to what.
use native.Mathlib.Decide.{dec_lt}
use rust_x11_hello.Prelude.{
  ℕ, ◌+◌, ◌-◌, ◌*◌, ◌≤◌, ◌<◌, ◌≡◌, ◌≢◌, ◌⊎◌, inl, inr, arith, List, some, ok, length, get_or,
  >>=-eq-ok,
}
use rust_x11_hello.Protocol.Frame.Owned.{IsImage}
use rust_x11_hello.Paperpad.Ui.Screen.{ScreenRect, ScreenLayout, new_layout}
use rust_x11_hello.Paperpad.Ui.Screen.Partition.{new_layout-IsPartition}
use rust_x11_hello.Paperpad.Display.{RemoteFrame}
use rust_x11_hello.Paperpad.Mxcfb.Memory.Rows.{
  length-write_rows, write_rows_outside, write_rows_inside,
}
use rust_x11_hello.Paperpad.Mxcfb.Pixels.{
  FramebufferSpec, Origin, validate_format, check_screen, remote_origin, check_rows, native_row,
  source_row, blit_rows, blit_remote,
}
use rust_x11_hello.Paperpad.Mxcfb.Pixels.Rows.{pixel_byte, length-native_row, native_row-pixel_byte}

-- The framebuffer has the 8-bit grayscale format, and the frame fits the screen on it.
pub record IsShown (frame : RemoteFrame) (screen : ScreenLayout) (spec : FramebufferSpec)
    : Type 0 where
  pub format :
      (spec.kind ≡ 0)
      × (spec.visual ≡ 1)
      × (spec.bits_per_pixel ≡ 8)
      × (spec.grayscale ≡ 1)
      × (spec.nonstd ≡ 0)
  pub visible :
      (spec.visible_width ≡ screen.physical_size.0) × (spec.visible_height ≡ screen.physical_size.1)
  pub dimensions :
      (frame.width ≡ screen.remote_viewport.width) × (frame.height ≡ screen.remote_viewport.height)
  pub above : screen.remote_viewport.y + screen.remote_viewport.height ≤ screen.system_ui_region.y
  pub right : spec.xoffset + spec.visible_width ≤ spec.virtual_width
  pub bottom : spec.yoffset + spec.visible_height ≤ spec.virtual_height
  pub line : spec.virtual_width ≤ spec.line_length
  pub memory : spec.line_length * spec.virtual_height ≤ spec.memory_len

pub check_screen-IsShown :
    (frame : RemoteFrame) (screen : ScreenLayout) (spec : FramebufferSpec)
    → check_screen frame screen spec ≡ ok tt
    → IsShown frame screen spec
unfolding check_screen validate_format
check_screen-IsShown frame screen spec e = record {
  format = (ground arith, ground arith, ground arith, ground arith, ground arith);
  visible = (ground arith, ground arith);
  dimensions = (ground arith, ground arith);
  above = ground arith;
  right = ground arith;
  bottom = ground arith;
  line = ground arith;
  memory = ground arith;
}

pub remote_origin-eq :
    (region : ScreenRect) (spec : FramebufferSpec) {o : Origin}
    → remote_origin region spec ≡ ok o
    → (o.first_x ≡ spec.xoffset + region.x) × (o.first_y ≡ spec.yoffset + region.y)
unfolding remote_origin
remote_origin-eq region spec e = (ground arith, ground arith)

pub check_rows-fits :
    (region : ScreenRect) (spec : FramebufferSpec) (o : Origin) (len : ℕ)
    → check_rows region spec o len ≡ ok tt
    → (0 < region.width)
      × (0 < region.height)
      × ((o.first_y + (region.height - 1)) * spec.line_length + o.first_x + region.width ≤ len)
unfolding check_rows
check_rows-fits region spec o len e = (ground arith, ground arith, ground arith)

-- Where the pixel at column `x` and row `y` of a region is stored
abbrev pub index_of : FramebufferSpec → ScreenRect → ℕ → ℕ → ℕ
index_of spec region x y =
    (spec.yoffset + region.y + y) * spec.line_length + (spec.xoffset + region.x + x)

-- What a successful call has gone through
pub blit_remote-inverse :
    (frame : RemoteFrame) (screen : ScreenLayout) (spec : FramebufferSpec) (memory : List ℕ)
    {region : ScreenRect} {memory' : List ℕ}
    → blit_remote frame screen spec memory ≡ ok (region, memory')
    → (o : Origin) × (check_screen frame screen spec ≡ ok tt)
      × (remote_origin screen.remote_viewport spec ≡ ok o)
      × (check_rows screen.remote_viewport spec o (length memory) ≡ ok tt)
      × (region ≡ screen.remote_viewport)
      × (memory' ≡ blit_rows frame screen.remote_viewport spec o memory)
unfolding blit_remote
blit_remote-inverse frame screen spec memory e =
    let (a, checked, k) = >>=-eq-ok (check_screen frame screen spec) _ e in
    let (o, placed, l) = >>=-eq-ok (remote_origin screen.remote_viewport spec) _ k in
    let (b, fits, m) = >>=-eq-ok (check_rows screen.remote_viewport spec o (length memory)) _ l in
    (o, checked, placed, fits, cc m, cc m)

-- The rows of a frame that is shown are stored in the viewport and nowhere else.
module _ (w h : ℕ) (frame : RemoteFrame) (screen : ScreenLayout) (spec : FramebufferSpec)
    (o : Origin) (memory : List ℕ) (layout : new_layout w h ≡ some screen)
    (image : IsImage frame.pixel_format frame.width frame.height frame.stride frame.pixels)
    (shown : IsShown frame screen spec) (placed : remote_origin screen.remote_viewport spec ≡ ok o)
    (fits : check_rows screen.remote_viewport spec o (length memory) ≡ ok tt) where
  abbrev region : ScreenRect
  region = screen.remote_viewport

  abbrev base : ℕ
  base = o.first_y * spec.line_length + o.first_x

  apart :
      (row : ℕ) → (o.first_y + row) * spec.line_length + o.first_x ≡ base + row * spec.line_length
  apart row = grind arith

  same_size : (frame.width ≡ region.width) × (frame.height ≡ region.height)
  same_size = shown.dimensions

  wide :
      (row : ℕ)
      → row < region.height
      → length (native_row frame.pixel_format (source_row frame row) region.width) ≡ region.width
  wide row lt = rw (← same_size.0) (
      length-native_row frame.width frame.height frame.stride frame.pixels row
        (omega (arith, same_size.1)) frame.pixel_format image)

  pub narrow : region.width ≤ spec.line_length
  narrow =
      let p = new_layout-IsPartition w h layout in
      omega (arith, p.wide, shown.visible, shown.right, shown.line)

  pub index-eq : (x y : ℕ) → index_of spec region x y ≡ base + y * spec.line_length + x
  index-eq x y = let (ex, ey) = remote_origin-eq region spec placed in rw (ex, ey) (grind arith)

  room : base + (region.height - 1) * spec.line_length + region.width ≤ length memory
  room =
      let (some_columns, some_rows, inside) = check_rows-fits region spec o (length memory) fits in
      grind (arith, inside)

  pub in_memory :
      (x y : ℕ) → x < region.width → y < region.height → index_of spec region x y < length memory
  in_memory x y hx hy =
      let last : y * spec.line_length ≤ (region.height - 1) * spec.line_length =
        grind (arith, hy) in
      rw (index-eq x y) (omega (arith, room, last))

  pub length-blit_rows : length (blit_rows frame region spec o memory) ≡ length memory
  unfolding blit_rows
  length-blit_rows =
      length-write_rows _ _ base spec.line_length region.width region.height apart wide narrow
        region.height 0 memory

  pub blit_rows-pixel_byte :
      (x y : ℕ)
      → x < region.width
      → y < region.height
      → pixel_byte frame.pixel_format frame.width frame.height frame.stride frame.pixels x y
        ≡ some (get_or (blit_rows frame region spec o memory) (index_of spec region x y) 0)
  unfolding blit_rows
  blit_rows-pixel_byte x y hx hy =
      let stored =
        write_rows_inside _ _ base spec.line_length region.width region.height apart wide narrow
          region.height 0 memory y x (omega arith) room (omega arith) (omega arith) hx in
      let byte =
        native_row-pixel_byte frame.width frame.height frame.stride frame.pixels y
          (omega (arith, same_size.1)) frame.pixel_format x image (omega (arith, same_size.0)) in
      rw (index-eq x y) (rw stored (rw (← same_size.0) byte))

  pub blit_rows_outside :
      (i : ℕ)
      → ((x y : ℕ) → x < region.width → y < region.height → i ≢ index_of spec region x y)
      → get_or (blit_rows frame region spec o memory) i 0 ≡ get_or memory i 0
  unfolding blit_rows
  blit_rows_outside i out =
      write_rows_outside _ _ base spec.line_length region.width region.height apart wide narrow
        region.height 0 memory i (omega arith) (λ r lo hi. before_or_behind r (omega arith))
    where
      before_or_behind :
          (r : ℕ)
          → r < region.height
          → (i < base + r * spec.line_length) ⊎ (base + r * spec.line_length + region.width ≤ i)
      before_or_behind r lt = elim (dec_lt i (base + r * spec.line_length)) [
        | yes before ↦ inl before
        | no later ↦ elim (dec_lt i (base + r * spec.line_length + region.width)) [
          | yes inside ↦
              let x = i - (base + r * spec.line_length) in
              absurd (out x r (omega arith) lt (omega (arith, index-eq x r)))
          | no behind ↦ inr (omega arith)
        ]
      ]

-- A successful blit of a valid frame covers the remote viewport of the screen: the byte of each of
-- its pixels is in the memory and becomes the pixel's shade, and every other byte stays as it was.
pub blit_remote_lem :
    (w h : ℕ) (frame : RemoteFrame) (screen : ScreenLayout) (spec : FramebufferSpec)
    (memory : List ℕ) {region : ScreenRect} {memory' : List ℕ}
    → new_layout w h ≡ some screen
    → IsImage frame.pixel_format frame.width frame.height frame.stride frame.pixels
    → blit_remote frame screen spec memory ≡ ok (region, memory')
    → (region ≡ screen.remote_viewport)
      × (length memory' ≡ length memory)
      × ((x y : ℕ)
          → x < screen.remote_viewport.width
          → y < screen.remote_viewport.height
          → (index_of spec screen.remote_viewport x y < length memory)
            × (pixel_byte frame.pixel_format frame.width frame.height frame.stride frame.pixels x y
                ≡ some (get_or memory' (index_of spec screen.remote_viewport x y) 0)))
      × ((i : ℕ)
          → ((x y : ℕ)
              → x < screen.remote_viewport.width
              → y < screen.remote_viewport.height
              → i ≢ index_of spec screen.remote_viewport x y)
          → get_or memory' i 0 ≡ get_or memory i 0)
blit_remote_lem w h frame screen spec memory {memory' = memory'} layout image e =
    let (o, checked, placed, fits, same, stored) = blit_remote-inverse frame screen spec memory e in
    let shown = check_screen-IsShown frame screen spec checked in
    (
      same,
      rw stored (length-blit_rows w h frame screen spec o memory layout image shown placed fits),
      λ x y hx hy. (
        in_memory w h frame screen spec o memory layout image shown placed fits x y hx hy,
        rw stored (
            blit_rows-pixel_byte w h frame screen spec o memory layout image shown placed fits x y
              hx hy),
      ),
      λ i out.
          rw stored
            (blit_rows_outside w h frame screen spec o memory layout image shown placed fits i out),
    )
