-- ===== src/Paperspoon/Diagnostic/Drawn.antt =====
-- What the loops of DiagnosticFrame::encode draw.
use native.Mathlib.Decide.{ℕ_discrete}
use rust_x11_hello.Prelude.{
  ℕ, zero, suc, ◌+◌, ◌*◌, ◌/◌, ◌<◌, ◌≤◌, ◌≡◌, ◌≢◌, ◌∙◌, ◌⊎◌, inl, inr, refl, ap, arith, List, Bool,
  true, false, ◌&&◌, not, ◌==◌, length,
}
use rust_x11_hello.Paperpad.Mxcfb.Memory.Rows.{length-set}
use rust_x11_hello.Paperspoon.Diagnostic.{draw_black, draw_pixel, draw_columns, draw_rows}
use rust_x11_hello.Paperspoon.Diagnostic.Bits.{
  white_at, IsBytes, draw_black-IsBytes, draw_black-white,
}

-- `len` bytes
pub record IsImage (len : ℕ) (pixels : List ℕ) : Type 0 where
  pub size : length pixels ≡ len
  pub bytes : IsBytes pixels

differs : (x y x' y' : ℕ) → (x ≢ x') ⊎ (y ≢ y') → ((x == x') && (y == y')) ≡ false
differs x y x' y' (inl n) = ground arith
differs x y x' y' (inr n) = ground arith

same_self : (x y : ℕ) → ((x == x) && (y == y)) ≡ true
same_self x y = ground arith

room :
    (y rows stride len : ℕ)
    → (y + suc rows) * stride ≤ len
    → (y * stride + stride ≤ len) × ((y + 1 + rows) * stride ≤ len)
room y rows stride len h = (grind arith, grind arith)

module _ (black : ℕ → ℕ → Bool) (stride len : ℕ) where
  draw_pixel-IsImage :
      (b : Bool) (pixels : List ℕ) (x y : ℕ)
      → x / 8 < stride
      → y * stride + stride ≤ len
      → IsImage len pixels
      → IsImage len (draw_pixel b stride pixels x y)
  unfolding draw_pixel draw_black
  draw_pixel-IsImage false pixels x y hx hy is = is
  draw_pixel-IsImage true pixels x y hx hy is = record {
    size = length-set pixels (y * stride + x / 8) _ ∙ is.size;
    bytes = draw_black-IsBytes stride pixels x y (omega (arith, is.size)) is.bytes;
  }

  draw_pixel_other :
      (b : Bool) (pixels : List ℕ) (x y x' y' : ℕ)
      → x / 8 < stride
      → x' / 8 < stride
      → y * stride + stride ≤ len
      → IsImage len pixels
      → (x ≢ x') ⊎ (y ≢ y')
      → white_at stride (draw_pixel b stride pixels x y) x' y' ≡ white_at stride pixels x' y'
  unfolding draw_pixel
  draw_pixel_other false pixels x y x' y' hx hx' hy is n = refl
  draw_pixel_other true pixels x y x' y' hx hx' hy is n =
      draw_black-white stride pixels x y x' y' hx hx' (omega (arith, is.size)) is.bytes
      ∙ rw (differs x y x' y' n) refl

  draw_pixel_self :
      (b : Bool) (pixels : List ℕ) (x y : ℕ)
      → x / 8 < stride
      → y * stride + stride ≤ len
      → IsImage len pixels
      → white_at stride (draw_pixel b stride pixels x y) x y ≡ (not b && white_at stride pixels x y)
  unfolding draw_pixel
  draw_pixel_self false pixels x y hx hy is = refl
  draw_pixel_self true pixels x y hx hy is =
      draw_black-white stride pixels x y x y hx hx (omega (arith, is.size)) is.bytes
      ∙ rw (same_self x y) refl

  -- Columns that fit the stride, in a row that fits the image
  draw_columns-IsImage :
      (y columns x : ℕ) (pixels : List ℕ)
      → x + columns ≤ stride * 8
      → y * stride + stride ≤ len
      → IsImage len pixels
      → IsImage len (draw_columns black stride y columns x pixels)
  unfolding draw_columns
  draw_columns-IsImage y zero x pixels fits hy is = is
  draw_columns-IsImage y (suc columns) x pixels fits hy is =
      draw_columns-IsImage y columns (x + 1) (draw_pixel (black x y) stride pixels x y)
        (omega arith) hy (draw_pixel-IsImage (black x y) pixels x y (omega arith) hy is)

  draw_columns_other :
      (y columns x : ℕ) (pixels : List ℕ) (x' y' : ℕ)
      → x + columns ≤ stride * 8
      → x' < stride * 8
      → y * stride + stride ≤ len
      → IsImage len pixels
      → (y ≢ y') ⊎ ((x' < x) ⊎ (x + columns ≤ x'))
      → white_at stride (draw_columns black stride y columns x pixels) x' y'
        ≡ white_at stride pixels x' y'
  unfolding draw_columns
  draw_columns_other y zero x pixels x' y' fits hx' hy is out = refl
  draw_columns_other y (suc columns) x pixels x' y' fits hx' hy is out =
      draw_columns_other y columns (x + 1) (draw_pixel (black x y) stride pixels x y) x' y'
        (omega arith) hx' hy (draw_pixel-IsImage (black x y) pixels x y (omega arith) hy is)
        (ground (arith, out))
      ∙ draw_pixel_other (black x y) pixels x y x' y' (omega arith) (omega arith) hy is
          (ground (arith, out))

  draw_columns_self :
      (y columns x : ℕ) (pixels : List ℕ) (x' : ℕ)
      → x + columns ≤ stride * 8
      → y * stride + stride ≤ len
      → IsImage len pixels
      → x ≤ x'
      → x' < x + columns
      → white_at stride (draw_columns black stride y columns x pixels) x' y
        ≡ (not (black x' y) && white_at stride pixels x' y)
  unfolding draw_columns
  draw_columns_self y zero x pixels x' fits hy is lo hi = absurd (omega arith)
  draw_columns_self y (suc columns) x pixels x' fits hy is lo hi =
      let next = draw_pixel (black x y) stride pixels x y in
      let is' = draw_pixel-IsImage (black x y) pixels x y (omega arith) hy is in
      elim (ℕ_discrete x' x) [
        | yes same ↦ rw same (
            draw_columns_other y columns (x + 1) next x y (omega arith) (omega arith) hy is'
              (inr (inl (omega arith)))
            ∙ draw_pixel_self (black x y) pixels x y (omega arith) hy is)
        | no other ↦
            draw_columns_self y columns (x + 1) next x' (omega arith) hy is' (omega arith)
              (omega arith)
            ∙ ap (λ w. not (black x' y) && w)
                (draw_pixel_other (black x y) pixels x y x' y (omega arith) (omega arith) hy is
                  (inl (ground arith)))
      ]

  module _ (width : ℕ) (narrow : width ≤ stride * 8) where
    pub draw_rows_other :
        (rows y : ℕ) (pixels : List ℕ) (x' y' : ℕ)
        → x' < stride * 8
        → (y + rows) * stride ≤ len
        → IsImage len pixels
        → (y' < y) ⊎ (width ≤ x')
        → white_at stride (draw_rows black stride width rows y pixels) x' y'
          ≡ white_at stride pixels x' y'
    unfolding draw_rows
    draw_rows_other zero y pixels x' y' hx hy is out = refl
    draw_rows_other (suc rows) y pixels x' y' hx hy is out =
        let (here, later) = room y rows stride len hy in
        draw_rows_other rows (y + 1) (draw_columns black stride y width 0 pixels) x' y' hx later
          (draw_columns-IsImage y width 0 pixels (omega arith) here is) (ground (arith, out))
        ∙ draw_columns_other y width 0 pixels x' y' (omega arith) hx here is (ground (arith, out))

    pub draw_rows_self :
        (rows y : ℕ) (pixels : List ℕ) (x' y' : ℕ)
        → x' < width
        → (y + rows) * stride ≤ len
        → IsImage len pixels
        → y ≤ y'
        → y' < y + rows
        → white_at stride (draw_rows black stride width rows y pixels) x' y'
          ≡ (not (black x' y') && white_at stride pixels x' y')
    unfolding draw_rows
    draw_rows_self zero y pixels x' y' hx hy is lo hi = absurd (omega arith)
    draw_rows_self (suc rows) y pixels x' y' hx hy is lo hi =
        let (here, later) = room y rows stride len hy in
        let next = draw_columns black stride y width 0 pixels in
        let is' = draw_columns-IsImage y width 0 pixels (omega arith) here is in
        elim (ℕ_discrete y' y) [
          | yes same ↦ rw same (
              draw_rows_other rows (y + 1) next x' y (omega arith) later is' (inl (omega arith))
              ∙ draw_columns_self y width 0 pixels x' (omega arith) here is (omega arith)
                  (omega arith))
          | no other ↦
              draw_rows_self rows (y + 1) next x' y' hx later is' (omega arith) (omega arith)
              ∙ ap (λ w. not (black x' y') && w)
                  (draw_columns_other y width 0 pixels x' y' (omega arith) (omega arith) here is
                    (inl (ground arith)))
        ]

    pub draw_rows-IsImage :
        (rows y : ℕ) (pixels : List ℕ)
        → (y + rows) * stride ≤ len
        → IsImage len pixels
        → IsImage len (draw_rows black stride width rows y pixels)
    unfolding draw_rows
    draw_rows-IsImage zero y pixels hy is = is
    draw_rows-IsImage (suc rows) y pixels hy is =
        let (here, later) = room y rows stride len hy in
        draw_rows-IsImage rows (y + 1) (draw_columns black stride y width 0 pixels) later
          (draw_columns-IsImage y width 0 pixels (omega arith) here is)
