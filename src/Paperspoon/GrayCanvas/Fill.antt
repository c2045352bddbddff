-- ===== src/Paperspoon/GrayCanvas/Fill.antt =====
-- GrayCanvas::fill_rect: the rectangle that it fills.
use native.Mathlib.Decide.{dec_lt}
use rust_x11_hello.Prelude.{
  ℕ, zero, suc, ◌+◌, ◌-◌, ◌*◌, ◌<◌, ◌≤◌, ◌≡◌, ◌∙◌, ◌⊎◌, inl, inr, refl, ap, arith, List, Bool, true,
  false, ◌&&◌, ltb, leb, if◌then◌else◌, min, length, get_or, replicate, Bool-cases,
}
use rust_x11_hello.Paperpad.Mxcfb.Memory.Rows.{
  write_rows_inside, write_rows_outside, length-write_rows,
}
use rust_x11_hello.Paperspoon.GrayCanvas.{GrayCanvas, fill_gray_rect}

abbrev fill_of : ℕ → ℕ → List ℕ
fill_of n luminance = replicate n luminance

length-fill_of : (n luminance : ℕ) → length (fill_of n luminance) ≡ n
length-fill_of zero luminance = refl
length-fill_of (suc n) luminance = ap suc (length-fill_of n luminance)

fill_of-at : (n luminance i : ℕ) → i < n → get_or (fill_of n luminance) i 0 ≡ luminance
fill_of-at zero luminance i lt = absurd (omega arith)
fill_of-at (suc n) luminance zero lt = refl
fill_of-at (suc n) luminance (suc i) lt = fill_of-at n luminance i (omega arith)

-- The part of a rectangle that lies on the canvas
abbrev pub on_gray_rect : GrayCanvas → ℕ → ℕ → ℕ → ℕ → ℕ → ℕ → Bool
on_gray_rect c left top width height x y =
    ((leb left x && ltb x (left + width)) && (leb top y && ltb y (top + height)))
    && (ltb x c.width && ltb y c.height)

below_row : (r s w : ℕ) → r < s → r * w + w ≤ s * w
below_row r s w lt = grind arith

-- A point beside the columns or the rows lies in front of or behind each row that is filled.
beside :
    (w left n r x y : ℕ)
    → left + n ≤ w
    → x < w
    → (r ≡ y → (x < left) ⊎ (left + n ≤ x))
    → (y * w + x < left + r * w) ⊎ (left + r * w + n ≤ y * w + x)
beside w left n r x y fits hx out = elim (dec_lt r y) [
  | yes lt ↦ inr (omega (arith, below_row r y w lt))
  | no ge ↦ elim (dec_lt y r) [
    | yes gt ↦ inl (omega (arith, below_row y r w gt))
    | no le ↦ let same : r ≡ y = omega arith in ground (arith, out same, ap (λ k. k * w) same)
  ]
]

last_fits : (w h left n : ℕ) → 0 < h → left + n ≤ w → left + (h - 1) * w + n ≤ w * h
last_fits w h left n pos fits = grind arith

module _ (c : GrayCanvas) (x y width height luminance : ℕ)
    (size : length c.pixels ≡ c.width * c.height) where
  abbrev left : ℕ
  left = min x c.width

  abbrev columns : ℕ
  columns = min (x + width) c.width - left

  abbrev top : ℕ
  top = min y (min (y + height) c.height)

  abbrev rows : ℕ
  rows = min (y + height) c.height - top

  filled_outside :
      (x' y' : ℕ)
      → x' < c.width
      → on_gray_rect c x y width height x' y' ≡ false
      → get_or (fill_gray_rect c x y width height luminance).pixels (y' * c.width + x') 0
        ≡ get_or c.pixels (y' * c.width + x') 0
  unfolding fill_gray_rect
  filled_outside x' y' hx out =
      write_rows_outside (λ row. row * c.width + left) (λ row. fill_of columns luminance) left
        c.width columns c.height (λ row. omega arith) (λ row lt. length-fill_of columns luminance)
        (omega arith) rows top c.pixels (y' * c.width + x') (omega arith)
        (λ r lo hi.
          beside c.width left columns r x' y' (omega arith) hx (λ same. ground (arith, out)))

  inside_bounds :
      (x' y' : ℕ)
      → on_gray_rect c x y width height x' y' ≡ true
      → (left ≤ x') × (x' < left + columns) × (top ≤ y') × (y' < top + rows) × (y' < c.height)
  inside_bounds x' y' on = (
    ground (arith, on),
    ground (arith, on),
    ground (arith, on),
    ground (arith, on),
    ground (arith, on),
  )

  filled_inside :
      (x' y' : ℕ)
      → on_gray_rect c x y width height x' y' ≡ true
      → get_or (fill_gray_rect c x y width height luminance).pixels (y' * c.width + x') 0
        ≡ luminance
  unfolding fill_gray_rect
  filled_inside x' y' on =
      let (lo, hi, above, below, on_canvas) = inside_bounds x' y' on in
      let place : y' * c.width + x' ≡ left + y' * c.width + (x' - left) = omega (arith, lo) in
      rw place (
        write_rows_inside (λ row. row * c.width + left) (λ row. fill_of columns luminance) left
          c.width columns c.height (λ row. omega arith) (λ row lt. length-fill_of columns luminance)
          (omega arith) rows top c.pixels y' (x' - left) (omega arith)
          (omega (arith, size, last_fits c.width c.height left columns (omega arith) (omega arith)))
          above below (omega (arith, lo, hi))
        ∙ fill_of-at columns luminance (x' - left) (omega (arith, lo, hi)))

  filled_len : length (fill_gray_rect c x y width height luminance).pixels ≡ length c.pixels
  unfolding fill_gray_rect
  filled_len =
      length-write_rows (λ row. row * c.width + left) (λ row. fill_of columns luminance) left
        c.width columns c.height (λ row. omega arith) (λ row lt. length-fill_of columns luminance)
        (omega arith) rows top c.pixels

-- On a canvas with a byte for each pixel, a rectangle fills exactly its points that lie on the canvas
-- with its luminance: every other pixel stays, and so does the number of bytes.
pub fill_gray_rect_lem :
    (c : GrayCanvas) (x y width height luminance x' y' : ℕ)
    → length c.pixels ≡ c.width * c.height
    → x' < c.width
    → (get_or (fill_gray_rect c x y width height luminance).pixels (y' * c.width + x') 0 ≡ (
        if on_gray_rect c x y width height x' y'
        then luminance
        else get_or c.pixels (y' * c.width + x') 0))
      × (length (fill_gray_rect c x y width height luminance).pixels ≡ length c.pixels)
fill_gray_rect_lem c x y width height luminance x' y' size hx = (
  elim (Bool-cases (on_gray_rect c x y width height x' y')) [
    | inl on ↦ rw on (filled_inside c x y width height luminance size x' y' on)
    | inr out ↦ rw out (filled_outside c x y width height luminance size x' y' hx out)
  ],
  filled_len c x y width height luminance size,
)
