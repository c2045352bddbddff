-- ===== src/Paperpad/Mxcfb/SystemPixels/Drawn.antt =====
-- Where the strip's pixels are black: in Exit and in the connection indicator.
use native.Mathlib.Decide.{dec_lt}
use rust_x11_hello.Prelude.{
  ℕ, zero, suc, ◌+◌, ◌-◌, ◌*◌, ◌/◌, ◌≤◌, ◌<◌, ◌≡◌, ◌≢◌, refl, arith, List, [], ◌∷◌, Bool, true,
  Option, none, some, length, get_or, replicate,
}
use rust_x11_hello.Paperpad.Ui.Screen.{ScreenRect}
use rust_x11_hello.Paperpad.Ui.System.{LogicalRect}
use rust_x11_hello.Paperpad.Mxcfb.Memory.{set, write_bytes}
use rust_x11_hello.Paperpad.Mxcfb.Memory.Rows.{length-set, get_or-set_self}
use rust_x11_hello.Paperpad.Mxcfb.SystemPixels.{
  in_border, draw_border, glyph_scale, draw_text, draw_indicator, draw_if_present, strip_pixels,
  exit_glyphs,
}
use rust_x11_hello.Paperpad.Mxcfb.SystemPixels.Loops.{for_range_inv, for_range_hits, glyphs}

-- The two places of a strip are the same only if their rows and columns are.
other_place : (a b c e s : ℕ) → a < c → b < s → a * s + b < c * s + e
other_place a b c e s lt inside = grind arith

abbrev pub IsIn : ℕ → ℕ → ℕ → ℕ → ℕ → ℕ → Type 0
IsIn left top width height x y = (left ≤ x) × (x < left + width) × (top ≤ y) × (y < top + height)

-- A store at one place leaves another place alone.
pub elsewhere :
    (s x y x' y' : ℕ) → x < s → x' < s → ¬ ((x ≡ x') × (y ≡ y')) → y * s + x ≢ y' * s + x'
elsewhere s x y x' y' hx hx' apart e = elim (dec_lt y y') [
  | yes up ↦ omega (arith, other_place y x y' x' s up hx)
  | no up ↦ elim (dec_lt y' y) [
    | yes down ↦ omega (arith, other_place y' x' y x s down hx')
    | no down ↦
        let same : y ≡ y' = omega arith in
        let e' : y' * s + x ≡ y' * s + x' = rw same at e in apart (omega arith, omega arith)
  ]
]

-- The border: what keeps it keeps `P`.
module _ {κ} (P : List ℕ → Type κ) (stride left top width height : ℕ)
    (keep : (b : List ℕ) (dx dy : ℕ)
      → dx < width
      → dy < height
      → P b
      → P (set b ((top + dy) * stride + (left + dx)) 0)) where
  draw_border_keeps : (b : List ℕ) → P b → P (draw_border stride left top width height b)
  unfolding draw_border
  draw_border_keeps b h =
      for_range_inv P _ height 0 b
        (λ dy c lo hi pc.
          for_range_inv P _ width 0 c (λ dx e lo' hi' pe. ground (arith, keep e dx dy, pe)) pc)
        h

module _ {κ} (P : List ℕ → Type κ) (connected : Bool) (stride left top diameter : ℕ)
    (keep : (b : List ℕ) (dx dy : ℕ)
      → dx < diameter
      → dy < diameter
      → P b
      → P (set b ((top + dy) * stride + left + dx) 0)) where
  draw_indicator_keeps :
      (b : List ℕ) → P b → P (draw_indicator connected stride left top diameter b)
  unfolding draw_indicator
  draw_indicator_keeps b h =
      for_range_inv P _ diameter 0 b
        (λ dy c lo hi pc.
          for_range_inv P _ diameter 0 c (λ dx e lo' hi' pe. ground (arith, keep e dx dy, pe)) pc)
        h

-- The whole strip: what survives a store in Exit, a run in Exit and a store in the indicator is kept.
module _ {κ} (P : List ℕ → Type κ) (connected : Bool) (region : ScreenRect) (bounds : LogicalRect)
    (tall : bounds.height ≡ 72)
    (dot : (b : List ℕ) (dx dy : ℕ)
      → dx < bounds.width
      → dy < bounds.height
      → P b
      → P (set b ((bounds.y - region.y + dy) * region.width + (bounds.x - region.x + dx)) 0))
    (run : (scale : ℕ) (b : List ℕ) (y x : ℕ)
      → bounds.y - region.y ≤ y
      → y < bounds.y - region.y + bounds.height
      → bounds.x - region.x ≤ x
      → x + scale ≤ bounds.x - region.x + bounds.width
      → P b
      → P (write_bytes b (y * region.width + x) (replicate scale 0))) where
  draw_text_keeps :
      (b : List ℕ)
      → P b
      → P (
          draw_text region.width
            (bounds.x - region.x)
            (bounds.y - region.y)
            bounds.width
            bounds.height
            b)
  unfolding draw_text
  draw_text_keeps b h =
      let scale = glyph_scale bounds.width in
      let text =
        glyphs P region.width scale (bounds.x - region.x) (bounds.y - region.y) bounds.width
          bounds.height (run scale) (bounds.x - region.x + (bounds.width - 23 * scale) / 2)
          (bounds.y - region.y + (bounds.height - 7 * scale) / 2) exit_glyphs b 4 (omega arith)
          (omega (arith, tall)) (omega arith) refl (omega arith) (refl, (refl, (refl, (refl, tt))))
          h in
      ground (arith, text, h)

  pub controls_keep :
      (indicator : Option LogicalRect)
      → ((i : LogicalRect) (b : List ℕ) (dx dy : ℕ)
          → indicator ≡ some i
          → dx < i.width
          → dy < i.width
          → P b
          → P (set b ((i.y - region.y + dy) * region.width + (i.x - region.x) + dx) 0))
      → (b : List ℕ) → P b
      → P (
          draw_if_present connected region indicator (
            draw_text region.width
              (bounds.x - region.x)
              (bounds.y - region.y)
              bounds.width
              bounds.height
              b))
  unfolding draw_if_present
  controls_keep none mark b h = draw_text_keeps b h
  controls_keep (some i) mark b h =
      draw_indicator_keeps P connected region.width (i.x - region.x) (i.y - region.y) i.width
        (λ b dx dy hx hy pb. mark i b dx dy refl hx hy pb) _ (draw_text_keeps b h)

  pub strip_pixels_keeps :
      (indicator : Option LogicalRect) (len : ℕ)
      → ((i : LogicalRect) (b : List ℕ) (dx dy : ℕ)
          → indicator ≡ some i
          → dx < i.width
          → dy < i.width
          → P b
          → P (set b ((i.y - region.y + dy) * region.width + (i.x - region.x) + dx) 0))
      → P (replicate len 255)
      → P (strip_pixels connected region bounds indicator len)
  unfolding strip_pixels
  strip_pixels_keeps indicator len mark h = controls_keep indicator mark _ (
      draw_border_keeps P region.width (bounds.x - region.x) (bounds.y - region.y) bounds.width
        bounds.height dot _ h)

pub set_black : (b : List ℕ) (i j : ℕ) → get_or b j 0 ≡ 0 → get_or (set b i 0) j 0 ≡ 0
set_black [] i j h = h
set_black (x ∷ b) zero zero h = refl
set_black (x ∷ b) zero (suc j) h = h
set_black (x ∷ b) (suc i) zero h = h
set_black (x ∷ b) (suc i) (suc j) h = set_black b i j h

pub write_bytes_black :
    (n : ℕ) (b : List ℕ) (i j : ℕ)
    → get_or b j 0 ≡ 0
    → get_or (write_bytes b i (replicate n 0)) j 0 ≡ 0
unfolding write_bytes
write_bytes_black zero b i j h = h
write_bytes_black (suc n) b i j h = write_bytes_black n (set b i 0) (i + 1) j (set_black b i j h)

-- The pixels of the border are stored black.
module _ (stride left top width height len dx dy : ℕ) where
  abbrev place : ℕ
  place = (top + dy) * stride + (left + dx)

  abbrev IsBlack : List ℕ → Type 0
  IsBlack c = get_or c place 0 ≡ 0

  abbrev IsSized : List ℕ → Type 0
  IsSized c = length c ≡ len

  pub border-IsBlack :
      (b : List ℕ)
      → dx < width
      → dy < height
      → in_border width height dx dy ≡ true
      → place < len
      → IsSized b
      → IsBlack (draw_border stride left top width height b)
  unfolding draw_border
  border-IsBlack b hx hy border inside size =
      for_range_hits IsSized IsBlack _ height 0 dy b (omega arith) (omega arith)
        (λ i c q.
          for_range_inv IsSized _ width 0 c
            (λ k e lo hi qe. ground (arith, length-set e ((top + i) * stride + (left + k)) 0)) q)
        (λ i c q.
          for_range_inv IsBlack _ width 0 c
            (λ k e lo hi qe. ground (arith, set_black e ((top + i) * stride + (left + k)) place qe))
            q)
        (λ c q.
          for_range_hits IsSized IsBlack _ width 0 dx c (omega arith) (omega arith)
            (λ k e qe. ground (arith, length-set e ((top + dy) * stride + (left + k)) 0))
            (λ k e qe. ground (arith, set_black e ((top + dy) * stride + (left + k)) place qe))
            (λ e qe. ground (arith, border, get_or-set_self e place 0)) q)
        size
