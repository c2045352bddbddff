-- ===== src/Paperpad/Mxcfb/SystemPixels/Loops.antt =====
-- What the drawing loops of the strip keep, and what they reach.
use native.Mathlib.Decide.{ℕ_discrete}
use rust_x11_hello.Prelude.{
  ℕ, zero, suc, ◌+◌, ◌*◌, ◌≤◌, ◌<◌, ◌≡◌, arith, List, [], ◌∷◌, length, replicate, All,
}
use rust_x11_hello.Paperpad.Mxcfb.Memory.{write_bytes}
use rust_x11_hello.Paperpad.Mxcfb.SystemPixels.{
  for_range, fill_square, draw_glyph_row, draw_glyph, draw_glyphs,
}

-- What each round keeps, the loop keeps.
pub for_range_inv {κ} :
    (P : List ℕ → Type κ) (body : ℕ → List ℕ → List ℕ) (rounds from : ℕ) (bytes : List ℕ)
    → ((i : ℕ) (b : List ℕ) → from ≤ i → i < from + rounds → P b → P (body i b))
    → P bytes
    → P (for_range from rounds body bytes)
unfolding for_range
for_range_inv P body zero from bytes keep h = h
for_range_inv P body (suc rounds) from bytes keep h =
    for_range_inv P body rounds (from + 1) (body from bytes)
      (λ i b lo hi. keep i b (omega arith) (omega arith))
      (keep from bytes (omega arith) (omega arith) h)

-- What one round brings about and each keeps holds behind the loop.
pub for_range_hits {κ} :
    (Q P : List ℕ → Type κ) (body : ℕ → List ℕ → List ℕ) (rounds from j : ℕ) (bytes : List ℕ)
    → from ≤ j
    → j < from + rounds
    → ((i : ℕ) (b : List ℕ) → Q b → Q (body i b))
    → ((i : ℕ) (b : List ℕ) → P b → P (body i b))
    → ((b : List ℕ) → Q b → P (body j b))
    → Q bytes
    → P (for_range from rounds body bytes)
unfolding for_range
for_range_hits Q P body zero from j bytes lo hi stays keep hit q = absurd (omega arith)
for_range_hits Q P body (suc rounds) from j bytes lo hi stays keep hit q =
    elim (ℕ_discrete j from) [
      | yes now ↦
          for_range_inv P body rounds (from + 1) (body from bytes) (λ i b lo' hi'. keep i b)
            (rw now at (hit bytes q))
      | no later ↦
          for_range_hits Q P body rounds (from + 1) j (body from bytes) (omega arith) (omega arith)
            stays keep hit (stays from bytes q)
    ]

-- A property that survives a run of black bytes in any square of the text survives the text.
module _ {κ} (P : List ℕ → Type κ) (stride scale left top width height : ℕ)
    (keep : (b : List ℕ) (y x : ℕ)
      → top ≤ y
      → y < top + height
      → left ≤ x
      → x + scale ≤ left + width
      → P b
      → P (write_bytes b (y * stride + x) (replicate scale 0))) where
  square :
      (x y : ℕ) (b : List ℕ)
      → top ≤ y
      → y + scale ≤ top + height
      → left ≤ x
      → x + scale ≤ left + width
      → P b
      → P (fill_square stride scale x y b)
  unfolding fill_square
  square x y b above below before behind h =
      for_range_inv P _ scale y b
        (λ i c lo hi pc. keep c i x (omega arith) (omega arith) before behind pc) h

  step : (i n : ℕ) → i < 5 → i * n + n ≤ 5 * n
  step i n lt = grind arith

  glyph_row :
      (x y row : ℕ) (b : List ℕ)
      → top ≤ y
      → y + scale ≤ top + height
      → left ≤ x
      → x + 5 * scale ≤ left + width
      → P b
      → P (draw_glyph_row stride scale x y row b)
  unfolding draw_glyph_row
  glyph_row x y row b above below before behind h =
      for_range_inv P _ 5 0 b
        (λ i c lo hi pc. ground (
          arith,
          step i scale (omega arith),
          square (x + i * scale) y c above below (omega arith)
              (omega (arith, step i scale (omega arith))) pc,
          pc,
        ))
        h

  glyph :
      (x y : ℕ) (rows : List ℕ) (b : List ℕ) (n : ℕ)
      → top ≤ y
      → length rows ≡ n
      → y + n * scale ≤ top + height
      → left ≤ x
      → x + 5 * scale ≤ left + width
      → P b
      → P (draw_glyph stride scale x y rows b)
  unfolding draw_glyph
  glyph x y [] b n above e below before behind h = h
  glyph x y (row ∷ rows) b zero above e below before behind h = absurd (omega arith)
  glyph x y (row ∷ rows) b (suc n) above e below before behind h =
      glyph x (y + scale) rows (draw_glyph_row stride scale x y row b) n (omega arith) (omega arith)
        (grind arith) before behind (glyph_row x y row b above (grind arith) before behind h)

  pub glyphs :
      (x y : ℕ) (all : List (List ℕ)) (b : List ℕ) (n : ℕ)
      → top ≤ y
      → y + 7 * scale ≤ top + height
      → left ≤ x
      → length all ≡ n
      → x + n * (6 * scale) ≤ left + width + scale
      → All (λ g. length g ≡ 7) all
      → P b
      → P (draw_glyphs stride scale x y all b)
  unfolding draw_glyphs
  glyphs x y [] b n above below before e behind seven h = h
  glyphs x y (g ∷ gs) b zero above below before e behind seven h = absurd (omega arith)
  glyphs x y (g ∷ gs) b (suc n) above below before e behind seven h =
      glyphs (x + 6 * scale) y gs (draw_glyph stride scale x y g b) n above below (omega arith)
        (omega arith) (grind arith) seven.1
        (glyph x y g b 7 above seven.0 below before (grind arith) h)
