-- ===== src/Paperspoon/Diagnostic/Grays.antt =====
-- A Gray8 pattern: the rows of values.
use rust_x11_hello.Prelude.{
  ℕ, zero, suc, ◌+◌, ◌*◌, ◌<◌, ◌≡◌, ◌∙◌, refl, ap, arith, List, [], ◌∷◌, ◌++◌, length, All,
  All-append, length-append, get_or-append_left, get_or,
}
use rust_x11_hello.Paperspoon.Diagnostic.{
  DiagnosticPattern, white_pattern, black_pattern, horizontal, checkerboard, border, corners,
  gray_gradient, gray_bars, gray, gray8_value, gray_row, gray_rows,
}
use rust_x11_hello.Prelude.Bytes.{IsU8}

length-gray_row : (p : DiagnosticPattern) (w n x : ℕ) → length (gray_row p w n x) ≡ n
unfolding gray_row
length-gray_row p w zero x = refl
length-gray_row p w (suc n) x = ap suc (length-gray_row p w n (x + 1))

gray_row_at :
    (p : DiagnosticPattern) (w n x i : ℕ)
    → i < n
    → get_or (gray_row p w n x) i 0 ≡ gray8_value p (x + i) w
unfolding gray_row
gray_row_at p w zero x i lt = absurd (omega arith)
gray_row_at p w (suc n) x zero lt = let here : x + 0 ≡ x = omega arith in rw here refl
gray_row_at p w (suc n) x (suc i) lt =
    let there : x + suc i ≡ x + 1 + i = omega arith in
    rw there (gray_row_at p w n (x + 1) i (omega arith))

pub length-gray_rows : (p : DiagnosticPattern) (w h : ℕ) → length (gray_rows p w h) ≡ w * h
unfolding gray_rows
length-gray_rows p w zero = grind arith
length-gray_rows p w (suc h) =
    length-append (gray_row p w w 0) (gray_rows p w h)
    ∙ rw (length-gray_row p w w 0, length-gray_rows p w h) (grind arith)

get_or_past : (xs ys : List ℕ) (i : ℕ) → get_or (xs ++ ys) (length xs + i) 0 ≡ get_or ys i 0
get_or_past [] ys i = let e : 0 + i ≡ i = omega arith in rw e refl
get_or_past (x ∷ xs) ys i =
    let e : suc (length xs) + i ≡ suc (length xs + i) = omega arith in rw e (get_or_past xs ys i)

pub gray_rows_at :
    (p : DiagnosticPattern) (w h x y : ℕ)
    → x < w
    → y < h
    → get_or (gray_rows p w h) (y * w + x) 0 ≡ gray8_value p x w
unfolding gray_rows
gray_rows_at p w zero x y hx hy = absurd (omega arith)
gray_rows_at p w (suc h) x zero hx hy =
    let first : 0 * w + x ≡ x = omega arith in
    rw first (
      get_or-append_left (gray_row p w w 0) (gray_rows p w h) x 0
        (omega (arith, length-gray_row p w w 0))
      ∙ gray_row_at p w w 0 x hx
      ∙ ap (λ n. gray8_value p n w) (omega arith))
gray_rows_at p w (suc h) x (suc y) hx hy =
    let step : suc y * w + x ≡ length (gray_row p w w 0) + (y * w + x) =
      grind (arith, length-gray_row p w w 0) in
    rw step (
      get_or_past (gray_row p w w 0) (gray_rows p w h) (y * w + x)
      ∙ gray_rows_at p w h x y hx (omega arith))

-- The one value of a pattern is a byte.
abbrev pub IsBytePattern : DiagnosticPattern → Type 0
IsBytePattern (gray value) = IsU8 value
IsBytePattern white_pattern = Unit {0}
IsBytePattern black_pattern = Unit {0}
IsBytePattern horizontal = Unit {0}
IsBytePattern checkerboard = Unit {0}
IsBytePattern border = Unit {0}
IsBytePattern corners = Unit {0}
IsBytePattern gray_gradient = Unit {0}
IsBytePattern gray_bars = Unit {0}

gray8_value-IsU8 : (p : DiagnosticPattern) (x w : ℕ) → IsBytePattern p → gray8_value p x w < 256
unfolding gray8_value
gray8_value-IsU8 (gray value) x w byte = byte
gray8_value-IsU8 white_pattern x w byte = ground arith
gray8_value-IsU8 black_pattern x w byte = ground arith
gray8_value-IsU8 horizontal x w byte = ground arith
gray8_value-IsU8 checkerboard x w byte = ground arith
gray8_value-IsU8 border x w byte = ground arith
gray8_value-IsU8 corners x w byte = ground arith
gray8_value-IsU8 gray_gradient x w byte = ground arith
gray8_value-IsU8 gray_bars x w byte = ground arith

gray_row-IsU8 : (p : DiagnosticPattern) (w n x : ℕ) → IsBytePattern p → All IsU8 (gray_row p w n x)
unfolding gray_row
gray_row-IsU8 p w zero x byte = tt
gray_row-IsU8 p w (suc n) x byte = (gray8_value-IsU8 p x w byte, gray_row-IsU8 p w n (x + 1) byte)

pub gray_rows-IsU8 :
    (p : DiagnosticPattern) (w h : ℕ) → IsBytePattern p → All IsU8 (gray_rows p w h)
unfolding gray_rows
gray_rows-IsU8 p w zero byte = tt
gray_rows-IsU8 p w (suc h) byte =
    All-append IsU8 (gray_row p w w 0) (gray_rows p w h) (gray_row-IsU8 p w w 0 byte)
      (gray_rows-IsU8 p w h byte)
