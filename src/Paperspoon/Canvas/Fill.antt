-- ===== src/Paperspoon/Canvas/Fill.antt =====
-- MonoCanvas::fill_rect: the rectangle that it colours.
use rust_x11_hello.Prelude.{
  ℕ, zero, suc, ◌+◌, ◌-◌, ◌*◌, ◌<◌, ◌≤◌, ◌≡◌, ◌∙◌, refl, ap, sym, arith, Bool, true, false, ◌&&◌,
  ◌||◌, ◌==◌, ltb, leb, if◌then◌else◌, min,
}
use rust_x11_hello.Protocol.Frame.{Mono1Pixel}
use rust_x11_hello.Paperspoon.Canvas.{MonoCanvas, set_pixel, fill_columns, fill_rows, fill_rect}
use rust_x11_hello.Paperspoon.Canvas.Pixels.{
  IsCanvas, IsLike, is_white, white_in, painted, set_pixel-IsLike,
}

-- What is left of a canvas when the points of `inside` have been coloured: its dimensions, and every
-- other pixel, those behind a row's last one included.
pub record IsPainted (color : Mono1Pixel) (inside : ℕ → ℕ → Bool) (before after : MonoCanvas)
    : Type 0 where
  pub like : IsLike before after
  pub shows :
      (x y : ℕ)
      → x < before.stride * 8
      → white_in after x y ≡ (if inside x y then is_white color else white_in before x y)

either : (p q w b : Bool) → (if q then w else if p then w else b) ≡ (if p || q then w else b)
either true true w b = refl
either true false w b = refl
either false true w b = refl
either false false w b = refl

both-IsPainted :
    (color : Mono1Pixel) (p q r : ℕ → ℕ → Bool) {a b c : MonoCanvas}
    → IsPainted color p a b
    → IsPainted color q b c
    → ((x y : ℕ) → r x y ≡ (p x y || q x y))
    → IsPainted color r a c
both-IsPainted color p q r {a} {b} {c} f g either_of = record {
  like = record {
    width = g.like.width ∙ f.like.width;
    height = g.like.height ∙ f.like.height;
    stride = g.like.stride ∙ f.like.stride;
    canvas = g.like.canvas;
  };
  shows = λ x y lt.
      rw (g.shows x y (omega (arith, ap (λ n. n * 8) f.like.stride)), f.shows x y lt, either_of x y)
        (either (p x y) (q x y) (is_white color) (white_in a x y));
}

none-IsPainted :
    (color : Mono1Pixel) (r : ℕ → ℕ → Bool) (c : MonoCanvas)
    → IsCanvas c
    → ((x y : ℕ) → r x y ≡ false)
    → IsPainted color r c c
none-IsPainted color r c is empty = record {
  like = record { width = refl; height = refl; stride = refl; canvas = is };
  shows = λ x y lt. rw (empty x y) refl;
}

set_pixel-IsPainted :
    (c : MonoCanvas) (x y : ℕ) (color : Mono1Pixel)
    → IsCanvas c
    → x < c.width
    → y < c.height
    → IsPainted color (λ x' y'. (x == x') && (y == y')) c (set_pixel c x y color).1
set_pixel-IsPainted c x y color is hx hy = record {
  like = set_pixel-IsLike c x y color is hx hy;
  shows = λ x' y' lt. painted c x y x' y' color is hx hy lt;
}

abbrev in_rect : ℕ → ℕ → ℕ → ℕ → ℕ → ℕ → Bool
in_rect left columns top rows x y =
    (leb left x && ltb x (left + columns)) && (leb top y && ltb y (top + rows))

fill_columns-IsPainted :
    (color : Mono1Pixel) (row columns column : ℕ) (c : MonoCanvas)
    → IsCanvas c
    → column + columns ≤ c.width
    → row < c.height
    → IsPainted color (in_rect column columns row 1) c (fill_columns color row columns column c)
unfolding fill_columns
fill_columns-IsPainted color row zero column c is hx hy =
    none-IsPainted color (in_rect column 0 row 1) c is (λ x y. ground arith)
fill_columns-IsPainted color row (suc columns) column c is hx hy =
    let one = set_pixel-IsPainted c column row color is (omega arith) hy in
    both-IsPainted color (λ x' y'. (column == x') && (row == y'))
      (in_rect (column + 1) columns row 1) (in_rect column (suc columns) row 1) one
      (fill_columns-IsPainted color row columns (column + 1) (set_pixel c column row color).1
        one.like.canvas (omega (arith, one.like.width)) (omega (arith, one.like.height)))
      (λ x y. ground arith)

fill_rows-IsPainted :
    (color : Mono1Pixel) (left columns rows row : ℕ) (c : MonoCanvas)
    → IsCanvas c
    → left + columns ≤ c.width
    → row + rows ≤ c.height
    → IsPainted color (in_rect left columns row rows) c (fill_rows color left columns rows row c)
unfolding fill_rows
fill_rows-IsPainted color left columns zero row c is hx hy =
    none-IsPainted color (in_rect left columns row 0) c is (λ x y. ground arith)
fill_rows-IsPainted color left columns (suc rows) row c is hx hy =
    let one = fill_columns-IsPainted color row columns left c is hx (omega arith) in
    both-IsPainted color (in_rect left columns row 1) (in_rect left columns (row + 1) rows)
      (in_rect left columns row (suc rows)) one
      (fill_rows-IsPainted color left columns rows (row + 1) (fill_columns color row columns left c)
        one.like.canvas (omega (arith, one.like.width)) (omega (arith, one.like.height)))
      (λ x y. ground arith)

-- The part of the rectangle that lies on the canvas
abbrev pub on_rect : MonoCanvas → ℕ → ℕ → ℕ → ℕ → ℕ → ℕ → Bool
on_rect c left top width height x y =
    ((leb left x && ltb x (left + width)) && (leb top y && ltb y (top + height)))
    && (ltb x c.width && ltb y c.height)

covered :
    (c : MonoCanvas) (x y width height x' y' : ℕ)
    → in_rect
        (min x (min (x + width) c.width))
        (min (x + width) c.width - min x (min (x + width) c.width))
        (min y (min (y + height) c.height))
        (min (y + height) c.height - min y (min (y + height) c.height))
        x'
        y'
      ≡ on_rect c x y width height x' y'
covered c x y width height x' y' = ground arith

-- On a canvas whose rows fit its stride, a rectangle colours exactly its points that lie on the canvas:
-- every other pixel keeps its colour, the padding behind a row's last pixel included, and so do the
-- dimensions of the canvas and the length of its pixels.
pub fill_rect-IsPainted :
    (c : MonoCanvas) (x y width height : ℕ) (color : Mono1Pixel)
    → IsCanvas c
    → IsPainted color (on_rect c x y width height) c (fill_rect c x y width height color)
unfolding fill_rect
fill_rect-IsPainted c x y width height color is =
    let right = min (x + width) c.width in
    let bottom = min (y + height) c.height in
    let left = min x right in
    let top = min y bottom in
    both-IsPainted color (λ x' y'. false) (in_rect left (right - left) top (bottom - top))
      (on_rect c x y width height) (none-IsPainted color (λ x' y'. false) c is (λ x' y'. refl))
      (fill_rows-IsPainted color left (right - left) (bottom - top) top c is (ground arith)
        (ground arith))
      (λ x' y'. sym (covered c x y width height x' y'))
