-- ===== src/Paperspoon/GrayCanvas/Tests.antt =====
-- A rectangle that sticks out of a canvas of 3 x 2 pixels.
use rust_x11_hello.Prelude.{◌+◌, ◌*◌, ◌≡◌, refl, arith, [], ◌∷◌, if◌then◌else◌, length, get_or}
use rust_x11_hello.Paperspoon.GrayCanvas.{GrayCanvas, fill_gray_rect}
use rust_x11_hello.Paperspoon.GrayCanvas.Fill.{on_gray_rect, fill_gray_rect_lem}

abbrev blank : GrayCanvas
blank = record { width = 3; height = 2; pixels = 255 ∷ 255 ∷ 255 ∷ 255 ∷ 255 ∷ 255 ∷ [] }

fill_gray_rect_lem_example :
    (get_or (fill_gray_rect blank 1 1 100 100 7).pixels (1 * 3 + 2) 0
      ≡ (if on_gray_rect blank 1 1 100 100 2 1 then 7 else get_or blank.pixels (1 * 3 + 2) 0))
    × (length (fill_gray_rect blank 1 1 100 100 7).pixels ≡ length blank.pixels)
fill_gray_rect_lem_example = fill_gray_rect_lem blank 1 1 100 100 7 2 1 refl (ground arith)
