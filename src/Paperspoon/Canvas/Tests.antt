-- ===== src/Paperspoon/Canvas/Tests.antt =====
-- A black rectangle that sticks out of a canvas of 9 x 2 pixels.
use rust_x11_hello.Prelude.{ℕ, suc, zero, ◌<◌, refl, arith, [], ◌∷◌, get_or}
use rust_x11_hello.Protocol.Frame.{black}
use rust_x11_hello.Paperspoon.Canvas.{MonoCanvas, fill_rect}
use rust_x11_hello.Paperspoon.Canvas.Pixels.{IsCanvas}
use rust_x11_hello.Paperspoon.Canvas.Fill.{IsPainted, on_rect, fill_rect-IsPainted}

abbrev blank : MonoCanvas
blank = record { width = 9; height = 2; stride = 2; pixels = 0 ∷ 0 ∷ 0 ∷ 0 ∷ [] }

blank_byte : (i : ℕ) → get_or blank.pixels i 0 < 256
blank_byte zero = ground arith
blank_byte (suc zero) = ground arith
blank_byte (suc (suc zero)) = ground arith
blank_byte (suc (suc (suc zero))) = ground arith
blank_byte (suc (suc (suc (suc i)))) = ground arith

blank-IsCanvas : IsCanvas blank
blank-IsCanvas = record { wide = ground arith; size = refl; bytes = blank_byte }

fill_rect-IsPainted_example :
    IsPainted black (on_rect blank 7 1 100 100) blank (fill_rect blank 7 1 100 100 black)
fill_rect-IsPainted_example = fill_rect-IsPainted blank 7 1 100 100 black blank-IsCanvas
