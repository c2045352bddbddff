-- ===== src/Paperpad/Mxcfb/Mapped/Stores.antt =====
-- A write stores all of its rows or none.
use rust_x11_hello.Prelude.{
  ℕ, zero, suc, ◌+◌, ◌*◌, ◌==◌, guard, ◌≤◌, ◌<◌, ◌≡◌, ◌∙◌, ◌⊎◌, inl, inr, refl, arith, List, Result,
  ok, err, length, >>=-eq-ok,
}
use rust_x11_hello.Paperpad.Ui.Screen.{ScreenRect}
use rust_x11_hello.Paperpad.Mxcfb.Memory.{write_bytes, write_rows}
use rust_x11_hello.Paperpad.Mxcfb.Memory.Rows.{length-write_bytes}
use rust_x11_hello.Paperpad.Mxcfb.Pixels.{FramebufferSpec, PreparedRemote, row_offset, row_bytes}
use rust_x11_hello.Paperpad.Mxcfb.Pixels.Rows.{length-slice}
use rust_x11_hello.Paperpad.Mxcfb.Mapped.{
  WritableFramebuffer, MappedError, and_then, checked, check_range, write_at, check_all, write_all,
  check_prepared, write_prepared, SystemUiPixels, check_write_system_ui, check_system_ui,
  check_strip, write_system_ui, matches_spec, geometry_differs, length_differs, strip_offset,
  strip_bytes,
}

-- A range fits or not whatever bytes the mapping holds.
check_range-length :
    (a b : WritableFramebuffer) (offset len : ℕ)
    → length a.bytes ≡ length b.bytes
    → check_range a offset len ≡ check_range b offset len
unfolding check_range
check_range-length a b offset len e = rw e refl

check_all-length :
    (a b : WritableFramebuffer) (offset : ℕ → ℕ) (content : ℕ → List ℕ) (rows row : ℕ)
    → length a.bytes ≡ length b.bytes
    → check_all a offset content rows row ≡ check_all b offset content rows row
unfolding check_all
check_all-length a b offset content zero row e = refl
check_all-length a b offset content (suc rows) row e =
    rw
      (
        check_range-length a b (offset row) (length (content row)) e,
        check_all-length a b offset content rows (row + 1) e,
      )
      refl

-- The framebuffer with its rows stored
abbrev pub stored : WritableFramebuffer → (ℕ → ℕ) → (ℕ → List ℕ) → ℕ → ℕ → WritableFramebuffer
stored fb offset content rows row = record fb {
  bytes = write_rows offset content rows row fb.bytes;
}

-- Behind its checks, the loop of the stores meets no error.
write_all-check_all :
    (fb : WritableFramebuffer) (offset : ℕ → ℕ) (content : ℕ → List ℕ) (rows row : ℕ)
    → check_all fb offset content rows row ≡ ok tt
    → write_all fb offset content rows row ≡ (ok tt, stored fb offset content rows row)
unfolding check_all write_all and_then write_at checked write_rows
write_all-check_all fb offset content zero row e = refl
write_all-check_all fb offset content (suc rows) row e =
    let (a, here, rest) = >>=-eq-ok (check_range fb (offset row) (length (content row))) _ e in
    let next : WritableFramebuffer = record fb {
      bytes = write_bytes fb.bytes (offset row) (content row);
    } in
    rw here (
      write_all-check_all next offset content rows (row + 1) (
        check_all-length next fb offset content rows (row + 1)
          (length-write_bytes fb.bytes (offset row) (content row))
        ∙ rest))

-- What a write does: it stores every row, or returns an error and changes nothing.
abbrev pub Atomic :
    WritableFramebuffer
    → Result MappedError (Unit {0})
    → (ℕ → ℕ)
    → (ℕ → List ℕ)
    → ℕ
    → ScreenRect
    → Result MappedError ScreenRect × WritableFramebuffer
    → Type 0
Atomic fb check offset content rows region result =
    ((check ≡ ok tt) × (result ≡ (ok region, stored fb offset content rows 0)))
    ⊎ ((e : MappedError) × (check ≡ err e) × (result ≡ (err e, fb)))

Atomic_lem :
    (fb : WritableFramebuffer) (check : Result MappedError (Unit {0})) (offset : ℕ → ℕ)
    (content : ℕ → List ℕ) (rows : ℕ) (region : ScreenRect)
    → (check ≡ ok tt → check_all fb offset content rows 0 ≡ ok tt)
    → Atomic fb check offset content rows region (
        checked check fb
          λ _. and_then (write_all fb offset content rows 0) λ next. (ok region, next))
unfolding checked and_then
Atomic_lem fb (ok a) offset content rows region all =
    inl (refl, rw (write_all-check_all fb offset content rows 0 (all refl)) refl)
Atomic_lem fb (err e) offset content rows region all = inr (e, refl, refl)

check_prepared-check_all :
    (fb : WritableFramebuffer) (p : PreparedRemote)
    → check_prepared fb p ≡ ok tt
    → check_all fb (row_offset p) (row_bytes p) p.height 0 ≡ ok tt
unfolding check_prepared
check_prepared-check_all fb p e =
    let (a, first, k) = >>=-eq-ok (guard (matches_spec fb p.spec) geometry_differs) _ e in
    let (b, second, l) =
      >>=-eq-ok (guard (length p.buffer == length fb.bytes) length_differs) _ k in
    l

-- `write_prepared` stores all of the rows and returns the region, if every check passes; or it returns
-- the error of the check that fails, and changes nothing.
pub write_prepared-Atomic :
    (fb : WritableFramebuffer) (p : PreparedRemote)
    → Atomic fb
        (check_prepared fb p)
        (row_offset p)
        (row_bytes p)
        p.height
        p.region
        (write_prepared fb p)
unfolding write_prepared
write_prepared-Atomic fb p =
    Atomic_lem fb (check_prepared fb p) (row_offset p) (row_bytes p) p.height p.region
      (check_prepared-check_all fb p)

row_in : (row width height : ℕ) → row < height → row * width + width ≤ width * height
row_in row width height lt = grind arith

pub length-strip_bytes :
    (pixels : SystemUiPixels) (row : ℕ)
    → length pixels.bytes ≡ pixels.region.width * pixels.region.height
    → row < pixels.region.height
    → length (strip_bytes pixels row) ≡ pixels.region.width
length-strip_bytes pixels row size lt =
    let next : (row + 1) * pixels.region.width ≡ row * pixels.region.width + pixels.region.width =
      grind arith in
    rw next (
      length-slice pixels.bytes (row * pixels.region.width) pixels.region.width
        (omega (arith, size, row_in row pixels.region.width pixels.region.height lt)))

check_strip-check_all :
    (fb : WritableFramebuffer) (pixels : SystemUiPixels) (spec : FramebufferSpec) (rows row : ℕ)
    → length pixels.bytes ≡ pixels.region.width * pixels.region.height
    → row + rows ≤ pixels.region.height
    → check_strip fb spec
        (spec.xoffset + pixels.region.x)
        (spec.yoffset + pixels.region.y)
        pixels.region.width
        rows
        row
      ≡ ok tt
    → check_all fb (strip_offset spec pixels) (strip_bytes pixels) rows row ≡ ok tt
unfolding check_strip check_all
check_strip-check_all fb pixels spec zero row size fits e = refl
check_strip-check_all fb pixels spec (suc rows) row size fits e =
    rw (length-strip_bytes pixels row size (omega arith))
      (ground (arith, check_strip-check_all fb pixels spec rows (row + 1) size))

pub check_system_ui-length :
    (fb : WritableFramebuffer) (pixels : SystemUiPixels) (spec : FramebufferSpec)
    → check_system_ui fb pixels spec ≡ ok tt
    → length pixels.bytes ≡ pixels.region.width * pixels.region.height
unfolding check_system_ui
check_system_ui-length fb pixels spec e = ground arith

check_write_system_ui-check_all :
    (fb : WritableFramebuffer) (pixels : SystemUiPixels) (spec : FramebufferSpec)
    → check_write_system_ui fb pixels spec ≡ ok tt
    → check_all fb (strip_offset spec pixels) (strip_bytes pixels) pixels.region.height 0 ≡ ok tt
unfolding check_write_system_ui
check_write_system_ui-check_all fb pixels spec e =
    let (a, payload, k) = >>=-eq-ok (check_system_ui fb pixels spec) _ e in
    check_strip-check_all fb pixels spec pixels.region.height 0
      (check_system_ui-length fb pixels spec payload) (omega arith) (ground arith)

pub write_system_ui-Atomic :
    (fb : WritableFramebuffer) (pixels : SystemUiPixels) (spec : FramebufferSpec)
    → Atomic fb
        (check_write_system_ui fb pixels spec)
        (strip_offset spec pixels)
        (strip_bytes pixels)
        pixels.region.height
        pixels.region
        (write_system_ui fb pixels spec)
unfolding write_system_ui
write_system_ui-Atomic fb pixels spec =
    Atomic_lem fb (check_write_system_ui fb pixels spec) (strip_offset spec pixels)
      (strip_bytes pixels) pixels.region.height pixels.region
      (check_write_system_ui-check_all fb pixels spec)
