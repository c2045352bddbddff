-- ===== src/Paperpad/Mxcfb/Mapped/Remote.antt =====
-- What `write_prepared` leaves in the mapping: the prepared rows, and the rest as it was.
use rust_x11_hello.Prelude.{
  ℕ, zero, suc, ◌+◌, ◌-◌, ◌*◌, ◌^◌, ◌≤◌, ◌<◌, ◌≡◌, ◌⊎◌, ◌∙◌, refl, arith, true, List, ok, length,
  get_or,
}
use rust_x11_hello.Paperpad.Mxcfb.Memory.Rows.{
  length-write_rows, write_rows_outside, write_rows_inside,
}
use rust_x11_hello.Paperpad.Mxcfb.Pixels.{FramebufferSpec, PreparedRemote, row_offset, row_bytes}
use rust_x11_hello.Paperpad.Mxcfb.Pixels.Rows.{get_or-slice, length-slice}
use rust_x11_hello.Paperpad.Mxcfb.Metadata.Valid.{IsSpecOf}
use rust_x11_hello.Paperpad.Mxcfb.Mapped.{
  WritableFramebuffer, check_range, check_all, matches_spec, check_prepared,
}
use rust_x11_hello.Paperpad.Mxcfb.Mapped.Stores.{stored}

-- Rows that all lie in the mapping pass the checks.
pub check_all-ok :
    (fb : WritableFramebuffer) (offset : ℕ → ℕ) (content : ℕ → List ℕ) (rows row : ℕ)
    → length fb.bytes < 2 ^ 31
    → ((r : ℕ) → row ≤ r → r < row + rows → offset r + length (content r) ≤ length fb.bytes)
    → check_all fb offset content rows row ≡ ok tt
unfolding check_all check_range
check_all-ok fb offset content zero row small inside = refl
check_all-ok fb offset content (suc rows) row small inside = ground (
  arith,
  inside row (omega arith) (omega arith),
  check_all-ok fb offset content rows (row + 1) small
      (λ r lo hi. inside r (omega arith) (omega arith)),
)

pub matches_spec-true :
    (fb : WritableFramebuffer) (spec : FramebufferSpec)
    → IsSpecOf fb.geometry spec
    → matches_spec fb spec ≡ true
unfolding matches_spec
matches_spec-true fb spec same = ground (arith, same)

-- A prepared frame for a mapping of its length, whose last row ends in it
module _ (fb : WritableFramebuffer) (p : PreparedRemote) (same : IsSpecOf fb.geometry p.spec)
    (len : length p.buffer ≡ length fb.bytes) (small : length fb.bytes < 2 ^ 31)
    (narrow : p.width ≤ p.line_length)
    (fits : p.first_offset + (p.height - 1) * p.line_length + p.width ≤ length fb.bytes) where
  row_fits :
      (row : ℕ) → row < p.height → p.first_offset + row * p.line_length + p.width ≤ length fb.bytes
  row_fits row lt = grind (arith, fits)

  row_wide : (row : ℕ) → row < p.height → length (row_bytes p row) ≡ p.width
  row_wide row lt =
      length-slice p.buffer (row_offset p row) p.width (omega (arith, len, row_fits row lt))

  pub check_prepared-ok : check_prepared fb p ≡ ok tt
  unfolding check_prepared
  check_prepared-ok = ground (
    arith,
    matches_spec-true fb p.spec same,
    len,
    check_all-ok fb (row_offset p) (row_bytes p) p.height 0 small
        (λ r lo hi. omega (arith, row_wide r (omega (arith, hi)), row_fits r (omega (arith, hi)))),
  )

  abbrev after : WritableFramebuffer
  after = stored fb (row_offset p) (row_bytes p) p.height 0

  pub length-after : length after.bytes ≡ length fb.bytes
  length-after =
      length-write_rows (row_offset p) (row_bytes p) p.first_offset p.line_length p.width p.height
        (λ row. refl) row_wide narrow p.height 0 fb.bytes

  pub after_inside :
      (x y : ℕ)
      → x < p.width
      → y < p.height
      → get_or after.bytes (row_offset p y + x) 0 ≡ get_or p.buffer (row_offset p y + x) 0
  after_inside x y hx hy =
      write_rows_inside (row_offset p) (row_bytes p) p.first_offset p.line_length p.width p.height
        (λ row. refl) row_wide narrow p.height 0 fb.bytes y x (omega arith) fits (omega arith)
        (omega arith) hx
      ∙ get_or-slice p.buffer (row_offset p y) p.width x hx

  pub after_outside :
      (i : ℕ)
      → ((y : ℕ) → y < p.height → (i < row_offset p y) ⊎ (row_offset p y + p.width ≤ i))
      → get_or after.bytes i 0 ≡ get_or fb.bytes i 0
  after_outside i out =
      write_rows_outside (row_offset p) (row_bytes p) p.first_offset p.line_length p.width p.height
        (λ row. refl) row_wide narrow p.height 0 fb.bytes i (omega arith)
        (λ r lo hi. out r (omega arith))
