-- ===== src/Paperpad/Mxcfb/Memory/Rows.antt =====
-- What a framebuffer holds after its rows have been stored.
use native.Mathlib.Decide.{ℕ_discrete}
use rust_x11_hello.Prelude.{
  ℕ, zero, suc, ◌+◌, ◌-◌, ◌*◌, ◌≤◌, ◌<◌, ◌≡◌, ◌≢◌, ◌∙◌, ◌⊎◌, inl, refl, ap, arith, List, [], ◌∷◌,
  length, get_or,
}
use rust_x11_hello.Paperpad.Mxcfb.Memory.{set, write_bytes, write_rows}

pub length-set : (xs : List ℕ) (i v : ℕ) → length (set xs i v) ≡ length xs
length-set [] i v = refl
length-set (x ∷ xs) zero v = refl
length-set (x ∷ xs) (suc i) v = ap suc (length-set xs i v)

pub get_or-set_self : (xs : List ℕ) (i v : ℕ) → i < length xs → get_or (set xs i v) i 0 ≡ v
get_or-set_self [] i v h = absurd (omega arith)
get_or-set_self (x ∷ xs) zero v h = refl
get_or-set_self (x ∷ xs) (suc i) v h = get_or-set_self xs i v (omega arith)

pub get_or-set_ne : (xs : List ℕ) (i j v : ℕ) → j ≢ i → get_or (set xs i v) j 0 ≡ get_or xs j 0
get_or-set_ne [] i j v h = refl
get_or-set_ne (x ∷ xs) zero zero v h = absurd (h refl)
get_or-set_ne (x ∷ xs) zero (suc j) v h = refl
get_or-set_ne (x ∷ xs) (suc i) zero v h = refl
get_or-set_ne (x ∷ xs) (suc i) (suc j) v h = get_or-set_ne xs i j v (omega arith)

pub length-write_bytes :
    (xs : List ℕ) (o : ℕ) (bs : List ℕ) → length (write_bytes xs o bs) ≡ length xs
unfolding write_bytes
length-write_bytes xs o [] = refl
length-write_bytes xs o (b ∷ bs) = length-write_bytes (set xs o b) (o + 1) bs ∙ length-set xs o b

pub write_bytes_outside :
    (xs : List ℕ) (o : ℕ) (bs : List ℕ) (i : ℕ)
    → (i < o) ⊎ (o + length bs ≤ i)
    → get_or (write_bytes xs o bs) i 0 ≡ get_or xs i 0
unfolding write_bytes
write_bytes_outside xs o [] i out = refl
write_bytes_outside xs o (b ∷ bs) i out =
    write_bytes_outside (set xs o b) (o + 1) bs i (ground arith)
    ∙ get_or-set_ne xs o i b (ground arith)

pub write_bytes_inside :
    (xs : List ℕ) (o : ℕ) (bs : List ℕ) (i : ℕ)
    → i < length bs
    → o + length bs ≤ length xs
    → get_or (write_bytes xs o bs) (o + i) 0 ≡ get_or bs i 0
unfolding write_bytes
write_bytes_inside xs o [] i h fits = absurd (omega arith)
write_bytes_inside xs o (b ∷ bs) zero h fits =
    let here : o + 0 ≡ o = omega arith in
    rw here (
      write_bytes_outside (set xs o b) (o + 1) bs o (inl (omega arith))
      ∙ get_or-set_self xs o b (omega arith))
write_bytes_inside xs o (b ∷ bs) (suc i) h fits =
    let there : o + suc i ≡ o + 1 + i = omega arith in
    rw there (
      write_bytes_inside (set xs o b) (o + 1) bs i (omega arith) (omega (arith, length-set xs o b)))

-- Rows of `width` bytes, a line apart, all in the memory
module _ (offset : ℕ → ℕ) (content : ℕ → List ℕ) (base line width height : ℕ)
    (apart : (row : ℕ) → offset row ≡ base + row * line)
    (wide : (row : ℕ) → row < height → length (content row) ≡ width) (narrow : width ≤ line) where
  pub length-write_rows :
      (rows row : ℕ) (xs : List ℕ) → length (write_rows offset content rows row xs) ≡ length xs
  unfolding write_rows
  length-write_rows zero row xs = refl
  length-write_rows (suc rows) row xs =
      length-write_rows rows (row + 1) (write_bytes xs (offset row) (content row))
      ∙ length-write_bytes xs (offset row) (content row)

  pub write_rows_outside :
      (rows row : ℕ) (xs : List ℕ) (i : ℕ)
      → row + rows ≤ height
      → ((r : ℕ) → row ≤ r → r < row + rows → (i < base + r * line) ⊎ (base + r * line + width ≤ i))
      → get_or (write_rows offset content rows row xs) i 0 ≡ get_or xs i 0
  unfolding write_rows
  write_rows_outside zero row xs i in_frame out = refl
  write_rows_outside (suc rows) row xs i in_frame out =
      write_rows_outside rows (row + 1) (write_bytes xs (offset row) (content row)) i (omega arith)
        (λ r lo hi. out r (omega arith) (omega arith))
      ∙ write_bytes_outside xs (offset row) (content row) i
          (ground (arith, apart row, wide row, out row (omega arith) (omega arith)))

  -- Another row's bytes lie before or behind.
  other_row : (r s column : ℕ) → r < s → column < width → base + r * line + column < base + s * line
  other_row r s column lt inside = grind arith

  last_row : (r : ℕ) → r < height → base + r * line + width ≤ base + (height - 1) * line + width
  last_row r lt = grind arith

  -- The row that is stored first stays as it is.
  first_row :
      (rows row column : ℕ) (xs : List ℕ)
      → row + suc rows ≤ height
      → base + (height - 1) * line + width ≤ length xs
      → column < width
      → get_or
          (write_rows offset content rows (row + 1) (write_bytes xs (offset row) (content row)))
          (base + row * line + column)
          0
        ≡ get_or (content row) column 0
  first_row rows row column xs in_frame fits inside =
      write_rows_outside rows (row + 1) (write_bytes xs (offset row) (content row))
        (base + row * line + column) (omega arith)
        (λ r lo hi. inl (other_row row r column (omega arith) inside))
      ∙ rw (apart row) (
          write_bytes_inside xs (base + row * line) (content row) column
            (omega (arith, wide row (omega arith), inside))
            (omega (arith, wide row (omega arith), last_row row (omega arith))))

  pub write_rows_inside :
      (rows row : ℕ) (xs : List ℕ) (r column : ℕ)
      → row + rows ≤ height
      → base + (height - 1) * line + width ≤ length xs
      → row ≤ r
      → r < row + rows
      → column < width
      → get_or (write_rows offset content rows row xs) (base + r * line + column) 0
        ≡ get_or (content r) column 0
  unfolding write_rows
  write_rows_inside zero row xs r column in_frame fits lo hi inside = absurd (omega arith)
  write_rows_inside (suc rows) row xs r column in_frame fits lo hi inside =
      elim (ℕ_discrete r row) [
        | yes here ↦ rw here (first_row rows row column xs (omega arith) fits inside)
        | no later ↦
            write_rows_inside rows (row + 1) (write_bytes xs (offset row) (content row)) r column
              (omega arith) (omega (arith, length-write_bytes xs (offset row) (content row)))
              (omega arith) (omega arith) inside
      ]
