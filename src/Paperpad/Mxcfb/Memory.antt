-- ===== src/Paperpad/Mxcfb/Memory.antt =====
-- The bytes of a framebuffer: the loops of src/mxcfb that store rows of bytes in it.
pub mod Rows
use rust_x11_hello.Prelude.{ℕ, zero, suc, ◌+◌, List, [], ◌∷◌}

-- `memory[index] = byte`
abbrev pub set : List ℕ → ℕ → ℕ → List ℕ
set [] index byte = []
set (x ∷ xs) zero byte = byte ∷ xs
set (x ∷ xs) (suc index) byte = x ∷ set xs index byte

-- `for (index, &byte) in bytes.iter().enumerate()`, with a store at `offset + index`
unfoldable pub write_bytes : List ℕ → ℕ → List ℕ → List ℕ
write_bytes memory offset [] = memory
write_bytes memory offset (byte ∷ bytes) = write_bytes (set memory offset byte) (offset + 1) bytes

-- A loop over rows that stores the bytes `content row` at `offset row`, from `row` on with `rows`
-- rounds left
unfoldable pub write_rows : (ℕ → ℕ) → (ℕ → List ℕ) → ℕ → ℕ → List ℕ → List ℕ
write_rows offset content zero row memory = memory
write_rows offset content (suc rows) row memory =
    write_rows offset content rows (row + 1) (write_bytes memory (offset row) (content row))
