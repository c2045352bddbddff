-- ===== src/Paperpad/Mxcfb/Request/Markers.antt =====
-- Markers are never zero, and repeat only after all others have been issued.
use rust_x11_hello.Prelude.{ℕ, zero, suc, ◌+◌, ◌-◌, ◌%◌, ◌^◌, ◌≡◌, ◌≢◌, ◌<◌, arith, max}
use rust_x11_hello.Paperpad.Mxcfb.Request.{UpdateMarkerSequence, from_seed, next_marker}

-- The sequence after `n` markers
unfoldable pub issued : ℕ → UpdateMarkerSequence → UpdateMarkerSequence
issued zero s = s
issued (suc n) s = (next_marker (issued n s)).1

-- Counted from zero, the markers are the numbers below 2^32 - 1 in turn.
pub next-issued :
    (seed n : ℕ)
    → seed < 2 ^ 32
    → (issued n (from_seed seed)).next ≡ (max seed 1 - 1 + n) % 4294967295 + 1
unfolding issued from_seed next_marker
next-issued seed zero h = omega arith
next-issued seed (suc n) h = omega (arith, next-issued seed n h)

-- Of a sequence from any `u32` seed, no marker is zero, all are `u32`, and two markers fewer than 2^32 - 1
-- steps apart differ.
pub next_marker-distinct :
    (seed m n : ℕ)
    → seed < 2 ^ 32
    → m < n
    → n < m + 4294967295
    → (0 < (next_marker (issued m (from_seed seed))).0)
      × ((next_marker (issued m (from_seed seed))).0 < 2 ^ 32)
      × ((next_marker (issued m (from_seed seed))).0 ≢ (next_marker (issued n (from_seed seed))).0)
unfolding next_marker
next_marker-distinct seed m n h lt le = (
  omega (arith, next-issued seed m h),
  omega (arith, next-issued seed m h),
  λ same. omega (arith, next-issued seed m h, next-issued seed n h, same),
)
