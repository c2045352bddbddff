-- ===== src/Paperpad/Mxcfb/Layout/Tests.antt =====
-- The geometry that a Kindle told, and one with offsets
use rust_x11_hello.Prelude.{ℕ, ◌≡◌, ◌≤◌, ◌<◌, ◌↔◌, refl, arith, ok, err}
use rust_x11_hello.Paperpad.Mxcfb.Layout.{FramebufferGeometry, visible_mapping_len, exceeds_memory}
use rust_x11_hello.Paperpad.Mxcfb.Layout.Mapping.{IsMapping, byte_at, visible_mapping_len_lem}

abbrev probed : FramebufferGeometry
probed = record {
  xres = 1272;
  yres = 1696;
  xres_virtual = 1272;
  yres_virtual = 3392;
  xoffset = 0;
  yoffset = 0;
  bits_per_pixel = 8;
  line_length = 1272;
  smem_len = 4314624;
}

probed-len : visible_mapping_len probed ≡ ok 2157312
unfolding visible_mapping_len
probed-len = refl

abbrev shifted : FramebufferGeometry
shifted = record {
  xres = 9;
  yres = 2;
  xres_virtual = 12;
  yres_virtual = 6;
  xoffset = 2;
  yoffset = 3;
  bits_per_pixel = 8;
  line_length = 16;
  smem_len = 96;
}

shifted-len : visible_mapping_len shifted ≡ ok 80
unfolding visible_mapping_len
shifted-len = refl

too_small : visible_mapping_len (record shifted { smem_len = 95 }) ≡ err exceeds_memory
unfolding visible_mapping_len
too_small = refl

visible_mapping_len_lem_example :
    ((visible_mapping_len shifted ≡ ok 80) ↔ IsMapping shifted 80)
    × (visible_mapping_len shifted ≡ ok 80
        → (80 ≤ 96) × ((x y b : ℕ) → x < 9 → y < 2 → b < 8 → byte_at shifted x y b < 80))
visible_mapping_len_lem_example = visible_mapping_len_lem shifted 80 (record {
  columns = omega arith;
  rows = omega arith;
  depth = omega arith;
  memory = omega arith;
})
