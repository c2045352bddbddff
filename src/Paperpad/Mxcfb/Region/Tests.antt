-- ===== src/Paperpad/Mxcfb/Region/Tests.antt =====
-- The screen of a Kindle
use rust_x11_hello.Prelude.{ℕ, ◌<◌, ◌≡◌, ◌↔◌, ◌⊎◌, refl, arith, some, ok}
use rust_x11_hello.Paperpad.Ui.Screen.{ScreenLayout, new_layout, partition}
use rust_x11_hello.Paperpad.Ui.Screen.Partition.{Covers}
use rust_x11_hello.Paperpad.Mxcfb.Region.{
  UpdateRegion, remote_update_region, system_ui_update_region,
}
use rust_x11_hello.Paperpad.Mxcfb.Region.Regions.{rect_of, update_regions_lem}

abbrev kindle : ScreenLayout
kindle = record {
  physical_size = (1272, 1696);
  remote_viewport = record { x = 0; y = 0; width = 1272; height = 1624 };
  system_ui_region = record { x = 0; y = 1624; width = 1272; height = 72 };
}

kindle-eq : new_layout 1272 1696 ≡ some kindle
unfolding new_layout partition
kindle-eq = refl

update_regions_lem_example :
    (remote system : UpdateRegion) × (remote_update_region kindle 1272 1696 ≡ ok remote)
    × (system_ui_update_region kindle 1272 1696 ≡ ok system)
    × ((x y : ℕ)
        → (((x < 1272) × (y < 1696)) ↔ (Covers (rect_of remote) x y ⊎ Covers (rect_of system) x y))
          × ¬ (Covers (rect_of remote) x y × Covers (rect_of system) x y))
update_regions_lem_example = update_regions_lem 1272 1696 kindle-eq (omega arith)
