-- ===== src/Paperpad/Mxcfb/Request.antt =====
-- src/mxcfb/update_marker.rs, src/mxcfb/update_abi.rs and src/mxcfb/update_request.rs: the update
-- requests and the markers that they consume.
pub mod Markers
pub mod Sequence
mod Tests
use rust_x11_hello.Prelude.{
  ℕ, ◌+◌, ◌%◌, ◌^◌, ◌≡◌, List, [], ◌∷◌, Result, ok, err, ◌>>=◌, max, if◌then◌else◌,
}
use rust_x11_hello.Prelude.Int.{ℤ, pos}
use rust_x11_hello.Paperpad.Ui.Screen.{ScreenLayout}
use rust_x11_hello.Paperpad.Mxcfb.Region.{
  UpdateRegion, RegionError, remote_update_region, system_ui_update_region,
}

pub record UpdateMarkerSequence : Type 0 where
  pub next : ℕ

-- The seed of `for_process` is the process' number.
unfoldable pub from_seed : ℕ → UpdateMarkerSequence
from_seed seed = record { next = max seed 1 }

-- `self.next.wrapping_add(1).max(1)`
unfoldable pub next_marker : UpdateMarkerSequence → ℕ × UpdateMarkerSequence
next_marker s = (s.next, record { next = max ((s.next + 1) % 2 ^ 32) 1 })

abbrev pub waveform_gc16 : ℕ
waveform_gc16 = 2

abbrev pub waveform_du : ℕ
waveform_du = 1

abbrev pub update_mode_full : ℕ
update_mode_full = 1

abbrev pub temp_use_ambient : ℤ
temp_use_ambient = pos 4096

pub record AltBufferData : Type 0 where
  pub phys_addr : ℕ
  pub width : ℕ
  pub height : ℕ
  pub alt_update_region : UpdateRegion

pub record SwipeData : Type 0 where
  pub direction : ℕ
  pub steps : ℕ

pub record UpdateDataMtk : Type 0 where
  pub update_region : UpdateRegion
  pub waveform_mode : ℕ
  pub update_mode : ℕ
  pub update_marker : ℕ
  pub temp : ℤ
  pub flags : ℕ
  pub dither_mode : ℤ
  pub quant_bit : ℤ
  pub alt_buffer_data : AltBufferData
  pub swipe_data : SwipeData
  pub hist_bw_waveform_mode : ℕ
  pub hist_gray_waveform_mode : ℕ
  pub ts_pxp : ℕ
  pub ts_epdc : ℕ

-- `UpdateDataMtk::default()` gives the fields that the request does not set.
unfoldable pub full_gc16_request_for_region : UpdateRegion → ℕ → UpdateDataMtk
full_gc16_request_for_region update_region marker = record {
  update_region = update_region;
  waveform_mode = waveform_gc16;
  update_mode = update_mode_full;
  update_marker = marker;
  temp = temp_use_ambient;
  flags = 0;
  dither_mode = pos 0;
  quant_bit = pos 0;
  alt_buffer_data = record {
    phys_addr = 0;
    width = 0;
    height = 0;
    alt_update_region = record { top = 0; left = 0; width = 0; height = 0 };
  };
  swipe_data = record { direction = 0; steps = 0 };
  hist_bw_waveform_mode = waveform_du;
  hist_gray_waveform_mode = waveform_gc16;
  ts_pxp = 0;
  ts_epdc = 0;
}

-- The request for a region that was validated, or the error, which leaves the markers alone
unfoldable pub request_for :
    Result RegionError UpdateRegion
    → UpdateMarkerSequence
    → Result RegionError UpdateDataMtk × UpdateMarkerSequence
unfolding full_gc16_request_for_region
request_for (err e) markers = (err e, markers)
request_for (ok region) markers =
    let (marker, markers) = next_marker markers in
    (ok (full_gc16_request_for_region region marker), markers)

unfoldable pub next_full_gc16_remote_request :
    ScreenLayout
    → ℕ
    → ℕ
    → UpdateMarkerSequence
    → Result RegionError UpdateDataMtk × UpdateMarkerSequence
unfolding request_for
next_full_gc16_remote_request screen visible_width visible_height markers =
    request_for (remote_update_region screen visible_width visible_height) markers

unfoldable pub next_full_gc16_system_ui_request :
    ScreenLayout
    → ℕ
    → ℕ
    → UpdateMarkerSequence
    → Result RegionError UpdateDataMtk × UpdateMarkerSequence
unfolding request_for
next_full_gc16_system_ui_request screen visible_width visible_height markers =
    request_for (system_ui_update_region screen visible_width visible_height) markers
