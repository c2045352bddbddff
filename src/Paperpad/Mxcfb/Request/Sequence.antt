-- ===== src/Paperpad/Mxcfb/Request/Sequence.antt =====
-- Which requests consume a marker.
use rust_x11_hello.Prelude.{ℕ, zero, suc, ◌≡◌, refl, List, [], ◌∷◌, Result, ok, err, length, ap}
use rust_x11_hello.Paperpad.Ui.Screen.{ScreenLayout}
use rust_x11_hello.Paperpad.Mxcfb.Region.{
  UpdateRegion, RegionError, remote_update_region, system_ui_update_region,
}
use rust_x11_hello.Paperpad.Mxcfb.Request.{
  UpdateMarkerSequence, next_marker, UpdateDataMtk, request_for, next_full_gc16_remote_request,
  next_full_gc16_system_ui_request,
}

-- What the display asks for, with the visible dimensions that the device tells.
pub data Ask : Type 0 where
  remote : (screen : ScreenLayout) (visible_width visible_height : ℕ) → Ask
  system_ui : (screen : ScreenLayout) (visible_width visible_height : ℕ) → Ask

unfoldable pub answer :
    Ask → UpdateMarkerSequence → Result RegionError UpdateDataMtk × UpdateMarkerSequence
answer (remote screen w h) markers = next_full_gc16_remote_request screen w h markers
answer (system_ui screen w h) markers = next_full_gc16_system_ui_request screen w h markers

-- The marker of a request, if it was made, in front of those of later requests
unfoldable pub marker_in_front : Result RegionError UpdateDataMtk → List ℕ → List ℕ
marker_in_front (ok data_mtk) later = data_mtk.update_marker ∷ later
marker_in_front (err e) later = later

-- The markers of the requests that are made, in their order, and the sequence afterwards
unfoldable pub asked : List Ask → UpdateMarkerSequence → List ℕ × UpdateMarkerSequence
asked [] markers = ([], markers)
asked (ask ∷ asks) markers =
    let (made, markers) = answer ask markers in
    let (later, markers) = asked asks markers in (marker_in_front made later, markers)

-- The next `n` markers, and the sequence behind them
unfoldable pub next_markers : ℕ → UpdateMarkerSequence → List ℕ × UpdateMarkerSequence
next_markers zero s = ([], s)
next_markers (suc n) s =
    let (marker, s) = next_marker s in let (later, s) = next_markers n s in (marker ∷ later, s)

abbrev marker_before : ℕ → List ℕ × UpdateMarkerSequence → List ℕ × UpdateMarkerSequence
marker_before marker r = (marker ∷ r.0, r.1)

request_for-asked :
    (region : Result RegionError UpdateRegion) (markers : UpdateMarkerSequence)
    (later : UpdateMarkerSequence → List ℕ × UpdateMarkerSequence)
    → ((s : UpdateMarkerSequence) → later s ≡ next_markers (length (later s).0) s)
    → (
      marker_in_front (request_for region markers).0 (later (request_for region markers).1).0,
      (later (request_for region markers).1).1,
    )
      ≡ next_markers
          (length (
            marker_in_front
              (request_for region markers).0
              (later (request_for region markers).1).0))
          markers
unfolding request_for marker_in_front next_markers
request_for-asked (err e) markers later all = all markers
request_for-asked (ok region) markers later all =
    ap (marker_before (next_marker markers).0) (all (next_marker markers).1)

answer-asked :
    (ask : Ask) (markers : UpdateMarkerSequence)
    (later : UpdateMarkerSequence → List ℕ × UpdateMarkerSequence)
    → ((s : UpdateMarkerSequence) → later s ≡ next_markers (length (later s).0) s)
    → (
      marker_in_front (answer ask markers).0 (later (answer ask markers).1).0,
      (later (answer ask markers).1).1,
    )
      ≡ next_markers
          (length (marker_in_front (answer ask markers).0 (later (answer ask markers).1).0))
          markers
unfolding answer next_full_gc16_remote_request next_full_gc16_system_ui_request
answer-asked (remote screen w h) markers later all =
    request_for-asked (remote_update_region screen w h) markers later all
answer-asked (system_ui screen w h) markers later all =
    request_for-asked (system_ui_update_region screen w h) markers later all

-- Of any requests for the remote viewport and the system strip, those that are made have the next
-- markers of the one sequence, in order and without a gap: a request that is refused consumes none.
pub asked-next_markers :
    (asks : List Ask) (s : UpdateMarkerSequence)
    → asked asks s ≡ next_markers (length (asked asks s).0) s
unfolding asked
asked-next_markers [] s = unfold next_markers in refl
asked-next_markers (ask ∷ asks) s =
    answer-asked ask s (asked asks) (λ s'. asked-next_markers asks s')
