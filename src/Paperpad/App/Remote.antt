-- ===== src/Paperpad/App/Remote.antt =====
-- The records that PaperSpoon receives: their order, and where they are.
use rust_x11_hello.Prelude.{
  ℕ, ◌≡◌, ◌<◌, ◌⊎◌, inl, inr, refl, arith, List, [], ◌∷◌, Bool, true, false, Option, none, some,
  if◌then◌else◌, ◌==◌, Bool-cases,
}
use rust_x11_hello.Prelude.Int.{IsI16}
use rust_x11_hello.Paperpad.Ui.Screen.{RemotePoint, ScreenLayout, new_layout, physical_to_remote}
use rust_x11_hello.Paperpad.Ui.Screen.Partition.{physical_to_remote_iff}
use rust_x11_hello.Paperpad.Ui.System.{PointerEventKind, press, release, PointerEvent}
use rust_x11_hello.Paperpad.App.{
  RemotePointerEvent, AppState, primary_remote, handle_remote_pointer, remote_of, handle_pointer,
}

-- An event's record in front of those of later events
unfoldable pub record_in_front :
    Option RemotePointerEvent → List RemotePointerEvent → List RemotePointerEvent
record_in_front none records = records
record_in_front (some r) records = r ∷ records

-- What `handle_pointer` makes of events in their order, for PaperSpoon.
unfoldable pub remote_records : AppState → List PointerEvent → List RemotePointerEvent
remote_records s [] = []
remote_records s (e ∷ es) =
    let (outcome, s') = handle_pointer s e in record_in_front outcome.remote (remote_records s' es)

-- Presses and releases take turns, a release first if a contact is active.
abbrev pub Alternates : Bool → List RemotePointerEvent → Type 0
Alternates active [] = Unit {0}
Alternates true (r ∷ records) = (r.kind ≡ release) × Alternates false records
Alternates false (r ∷ records) = (r.kind ≡ press) × Alternates true records

primary-Alternates :
    (active : Bool) (kind : PointerEventKind) (at : Option RemotePoint) (corner : RemotePoint)
    (later : List RemotePointerEvent)
    → Alternates (primary_remote active kind at corner).1 later
    → Alternates active (record_in_front (primary_remote active kind at corner).0 later)
unfolding primary_remote record_in_front
primary-Alternates true press at corner later turns = (refl, turns)
primary-Alternates true release at corner later turns = (refl, turns)
primary-Alternates false press (some q) corner later turns = (refl, turns)
primary-Alternates false press none corner later turns = turns
primary-Alternates false release at corner later turns = turns

handle_remote_pointer-Alternates :
    (active : Bool) (e : PointerEvent) (at : Option RemotePoint) (size : ℕ × ℕ)
    (later : List RemotePointerEvent)
    → Alternates (handle_remote_pointer active e at size).1 later
    → Alternates active (record_in_front (handle_remote_pointer active e at size).0 later)
unfolding handle_remote_pointer record_in_front
handle_remote_pointer-Alternates active e at size later = by_button (e.detail == 1)
  where
    corner : RemotePoint
    corner = record { x = size.0; y = size.1 }

    by_button :
        (b : Bool)
        → Alternates (if b then primary_remote active e.kind at corner else (none, active)).1 later
        → Alternates active (
            record_in_front
              (if b then primary_remote active e.kind at corner else (none, active)).0
              later)
    by_button true turns = primary-Alternates active e.kind at corner later turns
    by_button false turns = turns

handle_pointer-Alternates :
    (s : AppState) (e : PointerEvent) (later : List RemotePointerEvent)
    → Alternates (handle_pointer s e).1.remote_contact_active later
    → Alternates s.remote_contact_active (record_in_front (handle_pointer s e).0.remote later)
unfolding handle_pointer
handle_pointer-Alternates s e later =
    handle_remote_pointer-Alternates s.remote_contact_active e _ _ later

Alternates-nil : (active : Bool) → Alternates active []
Alternates-nil true = tt
Alternates-nil false = tt

-- The records of pointer events take turns, whatever the events are: from an inactive contact on, a
-- press is sent first, and each press is released before the next.
pub remote_records-Alternates :
    (s : AppState) (es : List PointerEvent)
    → Alternates s.remote_contact_active (remote_records s es)
unfolding remote_records
remote_records-Alternates s [] = Alternates-nil s.remote_contact_active
remote_records-Alternates s (e ∷ es) =
    handle_pointer-Alternates s e _ (remote_records-Alternates (handle_pointer s e).1 es)

-- Where a record may be: a press in the viewport, a release there or at the corner behind it.
abbrev pub IsPlaced : ℕ × ℕ → RemotePointerEvent → Type 0
IsPlaced size r =
    ((r.point.x < size.0) × (r.point.y < size.1))
    ⊎ ((r.kind ≡ release) × (r.point.x ≡ size.0) × (r.point.y ≡ size.1))

primary-IsPlaced :
    (active : Bool) (kind : PointerEventKind) (at : Option RemotePoint) (size : ℕ × ℕ)
    {r : RemotePointerEvent}
    → ((q : RemotePoint) → at ≡ some q → (q.x < size.0) × (q.y < size.1))
    → (primary_remote active kind at (record { x = size.0; y = size.1 })).0 ≡ some r
    → IsPlaced size r
unfolding primary_remote
primary-IsPlaced true press at size in_view e = inr (ground arith)
primary-IsPlaced true release (some q) size in_view e = inl (ground (arith, in_view q refl))
primary-IsPlaced true release none size in_view e = inr (ground arith)
primary-IsPlaced false press (some q) size in_view e = inl (ground (arith, in_view q refl))
primary-IsPlaced false press none size in_view e = absurd (ground arith)
primary-IsPlaced false release at size in_view e = absurd (ground arith)

-- In a window with a layout, a record that is sent for an event at 16-bit coordinates is in the
-- remote viewport, but for a cancelling release, which is at the corner just behind it.
pub handle_pointer-IsPlaced :
    (s : AppState) (e : PointerEvent) {l : ScreenLayout} {r : RemotePointerEvent}
    → new_layout s.width s.height ≡ some l
    → IsI16 e.point.x
    → IsI16 e.point.y
    → (handle_pointer s e).0.remote ≡ some r
    → IsPlaced (l.remote_viewport.width, l.remote_viewport.height) r
unfolding handle_pointer handle_remote_pointer
handle_pointer-IsPlaced s e {l} {r} el hx hy sent = elim (Bool-cases (e.detail == 1)) [
  | inl primary ↦
      primary-IsPlaced s.remote_contact_active e.kind (physical_to_remote l e.point)
        (l.remote_viewport.width, l.remote_viewport.height)
        (λ q there.
          let is = (physical_to_remote_iff s.width s.height e.point q el hx hy).0 there in
          (is.2, is.3))
        (unfold remote_of in rw (primary, el) at sent)
  | inr other ↦ absurd (ground (arith, other, sent))
]
