-- ===== src/Paperspoon/Server/Target.antt =====
-- A frame that was drawn for a connection and its viewport is sent to that connection in that
-- viewport, or to none.
use mathlib.Core.Path.{subst}
use rust_x11_hello.Prelude.{
  ℕ, ◌≡◌, ◌≢◌, ◌<◌, ◌↔◌, inl, inr, refl, arith, List, ◌∷◌, Bool, true, false, Option, none, some,
  ok, Bool-cases, ap, sym, ◌∙◌,
}
use rust_x11_hello.Protocol.Frame.{PixelFormat}
use rust_x11_hello.Protocol.Payload.{supports}
use rust_x11_hello.Paperspoon.Server.{
  ActiveConnection, Server, empty_server, FrameTarget, sent, target_in, target_of, frame_target_in,
  frame_target, shows, check_target, write_active, forward_active, forward_locked,
  forward_frame_inner, forward_frame_to, holds_token,
}
use rust_x11_hello.Paperspoon.Server.Fate.{ServerOp, server_after, fate, Follows}
use rust_x11_hello.Paperspoon.Server.Follows.{server_after-Follows}
use rust_x11_hello.Paperspoon.Server.Tokens.{IsUsed, server_after-IsUsed}

-- `a` is the connection that `target` was drawn for.
pub record IsTargetOf (format : PixelFormat) (target : FrameTarget) (a : ActiveConnection)
    : Type 0 where
  pub token : a.token ≡ target.token
  pub viewport : a.viewport ≡ some target.viewport
  pub supported : supports a.pixel_formats format ≡ true

target_in-eq-ok :
    (token : ℕ) (o : Option (ℕ × ℕ)) {target : FrameTarget}
    → target_in token o ≡ ok target
    → (token ≡ target.token) × (o ≡ some target.viewport)
unfolding target_in
target_in-eq-ok token none e = absurd (ground arith)
target_in-eq-ok token (some v) e = ground arith

frame_target_in-IsTargetOf :
    (format : PixelFormat) (o : Option ActiveConnection) {target : FrameTarget}
    → frame_target_in format o ≡ ok target
    → (a : ActiveConnection) × (o ≡ some a) × IsTargetOf format target a
unfolding frame_target_in target_of
frame_target_in-IsTargetOf format none e = absurd (ground arith)
frame_target_in-IsTargetOf format (some a) {target} e =
    elim (Bool-cases (supports a.pixel_formats format)) [
      | inl can ↦
          let (token, viewport) = target_in-eq-ok a.token a.viewport (rw can at e) in
          (a, refl, record { token = token; viewport = viewport; supported = can })
      | inr cannot ↦ absurd (ground (arith, cannot, e))
    ]

module _ (a : ActiveConnection) (format : PixelFormat) (target : FrameTarget)
    (is : IsTargetOf format target a) (writes : ℕ → Bool) (s : Server) (bytes : List ℕ) where
  -- On the connection of the target, in viewport `v`
  forward_same :
      (v : ℕ × ℕ)
      → writes a.stream ≡ true
      → ((forward_locked writes s bytes format
            (some target)
            (some (record a { viewport = some v }))).0
          ≡ ok sent)
        ↔ (shows (some v) target.viewport ≡ true)
  unfolding forward_locked forward_active check_target write_active
  forward_same v takes = ground (arith, is.token, is.supported, takes)

  forward_other :
      (o : Option ActiveConnection)
      → holds_token o a.token ≡ false
      → (forward_locked writes s bytes format (some target) o).0 ≢ ok sent
  unfolding forward_locked forward_active check_target holds_token
  forward_other none other e = ground arith
  forward_other (some b) other e = ground (arith, is.token)

  -- A frame that is sent goes whole to the socket of the connection that it was sent on.
  forward_same-stream :
      (v : ℕ × ℕ)
      → (forward_locked writes s bytes format
          (some target)
          (some (record a { viewport = some v }))).0
        ≡ ok sent
      → (forward_locked writes s bytes format
          (some target)
          (some (record a { viewport = some v }))).1.sent
        ≡ (a.stream, bytes) ∷ s.sent
  unfolding forward_locked forward_active check_target write_active
  forward_same-stream v e = ground (arith, is.token, is.supported)

  forward_by_fate :
      (o : Option (ℕ × ℕ)) (active : Option ActiveConnection)
      → Follows a o active
      → (writes a.stream ≡ true
          → ((forward_locked writes s bytes format (some target) active).0 ≡ ok sent)
            ↔ (shows o target.viewport ≡ true))
        × ((forward_locked writes s bytes format (some target) active).0 ≡ ok sent
            → (forward_locked writes s bytes format (some target) active).1.sent
              ≡ (a.stream, bytes) ∷ s.sent)
  forward_by_fate (some v) active e =
      subst
        (λ now.
          (writes a.stream ≡ true
            → ((forward_locked writes s bytes format (some target) now).0 ≡ ok sent)
              ↔ (shows (some v) target.viewport ≡ true))
          × ((forward_locked writes s bytes format (some target) now).0 ≡ ok sent
              → (forward_locked writes s bytes format (some target) now).1.sent
                ≡ (a.stream, bytes) ∷ s.sent))
        (sym e) (forward_same v, forward_same-stream v)
  forward_by_fate none active e = (
    λ takes. ((λ done. absurd (forward_other active e done)), λ shown. absurd (ground arith)),
    λ done. absurd (forward_other active e done),
  )

same_connection :
    (a : ActiveConnection) (v : ℕ × ℕ) → a.viewport ≡ some v → a ≡ record a { viewport = some v }
same_connection a v e = ap (λ o. record a { viewport = o }) e

-- Whatever the other threads did before and after PaperSpoon chose a target, a frame for it is sent
-- exactly if the connection that it was chosen for is still the current one and has the target's
-- viewport now, provided that its socket takes the bytes; and a frame that is sent goes whole to
-- that connection's socket.
pub forward_frame_to_iff :
    (past ops : List ServerOp) (format : PixelFormat) {target : FrameTarget} (writes : ℕ → Bool)
    (bytes : List ℕ)
    → frame_target (server_after empty_server past) format ≡ ok target
    → (a : ActiveConnection) × ((server_after empty_server past).active ≡ some a)
      × (writes a.stream ≡ true
          → ((forward_frame_to writes
                (server_after (server_after empty_server past) ops)
                bytes
                format
                target).0
              ≡ ok sent)
            ↔ (shows (fate a target.viewport ops) target.viewport ≡ true))
      × ((forward_frame_to writes
              (server_after (server_after empty_server past) ops)
              bytes
              format
              target).0
            ≡ ok sent
          → (forward_frame_to writes
              (server_after (server_after empty_server past) ops)
              bytes
              format
              target).1.sent
            ≡ (a.stream, bytes) ∷ (server_after (server_after empty_server past) ops).sent)
unfolding frame_target forward_frame_to forward_frame_inner
forward_frame_to_iff past ops format {target} writes bytes e =
    let start = server_after empty_server past in
    let (a, active, is) = frame_target_in-IsTargetOf format start.active e in
    let used : a.token < start.next_token =
      subst (λ o. IsUsed o start.next_token) active (server_after-IsUsed past) in
    let follows =
      server_after-Follows a start target.viewport ops used
        (active ∙ ap some (same_connection a target.viewport is.viewport)) in
    let by =
      forward_by_fate a format target is writes (server_after start ops) bytes
        (fate a target.viewport ops) (server_after start ops).active follows in
    (a, active, by.0, by.1)
