-- ===== src/Paperspoon/Server/Fate.antt =====
-- What becomes of a connection, by operations in any order.
use rust_x11_hello.Prelude.{
  ℕ, ◌≡◌, ◌≤◌, refl, arith, List, [], ◌∷◌, Bool, true, false, ◌&&◌, not, Option, none, some,
  if◌then◌else◌, ◌==◌,
}
use rust_x11_hello.Protocol.Frame.{PixelFormat}
use rust_x11_hello.Protocol.Payload.{V2PixelFormats, supports}
use rust_x11_hello.Paperspoon.Server.{
  ActiveConnection, Server, FrameTarget, FrameForward, install, install_for_hello, check_target,
  write_active, forward_active, forward_locked, forward_frame_inner, holds_token,
  set_active_viewport, update_viewport_if_current, clear_if_current,
}

-- What the threads of PaperSpoon do under the lock.
pub data ServerOp : Type 0 where
  hello : (stream : ℕ) (formats : V2PixelFormats) (viewport : ℕ × ℕ) → ServerOp
  resize : (candidate : ℕ) (viewport : ℕ × ℕ) → ServerOp
  clear : (candidate : ℕ) → ServerOp
  forward : (ℕ → Bool) → List ℕ → PixelFormat → Option FrameTarget → ServerOp

unfoldable pub server_step : Server → ServerOp → Server
server_step s (hello stream formats viewport) = (install_for_hello true s stream formats viewport).1
server_step s (resize candidate viewport) = (update_viewport_if_current s candidate viewport).1
server_step s (clear candidate) = (clear_if_current s candidate).1
server_step s (forward writes bytes format target) =
    (forward_frame_inner writes s bytes format target).1

-- The state that `s` becomes, the latest operation first.
unfoldable pub server_after : Server → List ServerOp → Server
server_after s [] = s
server_after s (op ∷ past) = server_step (server_after s past) op

-- A frame is meant for a connection: it has no target, or this one's token and viewport.
abbrev pub is_meant_for : ℕ → ℕ × ℕ → Option FrameTarget → Bool
is_meant_for token viewport none = true
is_meant_for token viewport (some target) =
    (token == target.token)
    && ((viewport.0 == target.viewport.0) && (viewport.1 == target.viewport.1))

-- The viewport of the connection `a` after one more operation, while it is the current one: another
-- Hello, its own end and a write that its socket does not take end it.
unfoldable pub fate_step : ActiveConnection → ServerOp → ℕ × ℕ → Option (ℕ × ℕ)
fate_step a (hello stream formats viewport) v = none
fate_step a (resize candidate viewport) v = if a.token == candidate then some viewport else some v
fate_step a (clear candidate) v = if a.token == candidate then none else some v
fate_step a (forward writes bytes format target) v =
    if is_meant_for a.token v target && (supports a.pixel_formats format && not (writes a.stream))
    then none
    else some v

unfoldable pub fate_next : ActiveConnection → ServerOp → Option (ℕ × ℕ) → Option (ℕ × ℕ)
fate_next a op none = none
fate_next a op (some v) = fate_step a op v

-- The viewport of `a` after operations, the latest one first; `none` once `a` has ended.
unfoldable pub fate : ActiveConnection → ℕ × ℕ → List ServerOp → Option (ℕ × ℕ)
fate a v [] = some v
fate a v (op ∷ past) = fate_next a op (fate a v past)

abbrev pub Follows : ActiveConnection → Option (ℕ × ℕ) → Option ActiveConnection → Type 0
Follows a (some v) active = active ≡ some (record a { viewport = some v })
Follows a none active = holds_token active a.token ≡ false

-- The connection after each operation, from the one before.
pub resize-active :
    (s : Server) (candidate : ℕ) (viewport : ℕ × ℕ)
    → (server_step s (resize candidate viewport)).active
      ≡ (if holds_token s.active candidate then set_active_viewport viewport s.active else s.active)
unfolding server_step update_viewport_if_current
resize-active s candidate viewport = ground arith

pub clear-active :
    (s : Server) (candidate : ℕ)
    → (server_step s (clear candidate)).active
      ≡ (if holds_token s.active candidate then none else s.active)
unfolding server_step clear_if_current
clear-active s candidate = ground arith

-- The connection after a frame
abbrev pub refused_or_sent :
    (ℕ → Bool) → PixelFormat → ActiveConnection → Option FrameForward → Option ActiveConnection
refused_or_sent writes format a (some refused) = some a
refused_or_sent writes format a none =
    if supports a.pixel_formats format && not (writes a.stream) then none else some a

abbrev pub forwarded :
    (ℕ → Bool)
    → PixelFormat
    → Option FrameTarget
    → Option ActiveConnection
    → Option ActiveConnection
forwarded writes format target none = none
forwarded writes format target (some a) = refused_or_sent writes format a (check_target a target)

forward_active-active :
    (writes : ℕ → Bool) (s : Server) (a : ActiveConnection) (bytes : List ℕ) (format : PixelFormat)
    (o : Option FrameForward)
    → s.active ≡ some a
    → ((forward_active writes s a bytes format o).1.active ≡ refused_or_sent writes format a o)
      × ((forward_active writes s a bytes format o).1.next_token ≡ s.next_token)
unfolding forward_active write_active
forward_active-active writes s a bytes format (some refused) e = (e, refl)
forward_active-active writes s a bytes format none e = ground (arith, e)

forward_locked-active :
    (writes : ℕ → Bool) (s : Server) (bytes : List ℕ) (format : PixelFormat)
    (target : Option FrameTarget) (o : Option ActiveConnection)
    → s.active ≡ o
    → ((forward_locked writes s bytes format target o).1.active ≡ forwarded writes format target o)
      × ((forward_locked writes s bytes format target o).1.next_token ≡ s.next_token)
unfolding forward_locked
forward_locked-active writes s bytes format target none e = (e, refl)
forward_locked-active writes s bytes format target (some a) e =
    forward_active-active writes s a bytes format (check_target a target) e

pub forward-active :
    (s : Server) (writes : ℕ → Bool) (bytes : List ℕ) (format : PixelFormat)
    (target : Option FrameTarget)
    → ((server_step s (forward writes bytes format target)).active
        ≡ forwarded writes format target s.active)
      × ((server_step s (forward writes bytes format target)).next_token ≡ s.next_token)
unfolding server_step forward_frame_inner
forward-active s writes bytes format target =
    forward_locked-active writes s bytes format target s.active refl

pub server_step-next : (s : Server) (op : ServerOp) → s.next_token ≤ (server_step s op).next_token
unfolding server_step install_for_hello install update_viewport_if_current clear_if_current
server_step-next s (hello stream formats viewport) = omega arith
server_step-next s (resize candidate viewport) = ground arith
server_step-next s (clear candidate) = ground arith
server_step-next s (forward writes bytes format target) =
    omega (arith, (forward-active s writes bytes format target).1)

pub server_after-next :
    (s : Server) (ops : List ServerOp) → s.next_token ≤ (server_after s ops).next_token
unfolding server_after
server_after-next s [] = omega arith
server_after-next s (op ∷ past) =
    omega (arith, server_after-next s past, server_step-next (server_after s past) op)
