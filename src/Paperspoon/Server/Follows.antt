-- ===== src/Paperspoon/Server/Follows.antt =====
-- The current connection after any operations is what its fate says.
use mathlib.Core.Path.{subst}
use rust_x11_hello.Prelude.{
  ℕ, ◌≡◌, ◌<◌, refl, arith, List, [], ◌∷◌, Bool, true, false, ◌&&◌, not, Option, none, some,
  if◌then◌else◌, ◌==◌, sym,
}
use rust_x11_hello.Protocol.Frame.{PixelFormat}
use rust_x11_hello.Protocol.Payload.{V2PixelFormats, supports}
use rust_x11_hello.Paperspoon.Server.{
  ActiveConnection, Server, FrameTarget, FrameForward, viewport_changed, connection_changed,
  install, install_for_hello, shows, check_target, holds_token, set_active_viewport,
}
use rust_x11_hello.Paperspoon.Server.Fate.{
  ServerOp, hello, resize, clear, forward, server_step, server_after, is_meant_for, fate_step,
  fate_next, fate, Follows, resize-active, clear-active, refused_or_sent, forwarded, forward-active,
  server_after-next,
}

module _ (a : ActiveConnection) where
  hello-Follows :
      (s : Server) (stream : ℕ) (formats : V2PixelFormats) (viewport : ℕ × ℕ)
      → a.token < s.next_token
      → holds_token (server_step s (hello stream formats viewport)).active a.token ≡ false
  unfolding server_step install_for_hello install holds_token
  hello-Follows s stream formats viewport old = ground arith

  abbrev showing : ℕ × ℕ → ActiveConnection
  showing v = record a { viewport = some v }

  resize-Follows :
      (o : Option (ℕ × ℕ)) (active : Option ActiveConnection) (candidate : ℕ) (viewport : ℕ × ℕ)
      → Follows a o active
      → Follows a
          (fate_next a (resize candidate viewport) o)
          (if holds_token active candidate then set_active_viewport viewport active else active)
  unfolding fate_next fate_step set_active_viewport holds_token
  resize-Follows none none candidate viewport e = ground arith
  resize-Follows none (some b) candidate viewport e = ground arith
  resize-Follows (some v) active candidate viewport e =
      subst
        (λ now.
          Follows a (if a.token == candidate then some viewport else some v)
            (if holds_token now candidate then set_active_viewport viewport now else now))
        (sym e) (here (a.token == candidate))
    where
      here :
          (b : Bool)
          → Follows a
              (if b then some viewport else some v)
              (if b then some (showing viewport) else some (showing v))
      here true = refl
      here false = refl

  ends_or_stays :
      (v : ℕ × ℕ) (b : Bool)
      → Follows a (if b then none else some v) (if b then none else some (showing v))
  unfolding holds_token
  ends_or_stays v true = refl
  ends_or_stays v false = refl

  clear-Follows :
      (o : Option (ℕ × ℕ)) (active : Option ActiveConnection) (candidate : ℕ)
      → Follows a o active
      → Follows a
          (fate_next a (clear candidate) o)
          (if holds_token active candidate then none else active)
  unfolding fate_next fate_step holds_token
  clear-Follows none none candidate e = ground arith
  clear-Follows none (some b) candidate e = ground arith
  clear-Follows (some v) active candidate e =
      subst
        (λ now.
          Follows a (if a.token == candidate then none else some v)
            (if holds_token now candidate then none else now))
        (sym e) (ends_or_stays v (a.token == candidate))

  refused_or_sent-other :
      (writes : ℕ → Bool) (format : PixelFormat) (b : ActiveConnection) (o : Option FrameForward)
      → holds_token (some b) a.token ≡ false
      → holds_token (refused_or_sent writes format b o) a.token ≡ false
  refused_or_sent-other writes format b (some refused) e = e
  refused_or_sent-other writes format b none e =
      by_end (supports b.pixel_formats format && not (writes b.stream))
    where
      by_end : (ends : Bool) → holds_token (if ends then none else some b) a.token ≡ false
      by_end true = unfold holds_token in refl
      by_end false = e

  module _ (v : ℕ × ℕ) (writes : ℕ → Bool) (format : PixelFormat) where
    ends : Bool
    ends = supports a.pixel_formats format && not (writes a.stream)

    meant-Follows :
        (same_token same_viewport : Bool)
        → Follows a (if (same_token && same_viewport) && ends then none else some v) (
            refused_or_sent writes format (showing v) (
              if same_token
              then if same_viewport then none else some viewport_changed
              else some connection_changed))
    unfolding ends
    meant-Follows true true = ends_or_stays v ends
    meant-Follows true false = refl
    meant-Follows false same_viewport = refl

    target-Follows :
        (target : Option FrameTarget)
        → Follows a
            (if is_meant_for a.token v target && ends then none else some v)
            (forwarded writes format target (some (showing v)))
    unfolding check_target ends
    target-Follows none = ends_or_stays v ends
    target-Follows (some t) = meant-Follows (a.token == t.token) (shows (some v) t.viewport)

  forward-Follows :
      (o : Option (ℕ × ℕ)) (active : Option ActiveConnection) (writes : ℕ → Bool) (bytes : List ℕ)
      (format : PixelFormat) (target : Option FrameTarget)
      → Follows a o active
      → Follows a
          (fate_next a (forward writes bytes format target) o)
          (forwarded writes format target active)
  unfolding fate_next fate_step ends
  forward-Follows none none writes bytes format target e = e
  forward-Follows none (some b) writes bytes format target e =
      refused_or_sent-other writes format b (check_target b target) e
  forward-Follows (some v) active writes bytes format target e =
      subst
        (λ now.
          Follows a (if is_meant_for a.token v target && ends v writes format then none else some v)
            (forwarded writes format target now))
        (sym e) (target-Follows v writes format target)

  server_step-Follows :
      (s : Server) (o : Option (ℕ × ℕ)) (op : ServerOp)
      → a.token < s.next_token
      → Follows a o s.active
      → Follows a (fate_next a op o) (server_step s op).active
  server_step-Follows s none (hello stream formats viewport) old e =
      unfold fate_next in hello-Follows s stream formats viewport old
  server_step-Follows s (some v) (hello stream formats viewport) old e =
      unfold fate_next fate_step in hello-Follows s stream formats viewport old
  server_step-Follows s o (resize candidate viewport) old e =
      rw (resize-active s candidate viewport) (resize-Follows o s.active candidate viewport e)
  server_step-Follows s o (clear candidate) old e =
      rw (clear-active s candidate) (clear-Follows o s.active candidate e)
  server_step-Follows s o (forward writes bytes format target) old e =
      rw (forward-active s writes bytes format target).0
        (forward-Follows o s.active writes bytes format target e)

  pub server_after-Follows :
      (s : Server) (v : ℕ × ℕ) (ops : List ServerOp)
      → a.token < s.next_token
      → s.active ≡ some (showing v)
      → Follows a (fate a v ops) (server_after s ops).active
  unfolding server_after fate
  server_after-Follows s v [] old e = e
  server_after-Follows s v (op ∷ past) old e =
      server_step-Follows (server_after s past) (fate a v past) op
        (omega (arith, server_after-next s past)) (server_after-Follows s v past old e)
