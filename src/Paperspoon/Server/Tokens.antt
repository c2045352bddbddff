-- ===== src/Paperspoon/Server/Tokens.antt =====
-- The token of the current connection is one that was handed out.
use rust_x11_hello.Prelude.{
  ℕ, ◌≤◌, ◌<◌, arith, List, [], ◌∷◌, Bool, true, false, ◌&&◌, not, Option, none, some,
  if◌then◌else◌,
}
use rust_x11_hello.Protocol.Frame.{PixelFormat}
use rust_x11_hello.Protocol.Payload.{supports}
use rust_x11_hello.Paperspoon.Server.{
  ActiveConnection, Server, empty_server, FrameTarget, FrameForward, install, install_for_hello,
  check_target, holds_token, set_active_viewport,
}
use rust_x11_hello.Paperspoon.Server.Fate.{
  ServerOp, hello, resize, clear, forward, server_step, server_after, resize-active, clear-active,
  refused_or_sent, forwarded, forward-active, server_step-next,
}

-- The token of the current connection has been handed out.
abbrev pub IsUsed : Option ActiveConnection → ℕ → Type 0
IsUsed none next = Unit {0}
IsUsed (some a) next = a.token < next

resized-IsUsed :
    (o : Option ActiveConnection) (b : Bool) (v : ℕ × ℕ) (n : ℕ)
    → IsUsed o n
    → IsUsed (if b then set_active_viewport v o else o) n
unfolding set_active_viewport
resized-IsUsed none true v n u = u
resized-IsUsed (some a) true v n u = u
resized-IsUsed o false v n u = u

cleared-IsUsed :
    (o : Option ActiveConnection) (b : Bool) (n : ℕ) → IsUsed o n → IsUsed (if b then none else o) n
cleared-IsUsed o true n u = tt
cleared-IsUsed o false n u = u

refused_or_sent-IsUsed :
    (writes : ℕ → Bool) (format : PixelFormat) (a : ActiveConnection) (o : Option FrameForward)
    (n : ℕ)
    → a.token < n
    → IsUsed (refused_or_sent writes format a o) n
refused_or_sent-IsUsed writes format a none n u =
    cleared-IsUsed (some a) (supports a.pixel_formats format && not (writes a.stream)) n u
refused_or_sent-IsUsed writes format a (some refused) n u = u

forwarded-IsUsed :
    (writes : ℕ → Bool) (format : PixelFormat) (target : Option FrameTarget)
    (o : Option ActiveConnection) (n : ℕ)
    → IsUsed o n
    → IsUsed (forwarded writes format target o) n
forwarded-IsUsed writes format target none n u = u
forwarded-IsUsed writes format target (some a) n u =
    refused_or_sent-IsUsed writes format a (check_target a target) n u

IsUsed-mono : (o : Option ActiveConnection) {m n : ℕ} → m ≤ n → IsUsed o m → IsUsed o n
IsUsed-mono none h u = tt
IsUsed-mono (some a) h u = omega (arith, h, u)

server_step-IsUsed :
    (s : Server) (op : ServerOp)
    → IsUsed s.active s.next_token
    → IsUsed (server_step s op).active (server_step s op).next_token
server_step-IsUsed s (hello stream formats viewport) u =
    unfold server_step install_for_hello install in omega arith
server_step-IsUsed s (resize c v) u =
    IsUsed-mono _ (server_step-next s (resize c v))
      (rw (resize-active s c v) (resized-IsUsed s.active (holds_token s.active c) v s.next_token u))
server_step-IsUsed s (clear c) u =
    IsUsed-mono _ (server_step-next s (clear c))
      (rw (clear-active s c) (cleared-IsUsed s.active (holds_token s.active c) s.next_token u))
server_step-IsUsed s (forward writes bytes format target) u =
    IsUsed-mono _ (server_step-next s (forward writes bytes format target)) (
      rw (forward-active s writes bytes format target).0
        (forwarded-IsUsed writes format target s.active s.next_token u))

pub server_after-IsUsed :
    (past : List ServerOp)
    → IsUsed (server_after empty_server past).active (server_after empty_server past).next_token
unfolding server_after
server_after-IsUsed [] = tt
server_after-IsUsed (op ∷ past) =
    server_step-IsUsed (server_after empty_server past) op (server_after-IsUsed past)
