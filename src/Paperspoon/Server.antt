-- ===== src/Paperspoon/Server.antt =====
-- tools/paperspoon/src/server.rs: the current PaperPad, shared by the frame producers.
-- Sockets and tokens are numbers, as in PaperPad's connection; `writes` says of a socket whether it
-- takes all the bytes of a write.
pub mod Fate
pub mod Follows
pub mod Tokens
pub mod Target
mod Tests
use rust_x11_hello.Prelude.{
  ℕ, ◌+◌, ◌≡◌, List, [], ◌∷◌, Bool, true, false, ◌&&◌, not, Option, none, some, Result, ok, err,
  ◌>>=◌, ◌>>◌, guard, if◌then◌else◌, ◌==◌,
}
use rust_x11_hello.Protocol.Frame.{PixelFormat}
use rust_x11_hello.Protocol.Payload.{V2PixelFormats, supports}

pub record ActiveConnection : Type 0 where
  pub token : ℕ
  pub stream : ℕ
  pub pixel_formats : V2PixelFormats
  pub viewport : Option (ℕ × ℕ)

-- What the lock protects, with the next token, the sockets shut down, and the writes that a socket
-- took, the latest one first.
pub record Server : Type 0 where
  pub active : Option ActiveConnection
  pub next_token : ℕ
  pub shut : List ℕ
  pub sent : List (ℕ × List ℕ)

pub record FrameTarget : Type 0 where
  pub token : ℕ
  pub viewport : ℕ × ℕ

pub data FrameTargetError : Type 0 where
  no_connection unsupported_pixel_format viewport_unavailable : FrameTargetError

pub data FrameForward : Type 0 where
  sent no_connection unsupported_pixel_format connection_changed viewport_changed : FrameForward

pub data ServerError : Type 0 where
  clone_failed write_failed : ServerError

-- `CurrentConnection::default`
abbrev pub empty_server : Server
empty_server = record { active = none; next_token = 0; shut = []; sent = [] }

-- `install_inner`; `cloned` is whether the system clones the socket.
unfoldable pub install :
    Bool → Server → ℕ → V2PixelFormats → Option (ℕ × ℕ) → Result ServerError ℕ × Server
install false s stream formats viewport = (err clone_failed, s)
install true s stream formats viewport = (
  ok s.next_token,
  record s {
    active = some (record {
      token = s.next_token;
      stream = stream;
      pixel_formats = formats;
      viewport = viewport;
    });
    next_token = s.next_token + 1;
  },
)

unfoldable pub install_for_hello :
    Bool → Server → ℕ → V2PixelFormats → ℕ × ℕ → Result ServerError ℕ × Server
unfolding install
install_for_hello cloned s stream formats viewport = install cloned s stream formats (some viewport)

-- `active.viewport.ok_or(…)`, and the target
unfoldable pub target_in : ℕ → Option (ℕ × ℕ) → Result FrameTargetError FrameTarget
target_in token none = err viewport_unavailable
target_in token (some viewport) = ok (record { token = token; viewport = viewport })

-- `frame_target` behind the test for a connection
unfoldable pub target_of : ActiveConnection → PixelFormat → Result FrameTargetError FrameTarget
unfolding target_in
target_of a format =
    if supports a.pixel_formats format
    then target_in a.token a.viewport
    else err unsupported_pixel_format

unfoldable pub frame_target_in :
    PixelFormat → Option ActiveConnection → Result FrameTargetError FrameTarget
unfolding target_of
frame_target_in format none = err no_connection
frame_target_in format (some a) = target_of a format

unfoldable pub frame_target : Server → PixelFormat → Result FrameTargetError FrameTarget
unfolding frame_target_in
frame_target s format = frame_target_in format s.active

-- `active.viewport == Some(viewport)`
abbrev pub shows : Option (ℕ × ℕ) → ℕ × ℕ → Bool
shows none viewport = false
shows (some v) viewport = (v.0 == viewport.0) && (v.1 == viewport.1)

-- The checks of a target, if there is one
unfoldable pub check_target : ActiveConnection → Option FrameTarget → Option FrameForward
check_target a none = none
check_target a (some target) =
    if a.token == target.token
    then if shows a.viewport target.viewport then none else some viewport_changed
    else some connection_changed

-- The write, which leaves a connection that does not take all the bytes
unfoldable pub write_active :
    (ℕ → Bool) → Server → ActiveConnection → List ℕ → Result ServerError FrameForward × Server
write_active writes s a bytes =
    if writes a.stream
    then (ok sent, record s { sent = (a.stream, bytes) ∷ s.sent })
    else (err write_failed, record s { active = none; shut = a.stream ∷ s.shut })

unfoldable pub forward_active :
    (ℕ → Bool)
    → Server
    → ActiveConnection
    → List ℕ
    → PixelFormat
    → Option FrameForward
    → Result ServerError FrameForward × Server
unfolding write_active
forward_active writes s a bytes format (some refused) = (ok refused, s)
forward_active writes s a bytes format none =
    if supports a.pixel_formats format
    then write_active writes s a bytes
    else (ok unsupported_pixel_format, s)

-- The `let Some(active) = … else`
unfoldable pub forward_locked :
    (ℕ → Bool)
    → Server
    → List ℕ
    → PixelFormat
    → Option FrameTarget
    → Option ActiveConnection
    → Result ServerError FrameForward × Server
unfolding forward_active check_target
forward_locked writes s bytes format target none = (ok no_connection, s)
forward_locked writes s bytes format target (some a) =
    forward_active writes s a bytes format (check_target a target)

unfoldable pub forward_frame_inner :
    (ℕ → Bool)
    → Server
    → List ℕ
    → PixelFormat
    → Option FrameTarget
    → Result ServerError FrameForward × Server
unfolding forward_locked
forward_frame_inner writes s bytes format target =
    forward_locked writes s bytes format target s.active

unfoldable pub forward_frame :
    (ℕ → Bool) → Server → List ℕ → PixelFormat → Result ServerError FrameForward × Server
unfolding forward_frame_inner
forward_frame writes s bytes format = forward_frame_inner writes s bytes format none

unfoldable pub forward_frame_to :
    (ℕ → Bool)
    → Server
    → List ℕ
    → PixelFormat
    → FrameTarget
    → Result ServerError FrameForward × Server
unfolding forward_frame_inner
forward_frame_to writes s bytes format target =
    forward_frame_inner writes s bytes format (some target)

-- `Arc::ptr_eq` with the token of the connection, if there is one
unfoldable pub holds_token : Option ActiveConnection → ℕ → Bool
holds_token none candidate = false
holds_token (some a) candidate = a.token == candidate

unfoldable pub set_active_viewport : ℕ × ℕ → Option ActiveConnection → Option ActiveConnection
set_active_viewport viewport none = none
set_active_viewport viewport (some a) = some (record a { viewport = some viewport })

unfoldable pub update_viewport_if_current : Server → ℕ → ℕ × ℕ → Bool × Server
unfolding set_active_viewport
update_viewport_if_current s candidate viewport =
    if holds_token s.active candidate
    then (true, record s { active = set_active_viewport viewport s.active })
    else (false, s)

unfoldable pub clear_if_current : Server → ℕ → Bool × Server
clear_if_current s candidate =
    if holds_token s.active candidate then (true, record s { active = none }) else (false, s)
