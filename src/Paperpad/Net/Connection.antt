-- ===== src/Paperpad/Net/Connection.antt =====
-- src/net/connection.rs, and `write_outbound` of src/net/mod.rs: which socket is the current one.
-- A socket is a number; its clones share it. `Arc::new(())` is a number that was not used before,
-- since each token that can still be compared keeps its allocation alive.
pub mod Current
pub mod Stale
pub mod Written
pub mod Sockets
mod Tests
use rust_x11_hello.Prelude.{
  ℕ, ◌+◌, ◌≡◌, List, [], ◌∷◌, Bool, true, false, Option, none, some, take, Result, ok, err, ◌>>=◌,
  ◌>>◌, guard, if◌then◌else◌, ◌==◌,
}

pub data ConnectionState : Type 0 where
  disconnected : ConnectionState
  connected : (token stream : ℕ) → ConnectionState

pub record ConnectionStream : Type 0 where
  pub token : ℕ
  pub stream : ℕ

pub data ConnectionError : Type 0 where
  not_connected clone_failed connection_changed write_failed : ConnectionError

-- What the lock protects, with the next token, the sockets that were shut down, and the bytes that a
-- socket took, the latest ones first.
pub record Shared : Type 0 where
  pub state : ConnectionState
  pub next_token : ℕ
  pub shut : List ℕ
  pub received : List (ℕ × List ℕ)

-- `ConnectionState::connected`, of the stream that the program starts with
unfoldable pub connected_with : ℕ → Shared
connected_with stream = record {
  state = connected 0 stream;
  next_token = 1;
  shut = [];
  received = [];
}

unfoldable pub is_connected : ConnectionState → Bool
is_connected disconnected = false
is_connected (connected token stream) = true

unfoldable pub current_token : ConnectionState → Result ConnectionError ℕ
current_token disconnected = err not_connected
current_token (connected token stream) = ok token

-- `cloned` is whether the system clones the socket.
unfoldable pub clone_stream : Bool → ConnectionState → Result ConnectionError ConnectionStream
clone_stream cloned disconnected = err not_connected
clone_stream cloned (connected token stream) = do
  guard cloned clone_failed
  ok (record { token = token; stream = stream })

unfoldable pub clone_stream_for :
    Bool → ConnectionState → ℕ → Result ConnectionError ConnectionStream
clone_stream_for cloned disconnected candidate = err not_connected
clone_stream_for cloned (connected token stream) candidate = do
  guard (token == candidate) connection_changed
  guard cloned clone_failed
  ok (record { token = candidate; stream = stream })

-- The sockets shut down once the state is left: the stream's shutdown, whatever it returns
unfoldable pub shut_stream : ConnectionState → List ℕ → List ℕ
shut_stream disconnected shut = shut
shut_stream (connected token stream) shut = stream ∷ shut

unfoldable pub disconnect : Shared → Shared
disconnect s = record s { state = disconnected; shut = shut_stream s.state s.shut }

unfoldable pub reconnect : Shared → ℕ → Shared
reconnect s stream =
    let s = disconnect s in
    record s { state = connected s.next_token stream; next_token = s.next_token + 1 }

-- `Arc::ptr_eq` with the current token
unfoldable pub is_current : ConnectionState → ℕ → Bool
is_current disconnected candidate = false
is_current (connected token stream) candidate = token == candidate

unfoldable pub disconnect_if_current : Shared → ConnectionStream → Bool × Shared
disconnect_if_current s candidate =
    if is_current s.state candidate.token then (true, disconnect s) else (false, s)

-- The bytes that a socket takes until its write ends: all of them, or so many until it fails
unfoldable pub taken : Option ℕ → List ℕ → List ℕ
taken none bytes = bytes
taken (some n) bytes = take n bytes

-- The socket takes bytes.
abbrev pub logged : Shared → ℕ → List ℕ → Shared
logged s stream bytes = record s { received = (stream, bytes) ∷ s.received }

-- After the write: a failed one leaves its connection if it is still the current one.
unfoldable pub after_write :
    Option ℕ → Shared → ConnectionStream → Result ConnectionError (Unit {0}) × Shared
after_write none s stream = (ok tt, s)
after_write (some n) s stream = (err write_failed, (disconnect_if_current s stream).1)

-- `write_outbound` takes the lock twice: to clone the socket of the queued bytes' connection, and
-- after a failed write to leave that connection. `between` is what other threads do while it writes,
-- `writes` is how the write to a socket ends: it takes all the bytes, or fails after so many of them.
unfoldable pub write_to :
    (ℕ → Option ℕ)
    → (Shared → Shared)
    → Shared
    → List ℕ
    → Result ConnectionError ConnectionStream
    → Result ConnectionError (Unit {0}) × Shared
write_to writes between s bytes (err e) = (err e, s)
write_to writes between s bytes (ok stream) =
    after_write (writes stream.stream)
      (between (logged s stream.stream (taken (writes stream.stream) bytes))) stream

unfoldable pub write_outbound :
    Bool
    → (ℕ → Option ℕ)
    → (Shared → Shared)
    → Shared
    → ℕ
    → List ℕ
    → Result ConnectionError (Unit {0}) × Shared
unfolding write_to
write_outbound cloned writes between s connection bytes =
    write_to writes between s bytes (clone_stream_for cloned s.state connection)
