-- ===== src/Paperpad/Net/Mailbox.antt =====
-- src/net/mod.rs, `FrameMailbox`: the latest frame of the current viewport, for the event loop.
pub mod Latest
mod Tests
use rust_x11_hello.Prelude.{
  ℕ, ◌≡◌, ◌≢◌, List, [], ◌∷◌, Bool, true, false, ◌&&◌, arith, Option, none, some, Result, ok, err,
  ◌==◌, if◌then◌else◌, not,
}
use rust_x11_hello.Paperpad.Net.Frames.{ReceivedFrame}

pub record FrameMailboxState : Type 0 where
  pub viewport : ℕ × ℕ
  pub pending : Option ReceivedFrame

pub record FrameDimensionMismatch : Type 0 where
  pub expected : ℕ × ℕ
  pub actual : ℕ × ℕ

-- Equality of the pairs of dimensions
abbrev pub same_size : ℕ × ℕ → ℕ × ℕ → Bool
same_size a b = (a.0 == b.0) && (a.1 == b.1)

abbrev pub size_of : ReceivedFrame → ℕ × ℕ
size_of f = (f.width, f.height)

abbrev pub drop_mismatched : ℕ × ℕ → Option ReceivedFrame → Option ReceivedFrame
drop_mismatched viewport none = none
drop_mismatched viewport (some f) = if same_size (size_of f) viewport then some f else none

unfoldable pub set_viewport : FrameMailboxState → ℕ × ℕ → FrameMailboxState
set_viewport s viewport = record {
  viewport = viewport;
  pending = drop_mismatched viewport s.pending;
}

unfoldable pub publish :
    FrameMailboxState → ReceivedFrame → Result FrameDimensionMismatch (Unit {0}) × FrameMailboxState
publish s f =
    if same_size (size_of f) s.viewport
    then (ok tt, record s { pending = some f })
    else (err (record { expected = s.viewport; actual = size_of f }), s)

unfoldable pub take_frame : FrameMailboxState → Option ReceivedFrame × FrameMailboxState
take_frame s = (s.pending, record s { pending = none })

-- What the reader thread and the event loop do to a mailbox.
pub data MailboxOp : Type 0 where
  resize : ℕ × ℕ → MailboxOp
  arrive : ReceivedFrame → MailboxOp
  poll : MailboxOp

unfoldable pub mailbox_step : FrameMailboxState → MailboxOp → FrameMailboxState
unfolding set_viewport publish take_frame
mailbox_step s (resize v) = set_viewport s v
mailbox_step s (arrive f) = (publish s f).1
mailbox_step s poll = (take_frame s).1

-- `FrameMailboxState::default`
abbrev pub empty_mailbox : FrameMailboxState
empty_mailbox = record { viewport = (0, 0); pending = none }

-- The state after operations in the order of the lock, the latest one first.
unfoldable pub after : List MailboxOp → FrameMailboxState
unfolding mailbox_step
after [] = empty_mailbox
after (op ∷ past) = mailbox_step (after past) op
