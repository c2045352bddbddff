-- ===== src/Paperspoon/Sender/Numbered.antt =====
-- The frames on the wire are numbered 1, 2, 3 and so on, whatever fails and whatever else happens.
use rust_x11_hello.Prelude.{
  ℕ, ◌+◌, ◌≡◌, refl, arith, List, [], ◌∷◌, Bool, true, false, Option, none, some, Result, ok, err,
  Result-cases, length, ◌≢◌, if◌then◌else◌, inl, inr,
}
use rust_x11_hello.Protocol.Frame.{PixelFormat, Frame}
use rust_x11_hello.Protocol.Payload.{supports, encode_v2_frame}
use rust_x11_hello.Paperspoon.Server.{
  ActiveConnection, Server, FrameTarget, FrameForward, ServerError, write_failed, check_target,
  write_active, forward_active, forward_locked, forward_frame_inner, forward_frame,
  forward_frame_to,
}
use rust_x11_hello.Paperspoon.Sender.{
  Diagnostics, AuthoritativeFrame, FrameSender, SentFrame, SendError, Sending, advanced,
  application_viewport_of, kept_application, forward, encoded_next, send_encoded, send_locked,
}

-- The bytes are the message of some frame with this number.
abbrev pub IsNumberedFrame : ℕ → List ℕ → Type 0
IsNumberedFrame frame_id bytes = (frame : Frame) × (encode_v2_frame frame_id frame ≡ ok bytes)

-- The latest write comes first: it has the number before `next`, and the one before it the number
-- before that, down to 1.
pub data Numbered : List (ℕ × List ℕ) → ℕ → Type 0 where
  nothing : Numbered [] 1
  another :
      {writes : List (ℕ × List ℕ)} {next : ℕ} (stream : ℕ) (bytes : List ℕ)
      → IsNumberedFrame next bytes
      → Numbered writes next
      → Numbered ((stream, bytes) ∷ writes) (next + 1)

-- Forwarding appends one write of these bytes, if it says that it sent them, and none otherwise.
abbrev pub Forwards : Server → List ℕ → Result ServerError FrameForward × Server → Type 0
Forwards before bytes (ok FrameForward.sent, after) =
    (stream : ℕ) × (after.sent ≡ (stream, bytes) ∷ before.sent)
Forwards before bytes (ok FrameForward.no_connection, after) = after.sent ≡ before.sent
Forwards before bytes (ok FrameForward.unsupported_pixel_format, after) = after.sent ≡ before.sent
Forwards before bytes (ok FrameForward.connection_changed, after) = after.sent ≡ before.sent
Forwards before bytes (ok FrameForward.viewport_changed, after) = after.sent ≡ before.sent
Forwards before bytes (err e, after) = after.sent ≡ before.sent

write_active-Forwards :
    (writes : ℕ → Bool) (s : Server) (a : ActiveConnection) (bytes : List ℕ)
    → Forwards s bytes (write_active writes s a bytes)
unfolding write_active
write_active-Forwards writes s a bytes =
    elim (writes a.stream)
      as (λ b. Forwards s bytes (
        if b
        then (ok FrameForward.sent, record s { sent = (a.stream, bytes) ∷ s.sent })
        else (err write_failed, record s { active = none; shut = a.stream ∷ s.shut }))) [
          | true ↦ (a.stream, refl)
          | false ↦ refl
        ]

-- A target is never what says that a frame was sent.
check_target-not_sent :
    (a : ActiveConnection) (target : Option FrameTarget)
    → check_target a target ≢ some FrameForward.sent
unfolding check_target
check_target-not_sent a none e = absurd (ground arith)
check_target-not_sent a (some target) e = absurd (ground arith)

forward_active-Forwards :
    (writes : ℕ → Bool) (s : Server) (a : ActiveConnection) (bytes : List ℕ) (format : PixelFormat)
    (refused : Option FrameForward)
    → refused ≢ some FrameForward.sent
    → Forwards s bytes (forward_active writes s a bytes format refused)
unfolding forward_active
forward_active-Forwards writes s a bytes format (some FrameForward.sent) n = absurd (n refl)
forward_active-Forwards writes s a bytes format (some FrameForward.no_connection) n = refl
forward_active-Forwards writes s a bytes format (some FrameForward.unsupported_pixel_format) n =
    refl
forward_active-Forwards writes s a bytes format (some FrameForward.connection_changed) n = refl
forward_active-Forwards writes s a bytes format (some FrameForward.viewport_changed) n = refl
forward_active-Forwards writes s a bytes format none n =
    elim (supports a.pixel_formats format)
      as (λ b. Forwards s bytes (
        if b
        then write_active writes s a bytes
        else (ok FrameForward.unsupported_pixel_format, s))) [
          | true ↦ write_active-Forwards writes s a bytes
          | false ↦ refl
        ]

forward_locked-Forwards :
    (writes : ℕ → Bool) (s : Server) (bytes : List ℕ) (format : PixelFormat)
    (target : Option FrameTarget) (active : Option ActiveConnection)
    → Forwards s bytes (forward_locked writes s bytes format target active)
unfolding forward_locked
forward_locked-Forwards writes s bytes format target none = refl
forward_locked-Forwards writes s bytes format target (some a) =
    forward_active-Forwards writes s a bytes format (check_target a target)
      (check_target-not_sent a target)

forward-Forwards :
    (writes : ℕ → Bool) (s : Server) (bytes : List ℕ) (format : PixelFormat)
    (target : Option FrameTarget)
    → Forwards s bytes (forward writes s bytes format target)
unfolding forward forward_frame forward_frame_to forward_frame_inner
forward-Forwards writes s bytes format none =
    forward_locked-Forwards writes s bytes format none s.active
forward-Forwards writes s bytes format (some target) =
    forward_locked-Forwards writes s bytes format (some target) s.active

encoded_next-eq :
    {D : Type 0} (s : FrameSender D) (encode : ℕ → Result SendError (List ℕ)) {next : ℕ}
    {bytes : List ℕ}
    → encoded_next s encode ≡ ok (next, bytes)
    → (next ≡ s.next_frame_id + 1) × (encode s.next_frame_id ≡ ok bytes)
unfolding encoded_next
encoded_next-eq s encode e = (ground arith, ground arith)

module _ (diagnostics : Diagnostics) where
  abbrev D : Type 0
  D = diagnostics.DiagnosticFrame

  -- Nothing of the sender has changed but the connection, and that has taken no write.
  pub record IsUnsent (before after : FrameSender D) : Type 0 where
    pub wire : after.server.sent ≡ before.server.sent
    pub next : after.next_frame_id ≡ before.next_frame_id
    pub authoritative : after.authoritative ≡ before.authoritative
    pub last : after.last_application_frame ≡ before.last_application_frame

  -- The frame has been written under the next number, and is the authoritative one.
  pub record IsSent (before after : FrameSender D) (encode : ℕ → Result SendError (List ℕ))
      (frame : AuthoritativeFrame D) (sent : SentFrame) : Type 0 where
    pub stream : ℕ
    pub bytes : List ℕ
    pub encoded : encode before.next_frame_id ≡ ok bytes
    pub number : sent.frame_id ≡ before.next_frame_id
    pub len : sent.encoded_len ≡ length bytes
    pub viewport : sent.application_viewport ≡ application_viewport_of diagnostics frame
    pub wire : after.server.sent ≡ (stream, bytes) ∷ before.server.sent
    pub next : after.next_frame_id ≡ before.next_frame_id + 1
    pub authoritative : after.authoritative ≡ some frame
    pub last :
        after.last_application_frame
        ≡ kept_application diagnostics frame before.last_application_frame

  abbrev pub Outcome :
      FrameSender D
      → (ℕ → Result SendError (List ℕ))
      → AuthoritativeFrame D
      → Sending D (Option SentFrame)
      → Type 0
  Outcome before encode frame (ok (some sent), after) = IsSent before after encode frame sent
  Outcome before encode frame (ok none, after) = IsUnsent before after
  Outcome before encode frame (err e, after) = IsUnsent before after

  unsent :
      (s : FrameSender D) (server : Server)
      → server.sent ≡ s.server.sent
      → IsUnsent s (record s { server = server })
  unsent s server e = record { wire = e; next = refl; authoritative = refl; last = refl }

  advanced-Outcome :
      (s : FrameSender D) (next : ℕ) (bytes : List ℕ) (encode : ℕ → Result SendError (List ℕ))
      (frame : AuthoritativeFrame D) (r : Result ServerError FrameForward × Server)
      → next ≡ s.next_frame_id + 1
      → encode s.next_frame_id ≡ ok bytes
      → Forwards s.server bytes r
      → Outcome s encode frame (advanced diagnostics s next bytes frame r)
  unfolding advanced
  advanced-Outcome s next bytes encode frame (ok FrameForward.sent, server) en eb (stream, w) =
      record {
        stream = stream;
        bytes = bytes;
        encoded = eb;
        number = refl;
        len = refl;
        viewport = refl;
        wire = w;
        next = en;
        authoritative = refl;
        last = refl;
      }
  advanced-Outcome s next bytes encode frame (ok FrameForward.no_connection, server) en eb w =
      unsent s server w
  advanced-Outcome s next bytes encode frame (ok FrameForward.unsupported_pixel_format, server) en
        eb w =
      unsent s server w
  advanced-Outcome s next bytes encode frame (ok FrameForward.connection_changed, server) en eb w =
      unsent s server w
  advanced-Outcome s next bytes encode frame (ok FrameForward.viewport_changed, server) en eb w =
      unsent s server w
  advanced-Outcome s next bytes encode frame (err e, server) en eb w = unsent s server w

  -- A frame that is sent takes the next number and becomes the authoritative one; where none is sent,
  -- for an error or for want of a connection, the number stays free and what was retained stays.
  pub send_locked-Outcome :
      (writes : ℕ → Bool) (s : FrameSender D) (format : PixelFormat) (target : Option FrameTarget)
      (encode : ℕ → Result SendError (List ℕ)) (frame : AuthoritativeFrame D)
      → Outcome s encode frame (send_locked diagnostics writes s format target encode frame)
  unfolding send_locked send_encoded
  send_locked-Outcome writes s format target encode frame =
      elim (Result-cases (encoded_next s encode)) [
        | inl ((next, bytes), e) ↦
            let (en, eb) = encoded_next-eq s encode e in
            rw e (
              advanced-Outcome s next bytes encode frame
                (forward writes s.server bytes format target) en eb
                (forward-Forwards writes s.server bytes format target))
        | inr (reason, e) ↦ rw e (unsent s s.server refl)
      ]
