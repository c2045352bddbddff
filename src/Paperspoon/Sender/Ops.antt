-- ===== src/Paperspoon/Sender/Ops.antt =====
-- The sender under all of its operations, and those of the connection, in any order.
use rust_x11_hello.Prelude.{
  ℕ, ◌+◌, ◌≡◌, ◌∙◌, sym, arith, List, ◌∷◌, Option, none, some, Result, ok, err, Result-cases, inl,
  inr,
}
use rust_x11_hello.Protocol.Frame.{Mono1Frame, Frame, mono1_frame}
use rust_x11_hello.Protocol.Payload.{encode_v2_frame}
use rust_x11_hello.Paperspoon.Sender.{
  Diagnostics, AuthoritativeFrame, application, FrameSender, SentFrame, SendError, Sending,
  and_then, encode_frame, encode_diagnostic, kept_application,
}
use rust_x11_hello.Paperspoon.Sender.Sends.{application_sent}
use rust_x11_hello.Paperspoon.Sender.Numbered.{
  IsNumberedFrame, Numbered, another, IsUnsent, IsSent, Outcome,
}

pub encode_frame-IsNumberedFrame :
    (frame : Frame) (frame_id : ℕ) (bytes : List ℕ)
    → encode_frame frame frame_id ≡ ok bytes
    → encode_v2_frame frame_id frame ≡ ok bytes
unfolding encode_frame
encode_frame-IsNumberedFrame frame frame_id bytes e =
    elim (Result-cases (encode_v2_frame frame_id frame)) [
      | inl (done, made) ↦ ground (arith, made, e)
      | inr (reason, failed) ↦ absurd (ground (arith, failed, e))
    ]

-- The encoder of diagnostic frames makes messages of frames.
abbrev pub IsEncoder : Diagnostics → Type 0
IsEncoder diagnostics =
    (d : diagnostics.DiagnosticFrame) (frame_id : ℕ) (bytes : List ℕ)
    → diagnostics.encode d frame_id ≡ some bytes
    → IsNumberedFrame frame_id bytes

module _ (diagnostics : Diagnostics) (encoder : IsEncoder diagnostics) where
  abbrev D : Type 0
  D = diagnostics.DiagnosticFrame

  -- The last write is the message of this application frame.
  pub record IsLast (f : Mono1Frame) (s : FrameSender D) : Type 0 where
    pub stream : ℕ
    pub bytes : List ℕ
    pub earlier : List (ℕ × List ℕ)
    pub frame_id : ℕ
    pub wire : s.server.sent ≡ (stream, bytes) ∷ earlier
    pub number : frame_id + 1 ≡ s.next_frame_id
    pub message : encode_v2_frame frame_id (mono1_frame f) ≡ ok bytes

  pub record IsSender (s : FrameSender D) : Type 0 where
    pub numbered : Numbered s.server.sent s.next_frame_id
    pub last : (f : Mono1Frame) → s.last_application_frame ≡ some f → IsLast f s

  pub encode_diagnostic-IsNumberedFrame :
      (d : D) (frame_id : ℕ) (bytes : List ℕ)
      → encode_diagnostic diagnostics d frame_id ≡ ok bytes
      → IsNumberedFrame frame_id bytes
  unfolding encode_diagnostic
  encode_diagnostic-IsNumberedFrame d frame_id bytes e =
      encoder d frame_id bytes (ground (arith, e))

  pub unsent-IsSender :
      (s after : FrameSender D) → IsSender s → IsUnsent diagnostics s after → IsSender after
  unsent-IsSender s after v u = record {
    numbered = rw (u.wire, u.next) v.numbered;
    last = λ f e.
        let l = v.last f (sym u.last ∙ e) in
        record {
          stream = l.stream;
          bytes = l.bytes;
          earlier = l.earlier;
          frame_id = l.frame_id;
          wire = u.wire ∙ l.wire;
          number = l.number ∙ sym u.next;
          message = l.message;
        };
  }

  sent-Numbered :
      (s after : FrameSender D) (encode : ℕ → Result SendError (List ℕ))
      (frame : AuthoritativeFrame D) (sent : SentFrame)
      → ((id : ℕ) (bytes : List ℕ) → encode id ≡ ok bytes → IsNumberedFrame id bytes)
      → IsSender s
      → IsSent diagnostics s after encode frame sent
      → Numbered after.server.sent after.next_frame_id
  sent-Numbered s after encode frame sent law v o =
      rw (o.wire, o.next)
        (another o.stream o.bytes (law s.next_frame_id o.bytes o.encoded) v.numbered)

  -- A frame that is no application frame
  pub other_sent :
      (s : FrameSender D) (encode : ℕ → Result SendError (List ℕ)) (frame : AuthoritativeFrame D)
      (r : Sending D (Option SentFrame))
      → ((id : ℕ) (bytes : List ℕ) → encode id ≡ ok bytes → IsNumberedFrame id bytes)
      → ((last : Option Mono1Frame) → kept_application diagnostics frame last ≡ none)
      → IsSender s
      → Outcome diagnostics s encode frame r
      → IsSender r.1
  other_sent s encode frame (ok (some sent), after) law drops v o = record {
    numbered = sent-Numbered s after encode frame sent law v o;
    last = λ f e. absurd (ground (arith, e, o.last, drops s.last_application_frame));
  }
  other_sent s encode frame (ok none, after) law drops v o = unsent-IsSender s after v o
  other_sent s encode frame (err e, after) law drops v o = unsent-IsSender s after v o

  -- An application frame
  pub application_sent-IsSender :
      (s : FrameSender D) (c : Mono1Frame) (viewport : ℕ × ℕ) (r : Sending D (Option SentFrame))
      → IsSender s
      → Outcome diagnostics s (encode_frame (mono1_frame c)) (application viewport) r
      → IsSender (and_then r (application_sent diagnostics c)).1
  unfolding and_then application_sent
  application_sent-IsSender s c viewport (ok (some sent), after) v o = record {
    numbered =
        sent-Numbered s after (encode_frame (mono1_frame c)) (application viewport) sent
          (λ id bytes e. (mono1_frame c, encode_frame-IsNumberedFrame (mono1_frame c) id bytes e)) v
          o;
    last = λ f e.
        let same : c ≡ f = cc e in
        record {
          stream = o.stream;
          bytes = o.bytes;
          earlier = s.server.sent;
          frame_id = s.next_frame_id;
          wire = o.wire;
          number = sym o.next;
          message =
              rw (← same)
                (encode_frame-IsNumberedFrame (mono1_frame c) s.next_frame_id o.bytes o.encoded);
        };
  }
  application_sent-IsSender s c viewport (ok none, after) v o = unsent-IsSender s after v o
  application_sent-IsSender s c viewport (err e, after) v o = unsent-IsSender s after v o
