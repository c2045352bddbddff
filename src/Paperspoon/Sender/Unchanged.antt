-- ===== src/Paperspoon/Sender/Unchanged.antt =====
-- When an application frame is not sent again.
use rust_x11_hello.Prelude.{
  ℕ, ◌≡◌, ◌≢◌, ◌↔◌, refl, ap, ap₂, arith, List, [], ◌∷◌, Bool, true, false, ◌&&◌, Option, none,
  some, Result, ok, err, is_some,
}
use rust_x11_hello.Protocol.Frame.{mono1, Mono1Frame, mono1_frame}
use rust_x11_hello.Paperspoon.Sender.{
  Diagnostics, AuthoritativeFrame, application, diagnostic, jpeg, now_playing, FrameSender,
  SentFrame, unchanged, SendError, Sending, and_then, encode_frame, send_locked,
}
use rust_x11_hello.Paperspoon.Sender.Sends.{
  same_pixels, same_frame, is_last, shows_application, application_sent, send_candidate,
  send_application_locked, send_application,
}
use rust_x11_hello.Paperspoon.Sender.Ops.{IsEncoder, IsLast}
use rust_x11_hello.Paperspoon.Sender.Trace.{SenderOp, sender_after, sender_after-IsSender}

same_pixels-eq : (xs ys : List ℕ) → same_pixels xs ys ≡ true → xs ≡ ys
unfolding same_pixels
same_pixels-eq [] [] e = refl
same_pixels-eq [] (y ∷ ys) e = absurd (ground arith)
same_pixels-eq (x ∷ xs) [] e = absurd (ground arith)
same_pixels-eq (x ∷ xs) (y ∷ ys) e =
    ap₂ ◌∷◌ (ground (arith, e)) (same_pixels-eq xs ys (ground (arith, e)))

same_pixels_refl : (xs : List ℕ) → same_pixels xs xs ≡ true
unfolding same_pixels
same_pixels_refl [] = refl
same_pixels_refl (x ∷ xs) = ground (arith, same_pixels_refl xs)

is_last-eq : (o : Option Mono1Frame) (c : Mono1Frame) → is_last o c ≡ true → o ≡ some c
unfolding is_last same_frame
is_last-eq none c e = absurd (ground arith)
is_last-eq (some f) c e =
    let ew : f.width ≡ c.width = ground (arith, e) in
    let eh : f.height ≡ c.height = ground (arith, e) in
    let es : f.stride ≡ c.stride = ground (arith, e) in
    let ep : f.pixels ≡ c.pixels = same_pixels-eq f.pixels c.pixels (ground (arith, e)) in
    ap some (cc (ew, eh, es, ep))

is_last_refl : (c : Mono1Frame) → is_last (some c) c ≡ true
unfolding is_last same_frame
is_last_refl c = ground (arith, same_pixels_refl c.pixels)

module _ (diagnostics : Diagnostics) where
  abbrev D : Type 0
  D = diagnostics.DiagnosticFrame

  shows_application-eq :
      (o : Option (AuthoritativeFrame D)) (viewport : ℕ × ℕ)
      → shows_application diagnostics o viewport ≡ true
      → o ≡ some (application viewport)
  unfolding shows_application
  shows_application-eq none viewport e = absurd (ground arith)
  shows_application-eq (some (application (w, h))) viewport e =
      let ew : w ≡ viewport.0 = ground (arith, e) in
      let eh : h ≡ viewport.1 = ground (arith, e) in cc (ew, eh)
  shows_application-eq (some (diagnostic d)) viewport e = absurd (ground arith)
  shows_application-eq (some (jpeg f)) viewport e = absurd (ground arith)
  shows_application-eq (some (now_playing f)) viewport e = absurd (ground arith)

  shows_application_refl :
      (viewport : ℕ × ℕ)
      → shows_application diagnostics (some (application viewport)) viewport ≡ true
  unfolding shows_application
  shows_application_refl viewport = ground arith

  -- A frame that is sent is not told to be unchanged.
  sent-not_unchanged :
      (c : Mono1Frame) (r : Sending D (Option SentFrame))
      → (and_then r (application_sent diagnostics c)).0 ≢ ok unchanged
  unfolding and_then application_sent
  sent-not_unchanged c (ok (some f), s) e = absurd (ground arith)
  sent-not_unchanged c (ok none, s) e = absurd (ground arith)
  sent-not_unchanged c (err reason, s) e = absurd (ground arith)

  abbrev suppresses : FrameSender D → ℕ × ℕ → Mono1Frame → Bool
  suppresses s viewport c =
      shows_application diagnostics s.authoritative viewport && is_last s.last_application_frame c

  candidate-unchanged :
      (writes : ℕ → Bool) (s : FrameSender D) (viewport : ℕ × ℕ) (b : Bool) (c : Mono1Frame)
      → (send_candidate diagnostics writes s viewport b (ok c)).0 ≡ ok unchanged
      → (is_some s.server.active ≡ true) × (b ≡ true) × (suppresses s viewport c ≡ true)
  unfolding send_candidate
  candidate-unchanged writes s viewport b c e = ground (
    arith,
    sent-not_unchanged c (
        send_locked diagnostics writes s mono1 none (encode_frame (mono1_frame c))
          (application viewport)),
  )

  error-not_unchanged :
      (writes : ℕ → Bool) (s : FrameSender D) (viewport : ℕ × ℕ) (b : Bool) (reason : SendError)
      → (send_candidate diagnostics writes s viewport b (err reason)).0 ≢ ok unchanged
  unfolding send_candidate
  error-not_unchanged writes s viewport b reason e = absurd (ground arith)

  -- What suppresses a frame
  abbrev pub Suppresses :
      FrameSender D → (ℕ → ℕ → Result SendError Mono1Frame) → ℕ × ℕ → Mono1Frame → Type 0
  Suppresses s render viewport c =
      (render viewport.0 viewport.1 ≡ ok c)
      × (is_some s.server.active ≡ true)
      × (s.authoritative ≡ some (application viewport))
      × (s.last_application_frame ≡ some c)

  rendered-unchanged :
      (writes : ℕ → Bool) (s : FrameSender D) (viewport : ℕ × ℕ) (b : Bool)
      (rendered : Result SendError Mono1Frame)
      → (send_candidate diagnostics writes s viewport b rendered).0 ≡ ok unchanged
      → (c : Mono1Frame) × (rendered ≡ ok c)
        × (is_some s.server.active ≡ true)
        × (b ≡ true)
        × (suppresses s viewport c ≡ true)
  rendered-unchanged writes s viewport b (ok c) e =
      let (active, on, same) = candidate-unchanged writes s viewport b c e in
      (c, refl, active, on, same)
  rendered-unchanged writes s viewport b (err reason) e =
      absurd (error-not_unchanged writes s viewport b reason e)

  unchanged-Suppresses :
      (writes : ℕ → Bool) (s : FrameSender D) (render : ℕ → ℕ → Result SendError Mono1Frame)
      (viewport : ℕ × ℕ)
      → (send_application diagnostics writes s render viewport).0 ≡ ok unchanged
      → (c : Mono1Frame) × Suppresses s render viewport c
  unfolding send_application send_application_locked
  unchanged-Suppresses writes s render viewport e =
      let (c, rendered, active, on, same) =
        rendered-unchanged writes s viewport true (render viewport.0 viewport.1) e in
      (
        c,
        (
          rendered,
          active,
          shows_application-eq s.authoritative viewport (ground (arith, same)),
          is_last-eq s.last_application_frame c (ground (arith, same)),
        ),
      )

  Suppresses-unchanged :
      (writes : ℕ → Bool) (s : FrameSender D) (render : ℕ → ℕ → Result SendError Mono1Frame)
      (viewport : ℕ × ℕ) (c : Mono1Frame)
      → Suppresses s render viewport c
      → (send_application diagnostics writes s render viewport).0 ≡ ok unchanged
  unfolding send_application send_application_locked send_candidate
  Suppresses-unchanged writes s render viewport c (rendered, active, authoritative, last) =
      let shown : shows_application diagnostics s.authoritative viewport ≡ true =
        rw authoritative (shows_application_refl viewport) in
      let same : is_last s.last_application_frame c ≡ true = rw last (is_last_refl c) in
      rw rendered (ground (arith, active, shown, same))

-- After any operations of the sender and of the connection, a request to send an application frame is
-- answered `Unchanged` exactly if PaperPad is connected, an application frame of this viewport is
-- authoritative and the frame rendered now is the one remembered; that frame is then the last one
-- written to any connection. Without suppression, as at a viewport change and at a Hello, the answer is
-- never `Unchanged`.
pub send_application_iff :
    (diagnostics : Diagnostics) (encoder : IsEncoder diagnostics)
    (ops : List (SenderOp diagnostics.DiagnosticFrame)) (writes : ℕ → Bool)
    (render : ℕ → ℕ → Result SendError Mono1Frame) (viewport : ℕ × ℕ)
    → (((send_application diagnostics writes (sender_after diagnostics ops) render viewport).0
          ≡ ok unchanged)
        ↔ ((c : Mono1Frame) × Suppresses diagnostics
              (sender_after diagnostics ops)
              render
              viewport
              c))
      × ((c : Mono1Frame)
          → (sender_after diagnostics ops).last_application_frame ≡ some c
          → IsLast diagnostics encoder c (sender_after diagnostics ops))
      × ((send_application_locked diagnostics writes
            (sender_after diagnostics ops)
            render
            viewport
            false).0
          ≢ ok unchanged)
unfolding send_application_locked
send_application_iff diagnostics encoder ops writes render viewport =
    let s = sender_after diagnostics ops in
    (
      (
        unchanged-Suppresses diagnostics writes s render viewport,
        λ (c, why). Suppresses-unchanged diagnostics writes s render viewport c why,
      ),
      (sender_after-IsSender diagnostics encoder ops).last,
      λ e.
          let (c, rendered, active, off, same) =
            rendered-unchanged diagnostics writes s viewport false (render viewport.0 viewport.1)
              e in
          ground (arith, off),
    )
