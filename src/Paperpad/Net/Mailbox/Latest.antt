-- ===== src/Paperpad/Net/Mailbox/Latest.antt =====
-- The mailbox holds at most one frame, the latest that fits the viewport.
use mathlib.Core.Path.{subst, sym}
use rust_x11_hello.Prelude.{
  ℕ, ◌≡◌, ◌↔◌, inl, inr, List, [], ◌∷◌, arith, Option, none, some, true, false, if◌then◌else◌, refl,
  Bool-cases,
}
use rust_x11_hello.Paperpad.Net.Frames.{ReceivedFrame}
use rust_x11_hello.Paperpad.Net.Mailbox.{
  same_size, size_of, drop_mismatched, set_viewport, publish, take_frame, MailboxOp, resize, arrive,
  poll, after, mailbox_step,
}

-- The viewport that the latest resize set.
unfoldable pub viewport_of : List MailboxOp → ℕ × ℕ
viewport_of [] = (0, 0)
viewport_of (resize v ∷ past) = v
viewport_of (_ ∷ past) = viewport_of past

-- Frame `f` waits behind `past`: it arrived when the viewport had its dimensions, and since then
-- nothing was polled, every resize was to its dimensions, and no frame of the viewport arrived.
pub data Waits (f : ReceivedFrame) : List MailboxOp → Type 0 where
  arrived :
      {past : List MailboxOp}
      → same_size (size_of f) (viewport_of past) ≡ true
      → Waits f (arrive f ∷ past)
  same_viewport :
      {past : List MailboxOp} (v : ℕ × ℕ)
      → same_size (size_of f) v ≡ true
      → Waits f past
      → Waits f (resize v ∷ past)
  other_refused :
      {past : List MailboxOp} (g : ReceivedFrame)
      → same_size (size_of g) (viewport_of past) ≡ false
      → Waits f past
      → Waits f (arrive g ∷ past)

viewport-after : (past : List MailboxOp) → (after past).viewport ≡ viewport_of past
unfolding after viewport_of
viewport-after [] = refl
viewport-after (resize v ∷ past) = refl
viewport-after (arrive f ∷ past) = ground (arith, viewport-after past)
viewport-after (poll ∷ past) = viewport-after past

drop_mismatched-eq-some :
    (v : ℕ × ℕ) (o : Option ReceivedFrame) (f : ReceivedFrame)
    → drop_mismatched v o ≡ some f
    → (o ≡ some f) × (same_size (size_of f) v ≡ true)
drop_mismatched-eq-some v none f e = absurd (ground arith)
drop_mismatched-eq-some v (some g) f e = ground arith

drop_mismatched-some :
    (v : ℕ × ℕ) (o : Option ReceivedFrame) (f : ReceivedFrame)
    → o ≡ some f
    → same_size (size_of f) v ≡ true
    → drop_mismatched v o ≡ some f
drop_mismatched-some v o f e fits = rw e (rw fits)

pending-arrive :
    (past : List MailboxOp) (f : ReceivedFrame)
    → (after (arrive f ∷ past)).pending
      ≡ (if same_size (size_of f) (viewport_of past) then some f else (after past).pending)
unfolding after mailbox_step publish
pending-arrive past f =
    subst
      (λ v.
        (publish (after past) f).1.pending
        ≡ (if same_size (size_of f) v then some f else (after past).pending))
      (viewport-after past) (ground arith)

pending-resize :
    (past : List MailboxOp) (v : ℕ × ℕ)
    → (after (resize v ∷ past)).pending ≡ drop_mismatched v (after past).pending
unfolding after mailbox_step set_viewport
pending-resize past v = refl

pending-poll : (past : List MailboxOp) → (after (poll ∷ past)).pending ≡ none
unfolding after mailbox_step take_frame
pending-poll past = refl

Waits-pending :
    (f : ReceivedFrame) {past : List MailboxOp} → Waits f past → (after past).pending ≡ some f
Waits-pending f (arrived {past} fits) = rw (pending-arrive past f, fits)
Waits-pending f (same_viewport {past} v fits w) =
    rw (pending-resize past v)
      (drop_mismatched-some v (after past).pending f (Waits-pending f w) fits)
Waits-pending f (other_refused {past} g misfit w) =
    rw (pending-arrive past g, misfit) (Waits-pending f w)

pending-Waits :
    (f : ReceivedFrame) (past : List MailboxOp) → (after past).pending ≡ some f → Waits f past
pending-Waits f [] e = absurd (unfold after in ground arith)
pending-Waits f (resize v ∷ past) e =
    let (waited, fits) =
      drop_mismatched-eq-some v (after past).pending f (rw (pending-resize past v) at e) in
    same_viewport v fits (pending-Waits f past waited)
pending-Waits f (arrive g ∷ past) e = elim (Bool-cases (same_size (size_of g) (viewport_of past))) [
  | inl fits ↦
      let same : g ≡ f = ground (arith, pending-arrive past g) in
      subst (λ x. Waits f (arrive x ∷ past)) (sym same)
        (arrived (subst (λ x. same_size (size_of x) (viewport_of past) ≡ true) same fits))
  | inr misfit ↦
      other_refused g misfit (pending-Waits f past (ground (arith, pending-arrive past g)))
]
pending-Waits f (poll ∷ past) e = absurd (ground (arith, pending-poll past))

-- After any operations, in whatever order the reader and the event loop took the lock, a poll takes
-- frame `f` exactly if `f` waits: it came while the viewport had its dimensions, and since then no
-- poll took it, no resize was to other dimensions and no newer frame of the viewport replaced it.
pub take_frame_iff :
    (past : List MailboxOp) (f : ReceivedFrame)
    → ((take_frame (after past)).0 ≡ some f) ↔ Waits f past
unfolding take_frame
take_frame_iff past f = (pending-Waits f past, Waits-pending f)

Waits-size :
    (f : ReceivedFrame) {past : List MailboxOp}
    → Waits f past
    → same_size (size_of f) (viewport_of past) ≡ true
unfolding viewport_of
Waits-size f (arrived fits) = fits
Waits-size f (same_viewport v fits w) = fits
Waits-size f (other_refused g misfit w) = Waits-size f w

-- A frame that a poll takes has the dimensions of the viewport at that moment.
pub take_frame-size :
    (past : List MailboxOp) (f : ReceivedFrame)
    → (take_frame (after past)).0 ≡ some f
    → same_size (size_of f) (after past).viewport ≡ true
take_frame-size past f e = rw (viewport-after past) (Waits-size f ((take_frame_iff past f).0 e))
