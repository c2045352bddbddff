-- ===== src/Paperpad/Net/Connection/Written.antt =====
-- The bytes that the writer takes from the queue: which socket gets them, and what a failure does.
use rust_x11_hello.Prelude.{
  ℕ, ◌≡◌, inl, inr, refl, arith, List, [], ◌∷◌, Bool, true, false, if◌then◌else◌, ◌<◌, ◌==◌, Option,
  none, some, take, Result, ok, err, Bool-cases, ap, sym, ◌∙◌,
}
use rust_x11_hello.Paperpad.Net.Connection.{
  ConnectionState, disconnected, connected, ConnectionError, not_connected, clone_failed,
  connection_changed, write_failed, ConnectionStream, Shared, clone_stream_for, disconnect,
  reconnect, is_current, disconnect_if_current, taken, after_write, write_to, write_outbound,
}
use rust_x11_hello.Paperpad.Net.Connection.Current.{
  NetOp, leave, install, write_error, net_step, net_after, write_error-current, write_error-other,
  Undisturbed, IsFresh, net_after-IsFresh, Undisturbed-current, current-Undisturbed,
}
use rust_x11_hello.Paperpad.Net.Connection.Stale.{fresh_token}

-- The operations under the lock neither read nor change what the sockets took.
write_error-logged :
    (s : Shared) (c : ConnectionStream) (log : List (ℕ × List ℕ))
    → net_step (record s { received = log }) (write_error c)
      ≡ record (net_step s (write_error c)) { received = log }
write_error-logged s c log = elim (Bool-cases (is_current s.state c.token)) [
  | inl same ↦
      write_error-current (record s { received = log }) c same
      ∙ unfold disconnect in
        ap (λ (s' : Shared). record s' { received = log }) (sym (write_error-current s c same))
  | inr other ↦
      write_error-other (record s { received = log }) c other
      ∙ ap (λ (s' : Shared). record s' { received = log }) (sym (write_error-other s c other))
]

net_step-logged :
    (s : Shared) (op : NetOp) (log : List (ℕ × List ℕ))
    → net_step (record s { received = log }) op ≡ record (net_step s op) { received = log }
net_step-logged s leave log = unfold net_step disconnect in refl
net_step-logged s (install stream) log = unfold net_step disconnect reconnect in refl
net_step-logged s (write_error c) log = write_error-logged s c log

net_after-logged :
    (s : Shared) (ops : List NetOp) (log : List (ℕ × List ℕ))
    → net_after (record s { received = log }) ops ≡ record (net_after s ops) { received = log }
unfolding net_after
net_after-logged s [] log = refl
net_after-logged s (op ∷ past) log =
    ap (λ s'. net_step s' op) (net_after-logged s past log)
    ∙ net_step-logged (net_after s past) op log

net_after-received : (s : Shared) (ops : List NetOp) → (net_after s ops).received ≡ s.received
net_after-received s ops = ap (λ (s' : Shared). s'.received) (net_after-logged s ops s.received)

-- Without its connection there is no socket to clone.
not_cloned :
    (cloned : Bool) (state : ConnectionState) (token : ℕ)
    → is_current state token ≡ false
    → (e : ConnectionError) × (clone_stream_for cloned state token ≡ err e)
unfolding clone_stream_for is_current
not_cloned cloned disconnected token other = (not_connected, refl)
not_cloned cloned (connected t stream) token other = (connection_changed, ground (arith, other))

not_clonable :
    (state : ConnectionState) (token : ℕ)
    → (e : ConnectionError) × (clone_stream_for false state token ≡ err e)
unfolding clone_stream_for
not_clonable disconnected token = (not_connected, refl)
not_clonable (connected t stream) token = elim (Bool-cases (t == token)) [
  | inl same ↦ (clone_failed, ground (arith, same))
  | inr other ↦ (connection_changed, ground (arith, other))
]

is_current-connected :
    {state : ConnectionState} (token stream : ℕ)
    → state ≡ connected token stream
    → is_current state token ≡ true
is_current-connected token stream e = rw e (unfold is_current in ground arith)

module _ (s : Shared) (token stream : ℕ) (queued : List NetOp)
    (fresh : IsFresh s.state s.next_token) (here : s.state ≡ connected token stream) where
  abbrev taking : Shared
  taking = net_after s queued

  module _ (during : List NetOp) (writes : ℕ → Option ℕ) (bytes : List ℕ) where
    abbrev later : Shared
    later = net_after taking during

    abbrev outcome : Result ConnectionError (Unit {0}) × Shared
    outcome = write_outbound true writes (λ s. net_after s during) taking token bytes

    outcome-eq :
        Undisturbed token queued
        → outcome
          ≡ after_write
              (writes stream)
              (record later { received = (stream, taken (writes stream) bytes) ∷ s.received })
              (record { token = token; stream = stream })
    unfolding write_outbound write_to
    outcome-eq u =
        let state = current-Undisturbed s token stream queued here u in
        let cloned : clone_stream_for true taking.state token
            ≡ ok (record { token = token; stream = stream }) =
          rw state (unfold clone_stream_for in ground arith) in
        rw
          (
            cloned,
            net_after-logged taking during
                ((stream, taken (writes stream) bytes) ∷ taking.received),
            net_after-received s queued,
          )
          refl

    still_current :
        Undisturbed token queued → Undisturbed token during → is_current later.state token ≡ true
    still_current u v = is_current-connected token stream (
        current-Undisturbed taking token stream during
          (current-Undisturbed s token stream queued here u) v)

    not_current :
        Undisturbed token queued → ¬ Undisturbed token during → is_current later.state token ≡ false
    not_current u v = elim (Bool-cases (is_current later.state token)) [
      | inl same ↦ absurd (v (Undisturbed-current taking token during used same))
      | inr other ↦ other
    ]
      where
        used : token < taking.next_token
        used =
            fresh_token token stream (current-Undisturbed s token stream queued here u)
              (net_after-IsFresh s queued fresh)

    failed :
        (current : Bool) (log : List (ℕ × List ℕ))
        → is_current later.state token ≡ current
        → (disconnect_if_current
            (record later { received = log })
            (record { token = token; stream = stream })).1
          ≡ record (if current then disconnect later else later) { received = log }
    unfolding disconnect_if_current disconnect
    failed true log e = ground (arith, e)
    failed false log e = ground (arith, e)

    -- Bytes are queued while the connection of the token is current. If no thread leaves or replaces
    -- that connection until the writer takes them, its socket, and no other, gets them: all, or the
    -- first ones until a write fails, whatever the other threads do meanwhile. The state is then what
    -- the others made of it; but after a failure the connection is left, exactly if no thread left or
    -- replaced it during the write, and a newer one stays. If a thread leaves or replaces the
    -- connection before, or if the system does not clone the socket, no socket gets any byte, nothing
    -- changes, and the writer gets an error.
    pub write_outbound_lem :
        (Undisturbed token queued
          → writes stream ≡ none
          → outcome ≡ (ok tt, record later { received = (stream, bytes) ∷ s.received }))
        × ((n : ℕ)
            → Undisturbed token queued
            → writes stream ≡ some n
            → Undisturbed token during
            → outcome ≡ (
              err write_failed,
              record (disconnect later) { received = (stream, take n bytes) ∷ s.received },
            ))
        × ((n : ℕ)
            → Undisturbed token queued
            → writes stream ≡ some n
            → ¬ Undisturbed token during
            → outcome
              ≡ (err write_failed, record later { received = (stream, take n bytes) ∷ s.received }))
        × (¬ Undisturbed token queued → (e : ConnectionError) × (outcome ≡ (err e, taking)))
        × ((e : ConnectionError) × (write_outbound false writes
                (λ s. net_after s during)
                taking
                token
                bytes
              ≡ (err e, taking)))
    unfolding after_write taken
    write_outbound_lem = (
      λ u w. outcome-eq u ∙ rw w refl,
      λ n u w v.
          outcome-eq u
          ∙ rw w (
              ap (λ (r : Shared). (err write_failed, r))
                (failed true ((stream, take n bytes) ∷ s.received) (still_current u v))),
      λ n u w v.
          outcome-eq u
          ∙ rw w (
              ap (λ (r : Shared). (err write_failed, r))
                (failed false ((stream, take n bytes) ∷ s.received) (not_current u v))),
      λ n.
          let (e, refused) = not_cloned true taking.state token (gone n) in
          (e, unfold write_outbound write_to in rw refused refl),
      (let (e, refused) = not_clonable taking.state token in
          (e, unfold write_outbound write_to in rw refused refl)),
    )
      where
        gone : ¬ Undisturbed token queued → is_current taking.state token ≡ false
        gone n = elim (Bool-cases (is_current taking.state token)) [
          | inl same ↦
              absurd
                (n (Undisturbed-current s token queued (fresh_token token stream here fresh) same))
          | inr other ↦ other
        ]
