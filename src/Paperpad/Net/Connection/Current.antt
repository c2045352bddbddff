-- ===== src/Paperpad/Net/Connection/Current.antt =====
-- A token is current as long as its connection was neither left nor replaced.
use mathlib.Core.Path.{subst}
use rust_x11_hello.Prelude.{
  ℕ, ◌≡◌, ◌≢◌, ◌≤◌, ◌<◌, inl, inr, arith, List, [], ◌∷◌, true, false, Bool-cases, ap, sym, ◌∙◌,
}
use rust_x11_hello.Paperpad.Net.Connection.{
  ConnectionState, disconnected, connected, ConnectionStream, Shared, disconnect, reconnect,
  is_current, disconnect_if_current,
}

-- What the threads do under the lock: the reconnector leaves a connection and installs another one,
-- and a writer whose write to a socket failed leaves that connection.
pub data NetOp : Type 0 where
  leave : NetOp
  install : ℕ → NetOp
  write_error : ConnectionStream → NetOp

unfoldable pub net_step : Shared → NetOp → Shared
unfolding disconnect reconnect disconnect_if_current
net_step s leave = disconnect s
net_step s (install stream) = reconnect s stream
net_step s (write_error candidate) = (disconnect_if_current s candidate).1

-- The state that `s` becomes by operations in the order of the lock, the latest one first.
unfoldable pub net_after : Shared → List NetOp → Shared
net_after s [] = s
net_after s (op ∷ past) = net_step (net_after s past) op

-- Among `ops` nothing leaves or replaces the connection of `token`.
abbrev pub Undisturbed : ℕ → List NetOp → Type 0
Undisturbed token [] = Unit {0}
Undisturbed token (leave ∷ past) = ⊥
Undisturbed token (install stream ∷ past) = ⊥
Undisturbed token (write_error candidate ∷ past) =
    (candidate.token ≢ token) × Undisturbed token past

-- The current token has been handed out.
unfoldable pub IsFresh : ConnectionState → ℕ → Type 0
IsFresh disconnected next = Unit {0}
IsFresh (connected token stream) next = token < next

pub write_error-current :
    (s : Shared) (c : ConnectionStream)
    → is_current s.state c.token ≡ true
    → net_step s (write_error c) ≡ disconnect s
unfolding net_step disconnect_if_current
write_error-current s c e = ground (arith, e)

pub write_error-other :
    (s : Shared) (c : ConnectionStream)
    → is_current s.state c.token ≡ false
    → net_step s (write_error c) ≡ s
unfolding net_step disconnect_if_current
write_error-other s c e = ground (arith, e)

net_step-IsFresh :
    (s : Shared) (op : NetOp)
    → IsFresh s.state s.next_token
    → IsFresh (net_step s op).state (net_step s op).next_token
unfolding net_step disconnect reconnect IsFresh
net_step-IsFresh s leave fresh = tt
net_step-IsFresh s (install stream) fresh = omega arith
net_step-IsFresh s (write_error candidate) fresh =
    elim (Bool-cases (is_current s.state candidate.token)) [
      | inl same ↦
          subst (λ s'. IsFresh s'.state s'.next_token) (sym (write_error-current s candidate same))
            tt
      | inr other ↦
          subst (λ s'. IsFresh s'.state s'.next_token) (sym (write_error-other s candidate other))
            fresh
    ]

pub net_after-IsFresh :
    (s : Shared) (ops : List NetOp)
    → IsFresh s.state s.next_token
    → IsFresh (net_after s ops).state (net_after s ops).next_token
unfolding net_after
net_after-IsFresh s [] fresh = fresh
net_after-IsFresh s (op ∷ past) fresh =
    net_step-IsFresh (net_after s past) op (net_after-IsFresh s past fresh)

net_step-next : (s : Shared) (op : NetOp) → s.next_token ≤ (net_step s op).next_token
unfolding net_step disconnect reconnect disconnect_if_current
net_step-next s leave = omega arith
net_step-next s (install stream) = omega arith
net_step-next s (write_error candidate) = ground arith

net_after-next : (s : Shared) (ops : List NetOp) → s.next_token ≤ (net_after s ops).next_token
unfolding net_after
net_after-next s [] = omega arith
net_after-next s (op ∷ past) =
    omega (arith, net_after-next s past, net_step-next (net_after s past) op)

pub is_current_only :
    (state : ConnectionState) (token other : ℕ)
    → is_current state token ≡ true
    → is_current state other ≡ false
    → other ≢ token
is_current_only state token other e n same = ground (arith, ap (is_current state) same)

left-not_current : (token : ℕ) → is_current disconnected token ≢ true
unfolding is_current
left-not_current token e = ground arith

installed-not_current :
    (token next stream : ℕ) → token < next → is_current (connected next stream) token ≢ true
unfolding is_current
installed-not_current token next stream old e = ground arith

-- An operation that leaves a current token current has done nothing.
write_error_still :
    (s : Shared) (token : ℕ) (c : ConnectionStream)
    → is_current (net_step s (write_error c)).state token ≡ true
    → (c.token ≢ token) × (is_current s.state token ≡ true)
write_error_still s token c e = elim (Bool-cases (is_current s.state c.token)) [
  | inl same ↦ absurd (
      left-not_current token (
        unfold disconnect in
        subst (λ s'. is_current s'.state token ≡ true) (write_error-current s c same) e))
  | inr other ↦
      let here : is_current s.state token ≡ true =
        subst (λ s'. is_current s'.state token ≡ true) (write_error-other s c other) e in
      (is_current_only s.state token c.token here other, here)
]

pub Undisturbed-current :
    (s : Shared) (token : ℕ) (ops : List NetOp)
    → token < s.next_token
    → is_current (net_after s ops).state token ≡ true
    → Undisturbed token ops
unfolding net_after net_step disconnect reconnect
Undisturbed-current s token [] old e = tt
Undisturbed-current s token (leave ∷ past) old e = left-not_current token e
Undisturbed-current s token (install stream ∷ past) old e =
    installed-not_current token (net_after s past).next_token stream
      (omega (arith, net_after-next s past)) e
Undisturbed-current s token (write_error candidate ∷ past) old e =
    let (apart, here) = write_error_still (net_after s past) token candidate e in
    (apart, Undisturbed-current s token past old here)

apart-not_current :
    {state : ConnectionState} (token stream other : ℕ)
    → state ≡ connected token stream
    → other ≢ token
    → is_current state other ≡ false
apart-not_current token stream other e apart = rw e (unfold is_current in ground arith)

pub current-Undisturbed :
    (s : Shared) (token stream : ℕ) (ops : List NetOp)
    → s.state ≡ connected token stream
    → Undisturbed token ops
    → (net_after s ops).state ≡ connected token stream
unfolding net_after
current-Undisturbed s token stream [] e u = e
current-Undisturbed s token stream (leave ∷ past) e u = absurd u
current-Undisturbed s token stream (install other ∷ past) e u = absurd u
current-Undisturbed s token stream (write_error candidate ∷ past) e (apart, u) =
    let here = current-Undisturbed s token stream past e u in
    ap (λ (s' : Shared). s'.state)
      (write_error-other (net_after s past) candidate
        (apart-not_current token stream candidate.token here apart))
    ∙ here
