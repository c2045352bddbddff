-- ===== src/Paperpad/Net/Connection/Stale.antt =====
-- A token whose connection was left or replaced does nothing to a newer connection.
use mathlib.Core.Path.{subst}
use rust_x11_hello.Prelude.{ℕ, ◌≡◌, ◌<◌, ◌↔◌, inl, inr, arith, List, true, false, ok, Bool-cases}
use rust_x11_hello.Paperpad.Net.Connection.{
  ConnectionState, disconnected, connected, Shared, connected_with, clone_stream_for, is_current,
  disconnect_if_current,
}
use rust_x11_hello.Paperpad.Net.Connection.Current.{
  NetOp, net_after, Undisturbed, IsFresh, net_after-IsFresh, Undisturbed-current,
  current-Undisturbed,
}

pub connected_with-IsFresh :
    (first : ℕ) → IsFresh (connected_with first).state (connected_with first).next_token
unfolding IsFresh connected_with
connected_with-IsFresh first = omega arith

pub fresh_token :
    {state : ConnectionState} {next : ℕ} (token stream : ℕ)
    → state ≡ connected token stream
    → IsFresh state next
    → token < next
unfolding IsFresh
fresh_token {state} {next} token stream e fresh = subst (λ st. IsFresh st next) e fresh

cloned-current :
    (state : ConnectionState) {token stream : ℕ}
    → clone_stream_for true state token ≡ ok (record { token = token; stream = stream })
    → is_current state token ≡ true
unfolding clone_stream_for is_current
cloned-current disconnected e = ground arith
cloned-current (connected t s) e = ground arith

module _ (first : ℕ) (past ops : List NetOp) (token stream : ℕ)
    (here : (net_after (connected_with first) past).state ≡ connected token stream) where
  abbrev start : Shared
  start = net_after (connected_with first) past

  token_used : token < start.next_token
  token_used =
      fresh_token token stream here
        (net_after-IsFresh (connected_with first) past (connected_with-IsFresh first))

  is_current_iff : (is_current (net_after start ops).state token ≡ true) ↔ Undisturbed token ops
  is_current_iff = (
    Undisturbed-current start token ops token_used,
    λ u. rw (current-Undisturbed start token stream ops here u) (unfold is_current in ground arith),
  )

  -- Of a token taken while its connection was current, a socket is cloned later exactly if no thread
  -- has left or replaced that connection in between, and then it is the same socket.
  pub clone_stream_for_iff :
      (clone_stream_for true (net_after start ops).state token
        ≡ ok (record { token = token; stream = stream }))
      ↔ Undisturbed token ops
  clone_stream_for_iff = (
    λ e. is_current_iff.0 (cloned-current (net_after start ops).state e),
    λ u.
        rw (current-Undisturbed start token stream ops here u)
          (unfold clone_stream_for in ground arith),
  )

  -- With a token and socket taken while their connection was current, `disconnect_if_current` leaves
  -- a connection exactly if no thread has left or replaced that one in between; else it changes
  -- nothing, and a newer connection stays.
  pub disconnect_if_current_iff :
      ((disconnect_if_current (net_after start ops) (record { token = token; stream = stream })).0
          ≡ true
        ↔ Undisturbed token ops)
      × (¬ Undisturbed token ops
          → disconnect_if_current (net_after start ops) (record { token = token; stream = stream })
            ≡ (false, net_after start ops))
  unfolding disconnect_if_current
  disconnect_if_current_iff = elim (Bool-cases (is_current (net_after start ops).state token)) [
    | inl same ↦ (
      (λ e. is_current_iff.0 same, λ u. ground (arith, same)),
      λ n. absurd (n (is_current_iff.0 same)),
    )
    | inr other ↦ (
      (
        λ e. absurd (ground (arith, other, e)),
        λ u. absurd (ground (arith, other, is_current_iff.1 u)),
      ),
      λ n. ground (arith, other),
    )
  ]
