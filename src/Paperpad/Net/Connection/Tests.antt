-- ===== src/Paperpad/Net/Connection/Tests.antt =====
-- A connection over socket 7, which is replaced by one over socket 8.
use rust_x11_hello.Prelude.{
  ℕ, ◌≡◌, ◌↔◌, refl, List, [], ◌∷◌, true, false, Option, none, some, take, Result, ok, err,
}
use rust_x11_hello.Paperpad.Net.Connection.{
  connected, ConnectionStream, ConnectionError, Shared, connected_with, write_outbound,
  write_failed, disconnect, reconnect, disconnect_if_current,
}
use rust_x11_hello.Paperpad.Net.Connection.Current.{
  NetOp, leave, install, net_step, net_after, Undisturbed, IsFresh,
}
use rust_x11_hello.Paperpad.Net.Connection.Stale.{connected_with-IsFresh, disconnect_if_current_iff}
use rust_x11_hello.Paperpad.Net.Connection.Written.{write_outbound_lem}

abbrev first : ConnectionStream
first = record { token = 0; stream = 7 }

abbrev replaced : List NetOp
replaced = install 8 ∷ leave ∷ []

still : (net_after (connected_with 7) []).state ≡ connected 0 7
unfolding net_after connected_with
still = refl

second : (net_after (connected_with 7) replaced).state ≡ connected 1 8
unfolding net_after connected_with net_step disconnect reconnect
second = refl

disconnect_if_current_iff_example :
    ((disconnect_if_current (net_after (net_after (connected_with 7) []) replaced) first).0 ≡ true
      ↔ Undisturbed 0 replaced)
    × (¬ Undisturbed 0 replaced
        → disconnect_if_current (net_after (net_after (connected_with 7) []) replaced) first
          ≡ (false, net_after (net_after (connected_with 7) []) replaced))
disconnect_if_current_iff_example = disconnect_if_current_iff 7 [] replaced 0 7 still

first_state : (connected_with 7).state ≡ connected 0 7
unfolding connected_with
first_state = refl

-- A write that fails after two bytes
abbrev failing : ℕ → Option ℕ
failing stream = some 2

abbrev hello_bytes : List ℕ
hello_bytes = 80 ∷ 80 ∷ 2 ∷ []

fresh : IsFresh (connected_with 7).state (connected_with 7).next_token
fresh = connected_with-IsFresh 7

-- Bytes of the first connection, which is replaced while the writer writes them
abbrev outcome : Result ConnectionError (Unit {0}) × Shared
outcome =
    write_outbound true failing (λ s. net_after s replaced) (net_after (connected_with 7) []) 0
      hello_bytes

write_outbound_lem_example :
    (Undisturbed 0 []
      → failing 7 ≡ none
      → outcome ≡ (
        ok tt,
        record (net_after (net_after (connected_with 7) []) replaced) {
          received = (7, hello_bytes) ∷ (connected_with 7).received;
        },
      ))
    × ((n : ℕ)
        → Undisturbed 0 []
        → failing 7 ≡ some n
        → Undisturbed 0 replaced
        → outcome ≡ (
          err write_failed,
          record (disconnect (net_after (net_after (connected_with 7) []) replaced)) {
            received = (7, take n hello_bytes) ∷ (connected_with 7).received;
          },
        ))
    × ((n : ℕ)
        → Undisturbed 0 []
        → failing 7 ≡ some n
        → ¬ Undisturbed 0 replaced
        → outcome ≡ (
          err write_failed,
          record (net_after (net_after (connected_with 7) []) replaced) {
            received = (7, take n hello_bytes) ∷ (connected_with 7).received;
          },
        ))
    × (¬ Undisturbed 0 []
        → (e : ConnectionError) × (outcome ≡ (err e, net_after (connected_with 7) [])))
    × ((e : ConnectionError) × (write_outbound false failing
            (λ s. net_after s replaced)
            (net_after (connected_with 7) [])
            0
            hello_bytes
          ≡ (err e, net_after (connected_with 7) [])))
write_outbound_lem_example =
    write_outbound_lem (connected_with 7) 0 7 [] fresh first_state replaced failing hello_bytes
