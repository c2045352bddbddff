-- ===== src/Paperpad/Discovery/Tests.antt =====
-- One host that has answered twice.
use rust_x11_hello.Prelude.{ℕ, ◌≡◌, ◌≢◌, ◌↔◌, List, [], ◌∷◌, ok, err}
use rust_x11_hello.Paperpad.Discovery.{SocketAddr, no_responder, select_endpoint}
use rust_x11_hello.Paperpad.Discovery.Unique.{AllOffer, select_endpoint_iff}

abbrev source : SocketAddr
source = record { ip = 167772161; port = 5580 }

abbrev endpoint : SocketAddr
endpoint = record { ip = 167772161; port = 5581 }

abbrev answers : List (SocketAddr × ℕ)
answers = (source, 5581) ∷ (source, 5581) ∷ []

select_endpoint_iff_example :
    ((select_endpoint answers ≡ ok endpoint) ↔ ((answers ≢ []) × AllOffer endpoint answers))
    × ((select_endpoint answers ≡ err no_responder) ↔ (answers ≡ []))
select_endpoint_iff_example = select_endpoint_iff answers endpoint
