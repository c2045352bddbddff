-- ===== src/Paperspoon/Inbound/Tests.antt =====
-- Witnesses and tests of the inbound reader.
use rust_x11_hello.Prelude.{ℕ, ◌≡◌, ◌≢◌, refl, List, [], ◌∷◌, ◌++◌, arith, ok, err, some, none}
use rust_x11_hello.Protocol.Payload.{V2Hello, down, up, encode_hello, from_mask}
use rust_x11_hello.Stream.{unexpected_eof, read_encoded, read_exact}
use rust_x11_hello.Paperspoon.Inbound.{
  SessionMessage, session, no_hello, serve_connection, serve_from, read_session_hello,
  read_inbound_message, read_v2_message,
}
use rust_x11_hello.Paperspoon.Inbound.Ends.{serve_connection_total}
use rust_x11_hello.Paperspoon.Inbound.Loop.{encode_all, serve_connection-encode_all}

abbrev kindle : V2Hello
kindle = record {
  viewport_width = 1272;
  viewport_height = 1624;
  pixel_formats = record { mask = 3 };
}

abbrev touches : List SessionMessage
touches =
    SessionMessage.viewport_changed (record { width = 800; height = 600 })
    ∷ SessionMessage.pointer (record { phase = down; x = 12; y = 34 })
    ∷ SessionMessage.pointer (record { phase = up; x = 12; y = 35 })
    ∷ []

-- A stream that ends inside the first header
cut_short : serve_connection (80 ∷ 80 ∷ []) ≡ some (no_hello (err unexpected_eof))
unfolding serve_connection serve_from read_session_hello read_inbound_message read_v2_message
    read_encoded read_exact
cut_short = refl

serve_connection-encode_all_example :
    (first bytes : List ℕ) × (encode_hello kindle ≡ ok first)
    × (encode_all touches ≡ ok bytes)
    × (serve_connection (first ++ bytes) ≡ some (session kindle touches (ok tt)))
unfolding from_mask
serve_connection-encode_all_example =
    serve_connection-encode_all kindle touches (omega arith, omega arith, refl) (omega arith)

serve_connection_total_example : serve_connection (80 ∷ 80 ∷ []) ≢ none
serve_connection_total_example = serve_connection_total (80 ∷ 80 ∷ [])
