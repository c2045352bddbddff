-- ===== src/Paperpad/Discovery.antt =====
-- src/discovery.rs: the host that PaperPad takes from the answers to its discovery.
pub mod Unique
mod Tests
use rust_x11_hello.Prelude.{
  ℕ, ◌≡◌, List, [], ◌∷◌, Bool, true, false, ◌&&◌, ◌||◌, Result, ok, err, ltb, ◌==◌, if◌then◌else◌,
}

-- An IP address is a number.
pub record SocketAddr : Type 0 where
  pub ip : ℕ
  pub port : ℕ

pub data DiscoveryError : Type 0 where
  no_responder : DiscoveryError
  ambiguous : List SocketAddr → DiscoveryError

-- `SocketAddr::new(source.ip(), port)`
unfoldable pub endpoint_of : SocketAddr × ℕ → SocketAddr
endpoint_of (source, port) = record { ip = source.ip; port = port }

unfoldable pub endpoints_of : List (SocketAddr × ℕ) → List SocketAddr
endpoints_of [] = []
endpoints_of (response ∷ responses) = endpoint_of response ∷ endpoints_of responses

-- The order of `SocketAddr`s
abbrev pub addr_before : SocketAddr → SocketAddr → Bool
addr_before a b = ltb a.ip b.ip || ((a.ip == b.ip) && ltb a.port b.port)

abbrev pub same_addr : SocketAddr → SocketAddr → Bool
same_addr a b = (a.ip == b.ip) && (a.port == b.port)

unfoldable pub insert_addr : SocketAddr → List SocketAddr → List SocketAddr
insert_addr a [] = a ∷ []
insert_addr a (b ∷ sorted) =
    let rest = insert_addr a sorted in if addr_before b a then b ∷ rest else a ∷ (b ∷ sorted)

-- `endpoints.sort_unstable()`: equal addresses are not told apart.
unfoldable pub sort_addrs : List SocketAddr → List SocketAddr
sort_addrs [] = []
sort_addrs (a ∷ addrs) = insert_addr a (sort_addrs addrs)

-- `endpoints.dedup()`: each address that is the one kept before it is left out.
unfoldable pub dedup_behind : SocketAddr → List SocketAddr → List SocketAddr
dedup_behind a [] = []
dedup_behind a (b ∷ addrs) =
    let kept = dedup_behind a addrs in
    let next = dedup_behind b addrs in if same_addr a b then kept else b ∷ next

unfoldable pub dedup_addrs : List SocketAddr → List SocketAddr
dedup_addrs [] = []
dedup_addrs (a ∷ addrs) = a ∷ dedup_behind a addrs

-- `match endpoints.len()`
unfoldable pub unique_endpoint : List SocketAddr → Result DiscoveryError SocketAddr
unique_endpoint [] = err no_responder
unique_endpoint (a ∷ []) = ok a
unique_endpoint (a ∷ (b ∷ addrs)) = err (ambiguous (a ∷ (b ∷ addrs)))

unfoldable pub select_endpoint : List (SocketAddr × ℕ) → Result DiscoveryError SocketAddr
select_endpoint responses = unique_endpoint (dedup_addrs (sort_addrs (endpoints_of responses)))
