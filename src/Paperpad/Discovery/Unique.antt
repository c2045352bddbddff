-- ===== src/Paperpad/Discovery/Unique.antt =====
-- When an endpoint is selected.
use mathlib.Core.Path.{subst}
use rust_x11_hello.Prelude.{
  ℕ, ◌≡◌, ◌≢◌, ◌↔◌, refl, sym, ap, arith, List, [], ◌∷◌, true, false, ok, err, if◌then◌else◌,
  Bool-cases, inl, inr, All,
}
use rust_x11_hello.Paperpad.Discovery.{
  endpoint_of, SocketAddr, no_responder, endpoints_of, addr_before, same_addr, insert_addr,
  sort_addrs, dedup_behind, dedup_addrs, unique_endpoint, select_endpoint,
}

-- Some address, and each of them this one
abbrev pub AreOnly : SocketAddr → List SocketAddr → Type 0
AreOnly e addrs = (addrs ≢ []) × All (λ a. a ≡ e) addrs

same_addr_eq : (a b : SocketAddr) → same_addr a b ≡ true → a ≡ b
same_addr_eq a b e = ground (arith, e)

same_addr_self : (a : SocketAddr) → same_addr a a ≡ true
same_addr_self a = ground arith

module _ (P : SocketAddr → Type 0) where
  insert_addr-All :
      (a : SocketAddr) (addrs : List SocketAddr) → All P (insert_addr a addrs) ↔ (P a × All P addrs)
  unfolding insert_addr
  insert_addr-All a [] = (λ h. h, λ h. h)
  insert_addr-All a (b ∷ addrs) =
      let (to, from) = insert_addr-All a addrs in
      elim (addr_before b a)
        as (λ t.
          All P (if t then b ∷ insert_addr a addrs else a ∷ (b ∷ addrs))
          ↔ (P a × All P (b ∷ addrs))) [
            | true ↦ (λ h. ((to h.1).0, (h.0, (to h.1).1)), λ h. (h.1.0, from (h.0, h.1.1)))
            | false ↦ (λ h. h, λ h. h)
          ]

  sort_addrs-All : (addrs : List SocketAddr) → All P (sort_addrs addrs) ↔ All P addrs
  unfolding sort_addrs
  sort_addrs-All [] = (λ h. h, λ h. h)
  sort_addrs-All (a ∷ addrs) =
      let (to, from) = sort_addrs-All addrs in
      let (out, in_) = insert_addr-All a (sort_addrs addrs) in
      (λ h. ((out h).0, to (out h).1), λ (pa, ps). in_ (pa, from ps))

insert_addr_some : (a : SocketAddr) (addrs : List SocketAddr) → insert_addr a addrs ≢ []
unfolding insert_addr
insert_addr_some a [] e = ground (arith, e)
insert_addr_some a (b ∷ addrs) e = ground (arith, e)

sort_addrs_some : (addrs : List SocketAddr) → (sort_addrs addrs ≡ []) ↔ (addrs ≡ [])
unfolding sort_addrs
sort_addrs_some [] = (λ h. h, λ h. h)
sort_addrs_some (a ∷ addrs) =
    (λ h. absurd (insert_addr_some a (sort_addrs addrs) h), λ h. absurd (ground (arith, h)))

other_addr : (e b : SocketAddr) → same_addr e b ≡ false → b ≢ e
other_addr e b other is =
    ground (arith, other, subst (λ x. same_addr e x ≡ true) (sym is) (same_addr_self e))

dedup_behind_iff :
    (e : SocketAddr) (addrs : List SocketAddr)
    → (dedup_behind e addrs ≡ []) ↔ All (λ a. a ≡ e) addrs
unfolding dedup_behind
dedup_behind_iff e [] = (λ h. tt, λ h. refl)
dedup_behind_iff e (b ∷ addrs) =
    let (to, from) = dedup_behind_iff e addrs in
    elim (Bool-cases (same_addr e b)) [
      | inl same ↦
          (λ h. (sym (same_addr_eq e b same), to (rw same at (h))), λ (is, all). rw same (from all))
      | inr other ↦
          (λ h. absurd (ground (arith, rw other at (h))), λ h. absurd (other_addr e b other h.0))
    ]

unique_cons :
    (a e : SocketAddr) (addrs : List SocketAddr)
    → (unique_endpoint (a ∷ addrs) ≡ ok e) ↔ ((a ≡ e) × (addrs ≡ []))
unfolding unique_endpoint
unique_cons a e [] = (λ h. (ground (arith, h), refl), λ h. ap ok h.0)
unique_cons a e (b ∷ addrs) = (λ h. ground (arith, h), λ h. ground (arith, h.1))

unique_endpoint_iff :
    (addrs : List SocketAddr) (e : SocketAddr)
    → (unique_endpoint (dedup_addrs addrs) ≡ ok e) ↔ AreOnly e addrs
unfolding dedup_addrs unique_endpoint
unique_endpoint_iff [] e = (λ h. absurd (ground (arith, h)), λ h. absurd (h.0 refl))
unique_endpoint_iff (a ∷ addrs) e =
    let (to, from) = unique_cons a e (dedup_behind a addrs) in
    let (all, none_left) = dedup_behind_iff a addrs in
    (
      λ h.
          let (is, alone) = to h in
          (
            λ empty. ground (arith, empty),
            (is, subst (λ x. All (λ b. b ≡ x) addrs) is (all alone)),
          ),
      λ only.
          let (is, each) = only.1 in
          from (is, none_left (subst (λ x. All (λ b. b ≡ x) addrs) (sym is) each)),
    )

unique_endpoint_none :
    (addrs : List SocketAddr)
    → (unique_endpoint (dedup_addrs addrs) ≡ err no_responder) ↔ (addrs ≡ [])
unfolding dedup_addrs unique_endpoint
unique_endpoint_none [] = (λ h. refl, λ h. refl)
unique_endpoint_none (a ∷ addrs) =
    (λ h. absurd (more a (dedup_behind a addrs) h), λ h. absurd (ground (arith, h)))
  where
    more : (a : SocketAddr) (d : List SocketAddr) → unique_endpoint (a ∷ d) ≢ err no_responder
    more a [] h = ground (arith, h)
    more a (b ∷ d) h = ground (arith, h)

-- Every answer comes from the endpoint's IP and advertises its port.
abbrev pub AllOffer : SocketAddr → List (SocketAddr × ℕ) → Type 0
AllOffer e responses = All (λ r. (r.0.ip ≡ e.ip) × (r.1 ≡ e.port)) responses

offered :
    (source : SocketAddr) (port : ℕ) (e : SocketAddr)
    → (endpoint_of (source, port) ≡ e) ↔ ((source.ip ≡ e.ip) × (port ≡ e.port))
unfolding endpoint_of
offered source port e = (
  λ h. (ap (λ (a : SocketAddr). a.ip) h, ap (λ (a : SocketAddr). a.port) h),
  λ (ip, port). ground (arith, ip, port),
)

endpoints_of_iff :
    (responses : List (SocketAddr × ℕ)) (e : SocketAddr)
    → All (λ a. a ≡ e) (endpoints_of responses) ↔ AllOffer e responses
unfolding endpoints_of
endpoints_of_iff [] e = (λ h. h, λ h. h)
endpoints_of_iff ((source, port) ∷ responses) e =
    let (to, from) = endpoints_of_iff responses e in
    let (is, made) = offered source port e in (λ h. (is h.0, to h.1), λ h. (made h.0, from h.1))

endpoints_of_some :
    (responses : List (SocketAddr × ℕ)) → (endpoints_of responses ≡ []) ↔ (responses ≡ [])
unfolding endpoints_of
endpoints_of_some [] = (λ h. refl, λ h. refl)
endpoints_of_some (r ∷ responses) =
    (λ h. absurd (ground (arith, h)), λ h. absurd (ground (arith, h)))

-- An endpoint is selected exactly when some responder has answered and every answer comes from the
-- endpoint's IP and advertises its port, in whichever order and however often they have come; the
-- port that an answer comes from plays no part. That there is no responder is said exactly when none
-- has answered.
pub select_endpoint_iff :
    (responses : List (SocketAddr × ℕ)) (e : SocketAddr)
    → ((select_endpoint responses ≡ ok e) ↔ ((responses ≢ []) × AllOffer e responses))
      × ((select_endpoint responses ≡ err no_responder) ↔ (responses ≡ []))
unfolding select_endpoint
select_endpoint_iff responses e =
    let addrs = endpoints_of responses in
    let (to, from) = unique_endpoint_iff (sort_addrs addrs) e in
    let (out, in_) = sort_addrs-All (λ a. a ≡ e) addrs in
    let (empty, is_empty) = sort_addrs_some addrs in
    let (unheard, silent) = unique_endpoint_none (sort_addrs addrs) in
    let (offers, all_offer) = endpoints_of_iff responses e in
    let (nothing, no_answer) = endpoints_of_some responses in
    (
      (
        λ h. let (more, all) = to h in (λ n. more (is_empty (no_answer n)), offers (out all)),
        λ (more, all). from (λ n. more (nothing (empty n)), in_ (all_offer all)),
      ),
      (λ h. nothing (empty (unheard h)), λ n. silent (is_empty (no_answer n))),
    )
