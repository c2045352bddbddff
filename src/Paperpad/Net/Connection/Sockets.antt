-- ===== src/Paperpad/Net/Connection/Sockets.antt =====
-- No socket is forgotten.
use rust_x11_hello.Prelude.{ℕ, ◌≡◌, inl, inr, refl, List, [], ◌∷◌, Bool-cases, ap, ◌∙◌}
use rust_x11_hello.Paperpad.Net.Connection.{
  ConnectionStream, Shared, connected_with, shut_stream, disconnect, reconnect, is_current,
}
use rust_x11_hello.Paperpad.Net.Connection.Current.{
  NetOp, leave, install, write_error, net_step, net_after, write_error-current, write_error-other,
}

-- The sockets of a program that starts with `first`, the latest one first.
unfoldable pub sockets : ℕ → List NetOp → List ℕ
sockets first [] = first ∷ []
sockets first (leave ∷ past) = sockets first past
sockets first (install stream ∷ past) = stream ∷ sockets first past
sockets first (write_error candidate ∷ past) = sockets first past

abbrev shut_or_current : Shared → List ℕ
shut_or_current s = shut_stream s.state s.shut

disconnect-shut_or_current : (s : Shared) → shut_or_current (disconnect s) ≡ shut_or_current s
unfolding disconnect shut_stream
disconnect-shut_or_current s = refl

write_error-shut_or_current :
    (s : Shared) (c : ConnectionStream)
    → shut_or_current (net_step s (write_error c)) ≡ shut_or_current s
write_error-shut_or_current s c = elim (Bool-cases (is_current s.state c.token)) [
  | inl same ↦
      ap (λ s'. shut_or_current s') (write_error-current s c same) ∙ disconnect-shut_or_current s
  | inr other ↦ ap (λ s'. shut_or_current s') (write_error-other s c other)
]

leave-shut_or_current : (s : Shared) → shut_or_current (net_step s leave) ≡ shut_or_current s
unfolding net_step
leave-shut_or_current s = disconnect-shut_or_current s

install-shut_or_current :
    (s : Shared) (stream : ℕ)
    → shut_or_current (net_step s (install stream)) ≡ stream ∷ shut_or_current s
unfolding net_step reconnect disconnect shut_stream
install-shut_or_current s stream = refl

-- After any operations from the first connection on, each socket that was ever installed has been
-- shut down, exactly once and in the order of installation, but for that of the current connection.
pub shut_stream-net_after :
    (first : ℕ) (past : List NetOp)
    → shut_stream
        (net_after (connected_with first) past).state
        (net_after (connected_with first) past).shut
      ≡ sockets first past
unfolding net_after sockets
shut_stream-net_after first [] = unfold connected_with shut_stream in refl
shut_stream-net_after first (leave ∷ past) =
    leave-shut_or_current (net_after (connected_with first) past) ∙ shut_stream-net_after first past
shut_stream-net_after first (install stream ∷ past) =
    install-shut_or_current (net_after (connected_with first) past) stream
    ∙ ap (λ l. stream ∷ l) (shut_stream-net_after first past)
shut_stream-net_after first (write_error candidate ∷ past) =
    write_error-shut_or_current (net_after (connected_with first) past) candidate
    ∙ shut_stream-net_after first past
