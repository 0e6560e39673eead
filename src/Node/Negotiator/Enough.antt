-- ===== src/Node/Negotiator/Enough.antt =====
-- The loop of AdvanceHandshake ends: from any state, after at most two actions.
use hornet.Common.{ℕ, ◌≢◌, ◌≡◌, [], none, some, bytes_eq, if_split, option_split, not, ◌&&◌}
use hornet.Common.Int.{pos, ltb_ℤ}
use hornet.Encoding.Codec.{All}
use hornet.Protocol.Handshake.{
  Role, inbound, outbound, Transition, receive_version, receive_verack, Source, Sink, machine, find,
  Handshake, Action, to_command, advance_state,
}
use hornet.Protocol.Handshake.Table.{find-All}
use hornet.Protocol.Message.{
  Message, block, get_data, get_headers, headers, ping, pong, verack, version, send_compact,
}
use hornet.Node.Negotiator.{
  Peer, Driven, finished, threw, out_of_fuel, drive, max_actions, Outcome, replied, dropped,
  fuel_exhausted, after_drive, advance_handshake, on_message, negotiated, min_supported_version,
}
use mathlib.Core.Option.{some_inj}
use mathlib.Core.Path.{subst}

abbrev Ended : Driven → Type 0
Ended (finished h sent) = Unit {0}
Ended threw = Unit {0}
Ended out_of_fuel = ⊥

abbrev Decided : Outcome → Type 0
Decided (replied peer sent) = Unit {0}
Decided dropped = Unit {0}
Decided fuel_exhausted = ⊥

abbrev Drives : ℕ → Role → Source → Sink → Type 0
Drives nonce role from sink = Ended (
    drive nonce max_actions (record { role = role; state = sink })
      (record { next = sink.action; command = to_command sink.action }))

machine-Drives :
    (nonce : ℕ) (role : Role)
    → All (λ (p : Source × Sink). Drives nonce role p.0 p.1) (machine role)
unfolding drive to_command bytes_eq
machine-Drives nonce outbound = (tt, (tt, (tt, (tt, (tt, (tt, (tt, tt)))))))
machine-Drives nonce inbound = (tt, (tt, (tt, (tt, (tt, (tt, (tt, tt)))))))

after_drive-Decided : (peer : Peer) (d : Driven) → Ended d → Decided (after_drive peer d)
unfolding after_drive
after_drive-Decided peer (finished h sent) ended = tt
after_drive-Decided peer threw ended = tt
after_drive-Decided peer out_of_fuel ended = ended

advance_state-Ended :
    (nonce : ℕ) (h h' : Handshake) (t : Transition) (action : Action)
    → advance_state h t ≡ some (h', action)
    → Ended (drive nonce max_actions h' action)
unfolding advance_state
advance_state-Ended nonce h h' t action e =
    let from : Source = record { state = h.state.state; edge = t } in
    option_split (λ o. o ≡ some (h', action) → Ended (drive nonce max_actions h' action))
      (find (machine h.role) from) none _ (λ none_some. cc)
      (λ sink found same.
        subst (λ (p : Handshake × Action). Ended (drive nonce max_actions p.0 p.1))
          (some_inj.0 same)
          (find-All (Drives nonce h.role) (machine h.role) from sink (machine-Drives nonce h.role)
            found))
      e

advance_handshake-Decided :
    (nonce : ℕ) (peer : Peer) (t : Transition) → Decided (advance_handshake nonce peer t)
unfolding advance_handshake
advance_handshake-Decided nonce peer t =
    option_split Decided (advance_state peer.handshake t) dropped
      (λ (p : Handshake × Action). after_drive peer (drive nonce max_actions p.0 p.1)) tt
      (λ p found.
        after_drive-Decided peer (drive nonce max_actions p.0 p.1)
          (advance_state-Ended nonce peer.handshake p.0 t p.1 found))

on_message-Decided :
    (nonce : ℕ) (peer : Peer) (message : Message) → Decided (on_message nonce peer message)
unfolding on_message
on_message-Decided nonce peer (ping n) = tt
on_message-Decided nonce peer verack = advance_handshake-Decided nonce peer receive_verack
on_message-Decided nonce peer (version v) =
    if_split Decided (ltb_ℤ v.version (pos min_supported_version)) dropped
      (advance_handshake nonce (negotiated peer v) receive_version) (λ _. tt)
      λ _. advance_handshake-Decided nonce (negotiated peer v) receive_version
on_message-Decided nonce peer (send_compact flag v) =
    if_split Decided (not (ltb_ℤ v (pos 1)) && not (ltb_ℤ (pos 1) v))
      (replied (record peer { compact_blocks = flag }) []) (replied peer []) (λ _. tt) λ _. tt
on_message-Decided nonce peer (block b) = tt
on_message-Decided nonce peer (get_data inventory) = tt
on_message-Decided nonce peer (get_headers m) = tt
on_message-Decided nonce peer (headers hs) = tt
on_message-Decided nonce peer (pong n) = tt

-- Whatever a peer sends, the handling of it ends, with a reply or by dropping the peer: the two
-- actions in a row that the loop is given are enough in every state of either role.
pub on_message-ends :
    (nonce : ℕ) (peer : Peer) (message : Message) → on_message nonce peer message ≢ fuel_exhausted
on_message-ends nonce peer message e = subst Decided e (on_message-Decided nonce peer message)
