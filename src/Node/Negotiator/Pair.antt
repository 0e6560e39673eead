-- ===== src/Node/Negotiator/Pair.antt =====
-- Two nodes of this code that connect: the one that calls out and the one that is called, with the
-- messages under way between them in the order in which they were sent.
use hornet.Common.{
  ℕ, List, [], ◌∷◌, ◌++◌, Option, none, some, true, bytes_eq, ◌≡◌, refl, ◌⊎◌, inl, inr,
}
use hornet.Common.Int.{pos}
use hornet.Protocol.Handshake.{inbound, outbound, is_complete}
use hornet.Protocol.Message.{Message}
use hornet.Node.Negotiator.{
  Peer, new_peer, Outcome, replied, dropped, fuel_exhausted, on_peer_connect, on_message,
  current_version,
}

-- Each node's view of the other, and what is under way to each.
pub record Network : Type 0 where
  pub caller : Peer
  pub called : Peer
  pub to_caller : List Message
  pub to_called : List Message

pub data Delivery : Type 0 where
  idle : Delivery
  broken : Delivery
  moved : Network → Delivery

module _ (nonce : ℕ) where
  unfoldable pub connect : Option Network
  unfolding on_peer_connect
  connect = elim (on_peer_connect nonce (new_peer outbound)) [
    | replied caller sent ↦ elim (on_peer_connect nonce (new_peer inbound)) [
      | replied called answered ↦
          some (record { caller = caller; called = called; to_caller = answered; to_called = sent })
      | dropped ↦ none
      | fuel_exhausted ↦ none
    ]
    | dropped ↦ none
    | fuel_exhausted ↦ none
  ]

  abbrev after_called : Network → List Message → Outcome → Delivery
  after_called c rest (replied peer sent) =
      moved (record c { called = peer; to_called = rest; to_caller = c.to_caller ++ sent })
  after_called c rest dropped = broken
  after_called c rest fuel_exhausted = broken

  abbrev after_caller : Network → List Message → Outcome → Delivery
  after_caller c rest (replied peer sent) =
      moved (record c { caller = peer; to_caller = rest; to_called = c.to_called ++ sent })
  after_caller c rest dropped = broken
  after_caller c rest fuel_exhausted = broken

  unfoldable pub deliver_to_called : Network → Delivery
  unfolding on_message
  deliver_to_called c = elim c.to_called [
    | [] ↦ idle
    | m ∷ rest ↦ after_called c rest (on_message nonce c.called m)
  ]

  unfoldable pub deliver_to_caller : Network → Delivery
  unfolding on_message
  deliver_to_caller c = elim c.to_caller [
    | [] ↦ idle
    | m ∷ rest ↦ after_caller c rest (on_message nonce c.caller m)
  ]

  abbrev IsMoved : Delivery → Type 0
  IsMoved idle = ⊥
  IsMoved broken = ⊥
  IsMoved (moved c) = Unit {0}

  mutual
    -- However the messages under way are delivered, none breaks the connection, there is one to be
    -- delivered as long as the aim is not reached, and it is reached.
    pub data Eventually (G : Network → Type 0) : Network → Type 0 where
      now : {c : Network} → G c → Eventually G c
      later :
          {c : Network}
          → IsMoved (deliver_to_called c) ⊎ IsMoved (deliver_to_caller c)
          → After G (deliver_to_called c)
          → After G (deliver_to_caller c)
          → Eventually G c

    pub data After (G : Network → Type 0) : Delivery → Type 0 where
      nothing_moved : After G idle
      then_moved : {c : Network} → Eventually G c → After G (moved c)

-- Nothing is under way, and each node has completed the handshake, knows the other's version and
-- has been told that it takes compact blocks.
abbrev IsReady : Peer → Type 0
IsReady p =
    (is_complete p.handshake ≡ true) × (p.version ≡ pos current_version) × (p.compact_blocks ≡ true)

pub record IsSettled (c : Network) : Type 0 where
  pub caller_ready : IsReady c.caller
  pub called_ready : IsReady c.called
  pub delivered : (c.to_caller ≡ []) × (c.to_called ≡ [])

-- Of two nodes that connect, whatever the order in which the messages between them are delivered, both
-- complete the handshake, agree on the version and take compact blocks, and nothing is left under way;
-- no message breaks the connection on the way.
pub connect-Eventually :
    (nonce : ℕ) → (c : Network) × (connect nonce ≡ some c) × Eventually nonce IsSettled c
unfolding connect deliver_to_called deliver_to_caller is_complete bytes_eq
connect-Eventually nonce = (
  _,
  refl,
  later (inl tt)
      (then_moved (
        later (inr tt) nothing_moved (
          then_moved (
            later (inl tt)
              (then_moved (
                later (inr tt) nothing_moved (
                  then_moved (
                    later (inl tt)
                      (then_moved (
                        later (inr tt) nothing_moved (
                          then_moved (
                            now (record {
                              caller_ready = (refl, refl, refl);
                              called_ready = (refl, refl, refl);
                              delivered = (refl, refl);
                            })))))
                      (then_moved (
                        later (inl tt)
                          (then_moved (
                            now (record {
                              caller_ready = (refl, refl, refl);
                              called_ready = (refl, refl, refl);
                              delivered = (refl, refl);
                            })))
                          nothing_moved))))))
              (then_moved (
                later (inl tt)
                  (then_moved (
                    later (inl tt)
                      (then_moved (
                        later (inr tt) nothing_moved (
                          then_moved (
                            now (record {
                              caller_ready = (refl, refl, refl);
                              called_ready = (refl, refl, refl);
                              delivered = (refl, refl);
                            })))))
                      (then_moved (
                        later (inl tt)
                          (then_moved (
                            now (record {
                              caller_ready = (refl, refl, refl);
                              called_ready = (refl, refl, refl);
                              delivered = (refl, refl);
                            })))
                          nothing_moved))))
                  nothing_moved))))))
      nothing_moved,
)
