-- ===== src/Node/Negotiator.antt =====
-- src/hornetnodelib/dispatch/peer_negotiator.cpp: what the node does on each message of a peer in the
-- version handshake, with what it knows of the peer from protocol/capabilities.h. An exception
-- drops the peer. The random nonce of a new ping is a parameter.
pub mod Enough
pub mod Pair
use hornet.Common.{
  ℕ, zero, suc, List, [], ◌∷◌, ◌++◌, none, some, Bool, true, false, not, ◌&&◌, ◌==◌, if◌then◌else◌,
  replicate,
}
use hornet.Common.Int.{ℤ, pos, ltb_ℤ}
use hornet.Protocol.Handshake.{
  Role, Transition, begin, receive_version, receive_verack, transition_number, Handshake,
  new_handshake, Action, advance_state, is_complete,
}
use hornet.Protocol.Message.{
  Version, Message, block, get_data, get_headers, headers, ping, pong, verack, version,
  send_compact, Kind, block_kind, get_data_kind, get_headers_kind, headers_kind, ping_kind,
  pong_kind, verack_kind, version_kind, send_compact_kind, create,
}

abbrev pub current_version : ℕ
current_version = 70015

abbrev pub min_supported_version : ℕ
min_supported_version = 70014

abbrev pub min_version_for_send_compact : ℕ
min_version_for_send_compact = 70014

abbrev pub default_version : Version
default_version = record {
  version = pos current_version;
  services = 0;
  timestamp = pos 0;
  addr_recv = replicate 26 0;
  addr_from = replicate 26 0;
  nonce = 0;
  user_agent = [];
  start_height = pos 0;
  relay = true;
}

-- The object that the factory makes of each class.
abbrev pub default_message : ℕ → Kind → Message
default_message nonce block_kind = block none
default_message nonce get_data_kind = get_data []
default_message nonce get_headers_kind =
    get_headers
      (record { version = pos current_version; locator_hashes = []; stop_hash = replicate 32 0 })
default_message nonce headers_kind = headers []
default_message nonce ping_kind = ping nonce
default_message nonce pong_kind = pong 0
default_message nonce verack_kind = verack
default_message nonce version_kind = version default_version
default_message nonce send_compact_kind = send_compact true (pos 1)

-- The capabilities of a peer, beside its handshake.
pub record Peer : Type 0 where
  pub handshake : Handshake
  pub version : ℤ
  pub start_height : ℤ
  pub compact_blocks : Bool

abbrev pub new_peer : Role → Peer
new_peer role = record {
  handshake = new_handshake role;
  version = pos current_version;
  start_height = pos 0;
  compact_blocks = false;
}

-- What the loop of AdvanceHandshake ends in: the messages sent, or an exception.
pub data Driven : Type 0 where
  finished : Handshake → List Message → Driven
  threw : Driven
  out_of_fuel : Driven

abbrev pub also_sent : Message → Driven → Driven
also_sent m (finished h sent) = finished h (m ∷ sent)
also_sent m threw = threw
also_sent m out_of_fuel = out_of_fuel

-- While there is a next action: send the message of its command, and advance by it.
unfoldable pub drive : ℕ → ℕ → Handshake → Action → Driven
unfolding advance_state transition_number create
drive nonce zero h action =
    if transition_number action.next == 0 then finished h [] else out_of_fuel
drive nonce (suc fuel) h action =
    if transition_number action.next == 0 then finished h [] else elim (create action.command) [
      | none ↦ threw
      | some kind ↦ elim (advance_state h action.next) [
        | none ↦ threw
        | some (h', action') ↦ also_sent (default_message nonce kind) (drive nonce fuel h' action')
      ]
    ]

-- No role makes more than two actions in a row.
abbrev pub max_actions : ℕ
max_actions = 2

pub data Outcome : Type 0 where
  replied : Peer → List Message → Outcome
  dropped : Outcome
  fuel_exhausted : Outcome

-- SendPeerPreferences.
unfoldable pub peer_preferences : Peer → List Message
peer_preferences peer =
    if not (ltb_ℤ peer.version (pos min_version_for_send_compact))
    then send_compact true (pos 1) ∷ []
    else []

-- The end of AdvanceHandshake.
unfoldable pub after_drive : Peer → Driven → Outcome
unfolding is_complete peer_preferences
after_drive peer (finished h sent) =
    let peer' = record peer { handshake = h } in
    replied peer' (if is_complete h then sent ++ peer_preferences peer' else sent)
after_drive peer threw = dropped
after_drive peer out_of_fuel = fuel_exhausted

-- The version of the peer is the least of both.
abbrev pub negotiated : Peer → Version → Peer
negotiated peer v = record peer {
  version = if ltb_ℤ v.version (pos current_version) then v.version else pos current_version;
  start_height = v.start_height;
}

module _ (nonce : ℕ) where
  unfoldable pub advance_handshake : Peer → Transition → Outcome
  unfolding advance_state drive after_drive
  advance_handshake peer transition = elim (advance_state peer.handshake transition) [
    | none ↦ dropped
    | some (h, action) ↦ after_drive peer (drive nonce max_actions h action)
  ]

  unfoldable pub on_peer_connect : Peer → Outcome
  unfolding advance_handshake
  on_peer_connect peer = advance_handshake peer begin

  unfoldable pub on_version : Peer → Version → Outcome
  unfolding advance_handshake
  on_version peer v =
      if ltb_ℤ v.version (pos min_supported_version)
      then dropped
      else advance_handshake (negotiated peer v) receive_version

  -- A second integer other than 1 is passed over.
  unfoldable pub on_send_compact : Peer → Bool → ℤ → Outcome
  on_send_compact peer flag v =
      if not (ltb_ℤ v (pos 1)) && not (ltb_ℤ (pos 1) v)
      then replied (record peer { compact_blocks = flag }) []
      else replied peer []

  -- OnMessage of each class; the negotiator has none for the others.
  unfoldable pub on_message : Peer → Message → Outcome
  unfolding advance_handshake on_version on_send_compact
  on_message peer (ping n) = replied peer (pong n ∷ [])
  on_message peer verack = advance_handshake peer receive_verack
  on_message peer (version v) = on_version peer v
  on_message peer (send_compact flag v) = on_send_compact peer flag v
  on_message peer (block b) = replied peer []
  on_message peer (get_data inventory) = replied peer []
  on_message peer (get_headers m) = replied peer []
  on_message peer (headers hs) = replied peer []
  on_message peer (pong n) = replied peer []
