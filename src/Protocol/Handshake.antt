-- ===== src/Protocol/Handshake.antt =====
-- src/hornetlib/protocol/handshake.h: the state machine of the version handshake, for each role.
pub mod Table
pub mod Counts
use hornet.Common.{ℕ, List, [], ◌∷◌, Bytes, Option, none, some, Bool, ◌&&◌, ◌==◌, if◌then◌else◌}
use hornet.Protocol.Message.{get_name, version_kind, verack_kind}

pub data Role : Type 0 where
  inbound outbound : Role

pub data Transition : Type 0 where
  nothing begin send_version receive_version send_verack receive_verack : Transition

pub data State : Type 0 where
  initial start version_sent version_received : State
  version_both verack_sent verack_received complete : State

-- The numbers of the enumerators, by which the keys of the map are compared.
unfoldable pub transition_number : Transition → ℕ
transition_number nothing = 0
transition_number begin = 1
transition_number send_version = 2
transition_number receive_version = 3
transition_number send_verack = 4
transition_number receive_verack = 5

unfoldable pub state_number : State → ℕ
state_number initial = 0
state_number start = 1
state_number version_sent = 2
state_number version_received = 3
state_number version_both = 4
state_number verack_sent = 5
state_number verack_received = 6
state_number complete = 7

pub record Source : Type 0 where
  pub state : State
  pub edge : Transition

-- The state, and the next transition that the owner can make by itself.
pub record Sink : Type 0 where
  pub state : State
  pub action : Transition

abbrev entry : State → Transition → State → Transition → Source × Sink
entry from edge to action =
    (record { state = from; edge = edge }, record { state = to; action = action })

-- s_outbound_machine_ and s_inbound_machine_.
abbrev pub machine : Role → List (Source × Sink)
machine outbound =
    entry initial begin start send_version
    ∷ entry start send_version version_sent nothing
    ∷ entry version_sent receive_version version_both send_verack
    ∷ entry version_both receive_verack verack_received send_verack
    ∷ entry version_both send_verack verack_sent nothing
    ∷ entry verack_received send_verack complete nothing
    ∷ entry verack_sent receive_verack complete nothing
    ∷ []
machine inbound =
    entry initial begin start nothing
    ∷ entry start receive_version version_received send_version
    ∷ entry version_received send_version version_both send_verack
    ∷ entry version_both receive_verack verack_received send_verack
    ∷ entry version_both send_verack verack_sent nothing
    ∷ entry verack_received send_verack complete nothing
    ∷ entry verack_sent receive_verack complete nothing
    ∷ []

unfoldable pub same_source : Source → Source → Bool
unfolding transition_number state_number
same_source a b =
    (state_number a.state == state_number b.state)
    && (transition_number a.edge == transition_number b.edge)

unfoldable pub find : List (Source × Sink) → Source → Option Sink
unfolding same_source
find [] from = none
find ((key, value) ∷ entries) from = if same_source key from then some value else find entries from

pub record Handshake : Type 0 where
  pub role : Role
  pub state : Sink

-- The constructor.
abbrev pub new_handshake : Role → Handshake
new_handshake role = record { role = role; state = record { state = initial; action = begin } }

pub record Action : Type 0 where
  pub next : Transition
  pub command : Bytes

unfoldable pub to_command : Transition → Bytes
unfolding get_name
to_command nothing = []
to_command begin = []
to_command send_version = get_name version_kind
to_command receive_version = []
to_command send_verack = get_name verack_kind
to_command receive_verack = []

-- AdvanceState; Fail throws.
unfoldable pub advance_state : Handshake → Transition → Option (Handshake × Action)
unfolding find to_command
advance_state h transition =
    elim (find (machine h.role) (record { state = h.state.state; edge = transition })) [
      | none ↦ none
      | some sink ↦ some (
        record h { state = sink },
        record { next = sink.action; command = to_command sink.action },
      )
    ]

unfoldable pub is_complete : Handshake → Bool
unfolding state_number
is_complete h = state_number h.state.state == state_number complete
