-- ===== src/Protocol/Message.antt =====
-- src/hornetlib/protocol/message/*.h, inventory.h and message_factory: the messages of the protocol,
-- their names, and how each is written to a payload and read from one. A name is the bytes of its
-- characters. Envelopes and printing are left out, as are the constructors' default values.
pub mod Payload
pub mod Parts
pub mod RoundTrip
use hornet.Common.{ℕ, List, [], ◌∷◌, Bytes, Option, none, some, Bool, if◌then◌else◌, bytes_eq}
use hornet.Common.Int.{ℤ}
use hornet.Protocol.Block.{Block}
use hornet.Protocol.Header.{BlockHeader}
use hornet.Protocol.Transaction.{Hash}

-- The type is the number of the enumerator.
pub record Inventory : Type 0 where
  pub type : ℕ
  pub hash : Hash

pub record GetHeaders : Type 0 where
  pub version : ℤ
  pub locator_hashes : List Hash
  pub stop_hash : Hash

pub record Version : Type 0 where
  pub version : ℤ
  pub services : ℕ
  pub timestamp : ℤ
  pub addr_recv : Bytes
  pub addr_from : Bytes
  pub nonce : ℕ
  pub user_agent : Bytes
  pub start_height : ℤ
  pub relay : Bool

pub data Message : Type 0 where
  block : Option Block → Message
  get_data : List Inventory → Message
  get_headers : GetHeaders → Message
  headers : List BlockHeader → Message
  ping : ℕ → Message
  pong : ℕ → Message
  verack : Message
  version : Version → Message
  send_compact : Bool → ℤ → Message

-- The classes that RegisterCoreMessages registers.
pub data Kind : Type 0 where
  block_kind get_data_kind get_headers_kind headers_kind ping_kind : Kind
  pong_kind verack_kind version_kind send_compact_kind : Kind

abbrev pub max_block_locator_hashes : ℕ
max_block_locator_hashes = 101

abbrev pub max_block_headers : ℕ
max_block_headers = 2000

unfoldable pub kind_of : Message → Kind
kind_of (block b) = block_kind
kind_of (get_data inventory) = get_data_kind
kind_of (get_headers m) = get_headers_kind
kind_of (headers hs) = headers_kind
kind_of (ping nonce) = ping_kind
kind_of (pong nonce) = pong_kind
kind_of verack = verack_kind
kind_of (version v) = version_kind
kind_of (send_compact flag v) = send_compact_kind

-- GetName: "block", "getdata", "getheaders", "headers", "ping", "pong", "verack", "version",
-- "sendcmpct".
unfoldable pub get_name : Kind → Bytes
get_name block_kind = 98 ∷ 108 ∷ 111 ∷ 99 ∷ 107 ∷ []
get_name get_data_kind = 103 ∷ 101 ∷ 116 ∷ 100 ∷ 97 ∷ 116 ∷ 97 ∷ []
get_name get_headers_kind = 103 ∷ 101 ∷ 116 ∷ 104 ∷ 101 ∷ 97 ∷ 100 ∷ 101 ∷ 114 ∷ 115 ∷ []
get_name headers_kind = 104 ∷ 101 ∷ 97 ∷ 100 ∷ 101 ∷ 114 ∷ 115 ∷ []
get_name ping_kind = 112 ∷ 105 ∷ 110 ∷ 103 ∷ []
get_name pong_kind = 112 ∷ 111 ∷ 110 ∷ 103 ∷ []
get_name verack_kind = 118 ∷ 101 ∷ 114 ∷ 97 ∷ 99 ∷ 107 ∷ []
get_name version_kind = 118 ∷ 101 ∷ 114 ∷ 115 ∷ 105 ∷ 111 ∷ 110 ∷ []
get_name send_compact_kind = 115 ∷ 101 ∷ 110 ∷ 100 ∷ 99 ∷ 109 ∷ 112 ∷ 99 ∷ 116 ∷ []

abbrev pub registered : List Kind
registered =
    block_kind ∷ get_data_kind ∷ get_headers_kind ∷ headers_kind ∷ ping_kind ∷ pong_kind
    ∷ verack_kind ∷ version_kind ∷ send_compact_kind ∷ []

-- The look-up by name in the registry.
unfoldable pub find_kind : List Kind → Bytes → Option Kind
unfolding get_name
find_kind [] command = none
find_kind (kind ∷ kinds) command =
    if bytes_eq (get_name kind) command then some kind else find_kind kinds command

unfoldable pub create : Bytes → Option Kind
unfolding find_kind
create = find_kind registered
