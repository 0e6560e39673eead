-- ===== src/Node/BlockSync.antt =====
-- src/hornetnodelib/sync/block_sync.h: the download of blocks, one request at a time, into a queue of
-- limited size, and their validation. Each handler is one step; its events stand in their order.
pub mod Accounts
pub mod NextBlock
use hornet.Common.{
  ℕ, suc, ◌+◌, ◌-◌, ◌%◌, ◌^◌, List, [], ◌∷◌, ◌++◌, length, Bytes, Option, none, some, Bool, true,
  false, not, ◌&&◌, ltb, ◌==◌, bytes_eq, if◌then◌else◌,
}
use hornet.Common.Int.{ℤ, pos, negsuc, ltb_ℤ}
use hornet.Encoding.Endian.{to_signed}
use hornet.Data.ChainTree.{Iterator, is_valid, next_ancestor}
use hornet.Data.HeaderContext.{header_parts}
use hornet.Data.HeaderTimechain.{
  HeaderTimechain, get_chain_hash, is_chain_hash, locate, find_stable,
}
use hornet.Data.KeyframeSidecar.{KeyframeSidecar, find_in_chain_if, set}
use hornet.Protocol.Block.{Block}
use hornet.Protocol.Header.{compute_hash}
use hornet.Protocol.Transaction.{Hash, null_hash}

-- BlockValidationStatus of sync/types.h, and its comparison.
pub data Status : Type 0 where
  unvalidated assumed_valid structure_valid validated : Status

unfoldable pub is_unvalidated : Status → Bool
is_unvalidated unvalidated = true
is_unvalidated assumed_valid = false
is_unvalidated structure_valid = false
is_unvalidated validated = false

unfoldable pub status_number : Status → ℕ
status_number unvalidated = 0
status_number assumed_valid = 1
status_number structure_valid = 2
status_number validated = 3

abbrev pub same_status : Status → Status → Bool
same_status a b = status_number a == status_number b

-- data/key.h: a height, -1 without a request, and a hash.
pub record Key : Type 0 where
  pub height : ℤ
  pub hash : Hash

abbrev pub no_key : Key
no_key = record { height = negsuc 0; hash = null_hash }

pub record Item : Type 0 where
  pub peer : ℕ
  pub id : Key
  pub block : Block

-- queue_bytes_ is an atomic int, which wraps: it is kept as its 32 bits.
pub record BlockSync : Type 0 where
  pub queue : List Item
  pub queue_bytes : ℕ
  pub max_queue_bytes : ℤ
  pub request_active : Bool
  pub request : Key

-- What the handlers share with the rest of the node.
pub record Chains : Type 0 where
  pub headers : HeaderTimechain
  pub validation : KeyframeSidecar Status

pub data RequestState : Type 0 where
  active deferred disconnected finished : RequestState

-- OnRequest with the hash of a witness block, OnError and OnComplete.
pub data Event : Type 0 where
  requested : ℕ → Hash → Event
  failed : ℕ → Event
  completed : ℕ → Event

abbrev pub key_at : HeaderTimechain → ℕ → Option Key
key_at t height = elim (get_chain_hash t height) [
  | none ↦ none
  | some hash ↦ some (record { height = pos height; hash = hash })
]

-- The last request still stands in the main chain, over the first element.
unfoldable pub is_in_main_chain : HeaderTimechain → Key → Bool
unfolding get_chain_hash
is_in_main_chain t key = elim key.height [
  | negsuc n ↦ false
  | pos h ↦ ltb 0 h && is_chain_hash t h key.hash
]

-- The height over the last request's.
abbrev pub height_over : Key → ℕ
height_over key = elim key.height [ negsuc n ↦ 0 | pos h ↦ suc h ]

-- GetNextBlockId: the block over the last request, or else the first that is not validated. The outer
-- `none` is a failed assertion.
unfoldable pub get_next_block_id : Chains → Key → Option (Option Key)
unfolding is_in_main_chain get_chain_hash find_in_chain_if is_unvalidated
get_next_block_id c request =
    if is_in_main_chain c.headers request
    then (if ltb (height_over request) (length c.headers.chain)
        then elim (key_at c.headers (height_over request)) [
          | none ↦ none
          | some key ↦ some (some key)
        ]
        else some none)
    else elim (find_in_chain_if c.validation 1 is_unvalidated) [
      | none ↦ some none
      | some h ↦ elim (key_at c.headers h) [ none ↦ none | some key ↦ some (some key) ]
    ]

-- RequestNextBlock for a peer that is still there, or not.
unfoldable pub request_next_block :
    Chains → ℕ → Bool → BlockSync → Option (RequestState × List Event × BlockSync)
unfolding get_next_block_id
request_next_block c peer alive s =
    if not (ltb_ℤ (to_signed 32 s.queue_bytes) s.max_queue_bytes)
    then some (deferred, [], s)
    else if not alive
    then some (disconnected, [], s)
    else if s.request_active
    then some (deferred, [], s)
    else elim (get_next_block_id c s.request) [
      | none ↦ none
      | some none ↦ some (finished, [], s)
      | some (some key) ↦
          some (
            active,
            requested peer key.hash ∷ [],
            record s { request_active = true; request = key },
          )
    ]

-- StartSync, where no request is active.
unfoldable pub start_sync : Chains → ℕ → Bool → BlockSync → Option (List Event × BlockSync)
unfolding request_next_block
start_sync c peer alive s =
    if s.request_active then none else elim (request_next_block c peer alive s) [
      | none ↦ none
      | some (finished, events, s') ↦ some (events ++ completed peer ∷ [], s')
      | some (active, events, s') ↦ some (events, s')
      | some (deferred, events, s') ↦ some (events, s')
      | some (disconnected, events, s') ↦ some (events, s')
    ]

abbrev pub has_height : Key → Bool
has_height key = elim key.height [ negsuc n ↦ false | pos h ↦ true ]

-- `std::erase_if`, over the items of one peer.
unfoldable pub without_peer : ℕ → List Item → List Item
without_peer peer [] = []
without_peer peer (i ∷ items) =
    if i.peer == peer then without_peer peer items else i ∷ without_peer peer items

unfoldable pub handle_error : Item → BlockSync → BlockSync
unfolding without_peer
handle_error item s = record s {
  queue = without_peer item.peer s.queue;
  request_active = false;
  request = no_key;
}

-- The status of a validated block, by Timechain::Set.
unfoldable pub set_status : Chains → Key → Option Chains
unfolding locate set status_number
set_status c key = elim key.height [
  | negsuc n ↦ none
  | pos h ↦ elim (locate c.headers h key.hash) [
    | none ↦ none
    | some locator ↦ elim (set same_status c.validation locator structure_valid) [
      | none ↦ none
      | some validation ↦ some (record c { validation = validation })
    ]
  ]
]

-- ValidateItem: the structural rules, then the contextual rules on the view from the parent. Both are
-- the consensus rules', which come in as tests; `none` is an exception.
unfoldable pub validate_item :
    (Block → Bool) → (Block → Iterator → Bool) → Chains → Item → Option Bool
unfolding find_stable next_ancestor
validate_item is_structural is_contextual c item =
    if not (is_structural item.block) then some false else elim item.id.height [
      | negsuc n ↦ none
      | pos h ↦
          let it = find_stable c.headers h item.id.hash in
          if not (is_valid c.headers it)
          then none
          else elim (next_ancestor header_parts c.headers it) [
            | none ↦ none
            | some parent ↦ some (is_contextual item.block parent)
          ]
    ]

abbrev pub completion : RequestState → ℕ → List Event
completion finished peer = completed peer ∷ []
completion active peer = []
completion deferred peer = []
completion disconnected peer = []

-- SizeInBytes, which depends on the allocator: an int, of which the sum takes the 32 bits.
module _ (size_in_bytes : Item → ℕ) where
  -- The item that a block makes, behind the others.
  abbrev pub queued : ℕ → Block → BlockSync → BlockSync
  queued peer block s =
      let item : Item = record { peer = peer; id = s.request; block = block } in
      record s {
        queue = s.queue ++ item ∷ [];
        queue_bytes = (s.queue_bytes + size_in_bytes item) % 2 ^ 32;
        request_active = false;
      }

  unfoldable pub on_block :
      (Bytes → Hash) → Chains → ℕ → Bool → Block → BlockSync → Option (List Event × BlockSync)
  unfolding compute_hash request_next_block
  on_block double_sha256 c peer alive block s =
      if not (s.request_active && has_height s.request)
      then some ([], s)
      else if not (bytes_eq (compute_hash double_sha256 block.header) s.request.hash)
      then some (failed peer ∷ [], s)
      else elim (request_next_block c peer alive (queued peer block s)) [
        | none ↦ none
        | some (state, events, s') ↦ some (events, s')
      ]

  module _ (is_structural : Block → Bool) (is_contextual : Block → Iterator → Bool) where
    -- What follows the request of a round of Process: the validation and its outcome.
    unfoldable pub finish_item :
        Chains
        → Item
        → RequestState
        → List Event
        → BlockSync
        → Option (List Event × Chains × BlockSync)
    unfolding validate_item handle_error set_status
    finish_item c item state events s = elim (validate_item is_structural is_contextual c item) [
      | none ↦ none
      | some false ↦ some (events ++ failed item.peer ∷ [], c, handle_error item s)
      | some true ↦ elim (set_status c item.id) [
        | none ↦ none
        | some c' ↦ some (events ++ completion state item.peer, c', s)
      ]
    ]

    -- One round of Process for the item that is popped, with the requests that it makes.
    unfoldable pub process_item :
        Chains → Bool → Item → BlockSync → Option (List Event × Chains × BlockSync)
    unfolding request_next_block finish_item
    process_item c alive item s =
        elim (request_next_block c item.peer alive (record s {
          queue_bytes = (s.queue_bytes + (2 ^ 32 - size_in_bytes item % 2 ^ 32)) % 2 ^ 32;
        })) [ none ↦ none | some (state, events, s') ↦ finish_item c item state events s' ]

    unfoldable pub process : Chains → Bool → BlockSync → Option (List Event × Chains × BlockSync)
    unfolding process_item
    process c alive s = elim s.queue [
      | [] ↦ some ([], c, s)
      | item ∷ items ↦ process_item c alive item (record s { queue = items })
    ]
