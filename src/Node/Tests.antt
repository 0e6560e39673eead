-- ===== src/Node/Tests.antt =====
-- The negotiation of src/hornetnodelib/dispatch/peer_negotiator.cpp at a concrete nonce and message, and
-- the download of blocks of src/hornetnodelib/sync/block_sync.h with a queue of one to three items.
use hornet.Common.{
  ◌%◌, ◌^◌, ℕ, ◌+◌, ◌≡◌, ◌≢◌, refl, [], ◌∷◌, take, Bytes, bytes_eq, none, some, true, false,
  if◌then◌else◌,
}
use hornet.Common.Int.{pos}
use hornet.Data.HashedTree.{empty_tree}
use hornet.Data.HeaderTimechain.{get_chain_hash}
use hornet.Consensus.Ancestry.{HeaderAncestryView}
use hornet.Consensus.Env.{Env}
use hornet.Data.ChainTree.{Iterator}
use hornet.Data.HeaderContext.{HeaderContext}
use hornet.Data.HeaderTimechain.{HeaderTimechain}
use hornet.Data.Timechain.{Timechain}
use hornet.Common.{List, arith}
use hornet.Common.{Option}
use hornet.Data.HeaderTimechain.Linked.{IsLinked, IsTip}
use hornet.Node.BlockSync.{Key}
use hornet.Node.BlockSync.NextBlock.{IsNext, get_next_block_id-IsNext}
use hornet.Encoding.Endian.{le_bytes}
use hornet.Encoding.Writer.{write_bytes, write_le}
use hornet.Node.BlockSync.{
  unvalidated, Item, BlockSync, Chains, failed, no_key, queued, on_block, process, process_item,
  finish_item, validate_item, handle_error, without_peer, request_next_block, get_next_block_id,
  is_in_main_chain,
}
use hornet.Node.BlockSync.Accounts.{
  IsAccounted, total, total_of_peer, on_block-IsAccounted, process-queue_bytes,
}
use hornet.Protocol.Block.{Block}
use hornet.Protocol.Header.{BlockHeader, compute_hash, serialize}
use hornet.Protocol.Transaction.{Hash}
use hornet.Node.Negotiator.{new_peer, on_message, fuel_exhausted}
use hornet.Node.Negotiator.Enough.{on_message-ends}
use hornet.Node.Negotiator.Pair.{Network, connect, Eventually, IsSettled, connect-Eventually}
use hornet.Protocol.Handshake.{inbound}
use hornet.Protocol.Message.{verack}

connect-Eventually_example : (c : Network) × (connect 3 ≡ some c) × Eventually 3 IsSettled c
connect-Eventually_example = connect-Eventually 3

on_message-ends_example : on_message 3 (new_peer inbound) verack ≢ fuel_exhausted
on_message-ends_example = on_message-ends 3 (new_peer inbound) verack

-- A chain of two headers, whose first bytes are their hashes.
abbrev version_byte : Bytes → Hash
version_byte b = take 1 b

abbrev header_after : ℕ → ℕ → BlockHeader
header_after version prev = record {
  version = pos version;
  prev_block = prev ∷ [];
  merkle_root = [];
  timestamp = 0;
  bits = 0;
  nonce = 0;
}

abbrev chains : Chains
chains = record {
  headers = record {
    chain = header_after 0 9 ∷ header_after 1 0 ∷ [];
    chain_tip_context = some (record {
      header = header_after 1 0;
      hash = 1 ∷ [];
      local_work = [];
      total_work = [];
      height = 1;
    });
    forest = empty_tree;
    min_root_height = none;
  };
  validation = record {
    default_value = unvalidated;
    chain_length = 2;
    keyframes = record { start = 0; value = unvalidated } ∷ [];
    forks = empty_tree;
  };
}

abbrev block : Block
block = record {
  header = header_after 1 0;
  transactions = [];
  serialized_bytes = pos 81;
  witness_bytes = pos 0;
}

abbrev item_of : ℕ → Item
item_of peer = record { peer = peer; id = record { height = pos 1; hash = 1 ∷ [] }; block = block }

abbrev size_in_bytes : Item → ℕ
size_in_bytes item = 10

abbrev waiting : BlockSync
waiting = record {
  queue = item_of 3 ∷ [];
  queue_bytes = 10;
  max_queue_bytes = pos 100;
  request_active = true;
  request = record { height = pos 1; hash = 1 ∷ [] };
}

arrives :
    on_block size_in_bytes version_byte chains 4 true block waiting
    ≡ some ([], queued size_in_bytes 4 block waiting)
unfolding on_block compute_hash serialize write_bytes write_le le_bytes bytes_eq request_next_block
    get_next_block_id is_in_main_chain get_chain_hash
arrives = refl

on_block-IsAccounted_example : IsAccounted size_in_bytes (queued size_in_bytes 4 block waiting)
on_block-IsAccounted_example =
    on_block-IsAccounted size_in_bytes version_byte chains 4 true block waiting []
      (queued size_in_bytes 4 block waiting) refl arrives

-- Two items of a peer and one of another; the first is not valid.
abbrev three_items : BlockSync
three_items = record waiting { queue = item_of 3 ∷ item_of 3 ∷ item_of 4 ∷ []; queue_bytes = 30 }

abbrev one_left : BlockSync
one_left = record waiting {
  queue = item_of 4 ∷ [];
  queue_bytes = 20;
  request_active = false;
  request = no_key;
}

rejected :
    process size_in_bytes (λ _. false) (λ _ _. true) chains true three_items
    ≡ some (failed 3 ∷ [], chains, one_left)
unfolding process process_item finish_item validate_item handle_error without_peer
    request_next_block
rejected = refl

not_valid : validate_item (λ _. false) (λ _ _. true) chains (item_of 3) ≡ some false
unfolding validate_item
not_valid = refl

process-queue_bytes_example :
    one_left.queue_bytes
    ≡ (total size_in_bytes one_left.queue
        + (if false then 0 else total_of_peer size_in_bytes 3 (item_of 3 ∷ item_of 4 ∷ [])))
      % 2 ^ 32
process-queue_bytes_example =
    process-queue_bytes size_in_bytes (λ _. false) (λ _ _. true) chains true (item_of 3)
      (item_of 3 ∷ item_of 4 ∷ []) false three_items (failed 3 ∷ []) chains one_left refl refl
      not_valid rejected

abbrev tip_context : HeaderContext
tip_context = record {
  header = header_after 1 0;
  hash = 1 ∷ [];
  local_work = [];
  total_work = [];
  height = 1;
}

-- The header rules, on a network of the easiest target, at a view of two headers.
abbrev easy_env : Env
easy_env = record {
  double_sha256 = version_byte;
  sort_timestamps = λ times. times;
  sort_out_points = λ points. points;
  now_ticks = 1000;
  ticks_per_second = 1;
}

abbrev view_of : HeaderTimechain → Iterator → HeaderAncestryView
view_of t it = record {
  view_length = 2;
  timestamp_at = λ height. 1;
  last_n_timestamps = λ count. 1 ∷ [];
}

abbrev mined_after : ℕ → ℕ → BlockHeader
mined_after version prev = record (header_after version prev) { timestamp = 5; bits = 0x207f_ffff }

abbrev mined_tip : HeaderContext
mined_tip = record {
  header = mined_after 5 4;
  hash = 5 ∷ [];
  local_work = [];
  total_work = [];
  height = 1;
}

abbrev two_headers : Timechain ℕ
two_headers = record {
  headers = record {
    chain = mined_after 4 9 ∷ mined_after 5 4 ∷ [];
    chain_tip_context = some mined_tip;
    forest = empty_tree;
    min_root_height = none;
  };
  sidecars =
      record {
        default_value = 0;
        chain_length = 2;
        keyframes = record { start = 0; value = 0 } ∷ [];
        forks = empty_tree;
      }
      ∷ [];
}

-- The second header of the batch does not name the first.
abbrev two_more : List BlockHeader
two_more = mined_after 6 5 ∷ mined_after 7 9 ∷ []

chain-IsLinked : IsLinked version_byte chains.headers.chain
unfolding compute_hash serialize write_bytes write_le le_bytes
chain-IsLinked = (refl, tt)

chain-IsTip : IsTip version_byte chains.headers tip_context
unfolding compute_hash serialize write_bytes write_le le_bytes
chain-IsTip = (refl, refl, refl)

nothing_requested : is_in_main_chain chains.headers no_key ≡ false
unfolding is_in_main_chain
nothing_requested = refl

get_next_block_id-IsNext_example :
    (next : Option Key) × (get_next_block_id chains no_key ≡ some next)
    × IsNext version_byte chains next
get_next_block_id-IsNext_example =
    get_next_block_id-IsNext version_byte chains tip_context no_key chain-IsLinked chain-IsTip
      (refl, omega arith, tt) refl (omega arith) nothing_requested
