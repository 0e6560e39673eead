-- ===== src/Data/TimechainTests.antt =====
-- A reorganisation of src/hornetlib/data/header_timechain.cpp: a chain of three headers and a fork of two over
-- the first one, whose tip has more work. A header's hash is its version's first byte.
use hornet.Common.{
  ℕ, ◌≡◌, refl, List, [], ◌∷◌, take, none, some, true, Bytes, arith, bytes_eq, bytes_lt,
}
use hornet.Common.Int.{pos}
use hornet.Data.ChainTree.{
  NodeData, begin_chain, begin_forest, chain_tip_height, promote_branch, swap_branches,
}
use hornet.Data.ChainTree.Promote.{AreFresh, Extends, swap_branches-chain}
use hornet.Data.HashedTree.{Node, node_at, map_find, has_child, reverse_onto}
use hornet.Data.HashedTree.Extend.{IsBranch}
use hornet.Data.HeaderContext.{HeaderContext, header_parts, extend_with, rewind}
use hornet.Data.HeaderTimechain.{
  HeaderTimechain, get_chain_hash, get_policy, reorganise, tip_has_less_work,
}
use hornet.Data.HeaderTimechain.Linked.{IsLinked, IsTip, get_chain_hash-compute_hash}
use hornet.Data.HeaderTimechain.Reorganise.{swap_branches-IsLinked}
use hornet.Data.KeyframeSidecar.{KeyframeSidecar}
use hornet.Data.HashedTree.{empty_tree}
use hornet.Data.Timechain.{Timechain, add_sidecar}
use hornet.Data.Timechain.Replay.{IsDefault, add_sidecar-IsDefault}
use hornet.Common.{◌==◌, ==_iff, ◌++◌}
use hornet.Encoding.Endian.{le_bytes}
use hornet.Encoding.Writer.{write_bytes, write_le}
use hornet.Protocol.Header.{BlockHeader, compute_hash, header_work, serialize}
use hornet.Protocol.Target.{expand, get_work, zero_256, work_add, work_sub}
use hornet.Protocol.Transaction.{Hash}
use hornet.Uint.{Words, lt}

abbrev version_byte : Bytes → Hash
version_byte b = take 1 b

abbrev header_after : ℕ → ℕ → BlockHeader
header_after version prev = record {
  version = pos version;
  prev_block = prev ∷ [];
  merkle_root = [];
  timestamp = 0;
  bits = 0;
  nonce = 0;
}

abbrev context_at : BlockHeader → ℕ → Words → ℕ → HeaderContext
context_at header hash total height = record {
  header = header;
  hash = hash ∷ [];
  local_work = zero_256;
  total_work = total;
  height = height;
}

abbrev first : BlockHeader
first = header_after 0 9

abbrev second : BlockHeader
second = header_after 1 0

abbrev third : BlockHeader
third = header_after 2 1

abbrev root_header : BlockHeader
root_header = header_after 5 0

abbrev tip_header : BlockHeader
tip_header = header_after 6 5

abbrev some_work : Words
some_work = 1 ∷ 0 ∷ 0 ∷ 0 ∷ []

abbrev root : Node (NodeData HeaderContext)
root = record {
  id = 0;
  parent = none;
  hash = 5 ∷ [];
  value = record { context = context_at root_header 5 zero_256 1; root_height = 1 };
}

abbrev tip : Node (NodeData HeaderContext)
tip = record {
  id = 1;
  parent = some 0;
  hash = 6 ∷ [];
  value = record { context = context_at tip_header 6 some_work 2; root_height = 1 };
}

abbrev fork_children : List (ℕ × ℕ)
fork_children = (0, 1) ∷ []

abbrev timechain : HeaderTimechain
timechain = record {
  chain = first ∷ second ∷ third ∷ [];
  chain_tip_context = some (context_at third 2 zero_256 2);
  forest = record {
    nodes = root ∷ tip ∷ [];
    index = (5 ∷ [], 0) ∷ (6 ∷ [], 1) ∷ [];
    children = fork_children;
    next_id = 2;
  };
  min_root_height = some 1;
}

-- The contexts of the fork's foot and of the two headers that leave the chain.
abbrev foot : HeaderContext
foot = context_at first 0 (work_sub zero_256 zero_256) 0

abbrev moved : List HeaderContext
moved =
    context_at second 1 (work_add foot.total_work zero_256) 1
    ∷ context_at third 2 (work_add (work_add foot.total_work zero_256) zero_256) 2
    ∷ []

fork-IsBranch : IsBranch timechain.forest tip (root ∷ [])
unfolding node_at map_find has_child bytes_eq
fork-IsBranch = (((refl, refl), refl, omega arith, ((refl, refl), refl)), refl, omega arith)

fork_reversed : reverse_onto (tip ∷ root ∷ []) [] ≡ root ∷ tip ∷ []
unfolding reverse_onto
fork_reversed = refl

fork_foot : (get_policy timechain).rewind root.value.context first ≡ some foot
unfolding get_policy rewind header_work expand get_work
fork_foot = refl

moved-Extends : Extends header_parts (get_policy timechain) foot (second ∷ third ∷ []) moved
unfolding get_policy get_chain_hash extend_with header_work expand get_work
moved-Extends = (refl, (refl, tt))

moved_fresh : AreFresh header_parts moved (tip ∷ root ∷ [])
unfolding bytes_eq
moved_fresh = ((refl, (refl, tt)), ((refl, (refl, tt)), tt))

timechain-IsLinked : IsLinked version_byte timechain.chain
unfolding compute_hash serialize write_bytes write_le le_bytes
timechain-IsLinked = (refl, (refl, tt))

fork-IsLinked : IsLinked version_byte (first ∷ root_header ∷ tip_header ∷ [])
unfolding compute_hash serialize write_bytes write_le le_bytes
fork-IsLinked = (refl, (refl, tt))

timechain-IsTip : IsTip version_byte timechain (context_at third 2 zero_256 2)
unfolding compute_hash serialize write_bytes write_le le_bytes
timechain-IsTip = (refl, refl, refl)

tip_hash : (6 ∷ []) ≡ compute_hash version_byte tip_header
unfolding compute_hash serialize write_bytes write_le le_bytes
tip_hash = refl

tip_work : tip_has_less_work timechain tip.value.context ≡ true
unfolding lt bytes_lt
tip_work = refl

get_chain_hash-compute_hash_example :
    get_chain_hash timechain 1 ≡ some (compute_hash version_byte second)
get_chain_hash-compute_hash_example =
    get_chain_hash-compute_hash version_byte timechain (context_at third 2 zero_256 2) 1 second
      timechain-IsLinked timechain-IsTip refl

swap_branches-chain_example :
    (t' : HeaderTimechain) × (swap_branches header_parts (get_policy timechain) 1 timechain
      ≡ some ((begin_chain (chain_tip_height t'), (1 ∷ []) ∷ (2 ∷ []) ∷ []), t'))
    × (t'.chain ≡ first ∷ root_header ∷ tip_header ∷ [])
    × (t'.chain_tip_context ≡ some tip.value.context)
    × IsBranch t'.forest tip (root ∷ [])
    × (promote_branch header_parts timechain (begin_forest (some 1)) (get_policy timechain) ≡ none)
swap_branches-chain_example =
    swap_branches-chain header_parts (get_policy timechain) timechain tip root (root ∷ [])
      (tip ∷ []) first foot moved fork-IsBranch fork_reversed refl fork_foot (omega arith)
      moved-Extends moved_fresh

swap_branches-IsLinked_example :
    (t' : HeaderTimechain) × (swap_branches header_parts (get_policy timechain) 1 timechain
      ≡ some ((begin_chain (chain_tip_height t'), (1 ∷ []) ∷ (2 ∷ []) ∷ []), t'))
    × (t'.chain ≡ first ∷ root_header ∷ tip_header ∷ [])
    × IsLinked version_byte t'.chain
    × IsTip version_byte t' tip.value.context
    × (reorganise (begin_forest (some 1)) tip.value.context timechain ≡ none)
swap_branches-IsLinked_example =
    swap_branches-IsLinked version_byte timechain tip root (root ∷ []) (tip ∷ []) first foot moved
      timechain-IsLinked fork-IsLinked tip_hash tip_work fork-IsBranch fork_reversed refl fork_foot
      (omega arith) moved-Extends moved_fresh

-- A timechain of the three headers alone, without a sidecar, and a sidecar without elements.
abbrev bare_timechain : Timechain ℕ
bare_timechain = record {
  headers = record timechain { forest = empty_tree; min_root_height = none };
  sidecars = [];
}

abbrev new_sidecar : KeyframeSidecar ℕ
new_sidecar = record { default_value = 8; chain_length = 0; keyframes = []; forks = empty_tree }

new_sidecar-IsDefault : IsDefault (λ a b. a == b) (λ a b. (==_iff a b).0) 0 8 new_sidecar
new_sidecar-IsDefault = (refl, refl, refl, λ h lt. absurd (omega (arith, lt)))

add_sidecar-IsDefault_example :
    (s' : KeyframeSidecar ℕ) × (add_sidecar (λ a b. a == b) new_sidecar bare_timechain
      ≡ some (record { headers = bare_timechain.headers; sidecars = [] ++ s' ∷ [] }))
    × IsDefault (λ a b. a == b) (λ a b. (==_iff a b).0) 3 8 s'
add_sidecar-IsDefault_example =
    add_sidecar-IsDefault (λ a b. a == b) (λ a b. (==_iff a b).0) bare_timechain
      (context_at third 2 zero_256 2) 8 new_sidecar refl refl new_sidecar-IsDefault
