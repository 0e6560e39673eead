-- ===== src/Data/HeaderTimechain.antt =====
-- src/hornetlib/data/header_timechain.{h,cpp}: the tree of headers, whose main chain has the most work.
pub mod Linked
pub mod Reorganise
use hornet.Common.{
  ℕ, zero, suc, List, [], ◌∷◌, length, get_elem?, Option, none, some, Bool, true, false, not, leb,
  ◌==◌, bytes_eq, if◌then◌else◌,
}
use hornet.Common.Int.{pos}
use hornet.Data.ChainTree.{
  Policy, ChainTree, Iterator, null_iterator, begin_chain, begin_forest, is_valid, is_empty,
  next_ancestor, get_ancestor_at_height, try_get, promote_branch, prune_forest,
}
use hornet.Data.ChainTree
use hornet.Data.HashedTree
use hornet.Data.HeaderContext.{HeaderContext, header_parts, extend_with, rewind}
use hornet.Data.Locator.{Locator, in_chain, in_forest}
use hornet.Protocol.Header.{BlockHeader}
use hornet.Protocol.Transaction.{Hash}
use hornet.Uint.{lt}

abbrev pub HeaderTimechain : Type 0
HeaderTimechain = ChainTree BlockHeader HeaderContext

abbrev pub max_search_depth : ℕ
max_search_depth = 144

abbrev pub max_keep_depth : ℕ
max_keep_depth = 288

-- GetChainHash: the tip's from its context, another's from the header above it.
unfoldable pub get_chain_hash : HeaderTimechain → ℕ → Option Hash
get_chain_hash t height =
    if leb (length t.chain) height
    then none
    else if suc height == length t.chain
    then (elim t.chain_tip_context [ none ↦ none | some c ↦ some c.hash ])
    else elim (get_elem? t.chain (suc height)) [ none ↦ none | some h ↦ some h.prev_block ]

-- HeaderContextPolicy, on the tree as it is before the reorganisation.
unfoldable pub get_policy : HeaderTimechain → Policy BlockHeader HeaderContext
unfolding get_chain_hash extend_with rewind
get_policy t = record {
  extend = λ parent next. elim (get_chain_hash t (suc parent.height)) [
    | none ↦ none
    | some hash ↦ extend_with parent next hash
  ];
  rewind = λ child prev. rewind child prev;
}

-- ContextIterator: an iterator of the tree with the context of its element.
pub record ContextIterator : Type 0 where
  pub base : Iterator
  pub context : Option HeaderContext

abbrev pub make_context_iterator : Iterator × Option HeaderContext → ContextIterator
make_context_iterator (base, context) = record { base = base; context = context }

abbrev pub find_tip_or_forks : HeaderTimechain → Hash → ContextIterator
find_tip_or_forks t hash = make_context_iterator (ChainTree.find_tip_or_forks header_parts t hash)

abbrev pub chain_tip : HeaderTimechain → ContextIterator
chain_tip t = make_context_iterator (ChainTree.chain_tip header_parts t)

-- The test of Add on the parent it is given.
abbrev pub is_mismatched : HeaderTimechain → ContextIterator → HeaderContext → Bool
is_mismatched t parent context =
    if is_valid t parent.base
    then elim parent.context [
      | none ↦ true
      | some p ↦ not (bytes_eq p.hash context.header.prev_block)
    ]
    else not (is_empty t)

abbrev pub tip_has_less_work : HeaderTimechain → HeaderContext → Bool
tip_has_less_work t context = elim t.chain_tip_context [
  | none ↦ true
  | some tip ↦ lt tip.total_work context.total_work
]

-- AddResult, and the tree.
pub record AddResult : Type 0 where
  pub it : ContextIterator
  pub moved_from_chain : List Hash
  pub timechain : HeaderTimechain

-- Add behind the tree's own Add: a reorganisation to a branch of more work, and the pruning.
unfoldable pub reorganise : Iterator → HeaderContext → HeaderTimechain → Option AddResult
unfolding promote_branch get_policy prune_forest ChainTree.chain_tip
reorganise child context t =
    if tip_has_less_work t context
    then elim (promote_branch header_parts t child (get_policy t)) [
      | none ↦ none
      | some ((it, moved), t') ↦ some (record {
        it = record { base = it; context = (ChainTree.chain_tip header_parts t').1 };
        moved_from_chain = moved;
        timechain = prune_forest t' max_keep_depth;
      })
    ]
    else some (record {
      it = record { base = child; context = some context };
      moved_from_chain = [];
      timechain = prune_forest t max_keep_depth;
    })

unfoldable pub add_under : HeaderTimechain → ContextIterator → HeaderContext → Option AddResult
unfolding ChainTree.add reorganise
add_under t parent context =
    if is_mismatched t parent context
    then none
    else elim (ChainTree.add header_parts t parent.base context) [
      | none ↦ none
      | some (child, t') ↦ reorganise child context t'
    ]

-- Add, with the search for the parent. Where it is not found, the result is the null iterator.
unfoldable pub add : HeaderTimechain → HeaderContext → Option AddResult
unfolding add_under ChainTree.find_tip_or_forks
add t context =
    let parent = find_tip_or_forks t context.header.prev_block in
    let null : ContextIterator = record { base = null_iterator; context = none } in
    if is_empty t
    then add_under t null context
    else if not (is_valid t parent.base)
    then some (record { it = parent; moved_from_chain = []; timechain = t })
    else add_under t parent context

-- The operator ++ of ContextIterator. Past the first element the context has no value.
unfoldable pub next_context : HeaderTimechain → ContextIterator → Option ContextIterator
unfolding next_ancestor try_get rewind
next_context t it = elim (next_ancestor header_parts t it.base) [
  | none ↦ none
  | some base ↦ some (record {
    base = base;
    context = elim (try_get header_parts t base) [
      | none ↦ none
      | some prev ↦ elim it.context [ none ↦ none | some c ↦ rewind c prev ]
    ];
  })
]

-- The scan of Search, over so many elements.
unfoldable pub search_loop : ℕ → HeaderTimechain → Hash → ContextIterator → Option ContextIterator
unfolding next_context
search_loop zero t hash it = some (record { base = null_iterator; context = none })
search_loop (suc depth) t hash it = elim it.context [
  | none ↦ some (record { base = null_iterator; context = none })
  | some c ↦
      let rest : Option ContextIterator = elim (next_context t it) [
        | none ↦ none
        | some it' ↦ search_loop depth t hash it'
      ] in
      if bytes_eq c.hash hash then some it else rest
]

unfoldable pub search : HeaderTimechain → Hash → Option ContextIterator
unfolding ChainTree.find_tip_or_forks ChainTree.chain_tip search_loop
search t hash =
    let lookup = find_tip_or_forks t hash in
    if is_valid t lookup.base
    then some lookup
    else search_loop max_search_depth t hash (chain_tip t)

abbrev pub is_chain_hash : HeaderTimechain → ℕ → Hash → Bool
is_chain_hash t height hash = elim (get_chain_hash t height) [
  | none ↦ false
  | some h ↦ bytes_eq hash h
]

-- MakeLocator, which throws for a negative height.
unfoldable pub locate : HeaderTimechain → ℕ → Hash → Option Locator
unfolding get_chain_hash HashedTree.find
locate t height hash =
    if is_chain_hash t height hash
    then some (in_chain (pos height))
    else elim (HashedTree.find hash t.forest) [
      | none ↦ none
      | some n ↦ if bytes_eq n.hash hash then some (in_forest hash) else none
    ]

unfoldable pub find_stable : HeaderTimechain → ℕ → Hash → Iterator
unfolding get_chain_hash HashedTree.find
find_stable t height hash =
    if is_chain_hash t height hash
    then begin_chain (pos height)
    else elim (HashedTree.find hash t.forest) [
      | none ↦ null_iterator
      | some n ↦ if bytes_eq n.hash hash then begin_forest (some n.id) else null_iterator
    ]

-- ValidationView, of the chain that ends at a tip.
unfoldable pub view_timestamp_at : HeaderTimechain → Iterator → ℕ → Option ℕ
unfolding get_ancestor_at_height
view_timestamp_at t tip height = elim (get_ancestor_at_height header_parts t tip height) [
  | none ↦ none
  | some h ↦ some h.timestamp
]

unfoldable pub view_last_n_timestamps : HeaderTimechain → Iterator → ℕ → Option (List ℕ)
unfolding try_get next_ancestor
view_last_n_timestamps t it zero = some []
view_last_n_timestamps t it (suc count) =
    let rest : Option (List ℕ) = elim (next_ancestor header_parts t it) [
      | none ↦ none
      | some it' ↦ view_last_n_timestamps t it' count
    ] in
    if not (is_valid t it) then some [] else elim (try_get header_parts t it) [
      | none ↦ none
      | some h ↦ elim rest [ none ↦ none | some times ↦ some (h.timestamp ∷ times) ]
    ]
