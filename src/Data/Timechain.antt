-- ===== src/Data/Timechain.antt =====
-- src/hornetlib/data/timechain.h: the headers with the sidecars that are kept in step with them.
pub mod Replay
pub mod Tip
use hornet.Common.{ℕ, suc, List, [], ◌∷◌, ◌++◌, Option, none, some, Bool}
use hornet.Common.Int.{sub_ℕ}
use hornet.Data.ChainTree.{NodeData, make_locator}
use hornet.Data.HashedTree.{Node, node_at}
use hornet.Data.HeaderContext.{HeaderContext}
use hornet.Data.HeaderTimechain.{HeaderTimechain, ContextIterator, add_under, get_chain_hash}
use hornet.Data.KeyframeSidecar.{KeyframeSidecar, add_sync}
use hornet.Data.Locator.{Locator, in_chain, in_forest, SidecarAddSync}
use hornet.Protocol.Header.{BlockHeader}

-- The sidecars are keyframe sidecars of one type.
pub record Timechain (T : Type 0) : Type 0 where
  pub headers : HeaderTimechain
  pub sidecars : List (KeyframeSidecar T)

-- The locator of an element that has a context.
abbrev pub locator_of : ContextIterator → Option Locator
locator_of it = elim it.context [ none ↦ none | some c ↦ some (make_locator it.base c.hash) ]

-- ForEach: the locator of the parent of a node.
unfoldable pub parent_locator : HeaderTimechain → Node (NodeData HeaderContext) → Option Locator
unfolding node_at
parent_locator t n = elim n.parent [
  | none ↦ some (in_chain (sub_ℕ n.value.context.height 1))
  | some p ↦ elim (node_at t.forest.nodes p) [ none ↦ none | some m ↦ some (in_forest m.hash) ]
]

module _ {T : Type 0} (same : T → T → Bool) where
  unfoldable pub sync_all :
      SidecarAddSync → List (KeyframeSidecar T) → Option (List (KeyframeSidecar T))
  unfolding add_sync
  sync_all sync [] = some []
  sync_all sync (s ∷ ss) = elim (add_sync same s sync) [
    | none ↦ none
    | some s' ↦ elim (sync_all sync ss) [ none ↦ none | some ss' ↦ some (s' ∷ ss') ]
  ]

  -- AddHeader: the header, and then the notice of it to each sidecar.
  unfoldable pub add_header :
      Timechain T → ContextIterator → HeaderContext → Option (ContextIterator × Timechain T)
  unfolding add_under sync_all
  add_header t parent context = elim (add_under t.headers parent context) [
    | none ↦ none
    | some r ↦ elim (locator_of parent) [
      | none ↦ none
      | some locator ↦
          elim (sync_all
            (record {
              parent = locator;
              hash = context.hash;
              moved_from_chain = r.moved_from_chain;
            })
            t.sidecars) [
              | none ↦ none
              | some sidecars ↦ some (r.it, record { headers = r.timechain; sidecars = sidecars })
            ]
    ]
  ]

  -- AddSidecar: the sidecar is told of each element of the main chain, from a height on,
  unfoldable pub replay_chain :
      HeaderTimechain → List BlockHeader → ℕ → KeyframeSidecar T → Option (KeyframeSidecar T)
  unfolding get_chain_hash add_sync
  replay_chain t [] height s = some s
  replay_chain t (h ∷ headers) height s = elim (get_chain_hash t height) [
    | none ↦ none
    | some hash ↦
        elim (add_sync same s
          (record { parent = in_chain (sub_ℕ height 1); hash = hash; moved_from_chain = [] })) [
            | none ↦ none
            | some s' ↦ replay_chain t headers (suc height) s'
          ]
  ]

  -- and of each node of the forest.
  unfoldable pub replay_forest :
      HeaderTimechain
      → List (Node (NodeData HeaderContext))
      → KeyframeSidecar T
      → Option (KeyframeSidecar T)
  unfolding parent_locator add_sync
  replay_forest t [] s = some s
  replay_forest t (n ∷ nodes) s = elim (parent_locator t n) [
    | none ↦ none
    | some locator ↦
        elim (add_sync same s (record { parent = locator; hash = n.hash; moved_from_chain = [] })) [
          | none ↦ none
          | some s' ↦ replay_forest t nodes s'
        ]
  ]

  unfoldable pub add_sidecar : KeyframeSidecar T → Timechain T → Option (Timechain T)
  unfolding replay_chain replay_forest
  add_sidecar s t = elim (replay_chain t.headers t.headers.chain 0 s) [
    | none ↦ none
    | some s' ↦ elim (replay_forest t.headers t.headers.forest.nodes s') [
      | none ↦ none
      | some s'' ↦ some (record t { sidecars = t.sidecars ++ s'' ∷ [] })
    ]
  ]
