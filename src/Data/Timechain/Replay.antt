-- ===== src/Data/Timechain/Replay.antt =====
-- A sidecar that is added to a timechain without forks.
use hornet.Common.{
  Bytes, ℕ, suc, ◌+◌, ◌<◌, ◌≡◌, refl, ap, ◌∙◌, List, [], ◌∷◌, ◌++◌, length, some, Bool, true, ◌==◌,
  arith, Bool-cases, inl, inr,
}
use hornet.Common.Int.{pos, sub_ℕ}
use hornet.Data.ChainTree.{NodeData}
use hornet.Data.HashedTree.{Node}
use hornet.Data.HeaderContext.{HeaderContext}
use hornet.Data.HeaderTimechain.{HeaderTimechain}
use hornet.Data.HeaderTimechain.Linked.{get_chain_hash-some}
use hornet.Data.KeyframeSidecar.{KeyframeSidecar, get, add_sync}
use hornet.Data.KeyframeSidecar.Reads.{IsCovered, add_sync-get}
use hornet.Data.Locator.{in_chain}
use hornet.Data.Timechain.{Timechain, replay_chain, replay_forest, add_sidecar}
use hornet.Protocol.Header.{BlockHeader}
use mathlib.Core.Path.{subst}

module _ {T : Type 0} (same : T → T → Bool) (sound : (a b : T) → same a b ≡ true → a ≡ b) where
  -- A sidecar of so many elements, each with the default value.
  abbrev pub IsDefault : ℕ → T → KeyframeSidecar T → Type 0
  IsDefault n v s =
      IsCovered s
      × (s.chain_length ≡ n)
      × (s.default_value ≡ v)
      × ((h : ℕ) → h < n → get s (in_chain (pos h)) ≡ some v)

  add_sync-IsDefault :
      (n : ℕ) (v : T) (s : KeyframeSidecar T) (hash : Bytes)
      → IsDefault n v s
      → (s' : KeyframeSidecar T) × (add_sync same s
            (record { parent = in_chain (sub_ℕ n 1); hash = hash; moved_from_chain = [] })
          ≡ some s')
        × IsDefault (suc n) v s'
  add_sync-IsDefault n v s hash d =
      let r = add_sync-get same sound s hash d.0 in
      (
        r.0,
        subst
            (λ k.
              add_sync same s
                (record { parent = in_chain (sub_ℕ k 1); hash = hash; moved_from_chain = [] })
              ≡ some r.0)
            d.1 r.1,
        (
          r.2,
          r.3 ∙ ap suc d.1,
          r.5 ∙ d.2,
          λ h lt. r.6 h ∙ elim (Bool-cases (h == s.chain_length)) [
            | inl e ↦ rw e (ap some d.2)
            | inr e ↦ rw e (d.3 h (ground (arith, d.1)))
          ],
        ),
      )

  replay_chain-IsDefault :
      (t : HeaderTimechain) (c : HeaderContext) (headers : List BlockHeader) (n : ℕ) (v : T)
      (s : KeyframeSidecar T)
      → t.chain_tip_context ≡ some c
      → n + length headers ≡ length t.chain
      → IsDefault n v s
      → (s' : KeyframeSidecar T) × (replay_chain same t headers n s ≡ some s')
        × IsDefault (n + length headers) v s'
  unfolding replay_chain
  replay_chain-IsDefault t c [] n v s tip fits d =
      (s, refl, subst (λ k. IsDefault k v s) (omega arith) d)
  replay_chain-IsDefault t c (h ∷ headers) n v s tip fits d =
      let hash = get_chain_hash-some t c n tip (omega (arith, fits)) in
      let a = add_sync-IsDefault n v s hash.0 d in
      let r = replay_chain-IsDefault t c headers (suc n) v a.0 tip (omega (arith, fits)) a.2 in
      (r.0, rw (replay_chain, hash.1, a.1) r.1, subst (λ k. IsDefault k v r.0) (omega arith) r.2)

  replay_forest_nil :
      (t : HeaderTimechain) (nodes : List (Node (NodeData HeaderContext))) (s : KeyframeSidecar T)
      → nodes ≡ []
      → replay_forest same t nodes s ≡ some s
  unfolding replay_forest
  replay_forest_nil t nodes s bare = rw bare refl

  -- In a timechain with a tip and without forks, AddSidecar of a sidecar without elements succeeds: the
  -- headers and the other sidecars stay, and the new one is as long as the main chain, its keyframes
  -- cover it, and Get returns its default value at every height.
  pub add_sidecar-IsDefault :
      (t : Timechain T) (c : HeaderContext) (v : T) (s : KeyframeSidecar T)
      → t.headers.chain_tip_context ≡ some c
      → t.headers.forest.nodes ≡ []
      → IsDefault 0 v s
      → (s' : KeyframeSidecar T) × (add_sidecar same s t
          ≡ some (record { headers = t.headers; sidecars = t.sidecars ++ s' ∷ [] }))
        × IsDefault (length t.headers.chain) v s'
  unfolding add_sidecar
  add_sidecar-IsDefault t c v s tip bare d =
      let r = replay_chain-IsDefault t.headers c t.headers.chain 0 v s tip (omega arith) d in
      (
        r.0,
        rw (add_sidecar, r.1, replay_forest_nil t.headers t.headers.forest.nodes r.0 bare) refl,
        subst (λ k. IsDefault k v r.0) (omega arith) r.2,
      )
