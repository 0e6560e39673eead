-- ===== src/Data/Timechain/Tip.antt =====
-- A header that is added over the tip of the main chain.
use hornet.Common.{
  ℕ, suc, ◌-◌, ◌≡◌, refl, sym, ap, ◌∙◌, List, [], ◌∷◌, ◌++◌, length, some, Bool, true, false, ltb,
  leb, ◌==◌, arith, Bytes, bytes_eq, length-append, bytes_lt_irrefl,
}
use hornet.Common.Int.{pos, sub_ℕ}
use hornet.Data.ChainTree.{begin_chain, push_to_chain, prune_forest, is_refused}
use hornet.Data.ChainTree
use hornet.Data.HeaderContext.{HeaderContext, header_parts}
use hornet.Data.HeaderTimechain.{
  HeaderTimechain, ContextIterator, AddResult, add_under, reorganise, is_mismatched, max_keep_depth,
}
use hornet.Data.HeaderTimechain.Linked.{prune_forest-chain}
use hornet.Data.KeyframeSidecar.{KeyframeSidecar, add_sync}
use hornet.Data.KeyframeSidecar.Reads.{IsCovered, add_sync-get}
use hornet.Data.Locator.{in_chain, child_height}
use hornet.Data.Timechain.{Timechain, sync_all, add_header}
use hornet.Uint.{Words, lt}
use mathlib.Core.Path.{subst}

-- Where the tip stands that has a context.
abbrev pub tip_iterator : HeaderContext → ContextIterator
tip_iterator c = record { base = begin_chain (pos c.height); context = some c }

-- The context is that of the last header of the chain.
abbrev pub IsAtTip : HeaderTimechain → HeaderContext → Type 0
IsAtTip t c = (t.chain_tip_context ≡ some c) × (length t.chain ≡ suc c.height)

lt_irrefl : (xs : Words) → lt xs xs ≡ false
unfolding lt
lt_irrefl xs = bytes_lt_irrefl _

module _ (t : HeaderTimechain) (c c' : HeaderContext) (at : IsAtTip t c)
    (up : c'.height ≡ suc c.height) (joined : bytes_eq c.hash c'.header.prev_block ≡ true) where
  tip_matches : is_mismatched t (tip_iterator c) c' ≡ false
  tip_matches =
      let inside : ltb c.height (length t.chain) ≡ true = ground (arith, at.1) in
      rw (is_mismatched, inside, joined) refl

  tip_accepts : is_refused header_parts t (begin_chain (pos c.height)) c' ≡ false
  unfolding is_refused child_height
  tip_accepts =
      let inside : ltb c.height (length t.chain) ≡ true = ground (arith, at.1) in
      let next : (suc c.height == c'.height) ≡ true = ground (arith, up) in rw (inside, next) refl

  add-tip :
      ChainTree.add header_parts t (begin_chain (pos c.height)) c'
      ≡ some (begin_chain (pos (length t.chain)), push_to_chain (λ k. k.header) c' t)
  unfolding ChainTree.add child_height
  add-tip =
      let last : (suc c.height == length t.chain) ≡ true = ground (arith, at.1) in
      rw (ChainTree.add, tip_accepts, last) refl

  -- The result of the addition.
  abbrev result : AddResult
  unfolding prune_forest push_to_chain
  result = record {
    it = record { base = begin_chain (pos (length t.chain)); context = some c' };
    moved_from_chain = [];
    timechain = prune_forest (push_to_chain (λ k. k.header) c' t) max_keep_depth;
  }

  reorganise-tip :
      reorganise (begin_chain (pos (length t.chain))) c' (push_to_chain (λ k. k.header) c' t)
      ≡ some result
  unfolding reorganise push_to_chain
  reorganise-tip = rw (reorganise, lt_irrefl c'.total_work) refl

  pub add_under-tip :
      (r : AddResult) × (add_under t (tip_iterator c) c' ≡ some r)
      × (r.it ≡ tip_iterator c')
      × (r.moved_from_chain ≡ [])
      × (r.timechain.chain ≡ t.chain ++ c'.header ∷ [])
      × IsAtTip r.timechain c'
  unfolding add_under push_to_chain
  add_under-tip =
      let kept = prune_forest-chain (push_to_chain (λ k. k.header) c' t) max_keep_depth in
      let height : length t.chain ≡ c'.height = at.1 ∙ sym up in
      (
        result,
        rw (add_under, tip_matches, add-tip, reorganise-tip) refl,
        ap (λ n. record { base = begin_chain (pos n); context = some c' }) height,
        refl,
        kept.0,
        (kept.1, ap length kept.0 ∙ omega (arith, length-append t.chain (c'.header ∷ []), height)),
      )

module _ {T : Type 0} (same : T → T → Bool) (sound : (a b : T) → same a b ≡ true → a ≡ b) where
  -- Sidecars of so many elements of the main chain.
  abbrev pub AreCovered : ℕ → List (KeyframeSidecar T) → Type 0
  AreCovered n [] = Unit {0}
  AreCovered n (s ∷ ss) = (IsCovered s × (s.chain_length ≡ n)) × AreCovered n ss

  sync_all-AreCovered :
      (n : ℕ) (hash : Bytes) (ss : List (KeyframeSidecar T))
      → AreCovered n ss
      → (ss' : List (KeyframeSidecar T)) × (sync_all same
            (record { parent = in_chain (sub_ℕ n 1); hash = hash; moved_from_chain = [] })
            ss
          ≡ some ss')
        × AreCovered (suc n) ss'
  unfolding sync_all
  sync_all-AreCovered n hash [] h = ([], refl, tt)
  sync_all-AreCovered n hash (s ∷ ss) h =
      let a = add_sync-get same sound s hash h.0.0 in
      let a1 =
        subst
          (λ k.
            add_sync same s
              (record { parent = in_chain (sub_ℕ k 1); hash = hash; moved_from_chain = [] })
            ≡ some a.0)
          h.0.1 a.1 in
      let r = sync_all-AreCovered n hash ss h.1 in
      (a.0 ∷ r.0, rw (sync_all, a1, r.1) refl, ((a.2, a.3 ∙ ap suc h.0.1), r.2))

  -- The headers' tip has a context, and the sidecars are as long as the main chain.
  abbrev pub IsInStep : Timechain T → HeaderContext → Type 0
  IsInStep t c = IsAtTip t.headers c × AreCovered (length t.headers.chain) t.sidecars

  -- A header over the tip, which names the tip's hash: AddHeader succeeds, the main chain ends with it,
  -- and the tip and the sidecars are in step with the longer chain.
  pub add_header-IsInStep :
      (t : Timechain T) (c c' : HeaderContext)
      → IsInStep t c
      → c'.height ≡ suc c.height
      → bytes_eq c.hash c'.header.prev_block ≡ true
      → (t' : Timechain T) × (add_header same t (tip_iterator c) c' ≡ some (tip_iterator c', t'))
        × (t'.headers.chain ≡ t.headers.chain ++ c'.header ∷ [])
        × IsInStep t' c'
  unfolding add_header
  add_header-IsInStep t c c' step up joined =
      let r = add_under-tip t.headers c c' step.0 up joined in
      let n : ℕ = length t.headers.chain in
      let below : sub_ℕ n 1 ≡ pos c.height = ap (λ k. sub_ℕ k 1) step.0.1 ∙ sub_suc c.height in
      let synced = sync_all-AreCovered n c'.hash t.sidecars step.1 in
      let synced1 =
        subst
          (λ p.
            sync_all same (record { parent = in_chain p; hash = c'.hash; moved_from_chain = [] })
              t.sidecars
            ≡ some synced.0)
          below synced.1 in
      let synced2 =
        subst
          (λ m.
            sync_all same
              (record { parent = in_chain (pos c.height); hash = c'.hash; moved_from_chain = m })
              t.sidecars
            ≡ some synced.0)
          (sym r.3) synced1 in
      let t' : Timechain T = record { headers = r.0.timechain; sidecars = synced.0 } in
      let longer : length r.0.timechain.chain ≡ suc n =
        ap length r.4 ∙ omega (arith, length-append t.headers.chain (c'.header ∷ [])) in
      (
        t',
        rw (add_header, r.1, synced2) (ap (λ it. some (it, t')) r.2),
        r.4,
        (r.5, subst (λ k. AreCovered k synced.0) (sym longer) synced.2),
      )
    where
      sub_suc : (k : ℕ) → sub_ℕ (suc k) 1 ≡ pos k
      sub_suc k =
          let inside : leb 1 (suc k) ≡ true = ground arith in
          let e : suc k - 1 ≡ k = omega arith in rw (inside, e) refl
