-- ===== src/Node/HeaderSync/Grow.antt =====
-- A batch of headers over the tip of the main chain.
use hornet.Common.{suc, ◌≡◌, refl, sym, List, [], ◌∷◌, Bytes, some, Bool, true}
use hornet.Common.Int.{pos}
use hornet.Consensus.Ancestry.{HeaderAncestryView}
use hornet.Consensus.Env.{Env}
use hornet.Consensus.HeaderRules.{validate_header}
use hornet.Consensus.HeaderRules.Valid.{validate_header_iff}
use hornet.Consensus.Types.{Result, success, failure, aborts, is_success}
use hornet.Data.ChainTree.{Iterator}
use hornet.Data.HeaderContext.{HeaderContext}
use hornet.Data.HeaderTimechain.{HeaderTimechain}
use hornet.Data.HeaderTimechain.Linked.{IsLinked, IsTip}
use hornet.Data.Timechain.{Timechain}
use hornet.Data.Timechain.Tip.{IsInStep}
use hornet.Protocol.Header.{BlockHeader, compute_hash, header_work}
use hornet.Protocol.Target.{work_add}
use hornet.Protocol.Transaction.{Hash}
use hornet.Uint.{Words}

-- The work of each header can be computed, which the exponents of an undefined shift prevent.
abbrev pub HaveWork : List BlockHeader → Type 0
HaveWork [] = Unit {0}
HaveWork (h ∷ headers) = ((work : Words) × (header_work h ≡ some work)) × HaveWork headers

-- The test that ValidateHeader makes, on the view that `view_of` gives: it succeeds.
abbrev pub rules_accept :
    Env
    → (HeaderTimechain → Iterator → HeaderAncestryView)
    → BlockHeader
    → HeaderContext
    → HeaderTimechain
    → Iterator
    → Bool
rules_accept env view_of h c t it = is_success (
    validate_header env (record {
      header = h;
      parent = c.header;
      view = view_of t it;
      current_time = pos 0;
      height = (view_of t it).view_length;
    }))

is_success-success : (r : Result) → is_success r ≡ true → r ≡ success
unfolding is_success
is_success-success success e = refl
is_success-success (failure x) e = absurd (cc)
is_success-success aborts e = absurd (cc)

module _ (double_sha256 : Bytes → Hash) {T : Type 0} (same : T → T → Bool)
    (sound : (a b : T) → same a b ≡ true → a ≡ b)
    (is_valid_header : BlockHeader → HeaderContext → HeaderTimechain → Iterator → Bool) where
  -- A chain of headers that name one another's hashes, whose tip has its header's context, with
  -- sidecars of the same length.
  abbrev pub IsSynced : Timechain T → HeaderContext → Type 0
  IsSynced t c =
      IsInStep same sound t c
      × IsLinked double_sha256 t.headers.chain
      × IsTip double_sha256 t.headers c

  -- The rules accept no header that does not name its parent's hash.
  abbrev pub Accepts : Type 0
  Accepts =
      (h : BlockHeader) (c : HeaderContext) (t : HeaderTimechain) (it : Iterator)
      → is_valid_header h c t it ≡ true
      → h.prev_block ≡ compute_hash double_sha256 c.header

  -- The context of the next header.
  abbrev context_over : HeaderContext → BlockHeader → Words → HeaderContext
  context_over c h work = record {
    header = h;
    hash = compute_hash double_sha256 h;
    local_work = work;
    total_work = work_add c.total_work work;
    height = suc c.height;
  }

-- The rules of the program accept no header that does not name its parent's hash.
pub rules_accept-Accepts :
    {T : Type 0} (same : T → T → Bool) (sound : (a b : T) → same a b ≡ true → a ≡ b) (env : Env)
    (view_of : HeaderTimechain → Iterator → HeaderAncestryView)
    → Accepts env.double_sha256 same sound (rules_accept env view_of)
rules_accept-Accepts same sound env view_of h c t it e =
    sym
      ((validate_header_iff env (record {
        header = h;
        parent = c.header;
        view = view_of t it;
        current_time = pos 0;
        height = (view_of t it).view_length;
      })).0
        (is_success-success _ e)).0
