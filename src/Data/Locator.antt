-- ===== src/Data/Locator.antt =====
-- The locator of data/chain_tree.h and the notice of an addition of data/sidecar.h.
use hornet.Common.{ℕ, zero, suc, ◌-◌, ◌≡◌, refl, List, Option, none, some, true, leb, arith}
use hornet.Common.Int.{ℤ, pos, negsuc, sub_ℕ}
use hornet.Protocol.Transaction.{Hash}

-- A height in the main chain, or the hash of a node of the forest. The height is a signed integer: -1
-- is the parent of the first element.
pub data Locator : Type 0 where
  in_chain : ℤ → Locator
  in_forest : Hash → Locator

-- The height of an element over its parent's; no parent stands below -1.
unfoldable pub child_height : ℤ → Option ℕ
child_height (pos h) = some (suc h)
child_height (negsuc zero) = some 0
child_height (negsuc (suc n)) = none

-- The element over the last of so many.
pub child_height-tip : (n : ℕ) → child_height (sub_ℕ n 1) ≡ some n
unfolding child_height
child_height-tip zero = refl
child_height-tip (suc n) =
    let e : leb 1 (suc n) ≡ true = ground arith in
    let e' : suc n - 1 ≡ n = omega arith in rw (e, e') refl

pub record SidecarAddSync : Type 0 where
  pub parent : Locator
  pub hash : Hash
  pub moved_from_chain : List Hash
