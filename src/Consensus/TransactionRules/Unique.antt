-- ===== src/Consensus/TransactionRules/Unique.antt =====
-- The search for duplicate inputs in sorted outpoints, against the definition of a duplicate.
use hornet.Common.{
  ◌≡◌, refl, sym, ap, ◌↔◌, inl, inr, List, [], ◌∷◌, Bool, true, false, arith, Bool-cases,
  bytes_eq→eq, bytes_eq_refl, bytes_lt_irrefl, bytes_lt_trans, bytes_lt_total,
}
use hornet.Protocol.Transaction.{OutPoint, Transaction, out_point_lt, out_point_eq}
use hornet.Consensus.Types.{Error, success, error_if}
use hornet.Consensus.Env.{Env, Sorts, IsSorted}
use hornet.Consensus.TransactionRules.{has_adjacent, previous_outputs, validate_unique_inputs}
use mathlib.Core.List.{Mem, Nodup, not-mem-nil, mem-cons_self, eq-or-mem_of_mem-cons, Pairwise}
use mathlib.Core.List.Perm
use mathlib.Core.Path.{subst}
use mathlib.Core.HLevel.{⊥_prop}
use mathlib.Core.Logic.Or

pub out_point_eq_iff : (a b : OutPoint) → (out_point_eq a b ≡ true) ↔ (a ≡ b)
unfolding out_point_eq
out_point_eq_iff a b = (
  λ h. ground (arith, bytes_eq→eq a.hash b.hash),
  λ e. rw e (ground (arith, bytes_eq_refl b.hash)),
)

lt_total : (a b : OutPoint) → out_point_lt a b ≡ false → out_point_lt b a ≡ false → a ≡ b
unfolding out_point_lt
lt_total a b h k = ground (arith, bytes_lt_total a.hash b.hash)

lt_irrefl : (a : OutPoint) → out_point_lt a a ≡ false
unfolding out_point_lt
lt_irrefl a = ground (arith, bytes_lt_irrefl a.hash)

lt_trans :
    (a b c : OutPoint) → out_point_lt a b ≡ true → out_point_lt b c ≡ true → out_point_lt a c ≡ true
unfolding out_point_lt
lt_trans a b c h k = ground (
  arith,
  bytes_lt_trans a.hash b.hash c.hash,
  bytes_lt_trans a.hash c.hash b.hash,
  bytes_lt_trans c.hash b.hash a.hash,
  bytes_lt_trans b.hash a.hash c.hash,
  bytes_lt_trans c.hash a.hash b.hash,
  bytes_lt_trans b.hash c.hash a.hash,
  bytes_lt_total a.hash b.hash,
  bytes_lt_total b.hash c.hash,
  bytes_lt_total a.hash c.hash,
  bytes_lt_irrefl a.hash,
  bytes_lt_irrefl b.hash,
)

pub lt_asym : (a b : OutPoint) → out_point_lt a b ≡ true → out_point_lt b a ≡ false
lt_asym a b h = elim (Bool-cases (out_point_lt b a)) [
  | inr never ↦ never
  | inl back ↦ let both = lt_trans a b a h back in let never = lt_irrefl a in absurd (cc)
]

-- The negation of the order is transitive.
pub not_lt_trans :
    (a b c : OutPoint)
    → out_point_lt b a ≡ false
    → out_point_lt c b ≡ false
    → out_point_lt c a ≡ false
not_lt_trans a b c h k = elim (Bool-cases (out_point_lt c a)) [
  | inr never ↦ never
  | inl before ↦ elim (Bool-cases (out_point_lt b c)) [
    | inl first ↦ let less = lt_trans b c a first before in absurd (cc)
    | inr other ↦
        let same = lt_total b c other k in
        let less = ap (λ (t : OutPoint). out_point_lt t a) same in absurd (cc)
  ]
]

-- Every element comes after `a`.
abbrev Above : OutPoint → List OutPoint → Type 0
Above a [] = Unit {0}
Above a (b ∷ rest) = (out_point_lt a b ≡ true) × Above a rest

Above-trans : (a b : OutPoint) (l : List OutPoint) → out_point_lt a b ≡ true → Above b l → Above a l
Above-trans a b [] h k = tt
Above-trans a b (c ∷ l) h k = (lt_trans a b c h k.0, Above-trans a b l h k.1)

Above-not-mem : (a : OutPoint) (l : List OutPoint) → Above a l → ¬ Mem a l
Above-not-mem a [] h m = not-mem-nil m
Above-not-mem a (b ∷ l) h m =
    Or.elim ⊥_prop (eq-or-mem_of_mem-cons m)
      (λ e.
        let same = ap (λ (t : OutPoint). out_point_lt a t) e in
        let never = lt_irrefl a in let before = h.0 in cc)
      (λ later. Above-not-mem a l h.1 later)

-- In a sorted list whose neighbours differ each element is before all later ones.
strict :
    (a : OutPoint) (l : List OutPoint)
    → IsSorted out_point_lt (a ∷ l)
    → has_adjacent (a ∷ l) ≡ false
    → Above a l
unfolding has_adjacent
strict a [] h k = tt
strict a (b ∷ l) h k =
    let before : out_point_lt a b ≡ true = elim (Bool-cases (out_point_lt a b)) [
      | inl before ↦ before
      | inr never ↦ absurd (differ (lt_total a b never h.0.0))
    ] in
    (before, Above-trans a b l before (strict b l h.1 (ground arith)))
  where
    differ : ¬ (a ≡ b)
    differ e = let same = (out_point_eq_iff a b).1 e in ground arith

Nodup-of_no_adjacent :
    (l : List OutPoint) → IsSorted out_point_lt l → has_adjacent l ≡ false → Nodup l
unfolding has_adjacent
Nodup-of_no_adjacent [] h k = Pairwise.nil
Nodup-of_no_adjacent (a ∷ []) h k = Pairwise.cons (λ b m. absurd (not-mem-nil m)) Pairwise.nil
Nodup-of_no_adjacent (a ∷ (b ∷ l)) h k =
    let rest = Nodup-of_no_adjacent (b ∷ l) h.1 (ground arith) in
    let later = strict a (b ∷ l) h k in
    Pairwise.cons
      (λ c m e. Above-not-mem a (b ∷ l) later (subst (λ (t : OutPoint). Mem t (b ∷ l)) (sym e) m))
      rest

no_adjacent_of_Nodup : (l : List OutPoint) → Nodup l → has_adjacent l ≡ false
unfolding has_adjacent
no_adjacent_of_Nodup [] h = refl
no_adjacent_of_Nodup (a ∷ []) h = refl
no_adjacent_of_Nodup (a ∷ (b ∷ l)) (Pairwise.cons h k) =
    let rest = no_adjacent_of_Nodup (b ∷ l) k in
    elim (Bool-cases (out_point_eq a b)) [
      | inl same ↦ absurd (h b mem-cons_self ((out_point_eq_iff a b).0 same))
      | inr differ ↦ rw differ rest
    ]

-- Where std::sort sorts the outpoints, the inputs of a transaction are accepted exactly when no two
-- of them spend the same previous output.
pub validate_unique_inputs_iff :
    (env : Env) (tx : Transaction)
    → Sorts out_point_lt env.sort_out_points
    → (validate_unique_inputs env tx ≡ success) ↔ Nodup (previous_outputs tx)
unfolding validate_unique_inputs
validate_unique_inputs_iff env tx sorts =
    let spent = previous_outputs tx in
    let same = Perm.Nodup-iff (sorts.rearranges spent) in
    (
      λ h.
          same.0 (
            Nodup-of_no_adjacent (env.sort_out_points spent) (sorts.sorted spent) (accepted _ _ h)),
      λ h. rw (no_adjacent_of_Nodup (env.sort_out_points spent) (same.1 h)) refl,
    )
  where
    accepted : (b : Bool) (e : Error) → error_if b e ≡ success → b ≡ false
    accepted true e h = cc
    accepted false e h = refl
