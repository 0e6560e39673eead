-- ===== src/Protocol/Handshake/Table.antt =====
-- What holds of every entry of a map holds of every look-up in it.
use hornet.Common.{
  ℕ, List, [], ◌∷◌, some, Bool, true, false, ◌&&◌, ==_iff, if_split, get_or, ◌≡◌, refl, sym, ap,
  ◌∙◌,
}
use hornet.Encoding.Codec.{All}
use hornet.Protocol.Handshake.{
  Transition, nothing, begin, send_version, receive_version, send_verack, receive_verack, State,
  initial, start, version_sent, version_received, version_both, verack_sent, verack_received,
  complete, transition_number, state_number, Source, Sink, same_source, find,
}
use mathlib.Core.Option.{some_inj}
use mathlib.Core.Path.{subst}

abbrev pub transition_of : ℕ → Transition
transition_of n =
    get_or (nothing ∷ begin ∷ send_version ∷ receive_version ∷ send_verack ∷ receive_verack ∷ []) n
      nothing

abbrev pub states : List State
states =
    initial ∷ start ∷ version_sent ∷ version_received ∷ version_both ∷ verack_sent ∷ verack_received
    ∷ complete ∷ []

abbrev pub state_of : ℕ → State
state_of n = get_or states n initial

pub transition_of-transition_number : (t : Transition) → transition_of (transition_number t) ≡ t
unfolding transition_number
transition_of-transition_number nothing = refl
transition_of-transition_number begin = refl
transition_of-transition_number send_version = refl
transition_of-transition_number receive_version = refl
transition_of-transition_number send_verack = refl
transition_of-transition_number receive_verack = refl

pub state_of-state_number : (s : State) → state_of (state_number s) ≡ s
unfolding state_number
state_of-state_number initial = refl
state_of-state_number start = refl
state_of-state_number version_sent = refl
state_of-state_number version_received = refl
state_of-state_number version_both = refl
state_of-state_number verack_sent = refl
state_of-state_number verack_received = refl
state_of-state_number complete = refl

and_true : (a b : Bool) → (a && b) ≡ true → (a ≡ true) × (b ≡ true)
and_true true b e = (refl, e)
and_true false b e = cc

same_source→eq : (a b : Source) → same_source a b ≡ true → a ≡ b
unfolding same_source
same_source→eq a b e =
    let (states, edges) = and_true _ _ e in
    let same_state : a.state ≡ b.state =
      sym (state_of-state_number a.state)
      ∙ (ap state_of ((==_iff _ _).0 states) ∙ state_of-state_number b.state) in
    let same_edge : a.edge ≡ b.edge =
      sym (transition_of-transition_number a.edge)
      ∙ (ap transition_of ((==_iff _ _).0 edges) ∙ transition_of-transition_number b.edge) in
    rw (same_state, same_edge) refl

pub find-All :
    (P : Source → Sink → Type 0) (entries : List (Source × Sink)) (from : Source) (sink : Sink)
    → All (λ (p : Source × Sink). P p.0 p.1) entries
    → find entries from ≡ some sink
    → P from sink
unfolding find
find-All P [] from sink all e = cc
find-All P ((key, value) ∷ entries) from sink all e =
    if_split (λ o. o ≡ some sink → P from sink) (same_source key from) (some value)
      (find entries from)
      (λ same found.
        subst (P from) (some_inj.0 found)
          (subst (λ k. P k value) (same_source→eq key from same) all.0))
      (λ _ found. find-All P entries from sink all.1 found) e
