-- ===== src/Protocol/Handshake/Counts.antt =====
-- What has been sent and received in each state of a handshake.
use hornet.Common.{
  ℕ, zero, suc, List, [], ◌∷◌, Option, none, some, true, option_split, ==_iff, ◌↔◌, ◌≡◌, refl, sym,
  ap, ◌∙◌, replicate,
}
use hornet.Encoding.Codec.{All}
use hornet.Protocol.Handshake.{
  Role, inbound, outbound, Transition, State, initial, start, version_sent, version_received,
  version_both, verack_sent, verack_received, complete, transition_number, Source, Sink, machine,
  find, Handshake, new_handshake, Action, advance_state, is_complete, state_number,
}
use hornet.Protocol.Handshake.Table.{find-All, state_of, state_of-state_number}
use mathlib.Core.Option.{some_inj}
use mathlib.Core.Path.{subst}

-- The handshake after a sequence of transitions, where none throws.
abbrev pub advance_all : Handshake → List Transition → Option Handshake
advance_all h [] = some h
advance_all h (t ∷ ts) = elim (advance_state h t) [
  | none ↦ none
  | some (h', action) ↦ advance_all h' ts
]

-- One more of the element at an index.
abbrev pub bump : ℕ → List ℕ → List ℕ
bump n [] = []
bump zero (c ∷ cs) = suc c ∷ cs
bump (suc n) (c ∷ cs) = c ∷ bump n cs

-- How often each transition occurs, by its number.
abbrev pub count : List ℕ → List Transition → List ℕ
count counts [] = counts
count counts (t ∷ ts) = count (bump (transition_number t) counts) ts

abbrev pub no_counts : List ℕ
no_counts = replicate 6 0

-- What each state stands for: how often Begin, SendVersion, ReceiveVersion, SendVerack and ReceiveVerack
-- have happened, behind a zero for None.
abbrev pub history : State → List ℕ
history initial = 0 ∷ 0 ∷ 0 ∷ 0 ∷ 0 ∷ 0 ∷ []
history start = 0 ∷ 1 ∷ 0 ∷ 0 ∷ 0 ∷ 0 ∷ []
history version_sent = 0 ∷ 1 ∷ 1 ∷ 0 ∷ 0 ∷ 0 ∷ []
history version_received = 0 ∷ 1 ∷ 0 ∷ 1 ∷ 0 ∷ 0 ∷ []
history version_both = 0 ∷ 1 ∷ 1 ∷ 1 ∷ 0 ∷ 0 ∷ []
history verack_sent = 0 ∷ 1 ∷ 1 ∷ 1 ∷ 1 ∷ 0 ∷ []
history verack_received = 0 ∷ 1 ∷ 1 ∷ 1 ∷ 0 ∷ 1 ∷ []
history complete = 0 ∷ 1 ∷ 1 ∷ 1 ∷ 1 ∷ 1 ∷ []

abbrev Counted : Source → Sink → Type 0
Counted from sink = history sink.state ≡ bump (transition_number from.edge) (history from.state)

machine-Counted : (role : Role) → All (λ (p : Source × Sink). Counted p.0 p.1) (machine role)
unfolding transition_number
machine-Counted outbound = (refl, (refl, (refl, (refl, (refl, (refl, (refl, tt)))))))
machine-Counted inbound = (refl, (refl, (refl, (refl, (refl, (refl, (refl, tt)))))))

advance_state-history :
    (h h' : Handshake) (t : Transition) (action : Action)
    → advance_state h t ≡ some (h', action)
    → history h'.state.state ≡ bump (transition_number t) (history h.state.state)
unfolding advance_state
advance_state-history h h' t action e =
    let from : Source = record { state = h.state.state; edge = t } in
    let after : Handshake → Type 0 =
      λ k. history k.state.state ≡ bump (transition_number t) (history h.state.state) in
    option_split (λ o. o ≡ some (h', action) → after h') (find (machine h.role) from) none _
      (λ none_some. cc)
      (λ sink found same.
        subst (λ (p : Handshake × Action). after p.0) (some_inj.0 same)
          (find-All Counted (machine h.role) from sink (machine-Counted h.role) found))
      e

advance_all-count :
    (h h' : Handshake) (ts : List Transition)
    → advance_all h ts ≡ some h'
    → count (history h.state.state) ts ≡ history h'.state.state
advance_all-count h h' [] e = ap (λ k. history k.state.state) (some_inj.0 e)
advance_all-count h h' (t ∷ ts) e =
    option_split
      (λ o. o ≡ some h' → count (history h.state.state) (t ∷ ts) ≡ history h'.state.state)
      (advance_state h t) none _ (λ none_some. cc)
      (λ (k, action) found rest.
        rw (sym (advance_state-history h k t action found)) (advance_all-count k h' ts rest))
      e

complete_state : (h : Handshake) → is_complete h ≡ true → h.state.state ≡ complete
unfolding is_complete
complete_state h e = sym (state_of-state_number h.state.state) ∙ ap state_of ((==_iff _ _).0 e)

full_state : (s : State) → history s ≡ history complete → state_number s ≡ 7
unfolding state_number
full_state initial e = absurd (cc e)
full_state start e = absurd (cc e)
full_state version_sent e = absurd (cc e)
full_state version_received e = absurd (cc e)
full_state version_both e = absurd (cc e)
full_state verack_sent e = absurd (cc e)
full_state verack_received e = absurd (cc e)
full_state complete e = refl

full_history : (h : Handshake) → history h.state.state ≡ history complete → is_complete h ≡ true
unfolding is_complete
full_history h e = rw (full_state h.state.state e) refl

-- After any sequence of transitions that a fresh handshake of either role accepts, each transition has
-- happened exactly as often as the state it is in says; and IsComplete holds exactly when Begin,
-- SendVersion, ReceiveVersion, SendVerack and ReceiveVerack have each happened exactly once.
pub advance_all-history :
    (role : Role) (ts : List Transition) (h : Handshake)
    → advance_all (new_handshake role) ts ≡ some h
    → (count no_counts ts ≡ history h.state.state)
      × ((is_complete h ≡ true) ↔ (count no_counts ts ≡ 0 ∷ 1 ∷ 1 ∷ 1 ∷ 1 ∷ 1 ∷ []))
advance_all-history role ts h e =
    let counted = advance_all-count (new_handshake role) h ts e in
    (
      counted,
      (
        λ done. counted ∙ ap history (complete_state h done),
        λ all. full_history h (sym counted ∙ all),
      ),
    )
