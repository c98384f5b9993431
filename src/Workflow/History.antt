-- ===== src/Workflow/History.antt =====
-- src/specflow/workflow/engine.py: histories, and how transitions extend them.
use specflow_agent.Prelude.{
  ℕ, ◌+◌, ◌≡◌, refl, ◌↔◌, ◌⊎◌, inl, inr, String, true, false, List, [], ◌∷◌, ◌++◌, ◌==◌, nat_eq,
  contains, ok, err, length, Bool-cases, ◌∙◌, sym, subst, if◌then◌else◌, arith,
}
use specflow_agent.Prelude.Text.{strip}
use specflow_agent.Workflow.{
  State, created, state_eq, state_index_iff, terminal_workflow, illegal_transition, Error,
  StateTransition, Engine, can_transition, validate_entries, transition, terminal_states,
}

-- The entries are numbered from `n` on and lead from `s` to `t` by legal transitions.
abbrev pub Leads : ℕ → State → List StateTransition → State → Type 0
Leads n s [] t = s ≡ t
Leads n s (h ∷ hs) t =
    (h.sequence ≡ n)
    × (h.from_state ≡ s)
    × (can_transition h.from_state h.to_state ≡ true)
    × Leads (n + 1) h.to_state hs t

abbrev pub IsLogged : Engine → Type 0
IsLogged e = Leads 1 created e.history e.current_state

-- The validating loop accepts exactly such lists, and returns where they lead.
pub validate_entries_iff :
    (n : ℕ) (s t : State) (hs : List StateTransition)
    → (validate_entries n s hs ≡ ok t) ↔ Leads n s hs t
unfolding validate_entries
validate_entries_iff n s t [] = (λ h. cc, λ h. cc)
validate_entries_iff n s t (h ∷ hs) =
    ground (arith, state_index_iff h.from_state s, validate_entries_iff (n + 1) h.to_state t hs)

-- What an accepted transition writes.
abbrev pub logged : State → String → Engine → Engine
logged to_state reason e = record {
  current_state = to_state;
  history =
      e.history
      ++ record {
        from_state = e.current_state;
        to_state = to_state;
        sequence = length e.history + 1;
        reason = strip reason;
      }
        ∷ [];
}

-- The error of a rejected transition: a terminal state is reported first.
abbrev pub refusal : State → Engine → Error
refusal to_state e =
    if contains terminal_states e.current_state
    then terminal_workflow e.current_state to_state
    else illegal_transition e.current_state to_state

legal_step :
    (s t : State)
    → can_transition s t ≡ true
    → (contains terminal_states s ≡ false) × ((s == t) ≡ false)
unfolding can_transition
legal_step s t h = ground arith

-- A transition is accepted exactly when it is legal, and then it appends one entry.
pub transition_cases :
    (to_state : State) (reason : String) (e : Engine)
    → (can_transition e.current_state to_state ≡ true)
        × (transition to_state reason e ≡ ok (logged to_state reason e))
      ⊎ (can_transition e.current_state to_state ≡ false)
        × (transition to_state reason e ≡ err (refusal to_state e))
unfolding transition
transition_cases to_state reason e = elim (Bool-cases (can_transition e.current_state to_state)) [
  | inl legal ↦ inl (legal, ground (arith, legal_step e.current_state to_state legal))
  | inr illegal ↦ inr (illegal, ground arith)
]

Leads-snoc :
    (n : ℕ) (s t : State) (hs : List StateTransition) (h : StateTransition)
    → Leads n s hs t
    → h.sequence ≡ n + length hs
    → h.from_state ≡ t
    → can_transition t h.to_state ≡ true
    → Leads n s (hs ++ h ∷ []) h.to_state
Leads-snoc n s t [] h l q f c =
    (omega arith, f ∙ sym l, subst (λ x. can_transition x h.to_state ≡ true) (sym f) c, refl)
Leads-snoc n s t (g ∷ hs) h l q f c =
    (l.0, l.1, l.2, Leads-snoc (n + 1) g.to_state t hs h l.3 (omega arith) f c)

pub logged-IsLogged :
    (to_state : State) (reason : String) (e : Engine)
    → can_transition e.current_state to_state ≡ true
    → IsLogged e
    → IsLogged (logged to_state reason e)
logged-IsLogged to_state reason e c l =
    Leads-snoc 1 created e.current_state e.history _ l (omega arith) refl c
