-- ===== src/Workflow/Restore.antt =====
-- src/specflow/workflow/engine.py: `restore`, and the runs behind a snapshot.
use specflow_agent.Prelude.{
  ℕ, ◌+◌, ◌≡◌, refl, ◌↔◌, inl, inr, String, List, [], ◌∷◌, ◌++◌, append-nil, append_assoc, ◌==◌,
  Result, ok, err, ◌>>=◌, length, length-snoc, All, arith, ap, sym, subst, ◌∙◌, raise_if, not,
}
use specflow_agent.Prelude.Text.{strip}
use specflow_agent.Workflow.{
  State, created, state_eq, state_index_iff, does_not_match_history, Error, StateTransition,
  Snapshot, Engine, new_engine, validate_entries, validate_history, restore, snapshot, transition,
}
use specflow_agent.Workflow.History.{
  Leads, IsLogged, validate_entries_iff, logged, transition_cases, logged-IsLogged,
}

ending_iff :
    (t : State) (r : Result Error State)
    → ((r >>= λ e. raise_if (not (t == e)) does_not_match_history) ≡ ok tt) ↔ (r ≡ ok t)
ending_iff t (ok e) = ground (arith, state_index_iff t e)
ending_iff t (err x) = (λ h. cc, λ h. cc)

validate_history_iff :
    (t : State) (hs : List StateTransition) → (validate_history t hs ≡ ok tt) ↔ Leads 1 created hs t
unfolding validate_history
validate_history_iff t [] = ground (arith, state_index_iff t created)
validate_history_iff t (h ∷ hs) =
    let ends = ending_iff t (validate_entries 1 created (h ∷ hs)) in
    let leads = validate_entries_iff 1 created t (h ∷ hs) in
    (λ p. leads.0 (ends.0 p), λ l. ends.1 (leads.1 l))

-- A snapshot is restored exactly when its history leads from CREATED to its state by legal
-- transitions numbered 1, 2, …, and the restored engine is the one that it was taken from.
pub restore_iff : (s : Snapshot) (e : Engine) → (restore s ≡ ok e) ↔ ((snapshot e ≡ s) × IsLogged e)
unfolding restore snapshot
restore_iff s e = ground (arith, validate_history_iff s.current_state s.history)

-- One requested transition; its error, if there is one, is caught.
pub record Request : Type 0 where
  pub to_state : State
  pub reason : String

abbrev after : Engine → Result Error Engine → Engine
after e (ok e') = e'
after e (err x) = e

unfoldable pub feed : Engine → List Request → Engine
feed e [] = e
feed e (r ∷ rs) = feed (after e (transition r.to_state r.reason e)) rs

feed-IsLogged : (e : Engine) (rs : List Request) → IsLogged e → IsLogged (feed e rs)
unfolding feed
feed-IsLogged e [] l = l
feed-IsLogged e (r ∷ rs) l = elim (transition_cases r.to_state r.reason e) [
  | inl (legal, same) ↦
      rw (same, feed)
        (feed-IsLogged (logged r.to_state r.reason e) rs
          (logged-IsLogged r.to_state r.reason e legal l))
  | inr (illegal, same) ↦ rw (same, feed) (feed-IsLogged e rs l)
]

-- After any requests, legal or not, a snapshot restores to the same engine.
pub restore-snapshot :
    (rs : List Request) → restore (snapshot (feed new_engine rs)) ≡ ok (feed new_engine rs)
restore-snapshot rs =
    (restore_iff (snapshot (feed new_engine rs)) (feed new_engine rs)).1
      (refl, feed-IsLogged new_engine rs refl)

-- The transitions of a history, made again.
unfoldable pub replay : Engine → List StateTransition → Result Error Engine
replay e [] = ok e
replay e (h ∷ hs) = transition h.to_state h.reason e >>= λ e'. replay e' hs

same_log :
    (n : ℕ) (s : State) (h : StateTransition) (before : List StateTransition)
    → h.sequence ≡ n
    → h.from_state ≡ s
    → n ≡ length before + 1
    → strip h.reason ≡ h.reason
    → logged h.to_state h.reason (record { current_state = s; history = before })
      ≡ record { current_state = h.to_state; history = before ++ h ∷ [] }
same_log n s h before q f e r =
    let from : s ≡ h.from_state = sym f in
    let number : length before + 1 ≡ h.sequence = sym (q ∙ e) in
    λ i. record {
      current_state = h.to_state;
      history =
          before
          ++ record {
            from_state = from i;
            to_state = h.to_state;
            sequence = number i;
            reason = r i;
          }
            ∷ [];
    }

replay-Leads :
    (n : ℕ) (s t : State) (hs before : List StateTransition)
    → Leads n s hs t
    → n ≡ length before + 1
    → All (λ h. strip h.reason ≡ h.reason) hs
    → replay (record { current_state = s; history = before }) hs
      ≡ ok (record { current_state = t; history = before ++ hs })
unfolding replay
replay-Leads n s t [] before l e stripped = ground (arith, append-nil before)
replay-Leads n s t (h ∷ hs) before l e stripped =
    elim (transition_cases h.to_state h.reason (record { current_state = s; history = before })) [
      | inl (legal, same) ↦
          ap (λ r. r >>= λ e'. replay e' hs) same
          ∙ ap (λ x. replay x hs) (same_log n s h before l.0 l.1 e stripped.0)
          ∙ replay-Leads (n + 1) h.to_state t hs (before ++ h ∷ []) l.3
              (ground (arith, e, length-snoc before h)) stripped.1
          ∙ ap (λ x. ok (record { current_state = t; history = x }))
              (append_assoc before (h ∷ []) hs)
      | inr (illegal, same) ↦ cc (l.1, l.2, illegal)
    ]

-- Every snapshot that `restore` accepts and whose reasons have no white space around them, as
-- `transition` stores them, can be reached: its transitions, made again from a new engine, are all
-- accepted and give the restored engine.
pub replay-restore :
    (s : Snapshot) (e : Engine)
    → restore s ≡ ok e
    → All (λ h. strip h.reason ≡ h.reason) s.history
    → replay new_engine s.history ≡ ok e
unfolding snapshot
replay-restore s e h stripped =
    let (same, leads) = (restore_iff s e).0 h in
    replay-Leads 1 created e.current_state s.history []
      (subst (λ x. Leads 1 created x.history e.current_state) same leads) refl stripped
    ∙ ap (λ (x : Snapshot). ok (record { current_state = e.current_state; history = x.history }))
        (sym same)
