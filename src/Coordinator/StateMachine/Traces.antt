-- ===== src/Coordinator/StateMachine/Traces.antt =====
-- src/specflow/coordinator/state_machine.py: what holds of the engine after any sequence of
-- requested transitions, legal or not.
use specflow_agent.Prelude.{
  ℕ, suc, ◌+◌, ◌*◌, ◌≤◌, ◌≡◌, refl, ◌⊎◌, String, Bool, true, false, List, [], ◌∷◌, ◌++◌, ◌==◌,
  contains, ok, err, Result, count_if, count_if-append, length, length-snoc, any, any-snoc, inl,
  inr, arith, Bool-cases, ◌≢◌, if◌then◌else◌,
}
use specflow_agent.Coordinator.StateMachine.{
  State, created, planning, analyzing, executing_specialists, synthesizing, reviewing, revising,
  completed, failed, state_eq, legal_transitions, HistoryEntry, Engine, new_engine, TransitionError,
  transition,
}

-- One requested transition: the destination, the reason and the reading of the clock.
pub record Request : Type 0 where
  pub to_state : State
  pub reason : String
  pub timestamp : String

abbrev after : Engine → Result TransitionError Engine → Engine
after e (ok e') = e'
after e (err x) = e

-- The engine after one request whose `StateTransitionError`, if there is one, is caught.
unfoldable pub attempt : Engine → Request → Engine
unfolding transition
attempt e r = after e (transition r.to_state r.reason r.timestamp e)

unfoldable pub feed : Engine → List Request → Engine
feed e [] = e
feed e (r ∷ rs) = feed (attempt e r) rs

module _ (P : Engine → Type 0) (step : (e : Engine) (r : Request) → P e → P (attempt e r)) where
  feed_ind : (e : Engine) (rs : List Request) → P e → P (feed e rs)
  unfolding feed
  feed_ind e [] h = h
  feed_ind e (r ∷ rs) h = feed_ind (attempt e r) rs (step e r h)

-- The entries lead from one state to another by listed transitions, each from where the one before
-- it ended.
abbrev pub Chain : State → List HistoryEntry → State → Type 0
Chain s [] t = s ≡ t
Chain s (h ∷ hs) t =
    (h.from_state ≡ s) × (contains (legal_transitions s) h.to_state ≡ true) × Chain h.to_state hs t

abbrev pub enters : State → HistoryEntry → Bool
enters s h = h.to_state == s

Chain-snoc :
    (s t : State) (hs : List HistoryEntry) (h : HistoryEntry)
    → Chain s hs t
    → h.from_state ≡ t
    → contains (legal_transitions t) h.to_state ≡ true
    → Chain s (hs ++ h ∷ []) h.to_state
Chain-snoc s t [] h c e l = (cc, subst_legal, refl)
  where
    subst_legal : contains (legal_transitions s) h.to_state ≡ true
    subst_legal = rw c l
Chain-snoc s t (g ∷ hs) h c e l = (c.0, c.1, Chain-snoc g.to_state t hs h c.2 e l)

pub record IsAudited (e : Engine) : Type 0 where
  pub chained : Chain created e.history e.state
  pub revisions : e.revision_count ≡ count_if (enters revising) e.history

-- What an accepted request writes.
abbrev entry : Engine → Request → HistoryEntry
entry e r = record {
  from_state = e.state;
  to_state = r.to_state;
  reason = r.reason;
  timestamp = r.timestamp;
}

abbrev moved : Engine → Request → Engine
moved e r = record e {
  state = r.to_state;
  revision_count = if r.to_state == revising then e.revision_count + 1 else e.revision_count;
  history = e.history ++ entry e r ∷ [];
}

attempt_cases :
    (e : Engine) (r : Request)
    → (contains (legal_transitions e.state) r.to_state ≡ true) × (attempt e r ≡ moved e r)
      ⊎ (contains (legal_transitions e.state) r.to_state ≡ false) × (attempt e r ≡ e)
unfolding attempt
attempt_cases e r = elim (Bool-cases (contains (legal_transitions e.state) r.to_state)) [
  | inl legal ↦ inl (legal, rw legal)
  | inr illegal ↦ inr (illegal, rw illegal)
]

-- A property that every accepted transition keeps is kept by every request.
module _ (P : Engine → Type 0)
    (step : (e : Engine) (r : Request)
      → contains (legal_transitions e.state) r.to_state ≡ true
      → P e
      → P (moved e r)) where
  attempt_keeps : (e : Engine) (r : Request) → P e → P (attempt e r)
  attempt_keeps e r h = elim (attempt_cases e r) [
    | inl (legal, same) ↦ rw same (step e r legal h)
    | inr (illegal, same) ↦ rw same h
  ]

moved-IsAudited :
    (e : Engine) (r : Request)
    → contains (legal_transitions e.state) r.to_state ≡ true
    → IsAudited e
    → IsAudited (moved e r)
moved-IsAudited e r legal a = record {
  chained = Chain-snoc created e.state e.history (entry e r) a.chained refl legal;
  revisions =
      ground (arith, a.revisions, count_if-append (enters revising) e.history (entry e r ∷ []));
}

-- After any requests, the history is a chain of listed transitions from CREATED to the current
-- state, and the revision count is the number of its entries into REVISING.
pub feed-IsAudited : (n : ℕ) (rs : List Request) → IsAudited (feed (new_engine n) rs)
unfolding new_engine
feed-IsAudited n rs =
    feed_ind IsAudited (attempt_keeps IsAudited moved-IsAudited) (new_engine n) rs
      (record { chained = refl; revisions = refl })

-- How many transitions lead to a state when no revision round was taken.
abbrev depth : State → ℕ
depth created = 0
depth planning = 1
depth analyzing = 2
depth executing_specialists = 3
depth synthesizing = 4
depth reviewing = 5
depth revising = 3
depth completed = 6
depth failed = 6

abbrev IsMeasured : Engine → Type 0
IsMeasured e =
    ((e.state ≢ failed) → length e.history ≡ depth e.state + 3 * e.revision_count)
    × (length e.history ≤ 6 + 3 * e.revision_count)

step_depth :
    (s t : State) (n k : ℕ)
    → contains (legal_transitions s) t ≡ true
    → (s ≢ failed → n ≡ depth s + 3 * k)
    → let k' = if t == revising then k + 1 else k in
      (t ≢ failed → suc n ≡ depth t + 3 * k') × (suc n ≤ 6 + 3 * k')
unfolding legal_transitions
step_depth created t n k l h = ground (arith, h (λ e. cc))
step_depth completed t n k l h = cc
step_depth failed t n k l h = cc
step_depth _ t n k l h = ground (arith, h (λ e. cc))

moved-IsMeasured :
    (e : Engine) (r : Request)
    → contains (legal_transitions e.state) r.to_state ≡ true
    → IsMeasured e
    → IsMeasured (moved e r)
moved-IsMeasured e r legal m =
    rw length-snoc (step_depth e.state r.to_state (length e.history) e.revision_count legal m.0)

feed-IsMeasured : (n : ℕ) (rs : List Request) → IsMeasured (feed (new_engine n) rs)
unfolding new_engine
feed-IsMeasured n rs =
    feed_ind IsMeasured (attempt_keeps IsMeasured moved-IsMeasured) (new_engine n) rs
      ((λ h. omega arith), omega arith)

-- A completed run with k revision rounds has made exactly 6 + 3 k transitions.
pub completed_length :
    (n : ℕ) (rs : List Request)
    → (feed (new_engine n) rs).state ≡ completed
    → length (feed (new_engine n) rs).history ≡ 6 + 3 * (feed (new_engine n) rs).revision_count
completed_length n rs h = ground (arith, h, (feed-IsMeasured n rs).0 (λ f. cc (h, f)))

abbrev before_review : List State
before_review = planning ∷ analyzing ∷ executing_specialists ∷ synthesizing ∷ []

-- The states that a run at a state has entered.
abbrev visited : State → List State
visited created = []
visited planning = planning ∷ []
visited analyzing = planning ∷ analyzing ∷ []
visited executing_specialists = planning ∷ analyzing ∷ executing_specialists ∷ []
visited synthesizing = before_review
visited reviewing = reviewing ∷ before_review
visited revising = reviewing ∷ before_review
visited completed = reviewing ∷ before_review
visited failed = planning ∷ []

visited_step :
    (s t v : State)
    → contains (legal_transitions s) t ≡ true
    → contains (visited t) v ≡ true
    → ((t == v) ≡ true) ⊎ (contains (visited s) v ≡ true)
unfolding legal_transitions
visited_step created t v l h = ground arith
visited_step completed t v l h = cc
visited_step failed t v l h = cc
visited_step _ t v l h = ground arith

abbrev HasVisited : Engine → Type 0
HasVisited e = (v : State) → contains (visited e.state) v ≡ true → any (enters v) e.history ≡ true

moved-HasVisited :
    (e : Engine) (r : Request)
    → contains (legal_transitions e.state) r.to_state ≡ true
    → HasVisited e
    → HasVisited (moved e r)
moved-HasVisited e r legal m v h =
    rw (any-snoc (enters v) e.history (entry e r))
      (elim (visited_step e.state r.to_state v legal h) [
        | inl now ↦ ground arith
        | inr old ↦ rw (m v old)
      ])

-- A completed run has entered every phase: planning, analysis, the specialists, synthesis and
-- review.
pub completed_visits :
    (n : ℕ) (rs : List Request) (v : State)
    → (feed (new_engine n) rs).state ≡ completed
    → contains (reviewing ∷ before_review) v ≡ true
    → any (enters v) (feed (new_engine n) rs).history ≡ true
unfolding new_engine
completed_visits n rs v done h =
    feed_ind HasVisited (attempt_keeps HasVisited moved-HasVisited) (new_engine n) rs (λ w x. cc) v
      (rw done h)

attempt_terminal :
    (e : Engine) (r : Request) → (e.state ≡ completed) ⊎ (e.state ≡ failed) → attempt e r ≡ e
unfolding attempt
attempt_terminal e r h = ground arith

-- COMPLETED and FAILED absorb: whatever is requested, the engine stays as it is.
pub terminal_absorbs :
    (e : Engine) (rs : List Request) → (e.state ≡ completed) ⊎ (e.state ≡ failed) → feed e rs ≡ e
unfolding feed
terminal_absorbs e [] h = refl
terminal_absorbs e (r ∷ rs) h = rw (attempt_terminal e r h) (terminal_absorbs e rs h)
