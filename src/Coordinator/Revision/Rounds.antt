-- ===== src/Coordinator/Revision/Rounds.antt =====
-- src/specflow/coordinator/revision.py: the round counter, the policy and the recorded tasks.
use specflow_agent.Prelude.{
  ℕ, ◌+◌, ◌≤◌, ◌≡◌, refl, ◌⊎◌, Bool, true, false, List, [], ◌∷◌, ◌++◌, length, length-snoc, All,
  All-append, arith, leb, ltb, sym, Bool-cases, ◌&&◌, if◌then◌else◌, Option, none, some, append-nil,
  count_if, subst, ap, ◌∙◌, min, inl, inr, ◌<◌,
}
use specflow_agent.Agents.Models.{RevisionPolicy, is_revisable}
use specflow_agent.Coordinator.Revision.{
  RevisionTask, RevisionController, new_controller, RevisionRequest, task_of, create_revision_task,
  create_all,
}

-- The tasks are numbered from `n + 1` on, without a gap.
abbrev pub Numbered : ℕ → List RevisionTask → Type 0
Numbered n [] = Unit
Numbered n (t ∷ ts) = (t.round_number ≡ n + 1) × Numbered (n + 1) ts

Numbered-snoc :
    (n : ℕ) (ts : List RevisionTask) (t : RevisionTask)
    → Numbered n ts
    → t.round_number ≡ n + length ts + 1
    → Numbered n (ts ++ t ∷ [])
Numbered-snoc n [] t h e = (omega arith, tt)
Numbered-snoc n (u ∷ ts) t h e = (h.0, Numbered-snoc (n + 1) ts t h.1 (omega arith))

pub record IsSound (p : RevisionPolicy) (c : RevisionController) : Type 0 where
  pub policy_kept : c.policy ≡ p
  pub counted : length c.tasks ≡ c.round
  pub bounded : c.round ≤ p.max_total_rounds
  pub numbered : Numbered 0 c.tasks
  pub allowed : All (λ t. is_revisable p t.target_role ≡ true) c.tasks

abbrev grown : RevisionRequest → RevisionController → RevisionController
grown q c = record c { round = c.round + 1; tasks = c.tasks ++ task_of q (c.round + 1) ∷ [] }

create_cases :
    (q : RevisionRequest) (c : RevisionController)
    → ((create_revision_task q c).0 ≡ c) × (leb c.policy.max_total_rounds c.round ≡ true)
      ⊎ ((create_revision_task q c).0 ≡ c) × (is_revisable c.policy q.target_role ≡ false)
      ⊎ ((create_revision_task q c).0 ≡ grown q c)
        × (c.round < c.policy.max_total_rounds)
        × (is_revisable c.policy q.target_role ≡ true)
unfolding create_revision_task
create_cases q c = ground arith

grown-IsSound :
    (p : RevisionPolicy) (q : RevisionRequest) (c : RevisionController)
    → c.round < c.policy.max_total_rounds
    → is_revisable c.policy q.target_role ≡ true
    → IsSound p c
    → IsSound p (grown q c)
grown-IsSound p q c room may s = record {
  policy_kept = s.policy_kept;
  counted = ground (arith, length-snoc c.tasks (task_of q (c.round + 1)));
  bounded = ground arith;
  numbered = Numbered-snoc 0 c.tasks (task_of q (c.round + 1)) s.numbered (omega arith);
  allowed =
      All-append (λ t. is_revisable p t.target_role ≡ true) c.tasks (task_of q (c.round + 1) ∷ [])
        s.allowed (subst (λ p'. is_revisable p' q.target_role ≡ true) s.policy_kept may, tt);
}

create-IsSound :
    (p : RevisionPolicy) (q : RevisionRequest) (c : RevisionController)
    → IsSound p c
    → IsSound p (create_revision_task q c).0
create-IsSound p q c s = elim (create_cases q c) [
  | inl (same, _) ↦ rw same s
  | inr (inl (same, _)) ↦ rw same s
  | inr (inr (new, room, may)) ↦ rw new (grown-IsSound p q c room may s)
]

create_all-IsSound :
    (p : RevisionPolicy) (c : RevisionController) (qs : List RevisionRequest)
    → IsSound p c
    → IsSound p (create_all c qs)
unfolding create_all
create_all-IsSound p c [] s = s
create_all-IsSound p c (q ∷ qs) s =
    create_all-IsSound p (create_revision_task q c).0 qs (create-IsSound p q c s)

-- Whatever is asked, the controller keeps its policy, has recorded as many tasks as the round says,
-- at most `max_total_rounds`, numbered 1, 2, … in order, each for a revisable role.
pub revisions-IsSound :
    (p : RevisionPolicy) (qs : List RevisionRequest) → IsSound p (create_all (new_controller p) qs)
unfolding new_controller
revisions-IsSound p qs = create_all-IsSound p (new_controller p) qs (record {
  policy_kept = refl;
  counted = refl;
  bounded = omega arith;
  numbered = tt;
  allowed = tt;
})

abbrev pub asks : RevisionPolicy → RevisionRequest → Bool
asks p q = is_revisable p q.target_role

create_all-round :
    (p : RevisionPolicy) (c : RevisionController) (qs : List RevisionRequest)
    → c.policy ≡ p
    → c.round ≤ p.max_total_rounds
    → (create_all c qs).round ≡ min p.max_total_rounds (c.round + count_if (asks p) qs)
unfolding create_all
create_all-round p c [] e h = omega arith
create_all-round p c (q ∷ qs) e h = elim (create_cases q c) [
  | inl (same, full) ↦ rounds_of same ∙ ground (arith, create_all-round p c qs e h)
  | inr (inl (same, no_role)) ↦ rounds_of same ∙ ground (arith, create_all-round p c qs e h)
  | inr (inr (new, room, may)) ↦
      rounds_of new ∙ ground (arith, create_all-round p (grown q c) qs e (ground arith))
]
  where
    rounds_of :
        {c' : RevisionController}
        → (create_revision_task q c).0 ≡ c'
        → (create_all (create_revision_task q c).0 qs).round ≡ (create_all c' qs).round
    rounds_of = ap (λ x. (create_all x qs).round)

create_all-policy :
    (c : RevisionController) (qs : List RevisionRequest) → (create_all c qs).policy ≡ c.policy
unfolding create_all create_revision_task
create_all-policy c [] = refl
create_all-policy c (q ∷ qs) = ground (arith, create_all-policy (create_revision_task q c).0 qs)

-- The answer with n requests for revisable roles before
abbrev pub answer_at : RevisionPolicy → ℕ → RevisionRequest → Option RevisionTask
answer_at p n q = if asks p q && ltb n p.max_total_rounds then some (task_of q (n + 1)) else none

-- The answer that the policy calls for after the requests before
abbrev pub due_answer :
    RevisionPolicy → List RevisionRequest → RevisionRequest → Option RevisionTask
due_answer p before q = answer_at p (count_if (asks p) before) q

abbrev pub option_list : Option RevisionTask → List RevisionTask
option_list none = []
option_list (some t) = t ∷ []

-- The same answer, by the controller's round.
create-answer :
    (c : RevisionController) (n : ℕ) (q : RevisionRequest)
    → c.round ≡ min c.policy.max_total_rounds n
    → ((create_revision_task q c).1 ≡ answer_at c.policy n q)
      × ((create_revision_task q c).0.tasks ≡ c.tasks ++ option_list (answer_at c.policy n q))
unfolding create_revision_task
create-answer c n q e = elim (Bool-cases (leb c.policy.max_total_rounds c.round)) [
  | inl full ↦ (ground (arith, e, full), ground (arith, e, full, append-nil c.tasks))
  | inr room ↦ elim (Bool-cases (is_revisable c.policy q.target_role)) [
    | inr no_role ↦
        (ground (arith, room, no_role), ground (arith, room, no_role, append-nil c.tasks))
    | inl may ↦
        let same : n ≡ c.round = ground (arith, e, room) in
        subst
          (λ k.
            ((create_revision_task q c).1 ≡ answer_at c.policy k q)
            × ((create_revision_task q c).0.tasks
                ≡ c.tasks ++ option_list (answer_at c.policy k q)))
          (sym same) (ground (arith, room, may), ground (arith, room, may))
  ]
]

-- Of any requests for revision, exactly the first max_total_rounds that name a revisable role are
-- granted: after any requests before it, a request gets its task, numbered by the requests for
-- revisable roles up to it, when its role is revisable and fewer than max_total_rounds of those before
-- it named a revisable role, and else nothing. The controller records just the tasks that it hands out.
pub revisions_granted :
    (p : RevisionPolicy) (before : List RevisionRequest) (q : RevisionRequest)
    → let c = create_all (new_controller p) before in
      ((create_revision_task q c).1 ≡ due_answer p before q)
      × ((create_revision_task q c).0.tasks ≡ c.tasks ++ option_list (due_answer p before q))
unfolding new_controller
revisions_granted p before q =
    let start = new_controller p in
    let c = create_all start before in
    let n = count_if (asks p) before in
    let same : c.policy ≡ p = create_all-policy start before in
    let rounds : c.round ≡ min p.max_total_rounds n =
      omega (arith, create_all-round p start before refl (omega arith)) in
    let rounds' : c.round ≡ min c.policy.max_total_rounds n =
      rounds ∙ ap (λ (p' : RevisionPolicy). min p'.max_total_rounds n) (sym same) in
    subst
      (λ p'.
        ((create_revision_task q c).1 ≡ answer_at p' n q)
        × ((create_revision_task q c).0.tasks ≡ c.tasks ++ option_list (answer_at p' n q)))
      same (create-answer c n q rounds')
