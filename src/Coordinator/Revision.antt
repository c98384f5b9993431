-- ===== src/Coordinator/Revision.antt =====
-- src/specflow/coordinator/revision.py. The fresh UUID of a task is an argument.
pub mod Rounds
mod Examples
use specflow_agent.Prelude.{
  ℕ, zero, suc, ◌+◌, ◌≤◌, ◌≡◌, String, Bool, Option, none, some, List, [], ◌∷◌, ◌++◌, leb, not,
  if◌then◌else◌,
}
use specflow_agent.Agents.Models.{Role, RevisionPolicy, is_revisable}

pub record RevisionTask : Type 0 where
  pub revision_id : String
  pub target_agent_id : String
  pub target_role : Role
  pub review_finding : String
  pub instruction : String
  pub round_number : ℕ

pub record RevisionController : Type 0 where
  pub policy : RevisionPolicy
  pub round : ℕ
  pub tasks : List RevisionTask

unfoldable pub new_controller : RevisionPolicy → RevisionController
new_controller policy = record { policy = policy; round = 0; tasks = [] }

unfoldable pub exhausted : RevisionController → Bool
exhausted c = leb c.policy.max_total_rounds c.round

-- The arguments of one call, with the UUID that it draws.
pub record RevisionRequest : Type 0 where
  pub revision_id : String
  pub target_agent_id : String
  pub target_role : Role
  pub finding : String
  pub instruction : String

abbrev pub task_of : RevisionRequest → ℕ → RevisionTask
task_of q n = record {
  revision_id = q.revision_id;
  target_agent_id = q.target_agent_id;
  target_role = q.target_role;
  review_finding = q.finding;
  instruction = q.instruction;
  round_number = n;
}

-- RevisionController.create_revision_task
unfoldable pub create_revision_task :
    RevisionRequest → RevisionController → RevisionController × Option RevisionTask
unfolding exhausted
create_revision_task q c =
    if exhausted c
    then (c, none)
    else if not (is_revisable c.policy q.target_role)
    then (c, none)
    else let task = task_of q (c.round + 1) in
      (record c { round = c.round + 1; tasks = c.tasks ++ task ∷ [] }, some task)

-- The controller after any calls, in order.
unfoldable pub create_all : RevisionController → List RevisionRequest → RevisionController
create_all c [] = c
create_all c (q ∷ qs) = create_all (create_revision_task q c).0 qs
