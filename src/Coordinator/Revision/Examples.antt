-- ===== src/Coordinator/Revision/Examples.antt =====
-- Runs of src/specflow/coordinator/revision.py.
use specflow_agent.Prelude.{◌≡◌, refl, List, [], ◌∷◌, ◌++◌, length}
use specflow_agent.Agents.Models.{
  Role, design, synthesis, risk_review, role_eq, default_policy, is_revisable,
}
use specflow_agent.Coordinator.Revision.{
  new_controller, RevisionRequest, create_revision_task, create_all,
}
use specflow_agent.Coordinator.Revision.Rounds.{
  IsSound, revisions-IsSound, due_answer, option_list, revisions_granted,
}

abbrev ask : Role → RevisionRequest
ask r = record {
  revision_id = "id";
  target_agent_id = "agent";
  target_role = r;
  finding = "finding";
  instruction = "fix";
}

abbrev asked : List RevisionRequest
asked = ask synthesis ∷ ask design ∷ ask risk_review ∷ []

asked_once : length (create_all (new_controller default_policy) asked).tasks ≡ 1
unfolding create_all create_revision_task new_controller is_revisable
asked_once = refl

revisions-IsSound_example :
    IsSound default_policy (create_all (new_controller default_policy) asked)
revisions-IsSound_example = revisions-IsSound default_policy asked

revisions_granted_example :
    let c = create_all (new_controller default_policy) asked in
    ((create_revision_task (ask design) c).1 ≡ due_answer default_policy asked (ask design))
    × ((create_revision_task (ask design) c).0.tasks
        ≡ c.tasks ++ option_list (due_answer default_policy asked (ask design)))
revisions_granted_example = revisions_granted default_policy asked (ask design)
