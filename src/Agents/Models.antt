-- ===== src/Agents/Models.antt =====
-- src/specflow/agents/models.py. A frozen dataclass is a record, and its constructor with the checks
-- of `__post_init__` a function into the record or the first check's error. A frozenset is a list,
-- of which the code only asks membership. The checks that a role is an `AgentRole` hold by type.
use specflow_agent.Prelude.{
  ℕ, ◌≡◌, ◌↔◌, String, Bool, true, List, [], ◌∷◌, HasEq, ◌==◌, nat_eq, string_eq, contains, Result,
  ok, err, ◌>>◌, raise_if, any, not, ◌||◌, arith,
}
use specflow_agent.Prelude.Int.{ℤ, pos, negsuc, is_neg, lt_int}
use specflow_agent.Prelude.Text.{is_blank}

-- AgentRole
pub data Role : Type 0 where
  repository_analyst design test_strategy risk_review synthesis review : Role

abbrev pub role_index : Role → ℕ
role_index repository_analyst = 0
role_index design = 1
role_index test_strategy = 2
role_index risk_review = 3
role_index synthesis = 4
role_index review = 5

pub role_index_iff : (a b : Role) → ((role_index a == role_index b) ≡ true) ↔ (a ≡ b)
role_index_iff a b = ground arith

instance abbrev pub role_eq : HasEq Role
role_eq = record { beq = λ a b. role_index a == role_index b; beq_iff = role_index_iff }

-- AgentModelValidationError, with the field that its message names
pub data ModelError : Type 0 where
  must_not_be_empty : String → ModelError
  cannot_depend_on_itself : String → ModelError
  must_be_positive : String → ModelError
  must_be_non_negative : String → ModelError
  bad_criticality : ModelError
  empty_path : String → ModelError

pub record AgentIdentity : Type 0 where
  pub agent_id : String
  pub role : Role
  pub version : String
  pub description : String
  pub prompt_id : String
  pub prompt_version : String
  pub input_schema_id : String
  pub output_schema_id : String
  pub tool_permissions : List String

-- AgentIdentity.__post_init__
unfoldable pub check_identity : AgentIdentity → Result ModelError (Unit {0})
check_identity a = do
  raise_if (is_blank a.agent_id) (must_not_be_empty "agent_id")
  raise_if (is_blank a.version) (must_not_be_empty "version")
  raise_if (is_blank a.description) (must_not_be_empty "description")
  raise_if (is_blank a.prompt_id) (must_not_be_empty "prompt_id")
  raise_if (is_blank a.prompt_version) (must_not_be_empty "prompt_version")
  raise_if (is_blank a.input_schema_id) (must_not_be_empty "input_schema_id")
  raise_if (is_blank a.output_schema_id) (must_not_be_empty "output_schema_id")

pub record AgentDependency : Type 0 where
  pub agent_id : String
  pub depends_on : List String

-- AgentDependency.__post_init__
unfoldable pub check_dependency : AgentDependency → Result ModelError (Unit {0})
check_dependency d = do
  raise_if (is_blank d.agent_id) (must_not_be_empty "agent_id")
  raise_if (contains d.depends_on d.agent_id) (cannot_depend_on_itself d.agent_id)

pub record AgentConstraints : Type 0 where
  pub agent_id : String
  pub max_execution_seconds : ℤ
  pub max_token_budget : ℤ
  pub max_revision_rounds : ℤ
  pub max_retries : ℤ
  pub allowed_paths : List String
  pub denied_paths : List String
  pub criticality : String
  pub fallback_allowed : Bool

-- AgentConstraints.__post_init__
unfoldable pub check_constraints : AgentConstraints → Result ModelError (Unit {0})
check_constraints c = do
  raise_if (is_blank c.agent_id) (must_not_be_empty "agent_id")
  raise_if (not (lt_int (pos 0) c.max_execution_seconds)) (must_be_positive "max_execution_seconds")
  raise_if (not (lt_int (pos 0) c.max_token_budget)) (must_be_positive "max_token_budget")
  raise_if (is_neg c.max_revision_rounds) (must_be_non_negative "max_revision_rounds")
  raise_if (is_neg c.max_retries) (must_be_non_negative "max_retries")
  raise_if (not (c.criticality == "required" || c.criticality == "optional")) bad_criticality
  raise_if (any is_blank c.allowed_paths) (empty_path "allowed_paths")
  raise_if (any is_blank c.denied_paths) (empty_path "denied_paths")

-- RevisionPolicy. The constructor rejects a negative `max_total_rounds`, so the record holds a
-- natural number.
pub record RevisionPolicy : Type 0 where
  pub max_total_rounds : ℕ
  pub revisable_roles : List Role
  pub final_authority_role : Role

-- RevisionPolicy.__post_init__
unfoldable pub make_policy : ℤ → List Role → Role → Result ModelError RevisionPolicy
make_policy (pos n) roles authority =
    ok (record { max_total_rounds = n; revisable_roles = roles; final_authority_role = authority })
make_policy (negsuc n) roles authority = err (must_be_non_negative "max_total_rounds")

-- RevisionPolicy()
abbrev pub default_policy : RevisionPolicy
default_policy = record {
  max_total_rounds = 1;
  revisable_roles = design ∷ test_strategy ∷ risk_review ∷ [];
  final_authority_role = review;
}

-- RevisionPolicy.is_revisable
unfoldable pub is_revisable : RevisionPolicy → Role → Bool
is_revisable policy role = contains policy.revisable_roles role
