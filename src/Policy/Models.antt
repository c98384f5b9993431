-- ===== src/Policy/Models.antt =====
-- src/specflow/policy/models.py and validator.py. The constructors reject negative limits, so a record
-- holds natural numbers, and `check_*` are the checks that remain of `__post_init__`.
use specflow_agent.Prelude.{
  ℕ, ◌*◌, String, Bool, true, false, List, [], ◌∷◌, Option, none, some, ◌==◌, nat_eq, Result, ok,
  ◌>>◌, raise_if, ltb, leb,
}

-- The fields that a `ValueError` of this file names.
pub data PolicyError : Type 0 where
  must_be_positive : String → PolicyError
  selected_exceeds_scanned reserve_not_below_total : PolicyError
  exceeds_system_limit : String → PolicyError

pub record RepositoryPolicy : Type 0 where
  pub max_scanned_files : ℕ
  pub max_selected_files : ℕ
  pub max_file_bytes : ℕ
  pub max_total_evidence_chars : ℕ
  pub max_evidence_items : ℕ

-- _check_positive
unfoldable pub check_positive : String → ℕ → Result PolicyError (Unit {0})
check_positive field value = raise_if (value == 0) (must_be_positive field)

-- RepositoryPolicy.__post_init__
unfoldable pub check_repository : RepositoryPolicy → Result PolicyError (Unit {0})
unfolding check_positive
check_repository p = do
  check_positive "max_scanned_files" p.max_scanned_files
  check_positive "max_selected_files" p.max_selected_files
  check_positive "max_file_bytes" p.max_file_bytes
  check_positive "max_total_evidence_chars" p.max_total_evidence_chars
  check_positive "max_evidence_items" p.max_evidence_items
  raise_if (ltb p.max_scanned_files p.max_selected_files) selected_exceeds_scanned

pub record TokenPolicy : Type 0 where
  pub max_run_input_tokens : ℕ
  pub max_run_output_tokens : ℕ
  pub max_run_total_tokens : ℕ
  pub max_agent_input_tokens : ℕ
  pub max_agent_output_tokens : ℕ
  pub reserved_retry_tokens : ℕ

-- TokenPolicy.__post_init__
unfoldable pub check_tokens : TokenPolicy → Result PolicyError (Unit {0})
unfolding check_positive
check_tokens p = do
  check_positive "max_run_input_tokens" p.max_run_input_tokens
  check_positive "max_run_output_tokens" p.max_run_output_tokens
  check_positive "max_run_total_tokens" p.max_run_total_tokens
  check_positive "max_agent_input_tokens" p.max_agent_input_tokens
  check_positive "max_agent_output_tokens" p.max_agent_output_tokens
  raise_if (leb p.max_run_total_tokens p.reserved_retry_tokens) reserve_not_below_total

-- RetryPolicy, whose checks hold by type
pub record RetryPolicy : Type 0 where
  pub max_provider_retries : ℕ
  pub max_schema_retries : ℕ
  pub max_json_repair_attempts : ℕ

pub record ArtifactPolicy : Type 0 where
  pub max_artifact_bytes : ℕ
  pub max_error_message_chars : ℕ
  pub include_raw_provider_output : Bool
  pub include_raw_prompt : Bool

-- ArtifactPolicy.__post_init__
unfoldable pub check_artifacts : ArtifactPolicy → Result PolicyError (Unit {0})
unfolding check_positive
check_artifacts p = do
  check_positive "max_artifact_bytes" p.max_artifact_bytes
  check_positive "max_error_message_chars" p.max_error_message_chars

pub record ExecutionPolicy : Type 0 where
  pub policy_version : String
  pub max_wall_time_seconds : ℕ
  pub max_llm_calls : ℕ
  pub max_parallel_agents : ℕ
  pub max_revisions : ℕ
  pub fail_on_schema_error : Bool
  pub allow_degraded_completion : Bool
  pub repository : RepositoryPolicy
  pub tokens : TokenPolicy
  pub retry : RetryPolicy
  pub artifacts : ArtifactPolicy

-- ExecutionPolicy.__post_init__
unfoldable pub check_policy : ExecutionPolicy → Result PolicyError (Unit {0})
unfolding check_positive
check_policy p = do
  check_positive "max_wall_time_seconds" p.max_wall_time_seconds
  check_positive "max_llm_calls" p.max_llm_calls
  check_positive "max_parallel_agents" p.max_parallel_agents

-- ExecutionPolicy()
abbrev pub default_policy : ExecutionPolicy
default_policy = record {
  policy_version = "1.0.0";
  max_wall_time_seconds = 300;
  max_llm_calls = 10;
  max_parallel_agents = 3;
  max_revisions = 1;
  fail_on_schema_error = true;
  allow_degraded_completion = true;
  repository = record {
    max_scanned_files = 10000;
    max_selected_files = 80;
    max_file_bytes = 262144;
    max_total_evidence_chars = 80000;
    max_evidence_items = 200;
  };
  tokens = record {
    max_run_input_tokens = 50000;
    max_run_output_tokens = 12000;
    max_run_total_tokens = 62000;
    max_agent_input_tokens = 10000;
    max_agent_output_tokens = 3000;
    reserved_retry_tokens = 6000;
  };
  retry = record { max_provider_retries = 2; max_schema_retries = 1; max_json_repair_attempts = 1 };
  artifacts = record {
    max_artifact_bytes = 5 * 1024 * 1024;
    max_error_message_chars = 500;
    include_raw_provider_output = false;
    include_raw_prompt = false;
  };
}

-- The paths of the limits that the validator compares, with their values.
abbrev pub limits : ExecutionPolicy → List (String × ℕ)
limits p =
    ("max_wall_time_seconds", p.max_wall_time_seconds)
    ∷ ("max_llm_calls", p.max_llm_calls)
    ∷ ("max_parallel_agents", p.max_parallel_agents)
    ∷ ("max_revisions", p.max_revisions)
    ∷ ("tokens.max_run_total_tokens", p.tokens.max_run_total_tokens)
    ∷ ("tokens.max_agent_input_tokens", p.tokens.max_agent_input_tokens)
    ∷ ("tokens.max_agent_output_tokens", p.tokens.max_agent_output_tokens)
    ∷ ("repository.max_scanned_files", p.repository.max_scanned_files)
    ∷ ("repository.max_selected_files", p.repository.max_selected_files)
    ∷ ("repository.max_total_evidence_chars", p.repository.max_total_evidence_chars)
    ∷ ("artifacts.max_artifact_bytes", p.artifacts.max_artifact_bytes)
    ∷ []

-- The loop of `validate`, over the limits of the system and of the policy side by side.
unfoldable pub check_limits : List (String × ℕ) → List (String × ℕ) → Result PolicyError (Unit {0})
check_limits ((path, max_allowed) ∷ ls) ((_, value) ∷ vs) = do
  raise_if (ltb max_allowed value) (exceeds_system_limit path)
  check_limits ls vs
check_limits _ _ = ok tt

-- PolicyValidator.validate
unfoldable pub validate_policy :
    Option ExecutionPolicy → ExecutionPolicy → Result PolicyError (Unit {0})
validate_policy none policy = ok tt
validate_policy (some hard_limit) policy = check_limits (limits hard_limit) (limits policy)
