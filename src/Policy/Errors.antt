-- ===== src/Policy/Errors.antt =====
-- src/specflow/policy/errors.py: the error codes, their categories, and which are retried.
use specflow_agent.Prelude.{ℕ, ◌≡◌, ◌↔◌, Bool, true, [], ◌∷◌, HasEq, ◌==◌, nat_eq, contains, arith}

pub data ErrorCategory : Type 0 where
  transient_provider permanent_provider invalid_json : ErrorCategory
  schema_mismatch insufficient_evidence security_violation : ErrorCategory
  budget_exceeded tool_limit_exceeded timeout : ErrorCategory
  cancelled internal_error : ErrorCategory

pub data ErrorCode : Type 0 where
  provider_timeout provider_rate_limited provider_server_error : ErrorCode
  provider_connection_error provider_auth_failure provider_model_not_found : ErrorCode
  provider_circuit_rejected json_parse_failed json_not_object : ErrorCode
  schema_missing_field schema_wrong_type schema_extra_field : ErrorCode
  schema_validation_failed handoff_integrity_failed evidence_not_found : ErrorCode
  evidence_insufficient evidence_file_limit security_path_traversal : ErrorCode
  security_sensitive_file security_prompt_injection security_redaction_failed : ErrorCode
  budget_total_tokens budget_agent_tokens budget_llm_calls : ErrorCode
  budget_wall_time budget_retry_exhausted budget_revision_exhausted : ErrorCode
  tool_not_registered tool_param_invalid tool_path_denied : ErrorCode
  agent_timeout stage_timeout run_cancelled : ErrorCode
  internal_unexpected checkpoint_corrupt artifact_write_failed : ErrorCode

abbrev pub category_index : ErrorCategory → ℕ
category_index transient_provider = 0
category_index permanent_provider = 1
category_index invalid_json = 2
category_index schema_mismatch = 3
category_index insufficient_evidence = 4
category_index security_violation = 5
category_index budget_exceeded = 6
category_index tool_limit_exceeded = 7
category_index timeout = 8
category_index cancelled = 9
category_index internal_error = 10

pub category_index_iff :
    (a b : ErrorCategory) → ((category_index a == category_index b) ≡ true) ↔ (a ≡ b)
category_index_iff a b = ground arith

instance abbrev pub category_eq : HasEq ErrorCategory
category_eq = record {
  beq = λ a b. category_index a == category_index b;
  beq_iff = category_index_iff;
}

-- _ERROR_CODE_CATEGORY and error_category
unfoldable pub error_category : ErrorCode → ErrorCategory
error_category provider_timeout = transient_provider
error_category provider_rate_limited = transient_provider
error_category provider_server_error = transient_provider
error_category provider_connection_error = transient_provider
error_category provider_auth_failure = permanent_provider
error_category provider_model_not_found = permanent_provider
error_category provider_circuit_rejected = permanent_provider
error_category json_parse_failed = invalid_json
error_category json_not_object = invalid_json
error_category schema_missing_field = schema_mismatch
error_category schema_wrong_type = schema_mismatch
error_category schema_extra_field = schema_mismatch
error_category schema_validation_failed = schema_mismatch
error_category handoff_integrity_failed = internal_error
error_category evidence_not_found = insufficient_evidence
error_category evidence_insufficient = insufficient_evidence
error_category evidence_file_limit = insufficient_evidence
error_category security_path_traversal = security_violation
error_category security_sensitive_file = security_violation
error_category security_prompt_injection = security_violation
error_category security_redaction_failed = security_violation
error_category budget_total_tokens = budget_exceeded
error_category budget_agent_tokens = budget_exceeded
error_category budget_llm_calls = budget_exceeded
error_category budget_wall_time = budget_exceeded
error_category budget_retry_exhausted = budget_exceeded
error_category budget_revision_exhausted = budget_exceeded
error_category tool_not_registered = tool_limit_exceeded
error_category tool_param_invalid = tool_limit_exceeded
error_category tool_path_denied = security_violation
error_category agent_timeout = timeout
error_category stage_timeout = timeout
error_category run_cancelled = cancelled
error_category internal_unexpected = internal_error
error_category checkpoint_corrupt = internal_error
error_category artifact_write_failed = internal_error

unfoldable pub is_retryable : ErrorCode → Bool
unfolding error_category
is_retryable code = contains (transient_provider ∷ timeout ∷ []) (error_category code)
