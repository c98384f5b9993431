-- ===== src/Plan/Planner.antt =====
-- src/specflow/plan/planner.py: the fixed topology of six agents and the plan of `generate`.
pub mod Topology
use specflow_agent.Prelude.{
  String, Bool, true, false, List, [], ◌∷◌, ◌++◌, map, ◌==◌, string_eq, contains, not,
  if◌then◌else◌,
}
use specflow_agent.Prelude.Int.{pos}
use specflow_agent.Prelude.Multiset.{unique}
use specflow_agent.Prelude.Sort.{sort_by, str_leb}
use specflow_agent.Agents.Models.{
  repository_analyst, design, test_strategy, risk_review, synthesis, review, AgentIdentity,
  AgentDependency, AgentConstraints, default_policy,
}
use specflow_agent.Plan.Models.{StructuralDelegationSpec}

abbrev pub repo_id : String
repo_id = "repository-analyst-agent-v1"

abbrev pub design_id : String
design_id = "design-agent-v1"

abbrev pub test_id : String
test_id = "test-strategy-agent-v1"

abbrev pub risk_id : String
risk_id = "risk-review-agent-v1"

abbrev pub synthesis_id : String
synthesis_id = "synthesis-agent-v1"

abbrev pub review_id : String
review_id = "review-agent-v1"

abbrev pub reading_tools : List String
reading_tools = "list_files" ∷ "search_code" ∷ "read_file" ∷ []

-- FIXED_TOPOLOGY_AGENTS
abbrev pub fixed_topology_agents : List AgentIdentity
fixed_topology_agents =
    record {
      agent_id = repo_id;
      role = repository_analyst;
      version = "1.0.0";
      description = "Analyzes repository structure and maps requirements to code evidence";
      prompt_id = "prompts/repository-analyst/v1";
      prompt_version = "1.0.0";
      input_schema_id = "agent/repository-analyst/v1/input";
      output_schema_id = "agent/repository-analyst/v1/output";
      tool_permissions = reading_tools;
    }
    ∷ record {
      agent_id = design_id;
      role = design;
      version = "1.0.0";
      description = "Generates architecture, interface, data, and implementation plans";
      prompt_id = "prompts/design/v1";
      prompt_version = "1.0.0";
      input_schema_id = "agent/design/v1/input";
      output_schema_id = "agent/design/v1/output";
      tool_permissions = reading_tools;
    }
    ∷ record {
      agent_id = test_id;
      role = test_strategy;
      version = "1.0.0";
      description = "Independently generates comprehensive test strategies";
      prompt_id = "prompts/test-strategy/v1";
      prompt_version = "1.0.0";
      input_schema_id = "agent/test-strategy/v1/input";
      output_schema_id = "agent/test-strategy/v1/output";
      tool_permissions = reading_tools;
    }
    ∷ record {
      agent_id = risk_id;
      role = risk_review;
      version = "1.0.0";
      description =
          "Independently identifies security, concurrency, consistency, migration, and rollback risks";
      prompt_id = "prompts/risk-review/v1";
      prompt_version = "1.0.0";
      input_schema_id = "agent/risk-review/v1/input";
      output_schema_id = "agent/risk-review/v1/output";
      tool_permissions = reading_tools;
    }
    ∷ record {
      agent_id = synthesis_id;
      role = synthesis;
      version = "1.0.0";
      description = "Merges outputs from multiple specialist agents, resolves conflicts";
      prompt_id = "prompts/synthesis/v1";
      prompt_version = "1.0.0";
      input_schema_id = "agent/synthesis/v1/input";
      output_schema_id = "agent/synthesis/v1/output";
      tool_permissions = reading_tools;
    }
    ∷ record {
      agent_id = review_id;
      role = review;
      version = "1.0.0";
      description = "Performs final review and issues PASS/REJECT with structured findings";
      prompt_id = "prompts/review/v1";
      prompt_version = "1.0.0";
      input_schema_id = "agent/review/v1/input";
      output_schema_id = "agent/review/v1/output";
      tool_permissions = reading_tools;
    }
    ∷ []

abbrev pub fixed_dependencies : List AgentDependency
fixed_dependencies =
    record { agent_id = design_id; depends_on = repo_id ∷ [] }
    ∷ record { agent_id = test_id; depends_on = repo_id ∷ [] }
    ∷ record { agent_id = risk_id; depends_on = repo_id ∷ [] }
    ∷ record { agent_id = synthesis_id; depends_on = design_id ∷ test_id ∷ risk_id ∷ [] }
    ∷ record { agent_id = review_id; depends_on = synthesis_id ∷ [] }
    ∷ []

-- _required
abbrev pub required : List String
required = repo_id ∷ synthesis_id ∷ review_id ∷ []

abbrev pub constraints_for : String → AgentConstraints
constraints_for a_id = record {
  agent_id = a_id;
  max_execution_seconds = pos 120;
  max_token_budget = pos 8192;
  max_revision_rounds = pos 1;
  max_retries = pos 0;
  allowed_paths = [];
  denied_paths = [];
  criticality = if contains required a_id then "required" else "optional";
  fallback_allowed = not (contains required a_id);
}

-- The dependencies with an empty one for the analyst, when it has none.
abbrev pub with_analyst : List AgentDependency → List AgentDependency
with_analyst ds =
    if contains (map (λ d. d.agent_id) ds) repo_id
    then ds
    else ds ++ record { agent_id = repo_id; depends_on = [] } ∷ []

-- DeterministicPlanner.generate
unfoldable pub generate : String → StructuralDelegationSpec
generate plan_id = record {
  plan_id = plan_id;
  agents = fixed_topology_agents;
  dependencies = with_analyst fixed_dependencies;
  constraints =
      map constraints_for (sort_by str_leb (unique (map (λ a. a.agent_id) fixed_topology_agents)));
  revision_policy = default_policy;
}
