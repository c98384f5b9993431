-- ===== src/Agents/Registry.antt =====
-- src/specflow/agents/registry.py, and what src/specflow/agents/protocol.py asks of an agent.
use specflow_agent.Prelude.{
  String, Option, none, some, List, map, keep, Result, ok, err, ◌>>◌, raise_if, ◌==◌, string_eq,
}
use specflow_agent.Prelude.Dict.{Dict, get, put, has, values}
use specflow_agent.Prelude.Json.{Fields}
use specflow_agent.Agents.Models.{Role, role_eq, AgentIdentity}

-- Agent, whose execute may raise
pub record Agent : Type 0 where
  pub agent_id : String
  pub role : Role
  pub identity : AgentIdentity
  pub execute : Fields → Option Fields

-- DuplicateAgentError and AgentNotFoundError
pub data AgentError : Type 0 where
  duplicate_agent agent_not_found : String → AgentError

-- AgentRegistry.register
unfoldable pub register_agent : Dict String Agent → Agent → Result AgentError (Dict String Agent)
register_agent agents agent = do
  raise_if (has agents agent.agent_id) (duplicate_agent agent.agent_id)
  ok (put agents agent.agent_id agent)

abbrev pub agent_or_raise : String → Option Agent → Result AgentError Agent
agent_or_raise agent_id none = err (agent_not_found agent_id)
agent_or_raise agent_id (some agent) = ok agent

-- AgentRegistry.get
unfoldable pub get_agent : Dict String Agent → String → Result AgentError Agent
get_agent agents agent_id = agent_or_raise agent_id (get agents agent_id)

-- AgentRegistry.get_by_role
unfoldable pub get_by_role : Dict String Agent → Role → List Agent
get_by_role agents role = keep (λ a. a.role == role) (values agents)

-- AgentRegistry.list_agents
unfoldable pub list_agents : Dict String Agent → List AgentIdentity
list_agents agents = map (λ a. a.identity) (values agents)
