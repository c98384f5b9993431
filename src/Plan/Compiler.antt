-- ===== src/Plan/Compiler.antt =====
-- src/specflow/plan/compiler.py: `PlanCompiler.compile`. A set is a list without repetition. The keys
-- of `in_degree` and `reverse_deps` are the agents' ids and stay so, hence the two dicts are functions
-- of an id. The hash of the structure is SHA-256 over JSON, a parameter.
pub mod Links
pub mod Wiring
pub mod Stages
pub mod Acyclic
pub mod Indices
pub mod Compiled
pub mod Order
pub mod Cycles
use specflow_agent.Prelude.{
  ℕ, map_some, zero, suc, ◌+◌, ◌-◌, String, Bool, Option, none, some, List, [], ◌∷◌, ◌++◌, map,
  Option, ◌==◌, nat_eq, string_eq, contains, Result, ok, err, ◌>>=◌, ◌>>◌, raise_if, not, length,
  keep, if◌then◌else◌,
}
use specflow_agent.Prelude.Dict.{Dict, get, put, has}
use specflow_agent.Prelude.Multiset.{unique}
use specflow_agent.Prelude.Sort.{sort_by, str_leb}
use specflow_agent.Agents.Models.{AgentIdentity, AgentDependency}
use specflow_agent.Plan.Models.{
  PlanError, cycle_detected, duplicate_dependency, unknown_agent, unknown_dependency,
  StructuralDelegationSpec, CompiledStructuralPlan, check_compiled,
}

-- dep_map
abbrev pub DepMap : Type 0
DepMap = Dict String (List String)

-- agent_ids
unfoldable pub agent_ids : List AgentIdentity → List String
agent_ids agents = unique (map (λ a. a.agent_id) agents)

-- The inner loop over `depends_on`.
unfoldable pub check_known : List String → String → List String → Result PlanError (Unit {0})
check_known ids agent_id [] = ok tt
check_known ids agent_id (dep_id ∷ ds) = do
  raise_if (not (contains ids dep_id)) (unknown_dependency agent_id dep_id)
  check_known ids agent_id ds

-- The loop over the dependencies, with `seen_dep_ids` and `dep_map`.
unfoldable pub collect :
    List String → List String → DepMap → List AgentDependency → Result PlanError DepMap
collect ids seen m [] = ok m
collect ids seen m (d ∷ ds) = do
  raise_if (contains seen d.agent_id) (duplicate_dependency d.agent_id)
  raise_if (not (contains ids d.agent_id)) (unknown_agent d.agent_id)
  check_known ids d.agent_id d.depends_on
  collect ids (d.agent_id ∷ seen) (put m d.agent_id (unique d.depends_on)) ds

-- `dep_map.setdefault(a_id, set())` for every agent.
unfoldable pub set_defaults : DepMap → List String → DepMap
set_defaults m [] = m
set_defaults m (a ∷ ids) =
    let rest = set_defaults (put m a []) ids in
    let kept = set_defaults m ids in if has m a then kept else rest

abbrev pub or_empty : Option (List String) → List String
or_empty none = []
or_empty (some deps) = deps

abbrev pub deps_of : DepMap → String → List String
deps_of m a = or_empty (get m a)

-- in_degree
abbrev pub in_degree : DepMap → String → ℕ
in_degree m a = length (deps_of m a)

abbrev pub assign {ℓ} : {A : Type ℓ} → (String → A) → String → A → String → A
assign f k v j = if k == j then v else f j

-- The inner loop that builds `reverse_deps`.
unfoldable pub link : (String → List String) → String → List String → String → List String
link rev a [] = rev
link rev a (d ∷ ds) = link (assign rev d (rev d ++ a ∷ [])) a ds

unfoldable pub link_all : (String → List String) → DepMap → String → List String
link_all rev [] = rev
link_all rev ((a, ds) ∷ m) = link_all (link rev a ds) m

-- reverse_deps
unfoldable pub reverse_deps : DepMap → String → List String
reverse_deps m = link_all (λ a. []) m

-- `in_degree` and `queue` as the loops change them.
pub record Frontier : Type 0 where
  pub degree : String → ℕ
  pub queue : List String

-- The loop over the successors of a node. A degree is 0 after its decrement when it was 1; one that
-- is 0 already would turn negative and never be 0 again, and stays 0 here with no second entry.
unfoldable pub relax : Frontier → List String → Frontier
relax f [] = f
relax f (s ∷ ss) =
    relax
      (record {
        degree = assign f.degree s (f.degree s - 1);
        queue = if f.degree s == 1 then f.queue ++ s ∷ [] else f.queue;
      })
      ss

-- The loop over `stage_queue`.
unfoldable pub relax_stage : (String → List String) → Frontier → List String → Frontier
relax_stage rev f [] = f
relax_stage rev f (node ∷ nodes) = relax_stage rev (relax f (rev node)) nodes

-- The loop over `queue`, with fuel for its rounds: the members of each stage as they left the queue.
unfoldable pub levels :
    ℕ → (String → List String) → (String → ℕ) → List String → Option (List (List String))
levels fuel rev degree [] = some []
levels zero rev degree (a ∷ queue) = none
levels (suc fuel) rev degree (a ∷ queue) =
    let f = relax_stage rev (record { degree = degree; queue = [] }) (a ∷ queue) in
    map_some (λ rest. (a ∷ queue) ∷ rest) (levels fuel rev f.degree f.queue)

-- visited_count
unfoldable pub visited_count : List (List String) → ℕ
visited_count [] = 0
visited_count (s ∷ ss) = length s + visited_count ss

-- The queue before the loop.
abbrev pub sources : DepMap → List String → List String
sources m ids = keep (λ a. in_degree m a == 0) ids

-- The loop from its start; its fuel is one round for each agent and one more.
unfoldable pub schedule : DepMap → List String → Option (List (List String))
schedule m ids = levels (suc (length ids)) (reverse_deps m) (in_degree m) (sources m ids)

module _ (structure_hash : StructuralDelegationSpec → List (List String) → String) where
  abbrev pub plan_of : StructuralDelegationSpec → List (List String) → CompiledStructuralPlan
  plan_of p stages = record {
    plan_id = p.plan_id;
    agents = p.agents;
    dependencies = p.dependencies;
    execution_stages = stages;
    constraints = p.constraints;
    revision_policy = p.revision_policy;
    structure_hash = structure_hash p stages;
  }

  abbrev pub assemble :
      StructuralDelegationSpec → List (List String) → Result PlanError CompiledStructuralPlan
  assemble p stages = do check_compiled (plan_of p stages); ok (plan_of p stages)

  -- What follows the loop.
  unfoldable pub finish_plan :
      StructuralDelegationSpec
      → List String
      → List (List String)
      → Result PlanError CompiledStructuralPlan
  finish_plan p ids stages = do
    raise_if (not (visited_count stages == length ids)) cycle_detected
    assemble p (map (sort_by str_leb) stages)

  abbrev pub compile_map :
      StructuralDelegationSpec
      → List String
      → Result PlanError DepMap
      → Option (Result PlanError CompiledStructuralPlan)
  compile_map p ids (err e) = some (err e)
  compile_map p ids (ok m) = map_some (finish_plan p ids) (schedule (set_defaults m ids) ids)

  -- PlanCompiler.compile; `none` would mean that the loop ran out of fuel.
  unfoldable pub compile :
      StructuralDelegationSpec → Option (Result PlanError CompiledStructuralPlan)
  compile p = let ids = agent_ids p.agents in compile_map p ids (collect ids [] [] p.dependencies)
