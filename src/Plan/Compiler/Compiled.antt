-- ===== src/Plan/Compiler/Compiled.antt =====
-- src/specflow/plan/compiler.py: what a run of `compile` goes through.
use specflow_agent.Prelude.{
  suc, ◌≡◌, refl, sym, ap, ◌∙◌, String, Bool, some, List, [], ◌∷◌, map, ◌==◌, string_eq, nat_eq,
  contains, err, length, ◌&&◌, if◌then◌else◌, Bool-cases, Result-cases, arith, inl, inr, ◌⊎◌, keep,
}
use specflow_agent.Prelude.Dict.{get}
use specflow_agent.Prelude.Multiset.{times, times-unique, contains-unique}
use specflow_agent.Agents.Models.{AgentIdentity}
use specflow_agent.Plan.Models.{PlanError, StructuralDelegationSpec}
use specflow_agent.Plan.Compiler.{
  DepMap, agent_ids, collect, set_defaults, deps_of, in_degree, reverse_deps, sources, schedule,
  finish_plan, compile,
}
use specflow_agent.Plan.Compiler.Stages.{
  IsGraph, Fronts, Layered, all_pushed, remaining, levels-Layered,
}
use specflow_agent.Plan.Compiler.Wiring.{
  depends, collect-Wired, defaults-Wired, start-Wired, Wired-IsGraph,
}

-- The schedule of a dict that is right.
pub record Scheduled (ids : List String) (m : DepMap) (ss : List (List String)) : Type 0 where
  pub layered : Layered (deps_of m) [] ss
  pub total :
      (x : String)
      → times x (all_pushed [] ss)
        ≡ (if contains ids x && remaining (all_pushed [] ss) (deps_of m x) == 0 then 1 else 0)

times-keep :
    (p : String → Bool) (xs : List String) (x : String)
    → times x (keep p xs) ≡ (if p x then times x xs else 0)
unfolding times
times-keep p [] x = ground arith
times-keep p (y ∷ ys) x = elim (Bool-cases (x == y)) [
  | inl e ↦ let same = ap p ((string_eq.beq_iff x y).0 e) in ground (arith, same, times-keep p ys x)
  | inr e ↦ ground (arith, e, times-keep p ys x)
]

all_remain : (ds : List String) → remaining [] ds ≡ length ds
all_remain [] = refl
all_remain (d ∷ ds) = omega (arith, all_remain ds)

start-Fronts :
    (ids : List String) (m : DepMap)
    → IsGraph ids (deps_of m) (reverse_deps m)
    → Fronts ids (deps_of m) [] (record { degree = in_degree m; queue = [] }) (sources m ids)
unfolding times
start-Fronts ids m g = record {
  degrees = λ x. sym (all_remain (deps_of m x));
  members = λ x. ground (arith, times-keep (λ a. in_degree m a == 0) ids x, g.once x);
}

schedule-Scheduled :
    (ids : List String) (m : DepMap)
    → IsGraph ids (deps_of m) (reverse_deps m)
    → (ss : List (List String)) × (schedule m ids ≡ some ss) × Scheduled ids m ss
unfolding schedule
schedule-Scheduled ids m g =
    let (ss, e, layered, total) =
      levels-Layered ids (deps_of m) (reverse_deps m) g (suc (length ids)) [] (in_degree m)
        (sources m ids) (start-Fronts ids m g) (omega arith) in
    (ss, e, record { layered = layered; total = total })

agent_ids-once :
    (agents : List AgentIdentity) (x : String)
    → times x (agent_ids agents) ≡ (if contains (agent_ids agents) x then 1 else 0)
unfolding agent_ids
agent_ids-once agents x =
    let ids = map (λ a. a.agent_id) agents in
    ground (arith, times-unique x ids, contains-unique ids x)

-- A run of `compile` that gets past the dependencies: the dict that it builds and its schedule.
pub record Laid (p : StructuralDelegationSpec) (m : DepMap) (ss : List (List String)) : Type 0 where
  pub graph : IsGraph (agent_ids p.agents) (deps_of m) (reverse_deps m)
  pub scheduled : Scheduled (agent_ids p.agents) m ss
  pub edges : (x n : String) → contains (deps_of m x) n ≡ depends p.dependencies x n

module _ (structure_hash : StructuralDelegationSpec → List (List String) → String) where
  pub compile-cases :
      (p : StructuralDelegationSpec)
      → ((e : PlanError) × (collect (agent_ids p.agents) [] [] p.dependencies ≡ err e)
          × (compile structure_hash p ≡ some (err e)))
        ⊎ ((m : DepMap) × (ss : List (List String)) × Laid p m ss
            × (compile structure_hash p
                ≡ some (finish_plan structure_hash p (agent_ids p.agents) ss)))
  unfolding compile get
  compile-cases p =
      let ids = agent_ids p.agents in
      elim (Result-cases (collect ids [] [] p.dependencies)) [
        | inr (e, h) ↦ inl (e, h, rw h refl)
        | inl (m, h) ↦
            let (w, edges) =
              collect-Wired ids [] [] m p.dependencies h (start-Wired ids) (λ a k. refl) in
            let (w', same) = defaults-Wired ids m ids w in
            let g = Wired-IsGraph ids (set_defaults m ids) (agent_ids-once p.agents) w' in
            let (ss, k, scheduled) = schedule-Scheduled ids (set_defaults m ids) g in
            inr (
              set_defaults m ids,
              ss,
              record {
                graph = g;
                scheduled = scheduled;
                edges = λ x n. ap (λ es. contains es n) (same x) ∙ edges x n;
              },
              rw h (rw k refl),
            )
      ]
