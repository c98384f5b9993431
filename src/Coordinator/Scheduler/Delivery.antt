-- ===== src/Coordinator/Scheduler/Delivery.antt =====
-- src/specflow/coordinator/scheduler.py: what an agent finds in `prior_outputs`.
use specflow_agent.Prelude.{
  ℕ, subst, suc, ◌≤◌, ◌<◌, ◌≡◌, refl, sym, ◌∙◌, String, true, false, Option, none, some, List, [],
  ◌∷◌, string_eq, contains, ok, arith, Bool-cases, inl, inr,
}
use specflow_agent.Prelude.Dict.{Dict, get, has, update, get-update}
use specflow_agent.Prelude.Multiset.{contains-times}
use specflow_agent.Plan.Models.{StructuralDelegationSpec, CompiledStructuralPlan}
use specflow_agent.Plan.Compiler.{compile, agent_ids}
use specflow_agent.Plan.Compiler.Wiring.{depends}
use specflow_agent.Plan.Compiler.Order.{compiled-Earlier, compiled-at_most, compiled-once}
use specflow_agent.Plan.Compiler.Indices.{
  stage_index, total_times, index-cases, total_times-index, stage_index-absent,
}
use specflow_agent.Coordinator.Scheduler.{
  StageWorld, AgentContext, StageResult, Progress, Supplied, absent, malformed, mapping, Executors,
  run_agent, run_stages, stage_result, execute,
}
use specflow_agent.Coordinator.Scheduler.Stage.{
  AllHandOut, run_stages-cases, StageRan, run_stage-StageRan,
}

-- The output of an agent in the results of a run.
unfoldable pub output_in : {Output : Type 0} → List (StageResult Output) → String → Option Output
output_in [] a = none
output_in (r ∷ rs) a = elim (get r.agent_results a) [ some y ↦ some y | none ↦ output_in rs a ]

index-none :
    (s : List String) (ss : List (List String)) (x : String)
    → stage_index (s ∷ ss) x ≡ none
    → (contains s x ≡ false) × (stage_index ss x ≡ none)
unfolding stage_index
index-none s ss x h = elim (Bool-cases (contains s x)) [ inl e ↦ cc | inr e ↦ (e, ground arith) ]

head-once :
    (s : List String) (ss : List (List String)) (x : String)
    → contains s x ≡ true
    → total_times x (s ∷ ss) ≤ 1
    → stage_index ss x ≡ none
unfolding total_times
head-once s ss x here once =
    stage_index-absent ss x (ground (arith, once, here, contains-times x s))

module _ {Base Output : Type 0} (executors : Executors Base Output) (base : Base) where
  abbrev ctx_of : Dict String Output → AgentContext Base Output
  ctx_of prior = record { base = base; prior_outputs = prior }

  -- What the agent x of the stage j saw and returned.
  pub record Delivered (stages : List (List String)) (prior : Dict String Output)
      (rs : List (StageResult Output)) (x : String) (j : ℕ) : Type 0 where
    pub seen : Dict String Output
    pub output : Output
    pub returned : run_agent executors (ctx_of seen) x ≡ ok output
    pub recorded : output_in rs x ≡ some output
    pub kept : (d : String) → stage_index stages d ≡ none → get seen d ≡ get prior d
    pub earlier :
        (d : String) (i : ℕ) → stage_index stages d ≡ some i → i < j → get seen d ≡ output_in rs d

  module _ (deadline : Option ℕ) (world : ℕ → StageWorld) (k : ℕ) (ids : List String)
      (stages : List (List String)) (prior : Dict String Output) (p : Progress Output)
      (rs : List (StageResult Output)) (ran : StageRan executors (ctx_of prior) ids p)
      (once : (z : String) → total_times z (ids ∷ stages) ≤ 1) where
    abbrev all_results : List (StageResult Output)
    all_results = stage_result executors k (world k) p ∷ rs

    abbrev next_prior : Dict String Output
    next_prior = update prior p.results

    output-head :
        (d : String)
        → contains ids d ≡ true
        → (y : Output) × (run_agent executors (ctx_of prior) d ≡ ok y)
          × (get p.results d ≡ some y)
          × (output_in all_results d ≡ some y)
          × (get next_prior d ≡ some y)
    unfolding output_in has
    output-head d here =
        let (y, returned) = ran.returned d here in
        let got : get p.results d ≡ some y = ground (arith, ran.outputs d) in
        (y, returned, got, ground arith, ground (arith, get-update prior p.results d ran.distinct))

    output-tail :
        (d : String)
        → contains ids d ≡ false
        → (get p.results d ≡ none)
          × (output_in all_results d ≡ output_in rs d)
          × (get next_prior d ≡ get prior d)
    unfolding output_in has
    output-tail d other =
        let got : get p.results d ≡ none = ground (arith, ran.outputs d) in
        (got, ground arith, ground (arith, get-update prior p.results d ran.distinct))

    head-Delivered :
        (x : String) → contains ids x ≡ true → Delivered (ids ∷ stages) prior all_results x 0
    head-Delivered x here =
        let (y, returned, got, recorded, next) = output-head x here in
        record {
          seen = prior;
          output = y;
          returned = returned;
          recorded = recorded;
          kept = λ d gone. refl;
          earlier = λ d i at less. absurd (omega (arith, less));
        }

    seen_head :
        (seen : Dict String Output) (d : String)
        → ((d : String) → stage_index stages d ≡ none → get seen d ≡ get next_prior d)
        → contains ids d ≡ true
        → get seen d ≡ output_in all_results d
    seen_head seen d kept here =
        let (y, returned, got, recorded, next) = output-head d here in
        kept d (head-once ids stages d here (once d)) ∙ next ∙ sym recorded

    tail-Delivered :
        (x : String) (j : ℕ)
        → contains ids x ≡ false
        → Delivered stages next_prior rs x j
        → Delivered (ids ∷ stages) prior all_results x (suc j)
    tail-Delivered x j other later = record {
      seen = later.seen;
      output = later.output;
      returned = later.returned;
      recorded = (output-tail x other).1 ∙ later.recorded;
      kept = λ d gone.
          let (out, out') = index-none ids stages d gone in
          later.kept d out' ∙ (output-tail d out).2;
      earlier = λ d i at less. elim (index-cases ids stages d i at) [
        | inl here ↦ seen_head later.seen d later.kept here
        | inr (out, (i', at', same)) ↦
            later.earlier d i' at' (omega (arith, less, same)) ∙ sym (output-tail d out).1
      ];
    }

  -- An agent of a run that returned saw the outputs of the earlier stages, and its own is recorded.
  pub run_stages-Delivered :
      (deadline : Option ℕ) (world : ℕ → StageWorld) (k : ℕ) (stages : List (List String))
      (prior : Dict String Output) (rs : List (StageResult Output)) (x : String) (j : ℕ)
      → AllHandOut world k stages
      → ((z : String) → total_times z stages ≤ 1)
      → run_stages executors deadline world base k stages prior ≡ ok rs
      → stage_index stages x ≡ some j
      → Delivered stages prior rs x j
  unfolding stage_index total_times
  run_stages-Delivered deadline world k [] prior rs x j handed once h at = cc
  run_stages-Delivered deadline world k (ids ∷ stages) prior rs x j handed once h at =
      let (p, rest, ran, later, same) =
        run_stages-cases executors base deadline world k ids stages prior rs h in
      let stage_ran =
        run_stage-StageRan executors deadline (world k) (ctx_of prior) ids p handed.0 ran in
      subst (λ rs. Delivered (ids ∷ stages) prior rs x j) same
        (elim (index-cases ids stages x j at) [
          | inl here ↦
              subst (Delivered (ids ∷ stages) prior (stage_result executors k (world k) p ∷ rest) x)
                (ground arith)
                (head-Delivered deadline world k ids stages prior p rest stage_ran once x here)
          | inr (other, (j', at', e)) ↦
              subst (Delivered (ids ∷ stages) prior (stage_result executors k (world k) p ∷ rest) x)
                (sym e)
                (tail-Delivered deadline world k ids stages prior p rest stage_ran once x j' other (
                  run_stages-Delivered deadline world (suc k) stages (update prior p.results) rest x
                    j' handed.1 (λ z. omega (arith, once z)) later at'))
        ])

abbrev pub prior_of : {Output : Type 0} → Supplied Output → Dict String Output
prior_of absent = []
prior_of malformed = []
prior_of (mapping prior) = prior

-- A run that returned went through the stages from the outputs that it was given.
pub execute-run_stages :
    {Base Output : Type 0} (executors : Executors Base Output) (deadline : Option ℕ)
    (world : ℕ → StageWorld) (base : Base) (supplied : Supplied Output)
    (stages : List (List String)) (rs : List (StageResult Output))
    → execute executors deadline world base supplied stages ≡ ok rs
    → run_stages executors deadline world base 0 stages (prior_of supplied) ≡ ok rs
unfolding execute
execute-run_stages executors deadline world base absent stages rs h = h
execute-run_stages executors deadline world base malformed stages rs h = cc
execute-run_stages executors deadline world base (mapping prior) stages rs h = h

-- When a run over the stages of a compiled plan returns, the output recorded for an agent x is what
-- its executor returned on a context whose `prior_outputs` hold, for each agent d that x depends on,
-- the output recorded for d; this whatever the order in which the agents of a stage finished.
pub dependency_delivered :
    {Base Output : Type 0} (structure_hash : StructuralDelegationSpec → List (List String) → String)
    (spec : StructuralDelegationSpec) (plan : CompiledStructuralPlan)
    (executors : Executors Base Output) (deadline : Option ℕ) (world : ℕ → StageWorld) (base : Base)
    (supplied : Supplied Output) (rs : List (StageResult Output)) (x : String)
    → compile structure_hash spec ≡ some (ok plan)
    → contains (agent_ids spec.agents) x ≡ true
    → AllHandOut world 0 plan.execution_stages
    → execute executors deadline world base supplied plan.execution_stages ≡ ok rs
    → (seen : Dict String Output) × (y : Output) × (run_agent executors
          (record { base = base; prior_outputs = seen })
          x
        ≡ ok y)
      × (output_in rs x ≡ some y)
      × ((d : String)
          → depends spec.dependencies x d ≡ true
          → (z : Output) × (output_in rs d ≡ some z) × (get seen d ≡ some z))
dependency_delivered structure_hash spec plan executors deadline world base supplied rs x compiled
      known handed h =
    let stages = plan.execution_stages in
    let once = λ (z : String). compiled-once structure_hash spec plan z compiled in
    let at_most = λ (z : String). compiled-at_most structure_hash spec plan z compiled in
    let ran = execute-run_stages executors deadline world base supplied stages rs h in
    let (j, at) = total_times-index stages x (ground (arith, once x)) in
    let delivered =
      run_stages-Delivered executors base deadline world 0 stages (prior_of supplied) rs x j handed
        at_most ran at in
    (
      delivered.seen,
      delivered.output,
      delivered.returned,
      delivered.recorded,
      λ d edge.
          let (i, j', at_d, at_x, less) =
            compiled-Earlier structure_hash spec plan x d compiled edge in
          let of_d =
            run_stages-Delivered executors base deadline world 0 stages (prior_of supplied) rs d i
              handed at_most ran at_d in
          let same : some j ≡ some j' = sym at ∙ at_x in
          let same' : j ≡ j' = cc in
          (
            of_d.output,
            of_d.recorded,
            delivered.earlier d i at_d (omega (arith, less, same')) ∙ of_d.recorded,
          ),
    )
