-- ===== src/Coordinator/Scheduler/Orders.antt =====
-- src/specflow/coordinator/scheduler.py: runs under different clocks and orders of completion, and
-- runs that fail.
use specflow_agent.Prelude.{
  ℕ, suc, ◌≡◌, refl, ap, sym, ◌∙◌, String, true, false, Option, none, List, [], ◌∷◌, string_eq,
  contains, ok, if◌then◌else◌, arith, inr, eq_refl, subst,
}
use specflow_agent.Prelude.Dict.{Dict, get, has, update, get-update}
use specflow_agent.Prelude.Multiset.{times}
use specflow_agent.Coordinator.Scheduler.{
  StageWorld, AgentContext, StageResult, Progress, Supplied, absent, malformed, mapping, Executors,
  run_agent, run_stage, run_stages, stage_result, execute, check_deadline, check_executors, gather,
  submit,
}
use specflow_agent.Coordinator.Scheduler.Stage.{
  run_stages-cases, AllHandOut, StageRan, run_stage-StageRan, output_of, run_stage-cases,
  contains-same, after_agent,
}

-- Two dicts with the same values.
abbrev pub SameValues : {Output : Type 0} → Dict String Output → Dict String Output → Type 0
SameValues d d' = (a : String) → get d a ≡ get d' a

-- Two runs with the same outputs, stage by stage.
abbrev pub SameOutputs :
    {Output : Type 0} → List (StageResult Output) → List (StageResult Output) → Type 0
SameOutputs [] [] = Unit
SameOutputs (r ∷ rs) (q ∷ qs) = SameValues r.agent_results q.agent_results × SameOutputs rs qs
SameOutputs [] (q ∷ qs) = ⊥
SameOutputs (r ∷ rs) [] = ⊥

-- Each stage starts before the deadline, and each of its futures is handed out in time.
abbrev pub AllInTime : Option ℕ → (ℕ → StageWorld) → ℕ → List (List String) → Type 0
AllInTime deadline world i [] = Unit
AllInTime deadline world i (ids ∷ stages) =
    (check_deadline deadline (world i).now ≡ ok tt)
    × ((world i).timed_out ≡ false)
    × ((a : String) → times a (world i).arrivals ≡ times a ids)
    × AllInTime deadline world (suc i) stages

module _ {Base Output : Type 0} (executors : Executors Base Output) where
  gather-returns :
      (world : StageWorld) (ctx : AgentContext Base Output) (ids : List String)
      (p : Progress Output)
      → ((a : String) → contains ids a ≡ true → (y : Output) × (run_agent executors ctx a ≡ ok y))
      → (q : Progress Output) × (gather executors world ctx ids p ≡ ok q)
  unfolding gather
  gather-returns world ctx [] p all = (p, refl)
  gather-returns world ctx (b ∷ ids) p all =
      let (y, ran) = all b (ground (arith, eq_refl b)) in
      let (q, h) =
        gather-returns world ctx ids (after_agent executors world p b y)
          (λ a here. all a (ground arith)) in
      (q, rw ran h)

  -- A stage whose agents are known and return, in time, returns.
  run_stage-returns :
      (deadline : Option ℕ) (world : StageWorld) (ctx : AgentContext Base Output)
      (ids : List String)
      → check_executors executors ids ≡ ok tt
      → check_deadline deadline world.now ≡ ok tt
      → world.timed_out ≡ false
      → ((a : String) → times a world.arrivals ≡ times a ids)
      → ((a : String) → contains ids a ≡ true → (y : Output) × (run_agent executors ctx a ≡ ok y))
      → (q : Progress Output) × (run_stage executors deadline world ctx ids ≡ ok q)
  unfolding run_stage
  run_stage-returns deadline world ctx ids known early in_time handed all =
      let (q, h) =
        gather-returns world ctx world.arrivals
          (record { results = []; timings = submit executors world ids [] })
          (λ a here. all a (sym (contains-same world.arrivals ids a (handed a)) ∙ here)) in
      (q, rw known (rw early (rw h (rw in_time refl))))

  module _ (base : Base) where
    abbrev ctx_of : Dict String Output → AgentContext Base Output
    ctx_of prior = record { base = base; prior_outputs = prior }

    -- An executor reads `prior_outputs` by key: the order of its keys changes no result.
    abbrev pub ReadsByKey : Type 0
    ReadsByKey =
        (a : String) (seen seen' : Dict String Output)
        → SameValues seen seen'
        → run_agent executors (ctx_of seen) a ≡ run_agent executors (ctx_of seen') a

    same_next :
        (prior prior' : Dict String Output) (ids : List String) (p p' : Progress Output)
        → ReadsByKey
        → SameValues prior prior'
        → StageRan executors (ctx_of prior) ids p
        → StageRan executors (ctx_of prior') ids p'
        → SameValues p.results p'.results
          × SameValues (update prior p.results) (update prior' p'.results)
    unfolding has
    same_next prior prior' ids p p' by_key same ran ran' =
        let results : SameValues p.results p'.results = λ a.
          ran.outputs a
          ∙ ap (λ r. if contains ids a then output_of r else none) (by_key a prior prior' same)
          ∙ sym (ran'.outputs a) in
        (
          results,
          λ a. ground (
            arith,
            get-update prior p.results a ran.distinct,
            get-update prior' p'.results a ran'.distinct,
            results a,
            same a,
          ),
        )

    run_stages-same :
        (deadline deadline' : Option ℕ) (world world' : ℕ → StageWorld) (k : ℕ)
        (stages : List (List String)) (prior prior' : Dict String Output)
        (rs : List (StageResult Output))
        → ReadsByKey
        → AllHandOut world k stages
        → AllInTime deadline' world' k stages
        → SameValues prior prior'
        → run_stages executors deadline world base k stages prior ≡ ok rs
        → (rs' : List (StageResult Output)) × (run_stages executors deadline' world' base k stages
              prior'
            ≡ ok rs')
          × SameOutputs rs rs'
    unfolding run_stages
    run_stages-same deadline deadline' world world' k [] prior prior' rs by_key handed timely same
          h =
        ([], refl, let e : [] ≡ rs = cc in subst (λ rs. SameOutputs rs []) e tt)
    run_stages-same deadline deadline' world world' k (ids ∷ stages) prior prior' rs by_key handed
          timely same h =
        let (p, rest, ran, later, split) =
          run_stages-cases executors base deadline world k ids stages prior rs h in
        let stage_ran =
          run_stage-StageRan executors deadline (world k) (ctx_of prior) ids p handed.0 ran in
        let (p', ran') =
          run_stage-returns deadline' (world' k) (ctx_of prior') ids
            (run_stage-cases executors deadline (world k) (ctx_of prior) ids p ran).0 timely.0
            timely.1 timely.2
            (λ a here.
              let (y, returned) = stage_ran.returned a here in
              (y, sym (by_key a prior prior' same) ∙ returned)) in
        let stage_ran' =
          run_stage-StageRan executors deadline' (world' k) (ctx_of prior') ids p' (inr timely.2)
            ran' in
        let (results, next) = same_next prior prior' ids p p' by_key same stage_ran stage_ran' in
        let (rest', later', rest_same) =
          run_stages-same deadline deadline' world world' (suc k) stages (update prior p.results)
            (update prior' p'.results) rest by_key handed.1 timely.3 next later in
        (
          stage_result executors k (world' k) p' ∷ rest',
          rw ran' (rw later' refl),
          subst (λ rs. SameOutputs rs (stage_result executors k (world' k) p' ∷ rest')) split
              (results, rest_same),
        )

-- When executors read `prior_outputs` by key only, a run that returned and a second run of the same
-- stages, under another clock and other orders of completion, in which no stage times out, agree:
-- the second returns, and has stage by stage the same outputs.
pub outputs_same :
    {Base Output : Type 0} (executors : Executors Base Output) (base : Base)
    (deadline deadline' : Option ℕ) (world world' : ℕ → StageWorld) (supplied : Supplied Output)
    (stages : List (List String)) (rs : List (StageResult Output))
    → ReadsByKey executors base
    → AllHandOut world 0 stages
    → AllInTime deadline' world' 0 stages
    → execute executors deadline world base supplied stages ≡ ok rs
    → (rs' : List (StageResult Output)) × (execute executors deadline' world' base supplied stages
        ≡ ok rs')
      × SameOutputs rs rs'
unfolding execute
outputs_same executors base deadline deadline' world world' absent stages rs by_key handed timely
      h =
    run_stages-same executors base deadline deadline' world world' 0 stages [] [] rs by_key handed
      timely (λ a. refl) h
outputs_same executors base deadline deadline' world world' malformed stages rs by_key handed timely
      h =
    cc
outputs_same executors base deadline deadline' world world' (mapping prior) stages rs by_key handed
      timely h =
    run_stages-same executors base deadline deadline' world world' 0 stages prior prior rs by_key
      handed timely (λ a. refl) h
