-- ===== src/Coordinator/Scheduler/Stage.antt =====
-- src/specflow/coordinator/scheduler.py: what a stage leaves behind.
use specflow_agent.Prelude.{
  ℕ, suc, ◌≡◌, String, true, false, Option, none, some, List, [], ◌∷◌, ◌==◌, string_eq, contains,
  Result, ok, err, ◌>>=◌, >>=-eq-ok, if◌then◌else◌, arith, Bool-cases, inl, inr, ◌⊎◌, ◌∙◌,
}
use specflow_agent.Prelude.Multiset.{times, contains-times, absent-times}
use specflow_agent.Prelude.Dict.{Dict, get, update, put, IsDistinct, put-IsDistinct, get-put}
use specflow_agent.Coordinator.Scheduler.{
  ScheduleError, StageWorld, AgentContext, Progress, Executors, run_agent, finish_timing, gather,
  run_stage, run_stages, stage_result, StageResult, check_executors, submit,
}

-- The output of a call that returned.
abbrev pub output_of {ℓ} : {A : Type ℓ} → Result ScheduleError A → Option A
output_of (ok a) = some a
output_of (err e) = none

module _ {Base Output : Type 0} (executors : Executors Base Output) where
  abbrev pub after_agent : StageWorld → Progress Output → String → Output → Progress Output
  after_agent world p a y = record {
    results = put p.results a y;
    timings = put p.timings a (finish_timing executors (get p.timings a) world a);
  }

  -- The loop over the futures that arrive returns when each of their agents does, and leaves the
  -- outputs of these agents.
  pub gather-results :
      (world : StageWorld) (ctx : AgentContext Base Output) (ids : List String)
      (p q : Progress Output) (a : String)
      → gather executors world ctx ids p ≡ ok q
      → get q.results a
        ≡ (if contains ids a then output_of (run_agent executors ctx a) else get p.results a)
  unfolding gather
  gather-results world ctx [] p q a h = ground arith
  gather-results world ctx (b ∷ ids) p q a h =
      let (y, ran, rest) =
        >>=-eq-ok (run_agent executors ctx b)
          (λ y. gather executors world ctx ids (after_agent world p b y)) h in
      ground (
        arith,
        gather-results world ctx ids (after_agent world p b y) q a rest,
        get-put p.results b a y,
        string_eq.beq_iff a b,
        string_eq.beq_iff b a,
        ran,
      )

  pub gather-IsDistinct :
      (world : StageWorld) (ctx : AgentContext Base Output) (ids : List String)
      (p q : Progress Output)
      → gather executors world ctx ids p ≡ ok q
      → IsDistinct p.results
      → IsDistinct q.results
  unfolding gather
  gather-IsDistinct world ctx [] p q h d = ground arith
  gather-IsDistinct world ctx (b ∷ ids) p q h d =
      let (y, ran, rest) =
        >>=-eq-ok (run_agent executors ctx b)
          (λ y. gather executors world ctx ids (after_agent world p b y)) h in
      gather-IsDistinct world ctx ids (after_agent world p b y) q rest
        (put-IsDistinct p.results b y d)

  -- An agent whose future arrived has returned.
  pub gather-returned :
      (world : StageWorld) (ctx : AgentContext Base Output) (ids : List String)
      (p q : Progress Output) (a : String)
      → gather executors world ctx ids p ≡ ok q
      → contains ids a ≡ true
      → (y : Output) × (run_agent executors ctx a ≡ ok y)
  unfolding gather
  gather-returned world ctx [] p q a h here = cc
  gather-returned world ctx (b ∷ ids) p q a h here =
      let (y, ran, rest) =
        >>=-eq-ok (run_agent executors ctx b)
          (λ y. gather executors world ctx ids (after_agent world p b y)) h in
      elim (Bool-cases (a == b)) [
        | inl e ↦ (y, rw ((string_eq.beq_iff a b).0 e) ran)
        | inr e ↦ gather-returned world ctx ids (after_agent world p b y) q a rest (ground arith)
      ]

  -- What lies behind a stage that returned.
  pub run_stage-cases :
      (deadline : Option ℕ) (world : StageWorld) (ctx : AgentContext Base Output)
      (ids : List String) (q : Progress Output)
      → run_stage executors deadline world ctx ids ≡ ok q
      → (check_executors executors ids ≡ ok tt)
        × (world.timed_out ≡ false)
        × (gather executors world ctx world.arrivals
              (record { results = []; timings = submit executors world ids [] })
            ≡ ok q)
  unfolding run_stage
  run_stage-cases deadline world ctx ids q h = ground arith

-- `as_completed` hands out each future of the stage once, or its timeout ends the loop.
abbrev pub HandsOut : StageWorld → List String → Type 0
HandsOut world ids =
    (world.timed_out ≡ true) ⊎ ((a : String) → times a world.arrivals ≡ times a ids)

abbrev pub AllHandOut : (ℕ → StageWorld) → ℕ → List (List String) → Type 0
AllHandOut world i [] = Unit
AllHandOut world i (ids ∷ stages) = HandsOut (world i) ids × AllHandOut world (suc i) stages

pub contains-same :
    (xs ys : List String) (a : String) → times a xs ≡ times a ys → contains xs a ≡ contains ys a
contains-same xs ys a h =
    ground (arith, contains-times a xs, contains-times a ys, absent-times a xs, absent-times a ys)

pub record StageRan {Base Output : Type 0} (executors : Executors Base Output)
    (ctx : AgentContext Base Output) (ids : List String) (p : Progress Output) : Type 0 where
  pub outputs :
      (a : String)
      → get p.results a ≡ (if contains ids a then output_of (run_agent executors ctx a) else none)
  pub returned :
      (a : String) → contains ids a ≡ true → (y : Output) × (run_agent executors ctx a ≡ ok y)
  pub distinct : IsDistinct p.results

-- A stage that returned has the output of each of its agents, and no other.
pub run_stage-StageRan :
    {Base Output : Type 0} (executors : Executors Base Output) (deadline : Option ℕ)
    (world : StageWorld) (ctx : AgentContext Base Output) (ids : List String) (p : Progress Output)
    → HandsOut world ids
    → run_stage executors deadline world ctx ids ≡ ok p
    → StageRan executors ctx ids p
unfolding get
run_stage-StageRan executors deadline world ctx ids p handed h =
    let (known, in_time, gathered) = run_stage-cases executors deadline world ctx ids p h in
    elim handed [
      | inl late ↦ cc
      | inr all ↦ record {
        outputs = λ a.
            rw (← contains-same world.arrivals ids a (all a))
              (gather-results executors world ctx world.arrivals _ p a gathered);
        returned = λ a here.
            gather-returned executors world ctx world.arrivals _ p a gathered
              (contains-same world.arrivals ids a (all a) ∙ here);
        distinct = gather-IsDistinct executors world ctx world.arrivals _ p gathered tt;
      }
    ]

-- A run that returned has run its first stage, and then the others.
pub run_stages-cases :
    {Base Output : Type 0} (executors : Executors Base Output) (base : Base) (deadline : Option ℕ)
    (world : ℕ → StageWorld) (k : ℕ) (ids : List String) (stages : List (List String))
    (prior : Dict String Output) (rs : List (StageResult Output))
    → run_stages executors deadline world base k (ids ∷ stages) prior ≡ ok rs
    → (p : Progress Output) × (rest : List (StageResult Output)) × (run_stage executors deadline
          (world k)
          (record { base = base; prior_outputs = prior })
          ids
        ≡ ok p)
      × (run_stages executors deadline world base (suc k) stages (update prior p.results) ≡ ok rest)
      × (stage_result executors k (world k) p ∷ rest ≡ rs)
unfolding run_stages
run_stages-cases {Output = Output} executors base deadline world k ids stages prior rs h =
    let (p, ran, h') =
      >>=-eq-ok
        (run_stage executors deadline (world k) (record { base = base; prior_outputs = prior }) ids)
        (λ (p : Progress Output).
          run_stages executors deadline world base (suc k) stages (update prior p.results)
          >>= λ rest. ok (stage_result executors k (world k) p ∷ rest))
        h in
    let (rest, later, done) =
      >>=-eq-ok (run_stages executors deadline world base (suc k) stages (update prior p.results))
        (λ rest. ok (stage_result executors k (world k) p ∷ rest)) h' in
    (p, rest, ran, later, cc)
