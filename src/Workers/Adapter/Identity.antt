-- ===== src/Workers/Adapter/Identity.antt =====
-- src/specflow/workers/adapter.py: the metadata of a step.
use Prim.Native.Char.{Char, code}
use Prim.Native.String.append
use text.Mathlib.TextEquality.{eq_iff}
use specflow_agent.Prelude.{
  ◌≡◌, ◌≢◌, refl, sym, ap, ◌∙◌, String, true, false, some, List, [], ◌∷◌, ok, any, not, ◌||◌, ◌==◌,
  nat_eq, string_eq, if◌then◌else◌, arith, inl, inr, ◌⊎◌, Bool-cases, Result-cases,
}
use specflow_agent.Prelude.Dict.{Dict, get, put, has, keys, update, get-put}
use specflow_agent.Prelude.Text.{is_blank, ◌+++◌}
use specflow_agent.Executor.{Raised, StepResult, Outcome, ExecutionContext}
use specflow_agent.Workers.Models.{
  role_value, role_number_iff, worker_role_eq, WorkerContext, WorkerResult,
}
use specflow_agent.Workers.Registry.{WorkerReply, returned, returned_other, raised, Worker}
use specflow_agent.Workers.Adapter.{
  add_outputs, step_of, identity_of, reserved_keys, is_empty, convert, ContextSource,
  resolve_worker_context, handle,
}

get-update_other :
    (d more : Dict String String) (k : String)
    → has more k ≡ false
    → get (update d more) k ≡ get d k
unfolding update has get
get-update_other d [] k h = refl
get-update_other d ((j, v) ∷ more) k h =
    ground (arith, get-update_other (put d j v) more k, get-put d j k v, h)

-- A key that no output can have: each has "output." in front.
abbrev pub NoOutput : String → Type 0
NoOutput k = (key : String) → ("output." +++ key == k) ≡ false

get-add_outputs :
    (output : List (String × String)) (d : Dict String String) (k : String)
    → NoOutput k
    → get (add_outputs output d) k ≡ get d k
unfolding add_outputs
get-add_outputs [] d k free = refl
get-add_outputs ((key, value) ∷ output) d k free =
    get-add_outputs output (put d ("output." +++ key) value) k free
    ∙ get-put d ("output." +++ key) k value
    ∙ ap (λ b. if b then some value else get d k) (free key)

other-start :
    (c d : Char) (s t u : String)
    → code c ≢ code d
    → (String.◌∷◌ c s +++ t) == String.◌∷◌ d u ≡ false
other-start c d s t u differ = elim (Bool-cases ((String.◌∷◌ c s +++ t) == String.◌∷◌ d u)) [
  | inl same ↦
      let e = (eq_iff (String.◌∷◌ c s +++ t) (String.◌∷◌ d u)).0 same in
      let e' : String.◌∷◌ c (s +++ t) ≡ String.◌∷◌ d u = sym (append.cons c s t) ∙ e in
      let heads : c ≡ d = cc in absurd (differ (ap code heads))
  | inr e ↦ e
]

worker_name-free : NoOutput "worker_name"
worker_name-free key = other-start _ _ _ key _ (λ e. omega (arith, e))

worker_role-free : NoOutput "worker_role"
worker_role-free key = other-start _ _ _ key _ (λ e. omega (arith, e))

worker_version-free : NoOutput "worker_version"
worker_version-free key = other-start _ _ _ key _ (λ e. omega (arith, e))

reply-cases :
    (reply : WorkerReply)
    → ((r : WorkerResult) × (reply ≡ returned r))
      ⊎ ((reply ≡ returned_other) ⊎ ((e : Raised) × (reply ≡ raised e)))
reply-cases (returned r) = inl (r, refl)
reply-cases returned_other = inr (inl refl)
reply-cases (raised e) = inr (inr (e, refl))

-- The metadata name the worker.
pub record Identifies (worker : Worker) (metadata : Dict String String) : Type 0 where
  pub name : get metadata "worker_name" ≡ some worker.name
  pub role : get metadata "worker_role" ≡ some (role_value worker.role)
  pub version : get metadata "worker_version" ≡ some worker.version

none_reserved :
    (worker : Worker) (r : WorkerResult)
    → is_empty worker (reserved_keys worker r) ≡ true
    → (has r.metadata "worker_name" ≡ false)
      × (has r.metadata "worker_role" ≡ false)
      × (has r.metadata "worker_version" ≡ false)
none_reserved worker r h = (ground (arith, h), ground (arith, h), ground (arith, h))

step_of-metadata :
    (m : Dict String String) (s : StepResult) → step_of m ≡ Outcome.returned s → m ≡ s.metadata
step_of-metadata m s h = elim (Bool-cases (any is_blank (keys m))) [
  | inl e ↦ ground (arith, h, e)
  | inr e ↦ ground (arith, h, e)
]

-- What lies behind a result that became a step.
convert-cases :
    (worker : Worker) (r : WorkerResult) (s : StepResult)
    → convert worker r ≡ Outcome.returned s
    → ((r.worker_name == worker.name) ≡ true)
      × ((r.worker_role == worker.role) ≡ true)
      × (r.success ≡ true)
      × (is_empty worker (reserved_keys worker r) ≡ true)
      × (add_outputs r.output (update (identity_of worker r) r.metadata) ≡ s.metadata)
unfolding convert
convert-cases worker r s h =
    elim (Bool-cases (not (r.worker_name == worker.name) || not (r.worker_role == worker.role))) [
      | inl other ↦ ground (arith, h, other)
      | inr same ↦ elim (Bool-cases r.success) [
        | inr failed ↦ ground (arith, h, same, failed)
        | inl success ↦ elim (Bool-cases (is_empty worker (reserved_keys worker r))) [
          | inr reserved ↦ ground (arith, h, same, success, reserved)
          | inl free ↦ (
            ground (arith, same),
            ground (arith, same),
            success,
            free,
            step_of-metadata (add_outputs r.output (update (identity_of worker r) r.metadata)) s
                (ground (arith, h, same, success, free)),
          )
        ]
      ]
    ]

convert-Identifies :
    (worker : Worker) (r : WorkerResult) (s : StepResult)
    → convert worker r ≡ Outcome.returned s
    → Identifies worker s.metadata × (r.success ≡ true)
unfolding get
convert-Identifies worker r s h =
    let (name, role, success, free, same) = convert-cases worker r s h in
    let (no_name, no_role, no_version) = none_reserved worker r free in
    let base = identity_of worker r in
    let all = update base r.metadata in
    let entry = λ (k : String) (outside : NoOutput k) (absent : has r.metadata k ≡ false).
      ap (λ m. get m k) (sym same)
      ∙ get-add_outputs r.output all k outside
      ∙ get-update_other base r.metadata k absent in
    (
      record {
        name =
            entry "worker_name" worker_name-free no_name
            ∙ ap some ((string_eq.beq_iff r.worker_name worker.name).0 name);
        role =
            entry "worker_role" worker_role-free no_role
            ∙ ap (λ x. some (role_value x)) ((role_number_iff r.worker_role worker.role).0 role);
        version = entry "worker_version" worker_version-free no_version;
      },
      success,
    )

-- When the adapter returns a step, its worker got the context that the source gives for the executor's context
-- and returned a result that reports success, and the metadata of the step name the worker, its role
-- and its version, whatever metadata and outputs the worker gave.
pub handle-Identifies :
    (worker : Worker) (redact : String → String) (source : ContextSource) (ctx : ExecutionContext)
    (s : StepResult)
    → handle worker redact source ctx ≡ Outcome.returned s
    → (c : WorkerContext) × (r : WorkerResult) × (resolve_worker_context source ctx ≡ ok c)
      × (worker.execute c ≡ returned r)
      × (r.success ≡ true)
      × Identifies worker s.metadata
unfolding handle
handle-Identifies worker redact source ctx s h =
    elim (Result-cases (resolve_worker_context source ctx)) [
      | inr (e, failed) ↦ cc
      | inl (c, resolved) ↦ elim (reply-cases (worker.execute c)) [
        | inl (r, replied) ↦
            let converted : convert worker r ≡ Outcome.returned s = cc in
            let (identifies, success) = convert-Identifies worker r s converted in
            (c, r, resolved, replied, success, identifies)
        | inr other ↦ elim other [ inl none_given ↦ cc | inr (e, failed) ↦ cc ]
      ]
    ]
