-- ===== src/Llm/Resilience.antt =====
-- src/specflow/llm/resilience.py. The guard's dict maps a resource to an `_Entry` object that the
-- calls in flight share, so entries stand in a store and the dict holds their places in it. A method
-- returns the guard beside its result or exception: what was written before a raise stays written.
-- The lock makes each method atomic. The clock is a natural number of ticks.
pub mod Calls
pub mod Table
pub mod Bounds
pub mod Recovery
mod Examples
use specflow_agent.Prelude.{
  ℕ, zero, suc, ◌+◌, ◌-◌, ◌≡◌, refl, ◌↔◌, String, Bool, true, false, Option, none, some, List, [],
  ◌∷◌, ◌++◌, map, min, HasEq, ◌==◌, nat_eq, string_eq, contains, Result, ok, err, length, ltb, leb,
  not, ◌&&◌, ◌||◌, if◌then◌else◌, arith,
}
use specflow_agent.Prelude.Dict.{Dict, get, put, del, keys}
use specflow_agent.Policy.Errors.{
  ErrorCode, provider_timeout, provider_rate_limited, provider_server_error,
  provider_connection_error,
}

-- _AVAILABILITY_FAILURES
unfoldable pub is_availability : ErrorCode → Bool
is_availability provider_timeout = true
is_availability provider_rate_limited = true
is_availability provider_server_error = true
is_availability provider_connection_error = true
is_availability _ = false

-- `code in _AVAILABILITY_FAILURES`
abbrev pub is_counted : Option ErrorCode → Bool
is_counted none = false
is_counted (some code) = is_availability code

pub record Settings : Type 0 where
  pub failure_threshold : ℕ
  pub open_seconds : ℕ
  pub half_open_max_probes : ℕ
  pub max_entries : ℕ

-- ResilienceSettings.__post_init__ raises unless this holds.
unfoldable pub settings_are_valid : Settings → Bool
settings_are_valid s =
    ltb 0 s.failure_threshold
    && ltb 0 s.half_open_max_probes
    && ltb 0 s.max_entries
    && ltb 0 s.open_seconds

pub record ResourceIdentity : Type 0 where
  pub backend_resource_identity : String
  pub effective_model : String
  pub provider_tenancy_discriminator : String

unfoldable pub same_resource : ResourceIdentity → ResourceIdentity → Bool
same_resource a b =
    a.backend_resource_identity == b.backend_resource_identity
    && a.effective_model == b.effective_model
    && a.provider_tenancy_discriminator == b.provider_tenancy_discriminator

pub same_resource_iff : (a b : ResourceIdentity) → (same_resource a b ≡ true) ↔ (a ≡ b)
unfolding same_resource
same_resource_iff a b = ground (
  arith,
  string_eq.beq_iff a.backend_resource_identity b.backend_resource_identity,
  string_eq.beq_iff a.effective_model b.effective_model,
  string_eq.beq_iff a.provider_tenancy_discriminator b.provider_tenancy_discriminator,
)

instance abbrev pub resource_eq : HasEq ResourceIdentity
resource_eq = record { beq = same_resource; beq_iff = same_resource_iff }

pub data CircuitState : Type 0 where
  closed open_ half_open : CircuitState

abbrev pub is_closed : CircuitState → Bool
is_closed closed = true
is_closed _ = false

abbrev pub is_open : CircuitState → Bool
is_open open_ = true
is_open _ = false

abbrev pub is_half_open : CircuitState → Bool
is_half_open half_open = true
is_half_open _ = false

-- _Entry
pub record Entry : Type 0 where
  pub alias : ℕ
  pub state : CircuitState
  pub generation : ℕ
  pub opened_at : ℕ
  pub failure_count : ℕ
  pub consecutive_failures : ℕ
  pub active_calls : ℕ
  pub active_probes : ℕ
  pub rejection_count : ℕ
  pub transition_count : ℕ

-- _Entry(alias)
abbrev pub new_entry : ℕ → Entry
new_entry alias = record {
  alias = alias;
  state = closed;
  generation = 0;
  opened_at = 0;
  failure_count = 0;
  consecutive_failures = 0;
  active_calls = 0;
  active_probes = 0;
  rejection_count = 0;
  transition_count = 0;
}

-- The store: `cell i` is the entry object that was made as the i-th, and `next` the number made.
pub record Guard : Type 0 where
  pub entries : Dict ResourceIdentity ℕ
  pub cell : ℕ → Entry
  pub next : ℕ

unfoldable pub new_guard : Guard
new_guard = record { entries = []; cell = λ i. new_entry 0; next = 0 }

-- The reasons of `LLMCircuitError`, and the StopIteration of a search with no default.
pub data Rejection : Type 0 where
  registry_capacity circuit_open probe_limit stop_iteration : Rejection

abbrev pub update : (ℕ → Entry) → ℕ → Entry → ℕ → Entry
update cell i e j = if i == j then e else cell j

abbrev pub write : Guard → ℕ → Entry → Guard
write g i e = record g { cell = update g.cell i e }

-- _transition
unfoldable pub transition : CircuitState → Entry → Entry
transition state e = record e {
  state = state;
  generation = e.generation + 1;
  transition_count = e.transition_count + 1;
}

-- The test by which an entry may be recycled.
unfoldable pub is_idle : Entry → Bool
is_idle e = is_closed e.state && e.active_calls == 0 && e.consecutive_failures == 0

abbrev pub idle_at : (ℕ → Entry) → Option ℕ → Bool
idle_at cell none = false
idle_at cell (some i) = is_idle (cell i)

-- The first recyclable candidate, in the order of the dict.
unfoldable pub find_recyclable :
    Dict ResourceIdentity ℕ → (ℕ → Entry) → List ResourceIdentity → Option ResourceIdentity
find_recyclable entries cell [] = none
find_recyclable entries cell (k ∷ ks) =
    let rest = find_recyclable entries cell ks in
    if idle_at cell (get entries k) then some k else rest

-- The first of n numbers from i on that is not used.
unfoldable pub first_unused : ℕ → ℕ → List ℕ → Option ℕ
first_unused zero i used = none
first_unused (suc n) i used =
    let rest = first_unused n (i + 1) used in if contains used i then rest else some i

-- The aliases of the resident entries.
abbrev pub aliases : Dict ResourceIdentity ℕ → (ℕ → Entry) → List ℕ
aliases entries cell = map (λ p. (cell p.1).alias) entries

abbrev pub Located : Type 0
Located = Guard × Result Rejection ℕ

abbrev pub install : Guard → ResourceIdentity → Option ℕ → Located
install g key none = (g, err stop_iteration)
install g key (some alias) = (
  record {
    entries = put g.entries key g.next;
    cell = update g.cell g.next (new_entry alias);
    next = suc g.next;
  },
  ok g.next,
)

-- A fresh entry for a key, behind the check of the capacity.
unfoldable pub add_entry : Settings → ResourceIdentity → Guard → Located
add_entry s key g = install g key (first_unused s.max_entries 1 (aliases g.entries g.cell))

abbrev pub recycle : Settings → ResourceIdentity → Guard → Option ResourceIdentity → Located
recycle s key g none = (g, err registry_capacity)
recycle s key g (some old) = add_entry s key (record g { entries = del g.entries old })

-- The part of `_before_attempt` that makes an entry for an unknown key.
unfoldable pub locate_new : Settings → ResourceIdentity → Guard → Located
locate_new s key g =
    if leb s.max_entries (length g.entries)
    then recycle s key g (find_recyclable g.entries g.cell (keys g.entries))
    else add_entry s key g

abbrev pub located : Settings → ResourceIdentity → Guard → Option ℕ → Located
located s key g (some i) = (g, ok i)
located s key g none = locate_new s key g

-- The part of `_before_attempt` that looks the entry up or makes it.
unfoldable pub locate : Settings → ResourceIdentity → Guard → Located
locate s key g = located s key g (get g.entries key)

-- What a call in flight holds: its entry, the generation that it saw, and whether it is a probe.
pub record Token : Type 0 where
  pub key : ResourceIdentity
  pub place : ℕ
  pub generation : ℕ
  pub probe : Bool

abbrev pub reject : Entry → Entry
reject e = record e { rejection_count = e.rejection_count + 1 }

-- The part of `_before_attempt` behind the entry's move to HALF_OPEN.
unfoldable pub admit : Settings → ResourceIdentity → ℕ → Entry → Entry × Result Rejection Token
admit s key i e =
    let probe = is_half_open e.state in
    if probe && leb s.half_open_max_probes e.active_probes then (reject e, err probe_limit) else (
      record e {
        active_calls = e.active_calls + 1;
        active_probes = if probe then e.active_probes + 1 else e.active_probes;
      },
      ok (record { key = key; place = i; generation = e.generation; probe = probe }),
    )

-- The part of `_before_attempt` that works on one entry.
unfoldable pub enter : Settings → ResourceIdentity → ℕ → ℕ → Entry → Entry × Result Rejection Token
unfolding admit transition
enter s key i now e =
    if is_open e.state
    then (if ltb (now - e.opened_at) s.open_seconds
        then (reject e, err circuit_open)
        else admit s key i (transition half_open e))
    else admit s key i e

abbrev pub entered : Settings → ResourceIdentity → ℕ → Located → Guard × Result Rejection Token
entered s key now (g, err r) = (g, err r)
entered s key now (g, ok i) =
    let (e, result) = enter s key i now (g.cell i) in (write g i e, result)

-- _before_attempt
unfoldable pub before_attempt :
    Settings → ResourceIdentity → ℕ → Guard → Guard × Result Rejection Token
before_attempt s key now g = entered s key now (locate s key g)

-- _finish, on the entry that the call holds
unfoldable pub finish_entry : Settings → ℕ → Bool → Bool → Option ErrorCode → ℕ → Entry → Entry
unfolding transition
finish_entry s generation probe success code now e =
    let counted = is_counted code in
    let released = record e {
      active_calls = e.active_calls - 1;
      active_probes = if probe then e.active_probes - 1 else e.active_probes;
      failure_count = if counted then e.failure_count + 1 else e.failure_count;
    } in
    if not (generation == e.generation)
    then released
    else if counted
    then (let failures = min (e.consecutive_failures + 1) s.failure_threshold in
        if probe || leb s.failure_threshold failures
        then transition open_ (record released { consecutive_failures = failures; opened_at = now })
        else record released { consecutive_failures = failures })
    else if success
    then (if probe && released.active_probes == 0
        then transition closed (record released { consecutive_failures = 0 })
        else record released { consecutive_failures = 0 })
    else released

unfoldable pub finish : Settings → Token → Bool → Option ErrorCode → ℕ → Guard → Guard
finish s t success code now g =
    write g t.place (finish_entry s t.generation t.probe success code now (g.cell t.place))
