-- ===== src/Llm/Resilience/Calls.antt =====
-- src/specflow/llm/resilience.py: the calls of many threads as a sequence of atomic events, and what
-- one event does to the entry that it works on.
use specflow_agent.Prelude.{
  ℕ, ◌≢◌, zero, suc, ◌+◌, ◌≤◌, ◌≡◌, refl, Bool, true, false, Option, none, some, List, [], ◌∷◌,
  ◌==◌, nat_eq, Result, ok, err, count_if, if_lem, ltb, leb, ◌-◌, ◌&&◌, arith,
}
use specflow_agent.Policy.Errors.{ErrorCode}
use specflow_agent.Llm.Resilience.{
  Settings, ResourceIdentity, Entry, Guard, new_guard, Rejection, stop_iteration, Token,
  CircuitState, half_open, is_open, is_half_open, transition, admit, enter, before_attempt,
  finish_entry, finish,
}

-- The guard and the calls in flight.
pub record System : Type 0 where
  pub guard : Guard
  pub live : List Token

-- A thread enters `attempt`, or the call at a place of the list leaves it.
pub data Event : Type 0 where
  begin : ResourceIdentity → ℕ → Event
  end : ℕ → Bool → Option ErrorCode → ℕ → Event

abbrev pub behind : Token → Option (Token × List Token) → Option (Token × List Token)
behind t none = none
behind t (some (u, us)) = some (u, t ∷ us)

unfoldable pub take_out : ℕ → List Token → Option (Token × List Token)
take_out n [] = none
take_out zero (t ∷ ts) = some (t, ts)
take_out (suc n) (t ∷ ts) = behind t (take_out n ts)

abbrev pub begun : System → Guard × Result Rejection Token → System
begun sys (g, ok t) = record { guard = g; live = t ∷ sys.live }
begun sys (g, err r) = record { guard = g; live = sys.live }

abbrev pub ended :
    Settings → Bool → Option ErrorCode → ℕ → System → Option (Token × List Token) → System
ended s success code now sys none = sys
ended s success code now sys (some (t, rest)) = record {
  guard = finish s t success code now sys.guard;
  live = rest;
}

unfoldable pub step : Settings → System → Event → System
step s sys (begin key now) = begun sys (before_attempt s key now sys.guard)
step s sys (end n success code now) = ended s success code now sys (take_out n sys.live)

unfoldable pub run : Settings → System → List Event → System
run s sys [] = sys
run s sys (e ∷ es) = run s (step s sys e) es

abbrev pub start : System
start = record { guard = new_guard; live = [] }

abbrev pub at : ℕ → Token → Bool
at i t = i == t.place

abbrev pub probe_at : ℕ → Token → Bool
probe_at i t = i == t.place && t.probe

-- An entry with so many calls and probes in flight keeps its counts and its bounds.
pub record Fits (s : Settings) (e : Entry) (calls probes : ℕ) : Type 0 where
  pub calls_counted : e.active_calls ≡ calls
  pub probes_counted : e.active_probes ≡ probes
  pub probes_bounded : e.active_probes ≤ s.half_open_max_probes
  pub failures_bounded : e.consecutive_failures ≤ s.failure_threshold
  pub generations_counted : e.generation ≡ e.transition_count

abbrev pub bool_to_ℕ : Bool → ℕ
bool_to_ℕ true = 1
bool_to_ℕ false = 0

-- What `enter` returns beside the entry.
abbrev pub Entered :
    Settings → ResourceIdentity → ℕ → ℕ → ℕ → Entry × Result Rejection Token → Type 0
Entered s key i calls probes (e, err r) = Fits s e calls probes
Entered s key i calls probes (e, ok t) =
    Fits s e (calls + 1) (probes + bool_to_ℕ t.probe) × (t.place ≡ i) × (t.key ≡ key)

pub transition-Fits :
    (s : Settings) (e : Entry) (state : CircuitState) (calls probes : ℕ)
    → Fits s e calls probes
    → Fits s (transition state e) calls probes
unfolding transition
transition-Fits s e state calls probes f = ground arith

pub admit-Fits :
    (s : Settings) (key : ResourceIdentity) (i calls probes : ℕ) (e : Entry)
    → Fits s e calls probes
    → Entered s key i calls probes (admit s key i e)
unfolding admit
admit-Fits s key i calls probes e f =
    if_lem (Entered s key i calls probes)
      (is_half_open e.state && leb s.half_open_max_probes e.active_probes) (λ full. ground arith)
      (λ free. (ground arith, refl, refl))

pub enter-Fits :
    (s : Settings) (key : ResourceIdentity) (i now calls probes : ℕ) (e : Entry)
    → Fits s e calls probes
    → Entered s key i calls probes (enter s key i now e)
unfolding enter
enter-Fits s key i now calls probes e f =
    if_lem (Entered s key i calls probes) (is_open e.state)
      (λ opened.
        if_lem (Entered s key i calls probes) (ltb (now - e.opened_at) s.open_seconds)
          (λ early. ground arith)
          (λ late.
            admit-Fits s key i calls probes (transition half_open e)
              (transition-Fits s e half_open calls probes f)))
      (λ other. admit-Fits s key i calls probes e f)

-- The reasons by which an entry rejects a call.
pub enter-reasons :
    (s : Settings) (key : ResourceIdentity) (i now : ℕ) (e : Entry)
    → (enter s key i now e).1 ≢ err stop_iteration
unfolding enter admit
enter-reasons s key i now e = ground arith

pub finish-Fits :
    (s : Settings) (generation calls probes now : ℕ) (probe success : Bool)
    (code : Option ErrorCode) (e : Entry)
    → Fits s e (calls + 1) (probes + bool_to_ℕ probe)
    → Fits s (finish_entry s generation probe success code now e) calls probes
unfolding finish_entry
finish-Fits s generation calls probes now probe success code e f = ground arith

pub behind-cases :
    (t u : Token) (o : Option (Token × List Token)) (rest : List Token)
    → behind t o ≡ some (u, rest)
    → (us : List Token) × (o ≡ some (u, us)) × (rest ≡ t ∷ us)
behind-cases t u none rest h = cc
behind-cases t u (some (v, vs)) rest h = (vs, cc, cc)

pub take_out-count :
    (p : Token → Bool) (n : ℕ) (live rest : List Token) (t : Token)
    → take_out n live ≡ some (t, rest)
    → count_if p live ≡ count_if p rest + bool_to_ℕ (p t)
unfolding take_out
take_out-count p n [] rest t h = cc
take_out-count p zero (u ∷ us) rest t h = ground arith
take_out-count p (suc n) (u ∷ us) rest t h =
    let (vs, e, grown) = behind-cases u t (take_out n us) rest h in
    let counted = take_out-count p n us vs t e in rw grown (ground (arith, counted))
