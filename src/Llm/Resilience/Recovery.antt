-- ===== src/Llm/Resilience/Recovery.antt =====
-- src/specflow/llm/resilience.py: how a circuit opens, and how it recovers.
use specflow_agent.Prelude.{
  ℕ, ◌↔◌, min, ltb, leb, ◌-◌, zero, suc, ◌+◌, ◌≤◌, ◌<◌, ◌≡◌, refl, ap, ◌∙◌, Bool, true, false,
  Option, some, List, [], ◌∷◌, nat_eq, eq_refl, ok, arith, if◌then◌else◌,
}
use specflow_agent.Prelude.Dict.{get}
use specflow_agent.Policy.Errors.{ErrorCode, error_category, transient_provider}
use specflow_agent.Llm.Resilience.{
  Settings, settings_are_valid, is_availability, ResourceIdentity, resource_eq, Entry, closed,
  open_, half_open, Token, enter, admit, transition, before_attempt, locate, finish, finish_entry,
  is_open, is_half_open, is_counted,
}
use specflow_agent.Llm.Resilience.Calls.{System, Event, begin, end, step, run, take_out}

-- The place of a resource's entry, in a state.
abbrev pub entry_at : System → ℕ → Entry
entry_at sys i = sys.guard.cell i

-- One call that enters at `now`, is admitted, and leaves at `later` with no other event between.
abbrev pub call : ResourceIdentity → ℕ → ℕ → Bool → Option ErrorCode → List Event
call key now later success code = begin key now ∷ end 0 success code later ∷ []

call-entry :
    (s : Settings) (key : ResourceIdentity) (i now later : ℕ) (success : Bool)
    (code : Option ErrorCode) (sys : System) (e : Entry) (t : Token)
    → get sys.guard.entries key ≡ some i
    → enter s key i now (entry_at sys i) ≡ (e, ok t)
    → t.place ≡ i
    → (entry_at (run s sys (call key now later success code)) i
        ≡ finish_entry s t.generation t.probe success code later e)
      × ((run s sys (call key now later success code)).guard.entries ≡ sys.guard.entries)
unfolding run step before_attempt locate take_out finish
call-entry s key i now later success code sys e t here admitted place =
    rw here (rw admitted (rw place (rw (eq_refl i) (refl, refl))))

abbrev pub joined : Entry → Entry
joined e = record e { active_calls = e.active_calls + 1 }

abbrev pub probing : Entry → Entry
probing e = record e {
  state = half_open;
  generation = e.generation + 1;
  transition_count = e.transition_count + 1;
  active_calls = e.active_calls + 1;
  active_probes = e.active_probes + 1;
}

enter-closed :
    (s : Settings) (key : ResourceIdentity) (i now : ℕ) (e : Entry)
    → is_open e.state ≡ false
    → is_half_open e.state ≡ false
    → enter s key i now e
      ≡ (joined e, ok (record { key = key; place = i; generation = e.generation; probe = false }))
unfolding enter admit
enter-closed s key i now e h k = rw h (rw k refl)

enter-open :
    (s : Settings) (key : ResourceIdentity) (i now : ℕ) (e : Entry)
    → is_open e.state ≡ true
    → ltb (now - e.opened_at) s.open_seconds ≡ false
    → leb s.half_open_max_probes e.active_probes ≡ false
    → enter s key i now e ≡ (
      probing e,
      ok (record { key = key; place = i; generation = e.generation + 1; probe = true }),
    )
unfolding enter admit transition
enter-open s key i now e h late free = rw h (rw late (rw free refl))

probing-finish :
    (s : Settings) (later : ℕ) (success : Bool) (code : Option ErrorCode) (e : Entry)
    → leb s.half_open_max_probes 0 ≡ false
    → e.active_probes ≡ 0
    → let e' = finish_entry s (e.generation + 1) true success code later (probing e) in
      (e'.active_probes ≡ 0)
      × (e'.active_calls ≡ e.active_calls)
      × (e'.state ≡ (if is_counted code then open_ else if success then closed else half_open))
      × (e'.opened_at ≡ (if is_counted code then later else e.opened_at))
      × (e'.consecutive_failures ≡ (
          if is_counted code
          then min (e.consecutive_failures + 1) s.failure_threshold
          else if success
          then 0
          else e.consecutive_failures))
unfolding finish_entry transition
probing-finish s later success code e room free = ground arith

-- A circuit that is open and whose duration is over, with no probe in flight, on valid settings: a
-- call that nothing comes between the start and the end of is admitted as a probe. When it fails as unavailable the circuit is open again from that
-- moment; else when it succeeds the circuit is closed with no failures counted; any other failure
-- leaves it half open with the failures that it had. In each case no probe remains in flight.
pub probe-decides :
    (s : Settings) (key : ResourceIdentity) (i now later : ℕ) (success : Bool)
    (code : Option ErrorCode) (sys : System)
    → settings_are_valid s ≡ true
    → get sys.guard.entries key ≡ some i
    → is_open (entry_at sys i).state ≡ true
    → (entry_at sys i).opened_at + s.open_seconds ≤ now
    → (entry_at sys i).active_probes ≡ 0
    → let e = entry_at (run s sys (call key now later success code)) i in
      (e.active_probes ≡ 0)
      × (e.active_calls ≡ (entry_at sys i).active_calls)
      × (e.state ≡ (if is_counted code then open_ else if success then closed else half_open))
      × (e.opened_at ≡ (if is_counted code then later else (entry_at sys i).opened_at))
      × (e.consecutive_failures ≡ (
          if is_counted code
          then min ((entry_at sys i).consecutive_failures + 1) s.failure_threshold
          else if success
          then 0
          else (entry_at sys i).consecutive_failures))
unfolding settings_are_valid
probe-decides s key i now later success code sys valid here opened due free =
    let admitted = enter-open s key i now (entry_at sys i) opened (ground arith) (ground arith) in
    let served =
      call-entry s key i now later success code sys (probing (entry_at sys i))
        (record {
          key = key;
          place = i;
          generation = (entry_at sys i).generation + 1;
          probe = true;
        })
        here admitted refl in
    rw (served.0) (probing-finish s later success code (entry_at sys i) (ground arith) free)

joined-finish :
    (s : Settings) (later : ℕ) (code : ErrorCode) (e : Entry)
    → is_availability code ≡ true
    → (finish_entry s e.generation false false (some code) later (joined e)).state
        ≡ (if leb s.failure_threshold (e.consecutive_failures + 1) then open_ else e.state)
      × ((finish_entry s e.generation false false (some code) later (joined e)).consecutive_failures
          ≡ min (e.consecutive_failures + 1) s.failure_threshold)
unfolding finish_entry transition
joined-finish s later code e counted = ground arith

-- A resource's calls one after the other, all of which fail with the same code.
unfoldable pub failing : ℕ → ResourceIdentity → ℕ → ErrorCode → List Event
failing zero key now code = []
failing (suc n) key now code = begin key now ∷ end 0 false (some code) now ∷ failing n key now code

failing_call :
    (s : Settings) (key : ResourceIdentity) (i now : ℕ) (code : ErrorCode) (sys : System)
    → is_availability code ≡ true
    → get sys.guard.entries key ≡ some i
    → (entry_at sys i).state ≡ closed
    → let next = run s sys (call key now now false (some code)) in
      (get next.guard.entries key ≡ some i)
      × ((entry_at next i).state ≡ (
          if leb s.failure_threshold ((entry_at sys i).consecutive_failures + 1)
          then open_
          else closed))
      × ((entry_at next i).consecutive_failures
          ≡ min ((entry_at sys i).consecutive_failures + 1) s.failure_threshold)
failing_call s key i now code sys counted here shut =
    let e = entry_at sys i in
    let admitted = enter-closed s key i now e (ap is_open shut) (ap is_half_open shut) in
    let served =
      call-entry s key i now now false (some code) sys (joined e)
        (record { key = key; place = i; generation = e.generation; probe = false }) here admitted
        refl in
    let finished = joined-finish s now code e counted in
    (
      ap (λ d. get d key) served.1 ∙ here,
      ap (λ e. e.state) served.0
          ∙ finished.0
          ∙ ap (λ st. if leb s.failure_threshold (e.consecutive_failures + 1) then open_ else st)
              shut,
      ap (λ e. e.consecutive_failures) served.0 ∙ finished.1,
    )

-- A closed circuit whose resource becomes unavailable: while its failures and the failing calls
-- stay below the threshold it is closed and has counted each of them.
pub failing-Closed :
    (s : Settings) (key : ResourceIdentity) (i now : ℕ) (code : ErrorCode) (n : ℕ) (sys : System)
    → is_availability code ≡ true
    → get sys.guard.entries key ≡ some i
    → (entry_at sys i).state ≡ closed
    → (entry_at sys i).consecutive_failures + n < s.failure_threshold
    → ((entry_at (run s sys (failing n key now code)) i).state ≡ closed)
      × ((entry_at (run s sys (failing n key now code)) i).consecutive_failures
          ≡ (entry_at sys i).consecutive_failures + n)
unfolding failing run
failing-Closed s key i now code zero sys counted here shut few = (shut, omega arith)
failing-Closed s key i now code (suc n) sys counted here shut few =
    let next = failing_call s key i now code sys counted here shut in
    let rest =
      failing-Closed s key i now code n (run s sys (call key now now false (some code))) counted
        next.0 (ground (arith, next)) (omega (arith, next.2, few)) in
    (rest.0, omega (arith, rest.1, next.2, few))

-- The failing call that reaches the threshold opens the circuit.
pub failing-Opens :
    (s : Settings) (key : ResourceIdentity) (i now : ℕ) (code : ErrorCode) (n : ℕ) (sys : System)
    → is_availability code ≡ true
    → get sys.guard.entries key ≡ some i
    → (entry_at sys i).state ≡ closed
    → (entry_at sys i).consecutive_failures + suc n ≡ s.failure_threshold
    → (entry_at (run s sys (failing (suc n) key now code)) i).state ≡ open_
unfolding failing run
failing-Opens s key i now code zero sys counted here shut due =
    let next = failing_call s key i now code sys counted here shut in ground (arith, next)
failing-Opens s key i now code (suc n) sys counted here shut due =
    let next = failing_call s key i now code sys counted here shut in
    failing-Opens s key i now code n (run s sys (call key now now false (some code))) counted next.0
      (ground (arith, next)) (omega (arith, next.2, due))

-- The failures that the guard counts are exactly those that the taxonomy calls transient.
pub is_availability_iff :
    (code : ErrorCode) → (is_availability code ≡ true) ↔ (error_category code ≡ transient_provider)
unfolding is_availability error_category
is_availability_iff code = ground arith
