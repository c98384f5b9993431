-- ===== src/Llm/Resilience/Bounds.antt =====
-- src/specflow/llm/resilience.py: what holds after every interleaving of the calls.
use specflow_agent.Prelude.{
  ℕ, subst, zero, suc, ◌≡◌, refl, ◌≢◌, ap, sym, ◌∙◌, Bool, false, Option, none, some, List, [], ◌∷◌,
  ◌==◌, nat_eq, Result, ok, err, count_if, All, arith,
}
use specflow_agent.Prelude.Dict.{get}
use specflow_agent.Policy.Errors.{ErrorCode}
use specflow_agent.Llm.Resilience.{
  Settings, ResourceIdentity, resource_eq, Entry, Guard, new_guard, Rejection, stop_iteration,
  Token, Located, locate, enter, entered, before_attempt, finish_entry, finish, write,
}
use specflow_agent.Llm.Resilience.Calls.{
  System, Event, begin, end, take_out, behind-cases, begun, ended, step, run, start, at, probe_at,
  Fits, Entered, enter-Fits, enter-reasons, finish-Fits, take_out-count,
}
use specflow_agent.Llm.Resilience.Table.{Consistent, Found, locate-Found, update-lem}

-- The guard after an event, and the tokens in flight.
abbrev pub Sound : Settings → System → Type 0
Sound s sys = Consistent s sys.guard sys.live

write-Consistent :
    (s : Settings) (g : Guard) (live more : List Token) (place : ℕ) (e : Entry)
    → Consistent s g live
    → Fits s e (count_if (at place) more) (count_if (probe_at place) more)
    → ((i : ℕ)
        → (place == i) ≡ false
        → (count_if (at i) live ≡ count_if (at i) more)
          × (count_if (probe_at i) live ≡ count_if (probe_at i) more))
    → All (λ t. get g.entries t.key ≡ some t.place) more
    → Consistent s (write g place e) more
write-Consistent s g live more place e c fit same resident = record {
  fits =
      update-lem (λ i e. Fits s e (count_if (at i) more) (count_if (probe_at i) more)) g.cell place
        e fit (λ i other. let kept = same i other in ground (arith, c.fits i, kept));
  resident = resident;
  stored = c.stored;
  room = c.room;
}

begun_ok-Sound :
    (s : Settings) (sys : System) (g : Guard) (key : ResourceIdentity) (i : ℕ)
    (result : Entry × Result Rejection Token)
    → Consistent s g sys.live
    → get g.entries key ≡ some i
    → Entered s key i (count_if (at i) sys.live) (count_if (probe_at i) sys.live) result
    → Sound s (begun sys (write g i result.0, result.1))
begun_ok-Sound s sys g key i (e, err r) c here entered =
    write-Consistent s g sys.live sys.live i e c entered (λ j other. (refl, refl)) c.resident
begun_ok-Sound s sys g key i (e, ok t) c here (fit, place, same_key) =
    write-Consistent s g sys.live (t ∷ sys.live) i e c (ground arith) (λ j other. ground arith)
      (ap (get g.entries) same_key ∙ here ∙ ap some (sym place), c.resident)

take_out-All :
    (P : Token → Type 0) (n : ℕ) (live rest : List Token) (t : Token)
    → take_out n live ≡ some (t, rest)
    → All P live
    → All P rest
unfolding take_out
take_out-All P n [] rest t h all = cc
take_out-All P zero (u ∷ us) rest t h all = let same : us ≡ rest = cc in subst (All P) same all.1
take_out-All P (suc n) (u ∷ us) rest t h all =
    let (vs, e, grown) = behind-cases u t (take_out n us) rest h in
    subst (All P) (sym grown) (all.0, take_out-All P n us vs t e all.1)

begun-Sound :
    (s : Settings) (sys : System) (key : ResourceIdentity) (now : ℕ) (l : Located)
    → Found s key sys.live l
    → Sound s (begun sys (entered s key now l))
begun-Sound s sys key now (g, err r) found = found.0
begun-Sound s sys key now (g, ok i) found =
    begun_ok-Sound s sys g key i (enter s key i now (g.cell i)) found.0 found.1 (
      enter-Fits s key i now (count_if (at i) sys.live) (count_if (probe_at i) sys.live) (g.cell i)
        (found.0.fits i))

ended-Sound :
    (s : Settings) (n : ℕ) (success : Bool) (code : Option ErrorCode) (now : ℕ) (sys : System)
    (o : Option (Token × List Token))
    → take_out n sys.live ≡ o
    → Sound s sys
    → Sound s (ended s success code now sys o)
unfolding finish
ended-Sound s n success code now sys none h c = c
ended-Sound s n success code now sys (some (t, rest)) h c =
    write-Consistent s sys.guard sys.live rest t.place
      (finish_entry s t.generation t.probe success code now (sys.guard.cell t.place)) c
      (finish-Fits s t.generation (count_if (at t.place) rest) (count_if (probe_at t.place) rest)
        now t.probe success code (sys.guard.cell t.place)
        (ground (
          arith,
          c.fits t.place,
          take_out-count (at t.place) n sys.live rest t h,
          take_out-count (probe_at t.place) n sys.live rest t h,
        )))
      (λ i other. ground (
        arith,
        take_out-count (at i) n sys.live rest t h,
        take_out-count (probe_at i) n sys.live rest t h,
      ))
      (take_out-All (λ u. get sys.guard.entries u.key ≡ some u.place) n sys.live rest t h
        c.resident)

pub step-Sound : (s : Settings) (sys : System) (e : Event) → Sound s sys → Sound s (step s sys e)
unfolding step before_attempt
step-Sound s sys (begin key now) c =
    begun-Sound s sys key now (locate s key sys.guard) (locate-Found s key sys.live sys.guard c)
step-Sound s sys (end n success code now) c =
    ended-Sound s n success code now sys (take_out n sys.live) refl c

start-Sound : (s : Settings) → Sound s start
unfolding new_guard get
start-Sound s = record {
  fits = λ i. ground arith;
  resident = tt;
  stored = λ k i h. cc;
  room = omega arith;
}

run-Sound_from :
    (s : Settings) (sys : System) (es : List Event) → Sound s sys → Sound s (run s sys es)
unfolding run
run-Sound_from s sys [] c = c
run-Sound_from s sys (e ∷ es) c = run-Sound_from s (step s sys e) es (step-Sound s sys e c)

-- After any interleaving of calls that enter and leave, on any settings: every entry counts exactly
-- the calls and the probes in flight that hold it, its probes keep to the bound of HALF_OPEN and its
-- consecutive failures to the threshold, the entry of a call in flight is still the one that its
-- resource looks up, and the table keeps to its capacity.
pub run-Sound : (s : Settings) (es : List Event) → Sound s (run s start es)
run-Sound s es = run-Sound_from s start es (start-Sound s)

begun-reasons :
    (s : Settings) (key : ResourceIdentity) (now : ℕ) (live : List Token) (l : Located)
    (r : Rejection)
    → Found s key live l
    → (entered s key now l).1 ≡ err r
    → r ≢ stop_iteration
begun-reasons s key now live (g, err r) q found h = λ e. found.1 cc
begun-reasons s key now live (g, ok i) q found h =
    λ e. enter-reasons s key i now (g.cell i) (h ∙ ap err e)

-- After any interleaving, a call that enters is admitted or rejected for the capacity, the open
-- circuit or the probes: the search for a free alias always finds one.
pub attempt-finds_alias :
    (s : Settings) (es : List Event) (key : ResourceIdentity) (now : ℕ)
    → (before_attempt s key now (run s start es).guard).1 ≢ err stop_iteration
unfolding before_attempt
attempt-finds_alias s es key now h =
    begun-reasons s key now (run s start es).live (locate s key (run s start es).guard)
      stop_iteration
      (locate-Found s key (run s start es).live (run s start es).guard (run-Sound s es)) h refl
