-- ===== src/ApiSecurity/Examples.antt =====
-- Runs of src/specflow/api_security.py.
use specflow_agent.Prelude.{
  ◌+◌, ◌≤◌, ◌≡◌, List, [], ◌∷◌, ok, count_if, ltb, ℕ, refl, arith, if◌then◌else◌,
}
use specflow_agent.ApiSecurity.{release_slot, count_request, drop_old, new_limiter}
use specflow_agent.ApiSecurity.Window.{
  in_span, fresh, request, requests, IsTimely, requests-bounded,
}
use specflow_agent.ApiSecurity.Slots.{
  Turn, enter, leave, count, follow, take_turns, empty_hall, turns-bounded,
}

-- One request in this run reads its time before another but takes the lock after it.
abbrev times : List ℕ
times = 0 ∷ 0 ∷ 61 ∷ 60 ∷ []

times-IsTimely : IsTimely 1 0 times
unfolding IsTimely
times-IsTimely = (omega arith, (omega arith, (omega arith, (omega arith, tt))))

-- The minute from 0 to 60 holds more accepted requests than the quota of 2.
overtaken : count_if (in_span 60 0) (requests (fresh 2 1 0) times).accepted ≡ 3
unfolding requests request count_request drop_old new_limiter
overtaken = refl

requests-bounded_example : count_if (in_span 59 1) (requests (fresh 2 1 0) times).accepted ≤ 2
requests-bounded_example = requests-bounded 2 1 0 59 1 times 1 (omega arith) times-IsTimely

abbrev turns : List Turn
turns = enter ∷ enter ∷ follow 1 ∷ count 2 ∷ enter ∷ count 3 ∷ leave ∷ []

turns-bounded_example :
    let h = take_turns (empty_hall 2 2) turns in
    (h.running ≤ 2)
    × (h.limiter.free + h.counting + h.running ≡ 2)
    × ((if ltb 0 h.running then (release_slot h.limiter).1 else ok tt) ≡ ok tt)
turns-bounded_example = turns-bounded 2 2 turns
