-- ===== src/ApiSecurity.antt =====
-- src/specflow/api_security.py: `RunRateLimiter` and `RunPermit`. Time is a natural number of seconds.
-- A thread reads the clock before it takes the lock of the window, so times come in any order. The
-- semaphore and the window have locks of their own, so that threads interleave between the two steps of
-- `acquire`: threads are a list of events.
pub mod Window
pub mod Slots
mod Examples
use specflow_agent.Prelude.{
  ℕ, suc, ◌+◌, ◌-◌, Bool, true, false, List, [], ◌∷◌, ◌++◌, Result, ok, err, length, ltb, leb,
  if◌then◌else◌,
}

-- The two refusals with status 429, and the ValueError of a semaphore released too often.
pub data Refusal : Type 0 where
  already_in_progress rate_exceeded released_too_often : Refusal

-- `threads_counting` are between the two steps of `acquire`, `runs` hold a permit.
pub record Limiter : Type 0 where
  pub per_minute : ℕ
  pub max_concurrent : ℕ
  pub free : ℕ
  pub window : List ℕ

unfoldable pub new_limiter : ℕ → ℕ → Limiter
new_limiter per_minute max_concurrent = record {
  per_minute = per_minute;
  max_concurrent = max_concurrent;
  free = max_concurrent;
  window = [];
}

-- The loop that pops from the front what is older than a minute.
unfoldable pub drop_old : ℕ → List ℕ → List ℕ
drop_old now [] = []
drop_old now (t ∷ ts) = let rest = drop_old now ts in if ltb 60 (now - t) then rest else t ∷ ts

abbrev pub Step : Type 0
Step = Limiter × Result Refusal (Unit {0})

-- RunRateLimiter.count_request, in the lock; `now` was read before it.
unfoldable pub count_request : ℕ → Limiter → Step
count_request now l =
    let window = drop_old now l.window in
    if leb l.per_minute (length window)
    then (record l { window = window }, err rate_exceeded)
    else (record l { window = window ++ now ∷ [] }, ok tt)

-- The first step of RunRateLimiter.acquire
unfoldable pub take_slot : Limiter → Step
take_slot l =
    if ltb 0 l.free then (record l { free = l.free - 1 }, ok tt) else (l, err already_in_progress)

-- RunPermit.release, on a bounded semaphore
unfoldable pub release_slot : Limiter → Step
release_slot l =
    if ltb l.free l.max_concurrent
    then (record l { free = l.free + 1 }, ok tt)
    else (l, err released_too_often)

abbrev pub or_release : Step → Step
or_release (l, ok u) = (l, ok u)
or_release (l, err e) = ((release_slot l).0, err e)

-- The second step of RunRateLimiter.acquire, whose failure gives the slot back
unfoldable pub count_or_release : ℕ → Limiter → Step
count_or_release now l = or_release (count_request now l)

abbrev pub then_count : ℕ → Step → Step
then_count now (l, ok u) = count_or_release now l
then_count now (l, err e) = (l, err e)

-- RunRateLimiter.acquire, when no other thread comes between
unfoldable pub acquire : ℕ → Limiter → Step
acquire now l = then_count now (take_slot l)
