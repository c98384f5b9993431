-- ===== src/ApiSecurity/Window.antt =====
-- src/specflow/api_security.py: the window of `count_request` and the requests that it accepted.
use specflow_agent.Prelude.{
  ℕ, ◌+◌, ◌≤◌, ◌≡◌, refl, sym, subst, max, Bool, List, [], ◌∷◌, ok, err, length, length-snoc,
  count_if, count_if-append, count_if-le, leb, ◌&&◌, if_lem, arith,
}
use specflow_agent.ApiSecurity.{Limiter, new_limiter, Step, drop_old, count_request}

-- That a time lies in the span of so many seconds that starts at another.
abbrev pub in_span : ℕ → ℕ → ℕ → Bool
in_span span start t = leb start t && leb t (start + span)

-- A limiter, the latest time that a request has read, and the times of those that it accepted.
pub record Clocked : Type 0 where
  pub limiter : Limiter
  pub latest : ℕ
  pub accepted : List ℕ

abbrev pub logged : ℕ → ℕ → List ℕ → Step → Clocked
logged now latest accepted (l, ok u) = record {
  limiter = l;
  latest = latest;
  accepted = now ∷ accepted;
}
logged now latest accepted (l, err e) = record { limiter = l; latest = latest; accepted = accepted }

-- A request that read the given time and now has the lock
unfoldable pub request : Clocked → ℕ → Clocked
request k now = logged now (max k.latest now) k.accepted (count_request now k.limiter)

unfoldable pub requests : Clocked → List ℕ → Clocked
requests k [] = k
requests k (now ∷ later) = requests (request k now) later

-- No request reads a time that lies more than `lag` seconds behind one that had the lock before.
unfoldable pub IsTimely : ℕ → ℕ → List ℕ → Type 0
IsTimely lag latest [] = Unit
IsTimely lag latest (now ∷ later) = (latest ≤ now + lag) × IsTimely lag (max latest now) later

drop_old-count :
    (span start now : ℕ) (ts : List ℕ)
    → now ≤ start + 60
    → count_if (in_span span start) ts ≤ count_if (in_span span start) (drop_old now ts)
unfolding drop_old
drop_old-count span start now [] h = omega arith
drop_old-count span start now (t ∷ ts) h = ground (arith, drop_old-count span start now ts h)

request-latest : (k : Clocked) (now : ℕ) → (request k now).latest ≡ max k.latest now
unfolding request count_request
request-latest k now = ground arith

-- What the window knows of the accepted requests.
pub record Metered (quota span : ℕ) (k : Clocked) : Type 0 where
  pub quota_kept : k.limiter.per_minute ≡ quota
  pub short : length k.limiter.window ≤ quota
  pub recent :
      (start : ℕ)
      → k.latest ≤ start + 60
      → count_if (in_span span start) k.accepted ≤ count_if (in_span span start) k.limiter.window
  pub bounded : (start : ℕ) → count_if (in_span span start) k.accepted ≤ quota

drop_old-length : (now : ℕ) (ts : List ℕ) → length (drop_old now ts) ≤ length ts
unfolding drop_old
drop_old-length now [] = omega arith
drop_old-length now (t ∷ ts) = ground (arith, drop_old-length now ts)

request-Metered :
    (quota span lag : ℕ) (k : Clocked) (now : ℕ)
    → span + lag ≤ 60
    → k.latest ≤ now + lag
    → Metered quota span k
    → Metered quota span (request k now)
unfolding request count_request
request-Metered quota span lag k now narrow timely m =
    let window = drop_old now k.limiter.window in
    if_lem (λ (x : Step). Metered quota span (logged now (max k.latest now) k.accepted x))
      (leb k.limiter.per_minute (length window))
      (λ full. record {
        quota_kept = m.quota_kept;
        short = omega (arith, drop_old-length now k.limiter.window, m.short);
        recent = λ start h. omega (
          arith,
          m.recent start (omega (arith, h)),
          drop_old-count span start now k.limiter.window (omega (arith, h)),
        );
        bounded = m.bounded;
      })
      (λ room. record {
        quota_kept = m.quota_kept;
        short = ground (arith, room, length-snoc window now, m.quota_kept);
        recent = λ start h. ground (
          arith,
          m.recent start,
          drop_old-count span start now k.limiter.window,
          count_if-append (in_span span start) window (now ∷ []),
        );
        bounded = λ start. ground (
          arith,
          m.bounded start,
          m.recent start,
          drop_old-count span start now k.limiter.window,
          count_if-le (in_span span start) window,
          room,
          m.quota_kept,
          narrow,
          timely,
        );
      })

requests-Metered :
    (quota span lag : ℕ) (k : Clocked) (times : List ℕ)
    → span + lag ≤ 60
    → IsTimely lag k.latest times
    → Metered quota span k
    → Metered quota span (requests k times)
unfolding requests IsTimely
requests-Metered quota span lag k [] narrow timely m = m
requests-Metered quota span lag k (now ∷ later) narrow timely m =
    requests-Metered quota span lag (request k now) later narrow
      (subst (λ t. IsTimely lag t later) (sym (request-latest k now)) timely.1)
      (request-Metered quota span lag k now narrow timely.0 m)

-- A new limiter, at a time.
abbrev pub fresh : ℕ → ℕ → ℕ → Clocked
fresh quota max_concurrent now = record {
  limiter = new_limiter quota max_concurrent;
  latest = now;
  accepted = [];
}

fresh-Metered :
    (quota span max_concurrent now : ℕ) → Metered quota span (fresh quota max_concurrent now)
unfolding new_limiter
fresh-Metered quota span max_concurrent now = record {
  quota_kept = refl;
  short = omega arith;
  recent = λ start h. omega arith;
  bounded = λ start. omega arith;
}

-- When no request to a new limiter reads a time more than `lag` seconds behind one that had the lock
-- before it, no stretch of 60 - lag seconds holds more accepted requests than the quota. With a lag of
-- 0, where requests take the lock in the order of their times, this is the whole minute.
pub requests-bounded :
    (quota max_concurrent now span lag : ℕ) (times : List ℕ) (start : ℕ)
    → span + lag ≤ 60
    → IsTimely lag now times
    → count_if (in_span span start) (requests (fresh quota max_concurrent now) times).accepted
      ≤ quota
requests-bounded quota max_concurrent now span lag times start narrow timely =
    (requests-Metered quota span lag (fresh quota max_concurrent now) times narrow timely
        (fresh-Metered quota span max_concurrent now)).bounded
      start
