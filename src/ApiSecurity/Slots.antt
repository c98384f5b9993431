-- ===== src/ApiSecurity/Slots.antt =====
-- src/specflow/api_security.py: the slots of the semaphore, for any interleaving of threads.
use specflow_agent.Prelude.{
  ℕ, ◌+◌, ◌-◌, ◌≤◌, ◌≡◌, refl, List, [], ◌∷◌, ok, err, ltb, if◌then◌else◌, arith,
}
use specflow_agent.ApiSecurity.{
  Limiter, new_limiter, Step, count_request, take_slot, release_slot, count_or_release,
}

-- The limiter, the threads between the two steps of `acquire`, and those that hold a permit.
pub record Hall : Type 0 where
  pub limiter : Limiter
  pub counting : ℕ
  pub running : ℕ

-- A thread takes a slot; one that has taken it counts its request; a follower counts its own; a
-- permit is released.
pub data Turn : Type 0 where
  enter leave : Turn
  count follow : ℕ → Turn

abbrev pub entered : Hall → Step → Hall
entered h (l, ok u) = record h { limiter = l; counting = h.counting + 1 }
entered h (l, err e) = record h { limiter = l }

abbrev pub counted : Hall → Step → Hall
counted h (l, ok u) = record { limiter = l; counting = h.counting - 1; running = h.running + 1 }
counted h (l, err e) = record h { limiter = l; counting = h.counting - 1 }

unfoldable pub take_turn : Hall → Turn → Hall
take_turn h enter = entered h (take_slot h.limiter)
take_turn h (count now) = if ltb 0 h.counting then counted h (count_or_release now h.limiter) else h
take_turn h (follow now) = record h { limiter = (count_request now h.limiter).0 }
take_turn h leave =
    if ltb 0 h.running
    then record h { limiter = (release_slot h.limiter).0; running = h.running - 1 }
    else h

unfoldable pub take_turns : Hall → List Turn → Hall
take_turns h [] = h
take_turns h (t ∷ ts) = take_turns (take_turn h t) ts

abbrev pub empty_hall : ℕ → ℕ → Hall
empty_hall per_minute max_concurrent = record {
  limiter = new_limiter per_minute max_concurrent;
  counting = 0;
  running = 0;
}

-- Every slot is free or taken by one thread.
pub record Shared (slots : ℕ) (h : Hall) : Type 0 where
  pub size : h.limiter.max_concurrent ≡ slots
  pub split : h.limiter.free + h.counting + h.running ≡ slots

turn-Shared : (slots : ℕ) (h : Hall) (t : Turn) → Shared slots h → Shared slots (take_turn h t)
unfolding take_turn take_slot count_or_release count_request release_slot
turn-Shared slots h enter s = ground arith
turn-Shared slots h (count now) s = ground arith
turn-Shared slots h (follow now) s = ground arith
turn-Shared slots h leave s = ground arith

turns-Shared :
    (slots : ℕ) (h : Hall) (ts : List Turn) → Shared slots h → Shared slots (take_turns h ts)
unfolding take_turns
turns-Shared slots h [] s = s
turns-Shared slots h (t ∷ ts) s = turns-Shared slots (take_turn h t) ts (turn-Shared slots h t s)

empty-Shared : (per_minute slots : ℕ) → Shared slots (empty_hall per_minute slots)
unfolding new_limiter
empty-Shared per_minute slots = record { size = refl; split = omega arith }

-- After any interleaving, at most `max_concurrent` runs hold a permit, no slot is lost when the quota
-- refuses a request, and the release of a permit that is held never fails.
pub turns-bounded :
    (per_minute slots : ℕ) (ts : List Turn)
    → let h = take_turns (empty_hall per_minute slots) ts in
      (h.running ≤ slots)
      × (h.limiter.free + h.counting + h.running ≡ slots)
      × ((if ltb 0 h.running then (release_slot h.limiter).1 else ok tt) ≡ ok tt)
unfolding release_slot
turns-bounded per_minute slots ts =
    let s = turns-Shared slots (empty_hall per_minute slots) ts (empty-Shared per_minute slots) in
    (omega (arith, s.split), s.split, ground (arith, s.split, s.size))
