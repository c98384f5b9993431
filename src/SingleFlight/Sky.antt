-- ===== src/SingleFlight/Sky.antt =====
-- src/specflow/single_flight.py: the events of many threads, and the invariant of the flights.
use specflow_agent.Prelude.{
  ℕ, ◌<◌, ◌≡◌, String, string_eq, Bool, true, false, Option, none, some, List, [], ◌∷◌, ◌==◌,
  nat_eq, not, ◌&&◌, ◌||◌, if◌then◌else◌, count_if, All,
}
use specflow_agent.Prelude.Dict.{get, has}
use specflow_agent.Prelude.Picks.{pick}
use specflow_agent.SingleFlight.RunResult.{RunResult}
use specflow_agent.SingleFlight.Flights.{
  Coordinator, new_coordinator, Flight, claim, complete, Ending, leave,
}

-- The coordinator and the flights whose blocks are running.
pub record Sky : Type 0 where
  pub coordinator : Coordinator
  pub live : List Flight

-- A claim, a result that the n-th flight completes with, and the end of its block.
pub data Event : Type 0 where
  arrive : String → String → (Bool → Bool) → Event
  deliver : ℕ → RunResult → Event
  depart : ℕ → Ending → Event

abbrev pub arrived : Sky → Coordinator × Option Flight → Sky
arrived sky (c, none) = record { coordinator = c; live = sky.live }
arrived sky (c, some f) = record { coordinator = c; live = f ∷ sky.live }

abbrev pub delivered : Sky → RunResult → Option (Flight × List Flight) → Sky
delivered sky r none = sky
delivered sky r (some (f, rest)) = record sky { coordinator = (complete f r sky.coordinator).0 }

abbrev pub departed : Sky → Ending → Option (Flight × List Flight) → Sky
departed sky ending none = sky
departed sky ending (some (f, rest)) = record {
  coordinator = leave f ending sky.coordinator;
  live = rest;
}

unfoldable pub fly : Sky → Event → Sky
fly sky (arrive key run_id admit) = arrived sky (claim key run_id admit sky.coordinator)
fly sky (deliver n r) = delivered sky r (pick n sky.live)
fly sky (depart n ending) = departed sky ending (pick n sky.live)

unfoldable pub fly_all : Sky → List Event → Sky
fly_all sky [] = sky
fly_all sky (e ∷ es) = fly_all (fly sky e) es

abbrev pub clear_sky : Sky
clear_sky = record { coordinator = new_coordinator; live = [] }

abbrev pub owns : String → Flight → Bool
owns k f = f.owner && f.key == k

abbrev pub points_to : Option ℕ → ℕ → Bool
points_to none i = false
points_to (some j) i = j == i

-- The entry of a flight is the one that its key looks up.
abbrev pub stands : Coordinator → Flight → Bool
stands c f = points_to (get c.entries f.key) f.place

-- A key has one live owner when it has an entry and none else; an owner's entry is resident; and the
-- entry of any live flight is resident or finished, never both.
pub record Owned (c : Coordinator) (live : List Flight) : Type 0 where
  pub owners : (k : String) → count_if (owns k) live ≡ (if has c.entries k then 1 else 0)
  pub resident : All (λ f. (f.owner && not (stands c f)) ≡ false) live
  pub finished : All (λ f. (stands c f || (c.cell f.place).done) ≡ true) live
  pub unfinished : (k : String) (i : ℕ) → get c.entries k ≡ some i → (c.cell i).done ≡ false
  pub stored : (k : String) (i : ℕ) → get c.entries k ≡ some i → i < c.next
  pub below : All (λ f. f.place < c.next) live
  pub apart : (j k : String) (i : ℕ) → get c.entries j ≡ some i → get c.entries k ≡ some i → j ≡ k
