-- ===== src/Habits.antt =====
-- cloud/dcs_copilot_cloud/habits: how often each habit rule fires during a flight.
-- A fresh `uuid4()` is an argument. The set of covered rules and the counter are lists without an
-- order that matters. What each callback receives is the summary that is returned.
pub mod Counts
pub mod Overflow
pub mod Finish
mod Examples
use dcs_copilot.Prelude.{
  ◌↔◌, Never, All-imp, All-select, select-All, >>=-some, Returns, Returns-bind, Returns-some, ◌>>=◌,
  >>=-assoc, ℕ, zero, suc, ◌+◌, ◌-◌, ◌*◌, ◌/◌, ◌%◌, ◌^◌, ◌≤◌, ◌<◌, String, ◌≡◌, refl, sym, ap,
  subst, ◌∙◌, ◌≢◌, ◌⊎◌, inl, inr, Bool, true, false, ◌&&◌, ◌||◌, not, Option, none, some, List, [],
  ◌∷◌, ◌++◌, map, arith, str_eq, eq_iff, ltb, leb, ◌==◌, if◌then◌else◌, ltb→lt, ltb→le, leb→le,
  ==→eq, tests, Bool-cases, Option-cases, length, length-append, get_or, take, drop, length-drop,
  all_of, any_of, select, All, All-append,
}
use Prim.Native.String.{count}
use dcs_copilot.Prelude.Dict.{Dict, lookup, insert}
use dcs_copilot.Aircraft.State.{AircraftState}
use dcs_copilot.Rules.Base.{RuleTransition, RuleTransitionType, activated, resolved, disabled}
use dcs_copilot.Rules.Engine.{RuleEngine, member_of, evaluable_rule_ids}

-- models.py

unfoldable pub habit_rule_ids : List String
habit_rule_ids =
    "FA18_MASTER_CAUTION" ∷ "FA18_GEAR_OVERSPEED" ∷ "FA18_CANOPY_OPEN_MOVING"
    ∷ "FA18_PARKING_BRAKE_TAXI" ∷ "FA18_TAXI_LIGHT_OFF" ∷ "FA18_EJECTION_SEAT_NOT_ARMED"
    ∷ "FA18_REFUELING_PROBE_LEFT_OUT" ∷ "CARRIER_FLAPS_NOT_HALF" ∷ "TAKEOFF_TRIM_NOT_CONFIRMED"
    ∷ "WINGS_NOT_SPREAD_FOR_LAUNCH" ∷ "SPEEDBRAKE_EXTENDED_FOR_LAUNCH"
    ∷ "EJECTION_SEAT_SAFE_FOR_LAUNCH" ∷ "OBOGS_OFF_FOR_TAKEOFF" ∷ "LAUNCH_BAR_DOWN_AIRBORNE"
    ∷ "FLAPS_NOT_AUTO_AFTER_TAKEOFF" ∷ "GEAR_STILL_DOWN_AFTER_TAKEOFF"
    ∷ "HOOK_DOWN_OUTSIDE_RECOVERY" ∷ "REFUEL_PROBE_LEFT_OUT" ∷ "MASTER_ARM_SAFE_IN_COMBAT_MODE"
    ∷ "GEAR_COMMANDED_DOWN_BUT_NOT_SAFE" ∷ "HOOK_COMMANDED_DOWN_BUT_NOT_EXTENDED"
    ∷ "CARRIER_HOOK_NOT_DOWN" ∷ "FLAPS_NOT_FULL_ON_CARRIER_RECOVERY" ∷ []

abbrev pub max_summary_rules : ℕ
max_summary_rules = 32

abbrev pub max_rule_activations : ℕ
max_rule_activations = 100

pub record FlightSummary : Type 0 where
  pub summary_id : String
  pub aircraft : String
  pub rule_activations : Dict ℕ

pub record FlightStatsManager : Type 0 where
  pub rule_engine : RuleEngine
  pub aircraft : Option String
  pub covered : List String
  pub activations : Dict ℕ
  pub pending_limit : ℕ
  pub pending : List FlightSummary

unfoldable pub is_activated : RuleTransitionType → Bool
is_activated activated = true
is_activated resolved = false
is_activated disabled = false

abbrev pub same_name : Option String → Option String → Bool
same_name none none = true
same_name (some a) (some b) = str_eq a b
same_name a b = false

-- A missing key of a `Counter` counts 0.
unfoldable pub count_of : Dict ℕ → String → ℕ
unfolding lookup
count_of c id = elim (lookup id c) [ none ↦ 0 | some n ↦ n ]

-- `covered.update(ids)`
unfoldable pub add_new : List String → List String → List String
unfolding member_of
add_new ids [] = ids
add_new ids (x ∷ xs) = add_new (if member_of x ids then ids else x ∷ ids) xs

-- `deque(maxlen=limit).append(x)`
unfoldable pub push_pending : ℕ → List FlightSummary → FlightSummary → List FlightSummary
push_pending limit xs x = let ys = xs ++ x ∷ [] in drop (length ys - limit) ys

unfoldable pub counts_of : Dict ℕ → List String → Dict ℕ
unfolding count_of
counts_of c [] = []
counts_of c (id ∷ ids) = (id, count_of c id) ∷ counts_of c ids

unfoldable pub removed : String → List FlightSummary → List FlightSummary
removed id [] = []
removed id (s ∷ rest) =
    let later = removed id rest in if str_eq s.summary_id id then rest else s ∷ later

unfoldable pub bears : String → FlightSummary → Bool
bears id s = str_eq s.summary_id id

-- `acknowledge`
unfoldable pub acknowledge : FlightStatsManager → String → FlightStatsManager × Bool
unfolding removed bears
acknowledge m id =
    if any_of (bears id) m.pending
    then (record m { pending = removed id m.pending }, true)
    else (m, false)

-- `_on_transition`
unfoldable pub on_transition : FlightStatsManager → RuleTransition → FlightStatsManager
unfolding is_activated member_of count_of insert
on_transition m t =
    let id = t.issue.rule_id in
    if not (same_name m.aircraft none) && is_activated t.kind && member_of id m.covered
    then record m { activations = insert id (count_of m.activations id + 1) m.activations }
    else m

-- The constructor; `none` is its `ValueError`.
unfoldable pub new_stats : RuleEngine → ℕ → Option FlightStatsManager
unfolding member_of habit_rule_ids
new_stats engine pending_limit =
    if (pending_limit == 0) || not (all_of (λ r. member_of r.id habit_rule_ids) engine.rules)
    then none
    else some (record {
      rule_engine = engine;
      aircraft = none;
      covered = [];
      activations = [];
      pending_limit = pending_limit;
      pending = [];
    })

-- `uuid` tells whether `UUID(…)` reads the text, `stripped` is `str.strip`.
module _ (uuid : String → Bool) (stripped : String → String) where
  -- The constructor of `FlightSummary`; `none` is its `ValueError`.
  unfoldable pub new_summary : String → String → Dict ℕ → Option FlightSummary
  unfolding member_of habit_rule_ids
  new_summary summary_id aircraft rule_activations =
      if not (uuid summary_id)
      then none
      else if str_eq (stripped aircraft) "" || ltb 64 (count aircraft)
      then none
      else if ltb max_summary_rules (length rule_activations)
      then none
      else if not (all_of (λ (e : String × ℕ). member_of e.0 habit_rule_ids) rule_activations)
      then none
      else if not (all_of (λ (e : String × ℕ). leb e.1 max_rule_activations) rule_activations)
      then none
      else some (record {
        summary_id = summary_id;
        aircraft = aircraft;
        rule_activations = rule_activations;
      })

  -- The end of `finish`; `none` is the exception of the summary's constructor.
  unfoldable pub finished :
      FlightStatsManager → Option FlightSummary → Option (Option FlightSummary) × FlightStatsManager
  unfolding push_pending
  finished m none = (none, m)
  finished m (some summary) = (
    some (some summary),
    record m {
      aircraft = none;
      covered = [];
      activations = [];
      pending = push_pending m.pending_limit m.pending summary;
    },
  )

  unfoldable pub finish_flight :
      FlightStatsManager
      → String
      → Option String
      → Option (Option FlightSummary) × FlightStatsManager
  unfolding new_summary finished counts_of
  finish_flight m fresh none = (some none, m)
  finish_flight m fresh (some aircraft) =
      finished m (new_summary fresh aircraft (counts_of m.activations m.covered))

  -- `finish`: `none` is an exception, which leaves the manager as it was.
  unfoldable pub finish :
      FlightStatsManager → String → Option (Option FlightSummary) × FlightStatsManager
  unfolding finish_flight
  finish m fresh = finish_flight m fresh m.aircraft

  unfoldable pub cover : AircraftState → Option String → FlightStatsManager → FlightStatsManager
  unfolding add_new evaluable_rule_ids
  cover state none m = m
  cover state (some aircraft) m = record m {
    covered = add_new m.covered (evaluable_rule_ids m.rule_engine state);
  }

  unfoldable pub observed :
      AircraftState
      → Option String
      → Option (Option FlightSummary) × FlightStatsManager
      → Option (Option FlightSummary) × FlightStatsManager
  unfolding cover
  observed state aircraft (none, m) = (none, m)
  observed state aircraft (some completed, m) =
      (some completed, cover state aircraft (record m { aircraft = aircraft }))

  -- `observe`
  unfoldable pub observe :
      FlightStatsManager
      → AircraftState
      → String
      → Option (Option FlightSummary) × FlightStatsManager
  unfolding finish observed
  observe m state fresh =
      let aircraft = if state.connected then state.aircraft else none in
      if same_name aircraft m.aircraft
      then (some none, cover state aircraft m)
      else observed state aircraft (finish m fresh)
