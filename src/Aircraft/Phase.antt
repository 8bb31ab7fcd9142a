-- ===== src/Aircraft/Phase.antt =====
-- cloud/dcs_copilot_cloud/state/phase_detector.py: the inference of the flight phase, with dwell times.
-- Speeds are in thousandths, times in milliseconds. The fields that the detector reads as numbers
-- hold numbers.
pub mod Dwell
pub mod Lost
use dcs_copilot.Prelude.{
  ℕ, ◌+◌, ◌*◌, String, Bool, true, false, ◌&&◌, ◌||◌, not, Option, none, some, List, [], ◌∷◌,
  str_eq, ltb, leb, ◌==◌, if◌then◌else◌,
}
use dcs_copilot.Prelude.Dict.{lookup}
use dcs_copilot.Prelude.Int.{ℤ, pos, ltb_ℤ, pos_part, neg_part}
use dcs_copilot.Aircraft.Value.{Value, nothing, flag, number, text, member, as_number, py_eq}
use dcs_copilot.Aircraft.State.{
  AircraftState, FlightPhase, usable, field_value, unknown, cold_dark, startup, taxi, takeoff,
  climb, cruise, refueling, approach, landing, post_landing, same_phase,
}
use dcs_copilot.Aircraft.History.{StateHistory, changed_within, rate}

pub record PhaseDetectorConfig : Type 0 where
  pub default_dwell_seconds : ℕ
  pub phase_dwell_seconds : List (FlightPhase × ℕ)
  pub taxi_min_speed : ℕ
  pub takeoff_roll_speed : ℕ
  pub airborne_min_speed : ℕ
  pub approach_max_speed : ℕ
  pub landing_max_speed : ℕ
  pub climb_rate_fpm : ℕ
  pub takeoff_airborne_hold_seconds : ℕ

abbrev pub default_config : PhaseDetectorConfig
default_config = record {
  default_dwell_seconds = 1500;
  phase_dwell_seconds = (refueling, 750) ∷ (landing, 750) ∷ (post_landing, 750) ∷ (unknown, 0) ∷ [];
  taxi_min_speed = 3000;
  takeoff_roll_speed = 80000;
  airborne_min_speed = 90000;
  approach_max_speed = 250000;
  landing_max_speed = 160000;
  climb_rate_fpm = 300;
  takeoff_airborne_hold_seconds = 20000;
}

pub record FlightPhaseDetector : Type 0 where
  pub config : PhaseDetectorConfig
  pub current : FlightPhase
  pub candidate : FlightPhase
  pub candidate_since : Option ℕ
  pub phase_since : Option ℕ

abbrev pub new_detector : PhaseDetectorConfig → FlightPhaseDetector
new_detector config = record {
  config = config;
  current = unknown;
  candidate = unknown;
  candidate_since = none;
  phase_since = none;
}

unfoldable pub reset : FlightPhaseDetector → FlightPhaseDetector
reset d = record d {
  current = unknown;
  candidate = unknown;
  candidate_since = none;
  phase_since = none;
}

-- `bool(value)`
unfoldable pub truthy : Value → Bool
truthy nothing = false
truthy (flag b) = b
truthy (number z) = not (pos_part z == neg_part z)
truthy (text s) = not (str_eq s "")
truthy (member s) = not (str_eq s "")

unfoldable pub field_usable : AircraftState → String → Bool
unfolding usable
field_usable s name = elim (lookup name s.telemetry) [ none ↦ false | some v ↦ usable v ]

-- A usable number, or `None`.
unfoldable pub measure : AircraftState → String → Option ℤ
unfolding field_value as_number
measure s name = as_number (field_value s name)

unfoldable pub at_least : Option ℤ → ℕ → Bool
at_least none bound = false
at_least (some z) bound = not (ltb_ℤ z (pos bound))

unfoldable pub at_most : Option ℤ → ℕ → Bool
at_most none bound = false
at_most (some z) bound = not (ltb_ℤ (pos bound) z)

-- A rate per minute of at least `bound`, of at most minus `bound`.
unfoldable pub climbs : Option (ℤ × ℕ) → ℕ → Bool
climbs none bound = false
climbs (some (z, elapsed)) bound = leb (60 * neg_part z + bound * elapsed) (60 * pos_part z)

unfoldable pub sinks : Option (ℤ × ℕ) → ℕ → Bool
sinks none bound = false
sinks (some (z, elapsed)) bound = leb (60 * pos_part z + bound * elapsed) (60 * neg_part z)

pub data EngineState : Type 0 where
  engines_unknown engines_off engines_starting engines_running : EngineState

unfoldable pub engine_state_of : Option ℤ → Option ℤ → EngineState
unfolding at_least at_most
engine_state_of (some left) (some right) =
    if at_most (some left) 5000 && at_most (some right) 5000
    then engines_off
    else if at_least (some left) 60000 && at_least (some right) 60000
    then engines_running
    else engines_starting
engine_state_of left right = engines_unknown

-- `_engine_state`
unfoldable pub engine_state : AircraftState → EngineState
unfolding engine_state_of measure
engine_state s = engine_state_of (measure s "engine_rpm_left") (measure s "engine_rpm_right")

unfoldable pub is_off : EngineState → Bool
is_off engines_off = true
is_off e = false

unfoldable pub is_running : EngineState → Bool
is_running engines_running = true
is_running e = false

unfoldable pub is_unknown : EngineState → Bool
is_unknown engines_unknown = true
is_unknown e = false

abbrev pub present {ℓ} : {A : Type ℓ} → Option A → Bool
present none = false
present (some a) = true

-- `_infer` with weight on the wheels.
unfoldable pub infer_ground :
    FlightPhaseDetector → StateHistory → ℕ → Option ℤ → Option ℤ → EngineState → FlightPhase
unfolding at_least changed_within is_off is_running is_unknown same_phase
infer_ground d history now airspeed ground_speed engines =
    if at_least airspeed d.config.takeoff_roll_speed && is_running engines
    then takeoff
    else if changed_within history "weight_on_wheels" (flag false) (flag true) 20000 now
    then post_landing
    else if same_phase d.current post_landing && not (is_off engines) && present ground_speed
    then post_landing
    else if at_least ground_speed d.config.taxi_min_speed && is_running engines
    then taxi
    else if is_off engines
    then cold_dark
    else if not (is_unknown engines)
        && present ground_speed
        && not (at_least ground_speed d.config.taxi_min_speed)
    then startup
    else unknown

unfoldable pub held : Option ℕ → ℕ → ℕ → Bool
held none now seconds = false
held (some since) now seconds = ltb now (since + seconds)

-- `_infer` in the air.
unfoldable pub infer_air :
    FlightPhaseDetector → AircraftState → StateHistory → ℕ → Option ℤ → FlightPhase
unfolding at_least at_most climbs sinks truthy field_value changed_within rate held same_phase py_eq
infer_air d state history now airspeed =
    let gear = field_value state "gear_position" in
    let altitude_rate = rate history "altitude_msl" 10000 now in
    if not (at_least airspeed d.config.airborne_min_speed)
    then unknown
    else if truthy (field_value state "refueling_probe")
        && climbs (rate history "fuel_quantity" 10000 now) 50
    then refueling
    else if changed_within history "weight_on_wheels" (flag true) (flag false)
        d.config.takeoff_airborne_hold_seconds now
    then takeoff
    else if same_phase d.current takeoff
        && held d.phase_since now d.config.takeoff_airborne_hold_seconds
    then takeoff
    else if py_eq gear (member "DOWN")
        && at_most airspeed d.config.landing_max_speed
        && sinks altitude_rate 100
    then landing
    else if (py_eq gear (member "DOWN") || py_eq gear (member "TRANSIT"))
        && at_most airspeed d.config.approach_max_speed
    then approach
    else if climbs altitude_rate d.config.climb_rate_fpm
    then climb
    else if py_eq gear (member "UP")
    then cruise
    else unknown

-- `_infer`
unfoldable pub infer : FlightPhaseDetector → AircraftState → StateHistory → ℕ → FlightPhase
unfolding field_usable truthy field_value measure engine_state infer_ground infer_air
infer d state history now =
    if not state.connected || not (field_usable state "weight_on_wheels")
    then unknown
    else if truthy (field_value state "weight_on_wheels")
    then infer_ground d history now (measure state "indicated_airspeed")
        (measure state "ground_speed") (engine_state state)
    else infer_air d state history now (measure state "indicated_airspeed")

-- `phase_dwell_seconds.get(phase, default)`
unfoldable pub dwell_of : List (FlightPhase × ℕ) → ℕ → FlightPhase → ℕ
unfolding same_phase
dwell_of [] default p = default
dwell_of ((q, n) ∷ rest) default p = if same_phase q p then n else dwell_of rest default p

unfoldable pub elapsed_dwell : Option ℕ → ℕ → ℕ → Bool
elapsed_dwell none now dwell = false
elapsed_dwell (some since) now dwell = leb (since + dwell) now

-- The new candidate, if another phase is inferred.
unfoldable pub note_phase : FlightPhaseDetector → FlightPhase → ℕ → FlightPhaseDetector
unfolding same_phase
note_phase d inferred now =
    if same_phase inferred d.candidate
    then d
    else record d { candidate = inferred; candidate_since = some now }

unfoldable pub adopt : FlightPhaseDetector → FlightPhase → ℕ → FlightPhaseDetector
unfolding dwell_of elapsed_dwell
adopt d inferred now =
    if elapsed_dwell d.candidate_since now
      (dwell_of d.config.phase_dwell_seconds d.config.default_dwell_seconds inferred)
    then record d { current = inferred; phase_since = some now; candidate_since = none }
    else d

-- `update` for the phase that is inferred.
unfoldable pub update_with : FlightPhaseDetector → FlightPhase → ℕ → FlightPhaseDetector
unfolding same_phase note_phase adopt
update_with d inferred now =
    if same_phase inferred d.current
    then record d { candidate = inferred; candidate_since = none }
    else adopt (note_phase d inferred now) inferred now

-- `update`; the phase it returns is the new current one.
unfoldable pub update :
    FlightPhaseDetector → AircraftState → StateHistory → ℕ → FlightPhaseDetector × FlightPhase
unfolding infer update_with
update d state history now = let e = update_with d (infer d state history now) now in (e, e.current)
