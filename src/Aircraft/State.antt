-- ===== src/Aircraft/State.antt =====
-- cloud/dcs_copilot_cloud/state/models.py: telemetry values and the aircraft state.
-- The named fields of `AircraftState` and its warning lights are the entries of `telemetry()`.
-- A time is a number of milliseconds.
use dcs_copilot.Prelude.{
  ℕ, String, Bool, false, ◌&&◌, not, Option, none, some, str_eq, if◌then◌else◌,
}
use dcs_copilot.Prelude.Dict.{Dict, lookup}
use dcs_copilot.Aircraft.Value.{Value, nothing, is_nothing}

pub data FlightPhase : Type 0 where
  unknown cold_dark startup taxi takeoff climb cruise combat refueling approach landing
        post_landing :
      FlightPhase

-- The text of a member.
unfoldable pub phase_value : FlightPhase → String
phase_value unknown = "UNKNOWN"
phase_value cold_dark = "COLD_DARK"
phase_value startup = "STARTUP"
phase_value taxi = "TAXI"
phase_value takeoff = "TAKEOFF"
phase_value climb = "CLIMB"
phase_value cruise = "CRUISE"
phase_value combat = "COMBAT"
phase_value refueling = "REFUELING"
phase_value approach = "APPROACH"
phase_value landing = "LANDING"
phase_value post_landing = "POST_LANDING"

unfoldable pub same_phase : FlightPhase → FlightPhase → Bool
unfolding phase_value
same_phase p q = str_eq (phase_value p) (phase_value q)

pub data TelemetryStatus : Type 0 where
  status_available status_stale status_unavailable : TelemetryStatus

pub record TelemetryValue : Type 0 where
  pub value : Value
  pub available : Bool
  pub updated_at : Option ℕ
  pub source : Option String
  pub stale : Bool

abbrev pub unavailable : Option String → TelemetryValue
unavailable source = record {
  value = nothing;
  available = false;
  updated_at = none;
  source = source;
  stale = false;
}

unfoldable pub status : TelemetryValue → TelemetryStatus
status v =
    if not v.available
    then status_unavailable
    else if v.stale
    then status_stale
    else status_available

unfoldable pub usable : TelemetryValue → Bool
usable v = v.available && not v.stale && not (is_nothing v.value)

pub record AircraftState : Type 0 where
  pub aircraft : Option String
  pub connected : Bool
  pub flight_phase : FlightPhase
  pub telemetry : Dict TelemetryValue

-- `telemetry.value if telemetry.usable else None`
unfoldable pub current_value : TelemetryValue → Value
unfolding usable
current_value v = if usable v then v.value else nothing

-- `_field_value` of rules/declarative.py
unfoldable pub field_value : AircraftState → String → Value
unfolding current_value
field_value s name = elim (lookup name s.telemetry) [ none ↦ nothing | some v ↦ current_value v ]
