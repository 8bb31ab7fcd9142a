-- ===== src/Rules/Base.antt =====
-- cloud/dcs_copilot_cloud/rules/base.py: the contracts of rules and their transitions.
use dcs_copilot.Prelude.{ℕ, String, Bool, Option, List, [], ◌∷◌}
use dcs_copilot.Prelude.Dict.{Dict, lookup}
use dcs_copilot.Aircraft.Value.{Value, text}
use dcs_copilot.Aircraft.State.{AircraftState, FlightPhase, TelemetryValue}
use dcs_copilot.Aircraft.History.{StateHistory}

pub data Severity : Type 0 where
  info advisory warning critical : Severity

unfoldable pub severity_value : Severity → String
severity_value info = "INFO"
severity_value advisory = "ADVISORY"
severity_value warning = "WARNING"
severity_value critical = "CRITICAL"

pub data CopilotMode : Type 0 where
  minimal normal coach : CopilotMode

unfoldable pub mode_value : CopilotMode → String
mode_value minimal = "MINIMAL"
mode_value normal = "NORMAL"
mode_value coach = "COACH"

pub data RuleTransitionType : Type 0 where
  activated resolved disabled : RuleTransitionType

unfoldable pub transition_value : RuleTransitionType → String
transition_value activated = "ACTIVATED"
transition_value resolved = "RESOLVED"
transition_value disabled = "DISABLED"

pub record RuleResult : Type 0 where
  pub message : String
  pub explanation : String
  pub details : Dict Value

pub record RuleContext : Type 0 where
  pub state : AircraftState
  pub history : StateHistory
  pub now : ℕ
  pub active : Bool

unfoldable pub telemetry : RuleContext → String → Option TelemetryValue
telemetry c field_name = lookup field_name c.state.telemetry

-- `feasibility` and `false_positive_risk` are only shown: they are the texts of their members.
pub record Rule : Type 0 where
  pub id : String
  pub category : String
  pub minimum_mode : CopilotMode
  pub severity : Severity
  pub feasibility : String
  pub false_positive_risk : String
  pub description : String
  pub source_reference : String
  pub cooldown_seconds : ℕ
  pub required_fields : List String
  pub aircraft_names : Option (List String)
  pub flight_phases : Option (List FlightPhase)
  pub debounce_on_seconds : ℕ
  pub debounce_off_seconds : ℕ
  pub evaluate : RuleContext → Option RuleResult

unfoldable pub metadata : Rule → Dict Value
unfolding mode_value
metadata r =
    ("category", text r.category)
    ∷ ("minimum_mode", text (mode_value r.minimum_mode))
    ∷ ("feasibility", text r.feasibility)
    ∷ ("false_positive_risk", text r.false_positive_risk)
    ∷ ("description", text r.description)
    ∷ ("source_reference", text r.source_reference)
    ∷ []

pub record ActiveIssue : Type 0 where
  pub rule_id : String
  pub severity : Severity
  pub aircraft : String
  pub flight_phase : FlightPhase
  pub activated_at : ℕ
  pub observed_at : ℕ
  pub message : String
  pub explanation : String
  pub details : Dict Value

pub record RuleTransition : Type 0 where
  pub kind : RuleTransitionType
  pub issue : ActiveIssue
  pub timestamp : ℕ
  pub notification_eligible : Bool
