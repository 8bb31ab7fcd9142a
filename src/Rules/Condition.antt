-- ===== src/Rules/Condition.antt =====
-- cloud/dcs_copilot_cloud/rules/declarative.py: rules written as data, and their conditions.
-- A condition has one operator, or tests of fields. A set of fields is a list.
pub mod Fields
use dcs_copilot.Prelude.{
  ◌↔◌, Never, All-imp, All-select, select-All, >>=-some, Returns, Returns-bind, Returns-some, ◌>>=◌,
  >>=-assoc, ℕ, zero, suc, ◌+◌, ◌-◌, ◌*◌, ◌/◌, ◌%◌, ◌^◌, ◌≤◌, ◌<◌, String, ◌≡◌, refl, sym, ap,
  subst, ◌∙◌, ◌≢◌, ◌⊎◌, inl, inr, Bool, true, false, ◌&&◌, ◌||◌, not, Option, none, some, List, [],
  ◌∷◌, ◌++◌, map, arith, str_eq, eq_iff, ltb, leb, ◌==◌, if◌then◌else◌, ltb→lt, ltb→le, leb→le,
  ==→eq, tests, Bool-cases, Option-cases, length, length-append, get_or, take, drop, length-drop,
  all_of, any_of, select, All, All-append,
}
use dcs_copilot.Prelude.Dict.{Dict, insert}
use dcs_copilot.Prelude.Int.{ℤ, ltb_ℤ}
use dcs_copilot.Aircraft.Value.{Value, flag, text, member, is_nothing, as_number, py_eq}
use dcs_copilot.Aircraft.State.{
  AircraftState, FlightPhase, field_value, usable, unknown, cold_dark, startup, taxi, takeoff,
  climb, cruise, combat, refueling, approach, landing, post_landing, phase_value, TelemetryValue,
}
use dcs_copilot.Aircraft.History.{StateTransition, transitions_of, changed_within}
use dcs_copilot.Rules.Base.{Severity, CopilotMode, Rule, RuleContext, RuleResult, telemetry}

-- What a field is tested for: a plain value, or bounds that may be left out.
pub data Expected : Type 0 where
  plain : Value → Expected
  compared : Option Value → Option Value → Option ℤ → Option ℤ → Expected

mutual
  pub data Condition : Type 0 where
    all_conditions : Conditions → Condition
    any_condition : Conditions → Condition
    negated : Condition → Condition
    available : String → Condition
    changed_to : String → Value → Value → ℕ → Condition
    changed_from : String → Value → ℕ → Condition
    duration : ℕ → Condition → Condition
    fields : List (String × Expected) → Condition

  pub data Conditions : Type 0 where
    nil : Conditions
    cons : Condition → Conditions → Conditions

abbrev pub phases : List FlightPhase
phases =
    unknown ∷ cold_dark ∷ startup ∷ taxi ∷ takeoff ∷ climb ∷ cruise ∷ combat ∷ refueling ∷ approach
    ∷ landing ∷ post_landing ∷ []

-- `_coerce_expected`: a text that is a phase's becomes the phase.
unfoldable pub coerce_expected : Value → Value
unfolding phase_value
coerce_expected (text s) =
    if any_of (λ p. str_eq (phase_value p) s) phases then member s else text s
coerce_expected v = v

-- `_values_equal`
unfoldable pub values_equal : Value → Value → Bool
unfolding coerce_expected py_eq
values_equal (member a) (text b) = str_eq a b
values_equal (member a) (member b) = str_eq a b
values_equal actual expected = py_eq actual (coerce_expected expected)

unfoldable pub exceeds : Value → Option ℤ → Bool
unfolding as_number
exceeds v none = true
exceeds v (some bound) = elim (as_number v) [ none ↦ false | some z ↦ ltb_ℤ bound z ]

unfoldable pub falls_below : Value → Option ℤ → Bool
unfolding as_number
falls_below v none = true
falls_below v (some bound) = elim (as_number v) [ none ↦ false | some z ↦ ltb_ℤ z bound ]

unfoldable pub equals_option : Value → Option Value → Bool
unfolding values_equal
equals_option v none = true
equals_option v (some w) = values_equal v w

unfoldable pub differs_option : Value → Option Value → Bool
unfolding values_equal
differs_option v none = true
differs_option v (some w) = not (values_equal v w)

-- The tests of one field whose value is present.
unfoldable pub meets : Value → Expected → Bool
unfolding values_equal exceeds falls_below equals_option differs_option
meets v (plain w) = values_equal v w
meets v (compared equals not_equals greater_than less_than) =
    equals_option v equals
    && differs_option v not_equals
    && exceeds v greater_than
    && falls_below v less_than

unfoldable pub meets_fields : AircraftState → List (String × Expected) → Bool
unfolding field_value meets
meets_fields state [] = true
meets_fields state ((field, expected) ∷ rest) =
    let value = field_value state field in
    if is_nothing value then false else meets value expected && meets_fields state rest

unfoldable pub is_usable : Option TelemetryValue → Bool
unfolding usable
is_usable none = false
is_usable (some v) = usable v

-- `_condition_fields`
unfoldable mutual
  pub condition_fields : Condition → List String
  condition_fields (all_conditions cs) = conditions_fields cs
  condition_fields (any_condition cs) = conditions_fields cs
  condition_fields (negated c) = condition_fields c
  condition_fields (available field) = field ∷ []
  condition_fields (changed_to field old new seconds) = field ∷ []
  condition_fields (changed_from field old seconds) = field ∷ []
  condition_fields (duration seconds c) = []
  condition_fields (fields ts) = map (λ t. t.0) ts

  pub conditions_fields : Conditions → List String
  conditions_fields nil = []
  conditions_fields (cons c cs) = condition_fields c ++ conditions_fields cs

unfoldable pub holds_name : List String → String → Bool
holds_name names x = any_of (λ y. str_eq y x) names

-- `evaluate_condition`
unfoldable mutual
  unfolding telemetry is_usable changed_within coerce_expected transitions_of condition_fields
      holds_name meets_fields

  pub evaluate_condition : Condition → RuleContext → Bool
  evaluate_condition (all_conditions cs) c = evaluate_all cs c
  evaluate_condition (any_condition cs) c = evaluate_any cs c
  evaluate_condition (negated inner) c = not (evaluate_condition inner c)
  evaluate_condition (available field) c = is_usable (telemetry c field)
  evaluate_condition (changed_to field old new seconds) c =
      changed_within c.history field old (coerce_expected new) seconds c.now
  evaluate_condition (changed_from field old seconds) c =
      any_of (λ (t : StateTransition). py_eq t.old_value (coerce_expected old))
        (transitions_of c.history (some field) (some (c.now, seconds)))
  evaluate_condition (duration seconds inner) c =
      evaluate_condition inner c
      && not (
          any_of (λ (t : StateTransition). holds_name (condition_fields inner) t.field)
            (transitions_of c.history none (some (c.now, seconds))))
  evaluate_condition (fields ts) c = meets_fields c.state ts

  pub evaluate_all : Conditions → RuleContext → Bool
  evaluate_all nil c = true
  evaluate_all (cons inner rest) c = evaluate_condition inner c && evaluate_all rest c

  pub evaluate_any : Conditions → RuleContext → Bool
  evaluate_any nil c = false
  evaluate_any (cons inner rest) c = evaluate_condition inner c || evaluate_any rest c

pub record RuleDefinition : Type 0 where
  pub id : String
  pub aircraft : String
  pub severity : Severity
  pub required_fields : List String
  pub condition : Condition
  pub message : String
  pub category : String
  pub minimum_mode : CopilotMode
  pub feasibility : String
  pub false_positive_risk : String
  pub description : String
  pub source_reference : String
  pub explanation : Option String
  pub phases : Option (List FlightPhase)
  pub activation_delay : ℕ
  pub resolution_delay : ℕ
  pub cooldown : ℕ
  pub proactive : Bool
  pub data_fields : List String

-- `_json_value`: the text of a member.
unfoldable pub json_value : Value → Value
json_value (member s) = text s
json_value v = v

-- `a or b` on texts.
unfoldable pub or_text : Option String → String → String
or_text none s = s
or_text (some t) s = if str_eq t "" then s else t

unfoldable pub result_data : AircraftState → List String → Dict Value
unfolding field_value json_value insert
result_data state [] = []
result_data state (field ∷ rest) =
    let value = field_value state field in
    let later = result_data state rest in
    if is_nothing value then later else insert field (json_value value) later

-- `DeclarativeRule.evaluate`
unfoldable pub evaluate_definition : RuleDefinition → RuleContext → Option RuleResult
unfolding evaluate_condition or_text result_data insert
evaluate_definition d c =
    if evaluate_condition d.condition c
    then some (record {
      message = d.message;
      explanation = or_text d.explanation d.message;
      details = insert "proactive" (flag d.proactive) (result_data c.state d.data_fields);
    })
    else none

-- The constructor of `DeclarativeRule`.
unfoldable pub declarative_rule : RuleDefinition → Rule
unfolding or_text evaluate_definition
declarative_rule d = record {
  id = d.id;
  category = d.category;
  minimum_mode = d.minimum_mode;
  severity = d.severity;
  feasibility = d.feasibility;
  false_positive_risk = d.false_positive_risk;
  description = or_text (some d.description) (or_text d.explanation d.message);
  source_reference = d.source_reference;
  cooldown_seconds = d.cooldown;
  required_fields = d.required_fields;
  aircraft_names = some (d.aircraft ∷ []);
  flight_phases = d.phases;
  debounce_on_seconds = d.activation_delay;
  debounce_off_seconds = d.resolution_delay;
  evaluate = evaluate_definition d;
}
