-- ===== src/Checklists/Items.antt =====
-- cloud/dcs_copilot_cloud/checklists/engine.py: how one item of a checklist is judged.
use dcs_copilot.Prelude.{
  ℕ, String, Bool, true, false, not, Option, none, some, List, [], ◌∷◌, str_eq, if◌then◌else◌,
  any_of,
}
use dcs_copilot.Prelude.Int.{ℤ, ltb_ℤ}
use dcs_copilot.Prelude.Dict.{Dict, lookup, insert}
use dcs_copilot.Aircraft.Value.{Value, flag, member, text, as_number, py_eq}
use dcs_copilot.Aircraft.State.{AircraftState, TelemetryValue, usable}
use dcs_copilot.Aircraft.History.{StateHistory, StateTransition, transitions_of}
use dcs_copilot.Rules.Base.{RuleContext}
use dcs_copilot.Rules.Condition.{Condition, fields, Expected, evaluate_condition}
use dcs_copilot.Checklists.{
  ChecklistItemStatus, status_complete, status_incomplete, status_unconfirmed,
  status_not_applicable, VerificationType, by_state, by_action, by_derived, by_manual,
  VerificationSource, telemetry, derived_telemetry, observed_action, pilot_confirmation,
  pilot_override, Expectation, ChecklistItem, ChecklistItemResult, Wanted, nothing_wanted,
  expectation, value_wanted, other_than, values_wanted, at_most, above, condition_true,
  pilot_wanted, explicit_pilot, observed_true, Actual, nothing_found, value_found, fields_found,
  confirmed, observed, Reason, inapplicable, no_condition, derived_satisfied, derived_unsatisfied,
  pilot_confirmed, needs_pilot, no_field, field_unavailable, field_stale, matches, differs,
  acceptable, unacceptable, accepted, not_accepted, within, above_limit, is_above, not_above,
  unsupported, no_action_field, not_observed, was_observed, pilot_overrides, pilot_confirms,
}

-- `_verification_source`
unfoldable pub source_of : VerificationType → VerificationSource
source_of by_state = telemetry
source_of by_derived = derived_telemetry
source_of by_action = observed_action
source_of by_manual = pilot_confirmation

-- `_result`
unfoldable pub item_result :
    ChecklistItem → ChecklistItemStatus → Wanted → Actual → Reason → Option ℕ → ChecklistItemResult
unfolding source_of
item_result item status wanted actual reason observed_at = record {
  id = item.id;
  label = item.label;
  status = status;
  expected = wanted;
  actual = actual;
  reason = reason;
  verification_type = item.verification;
  verification_source = source_of item.verification;
  observed_at = observed_at;
}

unfoldable pub is_manual : VerificationType → Bool
is_manual by_manual = true
is_manual v = false

-- `_pilot_confirmed_result`
unfoldable pub pilot_confirmed_result : ChecklistItem → ℕ → ChecklistItemResult
unfolding item_result is_manual
pilot_confirmed_result item confirmed_at =
    let base =
      item_result item status_complete explicit_pilot confirmed
        (if is_manual item.verification then pilot_confirms else pilot_overrides)
        (some confirmed_at) in
    record base {
      verification_source =
          if is_manual item.verification then pilot_confirmation else pilot_override;
    }

-- `_values_equal`
unfoldable pub checklist_values_equal : Value → Value → Bool
unfolding py_eq
checklist_values_equal (member a) (text b) = str_eq a b
checklist_values_equal actual expected = py_eq actual expected

unfoldable pub at_most_number : Option ℤ → ℤ → Bool
at_most_number none target = false
at_most_number (some z) target = not (ltb_ℤ target z)

unfoldable pub above_number : Option ℤ → ℤ → Bool
above_number none target = false
above_number (some z) target = ltb_ℤ target z

-- A status and a reason by a test.
unfoldable pub judged :
    ChecklistItem → Bool → Wanted → Actual → Reason → Reason → Option ℕ → ChecklistItemResult
unfolding item_result
judged item passed wanted actual good bad observed_at =
    item_result item (if passed then status_complete else status_incomplete) wanted actual
      (if passed then good else bad) observed_at

-- The tests of a present value, in their order: the first expectation that is there decides.
unfoldable pub judge_value :
    ChecklistItem → String → Expectation → Value → Option ℕ → ChecklistItemResult
unfolding checklist_values_equal judged at_most_number above_number as_number item_result
judge_value item field e actual at =
    let found = value_found actual in
    elim e.equals [
      | some v ↦
          judged item (checklist_values_equal actual v) (value_wanted v) found (matches field)
            (differs field) at
      | none ↦ elim e.not_equals [
        | some v ↦
            judged item (not (checklist_values_equal actual v)) (other_than v) found
              (acceptable field) (unacceptable field) at
        | none ↦ elim e.one_of [
          | some vs ↦
              judged item (any_of (checklist_values_equal actual) vs) (values_wanted vs) found
                (accepted field) (not_accepted field) at
          | none ↦ elim e.less_than_or_equal [
            | some z ↦
                judged item (at_most_number (as_number actual) z) (at_most z) found (within field)
                  (above_limit field) at
            | none ↦ elim e.greater_than [
              | some z ↦
                  judged item (above_number (as_number actual) z) (above z) found (is_above field)
                    (not_above field) at
              | none ↦
                  item_result item status_unconfirmed (expectation (some e)) found unsupported at
            ]
          ]
        ]
      ]
    ]

unfoldable pub judge_telemetry :
    ChecklistItem → String → Expectation → Option TelemetryValue → ChecklistItemResult
unfolding judge_value item_result usable
judge_telemetry item field e none =
    item_result item status_unconfirmed (expectation (some e)) nothing_found
      (field_unavailable field) none
judge_telemetry item field e (some t) =
    if not t.available
    then item_result item status_unconfirmed (expectation (some e)) nothing_found
        (field_unavailable field) none
    else if not (usable t)
    then item_result item status_unconfirmed (expectation (some e)) (value_found t.value)
        (field_stale field) t.updated_at
    else judge_value item field e t.value t.updated_at

unfoldable pub judge_field :
    ChecklistItem → Expectation → Option String → AircraftState → ChecklistItemResult
unfolding judge_telemetry item_result
judge_field item e none state =
    item_result item status_unconfirmed (expectation (some e)) nothing_found no_field none
judge_field item e (some field) state = judge_telemetry item field e (lookup field state.telemetry)

-- `_evaluate_state`; the field of an expectation is none where it is no text.
unfoldable pub evaluate_state :
    ChecklistItem → Option Expectation → AircraftState → ChecklistItemResult
unfolding judge_field item_result
evaluate_state item none state =
    item_result item status_unconfirmed (expectation none) nothing_found no_field none
evaluate_state item (some e) state = judge_field item e e.field state

unfoldable pub is_true : Value → Bool
is_true (flag b) = b
is_true v = false

-- The last transition to true.
unfoldable pub last_true : List StateTransition → Option StateTransition
unfolding is_true
last_true [] = none
last_true (t ∷ rest) = elim (last_true rest) [
  | some u ↦ some u
  | none ↦ if is_true t.new_value then some t else none
]

-- `_evaluate_action`
unfoldable pub evaluate_action : ChecklistItem → Option String → StateHistory → ChecklistItemResult
unfolding item_result last_true transitions_of
evaluate_action item none h =
    item_result item status_unconfirmed nothing_wanted nothing_found no_action_field none
evaluate_action item (some field) h =
    elim (last_true (transitions_of h (some field) (some (0, 0)))) [
      | none ↦
          item_result item status_unconfirmed (observed_true field) nothing_found not_observed none
      | some t ↦
          item_result item status_complete (observed_true field) observed was_observed
            (some t.timestamp)
    ]

unfoldable pub present_fields : AircraftState → List (String × Expected) → Dict Value
unfolding insert
present_fields state [] = []
present_fields state ((field, e) ∷ rest) =
    let later = present_fields state rest in
    elim (lookup field state.telemetry) [
      | none ↦ later
      | some t ↦ if t.available then insert field t.value later else later
    ]

-- `_condition_actual`: the operators of a condition name no telemetry.
unfoldable pub condition_actual : Condition → AircraftState → Dict Value
unfolding present_fields
condition_actual (fields ts) state = present_fields state ts
condition_actual c state = []

unfoldable pub evaluate_derived :
    ChecklistItem → Option Condition → RuleContext → ChecklistItemResult
unfolding item_result judged condition_actual evaluate_condition
evaluate_derived item none c =
    item_result item status_unconfirmed nothing_wanted nothing_found no_condition none
evaluate_derived item (some condition) c =
    judged item (evaluate_condition condition c) condition_true
      (fields_found (condition_actual condition c.state)) derived_satisfied derived_unsatisfied none

unfoldable pub evaluate_manual : ChecklistItem → Option ℕ → ChecklistItemResult
unfolding item_result
evaluate_manual item none =
    item_result item status_unconfirmed pilot_wanted nothing_found needs_pilot none
evaluate_manual item (some at) =
    item_result item status_complete pilot_wanted confirmed pilot_confirmed none

unfoldable pub applies : Option Condition → RuleContext → Bool
unfolding evaluate_condition
applies none c = true
applies (some condition) c = evaluate_condition condition c

-- `_evaluate_item`, with the items that the pilot has confirmed.
unfoldable pub evaluate_item :
    Dict ℕ → ChecklistItem → AircraftState → StateHistory → ℕ → ChecklistItemResult
unfolding item_result applies evaluate_state evaluate_derived evaluate_action evaluate_manual
evaluate_item pilot item state history now =
    let context : RuleContext = record {
      state = state;
      history = history;
      now = now;
      active = false;
    } in
    if not (applies item.applicable_if context)
    then item_result item status_not_applicable nothing_wanted nothing_found inapplicable none
    else elim item.verification [
      | by_state ↦ evaluate_state item item.expected state
      | by_derived ↦ evaluate_derived item item.condition context
      | by_action ↦ evaluate_action item item.action_field history
      | by_manual ↦ evaluate_manual item (lookup item.id pilot)
    ]
