-- ===== src/Rules/Examples.antt =====
-- The rule engine on concrete rules and states.
use dcs_copilot.Prelude.{
  ◌↔◌, Never, All-imp, All-select, select-All, >>=-some, Returns, Returns-bind, Returns-some, ◌>>=◌,
  >>=-assoc, ℕ, zero, suc, ◌+◌, ◌-◌, ◌*◌, ◌/◌, ◌%◌, ◌^◌, ◌≤◌, ◌<◌, String, ◌≡◌, refl, sym, ap,
  subst, ◌∙◌, ◌≢◌, ◌⊎◌, inl, inr, Bool, true, false, ◌&&◌, ◌||◌, not, Option, none, some, List, [],
  ◌∷◌, ◌++◌, map, arith, str_eq, eq_iff, ltb, leb, ◌==◌, if◌then◌else◌, ltb→lt, ltb→le, leb→le,
  ==→eq, tests, Bool-cases, Option-cases, length, length-append, get_or, take, drop, length-drop,
  all_of, any_of, select, All, All-append,
}
use dcs_copilot.Aircraft.Value.{Value, flag, text}
use dcs_copilot.Aircraft.State.{field_value, AircraftState, TelemetryValue, unknown}
use dcs_copilot.Aircraft.History.{StateHistory, new_history}
use dcs_copilot.Rules.Base.{
  Rule, RuleContext, RuleResult, ActiveIssue, RuleTransition, activated, warning, normal, disabled,
}
use dcs_copilot.Rules.Engine.{
  RuleEngine, RuleRuntime, fresh, new_engine, fresh_runtime, unique_ids, step, evaluate, reset,
  active_issues, issues_of, is_some, new_issue,
}
use dcs_copilot.Rules.Condition.{
  RuleDefinition, all_conditions, cons, nil, fields, plain, negated, available, evaluate_definition,
  condition_fields,
}
use dcs_copilot.Rules.Condition.Fields.{Agree, evaluate_definition-Agree}
use dcs_copilot.Prelude.Dict.{lookup}
use dcs_copilot.Rules.Engine.Lifecycle.{Consistent, Fine, step-Fine, fresh-Consistent}
use dcs_copilot.Rules.Engine.Evaluate.{
  some_eq, IsValid, evaluate-IsValid, Follows, of_rule, is_active,
}
use mathlib.Core.List.{foldl, Perm}
use dcs_copilot.Rules.Engine.Construct.{
  new_engine-IsValid, fresh_runtime-IsValid, DistinctIds, Built,
}
use dcs_copilot.Rules.Engine.Debounce.{
  Runs, start, next, Trace, observe, debounced, Spaced, step-debounced, Runs-Spaced,
}
use dcs_copilot.Rules.Engine.Reset.{
  reset-new_engine, reset_lem, all_fresh, ended, active_issues_lem, Ranked,
}

abbrev result : RuleResult
result = record { message = "Master caution"; explanation = "The light is on"; details = [] }

abbrev caution : Rule
caution = record {
  id = "FA18_MASTER_CAUTION";
  category = "configuration";
  minimum_mode = normal;
  severity = warning;
  feasibility = "A";
  false_positive_risk = "LOW";
  description = "";
  source_reference = "";
  cooldown_seconds = 30000;
  required_fields = [];
  aircraft_names = none;
  flight_phases = none;
  debounce_on_seconds = 1000;
  debounce_off_seconds = 0;
  evaluate = λ c. some result;
}

abbrev engine : RuleEngine
engine = record { rules = caution ∷ []; runtime = fresh_runtime (caution ∷ []) }

abbrev state : AircraftState
state = record {
  aircraft = some "FA-18C_hornet";
  connected = true;
  flight_phase = unknown;
  telemetry = [];
}

abbrev history : StateHistory
history = new_history 60000 []

new_engine-IsValid_example :
    (DistinctIds (caution ∷ []) × Built (caution ∷ []))
    ⊎ ((¬ DistinctIds (caution ∷ [])) × (new_engine (caution ∷ []) ≡ none))
new_engine-IsValid_example = new_engine-IsValid (caution ∷ [])

repeated : new_engine (caution ∷ caution ∷ []) ≡ none
unfolding new_engine
repeated = refl

abbrev emit : List RuleTransition → RuleTransition → List RuleTransition
emit l t = t ∷ l

engine-IsValid : IsValid engine
engine-IsValid = fresh_runtime-IsValid (caution ∷ [])

evaluate-IsValid_example :
    Returns
      (λ ((e', l', ts) : RuleEngine × List RuleTransition × List RuleTransition).
        IsValid e'
        × ((id : String)
            → Follows (is_active id engine.runtime) (of_rule id ts) (is_active id e'.runtime))
        × (l' ≡ foldl emit [] ts))
      (evaluate emit engine [] state history 5000)
evaluate-IsValid_example = evaluate-IsValid emit engine [] state history 5000 engine-IsValid

step-Fine_example :
    Returns (Fine "FA18_MASTER_CAUTION" fresh) (step caution fresh state history 5000)
step-Fine_example =
    step-Fine caution fresh state history 5000 (fresh-Consistent "FA18_MASTER_CAUTION")

abbrev pending : RuleRuntime
pending = record fresh {
  candidate_active = some true;
  candidate_since = some 5000;
  candidate_result = some result;
}

abbrev issue : ActiveIssue
issue = new_issue caution "FA-18C_hornet" state result 6000

abbrev raised : RuleRuntime
raised = record fresh { issue = some issue; last_notification_at = some 6000 }

abbrev raising : RuleTransition
raising = record { kind = activated; issue = issue; timestamp = 6000; notification_eligible = true }

first_step : step caution fresh state history 5000 ≡ some (pending, none)
unfolding step
first_step = refl

second_step : step caution pending state history 6000 ≡ some (raised, some raising)
unfolding step
second_step = refl

abbrev trace : Trace
trace = (observe caution fresh state history 5000, 5000) ∷ []

waiting : Runs caution trace [] pending
waiting = next state history 5000 pending none start first_step

step-debounced_example :
    is_some raised.issue
    ≡ debounced caution
        (is_some pending.issue)
        (observe caution pending state history 6000)
        trace
        6000
step-debounced_example =
    step-debounced caution trace [] pending state history 6000 raised (some raising) waiting
      second_step

-- The aircraft is left, and boarded again when the rule may notify again.
abbrev away : AircraftState
away = record state { connected = false }

abbrev rested : RuleRuntime
rested = record raised { issue = none }

abbrev ending : RuleTransition
ending = record {
  kind = disabled;
  issue = record issue { observed_at = 7000 };
  timestamp = 7000;
  notification_eligible = false;
}

abbrev pending_again : RuleRuntime
pending_again = record rested {
  candidate_active = some true;
  candidate_since = some 39000;
  candidate_result = some result;
}

abbrev second_issue : ActiveIssue
second_issue = new_issue caution "FA-18C_hornet" state result 40000

abbrev raised_again : RuleRuntime
raised_again = record fresh { issue = some second_issue; last_notification_at = some 40000 }

abbrev raising_again : RuleTransition
raising_again = record {
  kind = activated;
  issue = second_issue;
  timestamp = 40000;
  notification_eligible = true;
}

left_step : step caution raised away history 7000 ≡ some (rested, some ending)
unfolding step
left_step = refl

third_step : step caution rested state history 39000 ≡ some (pending_again, none)
unfolding step
third_step = refl

fourth_step :
    step caution pending_again state history 40000 ≡ some (raised_again, some raising_again)
unfolding step
fourth_step = refl

abbrev long_trace : Trace
long_trace =
    (observe caution pending_again state history 40000, 40000)
    ∷ (observe caution rested state history 39000, 39000)
    ∷ (observe caution raised away history 7000, 7000)
    ∷ (observe caution pending state history 6000, 6000)
    ∷ trace

twice_raised : Runs caution long_trace (40000 ∷ 6000 ∷ []) raised_again
twice_raised =
    next state history 40000 raised_again (some raising_again)
      (next state history 39000 pending_again none
        (next away history 7000 rested (some ending)
          (next state history 6000 raised (some raising) waiting second_step) left_step)
        third_step)
      fourth_step

Runs-Spaced_example : Spaced 30000 (40000 ∷ 6000 ∷ [])
Runs-Spaced_example = Runs-Spaced caution long_trace (40000 ∷ 6000 ∷ []) raised_again twice_raised

abbrev later_engine : RuleEngine
later_engine = record { rules = caution ∷ []; runtime = ("FA18_MASTER_CAUTION", raised) ∷ [] }

raised-Consistent : Consistent "FA18_MASTER_CAUTION" raised
unfolding new_issue
raised-Consistent = record { pending = refl; owned = refl }

later_engine-IsValid : IsValid later_engine
unfolding lookup
later_engine-IsValid = record {
  shape = refl;
  known = (refl, tt);
  consistent = λ id rt h. elim (Bool-cases (str_eq "FA18_MASTER_CAUTION" id)) [
    | inl y ↦
        subst (λ x. Consistent x rt) ((eq_iff "FA18_MASTER_CAUTION" id).0 y)
          (subst (Consistent "FA18_MASTER_CAUTION") (some_eq (rw y at h)) raised-Consistent)
    | inr z ↦ absurd (cc (rw z at h))
  ];
}

reset-new_engine_example :
    some (reset emit later_engine [] 9000 true).0 ≡ new_engine later_engine.rules
unfolding unique_ids
reset-new_engine_example = reset-new_engine emit later_engine [] 9000 true later_engine-IsValid refl

active_issues_lem_example :
    Perm (active_issues later_engine) (issues_of later_engine.runtime)
    × Ranked (active_issues later_engine)
active_issues_lem_example = active_issues_lem later_engine

reset_lem_example :
    let (e', l', ts) = reset emit later_engine [] 9000 true in
    (e' ≡ record later_engine { runtime = all_fresh later_engine.runtime })
    × (ts ≡ map (ended 9000) (issues_of later_engine.runtime))
    × (l' ≡ (if true then foldl emit [] ts else []))
reset_lem_example = reset_lem emit later_engine [] 9000 true

-- The hook is up and the probe is not reported.
abbrev definition : RuleDefinition
definition = record {
  id = "HOOK_UP";
  aircraft = "FA-18C_hornet";
  severity = warning;
  required_fields = [];
  condition = all_conditions (
      cons (fields (("hook_down", plain (flag false)) ∷ []))
        (cons (negated (available "refueling_probe")) nil));
  message = "Hook";
  category = "configuration";
  minimum_mode = normal;
  feasibility = "A";
  false_positive_risk = "LOW";
  description = "";
  source_reference = "";
  explanation = none;
  phases = none;
  activation_delay = 0;
  resolution_delay = 0;
  cooldown = 30000;
  proactive = true;
  data_fields = "hook_down" ∷ [];
}

abbrev shown : Value → TelemetryValue
shown v = record { value = v; available = true; updated_at = none; source = none; stale = false }

abbrev sparse : RuleContext
sparse = record {
  state = record state { telemetry = ("hook_down", shown (flag false)) ∷ [] };
  history = history;
  now = 5000;
  active = false;
}

abbrev fuller : RuleContext
fuller = record {
  state = record state {
    telemetry = ("canopy", shown (text "OPEN")) ∷ ("hook_down", shown (flag false)) ∷ [];
  };
  history = history;
  now = 8000;
  active = true;
}

agreeing : Agree (condition_fields definition.condition) sparse.state fuller.state
unfolding condition_fields field_value dcs_copilot.Prelude.Dict.lookup
agreeing = (refl, (refl, tt))

agreeing_data : Agree definition.data_fields sparse.state fuller.state
unfolding field_value dcs_copilot.Prelude.Dict.lookup
agreeing_data = (refl, tt)

evaluate_definition-Agree_example :
    evaluate_definition definition sparse ≡ evaluate_definition definition fuller
evaluate_definition-Agree_example =
    evaluate_definition-Agree definition sparse fuller (tt, (tt, tt)) agreeing agreeing_data
