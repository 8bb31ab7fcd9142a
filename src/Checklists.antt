-- ===== src/Checklists.antt =====
-- cloud/dcs_copilot_cloud/checklists/models.py: the data of checklists, and the guided session.
-- The texts and values that a result shows are kept as what they are made of.
mod Examples
pub mod Stages
pub mod Items
pub mod Engine
use dcs_copilot.Prelude.{
  ◌↔◌, Never, All-imp, All-select, select-All, >>=-some, Returns, Returns-bind, Returns-some, ◌>>=◌,
  >>=-assoc, ℕ, zero, suc, ◌+◌, ◌-◌, ◌*◌, ◌/◌, ◌%◌, ◌^◌, ◌≤◌, ◌<◌, String, ◌≡◌, refl, sym, ap,
  subst, ◌∙◌, ◌≢◌, ◌⊎◌, inl, inr, Bool, true, false, ◌&&◌, ◌||◌, not, Option, none, some, List, [],
  ◌∷◌, ◌++◌, map, arith, str_eq, eq_iff, ltb, leb, ◌==◌, if◌then◌else◌, ltb→lt, ltb→le, leb→le,
  ==→eq, tests, Bool-cases, Option-cases, length, length-append, get_or, take, drop, length-drop,
  all_of, any_of, select, All, All-append,
}
use dcs_copilot.Prelude.Int.{ℤ}
use dcs_copilot.Prelude.Dict.{Dict}
use dcs_copilot.Aircraft.Value.{Value}
use dcs_copilot.Rules.Condition.{Condition}

pub data ChecklistItemStatus : Type 0 where
  status_complete status_incomplete status_unconfirmed status_not_applicable : ChecklistItemStatus

pub data VerificationType : Type 0 where
  by_state by_action by_derived by_manual : VerificationType

pub data VerificationSource : Type 0 where
  telemetry derived_telemetry observed_action pilot_confirmation pilot_override : VerificationSource

-- The dictionary `expected`: its field, where this is a text, and the expectations that are there.
pub record Expectation : Type 0 where
  pub field : Option String
  pub equals : Option Value
  pub not_equals : Option Value
  pub one_of : Option (List Value)
  pub less_than_or_equal : Option ℤ
  pub greater_than : Option ℤ

pub record ChecklistItem : Type 0 where
  pub id : String
  pub label : String
  pub verification : VerificationType
  pub expected : Option Expectation
  pub condition : Option Condition
  pub action_field : Option String
  pub applicable_if : Option Condition
  pub source_reference : String
  pub latch_completion : Bool

pub record ChecklistStage : Type 0 where
  pub id : String
  pub label : String
  pub items : List ChecklistItem
  pub depends_on : List String

pub record ChecklistDefinition : Type 0 where
  pub id : String
  pub aircraft : String
  pub label : String
  pub stages : List ChecklistStage
  pub default_stage : Option String

-- What a result shows as expected.
pub data Wanted : Type 0 where
  nothing_wanted : Wanted
  expectation : Option Expectation → Wanted
  value_wanted other_than : Value → Wanted
  values_wanted : List Value → Wanted
  at_most above : ℤ → Wanted
  condition_true pilot_wanted explicit_pilot : Wanted
  observed_true : String → Wanted

-- What a result shows as found.
pub data Actual : Type 0 where
  nothing_found : Actual
  value_found : Value → Actual
  fields_found : Dict Value → Actual
  confirmed observed : Actual

pub data Reason : Type 0 where
  inapplicable no_condition derived_satisfied derived_unsatisfied : Reason
  pilot_confirmed needs_pilot : Reason
  no_field : Reason
  field_unavailable field_stale : String → Reason
  matches differs acceptable unacceptable : String → Reason
  accepted not_accepted within above_limit is_above not_above : String → Reason
  unsupported no_action_field not_observed was_observed : Reason
  pilot_overrides pilot_confirms : Reason

pub record ChecklistItemResult : Type 0 where
  pub id : String
  pub label : String
  pub status : ChecklistItemStatus
  pub expected : Wanted
  pub actual : Actual
  pub reason : Reason
  pub verification_type : VerificationType
  pub verification_source : VerificationSource
  pub observed_at : Option ℕ

pub record ChecklistResult : Type 0 where
  pub checklist_id : String
  pub aircraft : String
  pub stage : String
  pub complete : Bool
  pub complete_items : List ChecklistItemResult
  pub incomplete_items : List ChecklistItemResult
  pub unconfirmed_items : List ChecklistItemResult
  pub not_applicable_items : List ChecklistItemResult

-- The property `items`.
unfoldable pub all_items : ChecklistResult → List ChecklistItemResult
all_items r =
    r.complete_items ++ r.incomplete_items ++ r.unconfirmed_items ++ r.not_applicable_items

pub record ChecklistSession : Type 0 where
  pub checklist_id : Option String
  pub stage_id : Option String
  pub progress_checklist_id : Option String
  pub pilot_confirmed_items : Dict ℕ

abbrev pub new_session : ChecklistSession
new_session = record {
  checklist_id = none;
  stage_id = none;
  progress_checklist_id = none;
  pilot_confirmed_items = [];
}

unfoldable pub progress_on : Option String → String → Bool
progress_on none id = true
progress_on (some p) id = str_eq p id

-- `ChecklistSession.start`
unfoldable pub session_start : String → Option String → ChecklistSession → ChecklistSession
unfolding progress_on
session_start id stage s = record {
  checklist_id = some id;
  stage_id = stage;
  progress_checklist_id = some id;
  pilot_confirmed_items =
      if progress_on s.progress_checklist_id id then s.pilot_confirmed_items else [];
}

unfoldable pub session_stop : ChecklistSession → ChecklistSession
session_stop s = record s { checklist_id = none; stage_id = none }

unfoldable pub session_reset : ChecklistSession → ChecklistSession
unfolding session_stop
session_reset s = record (session_stop s) {
  progress_checklist_id = none;
  pilot_confirmed_items = [];
}
