-- ===== src/Checklists/Engine/Guided/Confirm.antt =====
-- What a confirmation changes of the results of the items.
use dcs_copilot.Prelude.{
  ℕ, String, ◌≡◌, refl, ◌≢◌, false, Option, none, some, [], ◌∷◌, arith, str_eq, eq_iff,
  if◌then◌else◌, All,
}
use dcs_copilot.Prelude.Dict.{Dict, lookup, lookup-insert}
use dcs_copilot.Prelude.Map.{Map, values}
use dcs_copilot.Prelude.Map
use dcs_copilot.Aircraft.Value.{Value}
use dcs_copilot.Aircraft.State.{AircraftState, TelemetryValue}
use dcs_copilot.Rules.Base.{RuleContext}
use dcs_copilot.Rules.Condition.{Condition}
use dcs_copilot.Aircraft.History.{StateHistory}
use dcs_copilot.Checklists.{ChecklistItem, ChecklistItemResult, Expectation}
use dcs_copilot.Checklists.Items.{
  judge_value, judge_field, judge_telemetry, evaluate_state, evaluate_action, evaluate_derived,
  evaluate_manual, judged, evaluate_item, pilot_confirmed_result, item_result, evaluate_state,
  evaluate_derived, evaluate_action, evaluate_manual,
}
use dcs_copilot.Checklists.Engine.{
  ChecklistEngine, Key, key_eq, same_key_iff, item_now, confirm, same_status, prefer,
}
use dcs_copilot.Checklists.Engine.Guided.{Settles, Kept}

module _ (e : ChecklistEngine) (checklist : String) (state : AircraftState) (history : StateHistory)
    (now : ℕ) (x : String) where
  lookup-confirm :
      (id : String)
      → lookup id (confirm x now e).session.pilot_confirmed_items
        ≡ (if str_eq x id then some now else lookup id e.session.pilot_confirmed_items)
  unfolding confirm
  lookup-confirm id = lookup-insert x id now e.session.pilot_confirmed_items

  lookup-other :
      (id : String)
      → id ≢ x
      → lookup id (confirm x now e).session.pilot_confirmed_items
        ≡ lookup id e.session.pilot_confirmed_items
  lookup-other id n = ground (arith, n, lookup-confirm id, eq_iff x id)

  lookup-same :
      (id : String) → id ≡ x → lookup id (confirm x now e).session.pilot_confirmed_items ≡ some now
  lookup-same id n = ground (arith, n, lookup-confirm id, eq_iff x id)

  evaluate_item-confirm :
      (item : ChecklistItem)
      → item.id ≢ x
      → evaluate_item (confirm x now e).session.pilot_confirmed_items item state history now
        ≡ evaluate_item e.session.pilot_confirmed_items item state history now
  unfolding evaluate_item
  evaluate_item-confirm item n = ground (arith, lookup-other item.id n)

  item_now-confirmed :
      (item : ChecklistItem)
      → item.id ≡ x
      → item_now (confirm x now e) checklist state history now item
        ≡ pilot_confirmed_result item now
  unfolding item_now
  item_now-confirmed item h = ground (arith, lookup-same item.id h)

  item_now-other :
      (item : ChecklistItem)
      → item.id ≢ x
      → item_now (confirm x now e) checklist state history now item
        ≡ item_now e checklist state history now item
  unfolding item_now confirm
  item_now-other item n = ground (arith, lookup-other item.id n, evaluate_item-confirm item n)

  pub item_now-Settles :
      (item : ChecklistItem)
      → Settles x item.id
          (item_now e checklist state history now item)
          (item_now (confirm x now e) checklist state history now item)
  unfolding pilot_confirmed_result item_result same_status
  item_now-Settles item = (λ h. rw (item_now-confirmed item h) refl, item_now-other item)

judge_value-id :
    (item : ChecklistItem) (field : String) (e : Expectation) (actual : Value) (at : Option ℕ)
    → (judge_value item field e actual at).id ≡ item.id
unfolding judge_value item_result judged
judge_value-id item field e actual at = ground arith

judge_telemetry-id :
    (item : ChecklistItem) (field : String) (e : Expectation) (t : Option TelemetryValue)
    → (judge_telemetry item field e t).id ≡ item.id
unfolding judge_telemetry item_result
judge_telemetry-id item field e none = refl
judge_telemetry-id item field e (some t) =
    ground (arith, judge_value-id item field e t.value t.updated_at)

judge_field-id :
    (item : ChecklistItem) (e : Expectation) (field : Option String) (state : AircraftState)
    → (judge_field item e field state).id ≡ item.id
unfolding judge_field item_result
judge_field-id item e none state = refl
judge_field-id item e (some field) state =
    judge_telemetry-id item field e (lookup field state.telemetry)

evaluate_state-id :
    (item : ChecklistItem) (e : Option Expectation) (state : AircraftState)
    → (evaluate_state item e state).id ≡ item.id
unfolding evaluate_state item_result
evaluate_state-id item none state = refl
evaluate_state-id item (some e) state = judge_field-id item e e.field state

evaluate_action-id :
    (item : ChecklistItem) (field : Option String) (history : StateHistory)
    → (evaluate_action item field history).id ≡ item.id
unfolding evaluate_action item_result
evaluate_action-id item none history = refl
evaluate_action-id item (some field) history = ground arith

evaluate_derived-id :
    (item : ChecklistItem) (condition : Option Condition) (c : RuleContext)
    → (evaluate_derived item condition c).id ≡ item.id
unfolding evaluate_derived item_result judged
evaluate_derived-id item none c = refl
evaluate_derived-id item (some condition) c = refl

evaluate_manual-id : (item : ChecklistItem) (at : Option ℕ) → (evaluate_manual item at).id ≡ item.id
unfolding evaluate_manual item_result
evaluate_manual-id item none = refl
evaluate_manual-id item (some at) = refl

evaluate_item-id :
    (pilot : Dict ℕ) (item : ChecklistItem) (state : AircraftState) (history : StateHistory)
    (now : ℕ)
    → (evaluate_item pilot item state history now).id ≡ item.id
unfolding evaluate_item item_result
evaluate_item-id pilot item state history now =
    let context : RuleContext = record {
      state = state;
      history = history;
      now = now;
      active = false;
    } in
    ground (
      arith,
      evaluate_state-id item item.expected state,
      evaluate_derived-id item item.condition context,
      evaluate_action-id item item.action_field history,
      evaluate_manual-id item (lookup item.id pilot),
    )

latched-id :
    (k : Key) (m : Map Key ChecklistItemResult) (r : ChecklistItemResult)
    → All (λ (entry : Key × ChecklistItemResult). entry.1.id ≡ entry.0.1) m
    → Map.lookup k m ≡ some r
    → r.id ≡ k.1
unfolding Map.lookup
latched-id k [] r h l = absurd (ground (arith, l))
latched-id k ((j, v) ∷ m) r h l = ground (arith, h.0, latched-id k m r h.1, same_key_iff j k, l)

prefer-id :
    (item : ChecklistItem) (at : Option ℕ) (latched : Option ChecklistItemResult)
    (r : ChecklistItemResult)
    → ((q : ChecklistItemResult) → latched ≡ some q → q.id ≡ item.id)
    → r.id ≡ item.id
    → (prefer item at latched r).id ≡ item.id
unfolding prefer pilot_confirmed_result item_result
prefer-id item (some at) latched r l h = refl
prefer-id item none (some q) r l h = l q refl
prefer-id item none none r l h = h

pub item_now-id :
    (e : ChecklistEngine) (checklist : String) (state : AircraftState) (history : StateHistory)
    (now : ℕ)
    → Kept e
    → (item : ChecklistItem) → (item_now e checklist state history now item).id ≡ item.id
unfolding item_now
item_now-id e checklist state history now k item =
    prefer-id item (lookup item.id e.session.pilot_confirmed_items)
      (Map.lookup (checklist, item.id) e.latched) _
      (λ r g. latched-id (checklist, item.id) e.latched r k g)
      (evaluate_item-id e.session.pilot_confirmed_items item state history now)
