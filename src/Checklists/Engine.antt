-- ===== src/Checklists/Engine.antt =====
-- cloud/dcs_copilot_cloud/checklists/engine.py: the engine with its guided session.
pub mod Guided
pub mod Valid
use dcs_copilot.Prelude.{
  ◌↔◌, Never, All-imp, All-select, select-All, >>=-some, Returns, Returns-bind, Returns-some,
  >>=-assoc, ℕ, zero, suc, ◌+◌, ◌-◌, ◌*◌, ◌/◌, ◌%◌, ◌^◌, ◌≤◌, ◌<◌, String, ◌≡◌, refl, sym, ap,
  subst, ◌∙◌, ◌≢◌, ◌⊎◌, inl, inr, Bool, true, false, ◌&&◌, ◌||◌, not, Option, none, some, List, [],
  ◌∷◌, ◌++◌, map, arith, str_eq, eq_iff, ltb, leb, ◌==◌, if◌then◌else◌, ltb→lt, ltb→le, leb→le,
  ==→eq, tests, Bool-cases, Option-cases, length, length-append, get_or, take, drop, length-drop,
  all_of, any_of, select, All, All-append,
}
use dcs_copilot.Prelude.Dict.{Dict, lookup, insert}
use dcs_copilot.Prelude.Map.{Map, Eq, values}
use dcs_copilot.Prelude.Map
use dcs_copilot.Prelude.Result.{Result, ok, err, ◌>>=◌, ◌>>◌, guard, present_or}
use dcs_copilot.Aircraft.State.{AircraftState}
use dcs_copilot.Aircraft.History.{StateHistory}
use dcs_copilot.Checklists.{
  ChecklistItemStatus, status_complete, status_incomplete, status_unconfirmed,
  status_not_applicable, ChecklistItem, ChecklistStage, ChecklistDefinition, ChecklistItemResult,
  ChecklistResult, all_items, ChecklistSession, new_session, session_start, session_stop,
  session_reset,
}
use dcs_copilot.Checklists.Stages.{
  ChecklistError, unknown_checklist, no_checklist, item_required, no_guided, unknown_item,
  not_manual, nothing_unresolved, only_current, stage_for, stage_chain, validate_definitions,
}
use dcs_copilot.Checklists.Items.{evaluate_item, pilot_confirmed_result, is_manual}

-- A checklist and one of its items.
abbrev pub Key : Type 0
Key = String × String

unfoldable pub same_key : Key → Key → Bool
same_key a b = str_eq a.0 b.0 && str_eq a.1 b.1

ap2_pair : {a b c d : String} → a ≡ b → c ≡ d → ◌≡◌ {A = Key} (a, c) (b, d)
ap2_pair {a} {b} {c} {d} p q = ap (λ x. (x, c)) p ∙ ap (λ x. (b, x)) q

pub same_key_iff : (a b : Key) → (same_key a b ≡ true) ↔ (a ≡ b)
unfolding same_key
same_key_iff a b = (
  λ h. ap2_pair (ground (arith, h, eq_iff a.0 b.0)) (ground (arith, h, eq_iff a.1 b.1)),
  λ e. ground (arith, ap (λ k. k.0) e, ap (λ k. k.1) e, eq_iff a.0 b.0, eq_iff a.1 b.1),
)

instance abbrev pub key_eq : Eq Key
key_eq = record { same = same_key; same_iff = same_key_iff }

pub record ChecklistEngine : Type 0 where
  pub definitions : Dict ChecklistDefinition
  pub session : ChecklistSession
  pub latched : Map Key ChecklistItemResult

abbrev pub named : List ChecklistDefinition → Dict ChecklistDefinition → Dict ChecklistDefinition
named [] acc = acc
named (d ∷ rest) acc = named rest (insert d.id d acc)

-- The constructor.
unfoldable pub new_engine : List ChecklistDefinition → Result ChecklistError ChecklistEngine
unfolding insert validate_definitions
new_engine ds =
    let definitions = named ds [] in
    validate_definitions (values definitions)
    >> ok (record { definitions = definitions; session = new_session; latched = [] })

-- `requested or …`: an empty text is as good as none.
unfoldable pub or_else : Option String → Option String → Option String
or_else none other = other
or_else (some s) other = if str_eq s "" then other else some s

pub record ChecklistCapability : Type 0 where
  pub checklist_id : String
  pub aircraft : String
  pub stages : List String

unfoldable pub capabilities : ChecklistEngine → List ChecklistCapability
capabilities e =
    map
      (λ (d : ChecklistDefinition). record {
        checklist_id = d.id;
        aircraft = d.aircraft;
        stages = map (λ (stage : ChecklistStage). stage.id) d.stages;
      })
      (values e.definitions)

unfoldable pub for_aircraft :
    Option String → List ChecklistDefinition → Result ChecklistError ChecklistDefinition
for_aircraft aircraft [] = err no_checklist
for_aircraft aircraft (d ∷ rest) =
    let later = for_aircraft aircraft rest in
    elim aircraft [ none ↦ later | some a ↦ if str_eq d.aircraft a then ok d else later ]

-- `_definition_for`
unfoldable pub definition_for :
    ChecklistEngine → AircraftState → Option String → Result ChecklistError ChecklistDefinition
unfolding or_else for_aircraft
definition_for e state id = elim (or_else id e.session.checklist_id) [
  | some requested ↦ present_or (lookup requested e.definitions) (unknown_checklist requested)
  | none ↦ for_aircraft state.aircraft (values e.definitions)
]

-- An item by its confirmation, by what was latched, or by the telemetry.
unfoldable pub prefer :
    ChecklistItem
    → Option ℕ
    → Option ChecklistItemResult
    → ChecklistItemResult
    → ChecklistItemResult
unfolding pilot_confirmed_result
prefer item (some at) latched evaluated = pilot_confirmed_result item at
prefer item none (some r) evaluated = r
prefer item none none evaluated = evaluated

unfoldable pub item_now :
    ChecklistEngine
    → String
    → AircraftState
    → StateHistory
    → ℕ
    → ChecklistItem
    → ChecklistItemResult
unfolding lookup Map.lookup evaluate_item prefer
item_now e checklist state history now item =
    prefer item (lookup item.id e.session.pilot_confirmed_items)
      (Map.lookup (checklist, item.id) e.latched)
      (evaluate_item e.session.pilot_confirmed_items item state history now)

unfoldable pub add_items :
    (ChecklistItem → ChecklistItemResult)
    → List ChecklistItem
    → Dict ChecklistItemResult
    → Dict ChecklistItemResult
unfolding insert
add_items judge [] acc = acc
add_items judge (item ∷ rest) acc = add_items judge rest (insert item.id (judge item) acc)

unfoldable pub add_stages :
    (ChecklistItem → ChecklistItemResult)
    → List ChecklistStage
    → Dict ChecklistItemResult
    → Dict ChecklistItemResult
unfolding add_items
add_stages judge [] acc = acc
add_stages judge (stage ∷ rest) acc = add_stages judge rest (add_items judge stage.items acc)

unfoldable pub same_status : ChecklistItemStatus → ChecklistItemStatus → Bool
same_status status_complete status_complete = true
same_status status_incomplete status_incomplete = true
same_status status_unconfirmed status_unconfirmed = true
same_status status_not_applicable status_not_applicable = true
same_status a b = false

abbrev pub is_empty {ℓ} : {A : Type ℓ} → List A → Bool
is_empty [] = true
is_empty (x ∷ xs) = false

unfoldable pub with_status :
    ChecklistItemStatus → List ChecklistItemResult → List ChecklistItemResult
unfolding same_status
with_status wanted rs = select (λ (r : ChecklistItemResult). same_status r.status wanted) rs

-- The end of `evaluate`, from the results of the items.
unfoldable pub sorted_result :
    ChecklistDefinition → ChecklistStage → List ChecklistItemResult → ChecklistResult
unfolding with_status
sorted_result d stage results =
    let incomplete = with_status status_incomplete results in
    let unconfirmed = with_status status_unconfirmed results in
    record {
      checklist_id = d.id;
      aircraft = d.aircraft;
      stage = stage.id;
      complete = is_empty incomplete && is_empty unconfirmed;
      complete_items = with_status status_complete results;
      incomplete_items = incomplete;
      unconfirmed_items = unconfirmed;
      not_applicable_items = with_status status_not_applicable results;
    }

unfoldable pub evaluate :
    ChecklistEngine
    → AircraftState
    → StateHistory
    → ℕ
    → Option String
    → Option String
    → Result ChecklistError ChecklistResult
unfolding definition_for or_else stage_for stage_chain add_stages item_now sorted_result
evaluate e state history now checklist_id stage_id = do
  d ← definition_for e state checklist_id
  stage ← stage_for d (or_else stage_id e.session.stage_id)
  chain ← stage_chain d stage
  ok (sorted_result d stage (values (add_stages (item_now e d.id state history now) chain [])))

-- `(*result.incomplete_items, *result.unconfirmed_items)`
unfoldable pub unresolved : ChecklistResult → List ChecklistItemResult
unresolved r = r.incomplete_items ++ r.unconfirmed_items

unfoldable pub missing :
    ChecklistEngine
    → AircraftState
    → StateHistory
    → ℕ
    → Option String
    → Option String
    → Result ChecklistError (List ChecklistItemResult)
unfolding evaluate unresolved
missing e state history now checklist_id stage_id =
    evaluate e state history now checklist_id stage_id >>= λ r. ok (unresolved r)

unfoldable pub start :
    String → Option String → ChecklistEngine → Result ChecklistError ChecklistEngine
unfolding lookup stage_for session_start
start checklist_id stage_id e = do
  d ← present_or (lookup checklist_id e.definitions) (unknown_checklist checklist_id)
  stage ← stage_for d stage_id
  ok (record e { session = session_start checklist_id (some stage.id) e.session })

unfoldable pub stop : ChecklistEngine → ChecklistEngine
unfolding session_stop
stop e = record e { session = session_stop e.session }

unfoldable pub reset : ChecklistEngine → ChecklistEngine
unfolding session_reset
reset e = record e { session = session_reset e.session; latched = [] }

abbrev pub is_some {ℓ} : {A : Type ℓ} → Option A → Bool
is_some none = false
is_some (some a) = true

-- The body of the loop of `observe`.
unfoldable pub latch_item :
    AircraftState → StateHistory → ℕ → String → ChecklistEngine → ChecklistItem → ChecklistEngine
unfolding Map.lookup Map.insert evaluate_item same_status
latch_item state history now checklist e item =
    let result = evaluate_item e.session.pilot_confirmed_items item state history now in
    if not item.latch_completion || is_some (Map.lookup (checklist, item.id) e.latched)
    then e
    else if same_status result.status status_complete
    then record e { latched = Map.insert (checklist, item.id) result e.latched }
    else e

unfoldable pub latch_items :
    AircraftState
    → StateHistory
    → ℕ
    → String
    → List ChecklistItem
    → ChecklistEngine
    → ChecklistEngine
unfolding latch_item
latch_items state history now checklist [] e = e
latch_items state history now checklist (item ∷ rest) e =
    latch_items state history now checklist rest (latch_item state history now checklist e item)

unfoldable pub latch_stages :
    AircraftState
    → StateHistory
    → ℕ
    → String
    → List ChecklistStage
    → ChecklistEngine
    → ChecklistEngine
unfolding latch_items
latch_stages state history now checklist [] e = e
latch_stages state history now checklist (stage ∷ rest) e =
    latch_stages state history now checklist rest
      (latch_items state history now checklist stage.items e)

unfoldable pub is_for : Option String → ChecklistDefinition → Bool
is_for none d = false
is_for (some aircraft) d = str_eq d.aircraft aircraft

unfoldable pub latch_definitions :
    AircraftState → StateHistory → ℕ → List ChecklistDefinition → ChecklistEngine → ChecklistEngine
unfolding is_for latch_stages
latch_definitions state history now [] e = e
latch_definitions state history now (d ∷ rest) e =
    latch_definitions state history now rest
      (if is_for state.aircraft d then latch_stages state history now d.id d.stages e else e)

unfoldable pub observe : AircraftState → StateHistory → ℕ → ChecklistEngine → ChecklistEngine
unfolding latch_definitions
observe state history now e = latch_definitions state history now (values e.definitions) e

unfoldable pub first_of : List ChecklistItemResult → Option ChecklistItemResult
first_of [] = none
first_of (r ∷ rest) = some r

-- The next item of the guided stage.
unfoldable pub next_in :
    ChecklistEngine
    → AircraftState
    → StateHistory
    → ℕ
    → Option String
    → Option String
    → Result ChecklistError (Option ChecklistItemResult)
unfolding missing first_of
next_in e state history now (some checklist) (some stage) =
    missing e state history now (some checklist) (some stage) >>= λ rs. ok (first_of rs)
next_in e state history now checklist stage = err no_guided

unfoldable pub next_item :
    ChecklistEngine
    → AircraftState
    → StateHistory
    → ℕ
    → Result ChecklistError (Option ChecklistItemResult)
unfolding next_in
next_item e state history now =
    next_in e state history now e.session.checklist_id e.session.stage_id

unfoldable pub confirm : String → ℕ → ChecklistEngine → ChecklistEngine
unfolding insert
confirm item_id at e = record e {
  session = record e.session {
    pilot_confirmed_items = insert item_id at e.session.pilot_confirmed_items;
  };
}

unfoldable pub find_item : String → List ChecklistItem → Option ChecklistItem
find_item id [] = none
find_item id (item ∷ rest) = if str_eq item.id id then some item else find_item id rest

unfoldable pub find_in_stages : String → List ChecklistStage → Option ChecklistItem
unfolding find_item
find_in_stages id [] = none
find_in_stages id (stage ∷ rest) = elim (find_item id stage.items) [
  | some item ↦ some item
  | none ↦ find_in_stages id rest
]

unfoldable pub manual_item_confirmed : ChecklistEngine → String → Bool
unfolding lookup
manual_item_confirmed e item_id = is_some (lookup item_id e.session.pilot_confirmed_items)

unfoldable pub find_result :
    String → List ChecklistItemResult → Result ChecklistError ChecklistItemResult
find_result id [] = err (unknown_item id)
find_result id (r ∷ rest) = if str_eq r.id id then ok r else find_result id rest

unfoldable pub explain_item :
    ChecklistEngine
    → String
    → AircraftState
    → StateHistory
    → ℕ
    → Option String
    → Option String
    → Result ChecklistError ChecklistItemResult
unfolding evaluate all_items find_result
explain_item e item_id state history now checklist_id stage_id =
    evaluate e state history now checklist_id stage_id >>= λ r. find_result item_id (all_items r)

-- Whether `strip` leaves nothing of a text.
module _ (is_blank : String → Bool) where
  unfoldable pub confirm_manual_item :
      String → ChecklistEngine → Result ChecklistError ChecklistEngine
  unfolding lookup find_in_stages is_manual confirm
  confirm_manual_item item_id e = do
    guard (not (is_blank item_id)) item_required
    checklist ← present_or e.session.checklist_id no_guided
    d ← present_or (lookup checklist e.definitions) (unknown_checklist checklist)
    item ← present_or (find_in_stages item_id d.stages) (unknown_item item_id)
    guard (is_manual item.verification) (not_manual item_id)
    ok (confirm item_id 0 e)

  -- The item, whether this overrides the telemetry, and the engine with the confirmation.
  unfoldable pub confirm_current_item :
      String
      → AircraftState
      → StateHistory
      → ℕ
      → ChecklistEngine
      → Result ChecklistError (ChecklistItemResult × Bool × ChecklistEngine)
  unfolding next_item is_manual confirm
  confirm_current_item item_id state history now e = do
    guard (not (is_blank item_id)) item_required
    next ← next_item e state history now
    current ← present_or next nothing_unresolved
    guard (str_eq current.id item_id) (only_current current.id)
    ok (current, not (is_manual current.verification_type), confirm item_id now e)
