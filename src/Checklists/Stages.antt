-- ===== src/Checklists/Stages.antt =====
-- cloud/dcs_copilot_cloud/checklists/engine.py: the choice of a stage, the stages that it depends on,
-- and the validation of definitions. A set of texts is the list of its members; the recursion of
-- `visit` is on fuel.
pub mod Chain
use dcs_copilot.Prelude.{
  ◌↔◌, Never, All-imp, All-select, select-All, >>=-some, Returns, Returns-bind, Returns-some,
  >>=-assoc, ℕ, zero, suc, ◌+◌, ◌-◌, ◌*◌, ◌/◌, ◌%◌, ◌^◌, ◌≤◌, ◌<◌, String, ◌≡◌, refl, sym, ap,
  subst, ◌∙◌, ◌≢◌, ◌⊎◌, inl, inr, Bool, true, false, ◌&&◌, ◌||◌, not, Option, none, some, List, [],
  ◌∷◌, ◌++◌, map, arith, str_eq, eq_iff, ltb, leb, ◌==◌, if◌then◌else◌, ltb→lt, ltb→le, leb→le,
  ==→eq, tests, Bool-cases, Option-cases, length, length-append, get_or, take, drop, length-drop,
  all_of, any_of, select, All, All-append,
}
use dcs_copilot.Prelude.Result.{Result, ok, err, ◌>>=◌, ◌>>◌, guard}
use dcs_copilot.Protocol.Json.{member_of}
use dcs_copilot.Checklists.{ChecklistItem, ChecklistStage, ChecklistDefinition}

pub data ChecklistError : Type 0 where
  duplicate_stage duplicate_item duplicate_across_stages unknown_dependency :
      String → ChecklistError
  unknown_checklist unknown_stage cyclic_dependency unknown_item not_manual only_current :
      String → ChecklistError
  no_stages no_checklist item_required no_guided nothing_unresolved out_of_fuel : ChecklistError

unfoldable pub find_stage : String → List ChecklistStage → Result ChecklistError ChecklistStage
find_stage id [] = err (unknown_stage id)
find_stage id (stage ∷ rest) = if str_eq stage.id id then ok stage else find_stage id rest

-- `definition.stages[0]`
unfoldable pub first_stage : List ChecklistStage → Result ChecklistError ChecklistStage
first_stage [] = err no_stages
first_stage (stage ∷ rest) = ok stage

unfoldable pub default_or : Option String → Option String → Option String
default_or none default = default
default_or (some id) default = some id

-- `_stage_for`
unfoldable pub stage_for :
    ChecklistDefinition → Option String → Result ChecklistError ChecklistStage
unfolding default_or first_stage find_stage
stage_for d id = elim (default_or id d.default_stage) [
  | none ↦ first_stage d.stages
  | some i ↦ find_stage i d.stages
]

-- The locals of `_stage_chain`.
pub record Search : Type 0 where
  pub selected : List ChecklistStage
  pub visited : List String
  pub visiting : List String

-- `for dependency_id in stage.depends_on`
unfoldable pub visit_each :
    ChecklistDefinition
    → (ChecklistStage → Search → Result ChecklistError Search)
    → List String
    → Search
    → Result ChecklistError Search
unfolding stage_for
visit_each d go [] s = ok s
visit_each d go (id ∷ rest) s =
    stage_for d (some id) >>= λ stage. go stage s >>= visit_each d go rest

unfoldable pub enter : ChecklistStage → Search → Search
enter stage s = record s { visiting = s.visiting ++ stage.id ∷ [] }

unfoldable pub leave : ChecklistStage → Search → Search
leave stage s = record {
  selected = s.selected ++ stage ∷ [];
  visited = s.visited ++ stage.id ∷ [];
  visiting = select (λ id. not (str_eq id stage.id)) s.visiting;
}

unfoldable pub visit :
    ChecklistDefinition → ℕ → ChecklistStage → Search → Result ChecklistError Search
unfolding member_of visit_each enter leave
visit d zero stage s = err out_of_fuel
visit d (suc fuel) stage s =
    let below = visit_each d (visit d fuel) stage.depends_on (enter stage s) in
    if member_of s.visited stage.id
    then ok s
    else if member_of s.visiting stage.id
    then err (cyclic_dependency stage.id)
    else below >>= λ t. ok (leave stage t)

-- One more than the stages, for a target that is none of them, and one for the call that meets a cycle.
abbrev pub fuel_for : ChecklistDefinition → ℕ
fuel_for d = suc (suc (length d.stages))

abbrev pub no_search : Search
no_search = record { selected = []; visited = []; visiting = [] }

-- `_stage_chain`
unfoldable pub stage_chain :
    ChecklistDefinition → ChecklistStage → Result ChecklistError (List ChecklistStage)
unfolding visit
stage_chain d target = visit d (fuel_for d) target no_search >>= λ s. ok s.selected

-- `_validate_definitions`: the ids of stages and of items.
unfoldable pub check_items :
    List ChecklistItem → List String → List String → Result ChecklistError (List String)
unfolding member_of
check_items [] item_ids all_ids = ok all_ids
check_items (item ∷ rest) item_ids all_ids =
    let later = check_items rest (item_ids ++ item.id ∷ []) (all_ids ++ item.id ∷ []) in
    if member_of item_ids item.id
    then err (duplicate_item item.id)
    else if member_of all_ids item.id
    then err (duplicate_across_stages item.id)
    else later

unfoldable pub check_stages :
    List ChecklistStage → List String → List String → Result ChecklistError (List String)
unfolding check_items member_of
check_stages [] stage_ids all_ids = ok stage_ids
check_stages (stage ∷ rest) stage_ids all_ids =
    let later = check_items stage.items [] all_ids >>= λ ids.
    check_stages rest (stage_ids ++ stage.id ∷ []) ids in
    if member_of stage_ids stage.id then err (duplicate_stage stage.id) else later

unfoldable pub check_known : List String → List String → Result ChecklistError (Unit {0})
unfolding member_of
check_known stage_ids [] = ok tt
check_known stage_ids (id ∷ rest) =
    guard (member_of stage_ids id) (unknown_dependency id) >> check_known stage_ids rest

unfoldable pub check_dependencies :
    List String → List ChecklistStage → Result ChecklistError (Unit {0})
unfolding check_known
check_dependencies stage_ids [] = ok tt
check_dependencies stage_ids (stage ∷ rest) =
    check_known stage_ids stage.depends_on >> check_dependencies stage_ids rest

unfoldable pub check_default : List String → Option String → Result ChecklistError (Unit {0})
unfolding member_of
check_default stage_ids none = ok tt
check_default stage_ids (some id) = guard (member_of stage_ids id) (unknown_dependency id)

unfoldable pub check_chains :
    ChecklistDefinition → List ChecklistStage → Result ChecklistError (Unit {0})
unfolding stage_chain
check_chains d [] = ok tt
check_chains d (stage ∷ rest) = stage_chain d stage >>= λ _. check_chains d rest

unfoldable pub validate_definition : ChecklistDefinition → Result ChecklistError (Unit {0})
unfolding check_stages check_dependencies check_default check_chains
validate_definition d = check_stages d.stages [] [] >>= λ ids.
    check_dependencies ids d.stages
    >> (check_default ids d.default_stage >> check_chains d d.stages)

unfoldable pub validate_definitions : List ChecklistDefinition → Result ChecklistError (Unit {0})
unfolding validate_definition
validate_definitions [] = ok tt
validate_definitions (d ∷ rest) = validate_definition d >> validate_definitions rest
