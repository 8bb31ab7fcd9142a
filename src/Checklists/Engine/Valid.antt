-- ===== src/Checklists/Engine/Valid.antt =====
-- What an engine with validated definitions evaluates.
use dcs_copilot.Prelude.{
  ◌↔◌, All-imp, select-All, ℕ, String, ◌≡◌, refl, sym, ap, subst, ◌∙◌, inl, inr, Bool, true, false,
  ◌&&◌, ◌||◌, Option, none, some, List, [], ◌∷◌, ◌++◌, arith, str_eq, if◌then◌else◌, Bool-cases,
  Option-cases, All, All-append,
}
use dcs_copilot.Prelude.Dict.{Dict, lookup}
use dcs_copilot.Prelude.Map.{values}
use dcs_copilot.Prelude.Result.{ok}
use dcs_copilot.Aircraft.State.{AircraftState}
use dcs_copilot.Aircraft.History.{StateHistory}
use dcs_copilot.Checklists.{
  ChecklistItemStatus, status_complete, status_incomplete, status_unconfirmed,
  status_not_applicable, ChecklistStage, ChecklistDefinition, ChecklistItemResult, ChecklistResult,
  all_items,
}
use dcs_copilot.Checklists.Stages.{
  find_stage, first_stage, default_or, stage_for, stage_chain, check_stages, check_dependencies,
  check_default, check_chains, validate_definition, validate_definitions,
}
use dcs_copilot.Checklists.Stages.Chain.{bind-ok, ok_inj}
use dcs_copilot.Checklists.Engine.{
  ChecklistEngine, named, new_engine, or_else, for_aircraft, definition_for, same_status,
  with_status, is_empty, sorted_result, item_now, add_stages, evaluate,
}
use dcs_copilot.Checklists.Engine.Guided.{is_open}

-- The chain of each of its stages is found.
abbrev Chained : ChecklistDefinition → Type 0
Chained d = All (λ stage. (chain : List ChecklistStage) × (stage_chain d stage ≡ ok chain)) d.stages

check_chains-Chained :
    (d : ChecklistDefinition) (stages : List ChecklistStage)
    → check_chains d stages ≡ ok tt
    → All (λ stage. (chain : List ChecklistStage) × (stage_chain d stage ≡ ok chain)) stages
unfolding check_chains
check_chains-Chained d [] h = tt
check_chains-Chained d (stage ∷ rest) h =
    let (chain, e, k) = bind-ok (stage_chain d stage) (λ _. check_chains d rest) tt h in
    ((chain, e), check_chains-Chained d rest k)

validate_definition-Chained : (d : ChecklistDefinition) → validate_definition d ≡ ok tt → Chained d
unfolding validate_definition
validate_definition-Chained d h =
    let (ids, e, k) = bind-ok (check_stages d.stages [] []) _ tt h in
    let (u, f, l) = bind-ok (check_dependencies ids d.stages) _ tt k in
    let (v, g, m) = bind-ok (check_default ids d.default_stage) _ tt l in
    check_chains-Chained d d.stages m

validate_definitions-Chained :
    (ds : List ChecklistDefinition) → validate_definitions ds ≡ ok tt → All Chained ds
unfolding validate_definitions
validate_definitions-Chained [] h = tt
validate_definitions-Chained (d ∷ rest) h =
    let (u, e, k) = bind-ok (validate_definition d) _ tt h in
    (validate_definition-Chained d e, validate_definitions-Chained rest k)

find_stage-All :
    (P : ChecklistStage → Type 0) (id : String) (stages : List ChecklistStage)
    (stage : ChecklistStage)
    → All P stages
    → find_stage id stages ≡ ok stage
    → P stage
unfolding find_stage
find_stage-All P id [] stage h e = absurd (ground (arith, e))
find_stage-All P id (first ∷ rest) stage h e = elim (Bool-cases (str_eq first.id id)) [
  | inl t ↦
      subst P
        (ok_inj first stage (sym (ap (λ b. if b then ok first else find_stage id rest) t) ∙ e)) h.0
  | inr t ↦
      find_stage-All P id rest stage h.1
        (sym (ap (λ b. if b then ok first else find_stage id rest) t) ∙ e)
]

first_stage-All :
    (P : ChecklistStage → Type 0) (stages : List ChecklistStage) (stage : ChecklistStage)
    → All P stages
    → first_stage stages ≡ ok stage
    → P stage
unfolding first_stage
first_stage-All P [] stage h e = absurd (ground (arith, e))
first_stage-All P (first ∷ rest) stage h e = subst P (ok_inj first stage e) h.0

stage_for-All :
    (P : ChecklistStage → Type 0) (d : ChecklistDefinition) (id : Option String)
    (stage : ChecklistStage)
    → All P d.stages
    → stage_for d id ≡ ok stage
    → P stage
unfolding stage_for
stage_for-All P d id stage h e = elim (Option-cases (default_or id d.default_stage)) [
  | inl n ↦ first_stage-All P d.stages stage h (ground (arith, e, n))
  | inr (i, n) ↦ find_stage-All P i d.stages stage h (ground (arith, e, n))
]

lookup-All :
    (P : ChecklistDefinition → Type 0) (k : String) (m : Dict ChecklistDefinition)
    (d : ChecklistDefinition)
    → All P (values m)
    → lookup k m ≡ some d
    → P d
unfolding lookup
lookup-All P k [] d h e = absurd (ground (arith, e))
lookup-All P k ((j, v) ∷ m) d h e = elim (Bool-cases (str_eq j k)) [
  | inl t ↦ subst P (ground (arith, e, t)) h.0
  | inr t ↦ lookup-All P k m d h.1 (sym (ap (λ b. if b then some v else lookup k m) t) ∙ e)
]

for_aircraft-All :
    (P : ChecklistDefinition → Type 0) (a : Option String) (ds : List ChecklistDefinition)
    (d : ChecklistDefinition)
    → All P ds
    → for_aircraft a ds ≡ ok d
    → P d
unfolding for_aircraft
for_aircraft-All P a [] d h e = absurd (ground (arith, e))
for_aircraft-All P none (x ∷ ds) d h e = for_aircraft-All P none ds d h.1 e
for_aircraft-All P (some a) (x ∷ ds) d h e = elim (Bool-cases (str_eq x.aircraft a)) [
  | inl t ↦
      subst P (ok_inj x d (sym (ap (λ b. if b then ok x else for_aircraft (some a) ds) t) ∙ e)) h.0
  | inr t ↦
      for_aircraft-All P (some a) ds d h.1
        (sym (ap (λ b. if b then ok x else for_aircraft (some a) ds) t) ∙ e)
]

definition_for-All :
    (P : ChecklistDefinition → Type 0) (e : ChecklistEngine) (state : AircraftState)
    (id : Option String) (d : ChecklistDefinition)
    → All P (values e.definitions)
    → definition_for e state id ≡ ok d
    → P d
unfolding definition_for
definition_for-All P e state id d h k = elim (Option-cases (or_else id e.session.checklist_id)) [
  | inl n ↦ for_aircraft-All P state.aircraft (values e.definitions) d h (ground (arith, k, n))
  | inr (i, n) ↦ lookup-All P i e.definitions d h (ground (arith, k, n))
]

new_engine-Chained :
    (ds : List ChecklistDefinition) (e : ChecklistEngine)
    → new_engine ds ≡ ok e
    → All Chained (values e.definitions)
unfolding new_engine
new_engine-Chained ds e h =
    let (u, k, l) = bind-ok (validate_definitions (values (named ds []))) _ e h in
    subst (λ (x : ChecklistEngine). All Chained (values x.definitions)) (ok_inj _ e l)
      (validate_definitions-Chained (values (named ds [])) k)

-- No item is incomplete or unconfirmed.
abbrev pub NoneOpen : List ChecklistItemResult → Type 0
NoneOpen rs = All (λ (r : ChecklistItemResult). is_open r ≡ false) rs

closed-NoneOpen :
    (wanted : ChecklistItemStatus)
    → ((s : ChecklistItemStatus)
        → same_status s wanted ≡ true
        → (same_status s status_incomplete || same_status s status_unconfirmed) ≡ false)
    → (rs : List ChecklistItemResult) → NoneOpen (with_status wanted rs)
unfolding with_status
closed-NoneOpen wanted f rs =
    All-imp _ _ (with_status wanted rs) (λ (r : ChecklistItemResult) h. f r.status h)
      (select-All (λ (r : ChecklistItemResult). same_status r.status wanted) rs)

is_empty-NoneOpen :
    (wanted : ChecklistItemStatus)
    → ((s : ChecklistItemStatus)
        → same_status s wanted ≡ true
        → (same_status s status_incomplete || same_status s status_unconfirmed) ≡ true)
    → (rs : List ChecklistItemResult) → NoneOpen (with_status wanted rs)
    → is_empty (with_status wanted rs) ≡ true
unfolding with_status
is_empty-NoneOpen wanted f rs h =
    empty_all (with_status wanted rs)
      (All-imp _ _ (with_status wanted rs) (λ (r : ChecklistItemResult) k. f r.status k)
        (select-All (λ (r : ChecklistItemResult). same_status r.status wanted) rs))
      h
  where
    empty_all :
        (xs : List ChecklistItemResult)
        → All (λ (r : ChecklistItemResult). is_open r ≡ true) xs
        → NoneOpen xs
        → is_empty xs ≡ true
    empty_all [] a b = refl
    empty_all (x ∷ xs) a b = absurd (ground (arith, a.0, b.0))

empty-NoneOpen : (xs : List ChecklistItemResult) → is_empty xs ≡ true → NoneOpen xs
empty-NoneOpen [] h = tt
empty-NoneOpen (x ∷ xs) h = absurd (ground (arith, h))

All-split : (xs ys : List ChecklistItemResult) → NoneOpen (xs ++ ys) → NoneOpen xs × NoneOpen ys
All-split [] ys h = (tt, h)
All-split (x ∷ xs) ys h = let (a, b) = All-split xs ys h.1 in ((h.0, a), b)

complete_closed :
    (s : ChecklistItemStatus)
    → same_status s status_complete ≡ true
    → (same_status s status_incomplete || same_status s status_unconfirmed) ≡ false
unfolding same_status
complete_closed status_complete h = refl
complete_closed status_incomplete h = absurd (ground (arith, h))
complete_closed status_unconfirmed h = absurd (ground (arith, h))
complete_closed status_not_applicable h = absurd (ground (arith, h))

not_applicable_closed :
    (s : ChecklistItemStatus)
    → same_status s status_not_applicable ≡ true
    → (same_status s status_incomplete || same_status s status_unconfirmed) ≡ false
unfolding same_status
not_applicable_closed status_complete h = absurd (ground (arith, h))
not_applicable_closed status_incomplete h = absurd (ground (arith, h))
not_applicable_closed status_unconfirmed h = absurd (ground (arith, h))
not_applicable_closed status_not_applicable h = refl

incomplete_open :
    (s : ChecklistItemStatus)
    → same_status s status_incomplete ≡ true
    → (same_status s status_incomplete || same_status s status_unconfirmed) ≡ true
unfolding same_status
incomplete_open status_complete h = absurd (ground (arith, h))
incomplete_open status_incomplete h = refl
incomplete_open status_unconfirmed h = absurd (ground (arith, h))
incomplete_open status_not_applicable h = absurd (ground (arith, h))

unconfirmed_open :
    (s : ChecklistItemStatus)
    → same_status s status_unconfirmed ≡ true
    → (same_status s status_incomplete || same_status s status_unconfirmed) ≡ true
unfolding same_status
unconfirmed_open status_complete h = absurd (ground (arith, h))
unconfirmed_open status_incomplete h = absurd (ground (arith, h))
unconfirmed_open status_unconfirmed h = refl
unconfirmed_open status_not_applicable h = absurd (ground (arith, h))

and-first : (a b : Bool) → (a && b) ≡ true → a ≡ true
and-first a b h = ground (arith, h)

and-second : (a b : Bool) → (a && b) ≡ true → b ≡ true
and-second a b h = ground (arith, h)

and-both : (a b : Bool) → a ≡ true → b ≡ true → (a && b) ≡ true
and-both a b h k = ground (arith, h, k)

join : (xs ys : List ChecklistItemResult) → NoneOpen xs → NoneOpen ys → NoneOpen (xs ++ ys)
join xs ys a b = All-append (λ (r : ChecklistItemResult). is_open r ≡ false) xs ys a b

complete_iff :
    (d : ChecklistDefinition) (stage : ChecklistStage) (rs : List ChecklistItemResult)
    → ((sorted_result d stage rs).complete ≡ true) ↔ NoneOpen (all_items (sorted_result d stage rs))
unfolding sorted_result all_items
complete_iff d stage rs = (
  λ h.
      let a = closed-NoneOpen status_complete complete_closed rs in
      let b = empty-NoneOpen (with_status status_incomplete rs) (and-first _ _ h) in
      let c = empty-NoneOpen (with_status status_unconfirmed rs) (and-second _ _ h) in
      let d = closed-NoneOpen status_not_applicable not_applicable_closed rs in
      let w = λ (s : ChecklistItemStatus). with_status s rs in
      join (w status_complete ++ w status_incomplete ++ w status_unconfirmed)
        (w status_not_applicable)
        (join (w status_complete ++ w status_incomplete) (w status_unconfirmed)
          (join (w status_complete) (w status_incomplete) a b) c)
        d,
  λ h.
      let (abc, d) = All-split _ (with_status status_not_applicable rs) h in
      let (ab, c) = All-split _ (with_status status_unconfirmed rs) abc in
      let (a, b) =
        All-split (with_status status_complete rs) (with_status status_incomplete rs) ab in
      and-both _ _ (is_empty-NoneOpen status_incomplete incomplete_open rs b)
        (is_empty-NoneOpen status_unconfirmed unconfirmed_open rs c),
)

-- An engine whose definitions its constructor has validated evaluates every checklist and every stage
-- that it finds, without an error, whatever its session and what it has latched; and the result is
-- complete exactly if none of its items is incomplete or unconfirmed.
pub evaluate-returns :
    (ds : List ChecklistDefinition) (built e : ChecklistEngine) (state : AircraftState)
    (history : StateHistory) (now : ℕ) (checklist_id stage_id : Option String)
    (d : ChecklistDefinition) (stage : ChecklistStage)
    → new_engine ds ≡ ok built
    → e.definitions ≡ built.definitions
    → definition_for e state checklist_id ≡ ok d
    → stage_for d (or_else stage_id e.session.stage_id) ≡ ok stage
    → (r : ChecklistResult) × (evaluate e state history now checklist_id stage_id ≡ ok r)
      × ((r.complete ≡ true) ↔ NoneOpen (all_items r))
unfolding evaluate
evaluate-returns ds built e state history now checklist_id stage_id d stage h s p q =
    let valid =
      definition_for-All Chained e state checklist_id d
        (subst (λ m. All Chained (values m)) (sym s) (new_engine-Chained ds built h)) p in
    let (chain, c) =
      stage_for-All (λ x. (chain : List ChecklistStage) × (stage_chain d x ≡ ok chain)) d
        (or_else stage_id e.session.stage_id) stage valid q in
    (
      sorted_result d stage (values (add_stages (item_now e d.id state history now) chain [])),
      rw (p, q, c) refl,
      complete_iff d stage (values (add_stages (item_now e d.id state history now) chain [])),
    )
