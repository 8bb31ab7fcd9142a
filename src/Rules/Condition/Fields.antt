-- ===== src/Rules/Condition/Fields.antt =====
-- What a condition of a declarative rule reads.
use dcs_copilot.Prelude.{
  String, ◌≡◌, refl, ap, not, Option, none, some, List, [], ◌∷◌, ◌++◌, map, arith, tests, All,
}
use dcs_copilot.Prelude.Dict.{lookup}
use dcs_copilot.Aircraft.Value.{nothing, is_nothing}
use dcs_copilot.Aircraft.State.{AircraftState, field_value, usable, current_value, TelemetryValue}
use dcs_copilot.Rules.Base.{RuleContext, telemetry}
use dcs_copilot.Rules.Condition.{
  Expected, Condition, Conditions, all_conditions, any_condition, negated, available, changed_to,
  changed_from, duration, fields, nil, cons, meets_fields, is_usable, condition_fields,
  conditions_fields, evaluate_condition, evaluate_all, evaluate_any, result_data,
  evaluate_definition, RuleDefinition,
}

-- A condition on the present state alone: no operator of it asks the history.
abbrev mutual
  pub Momentary : Condition → Type 0
  Momentary (all_conditions cs) = AllMomentary cs
  Momentary (any_condition cs) = AllMomentary cs
  Momentary (negated c) = Momentary c
  Momentary (available field) = Unit
  Momentary (changed_to field old new seconds) = ⊥
  Momentary (changed_from field old seconds) = ⊥
  Momentary (duration seconds c) = ⊥
  Momentary (fields tests) = Unit

  pub AllMomentary : Conditions → Type 0
  AllMomentary nil = Unit
  AllMomentary (cons c cs) = Momentary c × AllMomentary cs

-- Two states that show the same value for each of some fields.
abbrev pub Agree : List String → AircraftState → AircraftState → Type 0
Agree names s t = All (λ name. field_value s name ≡ field_value t name) names

shown :
    (o : Option TelemetryValue)
    → is_usable o ≡ not (is_nothing (elim o [ none ↦ nothing | some v ↦ current_value v ]))
unfolding is_usable current_value usable
shown none = refl
shown (some v) = ground arith

is_usable-field_value :
    (s : AircraftState) (name : String)
    → is_usable (lookup name s.telemetry) ≡ not (is_nothing (field_value s name))
unfolding field_value is_usable current_value usable
is_usable-field_value s name = shown (lookup name s.telemetry)

Agree-left : (xs ys : List String) (s t : AircraftState) → Agree (xs ++ ys) s t → Agree xs s t
Agree-left [] ys s t h = tt
Agree-left (x ∷ xs) ys s t h = (h.0, Agree-left xs ys s t h.1)

Agree-right : (xs ys : List String) (s t : AircraftState) → Agree (xs ++ ys) s t → Agree ys s t
Agree-right [] ys s t h = h
Agree-right (x ∷ xs) ys s t h = Agree-right xs ys s t h.1

meets_fields-Agree :
    (tests : List (String × Expected)) (s t : AircraftState)
    → Agree (map (λ x. x.0) tests) s t
    → meets_fields s tests ≡ meets_fields t tests
unfolding meets_fields
meets_fields-Agree [] s t h = refl
meets_fields-Agree ((name, e) ∷ tests) s t h = rw (h.0, meets_fields-Agree tests s t h.1) refl

mutual
  unfolding evaluate_condition condition_fields telemetry

  pub evaluate_condition-Agree :
      (k : Condition) (c d : RuleContext)
      → Momentary k
      → Agree (condition_fields k) c.state d.state
      → evaluate_condition k c ≡ evaluate_condition k d
  evaluate_condition-Agree (all_conditions cs) c d m h = evaluate_all-Agree cs c d m h
  evaluate_condition-Agree (any_condition cs) c d m h = evaluate_any-Agree cs c d m h
  evaluate_condition-Agree (negated k) c d m h = ap not (evaluate_condition-Agree k c d m h)
  evaluate_condition-Agree (available name) c d m h =
      rw (is_usable-field_value c.state name, is_usable-field_value d.state name, h.0) refl
  evaluate_condition-Agree (fields ts) c d m h = meets_fields-Agree ts c.state d.state h
  evaluate_condition-Agree (changed_to _ _ _ _) c d m h = elim m [ ]
  evaluate_condition-Agree (changed_from _ _ _) c d m h = elim m [ ]
  evaluate_condition-Agree (duration _ _) c d m h = elim m [ ]

  pub evaluate_all-Agree :
      (ks : Conditions) (c d : RuleContext)
      → AllMomentary ks
      → Agree (conditions_fields ks) c.state d.state
      → evaluate_all ks c ≡ evaluate_all ks d
  evaluate_all-Agree nil c d m h = refl
  evaluate_all-Agree (cons k ks) c d m h =
      rw
        (
          evaluate_condition-Agree k c d m.0
              (Agree-left (condition_fields k) (conditions_fields ks) c.state d.state h),
          evaluate_all-Agree ks c d m.1
              (Agree-right (condition_fields k) (conditions_fields ks) c.state d.state h),
        )
        refl

  pub evaluate_any-Agree :
      (ks : Conditions) (c d : RuleContext)
      → AllMomentary ks
      → Agree (conditions_fields ks) c.state d.state
      → evaluate_any ks c ≡ evaluate_any ks d
  evaluate_any-Agree nil c d m h = refl
  evaluate_any-Agree (cons k ks) c d m h =
      rw
        (
          evaluate_condition-Agree k c d m.0
              (Agree-left (condition_fields k) (conditions_fields ks) c.state d.state h),
          evaluate_any-Agree ks c d m.1
              (Agree-right (condition_fields k) (conditions_fields ks) c.state d.state h),
        )
        refl

result_data-Agree :
    (names : List String) (s t : AircraftState)
    → Agree names s t
    → result_data s names ≡ result_data t names
unfolding result_data
result_data-Agree [] s t h = refl
result_data-Agree (x ∷ xs) s t h = rw (h.0, result_data-Agree xs s t h.1) refl

-- A rule whose condition does not ask the history is decided by the values of the fields attributed
-- to its condition and of its data fields: in two contexts that agree on them it gives the same
-- result or none, whatever else the states hold, and whatever the histories and times are.
pub evaluate_definition-Agree :
    (r : RuleDefinition) (c d : RuleContext)
    → Momentary r.condition
    → Agree (condition_fields r.condition) c.state d.state
    → Agree r.data_fields c.state d.state
    → evaluate_definition r c ≡ evaluate_definition r d
unfolding evaluate_definition
evaluate_definition-Agree r c d m h k =
    rw
      (
        evaluate_condition-Agree r.condition c d m h,
        result_data-Agree r.data_fields c.state d.state k,
      )
      refl
