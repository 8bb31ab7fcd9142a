-- ===== src/Rules/Engine/Construct.antt =====
-- The engine's constructor.
use dcs_copilot.Prelude.{
  All-imp, String, ◌≡◌, refl, ap, subst, ◌≢◌, ◌⊎◌, inl, inr, true, false, none, some, List, [], ◌∷◌,
  map, arith, str_eq, eq_iff, Bool-cases, All,
}
use text.Mathlib.TextPositions.{eq_refl}
use dcs_copilot.Prelude.Dict.{Dict, lookup, keys}
use dcs_copilot.Rules.Base.{Rule}
use dcs_copilot.Rules.Engine.{
  RuleRuntime, RuleEngine, fresh, fresh_runtime, unique_ids, new_engine, member_of,
}
use dcs_copilot.Rules.Engine.Lifecycle.{Consistent, fresh-Consistent}
use dcs_copilot.Rules.Engine.Evaluate.{IsValid, AllConsistent, Known, some_eq}

fresh_runtime-keys : (rules : List Rule) → keys (fresh_runtime rules) ≡ map (λ r. r.id) rules
unfolding fresh_runtime
fresh_runtime-keys [] = refl
fresh_runtime-keys (r ∷ rs) = ap (λ l. r.id ∷ l) (fresh_runtime-keys rs)

fresh_runtime-Consistent : (rules : List Rule) → AllConsistent (fresh_runtime rules)
unfolding fresh_runtime lookup
fresh_runtime-Consistent [] id rt h = cc
fresh_runtime-Consistent (r ∷ rs) id rt h = elim (Bool-cases (str_eq r.id id)) [
  | inl y ↦ subst (Consistent id) (some_eq (rw y at h)) (fresh-Consistent id)
  | inr z ↦ fresh_runtime-Consistent rs id rt (rw z at h)
]

Known-cons :
    (id : String) (rt : RuleRuntime) (m : Dict RuleRuntime) (rules : List Rule)
    → Known m rules
    → Known ((id, rt) ∷ m) rules
unfolding lookup
Known-cons id rt m rules h = All-imp _ _ rules (λ r k. ground (arith, k)) h

fresh_runtime-Known : (rules : List Rule) → Known (fresh_runtime rules) rules
unfolding fresh_runtime
fresh_runtime-Known [] = tt
fresh_runtime-Known (r ∷ rs) = (
  unfold lookup in rw (eq_refl r.id),
  Known-cons r.id fresh (fresh_runtime rs) rs (fresh_runtime-Known rs),
)

pub fresh_runtime-IsValid :
    (rules : List Rule) → IsValid (record { rules = rules; runtime = fresh_runtime rules })
fresh_runtime-IsValid rules = record {
  shape = fresh_runtime-keys rules;
  known = fresh_runtime-Known rules;
  consistent = fresh_runtime-Consistent rules;
}

-- No two rules have the same identifier.
abbrev pub DistinctIds : List Rule → Type 0
DistinctIds [] = Unit
DistinctIds (r ∷ rs) = All (λ q. q.id ≢ r.id) rs × DistinctIds rs

member_of-false :
    (id : String) (rs : List Rule)
    → member_of id (map (λ q. q.id) rs) ≡ false
    → All (λ q. q.id ≢ id) rs
unfolding member_of
member_of-false id [] h = tt
member_of-false id (q ∷ rs) h =
    (ground (arith, h, eq_iff q.id id), member_of-false id rs (ground (arith, h)))

member_of-true :
    (id : String) (rs : List Rule)
    → member_of id (map (λ q. q.id) rs) ≡ true
    → ¬ All (λ q. q.id ≢ id) rs
unfolding member_of
member_of-true id [] h k = cc
member_of-true id (q ∷ rs) h k = elim (Bool-cases (str_eq q.id id)) [
  | inl y ↦ k.0 (ground (arith, y, eq_iff q.id id))
  | inr z ↦ member_of-true id rs (ground (arith, h, z)) k.1
]

unique_ids-true : (rs : List Rule) → unique_ids rs ≡ true → DistinctIds rs
unfolding unique_ids
unique_ids-true [] h = tt
unique_ids-true (r ∷ rs) h =
    (member_of-false r.id rs (ground (arith, h)), unique_ids-true rs (ground (arith, h)))

unique_ids-false : (rs : List Rule) → unique_ids rs ≡ false → ¬ DistinctIds rs
unfolding unique_ids
unique_ids-false [] h k = cc
unique_ids-false (r ∷ rs) h k = elim (Bool-cases (member_of r.id (map (λ q. q.id) rs))) [
  | inl y ↦ member_of-true r.id rs y k.0
  | inr z ↦ unique_ids-false rs (ground (arith, h, z)) k.1
]

-- An engine that the constructor has built from the rules.
abbrev pub Built : List Rule → Type 0
Built rules = (e : RuleEngine) × (new_engine rules ≡ some e) × IsValid e × (e.rules ≡ rules)

-- Where the identifiers of the rules are all different, the constructor returns an engine that holds
-- those rules and is valid; where two rules share one, it raises.
pub new_engine-IsValid :
    (rules : List Rule)
    → (DistinctIds rules × Built rules) ⊎ ((¬ DistinctIds rules) × (new_engine rules ≡ none))
unfolding new_engine
new_engine-IsValid rules = elim (Bool-cases (unique_ids rules)) [
  | inl y ↦ inl (
    unique_ids-true rules y,
    (
      record { rules = rules; runtime = fresh_runtime rules },
      rw y refl,
      fresh_runtime-IsValid rules,
      refl,
    ),
  )
  | inr z ↦ inr (unique_ids-false rules z, rw z refl)
]
