-- ===== src/Rules/Engine/Evaluate.antt =====
-- An evaluation of all rules: total, and each rule's transitions alternate.
use dcs_copilot.Prelude.{
  All-imp, Returns, Returns-bind, ℕ, String, ◌≡◌, refl, ap, subst, ◌∙◌, inl, inr, Bool, true, false,
  Option, none, some, List, [], ◌∷◌, ◌++◌, map, str_eq, eq_iff, Bool-cases, select, All,
}
use dcs_copilot.Prelude.Dict.{Dict, lookup, keys, insert, lookup-insert}
use mathlib.Core.List.{foldl}
use dcs_copilot.Aircraft.State.{AircraftState}
use dcs_copilot.Aircraft.History.{StateHistory}
use dcs_copilot.Rules.Base.{Rule, RuleTransition}
use dcs_copilot.Rules.Engine.{
  RuleRuntime, RuleEngine, is_some, step, notify, listed, evaluate_rules, evaluate,
}
use dcs_copilot.Rules.Engine.Lifecycle.{Consistent, Moves, Changes, Fine, step-Fine}

-- Whether the rule `id` has an active issue.
abbrev active_in : Option RuleRuntime → Bool
active_in none = false
active_in (some rt) = is_some rt.issue

abbrev pub is_active : String → Dict RuleRuntime → Bool
is_active id runtime = active_in (lookup id runtime)

-- The transitions take an issue from presence `was` to presence `is`, alternating.
abbrev pub Follows : Bool → List RuleTransition → Bool → Type 0
Follows was [] is = is ≡ was
Follows was (t ∷ ts) is = (next : Bool) × Moves was t.kind next × Follows next ts is

abbrev pub of_rule : String → List RuleTransition → List RuleTransition
of_rule id ts = select (λ t. str_eq t.issue.rule_id id) ts

abbrev pub AllConsistent : Dict RuleRuntime → Type 0
AllConsistent runtime =
    (id : String) (rt : RuleRuntime) → lookup id runtime ≡ some rt → Consistent id rt

abbrev pub Known : Dict RuleRuntime → List Rule → Type 0
Known runtime rules = All (λ (r : Rule). is_some (lookup r.id runtime) ≡ true) rules

pub record IsValid (e : RuleEngine) : Type 0 where
  pub shape : keys e.runtime ≡ map (λ r. r.id) e.rules
  pub known : Known e.runtime e.rules
  pub consistent : AllConsistent e.runtime

-- The rule of a transition is the only one that it concerns.
follows_other :
    (id j : String) (b c : Bool) (was is : Bool) (t : Option RuleTransition)
    (later : List RuleTransition)
    → Changes j was t is
    → str_eq j id ≡ false
    → Follows b (of_rule id later) c
    → Follows b (of_rule id (listed t ++ later)) c
follows_other id j b c was is none later h e f = f
follows_other id j b c was is (some t) later h e f = rw (h.1, e) f

follows_same :
    (id j : String) (was is c : Bool) (t : Option RuleTransition) (later : List RuleTransition)
    → Changes j was t is
    → str_eq j id ≡ true
    → Follows is (of_rule id later) c
    → Follows was (of_rule id (listed t ++ later)) c
follows_same id j was is c none later h e f = subst (λ b. Follows b (of_rule id later) c) h f
follows_same id j was is c (some t) later h e f = rw (h.1, e) (is, h.0, f)

pub some_eq {ℓ} : {A : Type ℓ} {a b : A} → some a ≡ some b → a ≡ b
some_eq h = cc

AllConsistent-insert :
    (id : String) (rt : RuleRuntime) (m : Dict RuleRuntime)
    → AllConsistent m
    → Consistent id rt
    → AllConsistent (insert id rt m)
AllConsistent-insert id rt m h c j rt' e = elim (Bool-cases (str_eq id j)) [
  | inl y ↦
      let same : some rt ≡ some rt' = rw (lookup-insert id j rt m, y) at e in
      subst (λ i. Consistent i rt') ((eq_iff id j).0 y) (subst (Consistent id) (some_eq same) c)
  | inr z ↦ h j rt' (rw (lookup-insert id j rt m, z) at e)
]

some_of {ℓ} : {A : Type ℓ} (o : Option A) → is_some o ≡ true → (a : A) × (o ≡ some a)
some_of none h = cc
some_of (some a) h = (a, refl)

keys-insert :
    (id : String) (rt rt' : RuleRuntime) (m : Dict RuleRuntime) (j : String)
    → lookup id m ≡ some rt
    → is_some (lookup j (insert id rt' m)) ≡ is_some (lookup j m)
keys-insert id rt rt' m j e = rw lookup-insert (elim (Bool-cases (str_eq id j)) [
  | inl y ↦ rw y (rw (← (eq_iff id j).0 y) (rw e))
  | inr z ↦ rw z
])

shape-insert :
    (id : String) (rt rt' : RuleRuntime) (m : Dict RuleRuntime)
    → lookup id m ≡ some rt
    → keys (insert id rt' m) ≡ keys m
unfolding lookup insert
shape-insert id rt rt' [] h = cc
shape-insert id rt rt' ((j, w) ∷ m) h = elim (Bool-cases (str_eq j id)) [
  | inl y ↦ rw y
  | inr z ↦ rw z (ap (λ l. j ∷ l) (shape-insert id rt rt' m (rw z at h)))
]

module _ {ℓ} {L : Type ℓ} (emit : L → RuleTransition → L) where
  record Outcome (m : Dict RuleRuntime) (l : L) (r : Dict RuleRuntime × L × List RuleTransition)
      : Type ℓ where
    consistent : AllConsistent r.0
    present : (id : String) → is_some (lookup id r.0) ≡ is_some (lookup id m)
    follows : (id : String) → Follows (is_active id m) (of_rule id r.2) (is_active id r.0)
    shape : keys r.0 ≡ keys m
    delivered : r.1 ≡ foldl emit l r.2

  delivered_more :
      (l : L) (t : Option RuleTransition) (later : List RuleTransition)
      → foldl emit (notify emit l t) later ≡ foldl emit l (listed t ++ later)
  unfolding notify
  delivered_more l none later = refl
  delivered_more l (some t) later = refl

  follows_step :
      (rule : Rule) (m : Dict RuleRuntime) (rt : RuleRuntime) (rt' : RuleRuntime)
      (t : Option RuleTransition) (later : List RuleTransition) (id : String) (c : Bool)
      → lookup rule.id m ≡ some rt
      → Fine rule.id rt (rt', t)
      → Follows (is_active id (insert rule.id rt' m)) (of_rule id later) c
      → Follows (is_active id m) (of_rule id (listed t ++ later)) c
  follows_step rule m rt rt' t later id c found fine f = elim (Bool-cases (str_eq rule.id id)) [
    | inl y ↦
        let now_is : is_active id (insert rule.id rt' m) ≡ is_some rt'.issue =
          rw (lookup-insert, y) in
        let was : is_active id m ≡ is_some rt.issue =
          rw (← (eq_iff rule.id id).0 y) (ap active_in found) in
        rw was (
          follows_same id rule.id (is_some rt.issue) (is_some rt'.issue) c t later fine.1 y
            (subst (λ b. Follows b (of_rule id later) c) now_is f))
    | inr z ↦
        let still : is_active id (insert rule.id rt' m) ≡ is_active id m = rw (lookup-insert, z) in
        follows_other id rule.id (is_active id m) c (is_some rt.issue) (is_some rt'.issue) t later
          fine.1 z (subst (λ b. Follows b (of_rule id later) c) still f)
  ]

  combine :
      (rule : Rule) (m : Dict RuleRuntime) (l : L) (rt : RuleRuntime)
      → lookup rule.id m ≡ some rt
      → (rt' : RuleRuntime) (t : Option RuleTransition) → Fine rule.id rt (rt', t)
      → (r : Dict RuleRuntime × L × List RuleTransition)
      → Outcome (insert rule.id rt' m) (notify emit l t) r
      → Outcome m l (r.0, r.1, listed t ++ r.2)
  combine rule m l rt found rt' t fine r o = record {
    consistent = o.consistent;
    present = λ id. o.present id ∙ keys-insert rule.id rt rt' m id found;
    follows = λ id. follows_step rule m rt rt' t r.2 id _ found fine (o.follows id);
    shape = o.shape ∙ shape-insert rule.id rt rt' m found;
    delivered = o.delivered ∙ delivered_more l t r.2;
  }

  evaluate_rules-Outcome :
      (rules : List Rule) (m : Dict RuleRuntime) (l : L) (state : AircraftState)
      (history : StateHistory) (now : ℕ)
      → Known m rules
      → AllConsistent m
      → Returns (Outcome m l) (evaluate_rules emit rules m l state history now)
  unfolding evaluate_rules
  evaluate_rules-Outcome [] m l state history now k c = record {
    consistent = c;
    present = λ id. refl;
    follows = λ id. refl;
    shape = refl;
    delivered = refl;
  }
  evaluate_rules-Outcome (rule ∷ rules) m l state history now k c =
      let (rt, found) = some_of (lookup rule.id m) k.0 in
      rw found (
        Returns-bind (Fine rule.id rt) (Outcome m l) (step rule rt state history now) _
          (step-Fine rule rt state history now (c rule.id rt found))
          (λ (rt', t) fine.
            let m' = insert rule.id rt' m in
            Returns-bind (Outcome m' (notify emit l t)) (Outcome m l)
              (evaluate_rules emit rules m' (notify emit l t) state history now) _
              (evaluate_rules-Outcome rules m' (notify emit l t) state history now
                (All-imp _ _ rules (λ r h. keys-insert rule.id rt rt' m r.id found ∙ h) k.1)
                (AllConsistent-insert rule.id rt' m c fine.0))
              (λ r o. combine rule m l rt found rt' t fine r o)))

  -- An evaluation of a valid engine raises nothing and leaves the engine valid.
  -- For each rule its transitions alternate between activation and the end of an issue, from
  -- whether it was active before to whether it is active after. The listeners have been handed
  -- exactly the transitions returned, in their order.
  pub evaluate-IsValid :
      (e : RuleEngine) (l : L) (state : AircraftState) (history : StateHistory) (now : ℕ)
      → IsValid e
      → Returns
          (λ (e', l', ts).
            IsValid e'
            × ((id : String)
                → Follows (is_active id e.runtime) (of_rule id ts) (is_active id e'.runtime))
            × (l' ≡ foldl emit l ts))
          (evaluate emit e l state history now)
  unfolding evaluate
  evaluate-IsValid e l state history now v =
      Returns-bind (Outcome e.runtime l) _
        (evaluate_rules emit e.rules e.runtime l state history now) _
        (evaluate_rules-Outcome e.rules e.runtime l state history now v.known v.consistent)
        (λ r o. (
          record {
            shape = o.shape ∙ v.shape;
            known = All-imp _ _ e.rules (λ q h. o.present q.id ∙ h) v.known;
            consistent = o.consistent;
          },
          o.follows,
          o.delivered,
        ))
