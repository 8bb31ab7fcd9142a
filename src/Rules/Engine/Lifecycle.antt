-- ===== src/Rules/Engine/Lifecycle.antt =====
-- The life of one rule: no assertion fails, and its transitions alternate.
use dcs_copilot.Prelude.{
  Never, Returns, ℕ, String, ◌≡◌, refl, ◌≢◌, inl, inr, Bool, true, false, not, Option, none, some,
  arith, Bool-cases,
}
use dcs_copilot.Aircraft.State.{AircraftState}
use dcs_copilot.Rules.Base.{
  RuleTransitionType, activated, RuleResult, Rule, ActiveIssue, RuleTransition, disabled,
}
use dcs_copilot.Rules.Engine.{
  RuleRuntime, is_some, deactivate, advance, step, fresh, applicable_to, applicable, StateHistory,
}

-- A candidate has a start and proposes a change of the issue; without one there is no start.
abbrev pub Pending : Option Bool → Option ℕ → Bool → Type 0
Pending none since active = since ≡ none
Pending (some d) none active = Never
Pending (some d) (some t) active = active ≡ not d

abbrev pub Owned : String → Option ActiveIssue → Type 0
Owned id none = Unit {0}
Owned id (some issue) = issue.rule_id ≡ id

pub record Consistent (id : String) (rt : RuleRuntime) : Type 0 where
  pub pending : Pending rt.candidate_active rt.candidate_since (is_some rt.issue)
  pub owned : Owned id rt.issue

-- The kinds of transition that an issue's absence or presence admits, and what it is afterwards.
abbrev pub Moves : Bool → RuleTransitionType → Bool → Type 0
Moves was activated is = (was ≡ false) × (is ≡ true)
Moves was _ is = (was ≡ true) × (is ≡ false)

abbrev pub Changes : String → Bool → Option RuleTransition → Bool → Type 0
Changes id was none is = is ≡ was
Changes id was (some t) is = Moves was t.kind is × (t.issue.rule_id ≡ id)

abbrev pub Fine : String → RuleRuntime → RuleRuntime × Option RuleTransition → Type 0
Fine id rt r = Consistent id r.0 × Changes id (is_some rt.issue) r.1 (is_some r.0.issue)

deactivate-Fine :
    (id : String) (rt : RuleRuntime) (now : ℕ) (kind : RuleTransitionType)
    → kind ≢ activated
    → Consistent id rt
    → Fine id rt (deactivate rt now kind)
unfolding deactivate
deactivate-Fine id rt now kind k c = ground arith

advance-Fine :
    (rule : Rule) (rt : RuleRuntime) (state : AircraftState) (aircraft : String)
    (result : Option RuleResult) (now : ℕ)
    → state.aircraft ≡ some aircraft
    → Consistent rule.id rt
    → Returns (Fine rule.id rt) (advance rule rt state result now)
unfolding advance
advance-Fine rule rt state aircraft result now e c = ground arith

some_aircraft :
    (o : Option String) (rule : Rule) (state : AircraftState)
    → applicable_to o rule state ≡ true
    → (a : String) × (o ≡ some a)
unfolding applicable_to
some_aircraft none rule state h = cc
some_aircraft (some a) rule state h = (a, refl)

-- One rule's part of an evaluation: from a consistent runtime no assertion fails, the runtime stays
-- consistent, ACTIVATED comes only with an issue that was absent and is now present, RESOLVED and
-- DISABLED only with one that was present and is now absent, and without a transition nothing
-- appears or disappears.
pub step-Fine :
    (rule : Rule) (rt : RuleRuntime) (state : AircraftState) (history : StateHistory) (now : ℕ)
    → Consistent rule.id rt
    → Returns (Fine rule.id rt) (step rule rt state history now)
unfolding step applicable
step-Fine rule rt state history now c =
    elim (Bool-cases (applicable_to state.aircraft rule state)) [
      | inl y ↦
          let (a, e) = some_aircraft state.aircraft rule state y in
          rw y (advance-Fine rule rt state a _ now e c)
      | inr z ↦ rw z (deactivate-Fine rule.id rt now disabled (λ e. cc) c)
    ]

pub fresh-Consistent : (id : String) → Consistent id fresh
fresh-Consistent id = record { pending = refl; owned = tt }
