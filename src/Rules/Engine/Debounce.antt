-- ===== src/Rules/Engine/Debounce.antt =====
-- One rule over any sequence of evaluations: debounce and cooldown against their specification.
use dcs_copilot.Prelude.{
  Returns, ℕ, ◌+◌, ◌≤◌, ◌≡◌, refl, subst, inl, inr, Bool, true, false, not, Option, none, some,
  List, [], ◌∷◌, arith, ltb, if◌then◌else◌, Bool-cases,
}
use dcs_copilot.Aircraft.State.{AircraftState}
use dcs_copilot.Aircraft.History.{StateHistory}
use dcs_copilot.Rules.Base.{disabled, RuleResult, Rule, RuleTransition}
use dcs_copilot.Rules.Engine.{
  RuleRuntime, is_some, same_bool, applicable, deactivate, advance, step, fresh,
}
use dcs_copilot.Rules.Engine.Lifecycle.{Consistent, fresh-Consistent, Fine, step-Fine}

-- What a rule sees in one evaluation: not applicable, or the condition present or absent.
abbrev pub observe : Rule → RuleRuntime → AircraftState → StateHistory → ℕ → Option Bool
observe rule rt state history now =
    if applicable rule state
    then some (
        is_some (
          rule.evaluate
            (record { state = state; history = history; now = now; active = is_some rt.issue })))
    else none

-- The observations with their times, latest first.
abbrev pub Trace : Type 0
Trace = List (Option Bool × ℕ)

abbrev or_now : Option ℕ → ℕ → ℕ
or_now none now = now
or_now (some t) now = t

abbrev sees : Option Bool → Bool → Bool
sees none d = false
sees (some b) d = same_bool b d

-- Since when the latest observations have all been `d`.
abbrev pub streak : Bool → Trace → Option ℕ
streak d [] = none
streak d ((o, t) ∷ rest) = if sees o d then some (or_now (streak d rest) t) else none

abbrev delay : Rule → Bool → ℕ
delay rule true = rule.debounce_on_seconds
delay rule false = rule.debounce_off_seconds

-- The specification: a rule that does not apply is inactive; otherwise the state flips exactly when
-- the opposite has been observed without a break for the delay of that direction.
abbrev flips : Rule → Bool → Option ℕ → ℕ → Bool
flips rule was none now = was
flips rule was (some since) now = if ltb now (since + delay rule (not was)) then was else not was

abbrev pub debounced : Rule → Bool → Option Bool → Trace → ℕ → Bool
debounced rule was none earlier now = false
debounced rule was (some b) earlier now =
    flips rule was (streak (not was) ((some b, now) ∷ earlier)) now

-- The times of the notifications, latest first, after this step.
abbrev noted : Option RuleTransition → List ℕ → List ℕ
noted none notes = notes
noted (some t) notes = if t.notification_eligible then t.timestamp ∷ notes else notes

-- What a fresh runtime becomes by a sequence of evaluations, with the trace and the notifications.
pub data Runs (rule : Rule) : Trace → List ℕ → RuleRuntime → Type 0 where
  start : Runs rule [] [] fresh
  next :
      {trace : Trace} {notes : List ℕ} {rt : RuleRuntime} (state : AircraftState)
      (history : StateHistory) (now : ℕ) (rt' : RuleRuntime) (t : Option RuleTransition)
      → Runs rule trace notes rt
      → step rule rt state history now ≡ some (rt', t)
      → Runs rule ((observe rule rt state history now, now) ∷ trace) (noted t notes) rt'

abbrev Agrees : Trace → RuleRuntime → Type 0
Agrees trace rt = rt.candidate_since ≡ streak (not (is_some rt.issue)) trace

abbrev Stepped : Rule → Trace → RuleRuntime → Option Bool → ℕ → RuleRuntime → Type 0
Stepped rule trace rt o now rt' =
    Agrees ((o, now) ∷ trace) rt'
    × (is_some rt'.issue ≡ debounced rule (is_some rt.issue) o trace now)

advance-Stepped :
    (rule : Rule) (trace : Trace) (rt : RuleRuntime) (state : AircraftState)
    (result : Option RuleResult) (now : ℕ) (rt' : RuleRuntime) (t : Option RuleTransition)
    → Consistent rule.id rt
    → Agrees trace rt
    → advance rule rt state result now ≡ some (rt', t)
    → Stepped rule trace rt (some (is_some result)) now rt'
unfolding advance
advance-Stepped rule trace rt state result now rt' t c a e = ground arith

deactivate-Stepped :
    (rule : Rule) (trace : Trace) (rt : RuleRuntime) (now : ℕ) (rt' : RuleRuntime)
    (t : Option RuleTransition)
    → Consistent rule.id rt
    → deactivate rt now disabled ≡ (rt', t)
    → Stepped rule trace rt none now rt'
unfolding deactivate
deactivate-Stepped rule trace rt now rt' t c e = ground arith

step-Stepped :
    (rule : Rule) (trace : Trace) (rt : RuleRuntime) (state : AircraftState)
    (history : StateHistory) (now : ℕ) (rt' : RuleRuntime) (t : Option RuleTransition)
    → Consistent rule.id rt
    → Agrees trace rt
    → step rule rt state history now ≡ some (rt', t)
    → Stepped rule trace rt (observe rule rt state history now) now rt'
unfolding step
step-Stepped rule trace rt state history now rt' t c a e =
    elim (Bool-cases (applicable rule state)) [
      | inl y ↦ rw y (advance-Stepped rule trace rt state _ now rt' t c a (rw (y, step) at e))
      | inr z ↦ rw z (deactivate-Stepped rule trace rt now rt' t c (ground (arith, e)))
    ]

Fine-of :
    (rule : Rule) (rt : RuleRuntime) (state : AircraftState) (history : StateHistory) (now : ℕ)
    (rt' : RuleRuntime) (t : Option RuleTransition)
    → Consistent rule.id rt
    → step rule rt state history now ≡ some (rt', t)
    → Fine rule.id rt (rt', t)
Fine-of rule rt state history now rt' t c e =
    subst (Returns (Fine rule.id rt)) e (step-Fine rule rt state history now c)

record Sound (rule : Rule) (trace : Trace) (rt : RuleRuntime) : Type 0 where
  consistent : Consistent rule.id rt
  agrees : Agrees trace rt

Runs-Sound :
    (rule : Rule) {trace : Trace} {notes : List ℕ} {rt : RuleRuntime}
    → Runs rule trace notes rt
    → Sound rule trace rt
Runs-Sound rule start = record { consistent = fresh-Consistent rule.id; agrees = refl }
Runs-Sound rule (next {trace = trace} {rt = rt} state history now rt' t r e) =
    let s = Runs-Sound rule r in
    record {
      consistent = (Fine-of rule rt state history now rt' t s.consistent e).0;
      agrees = (step-Stepped rule trace rt state history now rt' t s.consistent s.agrees e).0;
    }

-- After any sequence of evaluations from a fresh runtime, the next evaluation leaves the rule
-- active or inactive exactly as the specification says: inactive where it does not apply; else it
-- flips if and only if every observation since some moment, at least the delay of that direction
-- ago, has been the opposite.
pub step-debounced :
    (rule : Rule) (trace : Trace) (notes : List ℕ) (rt : RuleRuntime) (state : AircraftState)
    (history : StateHistory) (now : ℕ) (rt' : RuleRuntime) (t : Option RuleTransition)
    → Runs rule trace notes rt
    → step rule rt state history now ≡ some (rt', t)
    → is_some rt'.issue
      ≡ debounced rule (is_some rt.issue) (observe rule rt state history now) trace now
step-debounced rule trace notes rt state history now rt' t r e =
    let s = Runs-Sound rule r in
    (step-Stepped rule trace rt state history now rt' t s.consistent s.agrees e).1

-- Each notification comes at least the cooldown after the one before it.
abbrev pub After : ℕ → ℕ → List ℕ → Type 0
After cooldown n [] = Unit
After cooldown n (m ∷ ms) = m + cooldown ≤ n

abbrev pub Spaced : ℕ → List ℕ → Type 0
Spaced cooldown [] = Unit
Spaced cooldown (n ∷ ns) = After cooldown n ns × Spaced cooldown ns

abbrev latest : List ℕ → Option ℕ
latest [] = none
latest (n ∷ ns) = some n

abbrev Kept : Rule → List ℕ → RuleRuntime → Type 0
Kept rule notes rt = (rt.last_notification_at ≡ latest notes) × Spaced rule.cooldown_seconds notes

advance-Kept :
    (rule : Rule) (notes : List ℕ) (rt : RuleRuntime) (state : AircraftState)
    (result : Option RuleResult) (now : ℕ) (rt' : RuleRuntime) (t : Option RuleTransition)
    → Kept rule notes rt
    → advance rule rt state result now ≡ some (rt', t)
    → Kept rule (noted t notes) rt'
unfolding advance
advance-Kept rule [] rt state result now rt' t k e = ground arith
advance-Kept rule (n ∷ ns) rt state result now rt' t k e = ground arith

deactivate-Kept :
    (rule : Rule) (notes : List ℕ) (rt : RuleRuntime) (now : ℕ) (rt' : RuleRuntime)
    (t : Option RuleTransition)
    → Kept rule notes rt
    → deactivate rt now disabled ≡ (rt', t)
    → Kept rule (noted t notes) rt'
unfolding deactivate
deactivate-Kept rule notes rt now rt' t k e = ground arith

step-Kept :
    (rule : Rule) (notes : List ℕ) (rt : RuleRuntime) (state : AircraftState)
    (history : StateHistory) (now : ℕ) (rt' : RuleRuntime) (t : Option RuleTransition)
    → Kept rule notes rt
    → step rule rt state history now ≡ some (rt', t)
    → Kept rule (noted t notes) rt'
unfolding step
step-Kept rule notes rt state history now rt' t k e = elim (Bool-cases (applicable rule state)) [
  | inl y ↦ advance-Kept rule notes rt state _ now rt' t k (rw (y, step) at e)
  | inr z ↦ deactivate-Kept rule notes rt now rt' t k (ground (arith, e))
]

Runs-Kept :
    (rule : Rule) {trace : Trace} {notes : List ℕ} {rt : RuleRuntime}
    → Runs rule trace notes rt
    → Kept rule notes rt
Runs-Kept rule start = (refl, tt)
Runs-Kept rule (next {notes = notes} {rt = rt} state history now rt' t r e) =
    step-Kept rule notes rt state history now rt' t (Runs-Kept rule r) e

-- In any sequence of evaluations from a fresh runtime, two transitions of a rule that are eligible
-- for notification are at least its cooldown apart.
pub Runs-Spaced :
    (rule : Rule) (trace : Trace) (notes : List ℕ) (rt : RuleRuntime)
    → Runs rule trace notes rt
    → Spaced rule.cooldown_seconds notes
Runs-Spaced rule trace notes rt r = (Runs-Kept rule r).1
