-- ===== src/Rules/Engine/Reset.antt =====
-- Construction and reset of the engine, and the list of active issues.
use dcs_copilot.Prelude.{
  All-imp, ℕ, ◌≤◌, String, ◌≡◌, refl, ◌∙◌, ◌⊎◌, inl, inr, Bool, true, false, ◌&&◌, ◌||◌, some, List,
  [], ◌∷◌, map, arith, str_eq, ltb, leb, ◌==◌, if◌then◌else◌, Bool-cases, Option-cases, All,
}
use dcs_copilot.Prelude.Dict.{Dict, lookup, keys}
use mathlib.Core.List.{foldl, Perm}
use mathlib.Core.List.Perm
use dcs_copilot.Rules.Engine.Evaluate.{IsValid}
use dcs_copilot.Rules.Base.{
  Severity, critical, warning, advisory, info, disabled, ActiveIssue, RuleTransition, Rule,
}
use dcs_copilot.Rules.Engine.{
  RuleRuntime, fresh, deactivate, reset_runtime, issues_of, sort_issues, reset, place, before,
  fresh_runtime, RuleEngine, new_engine, active_issues, unique_ids, severity_rank,
}

-- The transition that ends an issue when the engine is reset.
abbrev pub ended : ℕ → ActiveIssue → RuleTransition
ended now issue = record {
  kind = disabled;
  issue = record issue { observed_at = now };
  timestamp = now;
  notification_eligible = false;
}

abbrev pub all_fresh : Dict RuleRuntime → Dict RuleRuntime
all_fresh [] = []
all_fresh ((id, rt) ∷ rest) = (id, fresh) ∷ all_fresh rest

module _ {ℓ} {L : Type ℓ} (emit : L → RuleTransition → L) where
  reset_runtime_lem :
      (m : Dict RuleRuntime) (l : L) (now : ℕ) (emits : Bool)
      → let (m', l', ts) = reset_runtime emit m l now emits in
        (m' ≡ all_fresh m)
        × (ts ≡ map (ended now) (issues_of m))
        × (l' ≡ (if emits then foldl emit l ts else l))
  unfolding reset_runtime issues_of deactivate
  reset_runtime_lem [] l now true = (refl, refl, refl)
  reset_runtime_lem [] l now false = (refl, refl, refl)
  reset_runtime_lem ((id, rt) ∷ rest) l now true = elim (Option-cases rt.issue) [
    | inl e ↦ ground (arith, reset_runtime_lem rest l now true)
    | inr (i, e) ↦ ground (arith, reset_runtime_lem rest (emit l (ended now i)) now true)
  ]
  reset_runtime_lem ((id, rt) ∷ rest) l now false =
      ground (arith, reset_runtime_lem rest l now false)

  -- A reset leaves every rule as in a fresh runtime, its last notification forgotten. It returns one
  -- DISABLED transition, ineligible for notification, for each active issue in the order of the
  -- rules and no other, and hands them to the listeners exactly if it is asked to emit.
  pub reset_lem :
      (e : RuleEngine) (l : L) (now : ℕ) (emits : Bool)
      → let (e', l', ts) = reset emit e l now emits in
        (e' ≡ record e { runtime = all_fresh e.runtime })
        × (ts ≡ map (ended now) (issues_of e.runtime))
        × (l' ≡ (if emits then foldl emit l ts else l))
  unfolding reset
  reset_lem e l now emits =
      let r = reset_runtime_lem e.runtime l now emits in
      ((λ i. record e { runtime = r.0 i }), r.1, r.2)

all_fresh-keys :
    (rules : List Rule) (m : Dict RuleRuntime)
    → keys m ≡ map (λ r. r.id) rules
    → all_fresh m ≡ fresh_runtime rules
unfolding fresh_runtime
all_fresh-keys [] [] h = refl
all_fresh-keys [] ((id, rt) ∷ m) h = cc
all_fresh-keys (r ∷ rs) [] h = cc
all_fresh-keys (r ∷ rs) ((id, rt) ∷ m) h =
    let rest = all_fresh-keys rs m (cc) in let e : id ≡ r.id = cc in λ i. (e i, fresh) ∷ rest i

-- After any evaluations, a reset returns the engine to exactly what its constructor builds from its
-- rules.
pub reset-new_engine {ℓ} :
    {L : Type ℓ} (emit : L → RuleTransition → L) (e : RuleEngine) (l : L) (now : ℕ) (emits : Bool)
    → IsValid e
    → unique_ids e.rules ≡ true
    → some (reset emit e l now emits).0 ≡ new_engine e.rules
unfolding new_engine
reset-new_engine emit e l now emits v u = rw u (λ i. some (record {
  rules = ((reset_lem emit e l now emits).0 i).rules;
  runtime =
      (((reset_lem emit e l now emits).0 ∙ λ j. record e {
        runtime = all_fresh-keys e.rules e.runtime v.shape j;
      })
        i).runtime;
}))

lookup-fresh :
    (rules : List Rule) (id : String) (rt : RuleRuntime)
    → lookup id (fresh_runtime rules) ≡ some rt
    → rt ≡ fresh
unfolding lookup fresh_runtime
lookup-fresh [] id rt h = cc
lookup-fresh (r ∷ rs) id rt h = elim (Bool-cases (str_eq r.id id)) [
  | inl y ↦ cc (rw y at h)
  | inr z ↦ lookup-fresh rs id rt (rw z at h)
]

-- No issue is after one that `before` puts behind it.
abbrev InOrder : List ActiveIssue → Type 0
InOrder [] = Unit
InOrder (a ∷ rest) = All (λ b. before a b ≡ true) rest × InOrder rest

before_trans : (a b c : ActiveIssue) → before a b ≡ true → before b c ≡ true → before a c ≡ true
unfolding before
before_trans a b c h k = ground arith

before_total : (a b : ActiveIssue) → before a b ≡ false → before b a ≡ true
unfolding before
before_total a b h = ground arith

All-place :
    (P : ActiveIssue → Type 0) (a : ActiveIssue) (bs : List ActiveIssue)
    → P a
    → All P bs
    → All P (place a bs)
unfolding place
All-place P a [] h k = (h, tt)
All-place P a (b ∷ bs) h k = elim (Bool-cases (before a b)) [
  | inl y ↦ rw y (h, k)
  | inr z ↦ rw z (k.0, All-place P a bs h k.1)
]

place-InOrder : (a : ActiveIssue) (bs : List ActiveIssue) → InOrder bs → InOrder (place a bs)
unfolding place
place-InOrder a [] o = (tt, tt)
place-InOrder a (b ∷ bs) o = elim (Bool-cases (before a b)) [
  | inl y ↦ rw y ((y, All-imp _ _ bs (λ c h. before_trans a b c y h) o.0), o)
  | inr z ↦
      rw z
        (All-place (λ c. before b c ≡ true) a bs (before_total a b z) o.0, place-InOrder a bs o.1)
]

place-perm : (a : ActiveIssue) (bs : List ActiveIssue) → Perm (place a bs) (a ∷ bs)
unfolding place
place-perm a [] = Perm.refl (a ∷ [])
place-perm a (b ∷ bs) = elim (Bool-cases (before a b)) [
  | inl y ↦ rw y (Perm.refl (a ∷ b ∷ bs))
  | inr z ↦ rw z (Perm.trans (Perm.cons b (place-perm a bs)) (Perm.swap a b bs))
]

sort_issues-perm : (xs : List ActiveIssue) → Perm (sort_issues xs) xs
unfolding sort_issues
sort_issues-perm [] = Perm.refl []
sort_issues-perm (a ∷ rest) =
    Perm.trans (place-perm a (sort_issues rest)) (Perm.cons a (sort_issues-perm rest))

sort_issues-InOrder : (xs : List ActiveIssue) → InOrder (sort_issues xs)
unfolding sort_issues
sort_issues-InOrder [] = tt
sort_issues-InOrder (a ∷ rest) = place-InOrder a (sort_issues rest) (sort_issues-InOrder rest)

-- The severities written out, the higher first.
pub data Severer : Severity → Severity → Type 0 where
  critical_warning : Severer critical warning
  critical_advisory : Severer critical advisory
  critical_info : Severer critical info
  warning_advisory : Severer warning advisory
  warning_info : Severer warning info
  advisory_info : Severer advisory info

-- Of a higher severity, or of the same and not activated later.
abbrev pub Precedes : Severity → ℕ → Severity → ℕ → Type 0
Precedes x m y n = Severer x y ⊎ ((x ≡ y) × (m ≤ n))

-- Each issue precedes all that come after it.
abbrev pub Ranked : List ActiveIssue → Type 0
Ranked [] = Unit
Ranked (a ∷ rest) =
    All (λ b. Precedes a.severity a.activated_at b.severity b.activated_at) rest × Ranked rest

key-Precedes :
    (x y : Severity) (m n : ℕ)
    → (ltb (severity_rank y) (severity_rank x) || ((severity_rank x == severity_rank y) && leb m n))
      ≡ true
    → Precedes x m y n
unfolding severity_rank
key-Precedes critical critical m n h = inr (refl, ground (arith, h))
key-Precedes critical warning m n h = inl critical_warning
key-Precedes critical advisory m n h = inl critical_advisory
key-Precedes critical info m n h = inl critical_info
key-Precedes warning critical m n h = absurd (ground (arith, h))
key-Precedes warning warning m n h = inr (refl, ground (arith, h))
key-Precedes warning advisory m n h = inl warning_advisory
key-Precedes warning info m n h = inl warning_info
key-Precedes advisory critical m n h = absurd (ground (arith, h))
key-Precedes advisory warning m n h = absurd (ground (arith, h))
key-Precedes advisory advisory m n h = inr (refl, ground (arith, h))
key-Precedes advisory info m n h = inl advisory_info
key-Precedes info critical m n h = absurd (ground (arith, h))
key-Precedes info warning m n h = absurd (ground (arith, h))
key-Precedes info advisory m n h = absurd (ground (arith, h))
key-Precedes info info m n h = inr (refl, ground (arith, h))

before-Precedes :
    (a b : ActiveIssue)
    → before a b ≡ true
    → Precedes a.severity a.activated_at b.severity b.activated_at
unfolding before
before-Precedes a b h = key-Precedes a.severity b.severity a.activated_at b.activated_at h

InOrder-Ranked : (xs : List ActiveIssue) → InOrder xs → Ranked xs
InOrder-Ranked [] o = tt
InOrder-Ranked (a ∷ rest) o =
    (All-imp _ _ rest (λ b h. before-Precedes a b h) o.0, InOrder-Ranked rest o.1)

-- The active issues are those of the rules' runtimes, each as often. Each comes before every issue of
-- a lower severity (critical, warning, advisory, info), and before every later one of its own
-- severity.
pub active_issues_lem :
    (e : RuleEngine) → Perm (active_issues e) (issues_of e.runtime) × Ranked (active_issues e)
unfolding active_issues
active_issues_lem e = (
  sort_issues-perm (issues_of e.runtime),
  InOrder-Ranked (sort_issues (issues_of e.runtime)) (sort_issues-InOrder (issues_of e.runtime)),
)
