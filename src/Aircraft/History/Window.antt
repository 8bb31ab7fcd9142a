-- ===== src/Aircraft/History/Window.antt =====
-- The history is in order of time and holds exactly the changes of the retention window.
use dcs_copilot.Prelude.{
  ℕ, ◌+◌, ◌≤◌, String, ◌≡◌, refl, sym, ap, ◌∙◌, inl, inr, Bool, true, not, Option, none, some, List,
  [], ◌∷◌, ◌++◌, arith, ltb, Bool-cases, any_of, select, All, All-append, All-imp, All-select,
  select-All,
}
use dcs_copilot.Prelude.Dict.{Dict, lookup}
use dcs_copilot.Aircraft.Value.{Value, is_nothing}
use dcs_copilot.Aircraft.State.{AircraftState, TelemetryValue, current_value}
use dcs_copilot.Aircraft.History.{
  StateTransition, StateHistory, meaningfully_changed, record_field, record_fields, append_missing,
  same_transition, drop_stale, prune, record_state, record_known,
}
use mathlib.Core.List.{append_assoc, append-nil}

abbrev pub Ordered : List StateTransition → Type 0
Ordered [] = Unit
Ordered (t ∷ ts) = All (λ u. t.timestamp ≤ u.timestamp) ts × Ordered ts

-- The clock has reached `now`.
abbrev pub UpTo : ℕ → List StateTransition → Type 0
UpTo now = All (λ t. t.timestamp ≤ now)

abbrev pub At : ℕ → List StateTransition → Type 0
At now = All (λ t. t.timestamp ≡ now)

-- Within the retention window at `now`.
abbrev pub recent : ℕ → ℕ → StateTransition → Bool
recent retention now t = not (ltb (t.timestamp + retention) now)

-- A list that grows at its end by changes stamped `now`.
abbrev Grows : ℕ → List StateTransition → List StateTransition → Type 0
Grows now ts us = (new : List StateTransition) × (us ≡ ts ++ new) × At now new

grow_refl : (now : ℕ) (ts : List StateTransition) → Grows now ts ts
grow_refl now ts = ([], sym (append-nil ts), tt)

grow_one :
    (now : ℕ) (ts : List StateTransition) (t : StateTransition)
    → t.timestamp ≡ now
    → Grows now ts (ts ++ t ∷ [])
grow_one now ts t e = (t ∷ [], refl, (e, tt))

grow_trans :
    (now : ℕ) (ts us vs : List StateTransition)
    → Grows now ts us
    → Grows now us vs
    → Grows now ts vs
grow_trans now ts us vs (a, e, h) (b, f, k) =
    (a ++ b, rw (f, e) (append_assoc ts a b), All-append _ a b h k)

-- What one pass over the telemetry leaves of the history, and what it has added.
abbrev Passed : ℕ → StateHistory → StateHistory × List StateTransition → Type 0
Passed now h r =
    Grows now h.transitions r.0.transitions
    × At now r.1
    × (r.0.retention_seconds ≡ h.retention_seconds)

record_known-Passed :
    (now : ℕ) (h : StateHistory) (added : List StateTransition) (name : String) (v : Value)
    (o : Option Value)
    → At now added
    → Passed now h (record_known now h added name v o)
unfolding record_known
record_known-Passed now h added name v none a = elim (Bool-cases (is_nothing v)) [
  | inl e ↦ rw e (grow_refl now h.transitions, a, refl)
  | inr e ↦ rw e (grow_refl now h.transitions, All-append _ added _ a (refl, tt), refl)
]
record_known-Passed now h added name v (some previous) a =
    elim (Bool-cases (meaningfully_changed h name previous v)) [
      | inl e ↦ rw e (grow_one now h.transitions _ refl, All-append _ added _ a (refl, tt), refl)
      | inr e ↦ rw e (grow_refl now h.transitions, a, refl)
    ]

record_fields-Passed :
    (now : ℕ) (h : StateHistory) (added : List StateTransition) (items : Dict TelemetryValue)
    → At now added
    → Passed now h (record_fields now (h, added) items)
unfolding record_fields record_field
record_fields-Passed now h added [] a = (grow_refl now h.transitions, a, refl)
record_fields-Passed now h added ((name, tv) ∷ items) a =
    let r = record_known now h added name (current_value tv) (lookup name h.last) in
    let one = record_known-Passed now h added name (current_value tv) (lookup name h.last) a in
    let rest = record_fields-Passed now r.0 r.1 items one.1 in
    (grow_trans now _ _ _ one.0 rest.0, rest.1, rest.2 ∙ one.2)

append_missing-Grows :
    (now : ℕ) (kept added : List StateTransition)
    → At now added
    → Grows now kept (append_missing kept added)
unfolding append_missing
append_missing-Grows now kept [] a = grow_refl now kept
append_missing-Grows now kept (t ∷ added) a = elim (Bool-cases (any_of (same_transition t) kept)) [
  | inl e ↦ rw e (append_missing-Grows now kept added a.1)
  | inr e ↦ rw e (
      grow_trans now kept (kept ++ t ∷ []) _ (grow_one now kept t a.0)
        (append_missing-Grows now (kept ++ t ∷ []) added a.1))
]

Ordered-append :
    (now : ℕ) (ts new : List StateTransition)
    → Ordered ts
    → UpTo now ts
    → At now new
    → Ordered (ts ++ new) × UpTo now (ts ++ new)
Ordered-append now [] [] o u a = (tt, tt)
Ordered-append now [] (t ∷ new) o u a =
    let rest = Ordered-append now [] new tt tt a.1 in
    ((All-imp _ _ new (λ x e. omega arith) a.1, rest.0), (omega (arith, a.0), rest.1))
Ordered-append now (t ∷ ts) new o u a =
    let rest = Ordered-append now ts new o.1 u.1 a in
    (
      (All-append _ ts new o.0 (All-imp _ _ new (λ x e. omega (arith, u.0)) a), rest.0),
      (u.0, rest.1),
    )

UpTo-mono : (m n : ℕ) (ts : List StateTransition) → m ≤ n → UpTo m ts → UpTo n ts
UpTo-mono m n [] h u = tt
UpTo-mono m n (t ∷ ts) h u = (omega (arith, u.0), UpTo-mono m n ts h u.1)

-- While the list is in order of time, dropping from its front removes all that is stale.
All-recent :
    (r now : ℕ) (t : StateTransition) (ts : List StateTransition)
    → recent r now t ≡ true
    → All (λ u. t.timestamp ≤ u.timestamp) ts
    → select (recent r now) ts ≡ ts
All-recent r now t [] e h = refl
All-recent r now t (u ∷ us) e h =
    let young : recent r now u ≡ true = ground (arith, h.0) in
    rw young (ap (λ l. u ∷ l) (All-recent r now t us e h.1))

drop_stale-select :
    (r now : ℕ) (ts : List StateTransition)
    → Ordered ts
    → drop_stale r now ts ≡ select (recent r now) ts
unfolding drop_stale
drop_stale-select r now [] o = refl
drop_stale-select r now (t ∷ ts) o = elim (Bool-cases (ltb (t.timestamp + r) now)) [
  | inl e ↦ rw e (drop_stale-select r now ts o.1)
  | inr e ↦ rw e (ap (λ l. t ∷ l) (sym (All-recent r now t ts (rw e) o.0)))
]

select-append :
    (p : StateTransition → Bool) (xs ys : List StateTransition)
    → select p (xs ++ ys) ≡ select p xs ++ select p ys
select-append p [] ys = refl
select-append p (x ∷ xs) ys = elim (Bool-cases (p x)) [
  | inl e ↦ rw e (ap (λ l. x ∷ l) (select-append p xs ys))
  | inr e ↦ rw e (select-append p xs ys)
]

select-At : (r now : ℕ) (new : List StateTransition) → At now new → select (recent r now) new ≡ new
select-At r now [] a = refl
select-At r now (t ∷ new) a =
    let young : recent r now t ≡ true = ground (arith, a.0) in
    rw young (ap (λ l. t ∷ l) (select-At r now new a.1))

Ordered-select :
    (p : StateTransition → Bool) (ts : List StateTransition) → Ordered ts → Ordered (select p ts)
Ordered-select p [] o = tt
Ordered-select p (t ∷ ts) o = elim (Bool-cases (p t)) [
  | inl e ↦ rw e (All-select _ p ts o.0, Ordered-select p ts o.1)
  | inr e ↦ rw e (Ordered-select p ts o.1)
]

-- A pass at a later time finds an ordered history whose clock has not passed `now`. Then the
-- transitions kept are exactly the old ones that are still in the retention window, in their order,
-- followed by new ones stamped `now`.
pub record_state-window :
    (h : StateHistory) (state : AircraftState) (now : ℕ)
    → Ordered h.transitions
    → UpTo now h.transitions
    → (new : List StateTransition) × ((record_state h state now).0.transitions
        ≡ select (recent h.retention_seconds now) h.transitions ++ new)
      × At now new
unfolding record_state prune
record_state-window h state now o u =
    let r = record_fields now (h, []) state.telemetry in
    let passed = record_fields-Passed now h [] state.telemetry tt in
    let grown =
      grow_trans now _ _ _ passed.0 (append_missing-Grows now r.0.transitions r.1 passed.1) in
    let order = Ordered-append now h.transitions grown.0 o u grown.2 in
    (
      grown.0,
      rw (grown.1, passed.2)
          (drop_stale-select h.retention_seconds now (h.transitions ++ grown.0) order.0
            ∙ select-append _ h.transitions grown.0
            ∙ ap (λ l. select (recent h.retention_seconds now) h.transitions ++ l)
                (select-At h.retention_seconds now grown.0 grown.2)),
      grown.2,
    )

-- After any pass over the telemetry an ordered history is ordered again, its clock is at `now`, and
-- no transition in it is older than the retention time.
pub record_state-Ordered :
    (h : StateHistory) (state : AircraftState) (now : ℕ)
    → Ordered h.transitions
    → UpTo now h.transitions
    → let ts = (record_state h state now).0.transitions in
      Ordered ts × UpTo now ts × All (λ t. now ≤ t.timestamp + h.retention_seconds) ts
record_state-Ordered h state now o u =
    let (new, e, a) = record_state-window h state now o u in
    let p = recent h.retention_seconds now in
    let kept = select p h.transitions in
    let order =
      Ordered-append now kept new (Ordered-select p h.transitions o)
        (All-select _ p h.transitions u) a in
    rw e (
      order.0,
      order.1,
      All-append _ kept new
          (All-imp _ _ kept (λ t y. ground (arith, y)) (select-All p h.transitions))
          (All-imp _ _ new (λ t y. omega arith) a),
    )
