-- ===== src/Checklists/Engine/Guided/Open.antt =====
-- A confirmation leaves fewer items open.
use dcs_copilot.Prelude.{
  ◌≤◌, ◌<◌, String, ◌≡◌, refl, sym, ap, ◌∙◌, ◌⊎◌, inl, inr, Bool, true, false, ◌||◌, some, List, [],
  ◌∷◌, ◌++◌, arith, str_eq, eq_iff, if◌then◌else◌, Bool-cases, All,
}
use dcs_copilot.Prelude.Dict.{Dict}
use dcs_copilot.Prelude.Map.{values}
use dcs_copilot.Checklists.{
  ChecklistItemStatus, status_incomplete, status_unconfirmed, ChecklistItemResult,
}
use dcs_copilot.Checklists.Engine.{key_eq, same_status, with_status, first_of}
use dcs_copilot.Checklists.Engine.Guided.{
  is_open, open_count, Settles, Settled, none_left, one_more, Named,
}

Settles-either :
    (x k : String) (v w : ChecklistItemResult) → Settles x k v w → (is_open w ≡ false) ⊎ (w ≡ v)
Settles-either x k v w s = elim (Bool-cases (str_eq k x)) [
  | inl e ↦ inl (s.0 ((eq_iff k x).0 e))
  | inr e ↦ inr (s.1 (λ h. absurd (ground (arith, e, (eq_iff k x).1 h))))
]

-- A confirmation opens nothing.
Settled-open :
    (x : String) (m n : Dict ChecklistItemResult)
    → Settled x m n
    → open_count (values n) ≤ open_count (values m)
Settled-open x _ _ none_left = omega arith
Settled-open x _ _ (one_more {k = k} {v = v} {w = w} {m} {n} s r) =
    let rest = Settled-open x m n r in
    elim (Settles-either x k v w s) [
      | inl h ↦ ground (arith, rest, h)
      | inr h ↦ ground (arith, rest, ap is_open h)
    ]

abbrev pub In : ChecklistItemResult → List ChecklistItemResult → Type 0
In r [] = ⊥
In r (y ∷ ys) = (y ≡ r) ⊎ In r ys

pub Settled-strict :
    (x : String) (m n : Dict ChecklistItemResult)
    → Settled x m n
    → Named m
    → (r : ChecklistItemResult) → In r (values m)
    → is_open r ≡ true
    → r.id ≡ x
    → open_count (values n) < open_count (values m)
Settled-strict x _ _ none_left d r i o e = elim i [ ]
Settled-strict x _ _ (one_more {k = k} {v = v} {w = w} {m} {n} s t) d r i o e =
    let rest = Settled-open x m n t in
    elim i [
      | inl h ↦ ground (arith, rest, ap is_open h, o, s.0 (sym d.0 ∙ ap (λ q. q.id) h ∙ e))
      | inr j ↦
          let less = Settled-strict x m n t d.1 r j o e in
          elim (Settles-either x k v w s) [
            | inl h ↦ ground (arith, less, h)
            | inr h ↦ ground (arith, less, ap is_open h)
          ]
    ]

All-kept :
    (P : ChecklistItemResult → Type 0) (b : Bool) (x : ChecklistItemResult)
    (xs : List ChecklistItemResult)
    → All P (if b then x ∷ xs else xs)
    → (b ≡ true → P x) × All P xs
All-kept P true x xs h = (λ e. h.0, h.1)
All-kept P false x xs h = (λ e. absurd (ground (arith, e)), h)

In-kept :
    (b : Bool) (r x : ChecklistItemResult) (xs : List ChecklistItemResult)
    → In r (if b then x ∷ xs else xs)
    → ((b ≡ true) × (x ≡ r)) ⊎ In r xs
In-kept true r x xs (inl e) = inl (refl, e)
In-kept true r x xs (inr i) = inr i
In-kept false r x xs i = inr i

either-true : {A : Type 0} (a b : Bool) → (a ≡ true → A) → (b ≡ true → A) → (a || b) ≡ true → A
either-true true b f g h = f refl
either-true false b f g h = g h

module _ (is_blank : String → Bool) where
  -- The ids of what is open are not blank.
  abbrev pub Speakable : List ChecklistItemResult → Type 0
  Speakable rs = All (λ (r : ChecklistItemResult). is_open r ≡ true → is_blank r.id ≡ false) rs

  pub Settled-Speakable :
      (x : String) (m n : Dict ChecklistItemResult)
      → Settled x m n
      → Speakable (values m)
      → Speakable (values n)
  Settled-Speakable x _ _ none_left h = tt
  Settled-Speakable x _ _ (one_more {k = k} {v = v} {w = w} {m} {n} s t) h = (
    λ o. elim (Settles-either x k v w s) [
      | inl c ↦ absurd (ground (arith, o, c))
      | inr c ↦ ap (λ q. is_blank q.id) c ∙ h.0 (sym (ap is_open c) ∙ o)
    ],
    Settled-Speakable x m n t h.1,
  )

  pub In-Speakable :
      (r : ChecklistItemResult) (rs : List ChecklistItemResult)
      → In r rs
      → Speakable rs
      → is_open r ≡ true
      → is_blank r.id ≡ false
  In-Speakable r [] i h o = elim i [ ]
  In-Speakable r (y ∷ rs) (inl e) h o = sym (ap (λ q. is_blank q.id) e) ∙ h.0 (ap is_open e ∙ o)
  In-Speakable r (y ∷ rs) (inr i) h o = In-Speakable r rs i h.1 o

  pub unresolved-Speakable :
      (rs : List ChecklistItemResult)
      → All (λ (r : ChecklistItemResult). is_blank r.id ≡ false) (with_status status_incomplete rs)
      → All (λ (r : ChecklistItemResult). is_blank r.id ≡ false) (with_status status_unconfirmed rs)
      → Speakable rs
  unfolding with_status
  unresolved-Speakable [] a b = tt
  unresolved-Speakable (r ∷ rest) a b =
      let (p, inc) = All-kept _ (same_status r.status status_incomplete) r _ a in
      let (q, unc) = All-kept _ (same_status r.status status_unconfirmed) r _ b in
      (
        either-true (same_status r.status status_incomplete)
            (same_status r.status status_unconfirmed) p q,
        unresolved-Speakable rest inc unc,
      )

In-append :
    (r : ChecklistItemResult) (xs ys : List ChecklistItemResult)
    → In r (xs ++ ys)
    → In r xs ⊎ In r ys
In-append r [] ys i = inr i
In-append r (x ∷ xs) ys (inl e) = inl (inl e)
In-append r (x ∷ xs) ys (inr i) = elim (In-append r xs ys i) [ inl j ↦ inl (inr j) | inr j ↦ inr j ]

In-with_status :
    (r : ChecklistItemResult) (wanted : ChecklistItemStatus) (rs : List ChecklistItemResult)
    → In r (with_status wanted rs)
    → In r rs × (same_status r.status wanted ≡ true)
unfolding with_status
In-with_status r wanted [] i = elim i [ ]
In-with_status r wanted (y ∷ rs) i =
    elim (In-kept (same_status y.status wanted) r y (with_status wanted rs) i) [
      | inl (e, h) ↦
          (inl h, sym (ap (λ (q : ChecklistItemResult). same_status q.status wanted) h) ∙ e)
      | inr j ↦ let (k, h) = In-with_status r wanted rs j in (inr k, h)
    ]

first_of-In :
    (r : ChecklistItemResult) (rs : List ChecklistItemResult) → first_of rs ≡ some r → In r rs
unfolding first_of
first_of-In r [] h = absurd (ground (arith, h))
first_of-In r (y ∷ rs) h = inl (ground (arith, h))

-- The next item is open, and one of the results.
pub first_of-open :
    (r : ChecklistItemResult) (rs : List ChecklistItemResult)
    → first_of (with_status status_incomplete rs ++ with_status status_unconfirmed rs) ≡ some r
    → In r rs × (is_open r ≡ true)
first_of-open r rs h =
    elim (In-append r (with_status status_incomplete rs) (with_status status_unconfirmed rs)
      (first_of-In r _ h)) [
        | inl i ↦ let (j, s) = In-with_status r status_incomplete rs i in (j, ground (arith, s))
        | inr i ↦ let (j, s) = In-with_status r status_unconfirmed rs i in (j, ground (arith, s))
      ]
