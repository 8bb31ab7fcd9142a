-- ===== src/Checklists/Stages/Chain.antt =====
-- What the chain of a stage holds, and in which order.
pub mod Fuel
use mathlib.Core.List.{append-nil, append_assoc}
use dcs_copilot.Prelude.{
  ◌↔◌, Never, All-imp, All-select, select-All, >>=-some, Returns, Returns-bind, Returns-some,
  >>=-assoc, ℕ, zero, suc, ◌+◌, ◌-◌, ◌*◌, ◌/◌, ◌%◌, ◌^◌, ◌≤◌, ◌<◌, String, ◌≡◌, refl, sym, ap,
  subst, ◌∙◌, ◌≢◌, ◌⊎◌, inl, inr, Bool, true, false, ◌&&◌, ◌||◌, not, Option, none, some, List, [],
  ◌∷◌, ◌++◌, map, arith, str_eq, eq_iff, ltb, leb, ◌==◌, if◌then◌else◌, ltb→lt, ltb→le, leb→le,
  ==→eq, tests, Bool-cases, Option-cases, length, length-append, get_or, take, drop, length-drop,
  all_of, any_of, select, All, All-append,
}
use dcs_copilot.Prelude.Result.{Result, ok, err, ◌>>=◌}
use dcs_copilot.Protocol.Json.{member_of}
use dcs_copilot.Checklists.{ChecklistStage, ChecklistDefinition}
use dcs_copilot.Checklists.Stages.{
  ChecklistError, cyclic_dependency, find_stage, stage_for, Search, visit_each, enter, leave, visit,
  fuel_for, no_search, stage_chain,
}

pub bind-ok :
    {A B : Type 0} (m : Result ChecklistError A) (f : A → Result ChecklistError B) (b : B)
    → (m >>= f) ≡ ok b
    → (a : A) × (m ≡ ok a) × (f a ≡ ok b)
bind-ok (ok a) f b h = (a, refl, h)
bind-ok (err e) f b h = absurd (ground (arith, h))

pub ok_inj : {A : Type 0} (a b : A) → ◌≡◌ {A = Result ChecklistError A} (ok a) (ok b) → a ≡ b
ok_inj a b h = ground (arith, h)

pub member_of-append :
    (xs ys : List String) (x : String) → member_of (xs ++ ys) x ≡ (member_of xs x || member_of ys x)
unfolding member_of
member_of-append [] ys x = refl
member_of-append (y ∷ xs) ys x = ground (arith, member_of-append xs ys x)

pub member_of-last : (xs : List String) (x : String) → member_of (xs ++ x ∷ []) x ≡ true
unfolding member_of
member_of-last xs x = ground (arith, member_of-append xs (x ∷ []) x, eq_iff x x)

pub member_of-snoc :
    (xs : List String) (y x : String)
    → member_of (xs ++ y ∷ []) x ≡ true
    → (member_of xs x ≡ true) ⊎ (y ≡ x)
unfolding member_of
member_of-snoc xs y x h = ground (arith, h, member_of-append xs (y ∷ []) x, eq_iff y x)

member_of-first :
    (xs ys : List String) (x : String) → member_of xs x ≡ true → member_of (xs ++ ys) x ≡ true
member_of-first xs ys x h = ground (arith, h, member_of-append xs ys x)

member_of-here : (x : String) (xs : List String) → member_of (x ∷ xs) x ≡ true
unfolding member_of
member_of-here x xs = ground (arith, eq_iff x x)

member_of-there :
    (y : String) (xs : List String) (x : String)
    → member_of xs x ≡ true
    → member_of (y ∷ xs) x ≡ true
unfolding member_of
member_of-there y xs x h = ground (arith, h)

-- What is taken out of a set that it was put in last.
pub select-last :
    (xs : List String) (x : String)
    → member_of xs x ≡ false
    → select (λ y. not (str_eq y x)) (xs ++ x ∷ []) ≡ xs
unfolding member_of
select-last [] x h = ground (arith, eq_iff x x)
select-last (y ∷ xs) x h = ground (arith, h, select-last xs x)

pub find_stage-id :
    (id : String) (stages : List ChecklistStage) (stage : ChecklistStage)
    → find_stage id stages ≡ ok stage
    → stage.id ≡ id
unfolding find_stage
find_stage-id id [] stage h = absurd (ground (arith, h))
find_stage-id id (first ∷ rest) stage h =
    ground (arith, h, find_stage-id id rest stage, eq_iff first.id id)

-- The ids of stages, in their order.
abbrev pub ids_of : List ChecklistStage → List String
ids_of stages = map (λ s. s.id) stages

ids_of-append : (xs ys : List ChecklistStage) → ids_of (xs ++ ys) ≡ ids_of xs ++ ids_of ys
ids_of-append [] ys = refl
ids_of-append (x ∷ xs) ys = ap (λ l. x.id ∷ l) (ids_of-append xs ys)

-- Every stage comes once, and after those that it depends on, where some come before all of them.
abbrev pub InOrder : List String → List ChecklistStage → Type 0
InOrder before [] = Unit
InOrder before (stage ∷ rest) =
    All (λ id. member_of before id ≡ true) stage.depends_on
    × (member_of before stage.id ≡ false)
    × InOrder (before ++ stage.id ∷ []) rest

InOrder-snoc :
    (before : List String) (stages : List ChecklistStage) (stage : ChecklistStage)
    → InOrder before stages
    → All (λ id. member_of (before ++ ids_of stages) id ≡ true) stage.depends_on
    → member_of (before ++ ids_of stages) stage.id ≡ false
    → InOrder before (stages ++ stage ∷ [])
InOrder-snoc before [] stage o d n =
    let e = append-nil before in
    (
      subst (λ l. All (λ id. member_of l id ≡ true) stage.depends_on) e d,
      subst (λ l. member_of l stage.id ≡ false) e n,
      tt,
    )
InOrder-snoc before (first ∷ rest) stage o d n =
    let e = sym (append_assoc before (first.id ∷ []) (ids_of rest)) in
    (
      o.0,
      o.1,
      InOrder-snoc (before ++ first.id ∷ []) rest stage o.2
          (subst (λ l. All (λ id. member_of l id ≡ true) stage.depends_on) e d)
          (subst (λ l. member_of l stage.id ≡ false) e n),
    )

-- The two ways in which a visit does not raise.
pub visit-ways :
    (d : ChecklistDefinition) (fuel : ℕ) (stage : ChecklistStage) (s t : Search)
    → visit d (suc fuel) stage s ≡ ok t
    → ((member_of s.visited stage.id ≡ true) × (s ≡ t))
      ⊎ ((member_of s.visited stage.id ≡ false)
          × (member_of s.visiting stage.id ≡ false)
          × ((visit_each d (visit d fuel) stage.depends_on (enter stage s) >>= λ u.
                ok (leave stage u))
              ≡ ok t))
unfolding visit
visit-ways d fuel stage s t h = ground (arith, h)

-- The stages that the target needs, itself among them.
pub data Needed (d : ChecklistDefinition) (target : ChecklistStage) : ChecklistStage → Type 0 where
  itself : Needed d target target
  needs :
      {stage next : ChecklistStage} (id : String)
      → Needed d target stage
      → member_of stage.depends_on id ≡ true
      → stage_for d (some id) ≡ ok next
      → Needed d target next

module _ (d : ChecklistDefinition) (target : ChecklistStage) where
  record Sound (s : Search) : Type 0 where
    ids : s.visited ≡ ids_of s.selected
    ordered : InOrder [] s.selected
    needed : All (Needed d target) s.selected

  record Extends (s t : Search) : Type 0 where
    same : t.visiting ≡ s.visiting
    grows : (x : String) → member_of s.visited x ≡ true → member_of t.visited x ≡ true
    fresh :
        (x : String)
        → member_of s.visiting x ≡ true
        → member_of t.visited x ≡ true
        → member_of s.visited x ≡ true

  Extends-refl : (s : Search) → Extends s s
  Extends-refl s = record { same = refl; grows = λ x h. h; fresh = λ x h k. k }

  Extends-trans : (s t u : Search) → Extends s t → Extends t u → Extends s u
  Extends-trans s t u p q = record {
    same = q.same ∙ p.same;
    grows = λ x h. q.grows x (p.grows x h);
    fresh = λ x h k. p.fresh x h (q.fresh x (subst (λ v. member_of v x ≡ true) (sym p.same) h) k);
  }

  -- What a visit of a stage does, when it does not raise.
  abbrev Visits : ChecklistStage → Search → Search → Type 0
  Visits stage s t = Extends s t × Sound t × (member_of t.visited stage.id ≡ true)

  visit_each-Visits :
      (go : ChecklistStage → Search → Result ChecklistError Search)
      → ((stage : ChecklistStage) (s t : Search)
          → Needed d target stage
          → Sound s
          → go stage s ≡ ok t
          → Visits stage s t)
      → (ids : List String) (s t : Search)
      → ((id : String) (next : ChecklistStage)
          → member_of ids id ≡ true
          → stage_for d (some id) ≡ ok next
          → Needed d target next)
      → Sound s
      → visit_each d go ids s ≡ ok t
      → Extends s t × Sound t × All (λ id. member_of t.visited id ≡ true) ids
  unfolding visit_each
  visit_each-Visits go visits [] s t reach i h = rw (sym (ok_inj s t h)) (Extends-refl s, i, tt)
  visit_each-Visits go visits (id ∷ rest) s t reach i h =
      let (stage, e, k) =
        bind-ok (stage_for d (some id)) (λ n. go n s >>= visit_each d go rest) t h in
      let (u, f, l) = bind-ok (go stage s) (visit_each d go rest) t k in
      let (p, j, m) = visits stage s u (reach id stage (member_of-here id rest) e) i f in
      let (q, n, a) =
        visit_each-Visits go visits rest u t
          (λ x next b g. reach x next (member_of-there id rest x b) g) j l in
      (
        Extends-trans s u t p q,
        n,
        (
          q.grows id
              (subst (λ x. member_of u.visited x ≡ true) (find_stage-id id d.stages stage e) m),
          a,
        ),
      )

  leave-Visits :
      (stage : ChecklistStage) (s u : Search)
      → Needed d target stage
      → member_of s.visited stage.id ≡ false
      → member_of s.visiting stage.id ≡ false
      → Extends (enter stage s) u
      → Sound u
      → All (λ id. member_of u.visited id ≡ true) stage.depends_on
      → Visits stage s (leave stage u)
  unfolding enter leave
  leave-Visits stage s u n a b p i deps =
      let back : select (λ id. not (str_eq id stage.id)) u.visiting ≡ s.visiting =
        rw p.same (select-last s.visiting stage.id b) in
      let new : member_of u.visited stage.id ≡ false =
        elim (Bool-cases (member_of u.visited stage.id)) [
          | inl e ↦
              absurd (ground (arith, a, p.fresh stage.id (member_of-last s.visiting stage.id) e))
          | inr e ↦ e
        ] in
      (
        record {
          same = back;
          grows = λ x h. member_of-first u.visited (stage.id ∷ []) x (p.grows x h);
          fresh = λ x h k. elim (member_of-snoc u.visited stage.id x k) [
            | inl m ↦ p.fresh x (member_of-first s.visiting (stage.id ∷ []) x h) m
            | inr e ↦ absurd (ground (arith, b, h, e))
          ];
        },
        record {
          ids = ap (λ l. l ++ stage.id ∷ []) i.ids ∙ sym (ids_of-append u.selected (stage ∷ []));
          ordered =
              InOrder-snoc [] u.selected stage i.ordered
                (subst (λ l. All (λ id. member_of l id ≡ true) stage.depends_on) i.ids deps)
                (subst (λ l. member_of l stage.id ≡ false) i.ids new);
          needed = All-append (Needed d target) u.selected (stage ∷ []) i.needed (n, tt);
        },
        member_of-last u.visited stage.id,
      )

  enter-Sound : (stage : ChecklistStage) (s : Search) → Sound s → Sound (enter stage s)
  unfolding enter
  enter-Sound stage s i = record { ids = i.ids; ordered = i.ordered; needed = i.needed }

  visit-Visits :
      (fuel : ℕ) (stage : ChecklistStage) (s t : Search)
      → Needed d target stage
      → Sound s
      → visit d fuel stage s ≡ ok t
      → Visits stage s t
  unfolding visit
  visit-Visits zero stage s t n i h = absurd (ground (arith, h))
  visit-Visits (suc fuel) stage s t n i h = elim (visit-ways d fuel stage s t h) [
    | inl (m, e) ↦ rw (sym e) (Extends-refl s, i, m)
    | inr (a, b, k) ↦
        let (u, e, l) =
          bind-ok (visit_each d (visit d fuel) stage.depends_on (enter stage s))
            (λ u. ok (leave stage u)) t k in
        let (p, j, deps) =
          visit_each-Visits (visit d fuel) (visit-Visits fuel) stage.depends_on (enter stage s) u
            (λ id next m g. needs id n m g) (enter-Sound stage s i) e in
        subst (Visits stage s) (ok_inj (leave stage u) t l) (leave-Visits stage s u n a b p j deps)
  ]

-- A chain of the stage: complete, without more, and in order.
pub record IsChain (d : ChecklistDefinition) (target : ChecklistStage) (chain : List ChecklistStage)
    : Type 0 where
  pub ordered : InOrder [] chain
  pub needed : All (Needed d target) chain
  pub holds_target : member_of (ids_of chain) target.id ≡ true

-- When a stage's chain is found, it holds this stage; it holds only this stage and stages that are
-- needed for it, by one step or several; and each of them comes once, after all the stages that it
-- depends on.
pub stage_chain-IsChain :
    (d : ChecklistDefinition) (target : ChecklistStage) (chain : List ChecklistStage)
    → stage_chain d target ≡ ok chain
    → IsChain d target chain
unfolding stage_chain
stage_chain-IsChain d target chain h =
    let (s, e, k) = bind-ok (visit d (fuel_for d) target no_search) (λ s. ok s.selected) chain h in
    let (p, i, m) =
      visit-Visits d target (fuel_for d) target no_search s itself
        (record { ids = refl; ordered = tt; needed = tt }) e in
    subst (IsChain d target) (ok_inj s.selected chain k) (record {
      ordered = i.ordered;
      needed = i.needed;
      holds_target = subst (λ l. member_of l target.id ≡ true) i.ids m;
    })
