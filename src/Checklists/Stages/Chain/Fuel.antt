-- ===== src/Checklists/Stages/Chain/Fuel.antt =====
-- The fuel of a stage's chain is enough.
use dcs_copilot.Prelude.{
  ℕ, zero, suc, ◌≤◌, ◌<◌, String, ◌≡◌, refl, sym, ap, subst, ◌∙◌, ◌≢◌, inl, inr, false, not, some,
  List, [], ◌∷◌, ◌++◌, arith, str_eq, eq_iff, if◌then◌else◌, length, select,
}
use dcs_copilot.Prelude.Result.{Result, ok, err, ◌>>=◌}
use dcs_copilot.Protocol.Json.{member_of}
use dcs_copilot.Checklists.{ChecklistStage, ChecklistDefinition}
use dcs_copilot.Checklists.Stages.{
  ChecklistError, out_of_fuel, find_stage, stage_for, Search, visit_each, enter, leave, visit,
  fuel_for, no_search, stage_chain,
}
use dcs_copilot.Checklists.Stages.Chain.{
  visit-ways, bind-ok, ok_inj, member_of-append, member_of-last, select-last, find_stage-id,
}

-- How many stages are not being visited.
abbrev room : List ChecklistStage → List String → ℕ
room [] v = 0
room (stage ∷ rest) v = if member_of v stage.id then room rest v else suc (room rest v)

room-le :
    (stages : List ChecklistStage) (v : List String) (x : String)
    → room stages (v ++ x ∷ []) ≤ room stages v
room-le [] v x = omega arith
room-le (stage ∷ rest) v x = ground (arith, room-le rest v x, member_of-append v (x ∷ []) stage.id)

room-lt :
    (stages : List ChecklistStage) (v : List String) (x : String) (stage : ChecklistStage)
    → member_of v x ≡ false
    → find_stage x stages ≡ ok stage
    → room stages (v ++ x ∷ []) < room stages v
unfolding find_stage
room-lt [] v x stage n h = absurd (ground (arith, h))
room-lt (first ∷ rest) v x stage n h = ground (
  arith,
  room-lt rest v x stage n,
  room-le rest v x,
  member_of-append v (x ∷ []) first.id,
  member_of-last v x,
  eq_iff first.id x,
  h,
  n,
)

room-length : (stages : List ChecklistStage) (v : List String) → room stages v ≤ length stages
room-length [] v = omega arith
room-length (stage ∷ rest) v = ground (arith, room-length rest v)

abbrev Answers : {A : Type 0} → Result ChecklistError A → Type 0
Answers r = r ≢ err out_of_fuel

bind-Answers :
    {A B : Type 0} (m : Result ChecklistError A) (f : A → Result ChecklistError B)
    → Answers m
    → ((a : A) → m ≡ ok a → Answers (f a))
    → Answers (m >>= f)
bind-Answers (ok a) f h k = k a refl
bind-Answers (err e) f h k = λ x. h (ground (arith, x))

find_stage-Answers : (id : String) (stages : List ChecklistStage) → Answers (find_stage id stages)
unfolding find_stage
find_stage-Answers id [] = λ h. absurd (ground (arith, h))
find_stage-Answers id (stage ∷ rest) = ground (arith, find_stage-Answers id rest)

module _ (d : ChecklistDefinition) where
  visit_each-same :
      (go : ChecklistStage → Search → Result ChecklistError Search)
      → ((stage : ChecklistStage) (s t : Search) → go stage s ≡ ok t → t.visiting ≡ s.visiting)
      → (ids : List String) (s t : Search) → visit_each d go ids s ≡ ok t
      → t.visiting ≡ s.visiting
  unfolding visit_each
  visit_each-same go same [] s t h = ap (λ u. u.visiting) (sym (ok_inj s t h))
  visit_each-same go same (id ∷ rest) s t h =
      let (stage, e, k) =
        bind-ok (stage_for d (some id)) (λ n. go n s >>= visit_each d go rest) t h in
      let (u, f, l) = bind-ok (go stage s) (visit_each d go rest) t k in
      visit_each-same go same rest u t l ∙ same stage s u f

  visit-same :
      (fuel : ℕ) (stage : ChecklistStage) (s t : Search)
      → visit d fuel stage s ≡ ok t
      → t.visiting ≡ s.visiting
  unfolding visit enter leave
  visit-same zero stage s t h = absurd (ground (arith, h))
  visit-same (suc fuel) stage s t h = elim (visit-ways d fuel stage s t h) [
    | inl (m, e) ↦ ap (λ u. u.visiting) (sym e)
    | inr (a, b, k) ↦
        let (u, e, l) =
          bind-ok (visit_each d (visit d fuel) stage.depends_on (enter stage s))
            (λ u. ok (leave stage u)) t k in
        ap (λ u. u.visiting) (sym (ok_inj (leave stage u) t l))
        ∙ ap (select (λ id. not (str_eq id stage.id)))
            (visit_each-same (visit d fuel) (visit-same fuel) stage.depends_on (enter stage s) u e)
        ∙ select-last s.visiting stage.id b
  ]

  -- What is asked of the visits of the dependencies.
  visit_each-Answers :
      (go : ChecklistStage → Search → Result ChecklistError Search) (v : List String)
      → ((stage : ChecklistStage) (s t : Search) → go stage s ≡ ok t → t.visiting ≡ s.visiting)
      → ((stage : ChecklistStage) (s : Search)
          → find_stage stage.id d.stages ≡ ok stage
          → s.visiting ≡ v
          → Answers (go stage s))
      → (ids : List String) (s : Search) → s.visiting ≡ v
      → Answers (visit_each d go ids s)
  unfolding visit_each stage_for
  visit_each-Answers go v same good [] s e = λ h. absurd (ground (arith, h))
  visit_each-Answers go v same good (id ∷ rest) s e =
      bind-Answers (find_stage id d.stages) _ (find_stage-Answers id d.stages) λ stage f.
        bind-Answers (go stage s) _
          (good stage s
            (subst (λ i. find_stage i d.stages ≡ ok stage) (sym (find_stage-id id d.stages stage f))
              f)
            e)
          λ t g. visit_each-Answers go v same good rest t (same stage s t g ∙ e)

  -- The visit of a stage, if those of its dependencies do not run out of fuel.
  visit-Answers :
      (fuel : ℕ) (stage : ChecklistStage) (s : Search)
      → (member_of s.visiting stage.id ≡ false
          → (next : ChecklistStage) (t : Search) → find_stage next.id d.stages ≡ ok next
          → t.visiting ≡ s.visiting ++ stage.id ∷ []
          → Answers (visit d fuel next t))
      → Answers (visit d (suc fuel) stage s)
  unfolding visit enter
  visit-Answers fuel stage s good =
      let below : member_of s.visiting stage.id ≡ false
          → Answers (
              visit_each d (visit d fuel) stage.depends_on (enter stage s) >>= λ u.
              ok (leave stage u)) =
        λ n.
          bind-Answers (visit_each d (visit d fuel) stage.depends_on (enter stage s)) _
            (visit_each-Answers (visit d fuel) (s.visiting ++ stage.id ∷ []) (visit-same fuel)
              (good n) stage.depends_on (enter stage s) refl)
            (λ u e h. absurd (ground (arith, h))) in
      ground (arith, below)

  known-Answers :
      (fuel : ℕ) (stage : ChecklistStage) (s : Search)
      → find_stage stage.id d.stages ≡ ok stage
      → room d.stages s.visiting < fuel
      → Answers (visit d fuel stage s)
  known-Answers zero stage s f h = absurd (omega (arith, h))
  known-Answers (suc fuel) stage s f h = visit-Answers fuel stage s λ n next t g e.
      known-Answers fuel next t g
        (rw e (omega (arith, h, room-lt d.stages s.visiting stage.id stage n f)))

-- The chain of a stage is found, or an error of the definition is raised: the fuel never runs out,
-- whatever the dependencies are, cyclic ones included, and whether or not the stage is one of the
-- definition's.
pub stage_chain-ends :
    (d : ChecklistDefinition) (target : ChecklistStage) → stage_chain d target ≢ err out_of_fuel
unfolding stage_chain
stage_chain-ends d target =
    bind-Answers (visit d (fuel_for d) target no_search) _
      (visit-Answers d (suc (length d.stages)) target no_search λ n next t g e.
        known-Answers d (suc (length d.stages)) next t g
          (rw e (omega (arith, room-length d.stages (target.id ∷ [])))))
      (λ s e h. absurd (ground (arith, h)))
