-- ===== src/Checklists/Engine/Guided/Finish.antt =====
-- Confirming the items of a guided checklist comes to an end.
use dcs_copilot.Prelude.{
  ℕ, zero, suc, ◌≤◌, ◌<◌, String, ◌≡◌, refl, sym, ap, subst, ◌∙◌, inl, inr, Bool, true, false, not,
  none, some, List, [], ◌∷◌, ◌++◌, arith, eq_iff, Option-cases, length, All,
}
use dcs_copilot.Prelude.Dict.{Dict}
use dcs_copilot.Prelude.Map.{values}
use dcs_copilot.Prelude.Result.{Result, ok, ◌>>=◌}
use dcs_copilot.Aircraft.State.{AircraftState}
use dcs_copilot.Aircraft.History.{StateHistory}
use dcs_copilot.Checklists.{
  status_incomplete, status_unconfirmed, ChecklistStage, ChecklistDefinition, ChecklistItemResult,
  ChecklistResult,
}
use dcs_copilot.Checklists.Stages.{ChecklistError, stage_for, stage_chain}
use dcs_copilot.Checklists.Stages.Chain.{bind-ok, ok_inj}
use dcs_copilot.Checklists.Items.{is_manual}
use dcs_copilot.Checklists.Engine.{
  ChecklistEngine, key_eq, item_now, add_stages, confirm, with_status, definition_for, or_else,
  sorted_result, evaluate, unresolved, missing, first_of, next_in, next_item, confirm_current_item,
}
use dcs_copilot.Checklists.Engine.Guided.{
  is_open, open_count, open_count_lem, Settled, none_left, add_stages-Settled, Kept,
  add_stages-Named,
}
use dcs_copilot.Checklists.Engine.Guided.Confirm.{item_now-Settles, item_now-id}
use dcs_copilot.Checklists.Engine.Guided.Open.{
  Settled-strict, Speakable, Settled-Speakable, In-Speakable, unresolved-Speakable, In,
  first_of-open,
}

-- A guided checklist: where the evaluation of its stage stands.
record Guide (d : ChecklistDefinition) (stage : ChecklistStage) (chain : List ChecklistStage)
    (checklist stage_id : String) (state : AircraftState) (e : ChecklistEngine) : Type 0 where
  definition : definition_for e state (some checklist) ≡ ok d
  chosen : stage_for d (or_else (some stage_id) e.session.stage_id) ≡ ok stage
  before : stage_chain d stage ≡ ok chain
  on_checklist : e.session.checklist_id ≡ some checklist
  on_stage : e.session.stage_id ≡ some stage_id
  kept : Kept e

-- A run of confirmations, each of the next item, while the telemetry and the time stand still.
pub data Confirms (is_blank : String → Bool) (state : AircraftState) (history : StateHistory)
    (now : ℕ) : ℕ → ChecklistEngine → ChecklistEngine → Type 0 where
  no_more : {e : ChecklistEngine} → Confirms is_blank state history now 0 e e
  then_next :
      {n : ℕ} {e t : ChecklistEngine} (r : ChecklistItemResult) (overridden : Bool)
      (u : ChecklistEngine)
      → next_item e state history now ≡ ok (some r)
      → confirm_current_item is_blank r.id state history now e ≡ ok (r, overridden, u)
      → Confirms is_blank state history now n u t
      → Confirms is_blank state history now (suc n) e t

-- The run ends, with nothing left, after so many confirmations at most.
pub record Finishes (is_blank : String → Bool) (state : AircraftState) (history : StateHistory)
    (now : ℕ) (bound : ℕ) (e : ChecklistEngine) : Type 0 where
  pub rounds : ℕ
  pub last : ChecklistEngine
  pub run : Confirms is_blank state history now rounds e last
  pub done : next_item last state history now ≡ ok none
  pub short : rounds ≤ bound

module _ (is_blank : String → Bool) (d : ChecklistDefinition) (stage : ChecklistStage)
    (chain : List ChecklistStage) (checklist stage_id : String) (state : AircraftState)
    (history : StateHistory) (now : ℕ) where
  abbrev results : ChecklistEngine → Dict ChecklistItemResult
  results e = add_stages (item_now e d.id state history now) chain []

  evaluate-Guide :
      (e : ChecklistEngine)
      → Guide d stage chain checklist stage_id state e
      → evaluate e state history now (some checklist) (some stage_id)
        ≡ ok (sorted_result d stage (values (results e)))
  unfolding evaluate
  evaluate-Guide e g = rw (g.definition, g.chosen, g.before) refl

  next_item-Guide :
      (e : ChecklistEngine)
      → Guide d stage chain checklist stage_id state e
      → next_item e state history now
        ≡ ok (
            first_of (
              with_status status_incomplete (values (results e))
              ++ with_status status_unconfirmed (values (results e))))
  unfolding next_item next_in missing unresolved sorted_result
  next_item-Guide e g =
      ap (λ a. next_in e state history now a e.session.stage_id) g.on_checklist
      ∙ ap (next_in e state history now (some checklist)) g.on_stage
      ∙ ap
          (λ (m : Result ChecklistError ChecklistResult).
            (m >>= λ r. ok (unresolved r)) >>= λ rs. ok (first_of rs))
          (evaluate-Guide e g)

  confirm-Guide :
      (e : ChecklistEngine) (x : String)
      → Guide d stage chain checklist stage_id state e
      → Guide d stage chain checklist stage_id state (confirm x now e)
  unfolding confirm definition_for
  confirm-Guide e x g = record {
    definition = g.definition;
    chosen = g.chosen;
    before = g.before;
    on_checklist = g.on_checklist;
    on_stage = g.on_stage;
    kept = g.kept;
  }

  results-Settled :
      (e : ChecklistEngine) (x : String) → Settled x (results e) (results (confirm x now e))
  results-Settled e x =
      add_stages-Settled x (item_now e d.id state history now)
        (item_now (confirm x now e) d.id state history now)
        (item_now-Settles e d.id state history now x) chain [] [] none_left

  confirm_current_item-next :
      (e : ChecklistEngine) (r : ChecklistItemResult)
      → next_item e state history now ≡ ok (some r)
      → is_blank r.id ≡ false
      → confirm_current_item is_blank r.id state history now e
        ≡ ok (r, not (is_manual r.verification_type), confirm r.id now e)
  unfolding confirm_current_item
  confirm_current_item-next e r h b = rw (b, h, (eq_iff r.id r.id).1 refl) refl

  abbrev left_open : ChecklistEngine → List ChecklistItemResult
  left_open e =
      with_status status_incomplete (values (results e))
      ++ with_status status_unconfirmed (values (results e))

  confirm-strict :
      (e : ChecklistEngine) (r : ChecklistItemResult)
      → Guide d stage chain checklist stage_id state e
      → In r (values (results e))
      → is_open r ≡ true
      → open_count (values (results (confirm r.id now e))) < open_count (values (results e))
  confirm-strict e r g i o =
      let named =
        add_stages-Named (item_now e d.id state history now)
          (item_now-id e d.id state history now g.kept) chain [] tt in
      Settled-strict r.id (results e) (results (confirm r.id now e)) (results-Settled e r.id) named
        r i o refl

  continue_with :
      (e : ChecklistEngine) (r : ChecklistItemResult)
      → Guide d stage chain checklist stage_id state e
      → Speakable is_blank (values (results e))
      → first_of (left_open e) ≡ some r
      → Finishes is_blank state history now
          (open_count (values (results (confirm r.id now e))))
          (confirm r.id now e)
      → Finishes is_blank state history now (open_count (values (results e))) e
  continue_with e r g s n f =
      let (i, o) = first_of-open r (values (results e)) n in
      let next = next_item-Guide e g ∙ ap ok n in
      record {
        rounds = suc f.rounds;
        last = f.last;
        run =
            then_next r (not (is_manual r.verification_type)) (confirm r.id now e) next
              (confirm_current_item-next e r next
                (In-Speakable is_blank r (values (results e)) i s o))
              f.run;
        done = f.done;
        short = omega (arith, f.short, confirm-strict e r g i o);
      }

  finishes :
      (fuel : ℕ) (e : ChecklistEngine)
      → Guide d stage chain checklist stage_id state e
      → Speakable is_blank (values (results e))
      → open_count (values (results e)) ≤ fuel
      → Finishes is_blank state history now (open_count (values (results e))) e
  finishes zero e g s h = elim (Option-cases (first_of (left_open e))) [
    | inl n ↦ record {
      rounds = 0;
      last = e;
      run = no_more;
      done = next_item-Guide e g ∙ ap ok n;
      short = omega arith;
    }
    | inr (r, n) ↦
        let (i, o) = first_of-open r (values (results e)) n in
        absurd (omega (arith, h, confirm-strict e r g i o))
  ]
  finishes (suc fuel) e g s h = elim (Option-cases (first_of (left_open e))) [
    | inl n ↦ record {
      rounds = 0;
      last = e;
      run = no_more;
      done = next_item-Guide e g ∙ ap ok n;
      short = omega arith;
    }
    | inr (r, n) ↦
        let (i, o) = first_of-open r (values (results e)) n in
        continue_with e r g s n (
          finishes fuel (confirm r.id now e) (confirm-Guide e r.id g)
            (Settled-Speakable is_blank r.id (results e) (results (confirm r.id now e))
              (results-Settled e r.id) s)
            (omega (arith, h, confirm-strict e r g i o)))
  ]

All-append-parts :
    (P : ChecklistItemResult → Type 0) (xs ys : List ChecklistItemResult)
    → All P (xs ++ ys)
    → All P xs × All P ys
All-append-parts P [] ys h = (tt, h)
All-append-parts P (x ∷ xs) ys h = let (a, b) = All-append-parts P xs ys h.1 in ((h.0, a), b)

module _ (is_blank : String → Bool) (checklist stage_id : String) (state : AircraftState)
    (history : StateHistory) (now : ℕ) (e : ChecklistEngine) (r : ChecklistResult) where
  finish :
      (d : ChecklistDefinition) (stage : ChecklistStage) (chain : List ChecklistStage)
      → Guide d stage chain checklist stage_id state e
      → sorted_result d stage (values (add_stages (item_now e d.id state history now) chain [])) ≡ r
      → All (λ (i : ChecklistItemResult). is_blank i.id ≡ false) (unresolved r)
      → Finishes is_blank state history now (length (unresolved r)) e
  unfolding unresolved sorted_result
  finish d stage chain g q b =
      let rs = values (add_stages (item_now e d.id state history now) chain []) in
      let parts =
        All-append-parts (λ i. is_blank i.id ≡ false) (with_status status_incomplete rs)
          (with_status status_unconfirmed rs)
          (subst
            (λ (x : ChecklistResult).
              All (λ (i : ChecklistItemResult). is_blank i.id ≡ false) (unresolved x))
            (sym q) b) in
      subst (λ (x : ChecklistResult). Finishes is_blank state history now (length (unresolved x)) e)
        q
        (subst (λ n. Finishes is_blank state history now n e) (sym (open_count_lem rs))
          (finishes is_blank d stage chain checklist stage_id state history now (open_count rs) e g
            (unresolved-Speakable is_blank rs parts.0 parts.1) (omega arith)))

-- In a guided checklist whose stage is evaluated without an error, and whose unresolved items have no
-- blank id, confirming the next item again and again, at the same time and telemetry, never raises
-- and ends: after at most as many confirmations as there were unresolved items, no item is next. What
-- the engine has latched is under the ids of its items.
pub guided-Finishes :
    (is_blank : String → Bool) (checklist stage_id : String) (state : AircraftState)
    (history : StateHistory) (now : ℕ) (e : ChecklistEngine) (r : ChecklistResult)
    → e.session.checklist_id ≡ some checklist
    → e.session.stage_id ≡ some stage_id
    → Kept e
    → evaluate e state history now (some checklist) (some stage_id) ≡ ok r
    → All (λ (i : ChecklistItemResult). is_blank i.id ≡ false) (unresolved r)
    → Finishes is_blank state history now (length (unresolved r)) e
unfolding evaluate
guided-Finishes is_blank checklist stage_id state history now e r hc hs k h b =
    let (d, p, i) = bind-ok (definition_for e state (some checklist)) _ r h in
    let (stage, q, j) = bind-ok (stage_for d (or_else (some stage_id) e.session.stage_id)) _ r i in
    let (chain, c, l) = bind-ok (stage_chain d stage) _ r j in
    let g : Guide d stage chain checklist stage_id state e = record {
      definition = p;
      chosen = q;
      before = c;
      on_checklist = hc;
      on_stage = hs;
      kept = k;
    } in
    finish is_blank checklist stage_id state history now e r d stage chain g (ok_inj _ r l) b
