-- ===== src/Checklists/Engine/Guided.antt =====
-- How a guided checklist proceeds when the pilot confirms one item after the other.
pub mod Confirm
pub mod Open
pub mod Finish
use dcs_copilot.Prelude.{
  ◌↔◌, Never, All-imp, All-select, select-All, >>=-some, Returns, Returns-bind, Returns-some, ◌>>=◌,
  >>=-assoc, ℕ, zero, suc, ◌+◌, ◌-◌, ◌*◌, ◌/◌, ◌%◌, ◌^◌, ◌≤◌, ◌<◌, String, ◌≡◌, refl, sym, ap,
  subst, ◌∙◌, ◌≢◌, ◌⊎◌, inl, inr, Bool, true, false, ◌&&◌, ◌||◌, not, Option, none, some, List, [],
  ◌∷◌, ◌++◌, map, arith, str_eq, eq_iff, ltb, leb, ◌==◌, if◌then◌else◌, ltb→lt, ltb→le, leb→le,
  ==→eq, tests, Bool-cases, Option-cases, length, length-append, get_or, take, drop, length-drop,
  all_of, any_of, select, All, All-append,
}
use dcs_copilot.Prelude.Dict.{Dict, lookup, insert, lookup-insert}
use dcs_copilot.Prelude.Map.{Map, values}
use dcs_copilot.Prelude.Map
use dcs_copilot.Aircraft.State.{AircraftState}
use dcs_copilot.Aircraft.History.{StateHistory}
use dcs_copilot.Checklists.{
  ChecklistItemStatus, status_complete, status_incomplete, status_unconfirmed,
  status_not_applicable, VerificationType, by_state, by_action, by_derived, by_manual,
  ChecklistItem, ChecklistStage, ChecklistItemResult,
}
use dcs_copilot.Checklists.Items.{evaluate_item, pilot_confirmed_result, item_result}
use dcs_copilot.Checklists.Engine.{
  ChecklistEngine, Key, item_now, add_items, add_stages, confirm, same_status, with_status,
  is_empty,
}

-- Not yet complete, although it applies.
abbrev pub is_open : ChecklistItemResult → Bool
is_open r = same_status r.status status_incomplete || same_status r.status status_unconfirmed

abbrev pub open_count : List ChecklistItemResult → ℕ
open_count [] = 0
open_count (r ∷ rest) = if is_open r then suc (open_count rest) else open_count rest

closed_either :
    (s : ChecklistItemStatus)
    → same_status s status_incomplete ≡ true
    → same_status s status_unconfirmed ≡ false
unfolding same_status
closed_either status_complete h = refl
closed_either status_incomplete h = refl
closed_either status_unconfirmed h = absurd (ground (arith, h))
closed_either status_not_applicable h = refl

open_count-sum :
    (rs : List ChecklistItemResult)
    → length (with_status status_incomplete rs) + length (with_status status_unconfirmed rs)
      ≡ open_count rs
unfolding with_status
open_count-sum [] = omega arith
open_count-sum (r ∷ rest) = ground (arith, open_count-sum rest, closed_either r.status)

pub open_count_lem :
    (rs : List ChecklistItemResult)
    → length (with_status status_incomplete rs ++ with_status status_unconfirmed rs) ≡ open_count rs
open_count_lem rs =
    length-append (with_status status_incomplete rs) (with_status status_unconfirmed rs)
    ∙ open_count-sum rs

-- What a confirmation of one id does to a result under a key.
abbrev pub Settles : String → String → ChecklistItemResult → ChecklistItemResult → Type 0
Settles x k v w = ((k ≡ x) → is_open w ≡ false) × ((k ≢ x) → w ≡ v)

pub data Settled (x : String) : Dict ChecklistItemResult → Dict ChecklistItemResult → Type 0 where
  none_left : Settled x [] []
  one_more :
      {k : String} {v w : ChecklistItemResult} {m n : Dict ChecklistItemResult}
      → Settles x k v w
      → Settled x m n
      → Settled x ((k, v) ∷ m) ((k, w) ∷ n)

Settled-insert :
    (x k : String) (v w : ChecklistItemResult) (m n : Dict ChecklistItemResult)
    → Settles x k v w
    → Settled x m n
    → Settled x (insert k v m) (insert k w n)
unfolding insert
Settled-insert x k v w _ _ s none_left = one_more s none_left
Settled-insert x k v w _ _ s (one_more {k = j} {v = a} {w = b} {m} {n} t r) =
    elim (Bool-cases (str_eq j k)) [
      | inl e ↦ rw e (one_more (subst (λ i. Settles x i v w) (sym ((eq_iff j k).0 e)) s) r)
      | inr e ↦ rw e (one_more t (Settled-insert x k v w m n s r))
    ]

module _ (x : String) (old new : ChecklistItem → ChecklistItemResult)
    (settles : (item : ChecklistItem) → Settles x item.id (old item) (new item)) where
  add_items-Settled :
      (items : List ChecklistItem) (m n : Dict ChecklistItemResult)
      → Settled x m n
      → Settled x (add_items old items m) (add_items new items n)
  unfolding add_items
  add_items-Settled [] m n r = r
  add_items-Settled (item ∷ rest) m n r =
      add_items-Settled rest _ _
        (Settled-insert x item.id (old item) (new item) m n (settles item) r)

  pub add_stages-Settled :
      (stages : List ChecklistStage) (m n : Dict ChecklistItemResult)
      → Settled x m n
      → Settled x (add_stages old stages m) (add_stages new stages n)
  unfolding add_stages
  add_stages-Settled [] m n r = r
  add_stages-Settled (stage ∷ rest) m n r =
      add_stages-Settled rest _ _ (add_items-Settled stage.items m n r)

-- The results that were latched carry the ids of their items.
abbrev pub Kept : ChecklistEngine → Type 0
Kept e = All (λ (entry : Key × ChecklistItemResult). entry.1.id ≡ entry.0.1) e.latched

-- The results of a dictionary carry the ids that they are under.
abbrev pub Named : Dict ChecklistItemResult → Type 0
Named m = All (λ (entry : String × ChecklistItemResult). entry.1.id ≡ entry.0) m

insert-Named :
    (k : String) (v : ChecklistItemResult) (m : Dict ChecklistItemResult)
    → v.id ≡ k
    → Named m
    → Named (insert k v m)
unfolding insert
insert-Named k v [] e h = (e, tt)
insert-Named k v ((j, w) ∷ m) e h = elim (Bool-cases (str_eq j k)) [
  | inl i ↦ rw i (e ∙ sym ((eq_iff j k).0 i), h.1)
  | inr i ↦ rw i (h.0, insert-Named k v m e h.1)
]

module _ (judge : ChecklistItem → ChecklistItemResult)
    (named : (item : ChecklistItem) → (judge item).id ≡ item.id) where
  add_items-Named :
      (items : List ChecklistItem) (m : Dict ChecklistItemResult)
      → Named m
      → Named (add_items judge items m)
  unfolding add_items
  add_items-Named [] m h = h
  add_items-Named (item ∷ rest) m h =
      add_items-Named rest _ (insert-Named item.id (judge item) m (named item) h)

  pub add_stages-Named :
      (stages : List ChecklistStage) (m : Dict ChecklistItemResult)
      → Named m
      → Named (add_stages judge stages m)
  unfolding add_stages
  add_stages-Named [] m h = h
  add_stages-Named (stage ∷ rest) m h = add_stages-Named rest _ (add_items-Named stage.items m h)
