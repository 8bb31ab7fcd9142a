-- ===== src/Habits/Counts.antt =====
-- What a flight summary counts.
use dcs_copilot.Prelude.{
  ℕ, ◌+◌, String, ◌≡◌, ap, ◌∙◌, Bool, true, false, ◌&&◌, Option, none, some, List, [], ◌∷◌, arith,
  str_eq, eq_iff, if◌then◌else◌,
}
use dcs_copilot.Prelude.Dict.{Dict, lookup, insert, lookup-insert}
use dcs_copilot.Rules.Base.{RuleTransition}
use dcs_copilot.Rules.Engine.{member_of}
use dcs_copilot.Habits.{
  FlightStatsManager, FlightSummary, is_activated, same_name, count_of, counts_of, on_transition,
  new_summary, finished, finish_flight, finish,
}

-- The transitions of a list that activate a rule.
abbrev pub fired : String → List RuleTransition → ℕ
fired id [] = 0
fired id (t ∷ ts) =
    (if is_activated t.kind && str_eq t.issue.rule_id id then 1 else 0) + fired id ts

abbrev pub run : FlightStatsManager → List RuleTransition → FlightStatsManager
run m [] = m
run m (t ∷ ts) = run (on_transition m t) ts

-- A flight that covers a rule.
abbrev pub Covers : String → FlightStatsManager → Type 0
Covers id m = (same_name m.aircraft none ≡ false) × (member_of id m.covered ≡ true)

count_of-insert :
    (id k : String) (n : ℕ) (c : Dict ℕ)
    → count_of (insert k n c) id ≡ (if str_eq k id then n else count_of c id)
unfolding count_of
count_of-insert id k n c = ground (arith, eq_iff k id, lookup-insert k id n c)

on_transition-Covers :
    (id : String) (m : FlightStatsManager) (t : RuleTransition)
    → Covers id m
    → Covers id (on_transition m t)
unfolding on_transition
on_transition-Covers id m t h = ground arith

on_transition-count :
    (id : String) (m : FlightStatsManager) (t : RuleTransition)
    → Covers id m
    → count_of (on_transition m t).activations id ≡ count_of m.activations id + fired id (t ∷ [])
unfolding on_transition
on_transition-count id m t h = ground (
  arith,
  h,
  eq_iff t.issue.rule_id id,
  count_of-insert id t.issue.rule_id (count_of m.activations t.issue.rule_id + 1) m.activations,
)

run-count :
    (id : String) (ts : List RuleTransition) (m : FlightStatsManager)
    → Covers id m
    → count_of (run m ts).activations id ≡ count_of m.activations id + fired id ts
run-count id [] m h = omega arith
run-count id (t ∷ ts) m h = omega (
  arith,
  run-count id ts (on_transition m t) (on_transition-Covers id m t h),
  on_transition-count id m t h,
)

run-Covers :
    (id : String) (ts : List RuleTransition) (m : FlightStatsManager)
    → Covers id m
    → Covers id (run m ts)
run-Covers id [] m h = h
run-Covers id (t ∷ ts) m h = run-Covers id ts (on_transition m t) (on_transition-Covers id m t h)

lookup-counts_of :
    (id : String) (c : Dict ℕ) (ids : List String)
    → member_of id ids ≡ true
    → lookup id (counts_of c ids) ≡ some (count_of c id)
unfolding lookup counts_of member_of
lookup-counts_of id c [] h = cc
lookup-counts_of id c (x ∷ xs) h = ground (arith, eq_iff x id, lookup-counts_of id c xs)

module _ (uuid : String → Bool) (stripped : String → String) where
  finish_flight-counts :
      (m n : FlightStatsManager) (fresh : String) (a : Option String) (s : FlightSummary)
      → finish_flight uuid stripped m fresh a ≡ (some (some s), n)
      → s.rule_activations ≡ counts_of m.activations m.covered
  unfolding finish_flight finished new_summary
  finish_flight-counts m n fresh a s h = ground arith

  -- While a flight goes on, any transitions arrive. The summary that `finish` then makes holds, for
  -- each rule covered from the start, the count at the start plus the number of those transitions
  -- that activate the rule.
  pub finish-counts :
      (m n : FlightStatsManager) (ts : List RuleTransition) (fresh id : String) (s : FlightSummary)
      → Covers id m
      → finish uuid stripped (run m ts) fresh ≡ (some (some s), n)
      → lookup id s.rule_activations ≡ some (count_of m.activations id + fired id ts)
  unfolding finish
  finish-counts m n ts fresh id s h e =
      ap (lookup id) (finish_flight-counts (run m ts) n fresh (run m ts).aircraft s e)
      ∙ lookup-counts_of id (run m ts).activations (run m ts).covered (run-Covers id ts m h).1
      ∙ ap some (run-count id ts m h)
