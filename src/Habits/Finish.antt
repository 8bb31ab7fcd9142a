-- ===== src/Habits/Finish.antt =====
-- cloud/dcs_copilot_cloud/habits/manager.py: the end of a flight within the bounds of a summary.
use dcs_copilot.Prelude.{
  ℕ, suc, ◌+◌, ◌-◌, ◌≤◌, String, ◌≡◌, refl, sym, ap, ◌≢◌, Bool, true, false, ◌||◌, Option, none,
  some, List, [], ◌∷◌, ◌++◌, arith, eq_iff, leb, if◌then◌else◌, length, length-append, drop, all_of,
  All,
}
use dcs_copilot.Prelude.Dict.{Dict, lookup}
use dcs_copilot.Aircraft.State.{AircraftState}
use dcs_copilot.Rules.Engine.{member_of, evaluable_rule_ids}
use dcs_copilot.Habits.{
  cover, FlightStatsManager, FlightSummary, same_name, count_of, counts_of, new_summary, finished,
  observed, observe, add_new, push_pending, habit_rule_ids,
}
use dcs_copilot.Habits.Overflow.{observed_aircraft, changed}
use Prim.Native.String.{count}

-- A flight that a summary takes: at most 32 rules are covered, each one of the habit rules that has
-- fired at most 100 times, and the aircraft has a name of at most 64 characters, not all blank.
pub record Acceptable (stripped : String → String) (aircraft : String) (m : FlightStatsManager)
    : Type 0 where
  pub flown : m.aircraft ≡ some aircraft
  pub named : stripped aircraft ≢ ""
  pub short : count aircraft ≤ 64
  pub few_rules : length m.covered ≤ 32
  pub habits : All (λ id. member_of id habit_rule_ids ≡ true) m.covered
  pub few_times : All (λ id. count_of m.activations id ≤ 100) m.covered

length-counts_of : (c : Dict ℕ) (ids : List String) → length (counts_of c ids) ≡ length ids
unfolding counts_of
length-counts_of c [] = refl
length-counts_of c (id ∷ ids) = ap suc (length-counts_of c ids)

known-counts_of :
    (c : Dict ℕ) (ids : List String)
    → All (λ id. member_of id habit_rule_ids ≡ true) ids
    → all_of (λ (e : String × ℕ). member_of e.0 habit_rule_ids) (counts_of c ids) ≡ true
unfolding counts_of
known-counts_of c [] h = refl
known-counts_of c (id ∷ ids) h = rw (h.0, known-counts_of c ids h.1) refl

few-counts_of :
    (c : Dict ℕ) (ids : List String)
    → All (λ id. count_of c id ≤ 100) ids
    → all_of (λ (e : String × ℕ). leb e.1 100) (counts_of c ids) ≡ true
unfolding counts_of
few-counts_of c [] h = refl
few-counts_of c (id ∷ ids) h = ground (arith, h.0, few-counts_of c ids h.1)

lookup-counts_of :
    (id : String) (c : Dict ℕ) (ids : List String)
    → lookup id (counts_of c ids) ≡ (if member_of id ids then some (count_of c id) else none)
unfolding lookup counts_of member_of
lookup-counts_of id c [] = refl
lookup-counts_of id c (x ∷ xs) = ground (arith, eq_iff x id, lookup-counts_of id c xs)

member_of-add_new :
    (id : String) (ids xs : List String)
    → member_of id (add_new ids xs) ≡ member_of id ids || member_of id xs
unfolding add_new member_of
member_of-add_new id ids [] = ground arith
member_of-add_new id ids (x ∷ xs) =
    ground (arith, eq_iff x id, member_of-add_new id (if member_of x ids then ids else x ∷ ids) xs)

-- What a new flight covers: the rules that can be evaluated, or none without an aircraft.
abbrev pub covers : FlightStatsManager → AircraftState → String → Bool
covers m state id = elim (observed_aircraft state) [
  | none ↦ false
  | some a ↦ member_of id (evaluable_rule_ids m.rule_engine state)
]

-- The flight of `m` has ended with a summary, and the next has begun.
pub record Ended (m : FlightStatsManager) (state : AircraftState) (fresh aircraft : String)
    (s : FlightSummary) (n : FlightStatsManager) : Type 0 where
  pub identified : s.summary_id ≡ fresh
  pub of_aircraft : s.aircraft ≡ aircraft
  pub counted :
      (id : String)
      → lookup id s.rule_activations
        ≡ (if member_of id m.covered then some (count_of m.activations id) else none)
  pub next_aircraft : n.aircraft ≡ observed_aircraft state
  pub next_covered : (id : String) → member_of id n.covered ≡ covers m state id
  pub next_activations : n.activations ≡ []
  pub kept : n.pending ≡ drop (length m.pending + 1 - m.pending_limit) (m.pending ++ s ∷ [])

last_kept :
    (m : FlightStatsManager) (s : FlightSummary)
    → push_pending m.pending_limit m.pending s
      ≡ drop (length m.pending + 1 - m.pending_limit) (m.pending ++ s ∷ [])
unfolding push_pending
last_kept m s =
    ap (λ n. drop (n - m.pending_limit) (m.pending ++ s ∷ [])) (length-append m.pending (s ∷ []))

module _ (uuid : String → Bool) (stripped : String → String) where
  abbrev flown_summary : FlightStatsManager → String → String → FlightSummary
  flown_summary m fresh aircraft = record {
    summary_id = fresh;
    aircraft = aircraft;
    rule_activations = counts_of m.activations m.covered;
  }

  new_summary-Acceptable :
      (m : FlightStatsManager) (fresh aircraft : String)
      → Acceptable stripped aircraft m
      → uuid fresh ≡ true
      → new_summary uuid stripped fresh aircraft (counts_of m.activations m.covered)
        ≡ some (flown_summary m fresh aircraft)
  unfolding new_summary
  new_summary-Acceptable m fresh aircraft a u = ground (
    arith,
    u,
    a.named,
    a.short,
    a.few_rules,
    eq_iff (stripped aircraft) "",
    length-counts_of m.activations m.covered,
    known-counts_of m.activations m.covered a.habits,
    few-counts_of m.activations m.covered a.few_times,
  )

  cover-Ended :
      (m : FlightStatsManager) (state : AircraftState) (fresh aircraft : String) (o : Option String)
      → observed_aircraft state ≡ o
      → Ended m state fresh aircraft (flown_summary m fresh aircraft) (
          cover uuid stripped state o (record m {
            aircraft = o;
            covered = [];
            activations = [];
            pending = push_pending m.pending_limit m.pending (flown_summary m fresh aircraft);
          }))
  unfolding cover
  cover-Ended m state fresh aircraft none e = record {
    identified = refl;
    of_aircraft = refl;
    counted = λ id. lookup-counts_of id m.activations m.covered;
    next_aircraft = sym e;
    next_covered = λ id. rw (covers, e) refl;
    next_activations = refl;
    kept = last_kept m (flown_summary m fresh aircraft);
  }
  cover-Ended m state fresh aircraft (some a) e = record {
    identified = refl;
    of_aircraft = refl;
    counted = λ id. lookup-counts_of id m.activations m.covered;
    next_aircraft = sym e;
    next_covered =
        λ id. rw (covers, e) (member_of-add_new id [] (evaluable_rule_ids m.rule_engine state));
    next_activations = refl;
    kept = last_kept m (flown_summary m fresh aircraft);
  }

  -- An observation of another aircraft, or of none, ends a flight that a summary takes, and returns the
  -- summary: it has the identifier drawn for it, the aircraft, and the count of each covered rule and
  -- no other. It is the last of the pending ones, of which the oldest beyond the limit are dropped.
  -- The observed aircraft is the current one, no count is left, and what is covered are just the rules
  -- that can be evaluated in the observed state.
  pub observe-finishes :
      (m : FlightStatsManager) (state : AircraftState) (fresh aircraft : String)
      → Acceptable stripped aircraft m
      → uuid fresh ≡ true
      → same_name (observed_aircraft state) m.aircraft ≡ false
      → (s : FlightSummary) × ((observe uuid stripped m state fresh).0 ≡ some (some s))
        × Ended m state fresh aircraft s (observe uuid stripped m state fresh).1
  unfolding finished observed
  observe-finishes m state fresh aircraft a u k =
      rw
        (
          changed uuid stripped m state fresh aircraft a.flown k,
          new_summary-Acceptable m fresh aircraft a u,
        )
        (
          flown_summary m fresh aircraft,
          refl,
          cover-Ended m state fresh aircraft (observed_aircraft state) refl,
        )
