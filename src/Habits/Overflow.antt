-- ===== src/Habits/Overflow.antt =====
-- cloud/dcs_copilot_cloud/habits/manager.py: when a flight can never be finished.
use dcs_copilot.Prelude.{
  ℕ, String, ◌≡◌, refl, ap, ◌∙◌, Bool, true, false, Option, none, some, List, [], ◌∷◌, arith,
  eq_iff, ltb, leb, if◌then◌else◌, all_of,
}
use dcs_copilot.Prelude.Dict.{Dict}
use dcs_copilot.Aircraft.State.{AircraftState}
use dcs_copilot.Rules.Engine.{member_of}
use dcs_copilot.Habits.{
  cover, FlightStatsManager, same_name, count_of, counts_of, new_summary, finished, finish_flight,
  finish, observed, observe, max_rule_activations,
}

-- The counts of a flight with a rule that fired more often than a summary accepts.
abbrev pub Overflows : String → FlightStatsManager → Type 0
Overflows id m =
    (member_of id m.covered ≡ true) × (ltb max_rule_activations (count_of m.activations id) ≡ true)

over :
    (id : String) (c : Dict ℕ) (ids : List String)
    → member_of id ids ≡ true
    → ltb max_rule_activations (count_of c id) ≡ true
    → all_of (λ (e : String × ℕ). leb e.1 max_rule_activations) (counts_of c ids) ≡ false
unfolding counts_of member_of
over id c [] h k = cc
over id c (x ∷ xs) h k = ground (arith, eq_iff x id, over id c xs)

-- The aircraft that an observation names.
abbrev pub observed_aircraft : AircraftState → Option String
observed_aircraft state = if state.connected then state.aircraft else none

module _ (uuid : String → Bool) (stripped : String → String) where
  new_summary-over :
      (fresh aircraft id : String) (m : FlightStatsManager)
      → Overflows id m
      → new_summary uuid stripped fresh aircraft (counts_of m.activations m.covered) ≡ none
  unfolding new_summary
  new_summary-over fresh aircraft id m h = ground (arith, over id m.activations m.covered h.0 h.1)

  pub changed :
      (m : FlightStatsManager) (state : AircraftState) (fresh aircraft : String)
      → m.aircraft ≡ some aircraft
      → same_name (observed_aircraft state) m.aircraft ≡ false
      → observe uuid stripped m state fresh
        ≡ observed uuid stripped state (observed_aircraft state) (
            finished uuid stripped m
              (new_summary uuid stripped fresh aircraft (counts_of m.activations m.covered)))
  unfolding observe finish finish_flight
  changed m state fresh aircraft a k =
      ap
        (λ b.
          if b
          then (some none, cover uuid stripped state (observed_aircraft state) m)
          else observed uuid stripped state (observed_aircraft state)
              (finish uuid stripped m fresh))
        k
      ∙ ap
          (λ o.
            observed uuid stripped state (observed_aircraft state)
              (finish_flight uuid stripped m fresh o))
          a

  -- Once a covered rule has fired more than a hundred times in a flight, an observation of another
  -- aircraft, or of none, raises an exception and leaves the manager exactly as it was, whatever
  -- identifier is drawn for the summary.
  pub observe-stuck :
      (m : FlightStatsManager) (state : AircraftState) (fresh aircraft id : String)
      → m.aircraft ≡ some aircraft
      → Overflows id m
      → same_name (observed_aircraft state) m.aircraft ≡ false
      → observe uuid stripped m state fresh ≡ (none, m)
  unfolding observe finish finish_flight finished observed
  observe-stuck m state fresh aircraft id a h k =
      rw (changed m state fresh aircraft a k, new_summary-over fresh aircraft id m h) refl
