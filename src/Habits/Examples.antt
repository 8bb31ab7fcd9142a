-- ===== src/Habits/Examples.antt =====
-- Flight statistics on concrete flights.
use dcs_copilot.Prelude.{
  ℕ, ◌+◌, String, ◌≡◌, refl, Bool, true, false, none, some, [], ◌∷◌, arith, eq_iff,
}
use dcs_copilot.Prelude.Dict.{lookup}
use dcs_copilot.Aircraft.State.{AircraftState, taxi, unknown}
use dcs_copilot.Rules.Base.{RuleTransition, activated, warning}
use dcs_copilot.Rules.Engine.{RuleEngine}
use dcs_copilot.Habits.{
  FlightStatsManager, FlightSummary, count_of, counts_of, finish, observe, new_summary,
}
use dcs_copilot.Habits.Counts.{fired, run, finish-counts}
use dcs_copilot.Habits.Overflow.{Overflows, observe-stuck}
use dcs_copilot.Habits.Finish.{Acceptable, Ended, observe-finishes}

abbrev rule_name : String
rule_name = "FA18_GEAR_OVERSPEED"

-- A flight in which one covered rule has fired `n` times.
abbrev flight : ℕ → FlightStatsManager
flight n = record {
  rule_engine = record { rules = []; runtime = [] };
  aircraft = some "FA-18C_hornet";
  covered = rule_name ∷ [];
  activations = (rule_name, n) ∷ [];
  pending_limit = 32;
  pending = [];
}

abbrev away : AircraftState
away = record { aircraft = none; connected = false; flight_phase = unknown; telemetry = [] }

abbrev firing : RuleTransition
firing = record {
  kind = activated;
  issue = record {
    rule_id = rule_name;
    severity = warning;
    aircraft = "FA-18C_hornet";
    flight_phase = taxi;
    activated_at = 0;
    observed_at = 0;
    message = "";
    explanation = "";
    details = [];
  };
  timestamp = 4;
  notification_eligible = false;
}

-- Every text is taken for an identifier, and no text has blanks around it.
abbrev any_uuid : String → Bool
any_uuid s = true

abbrev unstripped : String → String
unstripped s = s

abbrev summary : ℕ → FlightSummary
summary n = record {
  summary_id = "u1";
  aircraft = "FA-18C_hornet";
  rule_activations = (rule_name, n) ∷ [];
}

abbrev landed : ℕ → FlightStatsManager
landed n = record (flight n) {
  aircraft = none;
  covered = [];
  activations = [];
  pending = summary n ∷ [];
}

counted :
    finish any_uuid unstripped (run (flight 3) (firing ∷ firing ∷ [])) "u1"
    ≡ (some (some (summary 5)), landed 5)
unfolding finish dcs_copilot.Habits.on_transition
counted = refl

finish-counts_example :
    lookup rule_name (summary 5).rule_activations
    ≡ some (count_of (flight 3).activations rule_name + fired rule_name (firing ∷ firing ∷ []))
unfolding dcs_copilot.Rules.Engine.member_of
finish-counts_example =
    finish-counts any_uuid unstripped (flight 3) (landed 5) (firing ∷ firing ∷ []) "u1" rule_name
      (summary 5) (refl, refl) counted

acceptable : Acceptable unstripped "FA-18C_hornet" (flight 3)
unfolding count_of dcs_copilot.Rules.Engine.member_of dcs_copilot.Habits.habit_rule_ids
acceptable = record {
  flown = refl;
  named = λ e. ground (arith, (eq_iff "FA-18C_hornet" "").1 e);
  short = omega arith;
  few_rules = omega arith;
  habits = (refl, tt);
  few_times = (omega arith, tt);
}

observe-finishes_example :
    (s : FlightSummary) × ((observe any_uuid unstripped (flight 3) away "u1").0 ≡ some (some s))
    × Ended
        (flight 3)
        away
        "u1"
        "FA-18C_hornet"
        s
        (observe any_uuid unstripped (flight 3) away "u1").1
observe-finishes_example =
    observe-finishes any_uuid unstripped (flight 3) away "u1" "FA-18C_hornet" acceptable refl refl

often : Overflows rule_name (flight 101)
unfolding count_of dcs_copilot.Rules.Engine.member_of
often = (refl, refl)

observe-stuck_example : observe any_uuid unstripped (flight 101) away "u1" ≡ (none, flight 101)
observe-stuck_example =
    observe-stuck any_uuid unstripped (flight 101) away "u1" "FA-18C_hornet" rule_name refl often
      refl
