-- ===== src/Events/Examples.antt =====
-- The event manager on concrete transitions.
use dcs_copilot.Prelude.{ℕ, ◌≤◌, String, ◌≡◌, refl, ◌≢◌, true, false, some, List, [], ◌∷◌, arith}
use dcs_copilot.Prelude.Dict.{lookup}
use dcs_copilot.Aircraft.State.{taxi}
use dcs_copilot.Rules.Base.{
  RuleTransition, RuleTransitionType, activated, resolved, ActiveIssue, warning,
}
use dcs_copilot.Events.{
  coach, mode_rank, allows, EventManager, SpeechPolicy, normal, new_manager, handle_transition,
  push_bounded,
}
use dcs_copilot.Events.Policy.{allows_monotone}
use dcs_copilot.Events.Pairing
use dcs_copilot.Events.Pairing.{handle_transition-paired}
use dcs_copilot.Events.Recent
use dcs_copilot.Events.Recent.{recent, run-recent}

abbrev policy : SpeechPolicy
policy = record { mode = normal; normal_advisory_rules = [] }

abbrev manager : EventManager
manager = record {
  speech_policy = policy;
  history_size = 2;
  history = [];
  active_event_ids = [];
  published_event_ids = [];
}

made : new_manager policy 2 ≡ some manager
unfolding new_manager
made = refl

abbrev issue : String → ActiveIssue
issue rule = record {
  rule_id = rule;
  severity = warning;
  aircraft = "FA-18C_hornet";
  flight_phase = taxi;
  activated_at = 0;
  observed_at = 0;
  message = "";
  explanation = "";
  details = [];
}

abbrev transition : String → RuleTransitionType → ℕ → RuleTransition
transition rule kind now = record {
  kind = kind;
  issue = issue rule;
  timestamp = now;
  notification_eligible = true;
}

abbrev raising : RuleTransition
raising = transition "GEAR" activated 1

abbrev closing : RuleTransition
closing = transition "GEAR" resolved 9

abbrev between : List (RuleTransition × String)
between = (transition "FLAPS" activated 2, "u2") ∷ (transition "FLAPS" resolved 3, "u3") ∷ []

nobody : (r : String) → lookup r manager.active_event_ids ≢ some "u1"
unfolding lookup
nobody r e = cc

handle_transition-paired_example :
    let r = handle_transition manager raising "u1" in
    let e = (handle_transition (Pairing.run r.0 between) closing "u4").1 in
    (e.event.event_id ≡ r.1.event.event_id) × (e.publish ≡ r.1.publish) × (e.speak ≡ false)
unfolding dcs_copilot.Events.is_activated dcs_copilot.Events.holds
handle_transition-paired_example =
    handle_transition-paired manager raising closing "u1" "u4" between refl (refl, nobody)
      ((refl, refl), ((refl, refl), tt)) refl refl

run-recent_example :
    (Recent.run between manager []).0.history ≡ recent 2 (Recent.run between manager []).1
run-recent_example = run-recent policy 2 manager between made

ranked : mode_rank policy.mode ≤ mode_rank coach
unfolding mode_rank
ranked = omega arith

allowed : allows policy raising ≡ true
unfolding allows lookup
allowed = refl

allows_monotone_example : allows (record policy { mode = coach }) raising ≡ true
allows_monotone_example = allows_monotone policy coach raising ranked allowed
