-- ===== src/Events.antt =====
-- cloud/dcs_copilot_cloud/events: transitions of rules as semantic events, and which of them may be
-- spoken. A fresh `uuid4()` is an argument; what each callback receives is the event returned.
-- The values of an issue's data are scalars.
pub mod Pairing
pub mod Recent
pub mod Policy
mod Examples
use dcs_copilot.Prelude.{
  ℕ, ◌-◌, String, Bool, true, false, ◌&&◌, ◌||◌, not, Option, none, some, List, [], ◌∷◌, ◌++◌,
  str_eq, leb, ◌==◌, if◌then◌else◌, length, drop, any_of, select,
}
use dcs_copilot.Prelude.Dict.{Dict, lookup, insert, remove}
use dcs_copilot.Aircraft.Value.{Value, text, member, flag}
use dcs_copilot.Aircraft.State.{phase_value}
use dcs_copilot.Rules.Base.{
  Severity, info, advisory, warning, critical, severity_value, RuleTransition, RuleTransitionType,
  activated, resolved, disabled, transition_value, ActiveIssue,
}

-- policy.py

pub data SpeechMode : Type 0 where
  minimal normal coach : SpeechMode

unfoldable pub mode_rank : SpeechMode → ℕ
mode_rank minimal = 0
mode_rank normal = 1
mode_rank coach = 2

-- `_mode_rank(CopilotMode(text))`, or its `ValueError`.
unfoldable pub rank_of : String → Option ℕ
rank_of s =
    if str_eq s "MINIMAL"
    then some 0
    else if str_eq s "NORMAL"
    then some 1
    else if str_eq s "COACH"
    then some 2
    else none

pub record SpeechPolicy : Type 0 where
  pub mode : SpeechMode
  pub normal_advisory_rules : List String

unfoldable pub is_activated : RuleTransitionType → Bool
is_activated activated = true
is_activated resolved = false
is_activated disabled = false

-- `data.get("proactive") is False`
unfoldable pub is_false : Option Value → Bool
is_false (some (flag b)) = not b
is_false v = false

unfoldable pub is_coach : SpeechMode → Bool
is_coach coach = true
is_coach m = false

unfoldable pub is_minimal : SpeechMode → Bool
is_minimal minimal = true
is_minimal m = false

-- The end of `allows`, without a minimum mode.
unfoldable pub allows_severity : SpeechPolicy → String → Severity → Bool
unfolding is_coach is_minimal
allows_severity p rule critical = true
allows_severity p rule warning = not (is_minimal p.mode)
allows_severity p rule advisory =
    not (is_minimal p.mode) && (is_coach p.mode || any_of (str_eq rule) p.normal_advisory_rules)
allows_severity p rule info = not (is_minimal p.mode) && is_coach p.mode

unfoldable pub reaches : Option ℕ → SpeechMode → Bool
unfolding mode_rank
reaches none mode = false
reaches (some rank) mode = leb rank (mode_rank mode)

unfoldable pub allows_issue : SpeechPolicy → ActiveIssue → Option Value → Bool
unfolding allows_severity reaches rank_of
allows_issue p issue (some (text s)) = reaches (rank_of s) p.mode
allows_issue p issue (some (member s)) = reaches (rank_of s) p.mode
allows_issue p issue v = allows_severity p issue.rule_id issue.severity

-- `SpeechPolicy.allows`
unfoldable pub allows : SpeechPolicy → RuleTransition → Bool
unfolding is_activated is_false allows_issue
allows p t =
    is_activated t.kind
    && t.notification_eligible
    && not (is_false (lookup "proactive" t.issue.details))
    && allows_issue p t.issue (lookup "minimum_mode" t.issue.details)

-- models.py

pub record AircraftEvent : Type 0 where
  pub event_id : String
  pub rule_id : String
  pub status : String
  pub severity : String
  pub aircraft : String
  pub flight_phase : Option String
  pub message : String
  pub details : Dict Value

pub record ManagedEvent : Type 0 where
  pub event : AircraftEvent
  pub observed_at : ℕ
  pub publish : Bool
  pub speak : Bool

-- manager.py

pub record EventManager : Type 0 where
  pub speech_policy : SpeechPolicy
  pub history_size : ℕ
  pub history : List ManagedEvent
  pub active_event_ids : Dict String
  pub published_event_ids : List String

-- The constructor; `none` is its `ValueError`.
unfoldable pub new_manager : SpeechPolicy → ℕ → Option EventManager
new_manager policy history_size =
    if history_size == 0
    then none
    else some (record {
      speech_policy = policy;
      history_size = history_size;
      history = [];
      active_event_ids = [];
      published_event_ids = [];
    })

unfoldable pub reset : EventManager → Bool → EventManager
reset m clear_history = record m {
  active_event_ids = [];
  published_event_ids = [];
  history = if clear_history then [] else m.history;
}

unfoldable pub json_values : Dict Value → Dict Value
json_values [] = []
json_values ((k, member s) ∷ rest) = (k, text s) ∷ json_values rest
json_values ((k, v) ∷ rest) = (k, v) ∷ json_values rest

unfoldable pub holds : List String → String → Bool
holds ids x = any_of (λ y. str_eq y x) ids

-- `discard`
unfoldable pub without : List String → String → List String
without ids x = select (λ y. not (str_eq y x)) ids

-- `deque(maxlen=size).append(x)`
unfoldable pub push_bounded {ℓ} : {A : Type ℓ} → ℕ → List A → A → List A
push_bounded size xs x = let ys = xs ++ x ∷ [] in drop (length ys - size) ys

unfoldable pub event_of : RuleTransition → String → String → AircraftEvent
unfolding severity_value phase_value json_values
event_of t event_id status =
    let phase = phase_value t.issue.flight_phase in
    record {
      event_id = event_id;
      rule_id = t.issue.rule_id;
      status = status;
      severity = severity_value t.issue.severity;
      aircraft = t.issue.aircraft;
      flight_phase = if str_eq phase "UNKNOWN" then none else some phase;
      message = t.issue.message;
      details = json_values t.issue.details;
    }

unfoldable pub raise_event : EventManager → RuleTransition → String → EventManager × ManagedEvent
unfolding allows push_bounded event_of insert
raise_event m t fresh =
    let publish = allows m.speech_policy t in
    let managed : ManagedEvent = record {
      event = event_of t fresh "RAISED";
      observed_at = t.timestamp;
      publish = publish;
      speak = publish;
    } in
    (
      record m {
        active_event_ids = insert t.issue.rule_id fresh m.active_event_ids;
        published_event_ids =
            if publish then fresh ∷ m.published_event_ids else m.published_event_ids;
        history = push_bounded m.history_size m.history managed;
      },
      managed,
    )

-- The identifier to close, or a fresh one.
unfoldable pub get_id : Option String → String → String
get_id none fresh = fresh
get_id (some event_id) fresh = event_id

unfoldable pub close_event : EventManager → RuleTransition → String → EventManager × ManagedEvent
unfolding get_id push_bounded event_of remove lookup holds without transition_value
close_event m t fresh =
    let event_id = get_id (lookup t.issue.rule_id m.active_event_ids) fresh in
    let managed : ManagedEvent = record {
      event = event_of t event_id (transition_value t.kind);
      observed_at = t.timestamp;
      publish = holds m.published_event_ids event_id;
      speak = false;
    } in
    (
      record m {
        active_event_ids = remove t.issue.rule_id m.active_event_ids;
        published_event_ids = without m.published_event_ids event_id;
        history = push_bounded m.history_size m.history managed;
      },
      managed,
    )

unfoldable pub handle_transition :
    EventManager → RuleTransition → String → EventManager × ManagedEvent
unfolding is_activated raise_event close_event
handle_transition m t fresh =
    if is_activated t.kind then raise_event m t fresh else close_event m t fresh
