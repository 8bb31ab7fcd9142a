-- ===== src/Rules/Engine.antt =====
-- cloud/dcs_copilot_cloud/rules/engine.py: rule lifecycle, debounce, resolution and cooldown.
-- `none` is an exception: a failed `assert`, or the `KeyError` of a rule with no runtime. What the
-- registered callbacks act on is the state `L` of the listeners, which `emit` updates.
pub mod Lifecycle
pub mod Evaluate
pub mod Construct
pub mod Debounce
pub mod Reset
use dcs_copilot.Prelude.{
  ◌>>=◌, ℕ, ◌+◌, String, Bool, true, false, ◌&&◌, ◌||◌, not, Option, none, some, List, [], ◌∷◌,
  ◌++◌, map, str_eq, ltb, leb, ◌==◌, if◌then◌else◌, all_of, any_of, select,
}
use dcs_copilot.Prelude.Dict.{Dict, lookup, insert, merge}
use dcs_copilot.Aircraft.State.{AircraftState, FlightPhase, same_phase, usable}
use dcs_copilot.Aircraft.History.{StateHistory}
use dcs_copilot.Rules.Base.{
  Severity, info, advisory, warning, critical, RuleTransitionType, activated, resolved, disabled,
  RuleResult, Rule, metadata, ActiveIssue, RuleTransition,
}

pub record RuleRuntime : Type 0 where
  pub issue : Option ActiveIssue
  pub candidate_active : Option Bool
  pub candidate_since : Option ℕ
  pub candidate_result : Option RuleResult
  pub last_notification_at : Option ℕ

abbrev pub fresh : RuleRuntime
fresh = record {
  issue = none;
  candidate_active = none;
  candidate_since = none;
  candidate_result = none;
  last_notification_at = none;
}

pub record RuleEngine : Type 0 where
  pub rules : List Rule
  pub runtime : Dict RuleRuntime

unfoldable pub member_of : String → List String → Bool
member_of x [] = false
member_of x (y ∷ ys) = str_eq y x || member_of x ys

-- len(ids) == len(set(ids))
unfoldable pub unique_ids : List Rule → Bool
unfolding member_of
unique_ids [] = true
unique_ids (r ∷ rs) = not (member_of r.id (map (λ q. q.id) rs)) && unique_ids rs

-- {rule.id: _RuleRuntime() for rule in rule_list}
unfoldable pub fresh_runtime : List Rule → Dict RuleRuntime
fresh_runtime [] = []
fresh_runtime (r ∷ rs) = (r.id, fresh) ∷ fresh_runtime rs

-- The constructor; `none` is the `ValueError` of a repeated identifier.
unfoldable pub new_engine : List Rule → Option RuleEngine
unfolding unique_ids fresh_runtime
new_engine rules =
    if unique_ids rules
    then some (record { rules = rules; runtime = fresh_runtime rules })
    else none

abbrev pub is_some {ℓ} : {A : Type ℓ} → Option A → Bool
is_some none = false
is_some (some a) = true

unfoldable pub allows_aircraft : Option (List String) → String → Bool
unfolding member_of
allows_aircraft none aircraft = true
allows_aircraft (some names) aircraft = member_of aircraft names

unfoldable pub allows_phase : Option (List FlightPhase) → FlightPhase → Bool
unfolding same_phase
allows_phase none phase = true
allows_phase (some phases) phase = any_of (same_phase phase) phases

unfoldable pub field_usable : AircraftState → String → Bool
unfolding usable
field_usable s name = elim (lookup name s.telemetry) [ none ↦ false | some v ↦ usable v ]

unfoldable pub applicable_to : Option String → Rule → AircraftState → Bool
unfolding allows_aircraft allows_phase field_usable
applicable_to none rule state = false
applicable_to (some aircraft) rule state =
    state.connected
    && allows_aircraft rule.aircraft_names aircraft
    && allows_phase rule.flight_phases state.flight_phase
    && all_of (field_usable state) rule.required_fields

unfoldable pub applicable : Rule → AircraftState → Bool
unfolding applicable_to
applicable rule state = applicable_to state.aircraft rule state

-- `evaluable_rule_ids`
unfoldable pub evaluable_rule_ids : RuleEngine → AircraftState → List String
unfolding applicable
evaluable_rule_ids e state = map (λ r. r.id) (select (λ r. applicable r state) e.rules)

unfoldable pub clear_candidate : RuleRuntime → RuleRuntime
clear_candidate rt = record rt {
  candidate_active = none;
  candidate_since = none;
  candidate_result = none;
}

unfoldable pub deactivate_issue :
    Option ActiveIssue → RuleRuntime → ℕ → RuleTransitionType → RuleRuntime × Option RuleTransition
deactivate_issue none rt now kind = (rt, none)
deactivate_issue (some issue) rt now kind = (
  record rt { issue = none },
  some (record {
    kind = kind;
    issue = record issue { observed_at = now };
    timestamp = now;
    notification_eligible = false;
  }),
)

-- `_deactivate`
unfoldable pub deactivate :
    RuleRuntime → ℕ → RuleTransitionType → RuleRuntime × Option RuleTransition
unfolding clear_candidate deactivate_issue
deactivate rt now kind = deactivate_issue rt.issue (clear_candidate rt) now kind

-- Whether a notification at `now` respects the cooldown.
unfoldable pub cooled_down : Option ℕ → ℕ → ℕ → Bool
cooled_down none now cooldown = true
cooled_down (some last) now cooldown = leb (last + cooldown) now

unfoldable pub new_issue : Rule → String → AircraftState → RuleResult → ℕ → ActiveIssue
unfolding merge metadata
new_issue rule aircraft state result now = record {
  rule_id = rule.id;
  severity = rule.severity;
  aircraft = aircraft;
  flight_phase = state.flight_phase;
  activated_at = now;
  observed_at = now;
  message = result.message;
  explanation = result.explanation;
  details = merge result.details (metadata rule);
}

-- `_activate`, after its assertion that the aircraft is known.
unfoldable pub activate :
    Rule → RuleRuntime → String → AircraftState → RuleResult → ℕ → RuleRuntime × RuleTransition
unfolding new_issue cooled_down
activate rule rt aircraft state result now =
    let issue = new_issue rule aircraft state result now in
    let eligible = cooled_down rt.last_notification_at now rule.cooldown_seconds in
    (
      record rt {
        issue = some issue;
        last_notification_at = if eligible then some now else rt.last_notification_at;
      },
      record { kind = activated; issue = issue; timestamp = now; notification_eligible = eligible },
    )

unfoldable pub refresh : Option ActiveIssue → Option RuleResult → ℕ → Option ActiveIssue
refresh (some issue) (some result) now = some (record issue {
  observed_at = now;
  message = result.message;
  explanation = result.explanation;
  details = result.details;
})
refresh issue result now = issue

abbrev pub same_bool : Bool → Bool → Bool
same_bool true b = b
same_bool false b = not b

-- `runtime.candidate_active != desired_active`
unfoldable pub wants : Option Bool → Bool → Bool
wants none desired = false
wants (some c) desired = same_bool c desired

-- The candidate after this observation.
unfoldable pub note_candidate : RuleRuntime → Option RuleResult → ℕ → RuleRuntime
unfolding wants
note_candidate rt result now =
    let desired = is_some result in
    if wants rt.candidate_active desired
    then record rt { candidate_result = result }
    else record rt {
      candidate_active = some desired;
      candidate_since = some now;
      candidate_result = result;
    }

-- The end of `_advance`, once the candidate has stood for its delay.
unfoldable pub commit :
    Rule
    → RuleRuntime
    → AircraftState
    → Option String
    → Option RuleResult
    → ℕ
    → Option (RuleRuntime × Option RuleTransition)
unfolding clear_candidate activate deactivate
commit rule rt state aircraft none now = some (deactivate (clear_candidate rt) now resolved)
commit rule rt state none (some result) now = none
commit rule rt state (some aircraft) (some result) now =
    let (rt', transition) = activate rule (clear_candidate rt) aircraft state result now in
    some (rt', some transition)

unfoldable pub settle :
    Rule
    → RuleRuntime
    → AircraftState
    → Option RuleResult
    → ℕ
    → Option ℕ
    → Option (RuleRuntime × Option RuleTransition)
unfolding commit
settle rule rt state result now none = none
settle rule rt state result now (some since) =
    let delay = if is_some result then rule.debounce_on_seconds else rule.debounce_off_seconds in
    if ltb now (since + delay)
    then some (rt, none)
    else commit rule rt state state.aircraft result now

-- `_advance`
unfoldable pub advance :
    Rule
    → RuleRuntime
    → AircraftState
    → Option RuleResult
    → ℕ
    → Option (RuleRuntime × Option RuleTransition)
unfolding clear_candidate refresh note_candidate settle
advance rule rt state result now =
    if same_bool (is_some result) (is_some rt.issue)
    then some (record (clear_candidate rt) { issue = refresh rt.issue result now }, none)
    else (let noted = note_candidate rt result now in
        settle rule noted state result now noted.candidate_since)

-- What `evaluate` does for one rule.
unfoldable pub step :
    Rule
    → RuleRuntime
    → AircraftState
    → StateHistory
    → ℕ
    → Option (RuleRuntime × Option RuleTransition)
unfolding applicable deactivate advance
step rule rt state history now =
    if applicable rule state
    then advance rule rt state
        (rule.evaluate
          (record { state = state; history = history; now = now; active = is_some rt.issue }))
        now
    else some (deactivate rt now disabled)

abbrev pub listed : Option RuleTransition → List RuleTransition
listed none = []
listed (some t) = t ∷ []

module _ {ℓ} {L : Type ℓ} (emit : L → RuleTransition → L) where
  unfoldable pub notify : L → Option RuleTransition → L
  notify l none = l
  notify l (some t) = emit l t

  -- The loop of `evaluate` over the rules that are left.
  unfoldable pub evaluate_rules :
      List Rule
      → Dict RuleRuntime
      → L
      → AircraftState
      → StateHistory
      → ℕ
      → Option (Dict RuleRuntime × L × List RuleTransition)
  unfolding step notify
  evaluate_rules [] runtime l state history now = some (runtime, l, [])
  evaluate_rules (rule ∷ rules) runtime l state history now = lookup rule.id runtime >>= λ rt.
      step rule rt state history now >>= λ (rt', transition).
      evaluate_rules rules (insert rule.id rt' runtime) (notify l transition) state history now
      >>= λ (runtime', l', later). some (runtime', l', listed transition ++ later)

  unfoldable pub evaluate :
      RuleEngine
      → L
      → AircraftState
      → StateHistory
      → ℕ
      → Option (RuleEngine × L × List RuleTransition)
  unfolding evaluate_rules
  evaluate e l state history now =
      evaluate_rules e.rules e.runtime l state history now >>= λ (runtime, l', transitions).
      some (record e { runtime = runtime }, l', transitions)

  -- The loop of `reset` over the runtimes.
  unfoldable pub reset_runtime :
      Dict RuleRuntime → L → ℕ → Bool → Dict RuleRuntime × L × List RuleTransition
  unfolding deactivate notify
  reset_runtime [] l now emits = ([], l, [])
  reset_runtime ((id, rt) ∷ rest) l now emits =
      let (rt', transition) = deactivate rt now disabled in
      let l' = if emits then notify l transition else l in
      let (rest', l'', later) = reset_runtime rest l' now emits in
      ((id, record rt' { last_notification_at = none }) ∷ rest', l'', listed transition ++ later)

  unfoldable pub reset : RuleEngine → L → ℕ → Bool → RuleEngine × L × List RuleTransition
  unfolding reset_runtime
  reset e l now emits =
      let (runtime, l', transitions) = reset_runtime e.runtime l now emits in
      (record e { runtime = runtime }, l', transitions)

unfoldable pub severity_rank : Severity → ℕ
severity_rank info = 0
severity_rank advisory = 1
severity_rank warning = 2
severity_rank critical = 3

-- The order of the sort key `(-rank, activated_at)`.
unfoldable pub before : ActiveIssue → ActiveIssue → Bool
unfolding severity_rank
before a b =
    ltb (severity_rank b.severity) (severity_rank a.severity)
    || ((severity_rank a.severity == severity_rank b.severity) && leb a.activated_at b.activated_at)

-- Python's stable `sorted`.
unfoldable pub place : ActiveIssue → List ActiveIssue → List ActiveIssue
unfolding before
place a [] = a ∷ []
place a (b ∷ bs) = if before a b then a ∷ b ∷ bs else b ∷ place a bs

unfoldable pub sort_issues : List ActiveIssue → List ActiveIssue
unfolding place
sort_issues [] = []
sort_issues (a ∷ rest) = place a (sort_issues rest)

unfoldable pub issues_of : Dict RuleRuntime → List ActiveIssue
issues_of [] = []
issues_of ((id, rt) ∷ rest) = elim rt.issue [ none ↦ issues_of rest | some i ↦ i ∷ issues_of rest ]

unfoldable pub active_issues : RuleEngine → List ActiveIssue
unfolding sort_issues issues_of
active_issues e = sort_issues (issues_of e.runtime)
