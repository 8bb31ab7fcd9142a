-- ===== src/Aircraft/History.antt =====
-- cloud/dcs_copilot_cloud/state/history.py: the bounded history of meaningful changes.
pub mod Window
use dcs_copilot.Prelude.{
  ℕ, ◌+◌, ◌-◌, String, Bool, true, ◌&&◌, ◌||◌, not, Option, none, some, List, [], ◌∷◌, ◌++◌, str_eq,
  ltb, leb, ◌==◌, if◌then◌else◌, any_of, select,
}
use dcs_copilot.Prelude.Dict.{Dict, lookup, insert, merge}
use dcs_copilot.Prelude.Int.{ℤ, distance, ◌-ℤ◌}
use dcs_copilot.Aircraft.Value.{Value, nothing, is_nothing, as_number, py_eq}
use dcs_copilot.Aircraft.State.{AircraftState, TelemetryValue, current_value}

pub record StateTransition : Type 0 where
  pub field : String
  pub old_value : Value
  pub new_value : Value
  pub timestamp : ℕ

pub record StateHistory : Type 0 where
  pub retention_seconds : ℕ
  pub numeric_thresholds : Dict ℕ
  pub transitions : List StateTransition
  pub last : Dict Value

-- In thousandths.
abbrev pub default_thresholds : Dict ℕ
default_thresholds =
    ("indicated_airspeed", 1000)
    ∷ ("ground_speed", 500)
    ∷ ("altitude_msl", 10000)
    ∷ ("heading", 2000)
    ∷ ("fuel_quantity", 10000)
    ∷ ("speed_brake", 20)
    ∷ ("engine_rpm_left", 1000)
    ∷ ("engine_rpm_right", 1000)
    ∷ ("throttle_left", 20)
    ∷ ("throttle_right", 20)
    ∷ []

-- `StateHistory(retention_seconds, numeric_thresholds=…)`
unfoldable pub new_history : ℕ → Dict ℕ → StateHistory
unfolding merge
new_history retention overrides = record {
  retention_seconds = retention;
  numeric_thresholds = merge default_thresholds overrides;
  transitions = [];
  last = [];
}

-- The numbers of both values against the threshold, or `none` where the test does not apply.
unfoldable pub beyond : Option ℕ → Option ℤ → Option ℤ → Option Bool
beyond (some threshold) (some old) (some new) = some (leb threshold (distance new old))
beyond _ _ _ = none

unfoldable pub or_else : Option Bool → Bool → Bool
or_else (some b) d = b
or_else none d = d

unfoldable pub meaningfully_changed : StateHistory → String → Value → Value → Bool
unfolding beyond or_else
meaningfully_changed h field old new =
    if is_nothing old || is_nothing new
    then not (py_eq old new)
    else or_else (beyond (lookup field h.numeric_thresholds) (as_number old) (as_number new))
        (not (py_eq old new))

-- One turn of the loop of `record`, by what `_last` holds for the name.
unfoldable pub record_known :
    ℕ
    → StateHistory
    → List StateTransition
    → String
    → Value
    → Option Value
    → StateHistory × List StateTransition
unfolding meaningfully_changed
record_known now h added name current none = (
  record h { last = insert name current h.last },
  if is_nothing current
      then added
      else added
        ++ record { field = name; old_value = nothing; new_value = current; timestamp = now } ∷ [],
)
record_known now h added name current (some previous) =
    let transition : StateTransition = record {
      field = name;
      old_value = previous;
      new_value = current;
      timestamp = now;
    } in
    if meaningfully_changed h name previous current
    then (
      record h {
        transitions = h.transitions ++ transition ∷ [];
        last = insert name current h.last;
      },
      added ++ transition ∷ [],
    )
    else (h, added)

unfoldable pub record_field :
    ℕ
    → StateHistory × List StateTransition
    → String × TelemetryValue
    → StateHistory × List StateTransition
unfolding record_known
record_field now (h, added) (name, telemetry) =
    record_known now h added name (current_value telemetry) (lookup name h.last)

unfoldable pub record_fields :
    ℕ
    → StateHistory × List StateTransition
    → Dict TelemetryValue
    → StateHistory × List StateTransition
unfolding record_field
record_fields now acc [] = acc
record_fields now acc (item ∷ rest) = record_fields now (record_field now acc item) rest

unfoldable pub same_transition : StateTransition → StateTransition → Bool
same_transition a b =
    str_eq a.field b.field
    && py_eq a.old_value b.old_value
    && py_eq a.new_value b.new_value
    && a.timestamp == b.timestamp

-- for transition in added: if transition not in self._transitions: append
unfoldable pub append_missing : List StateTransition → List StateTransition → List StateTransition
unfolding same_transition
append_missing kept [] = kept
append_missing kept (t ∷ added) =
    append_missing (if any_of (same_transition t) kept then kept else kept ++ t ∷ []) added

-- while self._transitions and self._transitions[0].timestamp < now - retention: popleft
unfoldable pub drop_stale : ℕ → ℕ → List StateTransition → List StateTransition
drop_stale retention now [] = []
drop_stale retention now (t ∷ ts) =
    let rest = drop_stale retention now ts in
    if ltb (t.timestamp + retention) now then rest else t ∷ ts

unfoldable pub prune : StateHistory → ℕ → StateHistory
unfolding drop_stale
prune h now = record h { transitions = drop_stale h.retention_seconds now h.transitions }

-- `record`
unfoldable pub record_state : StateHistory → AircraftState → ℕ → StateHistory × List StateTransition
unfolding record_fields append_missing prune
record_state h state now =
    let (seen, added) = record_fields now (h, []) state.telemetry in
    (prune (record seen { transitions = append_missing seen.transitions added }) now, added)

-- A moment `since` as a clock reading less a span: `timestamp >= now - seconds`.
abbrev pub Since : Type 0
Since = ℕ × ℕ

unfoldable pub at_or_after : Option Since → StateTransition → Bool
at_or_after none t = true
at_or_after (some (now, seconds)) t = leb now (t.timestamp + seconds)

unfoldable pub on_field : Option String → StateTransition → Bool
on_field none t = true
on_field (some field) t = str_eq t.field field

-- `transitions(field, since=…)`
unfoldable pub transitions_of : StateHistory → Option String → Option Since → List StateTransition
unfolding at_or_after on_field
transitions_of h field since = select (λ t. on_field field t && at_or_after since t) h.transitions

unfoldable pub changed_within : StateHistory → String → Value → Value → ℕ → ℕ → Bool
unfolding transitions_of
changed_within h field old new seconds now =
    any_of (λ t. py_eq t.old_value old && py_eq t.new_value new)
      (transitions_of h (some field) (some (now, seconds)))

-- The samples of `rate`: times and numbers.
unfoldable pub samples : List StateTransition → List (ℕ × ℤ)
samples [] = []
samples (t ∷ ts) = elim (as_number t.new_value) [
  | none ↦ samples ts
  | some z ↦ (t.timestamp, z) ∷ samples ts
]

unfoldable pub last_sample : ℕ × ℤ → List (ℕ × ℤ) → ℕ × ℤ
last_sample s [] = s
last_sample s (t ∷ ts) = last_sample t ts

-- The change in thousandths over the milliseconds elapsed, as a fraction.
unfoldable pub slope : List (ℕ × ℤ) → Option (ℤ × ℕ)
unfolding last_sample
slope [] = none
slope (a ∷ []) = none
slope (a ∷ b ∷ rest) =
    let z = last_sample b rest in if leb z.0 a.0 then none else some (z.1 -ℤ a.1, z.0 - a.0)

unfoldable pub rate : StateHistory → String → ℕ → ℕ → Option (ℤ × ℕ)
unfolding transitions_of samples slope
rate h field seconds now = slope (samples (transitions_of h (some field) (some (now, seconds))))

unfoldable pub latest_value : StateHistory → String → Value
latest_value h field = elim (lookup field h.last) [ none ↦ nothing | some v ↦ v ]

unfoldable pub clear : StateHistory → StateHistory
clear h = record h { transitions = []; last = [] }
