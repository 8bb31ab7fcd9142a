-- ===== src/Aircraft/Examples.antt =====
-- The history and the phase detector on concrete states.
use dcs_copilot.Prelude.{
  ◌↔◌, Never, All-imp, All-select, select-All, >>=-some, Returns, Returns-bind, Returns-some, ◌>>=◌,
  >>=-assoc, ℕ, zero, suc, ◌+◌, ◌-◌, ◌*◌, ◌/◌, ◌%◌, ◌^◌, ◌≤◌, ◌<◌, String, ◌≡◌, refl, sym, ap,
  subst, ◌∙◌, ◌≢◌, ◌⊎◌, inl, inr, Bool, true, false, ◌&&◌, ◌||◌, not, Option, none, some, List, [],
  ◌∷◌, ◌++◌, map, arith, str_eq, eq_iff, ltb, leb, ◌==◌, if◌then◌else◌, ltb→lt, ltb→le, leb→le,
  ==→eq, tests, Bool-cases, Option-cases, length, length-append, get_or, take, drop, length-drop,
  all_of, any_of, select, All, All-append,
}
use dcs_copilot.Aircraft.Value.{Value, flag, number, nothing}
use dcs_copilot.Prelude.Int.{pos}
use dcs_copilot.Aircraft.State.{AircraftState, TelemetryValue, unknown, cold_dark}
use dcs_copilot.Aircraft.History.{StateHistory, StateTransition, new_history, record_state}
use dcs_copilot.Aircraft.History.Window.{
  Ordered, UpTo, At, recent, record_state-window, record_state-Ordered,
}
use dcs_copilot.Aircraft.Phase.{dwell_of, default_config, new_detector, infer, update}
use dcs_copilot.Aircraft.Phase.Lost.{dwell, update-lost}
use dcs_copilot.Aircraft.Phase.Dwell.{Moment, run, Earned, update-dwell}

abbrev shown : Value → TelemetryValue
shown v = record { value = v; available = true; updated_at = none; source = none; stale = false }

-- A parked aircraft whose engines turn at `rpm` thousandths of a percent.
abbrev parked : ℕ → AircraftState
parked rpm = record {
  aircraft = some "FA-18C_hornet";
  connected = true;
  flight_phase = unknown;
  telemetry =
      ("weight_on_wheels", shown (flag true))
      ∷ ("engine_rpm_left", shown (number (pos rpm)))
      ∷ ("engine_rpm_right", shown (number (pos rpm)))
      ∷ [];
}

abbrev earlier : StateTransition
earlier = record {
  field = "hook_down";
  old_value = nothing;
  new_value = flag true;
  timestamp = 1000;
}

abbrev later : StateTransition
later = record {
  field = "hook_down";
  old_value = flag true;
  new_value = flag false;
  timestamp = 50000;
}

abbrev past : StateHistory
past = record (new_history 60000 []) { transitions = earlier ∷ later ∷ [] }

record_state-window_example :
    (new : List StateTransition) × ((record_state past (parked 0) 70000).0.transitions
      ≡ select (recent past.retention_seconds 70000) past.transitions ++ new)
    × At 70000 new
record_state-window_example =
    record_state-window past (parked 0) 70000 ((omega arith, tt), (tt, tt))
      (omega arith, (omega arith, tt))

record_state-Ordered_example :
    let ts = (record_state past (parked 0) 70000).0.transitions in
    Ordered ts
    × UpTo 70000 ts
    × All (λ (t : StateTransition). 70000 ≤ t.timestamp + past.retention_seconds) ts
record_state-Ordered_example =
    record_state-Ordered past (parked 0) 70000 ((omega arith, tt), (tt, tt))
      (omega arith, (omega arith, tt))

abbrev watched : List Moment
watched = (parked 0, past, 70000) ∷ (parked 0, past, 71000) ∷ []

update-dwell_example :
    let r = run watched (new_detector default_config) [] in
    let p = (update r.0 (parked 0) past 71500).1 in
    (p ≡ r.0.current)
    ⊎ Earned default_config p 71500 ((infer r.0 (parked 0) past 71500, 71500) ∷ r.1)
update-dwell_example = update-dwell default_config watched (parked 0) past 71500

-- The phase changes at the end of the dwell time.
adopted :
    let r = run watched (new_detector default_config) [] in
    (r.0.current ≡ unknown) × ((update r.0 (parked 0) past 71500).1 ≡ cold_dark)
unfolding update dcs_copilot.Prelude.Dict.lookup
adopted = (refl, refl)

abbrev disconnected : AircraftState
disconnected = record (parked 0) { connected = false }

no_dwell : dwell default_config unknown ≡ 0
unfolding dwell_of
no_dwell = refl

update-lost_example :
    (update (run watched (new_detector default_config) []).0 disconnected past 72000).1 ≡ unknown
update-lost_example = update-lost default_config watched disconnected past 72000 no_dwell refl
