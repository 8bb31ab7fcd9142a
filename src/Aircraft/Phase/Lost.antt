-- ===== src/Aircraft/Phase/Lost.antt =====
-- A phase detector that loses its data says so at once.
use dcs_copilot.Prelude.{
  ℕ, ◌≡◌, refl, sym, ap, subst, ◌∙◌, ◌≢◌, ◌⊎◌, inl, inr, true, false, ◌&&◌, Option, none, some,
  List, [], ◌∷◌, arith,
}
use dcs_copilot.Aircraft.State.{AircraftState, FlightPhase, unknown}
use dcs_copilot.Aircraft.History.{StateHistory}
use dcs_copilot.Aircraft.Phase.{
  PhaseDetectorConfig, FlightPhaseDetector, new_detector, field_usable, infer, dwell_of,
  elapsed_dwell, note_phase, adopt, update_with, update, same_phase,
}
use dcs_copilot.Aircraft.Phase.Dwell.{branches, Moment, run, same_phase-eq}

abbrev pub dwell : PhaseDetectorConfig → FlightPhase → ℕ
dwell config p = dwell_of config.phase_dwell_seconds config.default_dwell_seconds p

-- Without a pending candidate the candidate is the current phase, and `unknown` is never pending.
record Settled (d : FlightPhaseDetector) : Type 0 where
  idle : d.candidate_since ≡ none → d.candidate ≡ d.current
  prompt : d.candidate ≡ unknown → d.candidate_since ≡ none
  zero_dwell : dwell d.config unknown ≡ 0

differ : true ≢ false
differ e = cc

elapsed_at_once : (now n : ℕ) → n ≡ 0 → elapsed_dwell (some now) now n ≡ true
unfolding elapsed_dwell
elapsed_at_once now n h = ground (arith, h)

-- After the candidate is noted, `unknown` is pending only since this moment.
record Noted (p : FlightPhase) (now : ℕ) (d : FlightPhaseDetector) : Type 0 where
  same : d.candidate ≡ p
  idle : d.candidate_since ≡ none → d.candidate ≡ d.current
  ready : d.candidate ≡ unknown → (d.candidate_since ≡ none) ⊎ (d.candidate_since ≡ some now)
  zero_dwell : dwell d.config unknown ≡ 0

note_phase-Noted :
    (d : FlightPhaseDetector) (p : FlightPhase) (now : ℕ)
    → Settled d
    → Noted p now (note_phase d p now)
unfolding note_phase
note_phase-Noted d p now s =
    branches (Noted p now) (same_phase p d.candidate) d
      (record d { candidate = p; candidate_since = some now })
      (λ e. record {
        same = sym (same_phase-eq p d.candidate e);
        idle = s.idle;
        ready = λ c. inl (s.prompt c);
        zero_dwell = s.zero_dwell;
      })
      (λ e. record {
        same = refl;
        idle = λ c. cc;
        ready = λ c. inr refl;
        zero_dwell = s.zero_dwell;
      })

not_waiting :
    (p : FlightPhase) (now : ℕ) (d : FlightPhaseDetector)
    → Noted p now d
    → p ≡ unknown
    → elapsed_dwell d.candidate_since now (dwell d.config p) ≡ false
    → d.candidate_since ≡ none
not_waiting p now d n u f = elim (n.ready (n.same ∙ u)) [
  | inl h ↦ h
  | inr h ↦
      let at_once : elapsed_dwell (some now) now (dwell d.config p) ≡ true =
        elapsed_at_once now (dwell d.config p) (ap (dwell d.config) u ∙ n.zero_dwell) in
      let waits : elapsed_dwell (some now) now (dwell d.config p) ≡ false =
        subst (λ (o : Option ℕ). elapsed_dwell o now (dwell d.config p) ≡ false) h f in
      absurd (differ (sym at_once ∙ waits))
]

abbrev Idle : FlightPhaseDetector → Type 0
Idle e = e.candidate_since ≡ none → e.candidate ≡ e.current

abbrev Prompt : FlightPhaseDetector → Type 0
Prompt e = e.candidate ≡ unknown → e.candidate_since ≡ none

adopt-current :
    (d : FlightPhaseDetector) (now : ℕ)
    → Noted unknown now d
    → (adopt d unknown now).current ≡ unknown
unfolding adopt
adopt-current d now n =
    branches (λ (e : FlightPhaseDetector). e.current ≡ unknown)
      (elapsed_dwell d.candidate_since now (dwell d.config unknown))
      (record d { current = unknown; phase_since = some now; candidate_since = none }) d (λ e. refl)
      (λ e. sym (n.idle (not_waiting unknown now d n refl e)) ∙ n.same)

adopt-Idle :
    (d : FlightPhaseDetector) (p : FlightPhase) (now : ℕ) → Noted p now d → Idle (adopt d p now)
unfolding adopt
adopt-Idle d p now n =
    branches Idle (elapsed_dwell d.candidate_since now (dwell d.config p))
      (record d { current = p; phase_since = some now; candidate_since = none }) d (λ e c. n.same)
      (λ e. n.idle)

adopt-Prompt :
    (d : FlightPhaseDetector) (p : FlightPhase) (now : ℕ) → Noted p now d → Prompt (adopt d p now)
unfolding adopt
adopt-Prompt d p now n =
    branches Prompt (elapsed_dwell d.candidate_since now (dwell d.config p))
      (record d { current = p; phase_since = some now; candidate_since = none }) d (λ e c. refl)
      (λ e c. not_waiting p now d n (sym n.same ∙ c) e)

update_with-unknown :
    (d : FlightPhaseDetector) (now : ℕ) → Settled d → (update_with d unknown now).current ≡ unknown
unfolding update_with
update_with-unknown d now s =
    branches (λ (e : FlightPhaseDetector). e.current ≡ unknown) (same_phase unknown d.current)
      (record d { candidate = unknown; candidate_since = none })
      (adopt (note_phase d unknown now) unknown now) (λ e. sym (same_phase-eq unknown d.current e))
      (λ e. adopt-current (note_phase d unknown now) now (note_phase-Noted d unknown now s))

update_with-Idle :
    (d : FlightPhaseDetector) (p : FlightPhase) (now : ℕ) → Settled d → Idle (update_with d p now)
unfolding update_with
update_with-Idle d p now s =
    branches Idle (same_phase p d.current) (record d { candidate = p; candidate_since = none })
      (adopt (note_phase d p now) p now) (λ e c. same_phase-eq p d.current e)
      (λ e. adopt-Idle (note_phase d p now) p now (note_phase-Noted d p now s))

update_with-Prompt :
    (d : FlightPhaseDetector) (p : FlightPhase) (now : ℕ) → Settled d → Prompt (update_with d p now)
unfolding update_with
update_with-Prompt d p now s =
    branches Prompt (same_phase p d.current) (record d { candidate = p; candidate_since = none })
      (adopt (note_phase d p now) p now) (λ e c. refl)
      (λ e. adopt-Prompt (note_phase d p now) p now (note_phase-Noted d p now s))

update_with-config :
    (d : FlightPhaseDetector) (p : FlightPhase) (now : ℕ) → (update_with d p now).config ≡ d.config
unfolding update_with note_phase adopt
update_with-config d p now = ground arith

update_with-Settled :
    (d : FlightPhaseDetector) (p : FlightPhase) (now : ℕ)
    → Settled d
    → Settled (update_with d p now)
update_with-Settled d p now s = record {
  idle = update_with-Idle d p now s;
  prompt = update_with-Prompt d p now s;
  zero_dwell =
      ap (λ (c : PhaseDetectorConfig). dwell c unknown) (update_with-config d p now) ∙ s.zero_dwell;
}

run-Settled :
    (ms : List Moment) (d : FlightPhaseDetector) (seen : List (FlightPhase × ℕ))
    → Settled d
    → Settled (run ms d seen).0
unfolding update
run-Settled [] d seen s = s
run-Settled ((state, history, now) ∷ rest) d seen s =
    run-Settled rest (update_with d (infer d state history now) now) _
      (update_with-Settled d (infer d state history now) now s)

infer-lost :
    (d : FlightPhaseDetector) (state : AircraftState) (history : StateHistory) (now : ℕ)
    → (state.connected && field_usable state "weight_on_wheels") ≡ false
    → infer d state history now ≡ unknown
unfolding infer
infer-lost d state history now h = ground (arith, h)

-- Under a configuration without a dwell time for UNKNOWN, as the default one, and after any updates
-- of a new detector: an update with an aircraft that is not connected, or whose weight-on-wheels
-- sensor is not usable, returns UNKNOWN at once.
pub update-lost :
    (config : PhaseDetectorConfig) (ms : List Moment) (state : AircraftState)
    (history : StateHistory) (now : ℕ)
    → dwell config unknown ≡ 0
    → (state.connected && field_usable state "weight_on_wheels") ≡ false
    → (update (run ms (new_detector config) []).0 state history now).1 ≡ unknown
unfolding update
update-lost config ms state history now z h =
    let d = (run ms (new_detector config) []).0 in
    let s =
      run-Settled ms (new_detector config) []
        (record { idle = λ e. refl; prompt = λ e. refl; zero_dwell = z }) in
    ap (λ (p : FlightPhase). (update_with d p now).current) (infer-lost d state history now h)
    ∙ update_with-unknown d now s
