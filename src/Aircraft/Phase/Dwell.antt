-- ===== src/Aircraft/Phase/Dwell.antt =====
-- A flight phase is adopted only after it has been inferred for its dwell time.
use dcs_copilot.Prelude.{
  ℕ, ◌+◌, ◌≤◌, String, ◌≡◌, refl, sym, ap, subst, ◌∙◌, ◌⊎◌, inl, inr, Bool, true, false, Option,
  none, some, List, [], ◌∷◌, arith, str_eq, eq_iff, if◌then◌else◌, leb→le,
}
use dcs_copilot.Aircraft.State.{
  unknown, cold_dark, startup, taxi, takeoff, climb, cruise, combat, refueling, approach, landing,
  post_landing, AircraftState, FlightPhase, same_phase, phase_value,
}
use dcs_copilot.Aircraft.History.{StateHistory}
use dcs_copilot.Aircraft.Phase.{
  PhaseDetectorConfig, FlightPhaseDetector, new_detector, infer, dwell_of, elapsed_dwell,
  note_phase, adopt, update_with, update,
}

-- The latest of the inferences, made at their times, all name the phase, back to the time `since`.
abbrev pub Stands : FlightPhase → ℕ → List (FlightPhase × ℕ) → Type 0
Stands p since [] = ⊥
Stands p since ((q, t) ∷ rest) = (same_phase q p ≡ true) × ((t ≡ since) ⊎ Stands p since rest)

-- The moments at which the detector is updated.
abbrev pub Moment : Type 0
Moment = AircraftState × StateHistory × ℕ

-- The detector and its inferences, the latest first.
abbrev pub run :
    List Moment
    → FlightPhaseDetector
    → List (FlightPhase × ℕ)
    → FlightPhaseDetector × List (FlightPhase × ℕ)
run [] d seen = (d, seen)
run ((state, history, now) ∷ rest) d seen =
    run rest (update d state history now).0 ((infer d state history now, now) ∷ seen)

abbrev Candidate : FlightPhase → Option ℕ → List (FlightPhase × ℕ) → Type 0
Candidate p none seen = Unit
Candidate p (some since) seen = Stands p since seen

-- The phase of a text.
abbrev phase_of : String → FlightPhase
phase_of s =
    if str_eq s "COLD_DARK"
    then cold_dark
    else if str_eq s "STARTUP"
    then startup
    else if str_eq s "TAXI"
    then taxi
    else if str_eq s "TAKEOFF"
    then takeoff
    else if str_eq s "CLIMB"
    then climb
    else if str_eq s "CRUISE"
    then cruise
    else if str_eq s "COMBAT"
    then combat
    else if str_eq s "REFUELING"
    then refueling
    else if str_eq s "APPROACH"
    then approach
    else if str_eq s "LANDING"
    then landing
    else if str_eq s "POST_LANDING"
    then post_landing
    else unknown

phase_of-phase_value : (p : FlightPhase) → phase_of (phase_value p) ≡ p
unfolding phase_value
phase_of-phase_value unknown = refl
phase_of-phase_value cold_dark = refl
phase_of-phase_value startup = refl
phase_of-phase_value taxi = refl
phase_of-phase_value takeoff = refl
phase_of-phase_value climb = refl
phase_of-phase_value cruise = refl
phase_of-phase_value combat = refl
phase_of-phase_value refueling = refl
phase_of-phase_value approach = refl
phase_of-phase_value landing = refl
phase_of-phase_value post_landing = refl

pub same_phase-eq : (p q : FlightPhase) → same_phase p q ≡ true → p ≡ q
unfolding same_phase
same_phase-eq p q h =
    sym (phase_of-phase_value p)
    ∙ ap phase_of ((eq_iff (phase_value p) (phase_value q)).0 h)
    ∙ phase_of-phase_value q

same_phase_refl : (p : FlightPhase) → same_phase p p ≡ true
unfolding same_phase
same_phase_refl p = (eq_iff (phase_value p) (phase_value p)).1 refl

-- Both branches of a test have the property.
pub branches {ℓ κ} :
    {A : Type ℓ} (P : A → Type κ) (b : Bool) (x y : A)
    → (b ≡ true → P x)
    → (b ≡ false → P y)
    → P (if b then x else y)
branches P true x y h k = h refl
branches P false x y h k = k refl

Candidate-later :
    (p : FlightPhase) (o : Option ℕ) (now : ℕ) (seen : List (FlightPhase × ℕ))
    → Candidate p o seen
    → Candidate p o ((p, now) ∷ seen)
Candidate-later p none now seen h = tt
Candidate-later p (some since) now seen h = (same_phase_refl p, inr h)

note_phase-Candidate :
    (d : FlightPhaseDetector) (p : FlightPhase) (now : ℕ) (seen : List (FlightPhase × ℕ))
    → Candidate d.candidate d.candidate_since seen
    → Candidate
        (note_phase d p now).candidate
        (note_phase d p now).candidate_since
        ((p, now) ∷ seen)
unfolding note_phase
note_phase-Candidate d p now seen h =
    branches
      (λ (e : FlightPhaseDetector). Candidate e.candidate e.candidate_since ((p, now) ∷ seen))
      (same_phase p d.candidate) d (record d { candidate = p; candidate_since = some now })
      (λ e.
        subst (λ (q : FlightPhase). Candidate d.candidate d.candidate_since ((q, now) ∷ seen))
          (sym (same_phase-eq p d.candidate e))
          (Candidate-later d.candidate d.candidate_since now seen h))
      (λ e. (same_phase_refl p, inl refl))

note_phase-same :
    (d : FlightPhaseDetector) (p : FlightPhase) (now : ℕ) → (note_phase d p now).candidate ≡ p
unfolding note_phase
note_phase-same d p now =
    branches (λ (e : FlightPhaseDetector). e.candidate ≡ p) (same_phase p d.candidate) d
      (record d { candidate = p; candidate_since = some now })
      (λ e. sym (same_phase-eq p d.candidate e)) (λ e. refl)

adopt-Candidate :
    (d : FlightPhaseDetector) (p : FlightPhase) (now : ℕ) (seen : List (FlightPhase × ℕ))
    → Candidate d.candidate d.candidate_since seen
    → Candidate (adopt d p now).candidate (adopt d p now).candidate_since seen
unfolding adopt
adopt-Candidate d p now seen h =
    branches (λ (e : FlightPhaseDetector). Candidate e.candidate e.candidate_since seen)
      (elapsed_dwell d.candidate_since now
        (dwell_of d.config.phase_dwell_seconds d.config.default_dwell_seconds p))
      _ d (λ e. tt) (λ e. h)

-- What a change to a phase rests on.
abbrev pub Earned : PhaseDetectorConfig → FlightPhase → ℕ → List (FlightPhase × ℕ) → Type 0
Earned config p now seen =
    (since : ℕ) × Stands p since seen
    × (since + dwell_of config.phase_dwell_seconds config.default_dwell_seconds p ≤ now)

earned :
    (config : PhaseDetectorConfig) (p : FlightPhase) (now : ℕ) (o : Option ℕ)
    (seen : List (FlightPhase × ℕ))
    → Candidate p o seen
    → elapsed_dwell o now (dwell_of config.phase_dwell_seconds config.default_dwell_seconds p)
      ≡ true
    → Earned config p now seen
unfolding elapsed_dwell
earned config p now none seen h e = cc
earned config p now (some since) seen h e = (
  since,
  h,
  leb→le (since + dwell_of config.phase_dwell_seconds config.default_dwell_seconds p) now e,
)

-- A current phase that is the old one or is earned.
abbrev Change :
    PhaseDetectorConfig → FlightPhase → ℕ → List (FlightPhase × ℕ) → FlightPhaseDetector → Type 0
Change config old now seen e = (e.current ≡ old) ⊎ Earned config e.current now seen

adopt-Change :
    (d : FlightPhaseDetector) (p : FlightPhase) (now : ℕ) (seen : List (FlightPhase × ℕ))
    → d.candidate ≡ p
    → Candidate d.candidate d.candidate_since seen
    → Change d.config d.current now seen (adopt d p now)
unfolding adopt
adopt-Change d p now seen same h =
    branches (Change d.config d.current now seen)
      (elapsed_dwell d.candidate_since now
        (dwell_of d.config.phase_dwell_seconds d.config.default_dwell_seconds p))
      _ d
      (λ e. inr (
        earned d.config p now d.candidate_since seen
          (subst (λ (q : FlightPhase). Candidate q d.candidate_since seen) same h) e))
      (λ e. inl refl)

note_phase-keeps :
    (d : FlightPhaseDetector) (p : FlightPhase) (now : ℕ)
    → ((note_phase d p now).config ≡ d.config) × ((note_phase d p now).current ≡ d.current)
unfolding note_phase
note_phase-keeps d p now = ground arith

adopt-config :
    (d : FlightPhaseDetector) (p : FlightPhase) (now : ℕ) → (adopt d p now).config ≡ d.config
unfolding adopt
adopt-config d p now = ground arith

-- One update keeps the candidate and the configuration, and changes the phase only if it is earned.
abbrev Updated : FlightPhaseDetector → ℕ → List (FlightPhase × ℕ) → FlightPhaseDetector → Type 0
Updated d now seen e =
    Candidate e.candidate e.candidate_since seen
    × (e.config ≡ d.config)
    × Change d.config d.current now seen e

update_with-Updated :
    (d : FlightPhaseDetector) (p : FlightPhase) (now : ℕ) (seen : List (FlightPhase × ℕ))
    → Candidate d.candidate d.candidate_since seen
    → Updated d now ((p, now) ∷ seen) (update_with d p now)
unfolding update_with
update_with-Updated d p now seen h =
    let n = note_phase d p now in
    let c = note_phase-Candidate d p now seen h in
    let (k, l) = note_phase-keeps d p now in
    branches (Updated d now ((p, now) ∷ seen)) (same_phase p d.current)
      (record d { candidate = p; candidate_since = none }) (adopt n p now)
      (λ e. (tt, refl, inl refl))
      (λ e. (
        adopt-Candidate n p now ((p, now) ∷ seen) c,
        adopt-config n p now ∙ k,
        subst
            (λ (x : PhaseDetectorConfig). Change x d.current now ((p, now) ∷ seen) (adopt n p now))
            k
            (subst (λ (x : FlightPhase). Change n.config x now ((p, now) ∷ seen) (adopt n p now)) l
              (adopt-Change n p now ((p, now) ∷ seen) (note_phase-same d p now) c)),
      ))

run-Candidate :
    (ms : List Moment) (d : FlightPhaseDetector) (seen : List (FlightPhase × ℕ))
    → Candidate d.candidate d.candidate_since seen
    → let r = run ms d seen in
      Candidate r.0.candidate r.0.candidate_since r.1 × (r.0.config ≡ d.config)
unfolding update
run-Candidate [] d seen h = (h, refl)
run-Candidate ((state, history, now) ∷ rest) d seen h =
    let p = infer d state history now in
    let (c, k, l) = update_with-Updated d p now seen h in
    let (a, b) = run-Candidate rest (update_with d p now) ((p, now) ∷ seen) c in (a, b ∙ k)

-- After any updates of a new detector, the next update leaves the phase as it is, or the phase that
-- it returns has been inferred without interruption, at this and at the preceding updates, back to
-- an update that is its dwell time or longer ago.
pub update-dwell :
    (config : PhaseDetectorConfig) (ms : List Moment) (state : AircraftState)
    (history : StateHistory) (now : ℕ)
    → let r = run ms (new_detector config) [] in
      let p = (update r.0 state history now).1 in
      (p ≡ r.0.current) ⊎ Earned config p now ((infer r.0 state history now, now) ∷ r.1)
unfolding update
update-dwell config ms state history now =
    let r = run ms (new_detector config) [] in
    let (c, k) = run-Candidate ms (new_detector config) [] tt in
    let p = infer r.0 state history now in
    subst
      (λ (x : PhaseDetectorConfig).
        Change x r.0.current now ((p, now) ∷ r.1) (update_with r.0 p now))
      k (update_with-Updated r.0 p now r.1 c).2
