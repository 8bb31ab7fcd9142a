-- ===== src/Events/Policy.antt =====
-- A more talkative mode of the speech policy never silences a transition.
use dcs_copilot.Prelude.{ℕ, ◌≤◌, String, ◌≡◌, refl, true, false, Option, none, some, arith}
use dcs_copilot.Prelude.Dict.{lookup}
use dcs_copilot.Aircraft.Value.{Value, text, member, flag, number, nothing}
use dcs_copilot.Rules.Base.{
  RuleTransition, ActiveIssue, Severity, info, advisory, warning, critical,
}
use dcs_copilot.Events.{
  SpeechMode, minimal, normal, coach, SpeechPolicy, mode_rank, allows, allows_issue,
  allows_severity, reaches, rank_of, is_coach, is_minimal,
}

louder :
    (a b : SpeechMode)
    → mode_rank a ≤ mode_rank b
    → (is_coach a ≡ true → is_coach b ≡ true) × (is_minimal a ≡ false → is_minimal b ≡ false)
unfolding is_coach is_minimal mode_rank
louder minimal b h = (λ e. cc, λ e. cc)
louder normal minimal h = absurd (omega (arith, h))
louder normal normal h = (λ e. e, λ e. e)
louder normal coach h = (λ e. refl, λ e. refl)
louder coach minimal h = absurd (omega (arith, h))
louder coach normal h = absurd (omega (arith, h))
louder coach coach h = (λ e. e, λ e. e)

allows_severity_monotone :
    (p : SpeechPolicy) (m : SpeechMode) (rule : String) (s : Severity)
    → mode_rank p.mode ≤ mode_rank m
    → allows_severity p rule s ≡ true
    → allows_severity (record p { mode = m }) rule s ≡ true
unfolding allows_severity
allows_severity_monotone p m rule critical h a = refl
allows_severity_monotone p m rule warning h a = ground (arith, louder p.mode m h)
allows_severity_monotone p m rule advisory h a = ground (arith, louder p.mode m h)
allows_severity_monotone p m rule info h a = ground (arith, louder p.mode m h)

reaches_monotone :
    (o : Option ℕ) (p m : SpeechMode)
    → mode_rank p ≤ mode_rank m
    → reaches o p ≡ true
    → reaches o m ≡ true
unfolding reaches
reaches_monotone none p m h a = cc
reaches_monotone (some r) p m h a = ground arith

allows_issue_monotone :
    (p : SpeechPolicy) (m : SpeechMode) (i : ActiveIssue) (v : Option Value)
    → mode_rank p.mode ≤ mode_rank m
    → allows_issue p i v ≡ true
    → allows_issue (record p { mode = m }) i v ≡ true
unfolding allows_issue
allows_issue_monotone p m i none h a = allows_severity_monotone p m i.rule_id i.severity h a
allows_issue_monotone p m i (some (text s)) h a = reaches_monotone (rank_of s) p.mode m h a
allows_issue_monotone p m i (some (member s)) h a = reaches_monotone (rank_of s) p.mode m h a
allows_issue_monotone p m i (some nothing) h a =
    allows_severity_monotone p m i.rule_id i.severity h a
allows_issue_monotone p m i (some (flag b)) h a =
    allows_severity_monotone p m i.rule_id i.severity h a
allows_issue_monotone p m i (some (number z)) h a =
    allows_severity_monotone p m i.rule_id i.severity h a

-- What a policy allows to be spoken, it allows in every mode of at least the same rank: from
-- minimal through normal to coach, transitions are only added.
pub allows_monotone :
    (p : SpeechPolicy) (m : SpeechMode) (t : RuleTransition)
    → mode_rank p.mode ≤ mode_rank m
    → allows p t ≡ true
    → allows (record p { mode = m }) t ≡ true
unfolding allows
allows_monotone p m t h a =
    ground (arith, allows_issue_monotone p m t.issue (lookup "minimum_mode" t.issue.details) h)
