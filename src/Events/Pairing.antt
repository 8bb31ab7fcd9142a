-- ===== src/Events/Pairing.antt =====
-- The events that close an issue belong to the event that raised it.
use dcs_copilot.Prelude.{
  String, ◌≡◌, refl, sym, ap, subst, ◌∙◌, ◌≢◌, inl, inr, Bool, true, false, some, List, [], ◌∷◌,
  arith, str_eq, eq_iff, if◌then◌else◌, Bool-cases, Option-cases, All,
}
use dcs_copilot.Prelude.Dict.{Dict, lookup, insert, lookup-insert, lookup-remove}
use dcs_copilot.Rules.Base.{RuleTransition}
use dcs_copilot.Events.{
  EventManager, ManagedEvent, is_activated, holds, without, get_id, event_of, raise_event,
  close_event, handle_transition, allows,
}

-- An identifier that no event of the manager bears.
abbrev pub Unused : String → EventManager → Type 0
Unused i m =
    (holds m.published_event_ids i ≡ false) × ((r : String) → lookup r m.active_event_ids ≢ some i)

-- The issue of `rule` is open under the identifier `i`, which is published or not, and no other
-- issue bears it.
abbrev Open : String → String → Bool → EventManager → Type 0
Open rule i published m =
    (lookup rule m.active_event_ids ≡ some i)
    × (holds m.published_event_ids i ≡ published)
    × ((r : String) → str_eq rule r ≡ false → lookup r m.active_event_ids ≢ some i)

abbrev pub run : EventManager → List (RuleTransition × String) → EventManager
run m [] = m
run m ((t, fresh) ∷ rest) = run (handle_transition m t fresh).0 rest

-- A transition of another rule, with an identifier of its own.
abbrev pub Apart : String → String → RuleTransition × String → Type 0
Apart rule i (t, fresh) = (str_eq rule t.issue.rule_id ≡ false) × (str_eq fresh i ≡ false)

holds-without :
    (ids : List String) (x i : String) → str_eq x i ≡ false → holds (without ids x) i ≡ holds ids i
unfolding holds without
holds-without [] x i h = refl
holds-without (y ∷ ys) x i h =
    ground (arith, holds-without ys x i h, eq_iff y x, eq_iff y i, eq_iff x i)

raised_case :
    (m : EventManager) (t : RuleTransition) (fresh : String)
    → is_activated t.kind ≡ true
    → handle_transition m t fresh ≡ raise_event m t fresh
unfolding handle_transition
raised_case m t fresh h = ap (λ b. if b then raise_event m t fresh else close_event m t fresh) h

closed_case :
    (m : EventManager) (t : RuleTransition) (fresh : String)
    → is_activated t.kind ≡ false
    → handle_transition m t fresh ≡ close_event m t fresh
unfolding handle_transition
closed_case m t fresh h = ap (λ b. if b then raise_event m t fresh else close_event m t fresh) h

holds-added :
    (b : Bool) (ids : List String) (x i : String)
    → str_eq x i ≡ false
    → holds (if b then x ∷ ids else ids) i ≡ holds ids i
unfolding holds
holds-added b ids x i h = ground arith

holds-itself :
    (b : Bool) (ids : List String) (i : String)
    → holds ids i ≡ false
    → holds (if b then i ∷ ids else ids) i ≡ b
unfolding holds
holds-itself b ids i h = ground (arith, eq_iff i i)

kept_out :
    (r rule fresh i : String) (d : Dict String)
    → str_eq fresh i ≡ false
    → lookup r d ≢ some i
    → lookup r (insert rule fresh d) ≢ some i
kept_out r rule fresh i d k h e = ground (arith, lookup-insert rule r fresh d, eq_iff fresh i)

raise_event-Open :
    (rule i : String) (b : Bool) (m : EventManager) (t : RuleTransition) (fresh : String)
    → Apart rule i (t, fresh)
    → Open rule i b m
    → Open rule i b (raise_event m t fresh).0
unfolding raise_event
raise_event-Open rule i b m t fresh (h, k) (o, p, q) = (
  ground (
    arith,
    lookup-insert t.issue.rule_id rule fresh m.active_event_ids,
    eq_iff rule t.issue.rule_id,
    eq_iff t.issue.rule_id rule,
  ),
  holds-added (allows m.speech_policy t) m.published_event_ids fresh i k ∙ p,
  λ r e. kept_out r t.issue.rule_id fresh i m.active_event_ids k (q r e),
)

close_id :
    (rule i : String) (b : Bool) (m : EventManager) (t : RuleTransition) (fresh : String)
    → Apart rule i (t, fresh)
    → Open rule i b m
    → str_eq (get_id (lookup t.issue.rule_id m.active_event_ids) fresh) i ≡ false
unfolding get_id
close_id rule i b m t fresh (h, k) (o, p, q) =
    elim (Option-cases (lookup t.issue.rule_id m.active_event_ids)) [
      | inl e ↦ rw e k
      | inr (j, e) ↦ ground (arith, e, q t.issue.rule_id h, eq_iff j i)
    ]

close_event-Open :
    (rule i : String) (b : Bool) (m : EventManager) (t : RuleTransition) (fresh : String)
    → Apart rule i (t, fresh)
    → Open rule i b m
    → Open rule i b (close_event m t fresh).0
unfolding close_event
close_event-Open rule i b m t fresh (h, k) (o, p, q) = (
  ground (
    arith,
    lookup-remove t.issue.rule_id rule m.active_event_ids,
    eq_iff rule t.issue.rule_id,
    eq_iff t.issue.rule_id rule,
  ),
  holds-without m.published_event_ids (get_id (lookup t.issue.rule_id m.active_event_ids) fresh) i
        (close_id rule i b m t fresh (h, k) (o, p, q))
      ∙ p,
  λ r e f. ground (arith, lookup-remove t.issue.rule_id r m.active_event_ids, q r e),
)

handle_transition-Open :
    (rule i : String) (b : Bool) (m : EventManager) (t : RuleTransition) (fresh : String)
    → Apart rule i (t, fresh)
    → Open rule i b m
    → Open rule i b (handle_transition m t fresh).0
handle_transition-Open rule i b m t fresh a o = elim (Bool-cases (is_activated t.kind)) [
  | inl e ↦
      subst (λ (r : EventManager × ManagedEvent). Open rule i b r.0) (sym (raised_case m t fresh e))
        (raise_event-Open rule i b m t fresh a o)
  | inr e ↦
      subst (λ (r : EventManager × ManagedEvent). Open rule i b r.0) (sym (closed_case m t fresh e))
        (close_event-Open rule i b m t fresh a o)
]

run-Open :
    (rule i : String) (b : Bool) (ts : List (RuleTransition × String)) (m : EventManager)
    → All (Apart rule i) ts
    → Open rule i b m
    → Open rule i b (run m ts)
run-Open rule i b [] m a o = o
run-Open rule i b ((t, fresh) ∷ rest) m a o =
    run-Open rule i b rest (handle_transition m t fresh).0 a.1
      (handle_transition-Open rule i b m t fresh a.0 o)

raise_event-opens :
    (m : EventManager) (t : RuleTransition) (i : String)
    → Unused i m
    → Open t.issue.rule_id i (raise_event m t i).1.publish (raise_event m t i).0
unfolding raise_event
raise_event-opens m t i (u, w) = (
  lookup-insert t.issue.rule_id t.issue.rule_id i m.active_event_ids
      ∙ ground (arith, eq_iff t.issue.rule_id t.issue.rule_id),
  holds-itself (allows m.speech_policy t) m.published_event_ids i u,
  λ r e f. ground (arith, lookup-insert t.issue.rule_id r i m.active_event_ids, w r),
)

opens :
    (m : EventManager) (t : RuleTransition) (i : String)
    → is_activated t.kind ≡ true
    → Unused i m
    → Open t.issue.rule_id i (handle_transition m t i).1.publish (handle_transition m t i).0
opens m t i h u =
    subst (λ (r : EventManager × ManagedEvent). Open t.issue.rule_id i r.1.publish r.0)
      (sym (raised_case m t i h)) (raise_event-opens m t i u)

close_event-closes :
    (i : String) (b : Bool) (m : EventManager) (t : RuleTransition) (fresh : String)
    → Open t.issue.rule_id i b m
    → let e = (close_event m t fresh).1 in
      (e.event.event_id ≡ i) × (e.publish ≡ b) × (e.speak ≡ false)
unfolding close_event event_of get_id
close_event-closes i b m t fresh (o, p, q) = rw o (refl, p, refl)

closes :
    (rule i : String) (b : Bool) (m : EventManager) (t : RuleTransition) (fresh : String)
    → Open rule i b m
    → t.issue.rule_id ≡ rule
    → is_activated t.kind ≡ false
    → let e = (handle_transition m t fresh).1 in
      (e.event.event_id ≡ i) × (e.publish ≡ b) × (e.speak ≡ false)
closes rule i b m t fresh o h k =
    subst
      (λ (r : EventManager × ManagedEvent).
        (r.1.event.event_id ≡ i) × (r.1.publish ≡ b) × (r.1.speak ≡ false))
      (sym (closed_case m t fresh k))
      (close_event-closes i b m t fresh (subst (λ (x : String). Open x i b m) (sym h) o))

raised :
    (m : EventManager) (t : RuleTransition) (i : String)
    → is_activated t.kind ≡ true
    → (handle_transition m t i).1.event.event_id ≡ i
unfolding raise_event event_of
raised m t i h = ap (λ (r : EventManager × ManagedEvent). r.1.event.event_id) (raised_case m t i h)

-- Let an activation be handled under a fresh identifier, and then any transitions of other rules
-- under other identifiers. The event of the next resolution or disabling of the same rule then has
-- the identifier of the event that raised the issue, is published exactly when that one was, and is
-- never spoken.
pub handle_transition-paired :
    (m : EventManager) (t u : RuleTransition) (i j : String)
    (between : List (RuleTransition × String))
    → is_activated t.kind ≡ true
    → Unused i m
    → All (Apart t.issue.rule_id i) between
    → u.issue.rule_id ≡ t.issue.rule_id
    → is_activated u.kind ≡ false
    → let r = handle_transition m t i in
      let e = (handle_transition (run r.0 between) u j).1 in
      (e.event.event_id ≡ r.1.event.event_id) × (e.publish ≡ r.1.publish) × (e.speak ≡ false)
handle_transition-paired m t u i j between h f a same k =
    let r = handle_transition m t i in
    let (x, y, z) =
      closes t.issue.rule_id i r.1.publish (run r.0 between) u j
        (run-Open t.issue.rule_id i r.1.publish between r.0 a (opens m t i h f)) same k in
    (x ∙ sym (raised m t i h), y, z)
