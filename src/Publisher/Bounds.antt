-- ===== src/Publisher/Bounds.antt =====
-- The publisher's queues keep within their bounds.
use dcs_copilot.Prelude.{
  ℕ, suc, ◌+◌, ◌≤◌, ◌<◌, ◌≡◌, refl, ap, subst, ◌∙◌, inl, inr, Bool, true, false, ◌||◌, not, Option,
  none, some, List, [], ◌∷◌, ◌++◌, arith, leb, if◌then◌else◌, Bool-cases, Option-cases, length,
  length-append, All,
}
use dcs_copilot.Prelude.Map.{Map, lookup, insert, remove}
use dcs_copilot.Protocol.Telemetry.{ControlIdentity, DecodedValue, identity_eq}
use dcs_copilot.Publisher.{
  ControlChange, Client, TelemetryPublisher, replace_last, repeats, coalesces, is_switch, enqueue,
  queue_in, queue_value, queue_all, is_due, contains_module, decoded_value,
  refresh_unchanged_values, control_changed, queue_decoded, pop, pop_all, is_some,
}

abbrev pub Pending : Type 0
Pending = Map ControlIdentity (List DecodedValue)

-- A queue that is not empty, and not too long.
abbrev pub QueueFits : ℕ → List DecodedValue → Type 0
QueueFits most queued = (0 < length queued) × (length queued ≤ most)

abbrev pub Queues : ℕ → Pending → Type 0
Queues most m = All (λ (entry : ControlIdentity × List DecodedValue). QueueFits most entry.1) m

pub record Bounded (p : TelemetryPublisher) : Type 0 where
  pub switches : 0 < p.max_switch_transitions
  pub controls : length p.pending ≤ p.max_pending_controls
  pub queues : Queues p.max_switch_transitions p.pending
  pub outside : p.epoch ≡ none → (p.initial ≡ []) × (p.pending ≡ []) × (p.next_sequence ≡ 0)
  pub inactive : p.session_active ≡ false → p.epoch ≡ none

Queues-insert :
    (most : ℕ) (k : ControlIdentity) (q : List DecodedValue) (m : Pending)
    → QueueFits most q
    → Queues most m
    → Queues most (insert k q m)
unfolding insert
Queues-insert most k q [] f h = (f, tt)
Queues-insert most k q ((j, w) ∷ m) f h = elim (Bool-cases (identity_eq.same j k)) [
  | inl e ↦ rw e (f, h.1)
  | inr e ↦ rw e (h.0, Queues-insert most k q m f h.1)
]

Queues-remove :
    (most : ℕ) (k : ControlIdentity) (m : Pending) → Queues most m → Queues most (remove k m)
unfolding remove
Queues-remove most k [] h = tt
Queues-remove most k ((j, w) ∷ m) h = elim (Bool-cases (identity_eq.same j k)) [
  | inl e ↦ rw e (Queues-remove most k m h.1)
  | inr e ↦ rw e (h.0, Queues-remove most k m h.1)
]

Queues-lookup :
    (most : ℕ) (k : ControlIdentity) (m : Pending) (q : List DecodedValue)
    → Queues most m
    → lookup k m ≡ some q
    → QueueFits most q
unfolding lookup
Queues-lookup most k [] q h e = absurd (ground (arith, e))
Queues-lookup most k ((j, w) ∷ m) q h e = elim (Bool-cases (identity_eq.same j k)) [
  | inl t ↦ subst (QueueFits most) (ground (arith, e, t)) h.0
  | inr t ↦ Queues-lookup most k m q h.1 (ground (arith, e, t))
]

length-insert-present :
    (k : ControlIdentity) (q old : List DecodedValue) (m : Pending)
    → lookup k m ≡ some old
    → length (insert k q m) ≡ length m
unfolding insert lookup
length-insert-present k q old [] e = absurd (ground (arith, e))
length-insert-present k q old ((j, w) ∷ m) e = ground (arith, e, length-insert-present k q old m)

length-insert :
    (k : ControlIdentity) (q : List DecodedValue) (m : Pending)
    → length (insert k q m) ≤ suc (length m)
unfolding insert
length-insert k q [] = omega arith
length-insert k q ((j, w) ∷ m) = ground (arith, length-insert k q m)

length-remove : (k : ControlIdentity) (m : Pending) → length (remove k m) ≤ length m
unfolding remove
length-remove k [] = omega arith
length-remove k ((j, w) ∷ m) = ground (arith, length-remove k m)

length-replace_last :
    (v : DecodedValue) (q : List DecodedValue) → length (replace_last v q) ≡ length q
unfolding replace_last
length-replace_last v [] = refl
length-replace_last v (x ∷ []) = refl
length-replace_last v (x ∷ y ∷ q) = ap suc (length-replace_last v (y ∷ q))

coalesces-true :
    (most : ℕ) (preserve : Bool) (v : DecodedValue) (q : List DecodedValue)
    → 0 < most
    → coalesces most preserve v q ≡ true
    → 0 < length q
unfolding coalesces repeats
coalesces-true most preserve v [] h e = ground (arith, h, e)
coalesces-true most preserve v (x ∷ q) h e = omega arith

coalesces-false :
    (most : ℕ) (preserve : Bool) (v : DecodedValue) (q : List DecodedValue)
    → 0 < most
    → coalesces most preserve v q ≡ false
    → length q < most
unfolding coalesces
coalesces-false most preserve v [] h e = h
coalesces-false most preserve v (x ∷ q) h e = ground (arith, h, e)

module _ (p : TelemetryPublisher) (b : Bounded p) (going : is_some p.epoch ≡ true) where
  stored :
      (k : ControlIdentity) (q : List DecodedValue) (coalesced : ℕ)
      → QueueFits p.max_switch_transitions q
      → length (insert k q p.pending) ≤ p.max_pending_controls
      → Bounded (record p { pending = insert k q p.pending; coalesced_values = coalesced })
  stored k q coalesced f l = record {
    switches = b.switches;
    controls = l;
    queues = Queues-insert p.max_switch_transitions k q p.pending f b.queues;
    outside = λ e. absurd (ground (arith, e, going));
    inactive = b.inactive;
  }

  enqueue-Bounded :
      (v : DecodedValue) (queued : List DecodedValue)
      → length queued ≤ p.max_switch_transitions
      → ((q : List DecodedValue) → length (insert v.identity q p.pending) ≤ p.max_pending_controls)
      → Bounded (enqueue v queued p)
  unfolding enqueue
  enqueue-Bounded v queued f l =
      elim (Bool-cases
        (coalesces p.max_switch_transitions (is_switch (lookup v.identity p.catalog)) v queued)) [
          | inl e ↦ rw e (
              stored v.identity (replace_last v queued) (p.coalesced_values + 1)
                (
                  ground (
                    arith,
                    length-replace_last v queued,
                    coalesces-true p.max_switch_transitions
                        (is_switch (lookup v.identity p.catalog)) v queued b.switches e,
                  ),
                  omega (arith, length-replace_last v queued, f),
                )
                (l (replace_last v queued)))
          | inr e ↦ rw e (
              stored v.identity (queued ++ v ∷ []) p.coalesced_values
                (
                  omega (arith, length-append queued (v ∷ [])),
                  omega (
                    arith,
                    length-append queued (v ∷ []),
                    coalesces-false p.max_switch_transitions
                        (is_switch (lookup v.identity p.catalog)) v queued b.switches e,
                  ),
                )
                (l (queued ++ v ∷ [])))
        ]

  dropped-Bounded : Bounded (record p { dropped_controls = p.dropped_controls + 1 })
  dropped-Bounded = record {
    switches = b.switches;
    controls = b.controls;
    queues = b.queues;
    outside = b.outside;
    inactive = b.inactive;
  }

  queue_in-Bounded :
      (v : DecodedValue) (o : Option (List DecodedValue))
      → lookup v.identity p.pending ≡ o
      → Bounded (queue_in v o p)
  unfolding queue_in
  queue_in-Bounded v (some queued) e =
      enqueue-Bounded v queued
        (Queues-lookup p.max_switch_transitions v.identity p.pending queued b.queues e).1
        (λ q. omega (arith, length-insert-present v.identity q queued p.pending e, b.controls))
  queue_in-Bounded v none e = elim (Bool-cases (leb p.max_pending_controls (length p.pending))) [
    | inl t ↦ rw t dropped-Bounded
    | inr t ↦ rw t (
        enqueue-Bounded v [] (omega arith) (λ q.
          let room : length p.pending < p.max_pending_controls = ground (arith, t) in
          omega (arith, room, length-insert v.identity q p.pending)))
  ]

  queue_value-Bounded : (v : DecodedValue) → Bounded (queue_value v p)
  unfolding queue_value
  queue_value-Bounded v = queue_in-Bounded v (lookup v.identity p.pending) refl

pub queue_value-epoch :
    (p : TelemetryPublisher) (v : DecodedValue) → (queue_value v p).epoch ≡ p.epoch
unfolding queue_value queue_in enqueue
queue_value-epoch p v = ground arith

queue_all-Bounded :
    (changes : List ControlChange) (p : TelemetryPublisher)
    → Bounded p
    → is_some p.epoch ≡ true
    → Bounded (queue_all changes p).1
unfolding queue_all
queue_all-Bounded [] p b g = b
queue_all-Bounded (c ∷ rest) p b g = elim (Option-cases (decoded_value c)) [
  | inl e ↦ rw (queue_all, e) b
  | inr (v, e) ↦
      rw (queue_all, e)
        (queue_all-Bounded rest (queue_value v p) (queue_value-Bounded p b g v)
          (ap is_some (queue_value-epoch p v) ∙ g))
]

queue_decoded-Bounded :
    (o : Option DecodedValue) (p : TelemetryPublisher)
    → Bounded p
    → is_some p.epoch ≡ true
    → Bounded (queue_decoded o p).1
unfolding queue_decoded
queue_decoded-Bounded none p b g = b
queue_decoded-Bounded (some v) p b g = queue_value-Bounded p b g v

scheduled-Bounded :
    (p : TelemetryPublisher) (at : Option ℕ)
    → Bounded p
    → Bounded (record p { next_refresh_at = at })
scheduled-Bounded p at b = record {
  switches = b.switches;
  controls = b.controls;
  queues = b.queues;
  outside = b.outside;
  inactive = b.inactive;
}

pub unless :
    (test : Bool) (r q : Bool × TelemetryPublisher)
    → Bounded r.1
    → (test ≡ false → Bounded q.1)
    → Bounded (if test then r else q).1
unless true r q b f = b
unless false r q b f = f refl

pub refresh-Bounded :
    (client : Client) (now : ℕ) (p : TelemetryPublisher)
    → Bounded p
    → Bounded (refresh_unchanged_values client now p).1
unfolding refresh_unchanged_values is_due
refresh-Bounded client now p b =
    let q = record p { next_refresh_at = some (now + p.refresh_interval) } in
    let go : is_some p.epoch ≡ true → Bounded (queue_all client.decoded_snapshot q).1 =
      queue_all-Bounded client.decoded_snapshot q
        (scheduled-Bounded p (some (now + p.refresh_interval)) b) in
    unless (not (is_due p.next_refresh_at now)) (true, p) _ b
      λ h.
        unless (not client.connected || not (is_some p.epoch)) (true, p) _ b
          λ i. go (ground (arith, i))

pub control_changed-Bounded :
    (c : ControlChange) (p : TelemetryPublisher) → Bounded p → Bounded (control_changed c p).1
unfolding control_changed
control_changed-Bounded c p b =
    unless
      (not p.session_active
        || not (is_some p.epoch)
        || not (contains_module p.active_modules c.control.module_name))
      (true, p) _ b λ h. queue_decoded-Bounded (decoded_value c) p b (ground (arith, h))

pop-Queues :
    (most : ℕ) (k : ControlIdentity) (o : Option (List DecodedValue)) (m : Pending)
    → lookup k m ≡ o
    → Queues most m
    → Queues most (pop k o m)
unfolding pop
pop-Queues most k none m e h = Queues-remove most k m h
pop-Queues most k (some []) m e h = Queues-remove most k m h
pop-Queues most k (some (x ∷ [])) m e h = Queues-remove most k m h
pop-Queues most k (some (x ∷ y ∷ q)) m e h =
    Queues-insert most k (y ∷ q) m
      (omega arith, omega (arith, (Queues-lookup most k m (x ∷ y ∷ q) h e).1)) h

length-pop :
    (k : ControlIdentity) (o : Option (List DecodedValue)) (m : Pending)
    → lookup k m ≡ o
    → length (pop k o m) ≤ length m
unfolding pop
length-pop k none m e = length-remove k m
length-pop k (some []) m e = length-remove k m
length-pop k (some (x ∷ [])) m e = length-remove k m
length-pop k (some (x ∷ y ∷ q)) m e = omega (arith, length-insert-present k (y ∷ q) (x ∷ y ∷ q) m e)

pub pop_all-Queues :
    (most : ℕ) (picked : List (ControlIdentity × DecodedValue)) (m : Pending)
    → Queues most m
    → Queues most (pop_all picked m) × (length (pop_all picked m) ≤ length m)
unfolding pop_all
pop_all-Queues most [] m h = (h, omega arith)
pop_all-Queues most ((k, v) ∷ rest) m h =
    let (q, l) =
      pop_all-Queues most rest (pop k (lookup k m) m) (pop-Queues most k (lookup k m) m refl h) in
    (q, omega (arith, l, length-pop k (lookup k m) m refl))
