-- ===== src/Publisher/Runs.antt =====
-- The publisher over any sequence of events.
mod Starts
use dcs_copilot.Prelude.{
  ◌↔◌, Never, All-imp, All-select, select-All, >>=-some, Returns, Returns-bind, Returns-some, ◌>>=◌,
  >>=-assoc, ℕ, zero, suc, ◌+◌, ◌-◌, ◌*◌, ◌/◌, ◌%◌, ◌^◌, ◌≤◌, ◌<◌, String, ◌≡◌, refl, sym, ap,
  subst, ◌∙◌, ◌≢◌, ◌⊎◌, inl, inr, Bool, true, false, ◌&&◌, ◌||◌, not, Option, none, some, List, [],
  ◌∷◌, ◌++◌, map, arith, str_eq, eq_iff, ltb, leb, ◌==◌, if◌then◌else◌, ltb→lt, ltb→le, leb→le,
  ==→eq, tests, Bool-cases, Option-cases, length, length-append, get_or, take, drop, length-drop,
  all_of, any_of, select, All, All-append,
}
use dcs_copilot.Protocol.Telemetry.{
  ControlIdentity, CatalogEntry, DecodedValue, TelemetryDelta, identity_eq,
}
use dcs_copilot.Protocol.Checks.{delta_fits}
use dcs_copilot.Ingress.{Message, delta_message}
use dcs_copilot.Publisher.{
  ControlDefinition, at_least_one, chunks, or_empty, ControlChange, Client, TelemetryPublisher,
  new_publisher, reset, queue_value, queue_all, decoded_value, refresh_unchanged_values,
  control_changed, deliver, send_delta, flush_pending, flush_rest, flush_epoch, flush,
  dcs_connection_changed, is_some,
}
use dcs_copilot.Publisher.Runs.Starts.{
  reset-Bounded, begin_epoch-Bounded, set_session_active-Bounded,
}
use dcs_copilot.Publisher.Start.{
  snapshot_messages, catalog_messages, catalog_of, append_all, append_snapshot, after_catalog,
  append_catalog, open_epoch, begin_for, begin_epoch, set_session_active, aircraft_changed,
}
use dcs_copilot.Ingress.Payload.{message_fits}
use dcs_copilot.Prelude.Map.{Map, values}
use dcs_copilot.Publisher.Bounds.{
  Bounded, pop_all-Queues, unless, refresh-Bounded, control_changed-Bounded, queue_value-epoch,
}

deliver-Bounded :
    {S : Type 0} (send : Message → S → Bool × S) (picked : List (ControlIdentity × DecodedValue))
    (p : TelemetryPublisher) (r : Bool × S)
    → is_some p.epoch ≡ true
    → Bounded p
    → Bounded (deliver send picked p r).1
unfolding deliver
deliver-Bounded send picked p (false, s) g b = b
deliver-Bounded send picked p (true, s) g b =
    let (q, l) = pop_all-Queues p.max_switch_transitions picked p.pending b.queues in
    record {
      switches = b.switches;
      controls = omega (arith, l, b.controls);
      queues = q;
      outside = λ e. absurd (ground (arith, e, g));
      inactive = b.inactive;
    }

unless_sent :
    {S : Type 0} (test : Bool) (r : Bool × TelemetryPublisher × S) (kept : TelemetryPublisher × S)
    → Bounded r.1
    → Bounded kept.0
    → Bounded (if test then r else (false, kept.0, kept.1)).1
unless_sent true r kept b c = b
unless_sent false r kept b c = c

send_delta-Bounded :
    (uuid : String → Bool) {S : Type 0} (send : Message → S → Bool × S)
    (picked : List (ControlIdentity × DecodedValue)) (epoch : String) (p : TelemetryPublisher)
    (s : S)
    → is_some p.epoch ≡ true
    → Bounded p
    → Bounded (send_delta uuid send picked epoch p s).1
unfolding send_delta
send_delta-Bounded uuid send [] epoch p s g b = b
send_delta-Bounded uuid send (x ∷ picked) epoch p s g b =
    let m : TelemetryDelta = record {
      epoch = epoch;
      sequence = p.next_sequence;
      aircraft = or_empty p.aircraft;
      chunk_index = 0;
      chunk_count = 1;
      contents = map (λ entry. entry.1) (x ∷ picked);
    } in
    unless_sent (delta_fits uuid m) (deliver send (x ∷ picked) p (send (delta_message m) s)) (p, s)
      (deliver-Bounded send (x ∷ picked) p (send (delta_message m) s) g b) b

left-Bounded :
    (p : TelemetryPublisher) (left : List Message)
    → is_some p.epoch ≡ true
    → Bounded p
    → Bounded (record p { initial = left })
left-Bounded p left g b = record {
  switches = b.switches;
  controls = b.controls;
  queues = b.queues;
  outside = λ e. absurd (ground (arith, e, g));
  inactive = b.inactive;
}

queue_all-epoch :
    (changes : List ControlChange) (p : TelemetryPublisher)
    → (queue_all changes p).1.epoch ≡ p.epoch
unfolding queue_all
queue_all-epoch [] p = refl
queue_all-epoch (c ∷ rest) p = elim (Option-cases (decoded_value c)) [
  | inl e ↦ rw (queue_all, e) refl
  | inr (v, e) ↦ rw (queue_all, e) (queue_all-epoch rest (queue_value v p) ∙ queue_value-epoch p v)
]

refresh-epoch :
    (client : Client) (now : ℕ) (p : TelemetryPublisher)
    → (refresh_unchanged_values client now p).1.epoch ≡ p.epoch
unfolding refresh_unchanged_values
refresh-epoch client now p = ground (
  arith,
  queue_all-epoch client.decoded_snapshot
      (record p { next_refresh_at = some (now + p.refresh_interval) }),
)

module _ (uuid : String → Bool) {S : Type 0} (send : Message → S → Bool × S) where
  flush_pending-Bounded :
      (epoch : String) (r : Bool × TelemetryPublisher) (s : S)
      → is_some r.1.epoch ≡ true
      → Bounded r.1
      → Bounded (flush_pending uuid send epoch r s).1
  unfolding flush_pending
  flush_pending-Bounded epoch (false, p) s g b = b
  flush_pending-Bounded epoch (true, p) s g b = send_delta-Bounded uuid send _ epoch p s g b

  flush_rest-Bounded :
      (client : Client) (now : ℕ) (epoch : String) (p : TelemetryPublisher) (r : List Message × S)
      → is_some p.epoch ≡ true
      → Bounded p
      → Bounded (flush_rest uuid send client now epoch p r).1
  unfolding flush_rest
  flush_rest-Bounded client now epoch p (m ∷ left, s) g b = left-Bounded p (m ∷ left) g b
  flush_rest-Bounded client now epoch p ([], s) g b =
      let q = record p { initial = [] } in
      flush_pending-Bounded epoch (refresh_unchanged_values client now q) s
        (ap is_some (refresh-epoch client now q) ∙ g)
        (refresh-Bounded client now q (left-Bounded p [] g b))

  flush_epoch-Bounded :
      (client : Client) (now : ℕ) (o : Option String) (p : TelemetryPublisher) (s : S)
      → p.epoch ≡ o
      → Bounded p
      → Bounded (flush_epoch uuid send client now o p s).1
  unfolding flush_epoch
  flush_epoch-Bounded client now none p s e b = b
  flush_epoch-Bounded client now (some epoch) p s e b =
      flush_rest-Bounded client now epoch p _ (ap is_some e) b

  flush-Bounded :
      (client : Client) (now : ℕ) (p : TelemetryPublisher) (s : S)
      → Bounded p
      → Bounded (flush uuid send client now p s).1
  unfolding flush
  flush-Bounded client now p s b = elim (Bool-cases p.session_active) [
    | inl e ↦
        subst
          (λ x.
            Bounded
              (if not x then (true, p, s) else flush_epoch uuid send client now p.epoch p s).1)
          (sym e) (flush_epoch-Bounded client now p.epoch p s refl b)
    | inr e ↦
        subst
          (λ x.
            Bounded
              (if not x then (true, p, s) else flush_epoch uuid send client now p.epoch p s).1)
          (sym e) b
  ]

either :
    (test : Bool) (r q : Bool × TelemetryPublisher)
    → Bounded r.1
    → Bounded q.1
    → Bounded (if test then r else q).1
either true r q b c = b
either false r q b c = c

-- What happens to a publisher.
pub data Event : Type 0 where
  session_set : Client → (epoch : String) → (now : ℕ) → (active : Bool) → Event
  aircraft_set : Client → (epoch : String) → (now : ℕ) → Option String → Event
  connection_set : (connected : Bool) → Event
  control_set : ControlChange → Event
  flushed : Client → (now : ℕ) → Event

module _ (uuid : String → Bool) {S : Type 0} (send : Message → S → Bool × S)
    (first_256 : String → String) where
  -- The publisher after an event, whether the method has returned or raised.
  unfoldable pub handle : Event → TelemetryPublisher → S → TelemetryPublisher × S
  unfolding set_session_active aircraft_changed dcs_connection_changed control_changed flush
  handle (session_set client epoch now active) p s =
      ((set_session_active uuid first_256 client epoch now active p).1, s)
  handle (aircraft_set client epoch now aircraft) p s =
      ((aircraft_changed uuid first_256 client epoch now aircraft p).1, s)
  handle (connection_set connected) p s = (dcs_connection_changed connected p, s)
  handle (control_set c) p s = ((control_changed c p).1, s)
  handle (flushed client now) p s = let (returned, q, t) = flush uuid send client now p s in (q, t)

  unfoldable pub handle_all : List Event → TelemetryPublisher → S → TelemetryPublisher × S
  unfolding handle
  handle_all [] p s = (p, s)
  handle_all (e ∷ rest) p s = handle_all rest (handle e p s).0 (handle e p s).1

  handle-Bounded :
      (e : Event) (p : TelemetryPublisher) (s : S) → Bounded p → Bounded (handle e p s).0
  unfolding handle aircraft_changed dcs_connection_changed
  handle-Bounded (session_set client epoch now active) p s b =
      set_session_active-Bounded uuid first_256 client epoch now active p b
  handle-Bounded (aircraft_set client epoch now aircraft) p s b =
      either p.session_active _ (true, p)
        (begin_epoch-Bounded uuid first_256 client epoch now aircraft p b) b
  handle-Bounded (connection_set true) p s b = b
  handle-Bounded (connection_set false) p s b = reset-Bounded p b
  handle-Bounded (control_set c) p s b = control_changed-Bounded c p b
  handle-Bounded (flushed client now) p s b = flush-Bounded uuid send client now p s b

  handle_all-Bounded :
      (es : List Event) (p : TelemetryPublisher) (s : S) → Bounded p → Bounded (handle_all es p s).0
  unfolding handle_all
  handle_all-Bounded [] p s b = b
  handle_all-Bounded (e ∷ rest) p s b =
      handle_all-Bounded rest (handle e p s).0 (handle e p s).1 (handle-Bounded e p s b)

-- After any events, whatever its sender answers and whichever methods raise, a new publisher keeps at most so many controls
-- pending as its bound says, with for each at least one value and at most the bound on transitions;
-- without an epoch it holds no messages and no values and its next message has number 0; and without
-- a session it has no epoch.
pub runs-Bounded :
    (uuid : String → Bool) {S : Type 0} (send : Message → S → Bool × S)
    (first_256 : String → String) (es : List Event) (max_pending max_switch interval : ℕ) (s : S)
    → 0 < max_switch
    → Bounded
        (handle_all uuid send first_256 es (new_publisher max_pending max_switch interval) s).0
unfolding new_publisher
runs-Bounded uuid send first_256 es max_pending max_switch interval s h =
    handle_all-Bounded uuid send first_256 es (new_publisher max_pending max_switch interval) s
      (record {
        switches = h;
        controls = omega arith;
        queues = tt;
        outside = λ e. (refl, refl, refl);
        inactive = λ e. refl;
      })
