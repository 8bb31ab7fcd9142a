-- ===== src/Publisher.antt =====
-- client/dcs_copilot/telemetry/publisher.py: catalogs, snapshots and coalesced deltas, published in a
-- bounded queue. What the DCS-BIOS client tells when it is asked is an argument, as are the clock, a
-- fresh epoch, and the first 256 characters of a text; the sender is a parameter with its own state.
-- `none`, or a first component `false`, is an exception of a constructor; the publisher is then as the
-- method has left it.
pub mod Start
pub mod Delivery
pub mod Epoch
pub mod Bounds
pub mod Runs
mod Examples
use dcs_copilot.Prelude.{
  ◌↔◌, Never, All-imp, All-select, select-All, >>=-some, Returns, Returns-bind, Returns-some, ◌>>=◌,
  >>=-assoc, ℕ, zero, suc, ◌+◌, ◌-◌, ◌*◌, ◌/◌, ◌%◌, ◌^◌, ◌≤◌, ◌<◌, String, ◌≡◌, refl, sym, ap,
  subst, ◌∙◌, ◌≢◌, ◌⊎◌, inl, inr, Bool, true, false, ◌&&◌, ◌||◌, not, Option, none, some, List, [],
  ◌∷◌, ◌++◌, map, arith, str_eq, eq_iff, ltb, leb, ◌==◌, if◌then◌else◌, ltb→lt, ltb→le, leb→le,
  ==→eq, tests, Bool-cases, Option-cases, length, length-append, get_or, take, drop, length-drop,
  all_of, any_of, select, All, All-append,
}
use dcs_copilot.Prelude.Int.{ℤ, eqb_ℤ}
use dcs_copilot.Prelude.Map.{Map, lookup, insert, remove, values}
use dcs_copilot.Protocol.Telemetry.{
  ControlIdentity, CatalogEntry, Scalar, DecodedValue, TelemetryCatalog, TelemetrySnapshot,
  TelemetryDelta, identity_eq,
}
use dcs_copilot.Protocol.Checks.{identity_fits, value_fits, delta_fits}
use dcs_copilot.Ingress.{Message, catalog_message, snapshot_message, delta_message}

-- dcs/bios_registry.py
pub record ControlDefinition : Type 0 where
  pub identifier : String
  pub module_name : String
  pub output_type : String
  pub output_index : ℕ
  pub address : ℕ
  pub mask : Option ℕ
  pub shift : Option ℕ
  pub max_value : Option ℕ
  pub string_length : Option ℕ
  pub description : String

-- dcs/bios_client.py; the time is in milliseconds.
pub record ControlChange : Type 0 where
  pub control : ControlDefinition
  pub value : Scalar
  pub observed_at : ℕ

-- What the client answers.
pub record Client : Type 0 where
  pub current_aircraft : Option String
  pub connected : Bool
  pub active_definitions : List ControlDefinition
  pub decoded_snapshot : List ControlChange

pub record TelemetryPublisher : Type 0 where
  pub max_pending_controls : ℕ
  pub max_switch_transitions : ℕ
  pub refresh_interval : ℕ
  pub session_active : Bool
  pub epoch : Option String
  pub aircraft : Option String
  pub next_refresh_at : Option ℕ
  pub next_sequence : ℕ
  pub initial : List Message
  pub pending : Map ControlIdentity (List DecodedValue)
  pub catalog : Map ControlIdentity CatalogEntry
  pub active_modules : List String
  pub dropped_controls : ℕ
  pub coalesced_values : ℕ

-- The constructor, past its checks of the bounds.
unfoldable pub new_publisher : ℕ → ℕ → ℕ → TelemetryPublisher
new_publisher max_pending_controls max_switch_transitions refresh_interval = record {
  max_pending_controls = max_pending_controls;
  max_switch_transitions = max_switch_transitions;
  refresh_interval = refresh_interval;
  session_active = false;
  epoch = none;
  aircraft = none;
  next_refresh_at = none;
  next_sequence = 0;
  initial = [];
  pending = [];
  catalog = [];
  active_modules = [];
  dropped_controls = 0;
  coalesced_values = 0;
}

-- `_reset`
unfoldable pub reset : TelemetryPublisher → TelemetryPublisher
reset p = record p {
  epoch = none;
  aircraft = none;
  next_sequence = 0;
  next_refresh_at = none;
  initial = [];
  pending = [];
  catalog = [];
  active_modules = [];
}

-- `_identity`
unfoldable pub identity_of : ControlDefinition → ControlIdentity
identity_of d = record {
  module_name = d.module_name;
  identifier = d.identifier;
  output_type = d.output_type;
  output_index = d.output_index;
}

-- `_decoded_value`, through the constructors of `ControlIdentity` and `DecodedValue`.
unfoldable pub decoded_value : ControlChange → Option DecodedValue
unfolding identity_of identity_fits value_fits
decoded_value c =
    let v : DecodedValue = record {
      identity = identity_of c.control;
      available = true;
      value = some c.value;
      observed_at_ms = some c.observed_at;
    } in
    if identity_fits v.identity && value_fits v then some v else none

-- `_chunks`, with as much fuel as there are values.
unfoldable pub chunks_from {ℓ} : {A : Type ℓ} → ℕ → ℕ → List A → List (List A)
chunks_from zero size xs = []
chunks_from (suc fuel) size [] = []
chunks_from (suc fuel) size (x ∷ xs) =
    take size (x ∷ xs) ∷ chunks_from fuel size (drop size (x ∷ xs))

unfoldable pub chunks {ℓ} : {A : Type ℓ} → List A → ℕ → List (List A)
unfolding chunks_from
chunks xs size = chunks_from (length xs) size xs

-- One empty chunk in place of none.
unfoldable pub at_least_one {ℓ} : {A : Type ℓ} → List (List A) → List (List A)
at_least_one [] = [] ∷ []
at_least_one (x ∷ xs) = x ∷ xs

-- a == b on values
unfoldable pub same_scalar : Scalar → Scalar → Bool
same_scalar (Scalar.integer a) (Scalar.integer b) = eqb_ℤ a b
same_scalar (Scalar.text a) (Scalar.text b) = str_eq a b
same_scalar a b = false

unfoldable pub same_value : Option Scalar → Option Scalar → Bool
unfolding same_scalar
same_value none none = true
same_value (some a) (some b) = same_scalar a b
same_value a b = false

-- queued[-1] = value
unfoldable pub replace_last : DecodedValue → List DecodedValue → List DecodedValue
replace_last v [] = []
replace_last v (x ∷ []) = v ∷ []
replace_last v (x ∷ y ∷ rest) = x ∷ replace_last v (y ∷ rest)

-- queued and queued[-1].value == value.value
unfoldable pub repeats : DecodedValue → List DecodedValue → Bool
unfolding same_value
repeats v [] = false
repeats v (x ∷ []) = same_value x.value v.value
repeats v (x ∷ y ∷ rest) = repeats v (y ∷ rest)

abbrev pub is_empty {ℓ} : {A : Type ℓ} → List A → Bool
is_empty [] = true
is_empty (x ∷ xs) = false

-- Whether the value takes the place of the last one that is queued for its control.
unfoldable pub coalesces : ℕ → Bool → DecodedValue → List DecodedValue → Bool
unfolding repeats
coalesces max_switch preserve v queued =
    if repeats v queued
    then true
    else if preserve
    then leb max_switch (length queued)
    else not (is_empty queued)

unfoldable pub is_switch : Option CatalogEntry → Bool
is_switch none = false
is_switch (some entry) =
    str_eq entry.identity.output_type "integer"
    && elim entry.integer_max [ none ↦ false | some n ↦ n == 1 ]

unfoldable pub enqueue : DecodedValue → List DecodedValue → TelemetryPublisher → TelemetryPublisher
unfolding insert lookup is_switch coalesces replace_last
enqueue v queued p =
    if coalesces p.max_switch_transitions (is_switch (lookup v.identity p.catalog)) v queued
    then record p {
      pending = insert v.identity (replace_last v queued) p.pending;
      coalesced_values = p.coalesced_values + 1;
    }
    else record p { pending = insert v.identity (queued ++ v ∷ []) p.pending }

unfoldable pub queue_in :
    DecodedValue → Option (List DecodedValue) → TelemetryPublisher → TelemetryPublisher
unfolding enqueue
queue_in v (some queued) p = enqueue v queued p
queue_in v none p =
    if leb p.max_pending_controls (length p.pending)
    then record p { dropped_controls = p.dropped_controls + 1 }
    else enqueue v [] p

-- `_queue_value`
unfoldable pub queue_value : DecodedValue → TelemetryPublisher → TelemetryPublisher
unfolding lookup queue_in
queue_value v p = queue_in v (lookup v.identity p.pending) p

unfoldable pub queue_all : List ControlChange → TelemetryPublisher → Bool × TelemetryPublisher
unfolding decoded_value queue_value
queue_all [] p = (true, p)
queue_all (c ∷ rest) p = elim (decoded_value c) [
  | none ↦ (false, p)
  | some v ↦ queue_all rest (queue_value v p)
]

unfoldable pub is_due : Option ℕ → ℕ → Bool
is_due none now = false
is_due (some at) now = leb at now

abbrev pub is_some {ℓ} : {A : Type ℓ} → Option A → Bool
is_some none = false
is_some (some a) = true

-- `_refresh_unchanged_values`
unfoldable pub refresh_unchanged_values :
    Client → ℕ → TelemetryPublisher → Bool × TelemetryPublisher
unfolding is_due queue_all
refresh_unchanged_values client now p =
    if not (is_due p.next_refresh_at now)
    then (true, p)
    else if not client.connected || not (is_some p.epoch)
    then (true, p)
    else queue_all client.decoded_snapshot
        (record p { next_refresh_at = some (now + p.refresh_interval) })

unfoldable pub contains_module : List String → String → Bool
contains_module modules m = any_of (λ x. str_eq x m) modules

unfoldable pub queue_decoded : Option DecodedValue → TelemetryPublisher → Bool × TelemetryPublisher
unfolding queue_value
queue_decoded none p = (false, p)
queue_decoded (some v) p = (true, queue_value v p)

-- `_control_changed`
unfoldable pub control_changed : ControlChange → TelemetryPublisher → Bool × TelemetryPublisher
unfolding contains_module queue_decoded decoded_value
control_changed c p =
    if not p.session_active
      || not (is_some p.epoch)
      || not (contains_module p.active_modules c.control.module_name)
    then (true, p)
    else queue_decoded (decoded_value c) p

-- Up to so many controls with the first value that is queued for each.
unfoldable pub heads :
    ℕ → Map ControlIdentity (List DecodedValue) → List (ControlIdentity × DecodedValue)
heads zero m = []
heads (suc n) [] = []
heads (suc n) ((identity, []) ∷ rest) = heads (suc n) rest
heads (suc n) ((identity, value ∷ queued) ∷ rest) = (identity, value) ∷ heads n rest

unfoldable pub pop :
    ControlIdentity
    → Option (List DecodedValue)
    → Map ControlIdentity (List DecodedValue)
    → Map ControlIdentity (List DecodedValue)
unfolding insert remove
pop identity (some (value ∷ next ∷ queued)) m = insert identity (next ∷ queued) m
pop identity queued m = remove identity m

unfoldable pub pop_all :
    List (ControlIdentity × DecodedValue)
    → Map ControlIdentity (List DecodedValue)
    → Map ControlIdentity (List DecodedValue)
unfolding pop lookup
pop_all [] m = m
pop_all ((identity, value) ∷ rest) m = pop_all rest (pop identity (lookup identity m) m)

unfoldable pub or_empty : Option String → String
or_empty none = ""
or_empty (some s) = s

module _ {S : Type 0} (send : Message → S → Bool × S) where
  -- The messages that are left when the sender refuses one, or none.
  unfoldable pub send_initial : List Message → S → List Message × S
  send_initial [] s = ([], s)
  send_initial (m ∷ rest) s =
      let (sent, t) = send m s in
      let later = send_initial rest t in if sent then later else (m ∷ rest, t)

  unfoldable pub deliver :
      List (ControlIdentity × DecodedValue)
      → TelemetryPublisher
      → Bool × S
      → Bool × TelemetryPublisher × S
  unfolding pop_all
  deliver picked p (false, s) = (true, p, s)
  deliver picked p (true, s) = (
    true,
    record p { next_sequence = p.next_sequence + 1; pending = pop_all picked p.pending },
    s,
  )

-- `uuid` tells whether `UUID(…)` reads the text.
module _ (uuid : String → Bool) {S : Type 0} (send : Message → S → Bool × S) where
  -- The delta, where something is pending.
  unfoldable pub send_delta :
      List (ControlIdentity × DecodedValue)
      → String
      → TelemetryPublisher
      → S
      → Bool × TelemetryPublisher × S
  unfolding deliver or_empty delta_fits
  send_delta [] epoch p s = (true, p, s)
  send_delta (first ∷ rest) epoch p s =
      let m : TelemetryDelta = record {
        epoch = epoch;
        sequence = p.next_sequence;
        aircraft = or_empty p.aircraft;
        chunk_index = 0;
        chunk_count = 1;
        contents = map (λ entry. entry.1) (first ∷ rest);
      } in
      if delta_fits uuid m
      then deliver send (first ∷ rest) p (send (delta_message m) s)
      else (false, p, s)

  unfoldable pub flush_pending :
      String → Bool × TelemetryPublisher → S → Bool × TelemetryPublisher × S
  unfolding heads send_delta
  flush_pending epoch (false, p) s = (false, p, s)
  flush_pending epoch (true, p) s = send_delta (heads 1024 p.pending) epoch p s

  unfoldable pub flush_rest :
      Client → ℕ → String → TelemetryPublisher → List Message × S → Bool × TelemetryPublisher × S
  unfolding refresh_unchanged_values flush_pending
  flush_rest client now epoch p (m ∷ left, s) = (true, record p { initial = m ∷ left }, s)
  flush_rest client now epoch p ([], s) =
      flush_pending epoch (refresh_unchanged_values client now (record p { initial = [] })) s

  unfoldable pub flush_epoch :
      Client → ℕ → Option String → TelemetryPublisher → S → Bool × TelemetryPublisher × S
  unfolding send_initial flush_rest
  flush_epoch client now none p s = (true, p, s)
  flush_epoch client now (some epoch) p s =
      flush_rest client now epoch p (send_initial send p.initial s)

  unfoldable pub flush : Client → ℕ → TelemetryPublisher → S → Bool × TelemetryPublisher × S
  unfolding flush_epoch
  flush client now p s =
      if not p.session_active then (true, p, s) else flush_epoch client now p.epoch p s

-- `_dcs_connection_changed`
unfoldable pub dcs_connection_changed : Bool → TelemetryPublisher → TelemetryPublisher
unfolding reset
dcs_connection_changed connected p = if not connected then reset p else p

-- The property `pending_count`.
unfoldable pub count_values : Map ControlIdentity (List DecodedValue) → ℕ
count_values [] = 0
count_values ((identity, queued) ∷ rest) = length queued + count_values rest

unfoldable pub pending_count : TelemetryPublisher → ℕ
unfolding count_values
pending_count p = count_values p.pending + length p.initial
