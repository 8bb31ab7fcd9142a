-- ===== src/Publisher/Examples.antt =====
-- A publisher that sends to an ingress.
use dcs_copilot.Prelude.{
  ◌↔◌, Never, All-imp, All-select, select-All, >>=-some, Returns, Returns-bind, Returns-some, ◌>>=◌,
  >>=-assoc, ℕ, zero, suc, ◌+◌, ◌-◌, ◌*◌, ◌/◌, ◌%◌, ◌^◌, ◌≤◌, ◌<◌, String, ◌≡◌, refl, sym, ap,
  subst, ◌∙◌, ◌≢◌, ◌⊎◌, inl, inr, Bool, true, false, ◌&&◌, ◌||◌, not, Option, none, some, List, [],
  ◌∷◌, ◌++◌, map, arith, str_eq, eq_iff, ltb, leb, ◌==◌, if◌then◌else◌, ltb→lt, ltb→le, leb→le,
  ==→eq, tests, Bool-cases, Option-cases, length, length-append, get_or, take, drop, length-drop,
  all_of, any_of, select, All, All-append,
}
use dcs_copilot.Prelude.Int.{pos}
use dcs_copilot.Protocol.Telemetry
use dcs_copilot.Ingress.{validate_value, Ingress, cleared, accept, Message}
use dcs_copilot.Ingress.{catalog_message, snapshot_message, delta_message}
use dcs_copilot.Ingress.Payload.{max_payload_bytes}
use dcs_copilot.Ingress.Valid.{Vouched}
use dcs_copilot.Prelude.Map.{Map}
use dcs_copilot.Protocol.Telemetry.{ControlIdentity, CatalogEntry, DecodedValue}
use dcs_copilot.Publisher.{
  ControlDefinition, ControlChange, Client, TelemetryPublisher, new_publisher, identity_of,
}
use dcs_copilot.Publisher.Start.{begin_epoch, catalog_of, decode_all}
use dcs_copilot.Publisher.Epoch.Fits.{receives}
use dcs_copilot.Publisher.Epoch.{Taken, begin_epoch-Taken}
use dcs_copilot.Publisher.Bounds.{Bounded}
use dcs_copilot.Publisher.Runs.{Event, session_set, control_set, flushed, handle_all, runs-Bounded}

abbrev gear : ControlDefinition
gear = record {
  identifier = "GEAR_LEVER";
  module_name = "FA-18C_hornet";
  output_type = "integer";
  output_index = 0;
  address = 0;
  mask = some 1;
  shift = some 0;
  max_value = some 1;
  string_length = none;
  description = "Gear lever";
}

abbrev gear_down : ControlChange
gear_down = record { control = gear; value = Telemetry.integer (pos 1); observed_at = 5 }

abbrev gear_up : ControlChange
gear_up = record { control = gear; value = Telemetry.integer (pos 0); observed_at = 9 }

abbrev hornet : Client
hornet = record {
  current_aircraft = some "FA-18C_hornet";
  connected = true;
  active_definitions = gear ∷ [];
  decoded_snapshot = gear_down ∷ [];
}

-- Every text is taken for an identifier.
abbrev any_uuid : String → Bool
any_uuid s = true

-- The payload of a message that has at most 100 bytes for an entry or a value, and 400 for the rest.
abbrev payload_size : Message → ℕ
payload_size (catalog_message m) = 400 + 100 * length m.entries
payload_size (snapshot_message m) = 400 + 100 * length m.contents
payload_size (delta_message m) = 400 + 100 * length m.contents
payload_size m = 0

-- Every message is taken by the ingress.
abbrev to_ingress : Message → Ingress → Bool × Ingress
to_ingress m s = (true, (accept m s).1)

abbrev events : List Event
events =
    session_set hornet "e1" 0 true
    ∷ flushed hornet 10
    ∷ control_set gear_up
    ∷ control_set gear_down
    ∷ flushed hornet 20
    ∷ []

abbrev ended : TelemetryPublisher × Ingress
unfolding handle_all
ended = handle_all any_uuid to_ingress (λ s. s) events (new_publisher 10 2 10000) cleared

ended-ready :
    (ended.1.ready ≡ true) × (ended.1.last_sequence ≡ some 2) × (ended.0.next_sequence ≡ 3)
unfolding handle_all accept new_publisher Telemetry.same_identity
ended-ready = (refl, refl, refl)

runs-Bounded_example : Bounded ended.0
unfolding ended handle_all
runs-Bounded_example =
    runs-Bounded any_uuid to_ingress (λ s. s) events 10 2 10000 cleared (omega arith)

abbrev in_session : TelemetryPublisher
unfolding new_publisher
in_session = record (new_publisher 10 2 10000) { session_active = true }

abbrev gear_entry : CatalogEntry
gear_entry = record {
  identity = identity_of gear;
  description = "Gear lever";
  integer_max = some 1;
  string_length = none;
}

abbrev gear_value : DecodedValue
gear_value = record {
  identity = identity_of gear;
  available = true;
  value = some (Telemetry.integer (pos 1));
  observed_at_ms = some 5;
}

abbrev gear_catalog : Map ControlIdentity CatalogEntry
gear_catalog = (identity_of gear, gear_entry) ∷ []

gear_accepted : catalog_of any_uuid (λ s. s) hornet.active_definitions [] ≡ some gear_catalog
unfolding catalog_of
gear_accepted = refl

gear_decoded : decode_all hornet.decoded_snapshot ≡ some (gear_value ∷ [])
unfolding decode_all
gear_decoded = refl

-- A description of no characters and an identifier of none make no entry: the epoch is left half
-- open, without a message.
abbrev nameless : Client
nameless = record hornet { active_definitions = record gear { identifier = "" } ∷ [] }

half_open :
    let (returned, q) =
      begin_epoch any_uuid (λ s. s) nameless "e1" 0 (some "FA-18C_hornet") in_session in
    (returned ≡ false) × (q.epoch ≡ some "e1") × (q.initial ≡ [])
unfolding begin_epoch in_session
half_open = (refl, refl, refl)

abbrev hornet_name : String
hornet_name = "FA-18C_hornet"

hornet_named : hornet_name ≢ ""
hornet_named e = ground (arith, (eq_iff hornet_name "").1 e)

abbrev begun : Bool × TelemetryPublisher
begun = begin_epoch any_uuid (λ s. s) hornet "e1" 0 (some "FA-18C_hornet") in_session

gear-Vouched : All (Vouched gear_catalog) (gear_value ∷ [])
unfolding validate_value dcs_copilot.Prelude.Map.lookup identity_of Telemetry.same_identity
gear-Vouched = (refl, tt)

small_enough : All (λ m. payload_size m ≤ max_payload_bytes) begun.1.initial
unfolding begin_epoch in_session
small_enough = (omega arith, (omega arith, tt))

begin_epoch-Taken_example :
    (begun.0 ≡ true)
    × ((t : Ingress) × (receives any_uuid payload_size begun.1.initial cleared ≡ some t)
        × Taken begun.1 "e1" "FA-18C_hornet" (gear_value ∷ []) t)
unfolding in_session dcs_copilot.Prelude.Map.lookup
begin_epoch-Taken_example =
    begin_epoch-Taken any_uuid payload_size (λ s. s) hornet "e1" 0 "FA-18C_hornet" in_session
      cleared gear_catalog (gear_value ∷ []) refl refl refl hornet_named (omega arith) gear_accepted
      gear_decoded (omega arith) (refl, tt) (omega arith) gear-Vouched small_enough
