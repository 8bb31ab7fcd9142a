-- ===== src/Ingress/Examples.antt =====
-- The ingress on concrete messages.
use dcs_copilot.Prelude.{
  ◌↔◌, Never, All-imp, All-select, select-All, >>=-some, Returns, Returns-bind, Returns-some, ◌>>=◌,
  >>=-assoc, ℕ, zero, suc, ◌+◌, ◌-◌, ◌*◌, ◌/◌, ◌%◌, ◌^◌, ◌≤◌, ◌<◌, String, ◌≡◌, refl, sym, ap,
  subst, ◌∙◌, ◌≢◌, ◌⊎◌, inl, inr, Bool, true, false, ◌&&◌, ◌||◌, not, Option, none, some, List, [],
  ◌∷◌, ◌++◌, map, arith, str_eq, eq_iff, ltb, leb, ◌==◌, if◌then◌else◌, ltb→lt, ltb→le, leb→le,
  ==→eq, tests, Bool-cases, Option-cases, length, length-append, get_or, take, drop, length-drop,
  all_of, any_of, select, All, All-append,
}
use dcs_copilot.Prelude.Int.{pos}
use dcs_copilot.Prelude.Map.{lookup, values}
use dcs_copilot.Protocol.Telemetry
use dcs_copilot.Protocol.Telemetry.{
  ControlIdentity, CatalogEntry, DecodedValue, TelemetryCatalog, TelemetrySnapshot, identity_eq,
}
use dcs_copilot.Ingress.{
  validate_value, wrong_type, Ingress, TelemetryBatch, snapshot_batch, ok, cleared, catalog_message,
  snapshot_message, accept,
}
use dcs_copilot.Ingress.Valid.{Vouched, IsValid, cleared-IsValid}
use dcs_copilot.Ingress.Keeps.{accept-IsValid}
use dcs_copilot.Prelude.Map.{lookup}
use dcs_copilot.Protocol.Checks.{identity_fits, entry_fits, value_fits}
use dcs_copilot.Ingress.Typed.{validate_value-typed}
use dcs_copilot.Ingress.Batches.{InTurn, sequence_of, accept-Vouched, accept-InTurn}

abbrev gear : ControlIdentity
gear = record {
  module_name = "FA-18C_hornet";
  identifier = "GEAR_LEVER";
  output_type = "integer";
  output_index = 0;
}

abbrev gear_entry : CatalogEntry
gear_entry = record {
  identity = gear;
  description = "Gear lever";
  integer_max = some 1;
  string_length = none;
}

abbrev gear_value : DecodedValue
gear_value = record {
  identity = gear;
  available = true;
  value = some (Telemetry.integer (pos 1));
  observed_at_ms = some 5;
}

abbrev catalog : TelemetryCatalog
catalog = record {
  epoch = "e1";
  sequence = 0;
  aircraft = "FA-18C_hornet";
  chunk_index = 0;
  chunk_count = 1;
  entries = gear_entry ∷ [];
}

abbrev snapshot : TelemetrySnapshot
snapshot = record {
  epoch = "e1";
  sequence = 1;
  aircraft = "FA-18C_hornet";
  chunk_index = 0;
  chunk_count = 1;
  contents = gear_value ∷ [];
}

abbrev described : Ingress
described = record cleared {
  epoch = some "e1";
  aircraft = some "FA-18C_hornet";
  last_sequence = some 0;
  catalog_chunk_count = some 1;
  catalog_chunks = 1;
  catalog = (gear, gear_entry) ∷ [];
}

abbrev assembled : Ingress
assembled = record described {
  last_sequence = some 1;
  ready = true;
  snapshot_chunk_count = some 1;
  snapshot_chunks = 1;
  snapshot = (gear, gear_value) ∷ [];
}

abbrev batch : TelemetryBatch
batch = record {
  kind = snapshot_batch;
  epoch = "e1";
  aircraft = "FA-18C_hornet";
  catalog = gear_entry ∷ [];
  contents = gear_value ∷ [];
}

after_catalog : (accept (catalog_message catalog) cleared).1 ≡ described
unfolding accept dcs_copilot.Prelude.Map.lookup dcs_copilot.Prelude.Map.insert
after_catalog = refl

after_snapshot : accept (snapshot_message snapshot) described ≡ (ok (some batch), assembled)
unfolding accept dcs_copilot.Prelude.Map.lookup Telemetry.same_identity
    dcs_copilot.Prelude.Map.insert
after_snapshot = refl

accept-IsValid_example : IsValid (accept (catalog_message catalog) cleared).1
accept-IsValid_example = accept-IsValid (catalog_message catalog) cleared cleared-IsValid

described-IsValid : IsValid described
described-IsValid =
    subst IsValid after_catalog (accept-IsValid (catalog_message catalog) cleared cleared-IsValid)

accept-Vouched_example : All (Vouched assembled.catalog) (gear_value ∷ [])
accept-Vouched_example =
    accept-Vouched (snapshot_message snapshot) described assembled batch described-IsValid
      after_snapshot

accept-InTurn_example :
    InTurn (snapshot_message snapshot) described
    × (assembled.last_sequence ≡ some (sequence_of (snapshot_message snapshot)))
accept-InTurn_example =
    accept-InTurn (snapshot_message snapshot) described assembled (some batch) after_snapshot

fitting :
    (identity_fits gear ≡ true) × (entry_fits gear_entry ≡ true) × (value_fits gear_value ≡ true)
unfolding identity_fits entry_fits value_fits
fitting = (refl, refl, refl)

found : lookup gear described.catalog ≡ some gear_entry
unfolding lookup Telemetry.same_identity
found = refl

validate_value-typed_example : validate_value described.catalog gear_value ≢ some wrong_type
validate_value-typed_example =
    validate_value-typed described.catalog gear_value gear_entry found refl fitting.0 fitting.1
      fitting.2
