-- ===== src/Publisher/Start.antt =====
-- client/dcs_copilot/telemetry/publisher.py: how an epoch starts, with every exception of a
-- constructor on the way. What has been written before the exception stays.
use dcs_copilot.Prelude.{
  ◌>>=◌, ℕ, ◌+◌, String, Bool, true, false, ◌&&◌, not, Option, none, some, List, [], ◌∷◌, ◌++◌, map,
  str_eq, if◌then◌else◌, length,
}
use dcs_copilot.Prelude.Map.{Map, insert, values}
use dcs_copilot.Protocol.Telemetry.{ControlIdentity, CatalogEntry, DecodedValue, identity_eq}
use dcs_copilot.Protocol.Checks.{identity_fits, entry_fits}
use dcs_copilot.Ingress.{Message, catalog_message, snapshot_message}
use dcs_copilot.Ingress.Payload.{message_fits}
use dcs_copilot.Publisher.{
  ControlDefinition, ControlChange, Client, TelemetryPublisher, reset, identity_of, decoded_value,
  chunks, at_least_one,
}

-- The messages of the catalog, of the snapshot, from an index and a sequence number on.
unfoldable pub catalog_messages :
    String → String → ℕ → ℕ → ℕ → List (List CatalogEntry) → List Message
catalog_messages epoch aircraft count index sequence [] = []
catalog_messages epoch aircraft count index sequence (entries ∷ rest) =
    catalog_message (record {
      epoch = epoch;
      sequence = sequence;
      aircraft = aircraft;
      chunk_index = index;
      chunk_count = count;
      entries = entries;
    })
    ∷ catalog_messages epoch aircraft count (index + 1) (sequence + 1) rest

unfoldable pub snapshot_messages :
    String → String → ℕ → ℕ → ℕ → List (List DecodedValue) → List Message
snapshot_messages epoch aircraft count index sequence [] = []
snapshot_messages epoch aircraft count index sequence (contents ∷ rest) =
    snapshot_message (record {
      epoch = epoch;
      sequence = sequence;
      aircraft = aircraft;
      chunk_index = index;
      chunk_count = count;
      contents = contents;
    })
    ∷ snapshot_messages epoch aircraft count (index + 1) (sequence + 1) rest

-- The messages in order: for each a sequence number is taken, then its constructor checks it.
unfoldable pub append_all :
    (String → Bool) → List Message → TelemetryPublisher → Bool × TelemetryPublisher
unfolding message_fits
append_all uuid [] p = (true, p)
append_all uuid (m ∷ rest) p =
    let q : TelemetryPublisher = record p { next_sequence = p.next_sequence + 1 } in
    elim (message_fits uuid m) [
      | false ↦ (false, q)
      | true ↦ append_all uuid rest (record q { initial = q.initial ++ m ∷ [] })
    ]

unfoldable pub decode_all : List ControlChange → Option (List DecodedValue)
unfolding decoded_value
decode_all [] = some []
decode_all (c ∷ rest) = decoded_value c >>= λ v. decode_all rest >>= λ vs. some (v ∷ vs)

-- `uuid` tells whether `UUID(…)` reads the text.
module _ (uuid : String → Bool) (first_256 : String → String) where
  -- `_catalog_entry`, through the constructors of `ControlIdentity` and `CatalogEntry`.
  unfoldable pub catalog_entry : ControlDefinition → Option CatalogEntry
  unfolding identity_of identity_fits entry_fits
  catalog_entry d =
      let e : CatalogEntry = record {
        identity = identity_of d;
        description =
            if str_eq (first_256 d.description) "" then d.identifier else first_256 d.description;
        integer_max = d.max_value;
        string_length = d.string_length;
      } in
      if identity_fits e.identity && entry_fits e then some e else none

  unfoldable pub catalog_of :
      List ControlDefinition
      → Map ControlIdentity CatalogEntry
      → Option (Map ControlIdentity CatalogEntry)
  unfolding insert identity_of catalog_entry
  catalog_of [] acc = some acc
  catalog_of (d ∷ rest) acc =
      catalog_entry d >>= λ e. catalog_of rest (insert (identity_of d) e acc)

  -- The chunks of the snapshot.
  unfoldable pub append_snapshot :
      String → String → Option (List DecodedValue) → TelemetryPublisher → Bool × TelemetryPublisher
  unfolding at_least_one chunks snapshot_messages append_all
  append_snapshot epoch aircraft none p = (false, p)
  append_snapshot epoch aircraft (some sent) p =
      let contents = at_least_one (chunks sent 1024) in
      append_all uuid
        (snapshot_messages epoch aircraft (length contents) 0 p.next_sequence contents) p

  unfoldable pub after_catalog :
      Client → String → String → Bool × TelemetryPublisher → Bool × TelemetryPublisher
  unfolding decode_all append_snapshot
  after_catalog client epoch aircraft (false, p) = (false, p)
  after_catalog client epoch aircraft (true, p) =
      append_snapshot epoch aircraft (decode_all client.decoded_snapshot) p

  -- The chunks of the catalog.
  unfoldable pub append_catalog :
      Client
      → String
      → String
      → Option (Map ControlIdentity CatalogEntry)
      → TelemetryPublisher
      → Bool × TelemetryPublisher
  unfolding at_least_one chunks catalog_messages append_all after_catalog
  append_catalog client epoch aircraft none p = (false, p)
  append_catalog client epoch aircraft (some catalog) p =
      let entries = at_least_one (chunks (values catalog) 256) in
      after_catalog client epoch aircraft (
        append_all uuid (catalog_messages epoch aircraft (length entries) 0 p.next_sequence entries)
          (record p {
            catalog = catalog;
            active_modules =
                map (λ (d : ControlDefinition). d.module_name) client.active_definitions;
          }))

  unfoldable pub open_epoch :
      Client → String → ℕ → String → TelemetryPublisher → Bool × TelemetryPublisher
  unfolding catalog_of append_catalog
  open_epoch client epoch now aircraft p =
      append_catalog client epoch aircraft (catalog_of client.active_definitions []) (record p {
        epoch = some epoch;
        aircraft = some aircraft;
        next_refresh_at = some (now + p.refresh_interval);
      })

  unfoldable pub begin_for :
      Client → String → ℕ → Option String → TelemetryPublisher → Bool × TelemetryPublisher
  unfolding open_epoch
  begin_for client epoch now none p = (true, p)
  begin_for client epoch now (some aircraft) p = open_epoch client epoch now aircraft p

  -- `_begin_epoch`
  unfoldable pub begin_epoch :
      Client → String → ℕ → Option String → TelemetryPublisher → Bool × TelemetryPublisher
  unfolding reset begin_for
  begin_epoch client epoch now aircraft p =
      let q = reset p in
      if not q.session_active then (true, q) else begin_for client epoch now aircraft q

  unfoldable pub set_session_active :
      Client → String → ℕ → Bool → TelemetryPublisher → Bool × TelemetryPublisher
  unfolding reset begin_epoch
  set_session_active client epoch now active p =
      let q = record p { session_active = active } in
      if not active then (true, reset q) else begin_epoch client epoch now client.current_aircraft q

  -- `_aircraft_changed`
  unfoldable pub aircraft_changed :
      Client → String → ℕ → Option String → TelemetryPublisher → Bool × TelemetryPublisher
  unfolding begin_epoch
  aircraft_changed client epoch now aircraft p =
      if p.session_active then begin_epoch client epoch now aircraft p else (true, p)
