-- ===== src/Ingress.antt =====
-- cloud/dcs_copilot_cloud/telemetry.py: strict assembly of a catalog, a snapshot and deltas for one
-- connection. An exception keeps the assignments made before it, so each step returns its result
-- together with the state.
use dcs_copilot.Prelude.{
  ◌↔◌, Never, All-imp, All-select, select-All, >>=-some, Returns, Returns-bind, Returns-some, ◌>>=◌,
  >>=-assoc, ℕ, zero, suc, ◌+◌, ◌-◌, ◌*◌, ◌/◌, ◌%◌, ◌^◌, ◌≤◌, ◌<◌, String, ◌≡◌, refl, sym, ap,
  subst, ◌∙◌, ◌≢◌, ◌⊎◌, inl, inr, Bool, true, false, ◌&&◌, ◌||◌, not, Option, none, some, List, [],
  ◌∷◌, ◌++◌, map, arith, str_eq, eq_iff, ltb, leb, ◌==◌, if◌then◌else◌, ltb→lt, ltb→le, leb→le,
  ==→eq, tests, Bool-cases, Option-cases, length, length-append, get_or, take, drop, length-drop,
  all_of, any_of, select, All, All-append,
}
pub mod Valid
pub mod Keeps
pub mod Batches
pub mod Typed
pub mod Payload
mod Examples
use Prim.Native.String.{count}
use dcs_copilot.Prelude.Int.{ℤ, pos, negsuc}
use dcs_copilot.Prelude.Map.{Map, lookup, insert, values}
use dcs_copilot.Protocol.Telemetry.{
  ControlIdentity, CatalogEntry, Scalar, DecodedValue, TelemetryCatalog, TelemetrySnapshot,
  TelemetryDelta, identity_eq,
}

abbrev pub max_session_controls : ℕ
max_session_controls = 4096

pub data IngressError : Type 0 where
  not_telemetry malformed_message : IngressError
  bad_epoch_start catalog_closed chunk_order chunk_count_changed repeated_identity
        too_many_controls :
      IngressError
  catalog_incomplete already_ready not_ready delta_chunked : IngressError
  unknown_identity wrong_type out_of_range : IngressError
  no_epoch wrong_epoch wrong_aircraft out_of_sequence : IngressError

pub data BatchKind : Type 0 where
  reset_batch snapshot_batch delta_batch : BatchKind

pub record TelemetryBatch : Type 0 where
  pub kind : BatchKind
  pub epoch : String
  pub aircraft : String
  pub catalog : List CatalogEntry
  pub contents : List DecodedValue

pub record Ingress : Type 0 where
  pub epoch : Option String
  pub aircraft : Option String
  pub last_sequence : Option ℕ
  pub ready : Bool
  pub catalog_chunk_count : Option ℕ
  pub catalog_chunks : ℕ
  pub catalog : Map ControlIdentity CatalogEntry
  pub snapshot_chunk_count : Option ℕ
  pub snapshot_chunks : ℕ
  pub snapshot : Map ControlIdentity DecodedValue

-- `_clear`, and the constructor.
abbrev pub cleared : Ingress
cleared = record {
  epoch = none;
  aircraft = none;
  last_sequence = none;
  ready = false;
  catalog_chunk_count = none;
  catalog_chunks = 0;
  catalog = [];
  snapshot_chunk_count = none;
  snapshot_chunks = 0;
  snapshot = [];
}

pub data Result {ℓ} (A : Type ℓ) : Type ℓ where
  ok : A → Result A
  err : IngressError → Result A

-- A method: the result, or the exception, with the state that it leaves.
abbrev pub Method : Type 0 → Type 0
Method A = Ingress → Result A × Ingress

abbrev pub and_then : {A B : Type 0} → Result A × Ingress → (A → Method B) → Result B × Ingress
and_then (ok a, s) f = f a s
and_then (err e, s) f = (err e, s)

abbrev pub bind : {A B : Type 0} → Method A → (A → Method B) → Method B
bind m f s = and_then (m s) f

abbrev pub require : Bool → IngressError → Method (Unit {0})
require true e s = (ok tt, s)
require false e s = (err e, s)

abbrev pub modify : (Ingress → Ingress) → Method (Unit {0})
modify f s = (ok tt, f s)

abbrev pub same_option : Option String → String → Bool
same_option none x = false
same_option (some y) x = str_eq x y

abbrev pub is_some {ℓ} : {A : Type ℓ} → Option A → Bool
is_some none = false
is_some (some a) = true

abbrev pub is_count : Option ℕ → ℕ → Bool
is_count none n = false
is_count (some m) n = n == m

-- `_start_epoch`
unfoldable pub start_epoch : String → String → Ingress → Ingress
start_epoch epoch aircraft s = record cleared { epoch = some epoch; aircraft = some aircraft }

unfoldable pub require_context : String → String → Method (Unit {0})
require_context epoch aircraft s =
    if not (is_some s.epoch)
    then (err no_epoch, s)
    else if not (same_option s.epoch epoch)
    then (err wrong_epoch, s)
    else if not (same_option s.aircraft aircraft)
    then (err wrong_aircraft, s)
    else (ok tt, s)

-- sequence == last_sequence + 1
unfoldable pub follows : Option ℕ → ℕ → Bool
follows none sequence = false
follows (some last) sequence = sequence == last + 1

unfoldable pub require_sequence : ℕ → Method (Unit {0})
unfolding follows
require_sequence sequence s = require (follows s.last_sequence sequence) out_of_sequence s

unfoldable pub catalog_complete : Ingress → Bool
catalog_complete s = is_count s.catalog_chunk_count s.catalog_chunks

-- The first chunk fixes the count, and the others repeat it.
unfoldable pub agreed : Option ℕ → ℕ → Bool
agreed none count = true
agreed (some c) count = count == c

unfoldable pub add_entries : List CatalogEntry → Method (Unit {0})
add_entries [] s = (ok tt, s)
add_entries (entry ∷ rest) s =
    let added = add_entries rest (record s { catalog = insert entry.identity entry s.catalog }) in
    if is_some (lookup entry.identity s.catalog)
    then (err repeated_identity, s)
    else if leb max_session_controls (length s.catalog)
    then (err too_many_controls, s)
    else added

-- The value of an integer output, of a string output, against the bound in the catalog.
unfoldable pub integer_fits : Option Scalar → Option ℕ → Option IngressError
integer_fits (some (Scalar.integer (pos n))) (some bound) =
    if ltb bound n then some out_of_range else none
integer_fits (some (Scalar.integer (negsuc n))) (some bound) = some out_of_range
integer_fits _ _ = some wrong_type

unfoldable pub string_fits : Option Scalar → Option ℕ → Option IngressError
string_fits (some (Scalar.text s)) (some bound) =
    if ltb bound (count s) then some out_of_range else none
string_fits _ _ = some wrong_type

unfoldable pub check_value : DecodedValue → Option CatalogEntry → Option IngressError
unfolding integer_fits string_fits
check_value value none = some unknown_identity
check_value value (some entry) =
    if not value.available
    then none
    else if str_eq value.identity.output_type "integer"
    then integer_fits value.value entry.integer_max
    else string_fits value.value entry.string_length

-- `_validate_value`: the exception, if any.
unfoldable pub validate_value :
    Map ControlIdentity CatalogEntry → DecodedValue → Option IngressError
unfolding check_value
validate_value catalog value = check_value value (lookup value.identity catalog)

abbrev pub raise_if : Option IngressError → Method (Unit {0})
raise_if none s = (ok tt, s)
raise_if (some e) s = (err e, s)

unfoldable pub unless :
    Option IngressError → Result (Unit {0}) × Ingress → Ingress → Result (Unit {0}) × Ingress
unless none next s = next
unless (some e) next s = (err e, s)

unfoldable pub add_values : List DecodedValue → Method (Unit {0})
unfolding validate_value unless
add_values [] s = (ok tt, s)
add_values (value ∷ rest) s =
    let added = add_values rest (record s { snapshot = insert value.identity value s.snapshot }) in
    let stored : Result (Unit {0}) × Ingress =
      if is_some (lookup value.identity s.snapshot)
      then (err repeated_identity, s)
      else if leb max_session_controls (length s.snapshot)
      then (err too_many_controls, s)
      else added in
    unless (validate_value s.catalog value) stored s

unfoldable pub validate_all :
    Map ControlIdentity CatalogEntry → List DecodedValue → Option IngressError
unfolding validate_value
validate_all catalog [] = none
validate_all catalog (value ∷ rest) =
    let later = validate_all catalog rest in
    elim (validate_value catalog value) [ some e ↦ some e | none ↦ later ]

-- The tests of a catalog message that come before its entries.
unfoldable pub open_catalog : Bool → TelemetryCatalog → Method (Unit {0})
unfolding start_epoch require_context require_sequence
open_catalog true m =
    bind (require ((m.sequence == 0) && (m.chunk_index == 0)) bad_epoch_start)
      (λ _. modify (start_epoch m.epoch m.aircraft))
open_catalog false m = bind (require_context m.epoch m.aircraft) λ _.
    bind (require_sequence m.sequence)
      λ _ s. require (not (s.ready || is_some s.snapshot_chunk_count)) catalog_closed s

unfoldable pub note_catalog_count : ℕ → Method (Unit {0})
note_catalog_count n t = (ok tt, record t { catalog_chunk_count = some n })

-- The end of `_accept_catalog`.
unfoldable pub finish_catalog : Bool → TelemetryCatalog → Method (Option TelemetryBatch)
finish_catalog new_epoch m t =
    let batch : TelemetryBatch = record {
      kind = reset_batch;
      epoch = m.epoch;
      aircraft = m.aircraft;
      catalog = [];
      contents = [];
    } in
    (
      ok (if new_epoch then some batch else none),
      record t { catalog_chunks = t.catalog_chunks + 1; last_sequence = some m.sequence },
    )

unfoldable pub accept_catalog : TelemetryCatalog → Method (Option TelemetryBatch)
unfolding open_catalog agreed note_catalog_count add_entries finish_catalog
accept_catalog m s =
    let new_epoch = not (same_option s.epoch m.epoch) in
    bind (open_catalog new_epoch m)
      (λ _.
        bind (λ t. require (m.chunk_index == t.catalog_chunks) chunk_order t)
          λ _.
            bind (λ t. require (agreed t.catalog_chunk_count m.chunk_count) chunk_count_changed t)
              λ _.
                bind (note_catalog_count m.chunk_count)
                  λ _. bind (add_entries m.entries) λ _. finish_catalog new_epoch m)
      s

unfoldable pub note_snapshot_count : ℕ → Method (Unit {0})
note_snapshot_count n t = (ok tt, record t { snapshot_chunk_count = some n })

-- The end of `_accept_snapshot`: the batch, once all chunks are there.
unfoldable pub finish_snapshot : TelemetrySnapshot → Method (Option TelemetryBatch)
finish_snapshot m t =
    let u = record t { snapshot_chunks = t.snapshot_chunks + 1; last_sequence = some m.sequence } in
    if not (is_count u.snapshot_chunk_count u.snapshot_chunks) then (ok none, u) else (
      ok (
          some (record {
            kind = snapshot_batch;
            epoch = m.epoch;
            aircraft = m.aircraft;
            catalog = values u.catalog;
            contents = values u.snapshot;
          })),
      record u { ready = true },
    )

unfoldable pub accept_snapshot : TelemetrySnapshot → Method (Option TelemetryBatch)
unfolding require_context require_sequence catalog_complete agreed note_snapshot_count add_values
    finish_snapshot
accept_snapshot m = bind (require_context m.epoch m.aircraft) λ _.
    bind (require_sequence m.sequence) λ _.
      bind (λ t. require (catalog_complete t) catalog_incomplete t)
        λ _.
          bind (λ t. require (not t.ready) already_ready t)
            λ _.
              bind (λ t. require (m.chunk_index == t.snapshot_chunks) chunk_order t)
                λ _.
                  bind
                    (λ t.
                      require (agreed t.snapshot_chunk_count m.chunk_count) chunk_count_changed t)
                    λ _.
                      bind (note_snapshot_count m.chunk_count)
                        λ _. bind (add_values m.contents) λ _. finish_snapshot m

unfoldable pub check_delta : TelemetryDelta → Method (Unit {0})
unfolding validate_all
check_delta m t = raise_if (validate_all t.catalog m.contents) t

unfoldable pub finish_delta : TelemetryDelta → Method (Option TelemetryBatch)
finish_delta m t =
    let batch : TelemetryBatch = record {
      kind = delta_batch;
      epoch = m.epoch;
      aircraft = m.aircraft;
      catalog = [];
      contents = m.contents;
    } in
    (ok (some batch), record t { last_sequence = some m.sequence })

unfoldable pub accept_delta : TelemetryDelta → Method (Option TelemetryBatch)
unfolding require_context require_sequence check_delta finish_delta
accept_delta m = bind (require_context m.epoch m.aircraft) λ _.
    bind (require_sequence m.sequence) λ _.
      bind (λ t. require t.ready not_ready t)
        λ _.
          bind (require ((m.chunk_index == 0) && (m.chunk_count == 1)) delta_chunked)
            λ _. bind (check_delta m) λ _. finish_delta m

-- A control message by its type, as `from_control` reads it (Ingress/Payload), or the exception that
-- this raises.
pub data Message : Type 0 where
  catalog_message : TelemetryCatalog → Message
  snapshot_message : TelemetrySnapshot → Message
  delta_message : TelemetryDelta → Message
  malformed other : Message

unfoldable pub accept : Message → Method (Option TelemetryBatch)
unfolding accept_catalog accept_snapshot accept_delta
accept (catalog_message m) s = accept_catalog m s
accept (snapshot_message m) s = accept_snapshot m s
accept (delta_message m) s = accept_delta m s
accept malformed s = (err malformed_message, s)
accept other s = (err not_telemetry, s)

unfoldable pub disconnect : Ingress → Ingress
disconnect s = cleared
