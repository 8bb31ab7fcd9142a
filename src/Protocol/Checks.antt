-- ===== src/Protocol/Checks.antt =====
-- shared/dcs_copilot_protocol/telemetry.py: what the constructors of the telemetry messages accept.
-- A test is false where the constructor raises. A number is natural and a text is a text by its type.
use dcs_copilot.Prelude.{
  ℕ, String, Bool, true, false, ◌&&◌, ◌||◌, not, Option, none, some, List, [], ◌∷◌, map, str_eq,
  ltb, leb, if◌then◌else◌, length, any_of,
}
use Prim.Native.String.{count}
use dcs_copilot.Protocol.Telemetry
use dcs_copilot.Protocol.Telemetry.{
  ControlIdentity, CatalogEntry, Scalar, DecodedValue, TelemetryCatalog, TelemetrySnapshot,
  TelemetryDelta, same_identity,
}

abbrev pub max_module_length : ℕ
max_module_length = 64

abbrev pub max_identifier_length : ℕ
max_identifier_length = 64

abbrev pub max_description_length : ℕ
max_description_length = 256

abbrev pub max_string_value_length : ℕ
max_string_value_length = 256

-- 2**53 - 1
abbrev pub max_sequence : ℕ
max_sequence = 9007199254740991

abbrev pub max_aircraft_length : ℕ
max_aircraft_length = 64

abbrev pub max_chunk_count : ℕ
max_chunk_count = 64

abbrev pub max_entries : ℕ
max_entries = 256

abbrev pub max_snapshot_values : ℕ
max_snapshot_values = 1024

abbrev pub max_delta_values : ℕ
max_delta_values = 1024

unfoldable pub bounded_text : ℕ → String → Bool
bounded_text n s = not (str_eq s "") && leb (count s) n

-- `output_type in OUTPUT_TYPES`
unfoldable pub known_type : String → Bool
known_type s = str_eq s "integer" || str_eq s "string"

unfoldable pub identity_fits : ControlIdentity → Bool
unfolding bounded_text known_type
identity_fits i =
    bounded_text max_module_length i.module_name
    && bounded_text max_identifier_length i.identifier
    && known_type i.output_type

abbrev pub absent {ℓ} : {A : Type ℓ} → Option A → Bool
absent none = true
absent (some a) = false

unfoldable pub length_fits : Option ℕ → Bool
length_fits none = false
length_fits (some n) = ltb 0 n && leb n max_string_value_length

unfoldable pub entry_fits : CatalogEntry → Bool
unfolding bounded_text length_fits
entry_fits e =
    bounded_text max_description_length e.description
    && (if str_eq e.identity.output_type "integer"
        then not (absent e.integer_max) && absent e.string_length
        else if str_eq e.identity.output_type "string"
        then length_fits e.string_length && absent e.integer_max
        else true)

unfoldable pub is_integer : Option Scalar → Bool
is_integer (some (Telemetry.integer z)) = true
is_integer v = false

unfoldable pub is_short_text : Option Scalar → Bool
is_short_text (some (Telemetry.text s)) = leb (count s) max_string_value_length
is_short_text v = false

unfoldable pub value_fits : DecodedValue → Bool
unfolding is_integer is_short_text
value_fits v =
    if not v.available
    then absent v.value
    else if str_eq v.identity.output_type "integer"
    then is_integer v.value
    else if str_eq v.identity.output_type "string"
    then is_short_text v.value
    else true

-- `_check_unique_identities`
unfoldable pub unique_identities : List ControlIdentity → Bool
unfolding same_identity
unique_identities [] = true
unique_identities (i ∷ rest) = not (any_of (same_identity i) rest) && unique_identities rest

-- `uuid` tells whether `UUID(…)` reads the text.
module _ (uuid : String → Bool) where
  -- The tests that the three messages share.
  unfoldable pub common_fits : String → ℕ → String → ℕ → ℕ → Bool
  unfolding bounded_text
  common_fits epoch sequence aircraft chunk_index chunk_count =
      uuid epoch
      && leb sequence max_sequence
      && bounded_text max_aircraft_length aircraft
      && ltb 0 chunk_count
      && leb chunk_count max_chunk_count
      && ltb chunk_index chunk_count

  unfoldable pub catalog_fits : TelemetryCatalog → Bool
  unfolding common_fits unique_identities
  catalog_fits m =
      common_fits m.epoch m.sequence m.aircraft m.chunk_index m.chunk_count
      && leb (length m.entries) max_entries
      && unique_identities (map (λ e. e.identity) m.entries)

  unfoldable pub snapshot_fits : TelemetrySnapshot → Bool
  unfolding common_fits unique_identities
  snapshot_fits m =
      common_fits m.epoch m.sequence m.aircraft m.chunk_index m.chunk_count
      && leb (length m.contents) max_snapshot_values
      && unique_identities (map (λ v. v.identity) m.contents)

  unfoldable pub delta_fits : TelemetryDelta → Bool
  unfolding common_fits unique_identities
  delta_fits m =
      common_fits m.epoch m.sequence m.aircraft m.chunk_index m.chunk_count
      && ltb 0 (length m.contents)
      && leb (length m.contents) max_delta_values
      && unique_identities (map (λ v. v.identity) m.contents)
