-- ===== src/Protocol/Message/RoundTrip.antt =====
-- A control message survives its encoding.
use dcs_copilot.Prelude.{ℕ, ◌≤◌, String, ◌≡◌, refl, true, Option, none, some, arith, leb, all_of}
use dcs_copilot.Prelude.Result.{ok}
use dcs_copilot.Protocol.Json.{names, member_of, Json, object, size, get}
use dcs_copilot.Protocol.Message.{
  known_top_level_fields, ControlMessage, id_fits, correlation_fits, new_message, to_dict,
  correlation_field, read_correlation, read_payload, from_fields, from_document, to_json, from_json,
  Fits, max_envelope_bytes, max_payload_fields, protocol_version, read_version,
}

-- What the constructor has tested.
Fits-parts :
    (m : ControlMessage)
    → Fits m
    → (id_fits m.kind ≡ true)
      × (id_fits m.message_id ≡ true)
      × (correlation_fits m.correlation_id ≡ true)
      × (leb (size m.payload) max_payload_fields ≡ true)
      × (m.version ≡ protocol_version)
unfolding new_message
Fits-parts m h = ground arith

known_correlation :
    (o : Option String)
    → all_of (member_of known_top_level_fields) (names (correlation_field o)) ≡ true
unfolding member_of names correlation_field known_top_level_fields
known_correlation none = refl
known_correlation (some s) = refl

read_correlation-get :
    (o : Option String)
    → correlation_fits o ≡ true
    → read_correlation (get "correlation_id" (correlation_field o)) ≡ ok o
unfolding correlation_fits read_correlation get correlation_field
read_correlation-get none h = refl
read_correlation-get (some s) h = rw h refl

from_fields-to_dict : (m : ControlMessage) → Fits m → from_fields (to_dict m) ≡ ok m
unfolding from_fields to_dict read_version read_payload
from_fields-to_dict m h = ground (
  arith,
  h,
  Fits-parts m h,
  known_correlation m.correlation_id,
  read_correlation-get m.correlation_id,
)

-- A message that its constructor accepts is read back from its encoding, in all its fields, where
-- `loads` inverts `dumps` on its document and the encoding keeps within the limit of an envelope.
pub from_json-to_json :
    (dumps : Json → String) (loads : String → Option Json) (utf8_length : String → ℕ)
    (m : ControlMessage)
    → loads (dumps (object (to_dict m))) ≡ some (object (to_dict m))
    → utf8_length (to_json dumps loads utf8_length m) ≤ max_envelope_bytes
    → Fits m
    → from_json dumps loads utf8_length (to_json dumps loads utf8_length m) ≡ ok m
unfolding from_json to_json from_document
from_json-to_json dumps loads utf8_length m inverse short h =
    ground (arith, short, inverse, from_fields-to_dict m h)
