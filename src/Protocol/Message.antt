-- ===== src/Protocol/Message.antt =====
-- shared/dcs_copilot_protocol/messages.py: the envelope of a control message.
-- `dumps` and `loads` of Python's json are parameters, as is the length of a text in UTF-8.
pub mod RoundTrip
use dcs_copilot.Prelude.{
  ◌↔◌, Never, All-imp, All-select, select-All, >>=-some, Returns, Returns-bind, Returns-some,
  >>=-assoc, ℕ, zero, suc, ◌+◌, ◌-◌, ◌*◌, ◌/◌, ◌%◌, ◌^◌, ◌≤◌, ◌<◌, String, ◌≡◌, refl, sym, ap,
  subst, ◌∙◌, ◌≢◌, ◌⊎◌, inl, inr, Bool, true, false, ◌&&◌, ◌||◌, not, Option, none, some, List, [],
  ◌∷◌, ◌++◌, map, arith, str_eq, eq_iff, ltb, leb, ◌==◌, if◌then◌else◌, ltb→lt, ltb→le, leb→le,
  ==→eq, tests, Bool-cases, Option-cases, length, length-append, get_or, take, drop, length-drop,
  all_of, any_of, select, All, All-append,
}
use Prim.Native.String.{count}
use dcs_copilot.Prelude.Int.{ℤ, pos, negsuc}
use dcs_copilot.Prelude.Result.{Result, ok, err, ◌>>=◌, ◌>>◌, guard, present_or}
use dcs_copilot.Protocol.Json.{
  Json, null, integer, text, object, Fields, end, field, get, names, size, as_text, as_integer,
  member_of,
}

abbrev pub protocol_version : ℕ
protocol_version = 2

abbrev pub max_envelope_bytes : ℕ
max_envelope_bytes = 262144

abbrev pub max_id_length : ℕ
max_id_length = 128

abbrev pub max_payload_fields : ℕ
max_payload_fields = 64

unfoldable pub known_top_level_fields : List String
known_top_level_fields =
    "protocol_version" ∷ "type" ∷ "message_id" ∷ "correlation_id" ∷ "payload" ∷ []

pub data ProtocolError : Type 0 where
  too_large bad_json not_an_object unknown_fields : ProtocolError
  bad_version unsupported_version : ProtocolError
  bad_type bad_message_id bad_correlation_id bad_payload : ProtocolError

pub record ControlMessage : Type 0 where
  pub kind : String
  pub payload : Fields
  pub message_id : String
  pub correlation_id : Option String
  pub version : ℕ

-- 1 to 128 characters.
unfoldable pub id_fits : String → Bool
id_fits s = not (str_eq s "") && leb (count s) max_id_length

unfoldable pub correlation_fits : Option String → Bool
correlation_fits none = true
correlation_fits (some s) = leb (count s) max_id_length

-- `__post_init__`
unfoldable pub new_message :
    String → Fields → String → Option String → ℕ → Result ProtocolError ControlMessage
unfolding id_fits correlation_fits size
new_message kind payload message_id correlation_id version = do
  guard (id_fits kind) bad_type
  guard (id_fits message_id) bad_message_id
  guard (correlation_fits correlation_id) bad_correlation_id
  guard (leb (size payload) max_payload_fields) bad_payload
  guard (version == protocol_version) unsupported_version
  ok (record {
    kind = kind;
    payload = payload;
    message_id = message_id;
    correlation_id = correlation_id;
    version = version;
  })

unfoldable pub correlation_field : Option String → Fields
correlation_field none = end
correlation_field (some s) = field "correlation_id" (text s) end

unfoldable pub to_dict : ControlMessage → Fields
unfolding correlation_field
to_dict m = field "protocol_version" (integer (pos m.version)) (
    field "type" (text m.kind) (
      field "message_id" (text m.message_id)
        (field "payload" (object m.payload) (correlation_field m.correlation_id))))

-- `document.get("correlation_id")`, where null is as good as none.
unfoldable pub read_correlation : Option Json → Result ProtocolError (Option String)
read_correlation none = ok none
read_correlation (some null) = ok none
read_correlation (some (text s)) =
    if leb (count s) max_id_length then ok (some s) else err bad_correlation_id
read_correlation (some v) = err bad_correlation_id

-- `document.get("payload", {})`
unfoldable pub read_payload : Option Json → Result ProtocolError Fields
unfolding size
read_payload none = ok end
read_payload (some (object d)) = if leb (size d) max_payload_fields then ok d else err bad_payload
read_payload (some v) = err bad_payload

unfoldable pub read_version : ℤ → Result ProtocolError ℕ
read_version (pos n) = if n == protocol_version then ok n else err unsupported_version
read_version (negsuc n) = err unsupported_version

-- `from_json` on the decoded document.
unfoldable pub from_fields : Fields → Result ProtocolError ControlMessage
unfolding member_of names known_top_level_fields as_integer get read_version as_text id_fits
    read_correlation read_payload new_message
from_fields d = do
  guard (all_of (member_of known_top_level_fields) (names d)) unknown_fields
  z ← present_or (as_integer (get "protocol_version" d)) bad_version
  version ← read_version z
  kind ← present_or (as_text (get "type" d)) bad_type
  guard (id_fits kind) bad_type
  message_id ← present_or (as_text (get "message_id" d)) bad_message_id
  guard (id_fits message_id) bad_message_id
  correlation_id ← read_correlation (get "correlation_id" d)
  payload ← read_payload (get "payload" d)
  new_message kind payload message_id correlation_id version

unfoldable pub from_document : Option Json → Result ProtocolError ControlMessage
unfolding from_fields
from_document none = err bad_json
from_document (some (object d)) = from_fields d
from_document (some v) = err not_an_object

module _ (dumps : Json → String) (loads : String → Option Json) (utf8_length : String → ℕ) where
  unfoldable pub to_json : ControlMessage → String
  unfolding to_dict
  to_json m = dumps (object (to_dict m))

  unfoldable pub from_json : String → Result ProtocolError ControlMessage
  unfolding from_document
  from_json raw =
      if ltb max_envelope_bytes (utf8_length raw) then err too_large else from_document (loads raw)

-- The values that the constructor returns.
abbrev pub Fits : ControlMessage → Type 0
Fits m = new_message m.kind m.payload m.message_id m.correlation_id m.version ≡ ok m
