-- ===== src/Protocol/Examples.antt =====
-- A control message and a media packet, encoded and read back.
use dcs_copilot.Prelude.{
  ◌↔◌, ℕ, String, ◌≡◌, refl, Option, none, some, List, [], ◌∷◌, arith, str_eq, if◌then◌else◌,
}
use dcs_copilot.Prelude.Result.{ok}
use dcs_copilot.Protocol.Json.{Json, text, object, end, field}
use dcs_copilot.Protocol.Message.{ControlMessage, to_dict, to_json, from_json, new_message}
use dcs_copilot.Protocol.Message.RoundTrip.{from_json-to_json}
use dcs_copilot.Protocol.Media.{audio_output, MediaPacket, to_bytes, from_bytes, new_packet}
use dcs_copilot.Protocol.Media.RoundTrip.{to_bytes-from_bytes}

abbrev greeting : ControlMessage
greeting = record {
  kind = "hello";
  payload = field "connection_id" (text "c1") end;
  message_id = "m1";
  correlation_id = some "m0";
  version = 2;
}

-- One document, under the name "greeting".
abbrev dumps : Json → String
dumps v = "greeting"

abbrev loads : String → Option Json
unfolding to_dict
loads raw = if str_eq raw "greeting" then some (object (to_dict greeting)) else none

abbrev eight : String → ℕ
eight raw = 8

from_json-to_json_example :
    from_json dumps loads eight (to_json dumps loads eight greeting) ≡ ok greeting
unfolding to_json new_message
from_json-to_json_example = from_json-to_json dumps loads eight greeting refl (omega arith) refl

abbrev sound : MediaPacket
sound = record {
  kind = audio_output;
  sequence = 258;
  timestamp_ms = 4294967297;
  payload = 7 ∷ 8 ∷ [];
  version = 2;
}

abbrev sound_bytes : List ℕ
sound_bytes = 68 ∷ 67 ∷ 83 ∷ 67 ∷ 2 ∷ 2 ∷ 0 ∷ 0 ∷ 1 ∷ 2 ∷ 0 ∷ 0 ∷ 0 ∷ 1 ∷ 0 ∷ 0 ∷ 0 ∷ 1 ∷ 7 ∷ 8 ∷ []

sound-to_bytes : to_bytes sound ≡ ok sound_bytes
unfolding to_bytes
sound-to_bytes = refl

to_bytes-from_bytes_example :
    (to_bytes sound ≡ ok sound_bytes) ↔ (from_bytes sound_bytes ≡ ok sound)
unfolding new_packet
to_bytes-from_bytes_example = to_bytes-from_bytes sound sound_bytes refl (search arith)
