-- ===== src/Session/Examples.antt =====
-- A session that logs in, starts, and records two packets.
use dcs_copilot.Prelude.{
  ℕ, String, ◌≡◌, refl, false, Option, none, some, List, [], ◌∷◌, str_eq, if◌then◌else◌,
}
use dcs_copilot.Protocol.Json.{text, object, Fields, end, field}
use dcs_copilot.Protocol.Message.{ControlMessage}
use dcs_copilot.Protocol.Media.{AudioFormat, audio_input, MediaPacket, format_to_dict}
use dcs_copilot.Session.{AuthenticatedPrincipal, Session, new_session, handle_control, max_bytes}
use dcs_copilot.Session.Runs.{Input, control, after, Consistent, runs-Consistent}
use dcs_copilot.Session.Login.{Accepted, authenticated-Accepted}
use dcs_copilot.Session.Utterance.{Waiting, recording, utterance_of, recording-utterance}

abbrev pilot : AuthenticatedPrincipal
pilot = record { user_id = some "maverick"; device_id = "desktop"; development = false }

abbrev tokens : String → String → Option AuthenticatedPrincipal
tokens token device = if str_eq token "secret" then some pilot else none

abbrev request : String → Fields → ControlMessage
request kind payload = record {
  kind = kind;
  payload = payload;
  message_id = "m1";
  correlation_id = none;
  version = 2;
}

abbrev mono : AudioFormat
mono = record { encoding = "pcm_s16le"; sample_rate = 2; channels = 1; chunk_ms = 20 }

abbrev login : ControlMessage
login =
    request "authenticate"
      (field "access_token" (text "secret") (field "device_id" (text "desktop") end))

abbrev open_session : ControlMessage
open_session = request "session.start" (
    field "session_id" (text "flight") (
      field "input_audio" (object (format_to_dict mono))
        (field "output_audio" (object (format_to_dict mono)) end)))

abbrev chunk : List ℕ → MediaPacket
chunk payload = record {
  kind = audio_input;
  sequence = 0;
  timestamp_ms = 0;
  payload = payload;
  version = 2;
}

abbrev opening : List Input
opening = control login ∷ control open_session ∷ []

abbrev opened : Session
unfolding after new_session
opened = after tokens opening (new_session 1500 "c1")

opened-max : max_bytes opened mono ≡ 6
unfolding opened max_bytes format_to_dict
opened-max = refl

runs-Consistent_example : Consistent opened
unfolding opened after
runs-Consistent_example = runs-Consistent tokens opening 1500 "c1"

authenticated-Accepted_example : Accepted tokens opened
unfolding after new_session format_to_dict
authenticated-Accepted_example = authenticated-Accepted tokens opening 1500 "c1" refl

abbrev two_chunks : List MediaPacket
two_chunks = chunk (1 ∷ 2 ∷ []) ∷ chunk (3 ∷ 4 ∷ 5 ∷ []) ∷ []

opened-Waiting : Waiting "flight" mono mono opened
unfolding after new_session format_to_dict
opened-Waiting = record {
  login = refl;
  session = refl;
  input_format = refl;
  output_format = refl;
  quiet = refl;
}

recording-utterance_example :
    (handle_control tokens
      (request "ptt.end" end)
      (after tokens (recording (request "ptt.start" end) two_chunks) opened)).0.utterance
    ≡ some (utterance_of "flight" mono mono (request "ptt.end" end) (1 ∷ 2 ∷ 3 ∷ 4 ∷ 5 ∷ []))
unfolding max_bytes opened format_to_dict
recording-utterance_example =
    recording-utterance tokens (request "ptt.start" end) (request "ptt.end" end) two_chunks "flight"
      mono mono opened opened-Waiting refl refl (refl, (refl, tt))
