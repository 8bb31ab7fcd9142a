-- ===== src/Session.antt =====
-- cloud/dcs_copilot_cloud/session.py: the state machine of an authenticated client session.
-- The verifier of access tokens is a parameter: `none` is its AuthenticationError. A reply carries the
-- parts of its payload that vary; its fresh message id, drawn by the constructor, is left out. The
-- bound on an utterance is in milliseconds, and the two roundings are those of the exact fractions.
mod Examples
pub mod Login
pub mod Runs
pub mod Utterance
use dcs_copilot.Prelude.{
  ◌↔◌, Never, All-imp, All-select, select-All, >>=-some, Returns, Returns-bind, Returns-some, ◌>>=◌,
  >>=-assoc, ℕ, zero, suc, ◌+◌, ◌-◌, ◌*◌, ◌/◌, ◌%◌, ◌^◌, ◌≤◌, ◌<◌, String, ◌≡◌, refl, sym, ap,
  subst, ◌∙◌, ◌≢◌, ◌⊎◌, inl, inr, Bool, true, false, ◌&&◌, ◌||◌, not, Option, none, some, List, [],
  ◌∷◌, ◌++◌, map, arith, str_eq, eq_iff, ltb, leb, ◌==◌, if◌then◌else◌, ltb→lt, ltb→le, leb→le,
  ==→eq, tests, Bool-cases, Option-cases, length, length-append, get_or, take, drop, length-drop,
  all_of, any_of, select, All, All-append,
}
use Prim.Native.String.{count}
use dcs_copilot.Prelude.Result.{Result, ok, err}
use dcs_copilot.Protocol.Json.{Json, Fields, get, size, as_text, has_exactly}
use dcs_copilot.Protocol.Message.{ControlMessage, max_id_length, protocol_version}
use dcs_copilot.Protocol.Media.{
  AudioFormat, MediaError, MediaKind, audio_input, audio_output, MediaPacket, format_from_dict,
  format_to_dict,
}

pub record AuthenticatedPrincipal : Type 0 where
  pub user_id : Option String
  pub device_id : String
  pub development : Bool

pub record UtteranceReceipt : Type 0 where
  pub connection_id : String
  pub session_id : String
  pub audio_bytes : ℕ
  pub audio_chunks : ℕ
  pub duration_ms : ℕ

pub record CompletedUtterance : Type 0 where
  pub session_id : String
  pub audio : List ℕ
  pub input_format : AudioFormat
  pub output_format : AudioFormat
  pub correlation_id : String

pub data Action : Type 0 where
  started ended : Action

pub record SessionLifecycle : Type 0 where
  pub action : Action
  pub session_id : String

pub data Code : Type 0 where
  authentication_required unsupported_message ptt_not_active unexpected_media_kind : Code
  session_not_active utterance_too_large already_authenticated authentication_failed : Code
  session_already_active invalid_session_start invalid_session_id : Code
  invalid_audio_format : MediaError → Code
  ptt_already_active : Code

-- The messages "hello", "connection.status", "error" and "event", with the id of the request.
pub data Reply : Type 0 where
  greeting :
      (connection_id : String) (supported_protocol_versions : List ℕ) (ai_pipeline : String)
      (output_audio : Fields)
      → Reply
  status :
      (correlation_id : String) (authenticated session_active : Bool) (connection_id : String)
      → Reply
  error : (correlation_id : Option String) → Code → Reply
  received : (correlation_id : String) → UtteranceReceipt → Reply

pub record SessionResult : Type 0 where
  pub responses : List Reply
  pub receipt : Option UtteranceReceipt
  pub utterance : Option CompletedUtterance
  pub lifecycle : Option SessionLifecycle
  pub close_code : Option ℕ

pub record Session : Type 0 where
  pub max_utterance_ms : ℕ
  pub connection_id : String
  pub authenticated : Bool
  pub user_id : Option String
  pub device_id : Option String
  pub session_id : Option String
  pub input_audio_format : Option AudioFormat
  pub output_audio_format : Option AudioFormat
  pub ptt_active : Bool
  pub audio_bytes : ℕ
  pub audio_chunks : ℕ
  pub audio_buffer : List ℕ
  pub utterance_overflowed : Bool

unfoldable pub new_session : ℕ → String → Session
new_session max_utterance_ms connection_id = record {
  max_utterance_ms = max_utterance_ms;
  connection_id = connection_id;
  authenticated = false;
  user_id = none;
  device_id = none;
  session_id = none;
  input_audio_format = none;
  output_audio_format = none;
  ptt_active = false;
  audio_bytes = 0;
  audio_chunks = 0;
  audio_buffer = [];
  utterance_overflowed = false;
}

-- `SessionResult()`
abbrev pub silent : SessionResult
silent = record {
  responses = [];
  receipt = none;
  utterance = none;
  lifecycle = none;
  close_code = none;
}

-- `SessionResult((self._error(…),))`
abbrev pub refuse : Option String → Code → SessionResult
refuse request code = record silent { responses = error request code ∷ [] }

abbrev pub is_present {ℓ} : {A : Type ℓ} → Option A → Bool
is_present none = false
is_present (some a) = true

-- `_status`
unfoldable pub status_of : ControlMessage → Session → Reply
status_of m s = status m.message_id s.authenticated (is_present s.session_id) s.connection_id

-- The format of the output: `AudioFormat(sample_rate=24_000)`.
unfoldable pub greeting_format : AudioFormat
greeting_format = record {
  encoding = "pcm_s16le";
  sample_rate = 24000;
  channels = 1;
  chunk_ms = 20;
}

unfoldable pub hello : Session → Reply
unfolding greeting_format format_to_dict
hello s =
    greeting s.connection_id (protocol_version ∷ []) "pipecat" (format_to_dict greeting_format)

-- `_reset_utterance`
unfoldable pub reset_utterance : Session → Session
reset_utterance s = record s {
  audio_bytes = 0;
  audio_chunks = 0;
  audio_buffer = [];
  utterance_overflowed = false;
}

-- Python's `round` of a fraction: to the nearest, a half to the even one.
unfoldable pub round_fraction : ℕ → ℕ → ℕ
round_fraction a b =
    let q = a / b in
    let r = 2 * (a % b) in
    if ltb r b then q else if ltb b r then q + 1 else if q % 2 == 0 then q else q + 1

unfoldable pub bytes_per_second : AudioFormat → ℕ
bytes_per_second f = f.sample_rate * f.channels * 2

unfoldable pub max_bytes : Session → AudioFormat → ℕ
unfolding bytes_per_second round_fraction
max_bytes s f = round_fraction (bytes_per_second f * s.max_utterance_ms) 1000

-- Past the guards of `handle_media`.
unfoldable pub record_audio : AudioFormat → MediaPacket → Session → SessionResult × Session
unfolding max_bytes
record_audio f packet s =
    if ltb (max_bytes s f) (length s.audio_buffer + length packet.payload)
    then if s.utterance_overflowed
      then (silent, s)
      else (refuse none utterance_too_large, record s { utterance_overflowed = true })
    else (
      silent,
      record s {
        audio_buffer = s.audio_buffer ++ packet.payload;
        audio_bytes = s.audio_bytes + length packet.payload;
        audio_chunks = s.audio_chunks + 1;
      },
    )

unfoldable pub is_input : MediaKind → Bool
is_input audio_input = true
is_input audio_output = false

unfoldable pub record_in_format :
    Option AudioFormat → MediaPacket → Session → SessionResult × Session
unfolding record_audio
record_in_format none packet s = (refuse none session_not_active, s)
record_in_format (some f) packet s = record_audio f packet s

unfoldable pub handle_media : MediaPacket → Session → SessionResult × Session
unfolding is_input record_in_format
handle_media packet s =
    if not s.authenticated
    then (refuse none authentication_required, s)
    else if not (is_present s.session_id && s.ptt_active)
    then (refuse none ptt_not_active, s)
    else if not (is_input packet.kind)
    then (refuse none unexpected_media_kind, s)
    else record_in_format s.input_audio_format packet s

unfoldable pub activate :
    ControlMessage
    → String
    → Result MediaError AudioFormat
    → Result MediaError AudioFormat
    → Session
    → SessionResult × Session
unfolding reset_utterance status_of
activate m id (ok input) (ok output) s =
    let t = reset_utterance (record s {
      session_id = some id;
      input_audio_format = some input;
      output_audio_format = some output;
      ptt_active = false;
    }) in
    (
      record silent {
        responses = status_of m t ∷ [];
        lifecycle = some (record { action = started; session_id = id });
      },
      t,
    )
activate m id (ok input) (err e) s = (refuse (some m.message_id) (invalid_audio_format e), s)
activate m id (err e) output s = (refuse (some m.message_id) (invalid_audio_format e), s)

-- The checks of the session id.
unfoldable pub start_as : ControlMessage → Option String → Session → SessionResult × Session
unfolding activate get format_from_dict
start_as m none s = (refuse (some m.message_id) invalid_session_id, s)
start_as m (some id) s =
    if str_eq id "" || ltb 128 (count id)
    then (refuse (some m.message_id) invalid_session_id, s)
    else activate m id (format_from_dict (get "input_audio" m.payload))
        (format_from_dict (get "output_audio" m.payload)) s

unfoldable pub start_session : ControlMessage → Session → SessionResult × Session
unfolding has_exactly as_text get start_as
start_session m s =
    if is_present s.session_id
    then (refuse (some m.message_id) session_already_active, s)
    else if not (has_exactly ("session_id" ∷ "input_audio" ∷ "output_audio" ∷ []) m.payload)
    then (refuse (some m.message_id) invalid_session_start, s)
    else start_as m (as_text (get "session_id" m.payload)) s

unfoldable pub same_text : Option String → String → Bool
same_text none x = false
same_text (some y) x = str_eq y x

unfoldable pub end_active : ControlMessage → Option String → Session → SessionResult × Session
unfolding same_text as_text get has_exactly reset_utterance status_of
end_active m none s = (refuse (some m.message_id) invalid_session_id, s)
end_active m (some id) s =
    if not (same_text (as_text (get "session_id" m.payload)) id)
      || not (has_exactly ("session_id" ∷ []) m.payload)
    then (refuse (some m.message_id) invalid_session_id, s)
    else let t = reset_utterance (record s {
      session_id = none;
      input_audio_format = none;
      output_audio_format = none;
      ptt_active = false;
    }) in
      (
        record silent {
          responses = status_of m t ∷ [];
          lifecycle = some (record { action = ended; session_id = id });
        },
        t,
      )

unfoldable pub end_session : ControlMessage → Session → SessionResult × Session
unfolding end_active
end_session m s = end_active m s.session_id s

unfoldable pub start_ptt : ControlMessage → Session → SessionResult × Session
unfolding reset_utterance
start_ptt m s =
    if not (is_present s.session_id)
    then (refuse (some m.message_id) session_not_active, s)
    else if s.ptt_active
    then (refuse (some m.message_id) ptt_already_active, s)
    else (silent, reset_utterance (record s { ptt_active = true }))

-- The receipt, the event and the utterance of `_end_ptt`.
unfoldable pub complete :
    ControlMessage → String → AudioFormat → AudioFormat → Session → SessionResult × Session
unfolding bytes_per_second round_fraction reset_utterance
complete m id input output s =
    let receipt : UtteranceReceipt = record {
      connection_id = s.connection_id;
      session_id = id;
      audio_bytes = s.audio_bytes;
      audio_chunks = s.audio_chunks;
      duration_ms = round_fraction (s.audio_bytes * 1000) (bytes_per_second input);
    } in
    let utterance : CompletedUtterance = record {
      session_id = id;
      audio = s.audio_buffer;
      input_format = input;
      output_format = output;
      correlation_id = m.message_id;
    } in
    (
      record silent {
        responses = received m.message_id receipt ∷ [];
        receipt = some receipt;
        utterance = if s.utterance_overflowed then none else some utterance;
      },
      reset_utterance (record s { ptt_active = false }),
    )

unfoldable pub end_recording :
    ControlMessage
    → Option String
    → Option AudioFormat
    → Option AudioFormat
    → Session
    → SessionResult × Session
unfolding complete
end_recording m (some id) (some input) (some output) s =
    if not s.ptt_active
    then (refuse (some m.message_id) ptt_not_active, s)
    else complete m id input output s
end_recording m id input output s = (refuse (some m.message_id) session_not_active, s)

unfoldable pub end_ptt : ControlMessage → Session → SessionResult × Session
unfolding end_recording
end_ptt m s = end_recording m s.session_id s.input_audio_format s.output_audio_format s

module _ (verify : String → String → Option AuthenticatedPrincipal) where
  unfoldable pub admit :
      ControlMessage → Option AuthenticatedPrincipal → Session → SessionResult × Session
  unfolding status_of
  admit m none s =
      (record (refuse (some m.message_id) authentication_failed) { close_code = some 4401 }, s)
  admit m (some p) s =
      let t = record s {
        authenticated = true;
        user_id = p.user_id;
        device_id = some p.device_id;
      } in
      (record silent { responses = status_of m t ∷ [] }, t)

  unfoldable pub check_token : Option String → Option String → Option AuthenticatedPrincipal
  check_token (some token) (some device_id) = verify token device_id
  check_token token device_id = none

  unfoldable pub authenticate : ControlMessage → Session → SessionResult × Session
  unfolding admit check_token as_text get
  authenticate m s =
      if s.authenticated
      then (refuse (some m.message_id) already_authenticated, s)
      else admit m
          (check_token (as_text (get "access_token" m.payload))
            (as_text (get "device_id" m.payload)))
          s

  unfoldable pub handle_control : ControlMessage → Session → SessionResult × Session
  unfolding authenticate start_session end_session start_ptt end_ptt
  handle_control m s =
      if str_eq m.kind "authenticate"
      then authenticate m s
      else if not s.authenticated
      then (refuse (some m.message_id) authentication_required, s)
      else if str_eq m.kind "session.start"
      then start_session m s
      else if str_eq m.kind "session.end"
      then end_session m s
      else if str_eq m.kind "assistant.interrupt"
      then (silent, s)
      else if str_eq m.kind "ptt.start"
      then start_ptt m s
      else if str_eq m.kind "ptt.end"
      then end_ptt m s
      else (refuse (some m.message_id) unsupported_message, s)
