-- ===== src/Session/Runs.antt =====
-- What holds of a session after any sequence of messages and packets.
use dcs_copilot.Prelude.{
  ℕ, zero, suc, ◌*◌, ◌≤◌, ◌<◌, String, ◌≡◌, refl, true, false, Option, none, some, List, [], ◌∷◌,
  arith, length, length-append,
}
use dcs_copilot.Prelude.Result.{Result, ok, err}
use dcs_copilot.Protocol.Json.{
  Json, Fields, null, boolean, integer, decimal, text, array, object, get, as_text,
}
use dcs_copilot.Protocol.Message.{ControlMessage}
use dcs_copilot.Protocol.Media.{
  AudioFormat, MediaError, MediaPacket, new_format, format_from_fields, format_from_dict,
}
use dcs_copilot.Session.{
  AuthenticatedPrincipal, Session, SessionResult, new_session, is_present, max_bytes,
  bytes_per_second, reset_utterance, record_audio, record_in_format, handle_media, activate,
  start_as, start_session, end_active, end_session, start_ptt, complete, end_recording, end_ptt,
  admit, authenticate, handle_control, refuse, silent, session_already_active, invalid_session_id,
  authentication_required, ptt_not_active, unsupported_message, invalid_session_start,
  unexpected_media_kind,
}

pub data Input : Type 0 where
  control : ControlMessage → Input
  media : MediaPacket → Input

pub record Consistent (s : Session) : Type 0 where
  pub login : s.authenticated ≡ false → s.session_id ≡ none
  pub input : is_present s.input_audio_format ≡ is_present s.session_id
  pub output : is_present s.output_audio_format ≡ is_present s.session_id
  pub recording : s.ptt_active ≡ true → is_present s.session_id ≡ true
  pub counted : s.audio_bytes ≡ length s.audio_buffer
  pub idle :
      s.ptt_active ≡ false
      → (s.audio_buffer ≡ []) × (s.audio_chunks ≡ 0) × (s.utterance_overflowed ≡ false)
  pub bounded :
      (f : AudioFormat) → s.input_audio_format ≡ some f → length s.audio_buffer ≤ max_bytes s f
  pub audible : (f : AudioFormat) → s.input_audio_format ≡ some f → 0 < bytes_per_second f

module _ (verify : String → String → Option AuthenticatedPrincipal) where
  unfoldable pub step : Input → Session → SessionResult × Session
  unfolding handle_control handle_media
  step (control m) s = handle_control verify m s
  step (media p) s = handle_media p s

  -- The session after the inputs, in their order.
  unfoldable pub after : List Input → Session → Session
  unfolding step
  after [] s = s
  after (i ∷ rest) s = after rest (step i s).1

new_session-Consistent : (max_ms : ℕ) (id : String) → Consistent (new_session max_ms id)
unfolding new_session
new_session-Consistent max_ms id = record {
  login = λ h. refl;
  input = refl;
  output = refl;
  recording = λ h. ground (arith, h);
  counted = refl;
  idle = λ h. (refl, refl, refl);
  bounded = λ f h. ground (arith, h);
  audible = λ f h. ground (arith, h);
}

record_audio-Consistent :
    (f : AudioFormat) (p : MediaPacket) (s : Session)
    → s.input_audio_format ≡ some f
    → s.ptt_active ≡ true
    → Consistent s
    → Consistent (record_audio f p s).1
unfolding record_audio
record_audio-Consistent f p s e r c = record {
  login = ground (arith, c.login, e, r, length-append s.audio_buffer p.payload);
  input = ground (arith, c.input, e, r, length-append s.audio_buffer p.payload);
  output = ground (arith, c.output, e, r, length-append s.audio_buffer p.payload);
  recording = ground (arith, c.recording, e, r, length-append s.audio_buffer p.payload);
  counted = ground (
    arith,
    c.counted,
    e,
    r,
    length-append s.audio_buffer p.payload,
    length-append s.audio_buffer p.payload,
  );
  idle = ground (arith, c.idle, e, r, length-append s.audio_buffer p.payload);
  bounded = ground (arith, c.bounded, e, r, length-append s.audio_buffer p.payload);
  audible = ground (arith, c.audible, e, r, length-append s.audio_buffer p.payload);
}

start_ptt-Consistent :
    (m : ControlMessage) (s : Session) → Consistent s → Consistent (start_ptt m s).1
unfolding start_ptt reset_utterance
start_ptt-Consistent m s c = record {
  login = ground (arith, c.login);
  input = ground (arith, c.input);
  output = ground (arith, c.output);
  recording = ground (arith, c.recording);
  counted = ground (arith, c.counted);
  idle = ground (arith, c.idle);
  bounded = ground (arith, c.bounded);
  audible = ground (arith, c.audible);
}

end_session-Consistent :
    (m : ControlMessage) (s : Session) → Consistent s → Consistent (end_session m s).1
unfolding end_session end_active reset_utterance
end_session-Consistent m s c = record {
  login = ground (arith, c.login);
  input = ground (arith, c.input);
  output = ground (arith, c.output);
  recording = ground (arith, c.recording);
  counted = ground (arith, c.counted);
  idle = ground (arith, c.idle);
  bounded = ground (arith, c.bounded);
  audible = ground (arith, c.audible);
}

end_ptt-Consistent : (m : ControlMessage) (s : Session) → Consistent s → Consistent (end_ptt m s).1
unfolding end_ptt end_recording complete reset_utterance
end_ptt-Consistent m s c = record {
  login = ground (arith, c.login);
  input = ground (arith, c.input);
  output = ground (arith, c.output);
  recording = ground (arith, c.recording);
  counted = ground (arith, c.counted);
  idle = ground (arith, c.idle);
  bounded = ground (arith, c.bounded);
  audible = ground (arith, c.audible);
}

pos_mul : (a b : ℕ) → 0 < a → 0 < b → 0 < a * b * 2
pos_mul zero b h k = absurd (omega (arith, h))
pos_mul (suc a) zero h k = absurd (omega (arith, k))
pos_mul (suc a) (suc b) h k = omega arith

bytes_per_second-pos :
    (f : AudioFormat) → 0 < f.sample_rate → 0 < f.channels → 0 < bytes_per_second f
unfolding bytes_per_second
bytes_per_second-pos f r c = pos_mul f.sample_rate f.channels r c

new_format-pos :
    (encoding : String) (rate channels chunk : ℕ) (f : AudioFormat)
    → new_format encoding rate channels chunk ≡ ok f
    → (0 < f.sample_rate) × (0 < f.channels)
unfolding new_format
new_format-pos encoding rate channels chunk f h = ground (arith, h)

format_from_fields-audible :
    (d : Fields) (f : AudioFormat) → format_from_fields d ≡ ok f → 0 < bytes_per_second f
unfolding format_from_fields new_format
format_from_fields-audible d f h =
    let p : (0 < f.sample_rate) × (0 < f.channels) = ground (arith, h) in
    bytes_per_second-pos f p.0 p.1

format_from_dict-audible :
    (v : Option Json) (f : AudioFormat) → format_from_dict v ≡ ok f → 0 < bytes_per_second f
unfolding format_from_dict
format_from_dict-audible none f h = ground (arith, h)
format_from_dict-audible (some (object d)) f h = format_from_fields-audible d f h
format_from_dict-audible (some null) f h = ground (arith, h)
format_from_dict-audible (some (boolean b)) f h = ground (arith, h)
format_from_dict-audible (some (integer z)) f h = ground (arith, h)
format_from_dict-audible (some (decimal z)) f h = ground (arith, h)
format_from_dict-audible (some (text t)) f h = ground (arith, h)
format_from_dict-audible (some (array l)) f h = ground (arith, h)

activate-Consistent :
    (m : ControlMessage) (id : String) (input output : Result MediaError AudioFormat) (s : Session)
    → s.authenticated ≡ true
    → ((f : AudioFormat) → input ≡ ok f → 0 < bytes_per_second f)
    → Consistent s
    → Consistent (activate m id input output s).1
unfolding activate reset_utterance
activate-Consistent m id (ok i) (ok o) s l a c = record {
  login = ground (arith, l);
  input = refl;
  output = refl;
  recording = ground arith;
  counted = refl;
  idle = λ h. (refl, refl, refl);
  bounded = λ f h. omega arith;
  audible = ground (arith, a);
}
activate-Consistent m id (ok i) (err e) s l a c = c
activate-Consistent m id (err e) o s l a c = c

-- The session that a handler leaves is consistent.
unfoldable Leaves : SessionResult × Session → Type 0
Leaves r = Consistent r.1

leaves : (s : Session) → Consistent s → (r : SessionResult) → Leaves (r, s)
unfolding Leaves
leaves s c r = c

module _ (m : ControlMessage) (s : Session) (c : Consistent s) where
  same : (r : SessionResult) → Leaves (r, s)
  same r = leaves s c r

  activate-Leaves :
      (id : String)
      → s.authenticated ≡ true
      → Leaves (
          activate m id
            (format_from_dict (get "input_audio" m.payload))
            (format_from_dict (get "output_audio" m.payload))
            s)
  unfolding Leaves
  activate-Leaves id l =
      activate-Consistent m id _ (format_from_dict (get "output_audio" m.payload)) s l
        (format_from_dict-audible (get "input_audio" m.payload)) c

  start_as-Leaves : (o : Option String) → s.authenticated ≡ true → Leaves (start_as m o s)
  unfolding start_as
  start_as-Leaves none l = same _
  start_as-Leaves (some id) l =
      ground (arith, activate-Leaves id l, same (refuse (some m.message_id) invalid_session_id))

  start_session-Leaves : s.authenticated ≡ true → Leaves (start_session m s)
  unfolding start_session
  start_session-Leaves l = ground (
    arith,
    start_as-Leaves (as_text (get "session_id" m.payload)) l,
    same (refuse (some m.message_id) session_already_active),
    same (refuse (some m.message_id) invalid_session_start),
  )

  end_session-Leaves : Leaves (end_session m s)
  unfolding Leaves
  end_session-Leaves = end_session-Consistent m s c

  start_ptt-Leaves : Leaves (start_ptt m s)
  unfolding Leaves
  start_ptt-Leaves = start_ptt-Consistent m s c

  end_ptt-Leaves : Leaves (end_ptt m s)
  unfolding Leaves
  end_ptt-Leaves = end_ptt-Consistent m s c

record_in_format-Leaves :
    (o : Option AudioFormat) (p : MediaPacket) (s : Session)
    → s.input_audio_format ≡ o
    → s.ptt_active ≡ true
    → Consistent s
    → Leaves (record_in_format o p s)
unfolding record_in_format Leaves
record_in_format-Leaves none p s e r c = c
record_in_format-Leaves (some f) p s e r c = record_audio-Consistent f p s e r c

handle_media-Leaves : (p : MediaPacket) (s : Session) → Consistent s → Leaves (handle_media p s)
unfolding handle_media
handle_media-Leaves p s c =
    let r : (b : s.ptt_active ≡ true) → Leaves (record_in_format s.input_audio_format p s) =
      λ b. record_in_format-Leaves s.input_audio_format p s refl b c in
    let x : (q : SessionResult) → Leaves (q, s) = λ q. leaves s c q in
    ground (
      arith,
      r,
      x (refuse none authentication_required),
      x (refuse none ptt_not_active),
      x (refuse none unexpected_media_kind),
    )

module _ (verify : String → String → Option AuthenticatedPrincipal) where
  authenticate-Consistent :
      (m : ControlMessage) (s : Session) → Consistent s → Consistent (authenticate verify m s).1
  unfolding authenticate admit
  authenticate-Consistent m s c = record {
    login = ground (arith, c.login);
    input = ground (arith, c.input);
    output = ground (arith, c.output);
    recording = ground (arith, c.recording);
    counted = ground (arith, c.counted);
    idle = ground (arith, c.idle);
    bounded = ground (arith, c.bounded);
    audible = ground (arith, c.audible);
  }

  authenticate-Leaves :
      (m : ControlMessage) (s : Session) → Consistent s → Leaves (authenticate verify m s)
  unfolding Leaves
  authenticate-Leaves m s c = authenticate-Consistent m s c

  handle_control-Leaves :
      (m : ControlMessage) (s : Session) → Consistent s → Leaves (handle_control verify m s)
  unfolding handle_control
  handle_control-Leaves m s c = ground (
    arith,
    authenticate-Leaves m s c,
    start_session-Leaves m s c,
    end_session-Leaves m s c,
    start_ptt-Leaves m s c,
    end_ptt-Leaves m s c,
    leaves s c silent,
    leaves s c (refuse (some m.message_id) authentication_required),
    leaves s c (refuse (some m.message_id) unsupported_message),
  )

  after-Consistent :
      (inputs : List Input) (s : Session) → Consistent s → Consistent (after verify inputs s)
  unfolding after step Leaves
  after-Consistent [] s c = c
  after-Consistent (control m ∷ rest) s c =
      after-Consistent rest (handle_control verify m s).1 (handle_control-Leaves m s c)
  after-Consistent (media p ∷ rest) s c =
      after-Consistent rest (handle_media p s).1 (handle_media-Leaves p s c)

-- After any sequence of control messages and media packets, a new session is consistent: it has a
-- session id, an input and an output format all together or not at all, and none of them before it
-- is authenticated; it records only in an active session; the bytes it counts are those of its
-- buffer, which keeps within the bound of its format and is empty while it does not record; and its
-- input format has bytes in a second, by which the end of a recording divides.
pub runs-Consistent :
    (verify : String → String → Option AuthenticatedPrincipal) (inputs : List Input) (max_ms : ℕ)
    (id : String)
    → Consistent (after verify inputs (new_session max_ms id))
runs-Consistent verify inputs max_ms id =
    after-Consistent verify inputs (new_session max_ms id) (new_session-Consistent max_ms id)
