-- ===== src/Session/Utterance.antt =====
-- What a recording yields, from its start to its end.
pub mod Hear
use mathlib.Core.List.{append-nil, append_assoc}
use dcs_copilot.Prelude.{
  ◌↔◌, Never, All-imp, All-select, select-All, >>=-some, Returns, Returns-bind, Returns-some, ◌>>=◌,
  >>=-assoc, ℕ, zero, suc, ◌+◌, ◌-◌, ◌*◌, ◌/◌, ◌%◌, ◌^◌, ◌≤◌, ◌<◌, String, ◌≡◌, refl, sym, ap,
  subst, ◌∙◌, ◌≢◌, ◌⊎◌, inl, inr, Bool, true, false, ◌&&◌, ◌||◌, not, Option, none, some, List, [],
  ◌∷◌, ◌++◌, map, arith, str_eq, eq_iff, ltb, leb, ◌==◌, if◌then◌else◌, ltb→lt, ltb→le, leb→le,
  ==→eq, tests, Bool-cases, Option-cases, length, length-append, get_or, take, drop, length-drop,
  all_of, any_of, select, All, All-append,
}
use dcs_copilot.Protocol.Message.{ControlMessage}
use dcs_copilot.Protocol.Media.{AudioFormat, audio_input, MediaPacket}
use dcs_copilot.Session.{
  AuthenticatedPrincipal, CompletedUtterance, Session, is_input, max_bytes, reset_utterance,
  record_audio, record_in_format, handle_media, start_ptt, complete, end_recording, end_ptt,
  handle_control, is_present, silent,
}
use dcs_copilot.Session.Runs.{Input, control, media, after, step}
use dcs_copilot.Session.Utterance.Hear.{
  payloads, Inputs, hear, handle_media-record_audio, taped, taped-eq, heard, record_audio-fits,
  hear-within, record_audio-Recording, Exceeds, record_audio-Exceeds, record_audio-bounded,
  hear-beyond, record_audio-Heard, Heard-trans, hear-Heard, Recording, Heard,
}

-- The utterance of a recording.
abbrev pub utterance_of :
    String → AudioFormat → AudioFormat → ControlMessage → List ℕ → CompletedUtterance
utterance_of id f g finish audio = record {
  session_id = id;
  audio = audio;
  input_format = f;
  output_format = g;
  correlation_id = finish.message_id;
}

-- A session in which a recording can start.
pub record Waiting (id : String) (input output : AudioFormat) (s : Session) : Type 0 where
  pub login : s.authenticated ≡ true
  pub session : s.session_id ≡ some id
  pub input_format : s.input_audio_format ≡ some input
  pub output_format : s.output_audio_format ≡ some output
  pub quiet : s.ptt_active ≡ false

-- The inputs of a recording, up to its end.
abbrev pub recording : ControlMessage → List MediaPacket → List Input
recording start packets = control start ∷ map media packets

abbrev begun : Session → Session
begun s = reset_utterance (record s { ptt_active = true })

zero_add : (n : ℕ) → 0 + n ≡ n
zero_add n = omega arith

leb_lem :
    {A : Type 0} (a b : ℕ) {x y z : A}
    → (a ≤ b → x ≡ y)
    → (b < a → x ≡ z)
    → x ≡ (if leb a b then y else z)
leb_lem a b p q = ground arith

module _ (verify : String → String → Option AuthenticatedPrincipal) where
  handle_control-start_ptt :
      (m : ControlMessage) (id : String) (f g : AudioFormat) (s : Session)
      → Waiting id f g s
      → m.kind ≡ "ptt.start"
      → (handle_control verify m s).1 ≡ begun s
  unfolding handle_control start_ptt
  handle_control-start_ptt m id f g s w e = rw (e, w.login, w.session, w.quiet) refl

  after-hear :
      (packets : List MediaPacket) (s : Session)
      → after verify (map media packets) s ≡ hear packets s
  unfolding after step hear
  after-hear [] s = refl
  after-hear (p ∷ rest) s = after-hear rest (handle_media p s).1

  after-recording :
      (start : ControlMessage) (packets : List MediaPacket) (id : String) (f g : AudioFormat)
      (s : Session)
      → Waiting id f g s
      → start.kind ≡ "ptt.start"
      → after verify (recording start packets) s ≡ hear packets (begun s)
  unfolding after step
  after-recording start packets id f g s w e =
      ap (after verify (map media packets)) (handle_control-start_ptt start id f g s w e)
      ∙ after-hear packets (begun s)

  end_ptt-complete :
      (m : ControlMessage) (id : String) (f g : AudioFormat) (s t : Session)
      → Waiting id f g s
      → Heard (begun s) t
      → m.kind ≡ "ptt.end"
      → handle_control verify m t ≡ complete m id f g t
  unfolding handle_control end_ptt end_recording reset_utterance
  end_ptt-complete m id f g s t w h e =
      rw
        (
          e, h.login, w.login, h.session, w.session, h.input, w.input_format, h.output,
          w.output_format, h.active,
        )
        refl

  begun-Recording :
      (id : String) (f g : AudioFormat) (s : Session) → Waiting id f g s → Recording f (begun s)
  unfolding reset_utterance
  begun-Recording id f g s w = record {
    login = w.login;
    session = rw w.session refl;
    format = w.input_format;
    active = refl;
  }

  utterance-within :
      (finish : ControlMessage) (packets : List MediaPacket) (id : String) (f g : AudioFormat)
      (s : Session)
      → Recording f (begun s)
      → Inputs packets
      → length (payloads packets) ≤ max_bytes s f
      → (complete finish id f g (hear packets (begun s))).0.utterance
        ≡ some (utterance_of id f g finish (payloads packets))
  unfolding complete heard reset_utterance max_bytes
  utterance-within finish packets id f g s r i h =
      rw
        (hear-within f packets (begun s) r i
          (subst (λ n. n ≤ max_bytes s f) (sym (zero_add (length (payloads packets)))) h))
        refl

  utterance-beyond :
      (finish : ControlMessage) (packets : List MediaPacket) (id : String) (f g : AudioFormat)
      (s : Session)
      → Recording f (begun s)
      → Inputs packets
      → max_bytes s f < length (payloads packets)
      → (complete finish id f g (hear packets (begun s))).0.utterance ≡ none
  unfolding complete reset_utterance max_bytes
  utterance-beyond finish packets id f g s r i h =
      rw
        (hear-beyond f packets (begun s) r i (omega arith)
          (inr (subst (λ n. max_bytes s f < n) (sym (zero_add (length (payloads packets)))) h)))
        refl

-- In an authenticated session that does not record, after a message "ptt.start", then packets of
-- input audio, a message "ptt.end" completes the utterance of all their payloads, one after the
-- other, in the session's formats, if these keep within the bound of an utterance in bytes; if not,
-- it completes none.
pub recording-utterance :
    (verify : String → String → Option AuthenticatedPrincipal) (start finish : ControlMessage)
    (packets : List MediaPacket) (id : String) (f g : AudioFormat) (s : Session)
    → Waiting id f g s
    → start.kind ≡ "ptt.start"
    → finish.kind ≡ "ptt.end"
    → Inputs packets
    → (handle_control verify finish (after verify (recording start packets) s)).0.utterance ≡ (
        if leb (length (payloads packets)) (max_bytes s f)
        then some (utterance_of id f g finish (payloads packets))
        else none)
recording-utterance verify start finish packets id f g s w a b i =
    let r = begun-Recording verify id f g s w in
    let t = hear packets (begun s) in
    ap (λ x. (handle_control verify finish x).0.utterance)
      (after-recording verify start packets id f g s w a)
    ∙ ap (λ x. x.0.utterance)
        (end_ptt-complete verify finish id f g s t w (hear-Heard f packets (begun s) r i) b)
    ∙ leb_lem (length (payloads packets)) (max_bytes s f)
        (utterance-within verify finish packets id f g s r i)
        (utterance-beyond verify finish packets id f g s r i)
