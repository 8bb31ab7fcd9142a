-- ===== src/Session/Utterance/Hear.antt =====
-- What a session hears of a list of packets.
use mathlib.Core.List.{append-nil, append_assoc}
use dcs_copilot.Prelude.{
  ℕ, ◌+◌, ◌≤◌, ◌<◌, ◌≡◌, refl, sym, ap, subst, ◌∙◌, ◌⊎◌, inl, inr, true, false, some, List, [], ◌∷◌,
  ◌++◌, arith, ltb, length, length-append, All,
}
use dcs_copilot.Protocol.Media.{AudioFormat, audio_input, MediaPacket}
use dcs_copilot.Session.{
  Session, is_input, max_bytes, record_audio, record_in_format, handle_media, is_present, silent,
}

-- The payloads, one after the other.
abbrev pub payloads : List MediaPacket → List ℕ
payloads [] = []
payloads (p ∷ rest) = p.payload ++ payloads rest

abbrev pub Inputs : List MediaPacket → Type 0
Inputs packets = All (λ p. p.kind ≡ audio_input) packets

unfoldable pub hear : List MediaPacket → Session → Session
hear [] s = s
hear (p ∷ rest) s = hear rest (handle_media p s).1

-- A session that records in a format.
pub record Recording (f : AudioFormat) (s : Session) : Type 0 where
  pub login : s.authenticated ≡ true
  pub session : is_present s.session_id ≡ true
  pub format : s.input_audio_format ≡ some f
  pub active : s.ptt_active ≡ true

pub handle_media-record_audio :
    (f : AudioFormat) (p : MediaPacket) (s : Session)
    → Recording f s
    → p.kind ≡ audio_input
    → handle_media p s ≡ record_audio f p s
unfolding handle_media is_input record_in_format
handle_media-record_audio f p s r k = rw (r.login, r.session, r.active, k, r.format) refl

-- The session with what it has recorded.
abbrev pub taped : Session → List ℕ → ℕ → ℕ → Session
taped s buffer bytes chunks = record s {
  audio_buffer = buffer;
  audio_bytes = bytes;
  audio_chunks = chunks;
}

pub taped-eq :
    (s : Session) (a b : List ℕ) (c d e f : ℕ)
    → a ≡ b
    → c ≡ d
    → e ≡ f
    → taped s a c e ≡ taped s b d f
taped-eq s a b c d e f p q r =
    ap (λ x. taped s x c e) p ∙ ap (λ x. taped s b x e) q ∙ ap (λ x. taped s b d x) r

unfoldable pub heard : List MediaPacket → Session → Session
heard packets s =
    taped s (s.audio_buffer ++ payloads packets) (s.audio_bytes + length (payloads packets))
      (s.audio_chunks + length packets)

pub record_audio-fits :
    (f : AudioFormat) (p : MediaPacket) (s : Session)
    → length s.audio_buffer + length p.payload ≤ max_bytes s f
    → record_audio f p s ≡ (
      silent,
      taped s (s.audio_buffer ++ p.payload) (s.audio_bytes + length p.payload) (s.audio_chunks + 1),
    )
unfolding record_audio
record_audio-fits f p s h =
    let e : ltb (max_bytes s f) (length s.audio_buffer + length p.payload) ≡ false = ground arith in
    rw e refl

pub hear-within :
    (f : AudioFormat) (packets : List MediaPacket) (s : Session)
    → Recording f s
    → Inputs packets
    → length s.audio_buffer + length (payloads packets) ≤ max_bytes s f
    → hear packets s ≡ heard packets s
unfolding hear heard max_bytes
hear-within f [] s r i h =
    taped-eq s _ _ _ _ _ _ (sym (append-nil s.audio_buffer)) (omega arith) (omega arith)
hear-within f (p ∷ rest) s r i h =
    let t =
      taped s (s.audio_buffer ++ p.payload) (s.audio_bytes + length p.payload)
        (s.audio_chunks + 1) in
    let total = length-append p.payload (payloads rest) in
    let long = length-append s.audio_buffer p.payload in
    let q : Recording f t = record {
      login = r.login;
      session = r.session;
      format = r.format;
      active = r.active;
    } in
    ap (λ x. hear rest x.1)
      (handle_media-record_audio f p s r i.0 ∙ record_audio-fits f p s (omega (arith, h, total)))
    ∙ hear-within f rest t q i.1 (
        subst (λ n. n + length (payloads rest) ≤ max_bytes s f) (sym long)
          (omega (arith, h, total)))
    ∙ taped-eq s _ _ _ _ _ _ (append_assoc s.audio_buffer p.payload (payloads rest))
        (omega (arith, total)) (omega arith)

-- A recording that has overflowed, or will.
pub record_audio-Recording :
    (f : AudioFormat) (p : MediaPacket) (s : Session)
    → Recording f s
    → Recording f (record_audio f p s).1
unfolding record_audio
record_audio-Recording f p s r = record {
  login = ground (arith, r.login);
  session = ground (arith, r.session);
  format = ground (arith, r.format);
  active = ground (arith, r.active);
}

abbrev pub Exceeds : AudioFormat → List MediaPacket → Session → Type 0
Exceeds f packets s =
    (s.utterance_overflowed ≡ true)
    ⊎ (max_bytes s f < length s.audio_buffer + length (payloads packets))

pub record_audio-Exceeds :
    (f : AudioFormat) (p : MediaPacket) (rest : List MediaPacket) (s : Session)
    → Exceeds f (p ∷ rest) s
    → Exceeds f rest (record_audio f p s).1
unfolding record_audio
record_audio-Exceeds f p rest s h =
    ground
      (arith, h, length-append p.payload (payloads rest), length-append s.audio_buffer p.payload)

pub record_audio-bounded :
    (f : AudioFormat) (p : MediaPacket) (s : Session)
    → length s.audio_buffer ≤ max_bytes s f
    → length (record_audio f p s).1.audio_buffer ≤ max_bytes (record_audio f p s).1 f
unfolding record_audio
record_audio-bounded f p s h = ground (arith, h, length-append s.audio_buffer p.payload)

pub hear-beyond :
    (f : AudioFormat) (packets : List MediaPacket) (s : Session)
    → Recording f s
    → Inputs packets
    → length s.audio_buffer ≤ max_bytes s f
    → Exceeds f packets s
    → (hear packets s).utterance_overflowed ≡ true
unfolding hear
hear-beyond f [] s r i b (inl e) = e
hear-beyond f [] s r i b (inr h) = absurd (omega (arith, h, b))
hear-beyond f (p ∷ rest) s r i b h =
    subst (λ x. (hear rest x.1).utterance_overflowed ≡ true)
      (sym (handle_media-record_audio f p s r i.0))
      (hear-beyond f rest (record_audio f p s).1 (record_audio-Recording f p s r) i.1
        (record_audio-bounded f p s b) (record_audio-Exceeds f p rest s h))

-- What hearing packets leaves in place.
pub record Heard (s t : Session) : Type 0 where
  pub login : t.authenticated ≡ s.authenticated
  pub session : t.session_id ≡ s.session_id
  pub input : t.input_audio_format ≡ s.input_audio_format
  pub output : t.output_audio_format ≡ s.output_audio_format
  pub active : t.ptt_active ≡ s.ptt_active

pub record_audio-Heard :
    (f : AudioFormat) (p : MediaPacket) (s : Session) → Heard s (record_audio f p s).1
unfolding record_audio
record_audio-Heard f p s = record {
  login = ground arith;
  session = ground arith;
  input = ground arith;
  output = ground arith;
  active = ground arith;
}

pub Heard-trans : (s t u : Session) → Heard s t → Heard t u → Heard s u
Heard-trans s t u h k = record {
  login = k.login ∙ h.login;
  session = k.session ∙ h.session;
  input = k.input ∙ h.input;
  output = k.output ∙ h.output;
  active = k.active ∙ h.active;
}

pub hear-Heard :
    (f : AudioFormat) (packets : List MediaPacket) (s : Session)
    → Recording f s
    → Inputs packets
    → Heard s (hear packets s)
unfolding hear
hear-Heard f [] s r i = record {
  login = refl;
  session = refl;
  input = refl;
  output = refl;
  active = refl;
}
hear-Heard f (p ∷ rest) s r i =
    let t = (record_audio f p s).1 in
    subst (λ x. Heard s (hear rest x.1)) (sym (handle_media-record_audio f p s r i.0))
      (Heard-trans s t (hear rest t) (record_audio-Heard f p s)
        (hear-Heard f rest t (record_audio-Recording f p s r) i.1))
