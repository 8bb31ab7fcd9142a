-- ===== src/Session/Login.antt =====
-- Who a session's user is.
use dcs_copilot.Prelude.{
  ℕ, String, ◌≡◌, refl, sym, ◌∙◌, true, false, Option, none, some, List, [], ◌∷◌, arith,
}
use dcs_copilot.Prelude.Result.{Result, ok, err}
use dcs_copilot.Protocol.Json.{get, as_text}
use dcs_copilot.Protocol.Message.{ControlMessage}
use dcs_copilot.Protocol.Media.{AudioFormat, MediaError, MediaPacket}
use dcs_copilot.Session.{
  AuthenticatedPrincipal, Session, SessionResult, new_session, silent, refuse, reset_utterance,
  record_audio, record_in_format, handle_media, activate, start_as, start_session, end_active,
  end_session, start_ptt, complete, end_recording, end_ptt, admit, check_token, authenticate,
  handle_control, authentication_required, unsupported_message, already_authenticated,
}
use dcs_copilot.Session.Runs.{Input, control, media, after, step}

-- The verifier of access tokens returned the identity of the session.
pub record Accepted (verify : String → String → Option AuthenticatedPrincipal) (s : Session)
    : Type 0 where
  pub token : String
  pub device : String
  pub principal : AuthenticatedPrincipal
  pub accepted : verify token device ≡ some principal
  pub user : s.user_id ≡ principal.user_id
  pub same_device : s.device_id ≡ some principal.device_id

-- What a handler does not change.
unfoldable Keeps : Session → SessionResult × Session → Type 0
Keeps s r =
    (r.1.authenticated ≡ s.authenticated)
    × (r.1.user_id ≡ s.user_id)
    × (r.1.device_id ≡ s.device_id)

kept : (s : Session) (r : SessionResult) → Keeps s (r, s)
unfolding Keeps
kept s r = (refl, refl, refl)

activate-Keeps :
    (m : ControlMessage) (id : String) (i o : Result MediaError AudioFormat) (s : Session)
    → Keeps s (activate m id i o s)
unfolding activate reset_utterance Keeps
activate-Keeps m id (ok i) (ok o) s = (refl, refl, refl)
activate-Keeps m id (ok i) (err e) s = (refl, refl, refl)
activate-Keeps m id (err e) o s = (refl, refl, refl)

start_session-Keeps : (m : ControlMessage) (s : Session) → Keeps s (start_session m s)
unfolding start_session start_as activate reset_utterance Keeps
start_session-Keeps m s = (ground arith, ground arith, ground arith)

end_session-Keeps : (m : ControlMessage) (s : Session) → Keeps s (end_session m s)
unfolding end_session end_active reset_utterance Keeps
end_session-Keeps m s = (ground arith, ground arith, ground arith)

start_ptt-Keeps : (m : ControlMessage) (s : Session) → Keeps s (start_ptt m s)
unfolding start_ptt reset_utterance Keeps
start_ptt-Keeps m s = (ground arith, ground arith, ground arith)

end_ptt-Keeps : (m : ControlMessage) (s : Session) → Keeps s (end_ptt m s)
unfolding end_ptt end_recording complete reset_utterance Keeps
end_ptt-Keeps m s = (ground arith, ground arith, ground arith)

handle_media-Keeps : (p : MediaPacket) (s : Session) → Keeps s (handle_media p s)
unfolding handle_media record_in_format record_audio Keeps
handle_media-Keeps p s = (ground arith, ground arith, ground arith)

module _ (verify : String → String → Option AuthenticatedPrincipal) where
  unfoldable Verified : SessionResult × Session → Type 0
  Verified r = r.1.authenticated ≡ true → Accepted verify r.1

  Keeps-Verified :
      (s : Session) (q : SessionResult) (r : SessionResult × Session)
      → Keeps s r
      → Verified (q, s)
      → Verified r
  unfolding Verified Keeps
  Keeps-Verified s q r (a, u, d) v = λ h.
      let w = v (sym a ∙ h) in
      record {
        token = w.token;
        device = w.device;
        principal = w.principal;
        accepted = w.accepted;
        user = u ∙ w.user;
        same_device = d ∙ w.same_device;
      }

  admit-Verified :
      (m : ControlMessage) (t d : String) (o : Option AuthenticatedPrincipal) (s : Session)
      → verify t d ≡ o
      → s.authenticated ≡ false
      → Verified (admit verify m o s)
  unfolding admit Verified
  admit-Verified m t d none s e l = λ h. absurd (ground (arith, h, l))
  admit-Verified m t d (some p) s e l = λ h. record {
    token = t;
    device = d;
    principal = p;
    accepted = e;
    user = refl;
    same_device = refl;
  }

  check_token-Verified :
      (m : ControlMessage) (t d : Option String) (s : Session)
      → s.authenticated ≡ false
      → Verified (admit verify m (check_token verify t d) s)
  unfolding admit check_token Verified
  check_token-Verified m none d s l = λ h. absurd (ground (arith, h, l))
  check_token-Verified m (some t) none s l = λ h. absurd (ground (arith, h, l))
  check_token-Verified m (some t) (some d) s l = admit-Verified m t d (verify t d) s refl l

  module _ (m : ControlMessage) (s : Session) (v : Verified (silent, s)) where
    stays : (r : SessionResult × Session) → Keeps s r → Verified r
    stays r k = Keeps-Verified s silent r k v

    authenticate-Verified : Verified (authenticate verify m s)
    unfolding authenticate
    authenticate-Verified =
        let c : (l : s.authenticated ≡ false)
            → Verified (
                admit verify m
                  (check_token verify (as_text (get "access_token" m.payload))
                    (as_text (get "device_id" m.payload)))
                  s) =
          λ l. check_token-Verified m _ _ s l in
        ground (arith, c, stays _ (kept s (refuse (some m.message_id) already_authenticated)))

    handle_control-Verified : Verified (handle_control verify m s)
    unfolding handle_control
    handle_control-Verified = ground (
      arith,
      authenticate-Verified,
      stays _ (start_session-Keeps m s),
      stays _ (end_session-Keeps m s),
      stays _ (start_ptt-Keeps m s),
      stays _ (end_ptt-Keeps m s),
      stays _ (kept s silent),
      stays _ (kept s (refuse (some m.message_id) authentication_required)),
      stays _ (kept s (refuse (some m.message_id) unsupported_message)),
    )

  after-Verified :
      (inputs : List Input) (s : Session)
      → Verified (silent, s)
      → Verified (silent, after verify inputs s)
  unfolding after step Verified
  after-Verified [] s v = v
  after-Verified (control m ∷ rest) s v =
      after-Verified rest (handle_control verify m s).1 (handle_control-Verified m s v)
  after-Verified (media p ∷ rest) s v =
      after-Verified rest (handle_media p s).1
        (Keeps-Verified s silent (handle_media p s) (handle_media-Keeps p s) v)

-- After any sequence of control messages and media packets, a new session that is authenticated
-- has the user and the device of a principal that the verifier returned for some access token.
pub authenticated-Accepted :
    (verify : String → String → Option AuthenticatedPrincipal) (inputs : List Input) (max_ms : ℕ)
    (id : String)
    → (after verify inputs (new_session max_ms id)).authenticated ≡ true
    → Accepted verify (after verify inputs (new_session max_ms id))
unfolding Verified new_session
authenticated-Accepted verify inputs max_ms id h =
    after-Verified verify inputs (new_session max_ms id) (λ g. absurd (ground (arith, g))) h
