-- ===== src/Endpoint/Resume/Client.antt =====
-- endpoint.go: the client's side of a resume: the HELLO of openResume and its checks of the WELCOME,
-- validateClientWelcome, and attachResume.
use sgsp.Common.{
  ℕ, ◌*◌, ◌==◌, ltb, length, if◌then◌else◌, Bool, true, false, not, ◌&&◌, ◌||◌, none, some,
}
use sgsp.Common.Int.{ℤ}
use sgsp.Placement.Types.{String, AppIdentity, Owner, same_text}
use sgsp.Placement.Bootstrap.{Principal}
use sgsp.Endpoint.Session.{
  Code, unauthenticated, protocol_violation, invalid_argument, unsupported_capability,
  session_closed, normal, Session, replace_connection_at,
}
use sgsp.Endpoint.Admission.{Role, is_bootstrap, same_owner}
use sgsp.Endpoint.Handshake.{
  Packages, LimitMessage, CredentialMessage, HelloMessage, ResumeMessage, WelcomeMessage, role_name,
  parse_session_id, format_id, to_owner, same_limits, validate_limit_message, has_capability,
  millisecond,
}

-- A client endpoint's configuration, and its session: the fields that never change, the control limit of
-- the peer, and its life. A number of milliseconds is not negative.
pub record ClientEndpoint : Type 0 where
  pub role : Role
  pub app : AppIdentity
  pub limits : LimitMessage
  pub id : ℕ
  pub owner : Owner
  pub resume_secret : String
  pub peer_control_bytes : ℤ
  pub life : Session Principal
  pub resume_grace : ℕ
  pub closed : Bool

unfoldable pub resume_message : Packages → ClientEndpoint → ResumeMessage
resume_message go c = record {
  session_id = format_id go c.id;
  owner_id = c.owner.id;
  incarnation = format_id go c.owner.incarnation;
  secret = c.resume_secret;
}

unfoldable pub resume_hello : Packages → CredentialMessage → ClientEndpoint → HelloMessage
resume_hello go credential c = record {
  role = role_name c.role;
  app = c.app;
  limits = c.limits;
  credential = credential;
  group = "";
  admission = "";
  resume = some (resume_message go c);
}

unfoldable pub validate_client_welcome : Packages → ℕ → Role → Bool → WelcomeMessage → Bool
validate_client_welcome go now role resumed welcome =
    if (if resumed then not welcome.resumed else welcome.resumed)
      || not (ltb now (welcome.principal.expires_ms * millisecond))
    then false
    else if not resumed && not (same_text welcome.epoch "1")
    then false
    else if is_bootstrap role
    then not (
        welcome.resumable
        || not (welcome.resume_grace_ms == 0)
        || not (same_text welcome.resume_secret ""))
    else if not welcome.resumable || welcome.resume_grace_ms == 0
    then false
    else if resumed
    then same_text welcome.resume_secret ""
    else elim (go.decode_base64 welcome.resume_secret) [
      | none ↦ false
      | some secret ↦ length secret == 32
    ]

-- openResume, from the WELCOME on: `datagrams` is whether the connection has them.
unfoldable pub check_welcome : Packages → ℕ → Bool → ClientEndpoint → WelcomeMessage → Code
check_welcome go now datagrams c welcome =
    if not welcome.resumed
    then protocol_violation
    else if not (validate_limit_message welcome.limits)
    then invalid_argument
    else if not (is_bootstrap c.role)
        && (not datagrams || not (has_capability welcome.capabilities "datagrams"))
    then unsupported_capability
    else if not (validate_client_welcome go now c.role true welcome)
    then protocol_violation
    else normal

abbrev pub welcomed : WelcomeMessage → Principal
welcomed welcome = record {
  issuer = welcome.principal.issuer;
  subject = welcome.principal.subject;
  expires_at = welcome.principal.expires_ms * millisecond;
}

unfoldable pub is_own : Packages → ClientEndpoint → WelcomeMessage → Bool
is_own go c welcome =
    elim (parse_session_id go welcome.session_id) [ none ↦ false | some id ↦ id == c.id ]
    && same_owner (to_owner go welcome.owner) c.owner
    && same_limits welcome.limits
        (record { control_bytes = c.peer_control_bytes; rest = c.life.peer_limits })

-- The end of attachResume: the session has the new connection already.
unfoldable pub attached : WelcomeMessage → ClientEndpoint → ClientEndpoint × Code
attached welcome c =
    if c.closed
    then (c, session_closed)
    else (record c { resume_grace = welcome.resume_grace_ms * millisecond }, normal)

-- attachResume of the connection `k`.
unfoldable pub attach_resume :
    Packages → ℕ → ℕ → WelcomeMessage → ClientEndpoint → ClientEndpoint × Code
attach_resume go now k welcome c =
    if not (is_own go c welcome)
    then (c, protocol_violation)
    else if not (same_text welcome.principal.issuer c.life.principal.issuer)
        || not (same_text welcome.principal.subject c.life.principal.subject)
        || not (ltb now (welcome.principal.expires_ms * millisecond))
    then (c, unauthenticated)
    else elim (go.parse_uint welcome.epoch) [
      | none ↦ (c, protocol_violation)
      | some epoch ↦
          if epoch == 0
          then (c, protocol_violation)
          else let (life, code) = replace_connection_at c.life k (welcomed welcome) epoch in
            elim code [
              | normal ↦ attached welcome (record c { life = life })
              | refusal ↦ (c, refusal)
            ]
    ]
