-- ===== src/Endpoint/Resume/Paired.antt =====
-- endpoint.go: what the server does with the request of a client that its session is paired with.
use sgsp.Common.{
  ℕ, ◌+◌, ◌-◌, ◌%◌, ◌^◌, ◌≤◌, ◌<◌, ◌≡◌, refl, sym, ap, arith, ◌==◌, List, [], ◌∷◌, length,
  get_elem?, set, true, false, some,
}
use sgsp.Common.Table.{lookup}
use sgsp.Placement.Types.{Owner, same_text_refl}
use sgsp.Placement.Bootstrap.{Principal}
use sgsp.Endpoint.Session.{is_closed}
use sgsp.Endpoint.Server.{same_id, lookup_session, expire_terminals, schedule_terminal_expiry}
use sgsp.Endpoint.Admission.{game_role, ServerConfig}
use sgsp.Endpoint.Handshake.{
  Packages, LimitMessage, CredentialMessage, accepts, validate_limit_message, format_id,
}
use sgsp.Endpoint.Handshake.Bytes.{IsLawful, parse-format_id, same_limits_refl}
use sgsp.Endpoint.Resume.{
  SessionRecord, ServerEndpoint, peer_limits_of, equal_bytes, resume_request, authorize_resume,
  find_resume, group_ended, refuses_resume, take_over, commit_resume,
}
use sgsp.Endpoint.Resume.Client.{ClientEndpoint, resume_message, resume_hello}

-- Both sides of a session: the client knows the owner, has the secret of the digest, the limits are those
-- that the sides announced, and the client's epoch is not ahead.
pub record IsPaired (go : Packages) (config : ServerConfig) (limits : LimitMessage)
    (secret : List ℕ) (c : ClientEndpoint) (r : SessionRecord) : Type 0 where
  pub game : config.role ≡ game_role
  pub game_client : c.role ≡ game_role
  pub id : c.id ≡ r.id
  pub bounded_id : r.id < 256 ^ 16
  pub owner : c.owner ≡ config.owner
  pub bounded_incarnation : config.owner.incarnation < 256 ^ 16
  pub decoded : go.decode_base64 c.resume_secret ≡ some secret
  pub long : length secret ≡ 32
  pub hash : r.resume_hash ≡ go.sha256 secret
  pub own_limits : peer_limits_of r ≡ c.limits
  pub peer_control : c.peer_control_bytes ≡ limits.control_bytes
  pub peer_limits : c.life.peer_limits ≡ limits.rest
  pub valid : validate_limit_message limits ≡ true
  pub issuer : c.life.principal.issuer ≡ r.life.principal.issuer
  pub subject : c.life.principal.subject ≡ r.life.principal.subject
  pub not_ahead : c.life.epoch ≤ r.life.epoch
  pub unclosed : is_closed r.life.state ≡ false
  pub unclosed_client : is_closed c.life.state ≡ false
  pub running : c.closed ≡ false

equal_bytes_refl : (xs : List ℕ) → equal_bytes xs xs ≡ true
equal_bytes_refl [] = refl
equal_bytes_refl (x ∷ xs) = ground (arith, equal_bytes_refl xs)

resume_request-accepts :
    (go : Packages) (config : ServerConfig) (limits : LimitMessage) (secret : List ℕ)
    (c : ClientEndpoint) (r : SessionRecord) (credential : CredentialMessage)
    → IsLawful go r.id config.owner.incarnation (r.life.epoch + 1)
    → IsPaired go config limits secret c r
    → resume_request go config (resume_hello go credential c) (resume_message go c)
      ≡ accepts (r.id, secret)
unfolding resume_request resume_hello resume_message
resume_request-accepts go config limits secret c r credential law v =
    rw
      (
        v.game,
        v.id,
        parse-format_id go r.id law.reads_id v.bounded_id,
        ap (λ (o : Owner). o.id) v.owner,
        ap (λ (o : Owner). o.incarnation) v.owner,
        same_text_refl config.owner.id,
        same_text_refl (format_id go config.owner.incarnation),
        v.decoded,
        v.long,
      )
      refl

refuses_resume-paired :
    (go : Packages) (config : ServerConfig) (limits : LimitMessage) (secret : List ℕ)
    (c : ClientEndpoint) (r : SessionRecord) (credential : CredentialMessage) (now : ℕ)
    (p : Principal)
    → IsPaired go config limits secret c r
    → now < r.life.principal.expires_at
    → p.issuer ≡ r.life.principal.issuer
    → p.subject ≡ r.life.principal.subject
    → refuses_resume now (resume_hello go credential c) p (go.sha256 secret) r ≡ false
unfolding refuses_resume resume_hello
refuses_resume-paired go config limits secret c r credential now p v l i s =
    rw
      (
        v.unclosed,
        i,
        s,
        same_text_refl r.life.principal.issuer,
        same_text_refl r.life.principal.subject,
        sym v.own_limits,
        same_limits_refl (peer_limits_of r),
        v.hash,
        equal_bytes_refl (go.sha256 secret),
      )
      (ground arith)

pub find_resume-accepts :
    (go : Packages) (config : ServerConfig) (limits : LimitMessage) (secret : List ℕ)
    (c : ClientEndpoint) (r : SessionRecord) (credential : CredentialMessage) (now at i : ℕ)
    (p : Principal) (e : ServerEndpoint)
    → IsLawful go r.id config.owner.incarnation (r.life.epoch + 1)
    → IsPaired go config limits secret c r
    → lookup same_id r.id e.tables.sessions ≡ some i
    → get_elem? e.records i ≡ some r
    → authorize_resume config p r.group_key ≡ true
    → find_resume go config now at (resume_hello go credential c) (resume_message go c) p e ≡ (
      record e { tables = (lookup_session now at r.id e.tables).0 },
      accepts (i, r, go.sha256 secret),
    )
unfolding find_resume lookup_session expire_terminals schedule_terminal_expiry
find_resume-accepts go config limits secret c r credential now at i p e law v l g a =
    rw (resume_request-accepts go config limits secret c r credential law v, l, g, a, find_resume)
      refl

pub commit_resume-accepts :
    (go : Packages) (config : ServerConfig) (limits : LimitMessage) (secret : List ℕ)
    (c : ClientEndpoint) (r : SessionRecord) (credential : CredentialMessage) (now k i : ℕ)
    (p : Principal) (e : ServerEndpoint)
    → IsPaired go config limits secret c r
    → get_elem? e.records i ≡ some r
    → group_ended e.tables r.group_key ≡ false
    → now < r.life.principal.expires_at
    → p.issuer ≡ r.life.principal.issuer
    → p.subject ≡ r.life.principal.subject
    → r.life.epoch + 1 < 2 ^ 64
    → commit_resume now k (resume_hello go credential c) p i (go.sha256 secret) e
      ≡ (record e { records = set e.records i (take_over k p r) }, accepts (r.life.epoch + 1))
unfolding commit_resume
commit_resume-accepts go config limits secret c r credential now k i p e v g o l q s room =
    let more : (r.life.epoch == 2 ^ 64 - 1) ≡ false = ground arith in
    let next : (r.life.epoch + 1) % 2 ^ 64 ≡ r.life.epoch + 1 = omega arith in
    rw
      (
        g,
        o,
        refuses_resume-paired go config limits secret c r credential now p v l q s,
        more,
        next,
        commit_resume,
      )
      refl
