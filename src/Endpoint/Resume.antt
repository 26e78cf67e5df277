-- ===== src/Endpoint/Resume.antt =====
-- endpoint.go: resumeConnection, which gives a session to a new connection of the same principal, and
-- openResume with attachResume, the client's side of it (Client). The server's handler is in two
-- parts: up to the locks, and the section under them, before which other sections may run. The
-- writing of the WELCOME, the timers and the end of the superseded connection are left out.
pub mod Client
pub mod Proven
pub mod Paired
pub mod Agreement
pub mod Identity
mod Tests
use sgsp.Common.{
  ℕ, ◌+◌, ◌-◌, ◌/◌, ◌%◌, ◌^◌, ◌==◌, ltb, List, [], ◌∷◌, length, get_elem?, set, if◌then◌else◌, Bool,
  true, false, not, ◌&&◌, ◌||◌, Option, none, some,
}
use sgsp.Common.Int.{ℤ}
use sgsp.Placement.Types.{String, Owner, same_text}
use sgsp.Placement.Bootstrap.{Principal}
use sgsp.Endpoint.Session.{
  active, Code, unauthenticated, forbidden, session_not_found, group_closed, resource_exhausted,
  normal, Session, is_closed,
}
use sgsp.Endpoint.Server.{Server, lookup_session}
use sgsp.Endpoint.Server.Admission.{group_at, is_closed_group}
use sgsp.Endpoint.Admission.{is_bootstrap, ServerConfig}
use sgsp.Endpoint.Handshake.{
  Packages, LimitMessage, HelloMessage, ResumeMessage, WelcomeMessage, Verdict, accepts, rejects,
  parse_session_id, format_id, owner_message, principal_message, same_limits, millisecond,
}

-- A session's fields that never change, the control limit of its peer, and its life. The other limits
-- of the peer are the life's.
pub record SessionRecord : Type 0 where
  pub id : ℕ
  pub owner : Owner
  pub group_key : String
  pub resume_hash : List ℕ
  pub peer_control_bytes : ℤ
  pub life : Session Principal

-- The endpoint's tables name a session by its place in the list of all that were made, so that there is
-- one at each place they name: the cases without one stand for nothing in the code.
pub record ServerEndpoint : Type 0 where
  pub tables : Server
  pub records : List SessionRecord

abbrev pub peer_limits_of : SessionRecord → LimitMessage
peer_limits_of r = record { control_bytes = r.peer_control_bytes; rest = r.life.peer_limits }

-- `bytes.Equal`, in constant time.
abbrev pub equal_bytes : List ℕ → List ℕ → Bool
equal_bytes [] [] = true
equal_bytes [] (y ∷ ys) = false
equal_bytes (x ∷ xs) [] = false
equal_bytes (x ∷ xs) (y ∷ ys) = x == y && equal_bytes xs ys

-- The session's identifier and the secret that a request shows.
unfoldable pub resume_request :
    Packages → ServerConfig → HelloMessage → ResumeMessage → Verdict (ℕ × List ℕ)
resume_request go config hello resume =
    if is_bootstrap config.role
      || not (same_text hello.group "")
      || not (same_text hello.admission "")
    then rejects forbidden
    else elim (parse_session_id go resume.session_id) [
      | none ↦ rejects session_not_found
      | some id ↦
          if not (same_text resume.owner_id config.owner.id)
            || not (same_text resume.incarnation (format_id go config.owner.incarnation))
          then rejects session_not_found
          else elim (go.decode_base64 resume.secret) [
            | none ↦ rejects unauthenticated
            | some secret ↦
                if not (length secret == 32) then rejects unauthenticated else accepts (id, secret)
          ]
    ]

-- Whether the principal may still enter the session's group.
unfoldable pub authorize_resume : ServerConfig → Principal → String → Bool
authorize_resume config principal key =
    if same_text key "" then true else elim config.authorize_group [
      | none ↦ false
      | some allow ↦ elim (allow principal key) [ none ↦ true | some e ↦ false ]
    ]

-- Up to the locks, with the two readings of the clock of lookupSession: the endpoint, and the session
-- with the digest of the secret.
unfoldable pub find_resume :
    Packages
    → ServerConfig
    → ℕ
    → ℕ
    → HelloMessage
    → ResumeMessage
    → Principal
    → ServerEndpoint
    → ServerEndpoint × Verdict (ℕ × SessionRecord × List ℕ)
find_resume go config now at hello resume principal e =
    elim (resume_request go config hello resume) [
      | rejects code ↦ (e, rejects code)
      | accepts (id, secret) ↦
          let (tables, found, code) = lookup_session now at id e.tables in
          let e' : ServerEndpoint = record e { tables = tables } in
          elim found [
            | none ↦ (e', rejects code)
            | some i ↦ elim (get_elem? e.records i) [
              | none ↦ (e', rejects code)
              | some r ↦
                  if authorize_resume config principal r.group_key
                  then (e', accepts (i, r, go.sha256 secret))
                  else (e', rejects forbidden)
            ]
          ]
    ]

unfoldable pub group_ended : Server → String → Bool
group_ended s key =
    if same_text key ""
    then false
    else elim (group_at s key) [ none ↦ true | some g ↦ is_closed_group g s ]

-- The session does not take the connection of this principal, with these limits and this secret.
unfoldable pub refuses_resume : ℕ → HelloMessage → Principal → List ℕ → SessionRecord → Bool
refuses_resume now hello principal hash r =
    is_closed r.life.state
    || not (ltb now r.life.principal.expires_at)
    || not (same_text r.life.principal.issuer principal.issuer)
    || not (same_text r.life.principal.subject principal.subject)
    || not (same_limits (peer_limits_of r) hello.limits)
    || not (equal_bytes r.resume_hash hash)

-- The connection `c` takes the session over, under the next epoch.
unfoldable pub take_over : ℕ → Principal → SessionRecord → SessionRecord
take_over c principal r = record r {
  life = record (r.life) {
    epoch = (r.life.epoch + 1) % 2 ^ 64;
    state = active;
    principal = principal;
    operations = some c;
  };
}

-- The section under the locks: the endpoint, and the new epoch.
unfoldable pub commit_resume :
    ℕ → ℕ → HelloMessage → Principal → ℕ → List ℕ → ServerEndpoint → ServerEndpoint × Verdict ℕ
commit_resume now c hello principal i hash e = elim (get_elem? e.records i) [
  | none ↦ (e, rejects session_not_found)
  | some r ↦
      if group_ended e.tables r.group_key
      then (e, rejects group_closed)
      else if refuses_resume now hello principal hash r
      then (e, rejects unauthenticated)
      else if r.life.epoch == 2 ^ 64 - 1
      then (e, rejects resource_exhausted)
      else (
        record e { records = set e.records i (take_over c principal r) },
        accepts ((r.life.epoch + 1) % 2 ^ 64),
      )
]

unfoldable pub resume_welcome :
    Packages → Owner → LimitMessage → ℕ → ℕ → Principal → ℕ → WelcomeMessage
resume_welcome go owner limits grace id principal epoch = record {
  session_id = format_id go id;
  epoch = go.format_uint epoch;
  owner = owner_message go owner;
  principal = principal_message principal;
  limits = limits;
  capabilities = "datagrams" ∷ [];
  resumed = true;
  resumable = true;
  resume_grace_ms = grace / millisecond;
  resume_secret = "";
}
