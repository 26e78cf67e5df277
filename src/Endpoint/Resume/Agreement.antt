-- ===== src/Endpoint/Resume/Agreement.antt =====
-- endpoint.go: a client that lost its connection resumes its session, from its HELLO to its session.
use sgsp.Common.{
  ℕ, ◌+◌, ◌*◌, ◌/◌, ◌^◌, ◌<◌, ◌≡◌, refl, sym, ap, subst, ◌∙◌, arith, ltb, leb, ◌==◌, List,
  get_elem?, set, true, false, some,
}
use sgsp.Common.Table.{lookup}
use sgsp.Placement.Types.{String, Owner, same_text, same_text_refl}
use sgsp.Placement.Bootstrap.{Principal}
use sgsp.Endpoint.Session.{active, Code, normal, Session, is_closed, replace_connection_at}
use sgsp.Endpoint.Server.{
  Server, same_id, lookup_session, expire_terminals, schedule_terminal_expiry,
}
use sgsp.Endpoint.Server.Bounds.Operations.{lookup_session-expire}
use sgsp.Endpoint.Admission.{ServerConfig, same_owner}
use sgsp.Endpoint.Handshake.{
  Packages, LimitMessage, CredentialMessage, accepts, millisecond, has_capability,
  principal_message,
}
use sgsp.Endpoint.Handshake.Bytes.{
  IsLawful, parse-format_id, to_owner-owner_message, same_limits_refl,
}
use sgsp.Endpoint.Resume.{
  SessionRecord, ServerEndpoint, authorize_resume, find_resume, group_ended, take_over,
  commit_resume, resume_welcome,
}
use sgsp.Endpoint.Resume.Client.{
  ClientEndpoint, resume_message, resume_hello, validate_client_welcome, is_own, check_welcome,
  welcomed, attached, attach_resume,
}
use sgsp.Endpoint.Resume.Paired.{IsPaired, find_resume-accepts, commit_resume-accepts}

welcome-accepted :
    (go : Packages) (config : ServerConfig) (limits : LimitMessage) (secret : List ℕ)
    (c : ClientEndpoint) (r : SessionRecord) (now grace : ℕ) (p : Principal)
    → IsPaired go config limits secret c r
    → now < p.expires_at / millisecond * millisecond
    → 0 < grace / millisecond
    → check_welcome go now true c
        (resume_welcome go config.owner limits grace r.id p (r.life.epoch + 1))
      ≡ normal
unfolding check_welcome validate_client_welcome resume_welcome principal_message has_capability
welcome-accepted go config limits secret c r now grace p v l h =
    let soon : ltb now (p.expires_at / millisecond * millisecond) ≡ true = ground arith in
    let some_grace : (grace / millisecond == 0) ≡ false = ground arith in
    rw (v.game_client, v.valid, soon, some_grace) refl

same_owner_refl : (o : Owner) → same_owner o o ≡ true
unfolding same_owner
same_owner_refl o =
    rw
      (
        same_text_refl o.id,
        same_text_refl o.endpoint.address,
        same_text_refl o.endpoint.server_name,
      )
      (ground arith)

is_own-welcome :
    (go : Packages) (config : ServerConfig) (limits : LimitMessage) (secret : List ℕ)
    (c : ClientEndpoint) (r : SessionRecord) (grace : ℕ) (p : Principal)
    → IsLawful go r.id config.owner.incarnation (r.life.epoch + 1)
    → IsPaired go config limits secret c r
    → is_own go c (resume_welcome go config.owner limits grace r.id p (r.life.epoch + 1)) ≡ true
unfolding is_own resume_welcome
is_own-welcome go config limits secret c r grace p law v =
    let known : same_owner config.owner c.owner ≡ true =
      subst (λ (o : Owner). same_owner config.owner o ≡ true) (sym v.owner)
        (same_owner_refl config.owner) in
    rw
      (
        parse-format_id go r.id law.reads_id v.bounded_id,
        v.id,
        to_owner-owner_message go config.owner law.reads_incarnation v.bounded_incarnation,
        v.peer_control,
        v.peer_limits,
        same_limits_refl limits,
        known,
      )
      (ground arith)

replace_connection_at-later :
    (s : Session Principal) (k : ℕ) (p : Principal) (epoch : ℕ)
    → is_closed s.state ≡ false
    → leb epoch s.epoch ≡ false
    → (epoch == 0) ≡ false
    → replace_connection_at s k p epoch
      ≡ (record s { epoch = epoch; state = active; principal = p; operations = some k }, normal)
unfolding replace_connection_at
replace_connection_at-later s k p epoch o l z = rw (o, l, z) refl

attach_resume-accepts :
    (go : Packages) (config : ServerConfig) (limits : LimitMessage) (secret : List ℕ)
    (c : ClientEndpoint) (r : SessionRecord) (now k grace : ℕ) (p : Principal)
    → IsLawful go r.id config.owner.incarnation (r.life.epoch + 1)
    → IsPaired go config limits secret c r
    → now < p.expires_at / millisecond * millisecond
    → p.issuer ≡ r.life.principal.issuer
    → p.subject ≡ r.life.principal.subject
    → (c' : ClientEndpoint) × (attach_resume go now k
          (resume_welcome go config.owner limits grace r.id p (r.life.epoch + 1))
          c
        ≡ (c', normal))
      × (c'.life.epoch ≡ r.life.epoch + 1)
      × (c'.life.state ≡ active)
      × (c'.life.operations ≡ some k)
unfolding attach_resume resume_welcome principal_message attached
attach_resume-accepts go config limits secret c r now k grace p law v l i s =
    let soon : ltb now (p.expires_at / millisecond * millisecond) ≡ true = ground arith in
    let some_epoch : (r.life.epoch + 1 == 0) ≡ false = ground arith in
    let later : leb (r.life.epoch + 1) c.life.epoch ≡ false = ground (arith, v.not_ahead) in
    let welcome = resume_welcome go config.owner limits grace r.id p (r.life.epoch + 1) in
    let life : Session Principal = record (c.life) {
      epoch = r.life.epoch + 1;
      state = active;
      principal = welcomed welcome;
      operations = some k;
    } in
    let replaced : replace_connection_at c.life k (welcomed welcome) (r.life.epoch + 1)
        ≡ (life, normal) =
      replace_connection_at-later c.life k (welcomed welcome) (r.life.epoch + 1) v.unclosed_client
        later some_epoch in
    let issuer : same_text p.issuer c.life.principal.issuer ≡ true =
      rw (i, v.issuer) (same_text_refl r.life.principal.issuer) in
    let subject : same_text p.subject c.life.principal.subject ≡ true =
      rw (s, v.subject) (same_text_refl r.life.principal.subject) in
    (
      record c { life = life; resume_grace = grace / millisecond * millisecond },
      rw
          (
            is_own-welcome go config limits secret c r grace p law v,
            issuer,
            subject,
            soon,
            law.reads_epoch,
            some_epoch,
            replaced,
            v.running,
          )
          (ap
            (λ (x : Session Principal × Code). (
              record c {
                life = x.0;
                resume_grace = grace / millisecond * millisecond;
                closed = false;
              },
              normal,
            ))
            replaced),
      refl,
      refl,
      refl,
    )

group_ended-lookup_session :
    (now at id : ℕ) (s : Server) (key : String)
    → group_ended s key ≡ false
    → group_ended (lookup_session now at id s).0 key ≡ false
unfolding group_ended expire_terminals schedule_terminal_expiry
group_ended-lookup_session now at id s key h =
    subst (λ (t : Server). group_ended t key ≡ false) (sym (lookup_session-expire now at id s)) h

-- Both sides of a session that is alive agree after a resume: the server finds the session that the
-- client's HELLO names and gives it to the new connection under the next epoch; the client accepts
-- the WELCOME, and its session is active under that epoch too. The two are paired, the new principal
-- has the old one's name and is live at the client's time, whole milliseconds counted, the old one
-- is live, the group is open and lets the principal in, an epoch is left, and the grace is a
-- millisecond or more.
pub resume-agrees :
    (go : Packages) (config : ServerConfig) (limits : LimitMessage) (secret : List ℕ)
    (c : ClientEndpoint) (r : SessionRecord) (credential : CredentialMessage)
    (now at client_now k i grace : ℕ) (p : Principal) (e : ServerEndpoint)
    → IsLawful go r.id config.owner.incarnation (r.life.epoch + 1)
    → IsPaired go config limits secret c r
    → lookup same_id r.id e.tables.sessions ≡ some i
    → get_elem? e.records i ≡ some r
    → authorize_resume config p r.group_key ≡ true
    → group_ended e.tables r.group_key ≡ false
    → now < r.life.principal.expires_at
    → client_now < p.expires_at / millisecond * millisecond
    → p.issuer ≡ r.life.principal.issuer
    → p.subject ≡ r.life.principal.subject
    → r.life.epoch + 1 < 2 ^ 64
    → 0 < grace / millisecond
    → let hello = resume_hello go credential c in
      let e' : ServerEndpoint = record e { tables = (lookup_session now at r.id e.tables).0 } in
      let welcome = resume_welcome go config.owner limits grace r.id p (r.life.epoch + 1) in
      (find_resume go config now at hello (resume_message go c) p e
        ≡ (e', accepts (i, r, go.sha256 secret)))
      × (commit_resume now k hello p i (go.sha256 secret) e'
          ≡ (record e' { records = set e.records i (take_over k p r) }, accepts (r.life.epoch + 1)))
      × (check_welcome go client_now true c welcome ≡ normal)
      × ((c' : ClientEndpoint) × (attach_resume go client_now k welcome c ≡ (c', normal))
          × (c'.life.epoch ≡ (take_over k p r).life.epoch)
          × (c'.life.state ≡ active))
resume-agrees go config limits secret c r credential now at client_now k i grace p e law v l g a o
      live soon q s room h =
    let e' : ServerEndpoint = record e { tables = (lookup_session now at r.id e.tables).0 } in
    let (c', attaches, epoch, state, _) =
      attach_resume-accepts go config limits secret c r client_now k grace p law v soon q s in
    (
      find_resume-accepts go config limits secret c r credential now at i p e law v l g a,
      commit_resume-accepts go config limits secret c r credential now k i p e' v g
          (group_ended-lookup_session now at r.id e.tables r.group_key o) live q s room,
      welcome-accepted go config limits secret c r client_now grace p v soon h,
      (c', attaches, epoch ∙ unfold take_over in omega arith, state),
    )
