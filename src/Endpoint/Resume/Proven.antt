-- ===== src/Endpoint/Resume/Proven.antt =====
-- endpoint.go: what the server has seen when it lets a connection resume a session.
use sgsp.Common.{
  ℕ, ◌-◌, ◌^◌, ◌<◌, ◌≡◌, refl, sym, arith, List, [], ◌∷◌, length, get_elem?, set, ◌==◌, true, false,
  some, ◌⊎◌, inl, inr, Bool-cases, Option-cases,
}
use sgsp.Placement.Types.{same_text-eq}
use sgsp.Placement.Bootstrap.{Principal}
use sgsp.Endpoint.Session.{
  Code, normal, unauthenticated, session_not_found, group_closed, resource_exhausted, is_closed,
  replace_connection,
}
use sgsp.Endpoint.Server.{lookup_session}
use sgsp.Endpoint.Admission.{ServerConfig}
use sgsp.Endpoint.Handshake.{
  Packages, HelloMessage, ResumeMessage, Verdict, accepts, rejects, same_limits, parse_session_id,
}
use sgsp.Endpoint.Resume.{
  SessionRecord, ServerEndpoint, peer_limits_of, equal_bytes, resume_request, find_resume,
  group_ended, refuses_resume, take_over, commit_resume,
}

equal_bytes-eq : (xs ys : List ℕ) → equal_bytes xs ys ≡ true → xs ≡ ys
equal_bytes-eq [] [] h = refl
equal_bytes-eq [] (y ∷ ys) h = cc
equal_bytes-eq (x ∷ xs) [] h = cc
equal_bytes-eq (x ∷ xs) (y ∷ ys) h = ground (arith, equal_bytes-eq xs ys)

-- The session is not closed and its principal is live and the one who resumes, the limits are those that
-- its peer announced, the digest is the secret's, and its group, where it has one, is open.
pub record IsProven (now : ℕ) (hello : HelloMessage) (p : Principal) (hash : List ℕ)
    (e : ServerEndpoint) (r : SessionRecord) : Type 0 where
  pub open_group : group_ended e.tables r.group_key ≡ false
  pub unclosed : is_closed r.life.state ≡ false
  pub live : now < r.life.principal.expires_at
  pub same_issuer : r.life.principal.issuer ≡ p.issuer
  pub same_subject : r.life.principal.subject ≡ p.subject
  pub limits_match : same_limits (peer_limits_of r) hello.limits ≡ true
  pub secret : r.resume_hash ≡ hash

refuses_resume-parts :
    (now : ℕ) (hello : HelloMessage) (p : Principal) (hash : List ℕ) (e : ServerEndpoint)
    (r : SessionRecord)
    → group_ended e.tables r.group_key ≡ false
    → refuses_resume now hello p hash r ≡ false
    → IsProven now hello p hash e r
unfolding refuses_resume
refuses_resume-parts now hello p hash e r g h = record {
  open_group = g;
  unclosed = ground arith;
  live = ground arith;
  same_issuer = same_text-eq _ _ (ground arith);
  same_subject = same_text-eq _ _ (ground arith);
  limits_match = ground arith;
  secret = equal_bytes-eq _ _ (ground arith);
}

-- What a commit does.
abbrev pub Commits : ℕ → ℕ → HelloMessage → Principal → ℕ → List ℕ → ServerEndpoint → Type 0
Commits now c hello p i hash e =
    ((x : Code) × (commit_resume now c hello p i hash e ≡ (e, rejects x)))
    ⊎ ((r : SessionRecord) × (get_elem? e.records i ≡ some r)
        × IsProven now hello p hash e r
        × (replace_connection r.life c p
            ≡ ((take_over c p r).life, normal, (take_over c p r).life.epoch))
        × (commit_resume now c hello p i hash e ≡ (
          record e { records = set e.records i (take_over c p r) },
          accepts (take_over c p r).life.epoch,
        )))

-- A commit is refused, and changes nothing, or the session was proven to be the principal's: then it has
-- an epoch left and goes over to the connection under the next one, as replaceConnection does it, and no
-- other session and no table changes.
pub commit_resume-IsProven :
    (now c : ℕ) (hello : HelloMessage) (p : Principal) (i : ℕ) (hash : List ℕ) (e : ServerEndpoint)
    → Commits now c hello p i hash e
unfolding commit_resume take_over replace_connection
commit_resume-IsProven now c hello p i hash e = elim (Option-cases (get_elem? e.records i)) [
  | inl n ↦ inl (session_not_found, rw (n, commit_resume) refl)
  | inr (r, n) ↦ elim (Bool-cases (group_ended e.tables r.group_key)) [
    | inl g ↦ inl (group_closed, rw (n, g, commit_resume) refl)
    | inr g ↦ elim (Bool-cases (refuses_resume now hello p hash r)) [
      | inl f ↦ inl (unauthenticated, rw (n, g, f, commit_resume) refl)
      | inr f ↦ elim (Bool-cases (r.life.epoch == 2 ^ 64 - 1)) [
        | inl l ↦ inl (resource_exhausted, rw (n, g, f, l, commit_resume) refl)
        | inr l ↦
            let proven = refuses_resume-parts now hello p hash e r g f in
            inr (
              r,
              n,
              proven,
              rw (proven.unclosed, l, replace_connection) refl,
              rw (n, g, f, l, commit_resume) refl,
            )
      ]
    ]
  ]
]

Verdict-cases :
    {A : Type 0} (v : Verdict A) → ((a : A) × (v ≡ accepts a)) ⊎ ((x : Code) × (v ≡ rejects x))
Verdict-cases (accepts a) = inl (a, refl)
Verdict-cases (rejects x) = inr (x, refl)

-- A request that is accepted shows a secret of 32 bytes.
resume_request-secret :
    (go : Packages) (config : ServerConfig) (hello : HelloMessage) (resume : ResumeMessage) (id : ℕ)
    (secret : List ℕ)
    → resume_request go config hello resume ≡ accepts (id, secret)
    → (go.decode_base64 resume.secret ≡ some secret) × (length secret ≡ 32)
unfolding resume_request
resume_request-secret go config hello resume id secret h =
    elim (Option-cases (parse_session_id go resume.session_id)) [
      | inl e ↦ absurd (ground arith)
      | inr (d, e) ↦ elim (Option-cases (go.decode_base64 resume.secret)) [
        | inl f ↦ absurd (ground arith)
        | inr (b, f) ↦ ground arith
      ]
    ]

find_resume-secret :
    (go : Packages) (config : ServerConfig) (now at : ℕ) (hello : HelloMessage)
    (resume : ResumeMessage) (p : Principal) (e e' : ServerEndpoint) (i : ℕ) (r : SessionRecord)
    (hash : List ℕ)
    → find_resume go config now at hello resume p e ≡ (e', accepts (i, r, hash))
    → (secret : List ℕ) × (go.decode_base64 resume.secret ≡ some secret)
      × (length secret ≡ 32)
      × (hash ≡ go.sha256 secret)
unfolding find_resume
find_resume-secret go config now at hello resume p e e' i r hash h =
    elim (Verdict-cases (resume_request go config hello resume)) [
      | inr (x, f) ↦ absurd (ground arith)
      | inl ((id, secret), f) ↦ elim (Option-cases (lookup_session now at id e.tables).1) [
        | inl l ↦ absurd (ground arith)
        | inr (j, l) ↦ elim (Option-cases (get_elem? e.records j)) [
          | inl g ↦ absurd (ground arith)
          | inr (s, g) ↦
              let (d, n) = resume_request-secret go config hello resume id secret f in
              (secret, d, n, ground arith)
        ]
      ]
    ]

-- Who resumes a session shows its secret: where a request named a session, and the section under the
-- locks, whatever ran before it, let the connection take it over, the request had a secret of 32
-- bytes with the session's digest, and the session is not closed, its principal live and the one
-- that resumes, its peer's limits the same, and its group open.
pub resume-IsProven :
    (go : Packages) (config : ServerConfig) (now at later c : ℕ) (hello : HelloMessage)
    (resume : ResumeMessage) (p : Principal) (e e' f f' : ServerEndpoint) (i epoch : ℕ)
    (r : SessionRecord) (hash : List ℕ)
    → find_resume go config now at hello resume p e ≡ (e', accepts (i, r, hash))
    → commit_resume later c hello p i hash f ≡ (f', accepts epoch)
    → (secret : List ℕ) × (s : SessionRecord) × (go.decode_base64 resume.secret ≡ some secret)
      × (length secret ≡ 32)
      × (get_elem? f.records i ≡ some s)
      × IsProven later hello p (go.sha256 secret) f s
resume-IsProven go config now at later c hello resume p e e' f f' i epoch r hash h k =
    let (secret, d, n, q) = find_resume-secret go config now at hello resume p e e' i r hash h in
    elim (commit_resume-IsProven later c hello p i hash f) [
      | inl (x, refused) ↦ absurd (ground arith)
      | inr (s, g, proven, _, _) ↦ (secret, s, d, n, g, rw (sym q) proven)
    ]
