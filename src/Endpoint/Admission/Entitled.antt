-- ===== src/Endpoint/Admission/Entitled.antt =====
-- endpoint.go and placement/placement.go: who is admitted, and the tickets of the bootstrap service.
use sgsp.Common.{
  ℕ, ◌<◌, ◌≡◌, refl, sym, ◌∙◌, arith, ◌⊎◌, inl, inr, Bool-cases, Option-cases, true, false, Option,
  none, some,
}
use mathlib.Core.Option.{some-injective}
use sgsp.Placement.Types.{String, Error, Result, ok, err, same_text, same_text-eq, same_text_refl}
use sgsp.Placement.Bootstrap.{Principal, Admission, Placement, Config, Packages, succeed, resolve}
use sgsp.Placement.Bootstrap.Resolved.{resolve-Granted}
use sgsp.Endpoint.Admission.{
  ServerConfig, is_bootstrap, requires, same_app, same_owner, matches, check_ticket,
  authorize_admission,
}

-- The ticket is the principal's, for this owner and group, live at `now`, and the group lets it in.
pub record IsEntitled (config : ServerConfig) (now : ℕ) (group ticket : String) (p : Principal)
    : Type 0 where
  pub verify : String → Result Admission
  pub allow : Principal → String → Option Error
  pub admission : Admission
  pub verifier : config.verify ≡ some verify
  pub authorizer : config.authorize_group ≡ some allow
  pub verified : verify ticket ≡ ok admission
  pub same_issuer : admission.principal_issuer ≡ p.issuer
  pub same_subject : admission.subject ≡ p.subject
  pub same_group : admission.group_key ≡ group
  pub same_owner_id : admission.owner.id ≡ config.owner.id
  pub same_incarnation : admission.owner.incarnation ≡ config.owner.incarnation
  pub live : now < admission.expires_at
  pub allowed : allow p group ≡ none

matches-parts :
    (config : ServerConfig) (now : ℕ) (group : String) (p : Principal) (a : Admission)
    → matches config now group p a ≡ true
    → (a.principal_issuer ≡ p.issuer)
      × (a.subject ≡ p.subject)
      × (a.group_key ≡ group)
      × (a.owner.id ≡ config.owner.id)
      × (a.owner.incarnation ≡ config.owner.incarnation)
      × (now < a.expires_at)
unfolding matches same_owner
matches-parts config now group p a h = (
  same_text-eq _ _ (ground arith),
  same_text-eq _ _ (ground arith),
  same_text-eq _ _ (ground arith),
  same_text-eq _ _ (ground arith),
  ground arith,
  ground arith,
)

succeed-none : (o : Option Error) → succeed o ≡ ok tt → o ≡ none
succeed-none none h = refl
succeed-none (some e) h = cc

answer-ok {ℓ} : {V : Type ℓ} (r : Result V) → ((v : V) × (r ≡ ok v)) ⊎ ((x : Error) × (r ≡ err x))
answer-ok (ok v) = inl (v, refl)
answer-ok (err x) = inr (x, refl)

check_ticket-IsEntitled :
    (config : ServerConfig) (verify : String → Result Admission)
    (allow : Principal → String → Option Error) (now : ℕ) (group ticket : String) (p : Principal)
    → config.verify ≡ some verify
    → config.authorize_group ≡ some allow
    → check_ticket config verify allow now group ticket p ≡ ok tt
    → IsEntitled config now group ticket p
unfolding check_ticket
check_ticket-IsEntitled config verify allow now group ticket p v a h =
    elim (answer-ok (verify ticket)) [
      | inr (x, e) ↦ absurd (ground arith)
      | inl (admission, e) ↦ elim (Bool-cases (matches config now group p admission)) [
        | inr f ↦ absurd (ground arith)
        | inl f ↦
            let (i, s, g, o, n, l) = matches-parts config now group p admission f in
            record {
              verify = verify;
              allow = allow;
              admission = admission;
              verifier = v;
              authorizer = a;
              verified = e;
              same_issuer = i;
              same_subject = s;
              same_group = g;
              same_owner_id = o;
              same_incarnation = n;
              live = l;
              allowed = succeed-none (allow p group) (ground arith);
            }
      ]
    ]

-- Who is admitted asked a bootstrap server, or needs no ticket here, or has one that the verifier
-- accepts for this principal, owner and group, which is live, and the group's authorizer agrees.
pub authorize_admission-IsEntitled :
    (config : ServerConfig) (now : ℕ) (group ticket : String) (p : Principal)
    → authorize_admission config now group ticket p ≡ ok tt
    → (is_bootstrap config.role ≡ true)
      ⊎ ((requires config group ≡ false) ⊎ IsEntitled config now group ticket p)
unfolding authorize_admission
authorize_admission-IsEntitled config now group ticket p h =
    elim (Bool-cases (is_bootstrap config.role)) [
      | inl b ↦ inl b
      | inr b ↦ elim (Bool-cases (requires config group)) [
        | inr r ↦ inr (inl r)
        | inl r ↦ elim (Option-cases config.verify) [
          | inl v ↦ absurd (ground arith)
          | inr (verify, v) ↦ elim (Option-cases config.authorize_group) [
            | inl a ↦ absurd (ground arith)
            | inr (allow, a) ↦ elim (Bool-cases (same_text ticket "")) [
              | inl t ↦ absurd (ground arith)
              | inr t ↦ inr (
                  inr (
                    check_ticket-IsEntitled config verify allow now group ticket p v a
                      (ground arith)))
            ]
          ]
        ]
      ]
    ]

matches-own :
    (config : ServerConfig) (now : ℕ) (group : String) (p : Principal) (a : Admission)
    → a.app ≡ config.app
    → a.owner ≡ config.owner
    → a.principal_issuer ≡ p.issuer
    → a.subject ≡ p.subject
    → a.group_key ≡ group
    → now < a.expires_at
    → matches config now group p a ≡ true
unfolding matches same_app same_owner
matches-own config now group p a e f i s g l =
    rw
      (
        e,
        f,
        i,
        s,
        g,
        same_text_refl config.app.id,
        same_text_refl config.app.version,
        same_text_refl p.issuer,
        same_text_refl p.subject,
        same_text_refl config.owner.id,
        same_text_refl config.owner.endpoint.address,
        same_text_refl config.owner.endpoint.server_name,
        same_text_refl group,
      )
      (ground arith)

-- The admission that a placement stands for.
abbrev pub ticket_for : Config → Principal → String → Placement → Admission
ticket_for issuer p group placed = record {
  app = issuer.app;
  principal_issuer = p.issuer;
  subject = p.subject;
  group_key = group;
  owner = placed.owner;
  expires_at = placed.expires_at;
}

-- What Resolve had its signer sign.
resolve-signed :
    (go : Packages) (issuer : Config) (sign : Admission → Result String) (p : Principal)
    (group : String) (placed : Placement)
    → issuer.signer ≡ some sign
    → resolve go (some issuer) p group ≡ ok placed
    → sign (ticket_for issuer p group placed) ≡ ok placed.admission_ticket
resolve-signed go issuer sign p group placed s h =
    let (_, signs, _, _, q, _, _, _, ticket) = resolve-Granted go issuer p group placed h in
    let same : signs ≡ sign = some-injective _ _ (sym q ∙ s) in rw⁻¹ same ticket.signed

-- A ticket that the bootstrap service gave a principal opens the session that it is for: the owner that
-- it names, under the same application, with a verifier that reads back what the signer signed and
-- a group that lets the principal in, admits the principal with it until it expires.
pub authorize_admission-resolve :
    (go : Packages) (issuer : Config) (sign : Admission → Result String) (config : ServerConfig)
    (verify : String → Result Admission) (allow : Principal → String → Option Error) (now : ℕ)
    (group : String) (p : Principal) (placed : Placement)
    → issuer.signer ≡ some sign
    → ((t : String)
        → sign (ticket_for issuer p group placed) ≡ ok t
        → (verify t ≡ ok (ticket_for issuer p group placed)) × (same_text t "" ≡ false))
    → config.verify ≡ some verify
    → config.authorize_group ≡ some allow
    → config.app ≡ issuer.app
    → config.owner ≡ placed.owner
    → allow p group ≡ none
    → now < placed.expires_at
    → resolve go (some issuer) p group ≡ ok placed
    → authorize_admission config now group placed.admission_ticket p ≡ ok tt
unfolding authorize_admission check_ticket
authorize_admission-resolve go issuer sign config verify allow now group p placed s laws v a e o l n
      h =
    let admission = ticket_for issuer p group placed in
    let (verified, some_text) =
      laws placed.admission_ticket (resolve-signed go issuer sign p group placed s h) in
    let fits : matches config now group p admission ≡ true =
      matches-own config now group p admission (sym e) (sym o) refl refl refl n in
    elim (Bool-cases (is_bootstrap config.role)) [
      | inl b ↦ rw b refl
      | inr b ↦ elim (Bool-cases (requires config group)) [
        | inr r ↦ rw (b, r) refl
        | inl r ↦ rw (b, r, v, a, some_text, verified, fits, l) refl
      ]
    ]
