-- ===== src/Endpoint/Resume/Identity.antt =====
-- endpoint.go: who a session belongs to, over the calls that change a server's sessions: a resume, a
-- refresh of its principal, and the end of a connection or of the session.
use sgsp.Common.{
  ℕ, ◌==◌, ◌≡◌, refl, sym, ◌∙◌, arith, List, get_elem?, get_elem?-set, set, Option, none, some, ◌⊎◌,
  inl, inr, Bool-cases, Option-cases,
}
use mathlib.Core.Option.{some-injective}
use sgsp.Placement.Types.{same_text-eq}
use sgsp.Placement.Bootstrap.{Principal}
use sgsp.Endpoint.Session.{Code, Session, close, close_remote, suspend_if_current, set_principal}
use sgsp.Endpoint.Handshake.{
  Packages, Authenticate, CredentialMessage, HelloMessage, handle_refresh, refreshed,
}
use sgsp.Endpoint.Resume.{SessionRecord, ServerEndpoint, commit_resume, take_over}
use sgsp.Endpoint.Resume.Proven.{commit_resume-IsProven}

-- A write through a pointer to a session.
unfoldable pub change_life :
    ℕ → (Session Principal → Session Principal) → ServerEndpoint → ServerEndpoint
change_life i f e = record e {
  records = elim (get_elem? e.records i) [
    | none ↦ e.records
    | some r ↦ set e.records i (record r { life = f r.life })
  ];
}

pub data Step (go : Packages) (auth : Authenticate) : ServerEndpoint → ServerEndpoint → Type 0 where
  resumes :
      (now c i : ℕ) (hello : HelloMessage) (p : Principal) (hash : List ℕ) (e : ServerEndpoint)
      → Step go auth e (commit_resume now c hello p i hash e).0
  refreshes :
      (now i : ℕ) (message : Option CredentialMessage) (e : ServerEndpoint)
      → Step go auth e (change_life i (λ s. (handle_refresh go auth now message s).0) e)
  suspends :
      (i c : ℕ) (e : ServerEndpoint)
      → Step go auth e (change_life i (λ s. (suspend_if_current s c).0) e)
  closes :
      (i : ℕ) (code : Code) (e : ServerEndpoint)
      → Step go auth e (change_life i (λ s. (close s code).0) e)
  closes_remotely :
      (i : ℕ) (code : Code) (e : ServerEndpoint)
      → Step go auth e (change_life i (λ s. (close_remote s code).0) e)

pub data Run (go : Packages) (auth : Authenticate) : ServerEndpoint → ServerEndpoint → Type 0 where
  stops : (e : ServerEndpoint) → Run go auth e e
  runs : (e f g : ServerEndpoint) → Step go auth e f → Run go auth f g → Run go auth e g

-- The session is the same one, of the same principal, with the same secret and group.
pub record IsSame (r r' : SessionRecord) : Type 0 where
  pub id : r'.id ≡ r.id
  pub group : r'.group_key ≡ r.group_key
  pub secret : r'.resume_hash ≡ r.resume_hash
  pub issuer : r'.life.principal.issuer ≡ r.life.principal.issuer
  pub subject : r'.life.principal.subject ≡ r.life.principal.subject

-- A session stays where it was.
abbrev Stays : ServerEndpoint → ServerEndpoint → Type 0
Stays e f =
    (i : ℕ) (r : SessionRecord)
    → get_elem? e.records i ≡ some r
    → (r' : SessionRecord) × (get_elem? f.records i ≡ some r') × IsSame r r'

IsSame-again : (r : SessionRecord) → IsSame r r
IsSame-again r = record { id = refl; group = refl; secret = refl; issuer = refl; subject = refl }

took_over :
    (c : ℕ) (p : Principal) (r : SessionRecord)
    → r.life.principal.issuer ≡ p.issuer
    → r.life.principal.subject ≡ p.subject
    → IsSame r (take_over c p r)
unfolding take_over
took_over c p r i s = record {
  id = refl;
  group = refl;
  secret = refl;
  issuer = sym i;
  subject = sym s;
}

set-Stays :
    (e : ServerEndpoint) (j : ℕ) (w w' : SessionRecord)
    → get_elem? e.records j ≡ some w
    → IsSame w w'
    → Stays e (record e { records = set e.records j w' })
set-Stays e j w w' h s i r k = elim (Bool-cases (j == i)) [
  | inr f ↦ (r, get_elem?-set e.records j i w' r k ∙ rw f refl, IsSame-again r)
  | inl f ↦
      let here : j ≡ i = ground arith in
      let same : r ≡ w = some-injective _ _ (sym k ∙ (rw here at h)) in
      (w', get_elem?-set e.records j i w' r k ∙ rw f refl, rw same s)
]

-- A change of a life that keeps its principal's name.
change_life-Stays :
    (j : ℕ) (f : Session Principal → Session Principal) (e : ServerEndpoint)
    → ((s : Session Principal)
        → ((f s).principal.issuer ≡ s.principal.issuer)
          × ((f s).principal.subject ≡ s.principal.subject))
    → Stays e (change_life j f e)
unfolding change_life
change_life-Stays j f e keeps i r k = elim (Option-cases (get_elem? e.records j)) [
  | inl n ↦ (r, rw (n, change_life) k, IsSame-again r)
  | inr (w, n) ↦
      let (x, y) = keeps w.life in
      let (r', g, s) =
        set-Stays e j w (record w { life = f w.life }) n
          (record { id = refl; group = refl; secret = refl; issuer = x; subject = y }) i r k in
      (r', rw (n, change_life) g, s)
]

-- A refresh changes nothing, or the principal to one of the same name.
handle_refresh-cases :
    (go : Packages) (auth : Authenticate) (now : ℕ) (message : Option CredentialMessage)
    (s : Session Principal)
    → ((handle_refresh go auth now message s).0 ≡ s)
      ⊎ ((p : Principal) × ((handle_refresh go auth now message s).0 ≡ set_principal s p)
          × (p.issuer ≡ s.principal.issuer)
          × (p.subject ≡ s.principal.subject))
unfolding handle_refresh
handle_refresh-cases go auth now none s = inl refl
handle_refresh-cases go auth now (some m) s = elim (Option-cases (go.decode_base64 m.content)) [
  | inl e ↦ inl (ground arith)
  | inr (b, e) ↦ elim (Option-cases (auth m.scheme b)) [
    | inl f ↦ inl (ground arith)
    | inr (p, f) ↦ elim (Bool-cases (refreshed s.principal p now)) [
      | inr g ↦ inl (ground arith)
      | inl g ↦
          inr (p, ground arith, same_text-eq _ _ (ground arith), same_text-eq _ _ (ground arith))
    ]
  ]
]

handle_refresh-keeps :
    (go : Packages) (auth : Authenticate) (now : ℕ) (message : Option CredentialMessage)
    (s : Session Principal)
    → let t = (handle_refresh go auth now message s).0 in
      (t.principal.issuer ≡ s.principal.issuer) × (t.principal.subject ≡ s.principal.subject)
unfolding set_principal
handle_refresh-keeps go auth now message s = elim (handle_refresh-cases go auth now message s) [
  | inl e ↦ rw e (refl, refl)
  | inr (p, e, i, j) ↦ rw e (i, j)
]

Step-Stays :
    (go : Packages) (auth : Authenticate) (e f : ServerEndpoint) → Step go auth e f → Stays e f
Step-Stays go auth _ _ (resumes now c i hello p hash e) = λ j r k.
    elim (commit_resume-IsProven now c hello p i hash e) [
      | inl (x, n) ↦ (r, rw n k, IsSame-again r)
      | inr (w, g, proven, _, n) ↦
          let (r', h, s) =
            set-Stays e i w (take_over c p w) g
              (took_over c p w proven.same_issuer proven.same_subject) j r k in
          (r', rw n h, s)
    ]
Step-Stays go auth _ _ (refreshes now i message e) =
    change_life-Stays i _ e (handle_refresh-keeps go auth now message)
Step-Stays go auth _ _ (suspends i c e) =
    change_life-Stays i _ e (λ s. unfold suspend_if_current in ground arith)
Step-Stays go auth _ _ (closes i code e) =
    change_life-Stays i _ e (λ s. unfold close in ground arith)
Step-Stays go auth _ _ (closes_remotely i code e) =
    change_life-Stays i _ e (λ s. unfold close_remote in ground arith)

-- A session belongs to one principal for good: whatever resumes, refreshes and ends of connections
-- follow, it keeps its identifier, its group, the digest of its secret, and the issuer and the
-- subject of its principal.
pub run-IsSame :
    (go : Packages) (auth : Authenticate) (e f : ServerEndpoint) (i : ℕ) (r : SessionRecord)
    → Run go auth e f
    → get_elem? e.records i ≡ some r
    → (r' : SessionRecord) × (get_elem? f.records i ≡ some r') × IsSame r r'
run-IsSame go auth _ _ i r (stops e) k = (r, k, IsSame-again r)
run-IsSame go auth _ _ i r (runs e f g step rest) k =
    let (s, h, a) = Step-Stays go auth e f step i r k in
    let (t, j, b) = run-IsSame go auth f g i s rest h in
    (
      t,
      j,
      record {
        id = b.id ∙ a.id;
        group = b.group ∙ a.group;
        secret = b.secret ∙ a.secret;
        issuer = b.issuer ∙ a.issuer;
        subject = b.subject ∙ a.subject;
      },
    )
