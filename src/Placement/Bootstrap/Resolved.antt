-- ===== src/Placement/Bootstrap/Resolved.antt =====
-- What a placement that Resolve returns is worth.
use sgsp.Common.{
  ◌+◌, ◌≤◌, ◌<◌, ◌≡◌, refl, subst, arith, List, true, false, not, some, ◌⊎◌, inl, inr, Bool-cases,
  Option-cases,
}
use sgsp.Placement.Types.{
  String, GroupId, Owner, Assignment, OwnerStatus, Error, group_closed, assignment_not_found,
  Result, ok, err,
}
use sgsp.Placement.Bootstrap.{
  Principal, Admission, Placement, ◌>>=◌, ◌>>◌, check, AssignmentStore, Config, Packages,
  matching_status, is_missing, ticket_lifetime, select_owner, read_or_assign, group_owner,
  find_owner, admit_owner, ticket_expiry, authorize, grant, resolve_checked, resolve,
}

bind-ok {ℓ κ} :
    {V : Type ℓ} {W : Type κ} (r : Result V) (next : V → Result W) (w : W)
    → (r >>= next) ≡ ok w
    → (v : V) × (r ≡ ok v) × (next v ≡ ok w)
bind-ok (err x) next w h = cc
bind-ok (ok v) next w h = (v, refl, h)

then-ok {ℓ} :
    {W : Type ℓ} (r : Result (Unit {0})) (next : Result W) (w : W)
    → (r >> next) ≡ ok w
    → (r ≡ ok tt) × (next ≡ ok w)
then-ok (err x) next w h = cc
then-ok (ok tt) next w h = (refl, h)

answer-cases {ℓ} :
    {V : Type ℓ} (r : Result V) → ((v : V) × (r ≡ ok v)) ⊎ ((x : Error) × (r ≡ err x))
answer-cases (ok v) = inl (v, refl)
answer-cases (err x) = inr (x, refl)

missing : (x : Error) → is_missing x ≡ true → x ≡ assignment_not_found
missing x h = ground arith

module _ (go : Packages) where
  -- The store holds the owner's assignment of the group, and it is open: it had it, or it made it for
  -- the selected candidate.
  abbrev pub Assigned :
      Config → AssignmentStore → Principal → GroupId → List OwnerStatus → Owner → Type 0
  Assigned config store principal group statuses owner =
      (a : Assignment) × (a.owner ≡ owner)
      × (a.closed ≡ false)
      × ((store.get group ≡ ok a)
          ⊎ ((store.get group ≡ err assignment_not_found)
              × (c : Owner) × (select_owner go config.selector principal group statuses ≡ ok c)
              × (store.assign group c ≡ ok a)))

  stored-Assigned :
      (config : Config) (store : AssignmentStore) (p : Principal) (g : GroupId)
      (statuses : List OwnerStatus) (a : Assignment)
      → read_or_assign go config store p g statuses ≡ ok a
      → a.closed ≡ false
      → Assigned config store p g statuses a.owner
  unfolding read_or_assign
  stored-Assigned config store p g statuses a h k = elim (answer-cases (store.get g)) [
    | inl (b, e) ↦ (a, refl, k, inl (ground arith))
    | inr (x, e) ↦ elim (Bool-cases (is_missing x)) [
      | inr f ↦ absurd (ground arith)
      | inl f ↦
          let (c, selected, made) =
            bind-ok (select_owner go config.selector p g statuses) (store.assign g) a
              (rw (e, f, read_or_assign) at h) in
          (a, refl, k, inr (ground (arith, missing x f), c, selected, made))
    ]
  ]

  group_owner-Assigned :
      (config : Config) (store : AssignmentStore) (p : Principal) (g : GroupId)
      (statuses : List OwnerStatus) (o : Owner)
      → config.store ≡ some store
      → group_owner go config p g statuses ≡ ok o
      → Assigned config store p g statuses o
  unfolding group_owner
  group_owner-Assigned config store p g statuses o e h =
      let (a, found, rest) =
        bind-ok (read_or_assign go config store p g statuses) _ o (rw (e, group_owner) at h) in
      let (is_open, owner) = then-ok (check (not a.closed) group_closed) (ok a.owner) o rest in
      subst (Assigned config store p g statuses) (ground arith)
        (stored-Assigned config store p g statuses a found (ground arith))

-- A status under which an owner takes a session.
abbrev pub IsAdmissible : OwnerStatus → Type 0
IsAdmissible s = (s.healthy ≡ true) × (s.has_capacity ≡ true) × (s.draining ≡ false)

admit_owner-IsAdmissible :
    (owner : Owner) (statuses : List OwnerStatus)
    → admit_owner owner statuses ≡ ok tt
    → (s : OwnerStatus) × (matching_status owner statuses ≡ some s) × IsAdmissible s
unfolding admit_owner
admit_owner-IsAdmissible owner statuses h = elim (Option-cases (matching_status owner statuses)) [
  | inl e ↦ absurd (ground arith)
  | inr (s, e) ↦ (s, e, (ground arith, ground arith, ground arith))
]

-- A ticket of the signer for an owner, that is live and outlives neither the principal nor its own
-- lifetime.
pub record IsTicket (go : Packages) (config : Config) (sign : Admission → Result String)
    (principal : Principal) (key : String) (p : Placement) : Type 0 where
  pub same_key : p.group_key ≡ key
  pub live : go.now_at_sign < p.expires_at
  pub bounded : p.expires_at ≤ principal.expires_at
  pub short : p.expires_at ≤ go.now_at_ticket + ticket_lifetime
  pub signed :
      sign (record {
        app = config.app;
        principal_issuer = principal.issuer;
        subject = principal.subject;
        group_key = key;
        owner = p.owner;
        expires_at = p.expires_at;
      })
      ≡ ok p.admission_ticket

grant-IsTicket :
    (go : Packages) (config : Config) (sign : Admission → Result String) (principal : Principal)
    (key : String) (owner : Owner) (p : Placement)
    → grant go config sign principal key owner ≡ ok p
    → (p.owner ≡ owner) × IsTicket go config sign principal key p
unfolding grant ticket_expiry
grant-IsTicket go config sign principal key owner p h =
    let expires_at = ticket_expiry go principal in
    let admission : Admission = record {
      app = config.app;
      principal_issuer = principal.issuer;
      subject = principal.subject;
      group_key = key;
      owner = owner;
      expires_at = expires_at;
    } in
    elim (answer-cases (sign admission)) [
      | inr (x, e) ↦ absurd (ground arith)
      | inl (t, e) ↦
          let made : p ≡ record {
            owner = owner;
            group_key = key;
            admission_ticket = t;
            expires_at = expires_at;
          } =
            ground arith in
          rw made (
            refl,
            record {
              same_key = refl;
              live = ground arith;
              bounded = ground arith;
              short = ground arith;
              signed = e;
            },
          )
    ]

-- What Resolve grants: an owner that the registry's snapshot shows healthy, with capacity and not
-- draining, and a ticket for it; the owner was found in that snapshot.
abbrev pub Granted : Packages → Config → Principal → String → Placement → Type 0
Granted go config principal key p =
    (statuses : List OwnerStatus) × (sign : Admission → Result String) × (s : OwnerStatus)
    × (config.registry ≡ some (ok statuses))
    × (config.signer ≡ some sign)
    × (find_owner go config principal key statuses ≡ ok p.owner)
    × (matching_status p.owner statuses ≡ some s)
    × IsAdmissible s
    × IsTicket go config sign principal key p

checked-Granted :
    (go : Packages) (config : Config) (snapshot : Result (List OwnerStatus))
    (sign : Admission → Result String) (principal : Principal) (key : String) (p : Placement)
    → config.registry ≡ some snapshot
    → config.signer ≡ some sign
    → resolve_checked go config snapshot sign principal key ≡ ok p
    → Granted go config principal key p
unfolding resolve_checked
checked-Granted go config snapshot sign principal key p r q h =
    elim (answer-cases (authorize config principal key)) [
      | inr (x, a) ↦ absurd (ground arith)
      | inl (u, a) ↦ elim (answer-cases snapshot) [
        | inr (x, b) ↦ absurd (ground arith)
        | inl (statuses, b) ↦ elim (answer-cases (find_owner go config principal key statuses)) [
          | inr (x, c) ↦ absurd (ground arith)
          | inl (owner, c) ↦ elim (answer-cases (admit_owner owner statuses)) [
            | inr (x, d) ↦ absurd (ground arith)
            | inl (v, d) ↦
                let (same, ticket) =
                  grant-IsTicket go config sign principal key owner p (ground arith) in
                let (s, matches, good) = admit_owner-IsAdmissible owner statuses (ground arith) in
                (statuses, sign, s, ground arith, q, ground arith, rw same matches, good, ticket)
          ]
        ]
      ]
    ]

-- Whatever placement Resolve returns, its owner was found in the registry's snapshot, which shows it
-- healthy, with capacity and not draining; the signer made the ticket, which is live when it is
-- signed, and ends no later than the principal and its own lifetime.
pub resolve-Granted :
    (go : Packages) (config : Config) (principal : Principal) (group_key : String) (p : Placement)
    → resolve go (some config) principal group_key ≡ ok p
    → Granted go config principal group_key p
unfolding resolve
resolve-Granted go config principal group_key p h = elim (Option-cases config.registry) [
  | inl r ↦ absurd (ground arith)
  | inr (snapshot, r) ↦ elim (Option-cases config.signer) [
    | inl q ↦ absurd (ground arith)
    | inr (sign, q) ↦
        checked-Granted go config snapshot sign principal group_key p r q (ground arith)
  ]
]
