-- ===== src/Placement/Bootstrap.antt =====
-- placement/placement.go: Resolve and CloseGroup of the bootstrap service. What its adapters answer is
-- a parameter, as are the random key, Go's sort, the digest of an owner for a group and the three
-- readings of the clock. Times are numbers of nanoseconds.
pub mod Selection
pub mod Resolved
mod Tests
use sgsp.Common.{
  ℕ, ◌+◌, ◌==◌, ltb, List, [], ◌∷◌, if◌then◌else◌, Bool, true, false, not, ◌&&◌, ◌||◌, Option, none,
  some,
}
use Prim.Native.String.{compare}
use text.Mathlib.Text.{is_lt}
use sgsp.Placement.Types.{
  String, AppIdentity, GroupId, Owner, Assignment, OwnerStatus, Error, invalid_argument,
  group_closed, assignment_not_found, server_unavailable, server_draining, unauthenticated, Result,
  ok, err, same_text,
}

-- A principal without its attributes, which nothing here reads.
pub record Principal : Type 0 where
  pub issuer : String
  pub subject : String
  pub expires_at : ℕ

pub record Admission : Type 0 where
  pub app : AppIdentity
  pub principal_issuer : String
  pub subject : String
  pub group_key : String
  pub owner : Owner
  pub expires_at : ℕ

pub record Placement : Type 0 where
  pub owner : Owner
  pub group_key : String
  pub admission_ticket : String
  pub expires_at : ℕ

infixl 5 ◌>>=◌
abbrev pub ◌>>=◌ {ℓ κ} : {V : Type ℓ} {W : Type κ} → Result V → (V → Result W) → Result W
err x >>= next = err x
ok v >>= next = next v

infixl 5 ◌>>◌
abbrev pub ◌>>◌ {ℓ} : {W : Type ℓ} → Result (Unit {0}) → Result W → Result W
err x >> next = err x
ok _ >> next = next

abbrev pub check : Bool → Error → Result (Unit {0})
check true e = ok tt
check false e = err e

-- An error, or nil.
abbrev pub succeed : Option Error → Result (Unit {0})
succeed none = ok tt
succeed (some e) = err e

-- The interfaces AssignmentStore, Registry, Selector, AdmissionSigner and the group authorizer, by what
-- they answer in the call; `none` is a nil one.
abbrev pub Select : Type 0
Select = Principal → GroupId → List OwnerStatus → Result Owner

pub record AssignmentStore : Type 0 where
  pub get : GroupId → Result Assignment
  pub assign : GroupId → Owner → Result Assignment
  pub close : GroupId → Owner → Option Error

pub record Config : Type 0 where
  pub app : AppIdentity
  pub store : Option AssignmentStore
  pub registry : Option (Result (List OwnerStatus))
  pub selector : Option Select
  pub signer : Option (Admission → Result String)
  pub authorize_group : Option (Principal → String → Option Error)

abbrev pub is_eligible : OwnerStatus → Bool
is_eligible c = c.healthy && not c.draining && c.has_capacity

unfoldable pub eligible : List OwnerStatus → List OwnerStatus
eligible [] = []
eligible (c ∷ cs) = let rest = eligible cs in if is_eligible c then c ∷ rest else rest

unfoldable pub matching_status : Owner → List OwnerStatus → Option OwnerStatus
matching_status owner [] = none
matching_status owner (s ∷ rest) =
    if same_text s.owner.id owner.id && s.owner.incarnation == owner.incarnation
    then some s
    else matching_status owner rest

abbrev pub less_text : String → String → Bool
less_text a b = is_lt (compare a b)

-- What the bootstrap service takes from the packages of Go. A digest's 32 bytes are read as one number,
-- whose order is that of the bytes.
pub record Packages : Type 0 where
  pub rendezvous : GroupId → Owner → ℕ
  pub sort : (OwnerStatus → OwnerStatus → Bool) → List OwnerStatus → List OwnerStatus
  pub random_key : Result String
  pub now_at_start : ℕ
  pub now_at_ticket : ℕ
  pub now_at_sign : ℕ

-- `errors.Is(err, ErrAssignmentNotFound)`
abbrev pub is_missing : Error → Bool
is_missing assignment_not_found = true
is_missing _ = false

abbrev pub ticket_lifetime : ℕ
ticket_lifetime = 30_000_000_000

-- `!ok || !status.Healthy || !status.HasCapacity`, and then draining.
unfoldable pub admit_owner : Owner → List OwnerStatus → Result (Unit {0})
admit_owner owner statuses = elim (matching_status owner statuses) [
  | none ↦ err server_unavailable
  | some status ↦
      if not status.healthy || not status.has_capacity
      then err server_unavailable
      else if status.draining
      then err server_draining
      else ok tt
]

unfoldable pub authorize : Config → Principal → String → Result (Unit {0})
authorize config principal group_key =
    if same_text group_key ""
    then ok tt
    else elim config.authorize_group [ none ↦ ok tt | some f ↦ succeed (f principal group_key) ]

-- `eligible[0]`, once it is known that there is one.
abbrev pub first_owner : List OwnerStatus → Result Owner
first_owner [] = err server_unavailable
first_owner (c ∷ cs) = ok c.owner

module _ (go : Packages) where
  -- The order of the candidates: the greatest digest first, then by identity.
  unfoldable pub precedes : GroupId → OwnerStatus → OwnerStatus → Bool
  precedes group a b =
      let left = go.rendezvous group a.owner in
      let right = go.rendezvous group b.owner in
      if not (left == right)
      then ltb right left
      else if not (same_text a.owner.id b.owner.id)
      then less_text a.owner.id b.owner.id
      else ltb a.owner.incarnation b.owner.incarnation

  unfoldable pub select_owner :
      Option Select → Principal → GroupId → List OwnerStatus → Result Owner
  select_owner (some select) principal group candidates = select principal group candidates
  select_owner none principal group candidates = elim (eligible candidates) [
    | [] ↦ err server_unavailable
    | c ∷ cs ↦ first_owner (go.sort (precedes group) (c ∷ cs))
  ]

  -- The group's assignment: what the store has, or a new one to a selected candidate.
  unfoldable pub read_or_assign :
      Config → AssignmentStore → Principal → GroupId → List OwnerStatus → Result Assignment
  read_or_assign config store principal group statuses = elim (store.get group) [
    | ok a ↦ ok a
    | err e ↦
        if is_missing e
        then (do
          candidate ← select_owner config.selector principal group statuses
          store.assign group candidate)
        else err e
  ]

  unfoldable pub group_owner : Config → Principal → GroupId → List OwnerStatus → Result Owner
  group_owner config principal group statuses = elim config.store [
    | none ↦ err invalid_argument
    | some store ↦ (do
      assignment ← read_or_assign config store principal group statuses
      check (not assignment.closed) group_closed
      ok assignment.owner)
  ]

  unfoldable pub any_owner : Config → Principal → List OwnerStatus → Result Owner
  any_owner config principal statuses = do
    key ← go.random_key
    select_owner config.selector principal (record { app = config.app; key = key }) statuses

  unfoldable pub ticket_expiry : Principal → ℕ
  ticket_expiry principal =
      let expires_at = go.now_at_ticket + ticket_lifetime in
      if ltb principal.expires_at expires_at then principal.expires_at else expires_at

  unfoldable pub find_owner : Config → Principal → String → List OwnerStatus → Result Owner
  find_owner config principal group_key statuses =
      if same_text group_key ""
      then any_owner config principal statuses
      else group_owner config principal (record { app = config.app; key = group_key }) statuses

  -- The ticket for an owner.
  unfoldable pub grant :
      Config → (Admission → Result String) → Principal → String → Owner → Result Placement
  grant config sign principal group_key owner = do
    let expires_at = ticket_expiry principal
    check (ltb go.now_at_sign expires_at) unauthenticated
    ticket ← sign (record {
      app = config.app;
      principal_issuer = principal.issuer;
      subject = principal.subject;
      group_key = group_key;
      owner = owner;
      expires_at = expires_at;
    })
    ok (record {
      owner = owner;
      group_key = group_key;
      admission_ticket = ticket;
      expires_at = expires_at;
    })

  -- Resolve behind its first guard, with the registry's answer and the signer that are there.
  unfoldable pub resolve_checked :
      Config
      → Result (List OwnerStatus)
      → (Admission → Result String)
      → Principal
      → String
      → Result Placement
  resolve_checked config snapshot sign principal group_key = do
    authorize config principal group_key
    statuses ← snapshot
    owner ← find_owner config principal group_key statuses
    admit_owner owner statuses
    grant config sign principal group_key owner

  unfoldable pub resolve : Option Config → Principal → String → Result Placement
  resolve none principal group_key = err invalid_argument
  resolve (some config) principal group_key =
      if same_text principal.issuer ""
        || same_text principal.subject ""
        || not (ltb go.now_at_start principal.expires_at)
      then err invalid_argument
      else elim config.registry [
        | none ↦ err invalid_argument
        | some snapshot ↦ elim config.signer [
          | none ↦ err invalid_argument
          | some sign ↦ resolve_checked config snapshot sign principal group_key
        ]
      ]

unfoldable pub close_group : Option Config → String → Owner → Option Error
close_group none group_key owner = some invalid_argument
close_group (some config) group_key owner = elim config.store [
  | none ↦ some invalid_argument
  | some store ↦
      if same_text group_key ""
      then some invalid_argument
      else store.close (record { app = config.app; key = group_key }) owner
]
