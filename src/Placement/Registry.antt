-- ===== src/Placement/Registry.antt =====
-- placement/memory/memory.go: the registry of owners. Each operation is one critical section. A nil
-- registry is `none`. Go visits a map in an order of its choice: Snapshot lists the entries here in
-- the order in which they were made.
mod Tests
use sgsp.Common.{
  ℕ, ◌≡◌, ◌≢◌, refl, arith, List, [], ◌∷◌, if◌then◌else◌, Bool, true, false, not, Option, none,
  some, ◌⊎◌, inl, inr, Bool-cases, Option-cases,
}
use sgsp.Common.Table.{
  Decides, lookup, assign_key, delete_key, lookup-assign_key, lookup-delete_key,
}
use sgsp.Placement.Types.{
  Owner, OwnerStatus, OwnerKey, Error, invalid_argument, assignment_not_found, Result, ok, err,
  registry_key, valid_owner, same_owner_key, same_owner_key-Decides,
}

pub record Registry : Type 0 where
  pub owners : List (OwnerKey × OwnerStatus)

pub new_registry : Registry
new_registry = record { owners = [] }

abbrev pub fresh_status : Owner → OwnerStatus
fresh_status owner = record { owner = owner; healthy = true; draining = false; has_capacity = true }

unfoldable pub register : Option Error → Option Registry → Owner → Option Registry × Option Error
register (some e) r owner = (r, some e)
register none none owner = (none, some invalid_argument)
register none (some r) owner =
    if not (valid_owner owner) then (some r, some invalid_argument) else (
      some (record r {
        owners = assign_key same_owner_key (registry_key owner) (fresh_status owner) r.owners;
      }),
      none,
    )

-- SetStatus, given the whole status.
unfoldable pub set_status :
    Option Error → Option Registry → Owner → Bool → Bool → Bool → Option Registry × Option Error
set_status (some e) r owner healthy draining has_capacity = (r, some e)
set_status none none owner healthy draining has_capacity = (none, some invalid_argument)
set_status none (some r) owner healthy draining has_capacity =
    if not (valid_owner owner)
    then (some r, some invalid_argument)
    else elim (lookup same_owner_key (registry_key owner) r.owners) [
      | none ↦ (some r, some assignment_not_found)
      | some known ↦
          let status : OwnerStatus = record {
            owner = owner;
            healthy = healthy;
            draining = draining;
            has_capacity = has_capacity;
          } in
          (
            some (record r {
              owners = assign_key same_owner_key (registry_key owner) status r.owners;
            }),
            none,
          )
    ]

unfoldable pub remove : Option Error → Option Registry → Owner → Option Registry × Option Error
remove (some e) r owner = (r, some e)
remove none none owner = (none, some invalid_argument)
remove none (some r) owner = if not (valid_owner owner) then (some r, some invalid_argument) else (
  some (record r { owners = delete_key same_owner_key (registry_key owner) r.owners }),
  none,
)

statuses : List (OwnerKey × OwnerStatus) → List OwnerStatus
statuses [] = []
statuses ((k, status) ∷ rest) = status ∷ statuses rest

pub snapshot : Option Error → Option Registry → Result (List OwnerStatus)
unfolding statuses
snapshot (some e) r = err e
snapshot none none = err invalid_argument
snapshot none (some r) = ok (statuses r.owners)

-- The entry of a key, in a registry that may be nil.
abbrev pub entry : Option Registry → OwnerKey → Option OwnerStatus
entry none k = none
entry (some r) k = lookup same_owner_key k r.owners

-- A registration, a change of status or a removal answers an error and changes nothing, or it
-- succeeds: then the owner's entry is a healthy status with capacity, or the status given, which needs
-- an entry before it, or none, and the entry of every other key is what it was.
pub entry_updated :
    (ctx : Option Error) (r : Option Registry) (owner : Owner) (h d c : Bool) (k : OwnerKey)
    → let (r1, e1) = register ctx r owner in
      let (r2, e2) = set_status ctx r owner h d c in
      let (r3, e3) = remove ctx r owner in
      let mine = same_owner_key (registry_key owner) k in
      (((e1 ≡ none) × (entry r1 k ≡ (if mine then some (fresh_status owner) else entry r k)))
        ⊎ ((e1 ≢ none) × (r1 ≡ r)))
      × (((e2 ≡ none)
            × (entry r2 k ≡ (
                if mine
                then some (record { owner = owner; healthy = h; draining = d; has_capacity = c })
                else entry r k))
            × (entry r (registry_key owner) ≢ none))
          ⊎ ((e2 ≢ none) × (r2 ≡ r)))
      × (((e3 ≡ none) × (entry r3 k ≡ (if mine then none else entry r k)))
          ⊎ ((e3 ≢ none) × (r3 ≡ r)))
unfolding register set_status remove
entry_updated (some e) r owner h d c k = ground arith
entry_updated none none owner h d c k = ground arith
entry_updated none (some r) owner h d c k =
    let same = same_owner_key-Decides in
    let o = registry_key owner in
    let updated : OwnerStatus = record {
      owner = owner;
      healthy = h;
      draining = d;
      has_capacity = c;
    } in
    ground (
      arith,
      lookup-assign_key same_owner_key same k o (fresh_status owner) r.owners,
      lookup-assign_key same_owner_key same k o updated r.owners,
      lookup-delete_key same_owner_key same k o r.owners,
    )
