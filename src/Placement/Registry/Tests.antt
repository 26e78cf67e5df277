-- ===== src/Placement/Registry/Tests.antt =====
-- The theorem on the registry at a concrete input.
use sgsp.Common.{◌≡◌, ◌≢◌, [], ◌∷◌, if◌then◌else◌, true, false, Option, none, some, ◌⊎◌}
use sgsp.Placement.Types.{Owner, OwnerKey, registry_key, same_owner_key}
use sgsp.Placement.Registry.{
  Registry, fresh_status, register, set_status, remove, entry, entry_updated,
}

abbrev east : Owner
east = record {
  id = "east";
  incarnation = 7;
  endpoint = record { address = "10.0.0.1:1"; server_name = "e" };
}

abbrev one_owner : Option Registry
one_owner = some (record { owners = (registry_key east, fresh_status east) ∷ [] })

abbrev west_key : OwnerKey
west_key = record { id = "west"; incarnation = 1 }

entry_updated_example :
    let (r1, e1) = register none one_owner east in
    let (r2, e2) = set_status none one_owner east true true false in
    let (r3, e3) = remove none one_owner east in
    let mine = same_owner_key (registry_key east) west_key in
    (((e1 ≡ none)
        × (entry r1 west_key
            ≡ (if mine then some (fresh_status east) else entry one_owner west_key)))
      ⊎ ((e1 ≢ none) × (r1 ≡ one_owner)))
    × (((e2 ≡ none)
          × (entry r2 west_key ≡ (
              if mine
              then some
                  (record { owner = east; healthy = true; draining = true; has_capacity = false })
              else entry one_owner west_key))
          × (entry one_owner (registry_key east) ≢ none))
        ⊎ ((e2 ≢ none) × (r2 ≡ one_owner)))
    × (((e3 ≡ none) × (entry r3 west_key ≡ (if mine then none else entry one_owner west_key)))
        ⊎ ((e3 ≢ none) × (r3 ≡ one_owner)))
entry_updated_example = entry_updated none one_owner east true true false west_key
