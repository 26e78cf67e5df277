-- ===== src/Placement/Store.antt =====
-- placement/memory/memory.go: the store of assignments. Each operation is one critical section. A nil
-- store is `none`.
pub mod Calls
pub mod Stable
pub mod Agreement
pub mod Book
mod Tests
use sgsp.Common.{
  ℕ, ◌==◌, List, [], ◌∷◌, length, ltb, leb, if◌then◌else◌, Bool, true, false, not, ◌&&◌, ◌||◌,
  Option, none, some,
}
use sgsp.Common.Int.{ℤ, pos, is_neg, to_ℕ}
use sgsp.Common.Table.{lookup, assign_key}
use sgsp.Placement.Types.{
  GroupId, Owner, Assignment, AssignmentKey, Error, invalid_argument, unsupported_version,
  group_closed, resource_exhausted, forbidden, assignment_not_found, Result, ok, err, same_text,
  key, valid_group, valid_owner, same_group_key,
}

pub record Store : Type 0 where
  pub max : ℕ
  pub assignments : List (AssignmentKey × Assignment)

abbrev pub default_max_assignments : ℕ
default_max_assignments = 100000

-- NewStore, given its optional first argument.
unfoldable pub new_store : Option ℤ → Store
new_store max_records =
    let max : ℤ = elim max_records [ none ↦ pos default_max_assignments | some m ↦ m ] in
    record { max = if is_neg max || to_ℕ max == 0 then 1 else to_ℕ max; assignments = [] }

abbrev pub find : Store → GroupId → Option Assignment
find s group = lookup same_group_key (key group) s.assignments

-- Assign, Get and Close once their arguments were checked.
unfoldable pub assign_valid : Store → GroupId → Owner → Store × Result Assignment
assign_valid s group candidate = elim (find s group) [
  | some existing ↦
      if not (same_text existing.group.app.version group.app.version)
      then (s, err unsupported_version)
      else if existing.closed
      then (s, err group_closed)
      else (s, ok existing)
  | none ↦
      if leb s.max (length s.assignments)
      then (s, err resource_exhausted)
      else let assignment : Assignment = record {
        group = group;
        owner = candidate;
        closed = false;
      } in
        (
          record s { assignments = assign_key same_group_key (key group) assignment s.assignments },
          ok assignment,
        )
]

unfoldable pub get_valid : Store → GroupId → Result Assignment
get_valid s group = elim (find s group) [
  | none ↦ err assignment_not_found
  | some assignment ↦
      if not (same_text assignment.group.app.version group.app.version)
      then err unsupported_version
      else ok assignment
]

unfoldable pub close_valid : Store → GroupId → Owner → Store × Option Error
close_valid s group expected = elim (find s group) [
  | none ↦ (s, some assignment_not_found)
  | some assignment ↦
      if not (same_text assignment.group.app.version group.app.version)
      then (s, some unsupported_version)
      else if not (same_text assignment.owner.id expected.id)
          || not (assignment.owner.incarnation == expected.incarnation)
      then (s, some forbidden)
      else (
        record s {
          assignments =
              assign_key same_group_key (key group) (record assignment { closed = true })
                s.assignments;
        },
        none,
      )
]

-- The methods: the context's error first, then a nil store and the arguments.
unfoldable pub assign :
    Option Error → Option Store → GroupId → Owner → Option Store × Result Assignment
assign (some e) s group candidate = (s, err e)
assign none none group candidate = (none, err invalid_argument)
assign none (some s) group candidate =
    if not (valid_group group) || not (valid_owner candidate)
    then (some s, err invalid_argument)
    else let (s', r) = assign_valid s group candidate in (some s', r)

unfoldable pub get : Option Error → Option Store → GroupId → Result Assignment
get (some e) s group = err e
get none none group = err invalid_argument
get none (some s) group =
    if not (valid_group group) then err invalid_argument else get_valid s group

unfoldable pub close : Option Error → Option Store → GroupId → Owner → Option Store × Option Error
close (some e) s group expected = (s, some e)
close none none group expected = (none, some invalid_argument)
close none (some s) group expected =
    if not (valid_group group) || not (valid_owner expected)
    then (some s, some invalid_argument)
    else let (s', r) = close_valid s group expected in (some s', r)
