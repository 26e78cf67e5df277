-- ===== src/Placement/Store/Book.antt =====
-- What the store promises: the first owner that is named for a group keeps it. A book holds a function
-- from the keys of groups to their assignments, and how many there are; it has no list and no order.
pub mod Refined
use sgsp.Common.{
  ℕ, ◌+◌, ◌≡◌, refl, sym, ap, ◌∙◌, arith, List, [], ◌∷◌, length, leb, if◌then◌else◌, Bool, true,
  false, not, ◌&&◌, ◌||◌, ◌==◌, Option, none, some, ◌⊎◌, inl, inr, Bool-cases, Option-cases,
}
use mathlib.Core.Path.{fun_ext}
use mathlib.Core.Option.{some-injective}
use native.Mathlib.Nat.{add-zero}
use sgsp.Common.Table.{lookup, assign_key, lookup-assign_key, length-assign_key}
use sgsp.Placement.Types.{
  GroupId, Owner, Assignment, AssignmentKey, Error, invalid_argument, unsupported_version,
  group_closed, resource_exhausted, forbidden, assignment_not_found, Result, ok, err, same_text,
  key, valid_group, valid_owner, same_group_key, same_group_key-Decides,
}
use sgsp.Placement.Store.{Store, find, assign, assign_valid, get, get_valid, close, close_valid}

-- A call of one of the three methods, and what it answers.
pub data Use : Type 0 where
  assigns : Option Error → GroupId → Owner → Use
  reads : Option Error → GroupId → Use
  closes : Option Error → GroupId → Owner → Use

pub data Answer : Type 0 where
  assignment : Result Assignment → Answer
  done : Option Error → Answer

unfoldable pub serve : Option Store → Use → Option Store × Answer
serve s (assigns ctx g o) = let (s', r) = assign ctx s g o in (s', assignment r)
serve s (reads ctx g) = (s, assignment (get ctx s g))
serve s (closes ctx g o) = let (s', e) = close ctx s g o in (s', done e)

unfoldable pub serve_all : Option Store → List Use → Option Store × List Answer
serve_all s [] = (s, [])
serve_all s (u ∷ us) =
    let (s', a) = serve s u in let (t, answers) = serve_all s' us in (t, a ∷ answers)

pub record Book : Type 0 where
  pub max : ℕ
  pub total : ℕ
  pub held : AssignmentKey → Option Assignment

abbrev pub written :
    AssignmentKey
    → Assignment
    → (AssignmentKey → Option Assignment)
    → AssignmentKey
    → Option Assignment
written k a held j = if same_group_key k j then some a else held j

-- An assignment of another version of the application is refused.
abbrev pub under_version : Assignment → GroupId → Bool
under_version a g = same_text a.group.app.version g.app.version

unfoldable pub assign_in : Book → GroupId → Owner → Book × Result Assignment
assign_in b g o = elim (b.held (key g)) [
  | some a ↦ (
    b,
    if under_version a g
        then (if a.closed then err group_closed else ok a)
        else err unsupported_version,
  )
  | none ↦
      let fresh : Assignment = record { group = g; owner = o; closed = false } in
      if leb b.max b.total
      then (b, err resource_exhausted)
      else (record b { total = b.total + 1; held = written (key g) fresh b.held }, ok fresh)
]

unfoldable pub get_in : Book → GroupId → Result Assignment
get_in b g = elim (b.held (key g)) [
  | some a ↦ if under_version a g then ok a else err unsupported_version
  | none ↦ err assignment_not_found
]

abbrev pub owned_by : Assignment → Owner → Bool
owned_by a o = same_text a.owner.id o.id && a.owner.incarnation == o.incarnation

unfoldable pub close_in : Book → GroupId → Owner → Book × Option Error
close_in b g o = elim (b.held (key g)) [
  | none ↦ (b, some assignment_not_found)
  | some a ↦
      if not (under_version a g)
      then (b, some unsupported_version)
      else if not (owned_by a o)
      then (b, some forbidden)
      else (record b { held = written (key g) (record a { closed = true }) b.held }, none)
]

-- A call as the book answers it: a context that ended first, then invalid arguments.
unfoldable pub serve_in : Book → Use → Book × Answer
serve_in b (assigns (some e) g o) = (b, assignment (err e))
serve_in b (assigns none g o) =
    if valid_group g && valid_owner o
    then (let (b', r) = assign_in b g o in (b', assignment r))
    else (b, assignment (err invalid_argument))
serve_in b (reads (some e) g) = (b, assignment (err e))
serve_in b (reads none g) =
    (b, assignment (if valid_group g then get_in b g else err invalid_argument))
serve_in b (closes (some e) g o) = (b, done (some e))
serve_in b (closes none g o) =
    if valid_group g && valid_owner o
    then (let (b', e) = close_in b g o in (b', done e))
    else (b, done (some invalid_argument))

unfoldable pub serve_all_in : Book → List Use → Book × List Answer
serve_all_in b [] = (b, [])
serve_all_in b (u ∷ us) =
    let (b', a) = serve_in b u in let (t, answers) = serve_all_in b' us in (t, a ∷ answers)

-- What the book keeps of a store.
abbrev pub book : Store → Book
book s = record {
  max = s.max;
  total = length s.assignments;
  held = λ k. lookup same_group_key k s.assignments;
}
