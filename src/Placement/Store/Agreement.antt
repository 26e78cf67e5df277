-- ===== src/Placement/Store/Agreement.antt =====
-- What the callers of a store are told, and how many assignments it holds.
use sgsp.Common.{
  ◌≤◌, ◌≡◌, sym, subst, arith, List, [], ◌∷◌, length, true, false, Option, none, some, inl, inr,
}
use sgsp.Common.Int.{ℤ}
use sgsp.Common.Table.{lookup-assign_key, length-assign_key}
use sgsp.Placement.Types.{
  GroupId, Owner, Assignment, ok, key, same_group_key, same_group_key-Decides,
}
use sgsp.Placement.Store.{Store, new_store, assign, assign_valid, close, close_valid}
use sgsp.Placement.Store.Calls.{Call, assigns, closes, step, run, found}
use sgsp.Placement.Store.Stable.{
  assign_valid-cases, close_valid-cases, assign-cases, close-cases, run-Kept,
}

-- An assignment that was answered is the store's entry of the group.
assigned :
    (s : Store) (g : GroupId) (o : Owner) (a : Assignment)
    → (assign none (some s) g o).1 ≡ ok a
    → found (assign none (some s) g o).0 g ≡ some a
unfolding assign assign_valid
assigned s g o a h =
    let D = same_group_key-Decides in
    let fresh : Assignment = record { group = g; owner = o; closed = false } in
    ground (
      arith,
      D.reflexive (key g),
      lookup-assign_key same_group_key D (key g) (key g) fresh s.assignments,
    )

-- What an assignment of a known group may answer.
answer :
    (s : Option Store) (g : GroupId) (o : Owner) (a b : Assignment)
    → found s g ≡ some b
    → b.owner ≡ a.owner
    → (r : Assignment) → (assign none s g o).1 ≡ ok r
    → r.owner ≡ a.owner
unfolding assign assign_valid
answer none g o a b e w r h = absurd (ground arith)
answer (some s) g o a b e w r h = ground arith

-- All callers are told the same owner: once an assignment of a group was answered, whatever calls
-- follow, any later answer for the group, whichever candidate the caller has, names that owner.
pub assign-agrees :
    (s : Store) (g : GroupId) (o o' : Owner) (a r : Assignment) (cs : List Call)
    → (assign none (some s) g o).1 ≡ ok a
    → (assign none (run (assign none (some s) g o).0 cs) g o').1 ≡ ok r
    → r.owner ≡ a.owner
assign-agrees s g o o' a r cs h h' =
    let s' = (assign none (some s) g o).0 in
    let (b, e, _, w, _) = rw (assigned s g o a h) at (run-Kept s' cs g) in
    answer (run s' cs) g o' a b e w r h'

-- A store that is there, and holds no more than its maximum, which is at least one.
abbrev pub Fits : Option Store → Type 0
Fits none = Unit
Fits (some s) = (length s.assignments ≤ s.max) × (1 ≤ s.max)

assign_valid-Fits :
    (s : Store) (g : GroupId) (o : Owner) → Fits (some s) → Fits (some (assign_valid s g o).0)
assign_valid-Fits s g o v = elim (assign_valid-cases s g o) [
  | inl e ↦ rw e v
  | inr (e, room, f) ↦
      let fresh : Assignment = record { group = g; owner = o; closed = false } in
      let grows = length-assign_key same_group_key (key g) fresh s.assignments in
      rw f (ground (arith, grows), v.1)
]

close_valid-Fits :
    (s : Store) (g : GroupId) (o : Owner) → Fits (some s) → Fits (some (close_valid s g o).0)
close_valid-Fits s g o v = elim (close_valid-cases s g o) [
  | inl e ↦ rw e v
  | inr (a, e, f) ↦
      let closed : Assignment = record a { closed = true } in
      let same = length-assign_key same_group_key (key g) closed s.assignments in
      rw f (ground (arith, same), v.1)
]

step-Fits : (s : Option Store) (c : Call) → Fits s → Fits (step s c)
unfolding step
step-Fits none (assigns none g o) v = unfold assign in tt
step-Fits none (closes none g o) v = unfold close in tt
step-Fits s (assigns (some e) g o) v = unfold assign in v
step-Fits s (closes (some e) g o) v = unfold close in v
step-Fits (some s) (assigns none g o) v = elim (assign-cases s g o) [
  | inl e ↦ subst Fits (sym e) v
  | inr e ↦ subst Fits (sym e) (assign_valid-Fits s g o v)
]
step-Fits (some s) (closes none g o) v = elim (close-cases s g o) [
  | inl e ↦ subst Fits (sym e) v
  | inr e ↦ subst Fits (sym e) (close_valid-Fits s g o v)
]

run-Fits : (s : Option Store) (cs : List Call) → Fits s → Fits (run s cs)
unfolding run
run-Fits s [] v = v
run-Fits s (c ∷ cs) v = run-Fits (step s c) cs (step-Fits s c v)

-- Whatever maximum a new store is asked for, it has one of at least one assignment, and no sequence
-- of calls makes it hold more assignments than that.
pub run-new_store-Fits :
    (max_records : Option ℤ) (cs : List Call) → Fits (run (some (new_store max_records)) cs)
run-new_store-Fits m cs =
    run-Fits (some (new_store m)) cs (unfold new_store in (ground arith, ground arith))
