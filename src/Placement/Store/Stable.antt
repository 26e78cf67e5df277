-- ===== src/Placement/Store/Stable.antt =====
-- What the store promises: an assignment, once made, stays.
use sgsp.Common.{
  ◌+◌, ◌≤◌, ◌≡◌, refl, sym, subst, arith, List, [], ◌∷◌, length, true, false, Option, none, some,
  ◌⊎◌, inl, inr, Bool-cases, Option-cases,
}
use sgsp.Common.Table.{lookup, assign_key, lookup-assign_key}
use sgsp.Placement.Types.{GroupId, Owner, Assignment, key, same_group_key, same_group_key-Decides}
use sgsp.Placement.Store.{Store, find, assign, assign_valid, close, close_valid}
use sgsp.Placement.Store.Calls.{Call, assigns, closes, step, run, found}

-- An entry is still there, under the same group and owner, and closed if it was.
abbrev pub Kept : Option Assignment → Option Assignment → Type 0
Kept none o = Unit
Kept (some a) o =
    (b : Assignment) × (o ≡ some b)
    × (b.group ≡ a.group)
    × (b.owner ≡ a.owner)
    × ((a.closed ≡ false) ⊎ (b.closed ≡ true))

Kept-refl : (o : Option Assignment) → Kept o o
Kept-refl none = tt
Kept-refl (some a) = (a, refl, refl, refl, ground arith)

Kept-trans : (o p q : Option Assignment) → Kept o p → Kept p q → Kept o q
Kept-trans none p q h k = tt
Kept-trans (some a) none q h k = absurd (ground arith)
Kept-trans (some a) (some b) q (b', e, g, o, c) (d, e', g', o', c') =
    (d, e', ground arith, ground arith, ground arith)

-- An entry put under a key, where none was or where it keeps what was there.
put-Kept :
    (s : Store) (g h : GroupId) (a : Assignment)
    → Kept (find s g) (some a)
    → Kept
        (find s h)
        (lookup same_group_key (key h) (assign_key same_group_key (key g) a s.assignments))
put-Kept s g h a k =
    let D = same_group_key-Decides in
    let x = lookup-assign_key same_group_key D (key h) (key g) a s.assignments in
    elim (Bool-cases (same_group_key (key g) (key h))) [
      | inr e ↦ rw (x, e) (Kept-refl (find s h))
      | inl e ↦ rw (x, e) (rw (D.equal (key g) (key h) e) at k)
    ]

pub assign_valid-cases :
    (s : Store) (g : GroupId) (o : Owner)
    → ((assign_valid s g o).0 ≡ s)
      ⊎ ((find s g ≡ none)
          × (length s.assignments + 1 ≤ s.max)
          × ((assign_valid s g o).0 ≡ record s {
            assignments =
                assign_key same_group_key
                  (key g)
                  (record { group = g; owner = o; closed = false })
                  s.assignments;
          }))
unfolding assign_valid
assign_valid-cases s g o = ground arith

pub close_valid-cases :
    (s : Store) (g : GroupId) (o : Owner)
    → ((close_valid s g o).0 ≡ s)
      ⊎ ((a : Assignment) × (find s g ≡ some a)
          × ((close_valid s g o).0 ≡ record s {
            assignments =
                assign_key same_group_key (key g) (record a { closed = true }) s.assignments;
          }))
unfolding close_valid
close_valid-cases s g o = elim (Option-cases (find s g)) [
  | inl e ↦ inl (ground arith)
  | inr (a, e) ↦ elim (Option-cases (close_valid s g o).1) [
    | inl f ↦ inr (a, e, ground arith)
    | inr (x, f) ↦ inl (ground arith)
  ]
]

assign_valid-Kept :
    (s : Store) (g : GroupId) (o : Owner) (h : GroupId)
    → Kept (find s h) (find (assign_valid s g o).0 h)
assign_valid-Kept s g o h = elim (assign_valid-cases s g o) [
  | inl e ↦ rw e (Kept-refl (find s h))
  | inr (e, _, f) ↦ rw f (put-Kept s g h _ (rw e tt))
]

close_valid-Kept :
    (s : Store) (g : GroupId) (o : Owner) (h : GroupId)
    → Kept (find s h) (find (close_valid s g o).0 h)
close_valid-Kept s g o h = elim (close_valid-cases s g o) [
  | inl e ↦ rw e (Kept-refl (find s h))
  | inr (a, e, f) ↦ rw f (put-Kept s g h _ (rw e (_, refl, refl, refl, inr refl)))
]

pub assign-cases :
    (s : Store) (g : GroupId) (o : Owner)
    → ((assign none (some s) g o).0 ≡ some s)
      ⊎ ((assign none (some s) g o).0 ≡ some (assign_valid s g o).0)
unfolding assign
assign-cases s g o = ground arith

pub close-cases :
    (s : Store) (g : GroupId) (o : Owner)
    → ((close none (some s) g o).0 ≡ some s)
      ⊎ ((close none (some s) g o).0 ≡ some (close_valid s g o).0)
unfolding close
close-cases s g o = ground arith

-- No call on the store takes an assignment back, gives its group to another owner or opens it again.
pub step-Kept : (s : Option Store) (c : Call) (g : GroupId) → Kept (found s g) (found (step s c) g)
unfolding step
step-Kept none (assigns ctx g o) h = tt
step-Kept none (closes ctx g o) h = tt
step-Kept (some s) (assigns (some e) g o) h = unfold assign in Kept-refl (find s h)
step-Kept (some s) (closes (some e) g o) h = unfold close in Kept-refl (find s h)
step-Kept (some s) (assigns none g o) h =
    let P : Option Store → Type 0 = λ t. Kept (find s h) (found t h) in
    elim (assign-cases s g o) [
      | inl e ↦ subst P (sym e) (Kept-refl (find s h))
      | inr e ↦ subst P (sym e) (assign_valid-Kept s g o h)
    ]
step-Kept (some s) (closes none g o) h =
    let P : Option Store → Type 0 = λ t. Kept (find s h) (found t h) in
    elim (close-cases s g o) [
      | inl e ↦ subst P (sym e) (Kept-refl (find s h))
      | inr e ↦ subst P (sym e) (close_valid-Kept s g o h)
    ]

pub run-Kept :
    (s : Option Store) (cs : List Call) (g : GroupId) → Kept (found s g) (found (run s cs) g)
unfolding run
run-Kept s [] g = Kept-refl (found s g)
run-Kept s (c ∷ cs) g = Kept-trans _ _ _ (step-Kept s c g) (run-Kept (step s c) cs g)
