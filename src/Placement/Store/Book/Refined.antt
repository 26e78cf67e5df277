-- ===== src/Placement/Store/Book/Refined.antt =====
-- The store keeps the promises of the book, call by call and over a run.
use sgsp.Common.{
  ◌+◌, ◌≡◌, refl, sym, ap, List, [], ◌∷◌, length, leb, false, ◌==◌, Option, none, some, inl, inr,
  Bool-cases, Option-cases,
}
use mathlib.Core.Path.{fun_ext}
use mathlib.Core.Option.{some-injective}
use native.Mathlib.Nat.{add-zero}
use sgsp.Common.Table.{lookup, assign_key, lookup-assign_key, length-assign_key}
use sgsp.Placement.Types.{
  GroupId, Owner, Assignment, AssignmentKey, Error, Result, ok, same_text, key, valid_group,
  valid_owner, same_group_key, same_group_key-Decides,
}
use sgsp.Placement.Store.{Store, find, assign, assign_valid, get, get_valid, close, close_valid}
use sgsp.Placement.Store.Book.{
  Use, assigns, reads, closes, Answer, assignment, done, serve, serve_all, Book, written,
  under_version, assign_in, get_in, close_in, serve_in, serve_all_in, book,
}

held-assign_key :
    (s : Store) (k : AssignmentKey) (a : Assignment)
    → (λ (j : AssignmentKey). lookup same_group_key j (assign_key same_group_key k a s.assignments))
      ≡ written k a (book s).held
held-assign_key s k a =
    fun_ext (λ j. lookup-assign_key same_group_key same_group_key-Decides j k a s.assignments)

book-new :
    (s : Store) (k : AssignmentKey) (a : Assignment)
    → lookup same_group_key k s.assignments ≡ none
    → book (record s { assignments = assign_key same_group_key k a s.assignments })
      ≡ record (book s) { total = length s.assignments + 1; held = written k a (book s).held }
book-new s k a e =
    rw (held-assign_key s k a, length-assign_key same_group_key k a s.assignments, e) refl

book-again :
    (s : Store) (k : AssignmentKey) (a b : Assignment)
    → lookup same_group_key k s.assignments ≡ some b
    → book (record s { assignments = assign_key same_group_key k a s.assignments })
      ≡ record (book s) { held = written k a (book s).held }
book-again s k a b e =
    rw (held-assign_key s k a, length-assign_key same_group_key k a s.assignments, e)
      (rw add-zero refl)

abbrev opened : GroupId → Owner → Assignment
opened g o = record { group = g; owner = o; closed = false }

abbrev booked {ℓ} : {A : Type ℓ} → Store × A → Book × A
booked (s, a) = (book s, a)

assign_valid-book :
    (s : Store) (g : GroupId) (o : Owner) → booked (assign_valid s g o) ≡ assign_in (book s) g o
unfolding assign_valid assign_in
assign_valid-book s g o = elim (Option-cases (find s g)) [
  | inl e ↦ elim (Bool-cases (leb s.max (length s.assignments))) [
    | inl f ↦ rw (e, f, assign_valid, assign_in) refl
    | inr f ↦
        rw (e, f, assign_valid, assign_in)
          (ap (λ (b : Book). (b, ok (opened g o))) (book-new s (key g) (opened g o) e))
  ]
  | inr (a, e) ↦ elim (Bool-cases (under_version a g)) [
    | inr v ↦ rw (e, v, assign_valid, assign_in) refl
    | inl v ↦ elim (Bool-cases a.closed) [
      | inl c ↦ rw (e, v, c, assign_valid, assign_in) refl
      | inr c ↦ rw (e, v, c, assign_valid, assign_in) refl
    ]
  ]
]

close_valid-book :
    (s : Store) (g : GroupId) (o : Owner) → booked (close_valid s g o) ≡ close_in (book s) g o
unfolding close_valid close_in
close_valid-book s g o = elim (Option-cases (find s g)) [
  | inl e ↦ rw (e, close_valid, close_in) refl
  | inr (a, e) ↦ elim (Bool-cases (under_version a g)) [
    | inr v ↦ rw (e, v, close_valid, close_in) refl
    | inl v ↦ elim (Bool-cases (same_text a.owner.id o.id)) [
      | inr i ↦ rw (e, v, i, close_valid, close_in) refl
      | inl i ↦ elim (Bool-cases (a.owner.incarnation == o.incarnation)) [
        | inr n ↦ rw (e, v, i, n, close_valid, close_in) refl
        | inl n ↦
            rw (e, v, i, n, close_valid, close_in)
              (ap (λ (b : Book). (b, none)) (book-again s (key g) _ a e))
      ]
    ]
  ]
]

get_valid-book : (s : Store) (g : GroupId) → get_valid s g ≡ get_in (book s) g
unfolding get_valid get_in
get_valid-book s g = elim (Option-cases (find s g)) [
  | inl e ↦ rw (e, get_valid, get_in) refl
  | inr (a, e) ↦ elim (Bool-cases (under_version a g)) [
    | inr v ↦ rw (e, v, get_valid, get_in) refl
    | inl v ↦ rw (e, v, get_valid, get_in) refl
  ]
]

-- The store of a call, and what it answered, both as the book has them.
abbrev kept : Option Store × Answer → Option Book × Answer
kept (none, a) = (none, a)
kept (some s, a) = (some (book s), a)

serve-book :
    (s : Store) (u : Use)
    → kept (serve (some s) u) ≡ (let (b, a) = serve_in (book s) u in (some b, a))
unfolding serve serve_in assign get close
serve-book s (assigns (some e) g o) = refl
serve-book s (reads (some e) g) = refl
serve-book s (closes (some e) g o) = refl
serve-book s (assigns none g o) = elim (Bool-cases (valid_group g)) [
  | inr v ↦ rw v refl
  | inl v ↦ elim (Bool-cases (valid_owner o)) [
    | inr w ↦ rw (v, w) refl
    | inl w ↦
        rw (v, w)
          (ap (λ (x : Book × Result Assignment). (some x.0, assignment x.1))
            (assign_valid-book s g o))
  ]
]
serve-book s (reads none g) = elim (Bool-cases (valid_group g)) [
  | inr v ↦ rw v refl
  | inl v ↦
      rw v (ap (λ (x : Result Assignment). (some (book s), assignment x)) (get_valid-book s g))
]
serve-book s (closes none g o) = elim (Bool-cases (valid_group g)) [
  | inr v ↦ rw v refl
  | inl v ↦ elim (Bool-cases (valid_owner o)) [
    | inr w ↦ rw (v, w) refl
    | inl w ↦
        rw (v, w) (ap (λ (x : Book × Option Error). (some x.0, done x.1)) (close_valid-book s g o))
  ]
]

-- A run, as the book has it.
abbrev pub run_kept : Option Store × List Answer → Option Book × List Answer
run_kept (none, answers) = (none, answers)
run_kept (some s, answers) = (some (book s), answers)

kept-some :
    (x : Option Store × Answer) (b : Book) (a : Answer)
    → kept x ≡ (some b, a)
    → (s : Store) × (x ≡ (some s, a)) × (book s ≡ b)
kept-some (none, a') b a h = absurd (cc)
kept-some (some s, a') b a h = (
  s,
  ap (λ (x : Option Book × Answer). (some s, x.1)) h,
  some-injective _ _ (ap (λ (x : Option Book × Answer). x.0) h),
)

run_kept-prepend :
    (t : Option Store × List Answer) (a : Answer) (x : Option Book × List Answer)
    → run_kept t ≡ x
    → run_kept (t.0, a ∷ t.1) ≡ (x.0, a ∷ x.1)
run_kept-prepend (none, answers) a x h = ap (λ (y : Option Book × List Answer). (y.0, a ∷ y.1)) h
run_kept-prepend (some s, answers) a x h = ap (λ (y : Option Book × List Answer). (y.0, a ∷ y.1)) h

-- The store does what the book promises: over any sequence of calls, with any arguments and contexts,
-- the callers are answered as the book answers them, and the store that is left is one that the
-- book is kept of.
pub serve_all-book :
    (s : Store) (us : List Use)
    → run_kept (serve_all (some s) us)
      ≡ (some (serve_all_in (book s) us).0, (serve_all_in (book s) us).1)
unfolding serve_all serve_all_in
serve_all-book s [] = refl
serve_all-book s (u ∷ us) =
    let (s', e, f) = kept-some (serve (some s) u) _ _ (serve-book s u) in
    rw (e, sym f)
      (run_kept-prepend (serve_all (some s') us) (serve_in (book s) u).1 _ (serve_all-book s' us))
