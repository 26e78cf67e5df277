-- ===== src/Runtime/Queue/Order.antt =====
-- The queue as a sequence: what goes in, what comes out, and in which order.
use mathlib.Core.List.{Perm, perm_middle}
use mathlib.Core.List.Perm
use sgsp.Common.{
  ℕ, zero, suc, ◌+◌, ◌-◌, ◌≡◌, refl, sym, ap, ◌∙◌, arith, List, [], ◌∷◌, ◌++◌, append-nil,
  append_assoc, length, length-append, All, none, some, Bool, true, false, if◌then◌else◌, inl, inr,
  Bool-cases,
}
use sgsp.Common.Int.{ℤ}
use sgsp.Runtime.Queue.{
  Offer, Item, Queue, Reservation, accept, try_push, try_reserve, finish, commit, pop, split,
  is_empty, remove, replace_with,
}

module _ {ℓ} {A : Type ℓ} where
  -- A producer that offers items one after the other: the queue, and what it accepted.
  pub push_all : Queue A → List (Offer A) → Queue A × List (Item A)
  push_all q [] = (q, [])
  push_all q (o ∷ os) =
      let (q', accepted) = try_push q o in
      let (q'', rest) = push_all q' os in (q'', if accepted then accept o ∷ rest else rest)

  -- A consumer that pops `n` times: what it got, and the queue.
  pub drain : ℕ → Queue A → List (Item A) × Queue A
  drain zero q = ([], q)
  drain (suc n) q =
      let (q', item) = pop q in
      let (items, q'') = drain n q' in (elim item [ none ↦ items | some i ↦ i ∷ items ], q'')

  push-items :
      (q : Queue A) (o : Offer A)
      → (try_push q o).0.items ≡ q.items ++ (if (try_push q o).1 then accept o ∷ [] else [])
  unfolding try_push
  push-items q o = ground (arith, append-nil q.items)

  push_all-items :
      (os : List (Offer A)) (q : Queue A) → (push_all q os).0.items ≡ q.items ++ (push_all q os).1
  unfolding push_all
  push_all-items [] q = sym (append-nil q.items)
  push_all-items (o ∷ os) q =
      let q' = (try_push q o).0 in
      ground (
        arith,
        push_all-items os q',
        push-items q o,
        append-nil q.items,
        append_assoc q.items (accept o ∷ []) (push_all q' os).1,
      )

  -- `pop` answers nothing on an empty queue only, and else takes the first item and its bytes.
  pub pop_cons :
      (q : Queue A) (x : Item A) (xs : List (Item A))
      → q.items ≡ x ∷ xs
      → ((pop q).1 ≡ some x) × ((pop q).0.items ≡ xs) × ((pop q).0.bytes ≡ q.bytes - x.bytes)
  unfolding pop
  pop_cons q x xs e = ground arith

  drain-items : (xs : List (Item A)) (q : Queue A) → q.items ≡ xs → (drain (length xs) q).0 ≡ xs
  unfolding drain
  drain-items [] q e = refl
  drain-items (x ∷ xs) q e =
      let (a, b, _) = pop_cons q x xs e in ground (arith, a, drain-items xs (pop q).0 b)

  -- First in, first out: whatever is offered one item after the other to any queue, what a consumer
  -- then pops is what was in the queue, followed by the accepted items, in the order of the offers.
  pub drain-push_all :
      (q : Queue A) (os : List (Offer A))
      → let (q', accepted) = push_all q os in
        (drain (length q.items + length accepted) q').0 ≡ q.items ++ accepted
  drain-push_all q os =
      let (q', accepted) = push_all q os in
      ap (λ (n : ℕ). (drain n q').0) (sym (length-append q.items accepted))
      ∙ drain-items (q.items ++ accepted) q' (push_all-items os q)

  -- A closed queue takes nothing more in: neither a push, a reservation, a replacement nor a commit.
  pub closed_admits_nothing :
      (q : Queue A) (o : Offer A) (n : ℤ) (r : Reservation)
      → q.closed ≡ true
      → (try_push q o ≡ (q, false))
        × (try_reserve q n ≡ (q, none))
        × (replace_with q o ≡ (q, false, none, false))
        × ((commit r q o).2 ≡ false)
        × ((commit r q o).1.items ≡ q.items)
  unfolding try_push try_reserve replace_with commit finish
  closed_admits_nothing q o n r e = ground arith

  split-perm :
      (p : Item A → Bool) (xs : List (Item A))
      → let (kept, _, removed) = split p xs in
        Perm xs (removed ++ kept) × All (λ i. p i ≡ true) removed × All (λ i. p i ≡ false) kept
  split-perm p [] = (Perm.refl [], tt, tt)
  split-perm p (x ∷ xs) =
      let (rest, gone, stay) = split-perm p xs in
      elim (Bool-cases (p x)) [
        | inl e ↦ rw e (Perm.cons x rest, (e, gone), stay)
        | inr e ↦ rw e (
          Perm.trans (Perm.cons x rest) (Perm.symm (perm_middle (split p xs).2 (split p xs).0)),
          gone,
          (e, stay),
        )
      ]

  -- Remove parts the items in two: those that the test selects go, the others stay, nothing is lost
  -- and nothing made up.
  pub remove-perm :
      (p : Item A → Bool) (q : Queue A)
      → let (q', removed) = remove p q in
        Perm q.items (removed ++ q'.items)
        × All (λ i. p i ≡ true) removed
        × All (λ i. p i ≡ false) q'.items
  unfolding remove
  remove-perm p q = elim (Bool-cases (is_empty (split p q.items).2)) [
    | inl e ↦ rw e (split-perm p q.items)
    | inr e ↦ rw e (split-perm p q.items)
  ]
