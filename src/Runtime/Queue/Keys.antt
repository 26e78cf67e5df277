-- ===== src/Runtime/Queue/Keys.antt =====
-- ReplaceWith: the queue as a table from keys to the newest accepted item.
use sgsp.Common.{
  ℕ, ◌+◌, ◌≡◌, ◌≢◌, refl, subst, arith, List, [], ◌∷◌, ◌++◌, length, length-append, All, ◌==◌, none,
  some, true, if◌then◌else◌, Option-cases, ◌⊎◌, inl, inr, Bool-cases,
}
use sgsp.Runtime.Queue.{Offer, Item, Queue, accept, find_key, put_key, replace_with}

module _ {ℓ} {A : Type ℓ} where
  find_key-append :
      (k : ℕ) (xs : List (Item A)) (new : Item A)
      → find_key new.key xs ≡ none
      → find_key k (xs ++ (new ∷ [])) ≡ (if k == new.key then some new else find_key k xs)
  unfolding find_key
  find_key-append k [] new h = ground arith
  find_key-append k (x ∷ xs) new h = ground (arith, find_key-append k xs new)

  find_key-put_key :
      (k : ℕ) (xs : List (Item A)) (new old : Item A)
      → find_key new.key xs ≡ some old
      → find_key k (put_key new xs) ≡ (if k == new.key then some new else find_key k xs)
  unfolding find_key put_key
  find_key-put_key k [] new old h = cc
  find_key-put_key k (x ∷ xs) new old h = ground (arith, find_key-put_key k xs new old)

  -- After a replacement each key finds what it found before, but for the key of the item: if the item
  -- was accepted, that finds the item. A refused item leaves the queue as it was.
  pub find_key-replace_with :
      (q : Queue A) (o : Offer A) (k : ℕ)
      → let (q', accepted, _, _) = replace_with q o in
        (find_key k q'.items ≡ (
          if accepted
          then if k == o.key then some (accept o) else find_key k q.items
          else find_key k q.items))
        × ((accepted ≡ true) ⊎ (q' ≡ q))
  unfolding replace_with
  find_key-replace_with q o k = elim (Option-cases (find_key o.key q.items)) [
    | inl e ↦ ground (arith, find_key-append k q.items (accept o))
    | inr (old, e) ↦ ground (arith, find_key-put_key k q.items (accept o) old)
  ]

  length-put_key : (xs : List (Item A)) (new : Item A) → length (put_key new xs) ≡ length xs
  unfolding put_key
  length-put_key [] new = refl
  length-put_key (x ∷ xs) new = ground (arith, length-put_key xs new)

  -- The item that an accepted replacement returns is the one that stood under the key, and then the
  -- number of items stays; where the key was not there it grows by one.
  pub replace_with-previous :
      (q : Queue A) (o : Offer A)
      → (replace_with q o).1 ≡ true
      → let (q', _, previous, replaced) = replace_with q o in
        (previous ≡ find_key o.key q.items)
        × (length q'.items + (if replaced then 1 else 0) ≡ length q.items + 1)
  unfolding replace_with
  replace_with-previous q o h = elim (Option-cases (find_key o.key q.items)) [
    | inl e ↦ ground (arith, length-append q.items (accept o ∷ []))
    | inr (old, e) ↦ ground (arith, length-put_key q.items (accept o))
  ]

  abbrev pub Fresh : ℕ → List (Item A) → Type 0
  Fresh k = All (λ i. i.key ≢ k)

  abbrev pub Distinct : List (Item A) → Type 0
  Distinct [] = Unit
  Distinct (x ∷ xs) = Fresh x.key xs × Distinct xs

  Fresh-append :
      (k : ℕ) (xs : List (Item A)) (new : Item A)
      → Fresh k xs
      → new.key ≢ k
      → Fresh k (xs ++ (new ∷ []))
  Fresh-append k [] new f g = (g, tt)
  Fresh-append k (x ∷ xs) new f g = (f.0, Fresh-append k xs new f.1 g)

  Distinct-append :
      (xs : List (Item A)) (new : Item A)
      → Distinct xs
      → find_key new.key xs ≡ none
      → Distinct (xs ++ (new ∷ []))
  unfolding find_key
  Distinct-append [] new d h = (tt, tt)
  Distinct-append (x ∷ xs) new d h =
      (Fresh-append x.key xs new d.0 (λ e. ground arith), Distinct-append xs new d.1 (ground arith))

  Fresh-put_key :
      (k : ℕ) (xs : List (Item A)) (new : Item A) → Fresh k xs → Fresh k (put_key new xs)
  unfolding put_key
  Fresh-put_key k [] new f = tt
  Fresh-put_key k (x ∷ xs) new f = elim (Bool-cases (x.key == new.key)) [
    | inl e ↦ rw e ((λ p. f.0 (ground arith)), f.1)
    | inr e ↦ rw e (f.0, Fresh-put_key k xs new f.1)
  ]

  Distinct-put_key : (xs : List (Item A)) (new : Item A) → Distinct xs → Distinct (put_key new xs)
  unfolding put_key
  Distinct-put_key [] new d = tt
  Distinct-put_key (x ∷ xs) new d = elim (Bool-cases (x.key == new.key)) [
    | inl e ↦ rw e (subst (λ (k : ℕ). Fresh k xs) (ground arith) d.0, d.1)
    | inr e ↦ rw e (Fresh-put_key x.key xs new d.0, Distinct-put_key xs new d.1)
  ]

  -- A replacement keeps the keys apart: at most one item waits under each.
  pub replace_with-Distinct :
      (q : Queue A) (o : Offer A) → Distinct q.items → Distinct (replace_with q o).0.items
  unfolding replace_with
  replace_with-Distinct q o d = elim (Option-cases (find_key o.key q.items)) [
    | inl e ↦ ground (arith, Distinct-append q.items (accept o) d e)
    | inr (old, e) ↦ ground (arith, Distinct-put_key q.items (accept o) d)
  ]
