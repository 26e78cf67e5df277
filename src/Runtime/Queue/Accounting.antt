-- ===== src/Runtime/Queue/Accounting.antt =====
-- What the queue's counts stand for, over any interleaving of the operations of its clients. A
-- client holds reservations by their place in the list of all that were made.
use sgsp.Common.{
  ℕ, ◌+◌, ◌-◌, ◌≤◌, ◌≡◌, refl, arith, List, [], ◌∷◌, ◌++◌, length, length-append, get_elem?, set,
  none, some, Bool, true, false, Option-cases, ◌⊎◌, inl, inr,
}
use sgsp.Common.Int.{ℤ, pos, to_ℕ}
use sgsp.Runtime.Queue.{
  Offer, Item, Queue, Reservation, accept, new_queue, try_push, try_reserve, finish, commit, cancel,
  pop, remove, find_key, replace_with, close,
}
use sgsp.Runtime.Queue.Sums.{
  total, outstanding, held, outstanding-append, held-append, outstanding-set, held-set,
  total-append, split-total, put_key-total,
}

pub record System {ℓ} (A : Type ℓ) : Type ℓ where
  pub queue : Queue A
  pub reservations : List Reservation

pub data Call {ℓ} (A : Type ℓ) : Type ℓ where
  pushes : Offer A → Call A
  reserves : ℤ → Call A
  commits : ℕ → Offer A → Call A
  cancels : ℕ → Item A → Call A
  pops : Call A
  removes : (Item A → Bool) → Call A
  replaces : Offer A → Call A
  closes : Call A

module _ {ℓ} {A : Type ℓ} where
  -- A reservation that nobody holds changes nothing.
  on_reservation : System A → ℕ → (Reservation → Queue A → Reservation × Queue A) → System A
  on_reservation s i f = elim (get_elem? s.reservations i) [
    | none ↦ s
    | some r ↦
        let (r', q') = f r s.queue in record { queue = q'; reservations = set s.reservations i r' }
  ]

  pub step : System A → Call A → System A
  step s (pushes o) = record s { queue = (try_push s.queue o).0 }
  step s (reserves n) =
      let (q', made) = try_reserve s.queue n in
      elim made [
        | none ↦ record s { queue = q' }
        | some r ↦ record { queue = q'; reservations = s.reservations ++ (r ∷ []) }
      ]
  step s (commits i o) = on_reservation s i (λ r q. let (r', q', _) = commit r q o in (r', q'))
  step s (cancels i z) = on_reservation s i (λ r q. cancel r q z)
  step s pops = record s { queue = (pop s.queue).0 }
  step s (removes p) = record s { queue = (remove p s.queue).0 }
  step s (replaces o) = record s { queue = (replace_with s.queue o).0 }
  step s closes = record s { queue = close s.queue }

  pub run : System A → List (Call A) → System A
  run s [] = s
  run s (c ∷ cs) = run (step s c) cs

  pub record IsSound (s : System A) : Type 0 where
    pub charged : s.queue.bytes ≡ total s.queue.items
    pub counted : s.queue.reserved_items ≡ outstanding s.reservations
    pub reserved : s.queue.reserved_bytes ≡ held s.reservations
    pub items_fit : length s.queue.items + s.queue.reserved_items ≤ s.queue.max_items
    pub bytes_fit : s.queue.bytes + s.queue.reserved_bytes ≤ s.queue.max_bytes

  push-IsSound : (s : System A) (o : Offer A) → IsSound s → IsSound (step s (pushes o))
  unfolding step try_push
  push-IsSound s o v = ground (
    arith,
    total-append s.queue.items (accept o ∷ []),
    length-append s.queue.items (accept o ∷ []),
  )

  reserve-IsSound : (s : System A) (n : ℤ) → IsSound s → IsSound (step s (reserves n))
  unfolding step try_reserve
  reserve-IsSound s n v =
      let r : Reservation = record { bytes = to_ℕ n; done = false } in
      ground (arith, outstanding-append s.reservations r, held-append s.reservations r)

  finish-IsSound :
      (s : System A) (i : ℕ) (r : Reservation) (item : Item A) (c : Bool)
      → get_elem? s.reservations i ≡ some r
      → ((c ≡ false) ⊎ (item.bytes ≡ r.bytes))
      → IsSound s
      → let (r', q', _) = finish r s.queue item c in
        IsSound (record { queue = q'; reservations = set s.reservations i r' })
  unfolding finish
  finish-IsSound s i r item c g b v =
      let r' : Reservation = record r { done = true } in
      ground (
        arith,
        outstanding-set s.reservations i r r,
        held-set s.reservations i r r,
        outstanding-set s.reservations i r r',
        held-set s.reservations i r r',
        total-append s.queue.items (item ∷ []),
        length-append s.queue.items (item ∷ []),
      )

  same-IsSound :
      (s : System A) (i : ℕ) (r : Reservation)
      → get_elem? s.reservations i ≡ some r
      → IsSound s
      → IsSound (record { queue = s.queue; reservations = set s.reservations i r })
  same-IsSound s i r g v =
      ground (arith, outstanding-set s.reservations i r r, held-set s.reservations i r r)

  commit-IsSound :
      (s : System A) (i : ℕ) (r : Reservation) (o : Offer A)
      → get_elem? s.reservations i ≡ some r
      → IsSound s
      → let (r', q', _) = commit r s.queue o in
        IsSound (record { queue = q'; reservations = set s.reservations i r' })
  unfolding commit
  commit-IsSound s i r o g v =
      ground (arith, same-IsSound s i r g v, finish-IsSound s i r (accept o) true g)

  pop-IsSound : (s : System A) → IsSound s → IsSound (step s pops)
  unfolding step pop
  pop-IsSound s v = ground arith

  remove-IsSound : (s : System A) (p : Item A → Bool) → IsSound s → IsSound (step s (removes p))
  unfolding step remove
  remove-IsSound s p v = ground (arith, split-total p s.queue.items)

  replace-IsSound : (s : System A) (o : Offer A) → IsSound s → IsSound (step s (replaces o))
  unfolding step replace_with
  replace-IsSound s o v = elim (Option-cases (find_key o.key s.queue.items)) [
    | inl e ↦ ground (
      arith,
      total-append s.queue.items (accept o ∷ []),
      length-append s.queue.items (accept o ∷ []),
    )
    | inr (old, e) ↦ ground (arith, put_key-total (accept o) old s.queue.items)
  ]

  -- Every operation keeps the counts: the queue's bytes are those of its items, the reserved counts
  -- are those of the outstanding reservations, and items and reservations together stay in the limits.
  pub step-IsSound : (s : System A) (c : Call A) → IsSound s → IsSound (step s c)
  step-IsSound s (pushes o) v = push-IsSound s o v
  step-IsSound s (reserves n) v = reserve-IsSound s n v
  step-IsSound s (commits i o) v = elim (Option-cases (get_elem? s.reservations i)) [
    | inl e ↦ unfold step on_reservation in rw (e, on_reservation) v
    | inr (r, e) ↦ unfold step on_reservation in rw (e, on_reservation) (commit-IsSound s i r o e v)
  ]
  step-IsSound s (cancels i z) v = elim (Option-cases (get_elem? s.reservations i)) [
    | inl e ↦ unfold step on_reservation in rw (e, on_reservation) v
    | inr (r, e) ↦
        unfold step on_reservation cancel in
        rw (e, on_reservation) (finish-IsSound s i r z false e (inl refl) v)
  ]
  step-IsSound s pops v = pop-IsSound s v
  step-IsSound s (removes p) v = remove-IsSound s p v
  step-IsSound s (replaces o) v = replace-IsSound s o v
  step-IsSound s closes v = unfold step close in ground arith

  run-IsSound : (s : System A) (cs : List (Call A)) → IsSound s → IsSound (run s cs)
  unfolding run
  run-IsSound s [] v = v
  run-IsSound s (c ∷ cs) v = run-IsSound (step s c) cs (step-IsSound s c v)

  fresh-IsSound :
      (b n : ℤ) (q : Queue A)
      → new_queue b n ≡ some q
      → IsSound (record { queue = q; reservations = [] })
  unfolding new_queue
  fresh-IsSound b n q h = ground arith

  -- After any sequence of operations on a new queue the counts are right and the limits are kept.
  pub run-new_queue-IsSound :
      (b n : ℤ) (q : Queue A) (cs : List (Call A))
      → new_queue b n ≡ some q
      → IsSound (run (record { queue = q; reservations = [] }) cs)
  run-new_queue-IsSound b n q cs h = run-IsSound _ cs (fresh-IsSound b n q h)

  -- A reservation settles once: after a finish, another one fails and leaves the queue alone.
  pub finish_twice :
      (r : Reservation) (q q' : Queue A) (item item' : Item A) (c c' : Bool)
      → let r' = (finish r q item c).0 in finish r' q' item' c' ≡ (r', q', false)
  unfolding finish
  finish_twice r q q' item item' c c' = ground arith

  -- A commit on an open queue, of an item of the size that a live reservation has, succeeds: the item
  -- goes to the end, and its bytes and its place move from the reserved counts to the queue's.
  pub commit_succeeds :
      (r : Reservation) (q : Queue A) (o : Offer A)
      → r.done ≡ false
      → q.closed ≡ false
      → o.bytes ≡ pos r.bytes
      → let (r', q', accepted) = commit r q o in
        (r'.done ≡ true)
        × (accepted ≡ true)
        × (q'.items ≡ q.items ++ (accept o ∷ []))
        × (q'.bytes ≡ q.bytes + r.bytes)
        × (q'.reserved_bytes ≡ q.reserved_bytes - r.bytes)
        × (q'.reserved_items ≡ q.reserved_items - 1)
  unfolding commit finish
  commit_succeeds r q o d k e = ground arith
