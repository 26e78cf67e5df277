-- ===== src/Runtime/Queue.antt =====
-- internal/runtime/queue.go: a bounded queue whose items are charged by their bytes, and the
-- reservations of its capacity. Each operation is one critical section under the queue's mutex. The
-- counts are Go ints: only a caller's `Bytes` can be negative, and a comparison with a difference of
-- limits is written with the subtrahends on the other side.
pub mod Sums
pub mod Accounting
pub mod Order
pub mod Keys
mod Tests
use sgsp.Common.{
  ℕ, ◌+◌, ◌-◌, List, [], ◌∷◌, ◌++◌, length, ltb, leb, ◌==◌, not, ◌&&◌, ◌||◌, if◌then◌else◌, Bool,
  true, false, Option, none, some, get_elem?, set,
}
use sgsp.Common.Int.{ℤ, is_neg, to_ℕ}

-- An item as a caller passes it, and as the queue holds it once its bytes were checked.
pub record Offer {ℓ} (A : Type ℓ) : Type ℓ where
  pub value : A
  pub bytes : ℤ
  pub key : ℕ

pub record Item {ℓ} (A : Type ℓ) : Type ℓ where
  pub value : A
  pub bytes : ℕ
  pub key : ℕ

-- `notify` is the channel of capacity one: whether it holds a signal.
pub record Queue {ℓ} (A : Type ℓ) : Type ℓ where
  pub items : List (Item A)
  pub max_bytes : ℕ
  pub max_items : ℕ
  pub bytes : ℕ
  pub reserved_bytes : ℕ
  pub reserved_items : ℕ
  pub closed : Bool
  pub notify : Bool

-- A reservation belongs to the queue that made it.
pub record Reservation : Type 0 where
  pub bytes : ℕ
  pub done : Bool

module _ {ℓ} {A : Type ℓ} where
  abbrev pub accept : Offer A → Item A
  accept o = record { value = o.value; bytes = to_ℕ o.bytes; key = o.key }

  abbrev pub signal : Queue A → Queue A
  signal q = record q { notify = true }

  -- NewQueue panics on a negative limit.
  pub new_queue : ℤ → ℤ → Option (Queue A)
  new_queue max_bytes max_items =
      if is_neg max_bytes || is_neg max_items
      then none
      else some (record {
        items = [];
        max_bytes = to_ℕ max_bytes;
        max_items = to_ℕ max_items;
        bytes = 0;
        reserved_bytes = 0;
        reserved_items = 0;
        closed = false;
        notify = false;
      })

  -- `len(q.items)+q.reservedItems >= q.maxItems || n > q.maxBytes-q.bytes-q.reservedBytes`
  abbrev pub lacks_room : Queue A → ℕ → Bool
  lacks_room q n =
      leb q.max_items (length q.items + q.reserved_items)
      || ltb q.max_bytes (n + q.bytes + q.reserved_bytes)

  abbrev pub append_item : Queue A → Item A → Queue A
  append_item q item =
      signal (record q { items = q.items ++ (item ∷ []); bytes = q.bytes + item.bytes })

  unfoldable pub try_push : Queue A → Offer A → Queue A × Bool
  try_push q o =
      if q.closed || is_neg o.bytes || lacks_room q (to_ℕ o.bytes)
      then (q, false)
      else (append_item q (accept o), true)

  unfoldable pub try_reserve : Queue A → ℤ → Queue A × Option Reservation
  try_reserve q bytes =
      let n = to_ℕ bytes in
      if is_neg bytes || q.closed || lacks_room q n then (q, none) else (
        record q { reserved_items = q.reserved_items + 1; reserved_bytes = q.reserved_bytes + n },
        some (record { bytes = n; done = false }),
      )

  abbrev pub release : Queue A → ℕ → Queue A
  release q n = record q {
    reserved_items = q.reserved_items - 1;
    reserved_bytes = q.reserved_bytes - n;
  }

  unfoldable pub finish : Reservation → Queue A → Item A → Bool → Reservation × Queue A × Bool
  finish r q item commits =
      if r.done
      then (r, q, false)
      else let q' = release q r.bytes in
        let r' = record r { done = true } in
        if commits && not q'.closed then (r', append_item q' item, true) else (r', signal q', false)

  unfoldable pub commit : Reservation → Queue A → Offer A → Reservation × Queue A × Bool
  unfolding finish
  commit r q o =
      if is_neg o.bytes || not (to_ℕ o.bytes == r.bytes)
      then (r, q, false)
      else finish r q (accept o) true

  -- The zero item that Go passes to `finish` is not used there: `zero` stands for it.
  unfoldable pub cancel : Reservation → Queue A → Item A → Reservation × Queue A
  unfolding finish
  cancel r q zero = let (r', q', _) = finish r q zero false in (r', q')

  pop_items : Queue A → List (Item A) → Queue A × Option (Item A)
  pop_items q [] = (q, none)
  pop_items q (item ∷ rest) =
      (signal (record q { items = rest; bytes = q.bytes - item.bytes }), some item)

  unfoldable pub pop : Queue A → Queue A × Option (Item A)
  unfolding pop_items
  pop q = pop_items q q.items

  -- The loop of Remove: what stays, its bytes, and what goes, each in order.
  abbrev pub split : (Item A → Bool) → List (Item A) → List (Item A) × ℕ × List (Item A)
  split remove [] = ([], 0, [])
  split remove (item ∷ rest) =
      let (kept, bytes, removed) = split remove rest in
      if remove item
      then (kept, bytes, item ∷ removed)
      else (item ∷ kept, item.bytes + bytes, removed)

  abbrev pub is_empty : List (Item A) → Bool
  is_empty [] = true
  is_empty (item ∷ rest) = false

  unfoldable pub remove : (Item A → Bool) → Queue A → Queue A × List (Item A)
  remove removes q =
      let (kept, bytes, removed) = split removes q.items in
      let q' = record q { items = kept; bytes = bytes } in
      (if is_empty removed then q' else signal q', removed)

  -- The first item under a key, and the items with that one exchanged.
  unfoldable pub find_key : ℕ → List (Item A) → Option (Item A)
  find_key k [] = none
  find_key k (item ∷ rest) = if item.key == k then some item else find_key k rest

  pub put_key : Item A → List (Item A) → List (Item A)
  put_key new [] = []
  put_key new (item ∷ rest) = if item.key == new.key then new ∷ rest else item ∷ put_key new rest

  -- Whether the item was accepted, the item that it took the place of, and whether its key was there.
  unfoldable pub replace_with : Queue A → Offer A → Queue A × Bool × Option (Item A) × Bool
  replace_with q o =
      let n = to_ℕ o.bytes in
      if q.closed || is_neg o.bytes
      then (q, false, none, false)
      else elim (find_key o.key q.items) [
        | some old ↦
            if ltb (q.max_bytes + old.bytes) (n + q.bytes + q.reserved_bytes)
            then (q, false, none, true)
            else (
              signal (record q {
                items = put_key (accept o) q.items;
                bytes = q.bytes + n - old.bytes;
              }),
              true,
              some old,
              true,
            )
        | none ↦
            if lacks_room q n
            then (q, false, none, false)
            else (append_item q (accept o), true, none, false)
      ]

  pub replace : Queue A → Offer A → Queue A × Bool × Bool
  replace q o = let (q', accepted, _, replaced) = replace_with q o in (q', accepted, replaced)

  unfoldable pub close : Queue A → Queue A
  close q = signal (record q { closed = true })

  pub len : Queue A → ℕ × ℕ
  len q = (length q.items, q.bytes)
