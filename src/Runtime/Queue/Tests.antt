-- ===== src/Runtime/Queue/Tests.antt =====
-- Runs of the queue, and its theorems at concrete inputs.
use sgsp.Common.{
  ℕ, ◌+◌, ◌-◌, ◌≡◌, refl, List, [], ◌∷◌, ◌++◌, length, arith, none, some, Bool, true, false, zero,
  suc,
}
use sgsp.Common.Int.{pos, negsuc}
use sgsp.Runtime.Queue.{Offer, Item, Queue, Reservation, new_queue, pop, find_key, replace_with}
use sgsp.Runtime.Queue.Accounting.{
  System, Call, pushes, reserves, commits, pops, closes, run, IsSound, run-new_queue-IsSound,
}
use sgsp.Runtime.Queue.Order.{pop_cons, push_all, drain, drain-push_all}

abbrev offer : ℕ → ℕ → ℕ → Offer ℕ
offer value bytes key = record { value = value; bytes = pos bytes; key = key }

abbrev item : ℕ → ℕ → ℕ → Item ℕ
item value bytes key = record { value = value; bytes = bytes; key = key }

-- Two items of 3 and 4 bytes, and 2 bytes reserved, of 10 bytes and 4 items.
abbrev busy : Queue ℕ
busy = record {
  items = item 70 3 1 ∷ item 71 4 2 ∷ [];
  max_bytes = 10;
  max_items = 4;
  bytes = 7;
  reserved_bytes = 2;
  reserved_items = 1;
  closed = false;
  notify = true;
}

abbrev open_reservation : Reservation
open_reservation = record { bytes = 2; done = false }

abbrev busy_system : System ℕ
busy_system = record { queue = busy; reservations = open_reservation ∷ [] }

busy_system-IsSound : IsSound busy_system
busy_system-IsSound = record {
  charged = refl;
  counted = refl;
  reserved = refl;
  items_fit = omega arith;
  bytes_fit = omega arith;
}

abbrev empty : Queue ℕ
empty = record {
  items = [];
  max_bytes = 10;
  max_items = 2;
  bytes = 0;
  reserved_bytes = 0;
  reserved_items = 0;
  closed = false;
  notify = false;
}

empty_made : new_queue (pos 10) (pos 2) ≡ some empty
unfolding new_queue
empty_made = refl

negative_refused : new_queue {A = ℕ} (pos 10) (negsuc 0) ≡ none
unfolding new_queue
negative_refused = refl

abbrev calls : List (Call ℕ)
calls = pushes (offer 5 6 1) ∷ reserves (pos 4) ∷ commits 0 (offer 6 4 2) ∷ pops ∷ closes ∷ []

run-new_queue-IsSound_example : IsSound (run (record { queue = empty; reservations = [] }) calls)
run-new_queue-IsSound_example = run-new_queue-IsSound (pos 10) (pos 2) empty calls empty_made

pop_cons_example :
    ((pop busy).1 ≡ some (item 70 3 1))
    × ((pop busy).0.items ≡ item 71 4 2 ∷ [])
    × ((pop busy).0.bytes ≡ busy.bytes - 3)
pop_cons_example = pop_cons busy (item 70 3 1) (item 71 4 2 ∷ []) refl

abbrev offers : List (Offer ℕ)
offers = offer 72 1 3 ∷ offer 73 9 3 ∷ []

drain-push_all_example :
    let (q', accepted) = push_all busy offers in
    (drain (length busy.items + length accepted) q').0 ≡ busy.items ++ accepted
drain-push_all_example = drain-push_all busy offers

abbrev shut : Queue ℕ
shut = record busy { closed = true }

-- The items that a closed epoch leaves behind.
abbrev stale : Item ℕ → Bool
stale i = elim i.key [ zero ↦ false | suc zero ↦ true | suc (suc n) ↦ false ]

replacement_accepted : (replace_with busy (offer 9 4 1)).1 ≡ true
unfolding replace_with find_key
replacement_accepted = refl
