-- ===== src/Placement/Store/Tests.antt =====
-- Runs of the store, and its theorems at concrete inputs.
use sgsp.Common.{◌≡◌, refl, List, [], ◌∷◌, false, none, some}
use sgsp.Common.Int.{pos}
use sgsp.Common.Table.{lookup, assign_key}
use sgsp.Placement.Types.{
  GroupId, Owner, Assignment, canceled, forbidden, ok, key, valid_group, valid_owner,
  same_group_key,
}
use sgsp.Placement.Store.{Store, new_store, assign, assign_valid, close, close_valid}
use sgsp.Placement.Store.Calls.{Call, assigns, closes, step, run}
use sgsp.Placement.Store.Book.{
  Use, assigns as assigns_now, reads, closes as closes_now, serve_all, serve_all_in, book,
}
use sgsp.Placement.Store.Book.Refined.{run_kept, serve_all-book}
use sgsp.Placement.Store.Agreement.{Fits, assign-agrees, run-new_store-Fits}

abbrev pong : GroupId
pong = record { app = record { id = "pong"; version = "1" }; key = "room" }

abbrev east : Owner
east = record {
  id = "east";
  incarnation = 7;
  endpoint = record { address = "10.0.0.1:1"; server_name = "e" };
}

abbrev west : Owner
west = record east { id = "west" }

abbrev empty : Store
empty = record { max = 2; assignments = [] }

abbrev pong_east : Assignment
pong_east = record { group = pong; owner = east; closed = false }

abbrev holding : Store
holding = record empty { assignments = (key pong, pong_east) ∷ [] }

first_assigned : assign none (some empty) pong east ≡ (some holding, ok pong_east)
unfolding assign assign_valid valid_group valid_owner lookup assign_key
first_assigned = refl

second_told : assign none (some holding) pong west ≡ (some holding, ok pong_east)
unfolding assign assign_valid valid_group valid_owner lookup same_group_key
second_told = refl

stranger_refused : close none (some holding) pong west ≡ (some holding, some forbidden)
unfolding close close_valid valid_group valid_owner lookup same_group_key
stranger_refused = refl

abbrev calls : List Call
calls = closes none pong west ∷ assigns (some canceled) pong west ∷ []

first_answer : (assign none (some empty) pong east).1 ≡ ok pong_east
unfolding assign assign_valid valid_group valid_owner lookup assign_key
first_answer = refl

later_answer :
    (assign none (run (assign none (some empty) pong east).0 calls) pong west).1 ≡ ok pong_east
unfolding run step close close_valid assign assign_valid valid_group valid_owner lookup assign_key
    same_group_key
later_answer = refl

assign-agrees_example : pong_east.owner ≡ pong_east.owner
assign-agrees_example =
    assign-agrees empty pong east west pong_east pong_east calls first_answer later_answer

run-new_store-Fits_example : Fits (run (some (new_store (some (pos 0)))) calls)
run-new_store-Fits_example = run-new_store-Fits (some (pos 0)) calls

abbrev uses : List Use
uses =
    assigns_now none pong east
    ∷ assigns_now none pong west
    ∷ closes_now none pong west
    ∷ closes_now none pong east
    ∷ reads none pong
    ∷ assigns_now none pong east
    ∷ []

serve_all-book_example :
    run_kept (serve_all (some empty) uses)
    ≡ (some (serve_all_in (book empty) uses).0, (serve_all_in (book empty) uses).1)
serve_all-book_example = serve_all-book empty uses
