-- ===== src/Placement/Bootstrap/Tests.antt =====
-- Runs of Resolve, and its theorems at concrete inputs.
use sgsp.Common.{◌≡◌, refl, arith, List, [], ◌∷◌, true, false, none, some}
use mathlib.Core.Logic.{∥∥₁_elim, inl, inr}
use mathlib.Core.List.{Mem, eq-or-mem_of_mem-cons, not-mem-nil}
use mathlib.Core.List.Perm
use sgsp.Placement.Types.{
  AppIdentity, GroupId, Owner, Assignment, OwnerStatus, assignment_not_found, group_closed,
  server_draining, ok, err,
}
use sgsp.Placement.Bootstrap.{
  Principal, Placement, AssignmentStore, Config, Packages, eligible, matching_status, precedes,
  select_owner, read_or_assign, group_owner, find_owner, admit_owner, ticket_expiry, authorize,
  grant, resolve_checked, resolve,
}
use sgsp.Placement.Bootstrap.Resolved.{Granted, resolve-Granted}
use sgsp.Placement.Bootstrap.Selection.{IsSorted, select_owner-agrees}

abbrev pong : AppIdentity
pong = record { id = "pong"; version = "1" }

abbrev room : GroupId
room = record { app = pong; key = "room" }

abbrev east : Owner
east = record {
  id = "east";
  incarnation = 7;
  endpoint = record { address = "10.0.0.1:1"; server_name = "e" };
}

abbrev alive : OwnerStatus
alive = record { owner = east; healthy = true; draining = false; has_capacity = true }

abbrev leaving : OwnerStatus
leaving = record {
  owner = record east { id = "west" };
  healthy = true;
  draining = true;
  has_capacity = true;
}

abbrev player : Principal
player = record { issuer = "https"; subject = "ann"; expires_at = 100 }

-- A digest that is the same for all, and a sort that finds its list in order.
abbrev go : Packages
go = record {
  rendezvous = λ g o. 0;
  sort = λ less cs. cs;
  random_key = ok "k";
  now_at_start = 5;
  now_at_ticket = 6;
  now_at_sign = 7;
}

abbrev empty_store : AssignmentStore
empty_store = record {
  get = λ g. err assignment_not_found;
  assign = λ g o. ok (record { group = g; owner = o; closed = false });
  close = λ g o. none;
}

abbrev config : Config
config = record {
  app = pong;
  store = some empty_store;
  registry = some (ok (leaving ∷ alive ∷ []));
  selector = none;
  signer = some (λ a. ok "ticket");
  authorize_group = none;
}

abbrev placed : Placement
placed = record { owner = east; group_key = "room"; admission_ticket = "ticket"; expires_at = 100 }

resolved : resolve go (some config) player "room" ≡ ok placed
unfolding resolve resolve_checked grant authorize ticket_expiry admit_owner find_owner group_owner
    read_or_assign select_owner eligible matching_status
resolved = refl

resolve-Granted_example : Granted go config player "room" placed
resolve-Granted_example = resolve-Granted go config player "room" placed resolved

-- A store whose owner is leaving, and one that closed the group.
abbrev store_with : Assignment → AssignmentStore
store_with a = record empty_store { get = λ g. ok a }

draining_refused :
    resolve go
      (some (record config {
        store = some (store_with (record { group = room; owner = leaving.owner; closed = false }));
      }))
      player
      "room"
    ≡ err server_draining
unfolding resolve resolve_checked authorize admit_owner find_owner group_owner read_or_assign
    matching_status
draining_refused = refl

closed_refused :
    resolve go
      (some (record config {
        store = some (store_with (record { group = room; owner = east; closed = true }));
      }))
      player
      "room"
    ≡ err group_closed
unfolding resolve resolve_checked authorize find_owner group_owner read_or_assign
closed_refused = refl

alone_first :
    (c x : OwnerStatus) (rest : List OwnerStatus)
    → ◌≡◌ {A = List OwnerStatus} (alive ∷ []) (c ∷ rest)
    → Mem x (alive ∷ [])
    → precedes go room x c ≡ false
unfolding precedes
alone_first c x rest e m =
    let same : c ≡ alive = ground arith in
    ∥∥₁_elim (eq-or-mem_of_mem-cons m) (hlevel)
      (λ s. elim s [ inl f ↦ rw (same, f) refl | inr n ↦ absurd (not-mem-nil n) ])

alone-IsSorted : IsSorted (precedes go room) (alive ∷ []) (alive ∷ [])
alone-IsSorted = record {
  same = Perm.refl (alive ∷ []);
  first = λ c rest e x m. alone_first c x rest e m;
}

select_owner-agrees_example : (east.id ≡ east.id) × (east.incarnation ≡ east.incarnation)
unfolding eligible select_owner
select_owner-agrees_example =
    select_owner-agrees go player player room (leaving ∷ alive ∷ []) (alive ∷ leaving ∷ []) east
      east alone-IsSorted alone-IsSorted (Perm.swap alive leaving []) refl refl
