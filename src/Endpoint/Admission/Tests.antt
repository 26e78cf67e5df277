-- ===== src/Endpoint/Admission/Tests.antt =====
-- Admissions at concrete inputs.
use sgsp.Common.{◌≡◌, refl, subst, arith, [], ◌∷◌, ◌⊎◌, true, false, none, some}
use sgsp.Placement.Types.{String, same_text, AppIdentity, Owner, Result, ok, err, forbidden}
use sgsp.Placement.Bootstrap.{
  Principal, Placement, Config, Packages, resolve, resolve_checked, grant, authorize, ticket_expiry,
  admit_owner, find_owner, any_owner, select_owner, eligible, matching_status,
}
use sgsp.Endpoint.Admission.{
  ServerConfig, game_role, is_bootstrap, requires, same_app, same_owner, matches, check_ticket,
  authorize_admission,
}
use sgsp.Endpoint.Admission.Entitled.{
  IsEntitled, ticket_for, authorize_admission-IsEntitled, authorize_admission-resolve,
}

abbrev chess : AppIdentity
chess = record { id = "chess"; version = "2" }

abbrev north : Owner
north = record {
  id = "north";
  incarnation = 3;
  endpoint = record { address = "north:1"; server_name = "n" };
}

abbrev packages : Packages
packages = record {
  rendezvous = λ g o. o.incarnation;
  sort = λ before cs. cs;
  random_key = ok "random";
  now_at_start = 10;
  now_at_ticket = 11;
  now_at_sign = 12;
}

abbrev ada : Principal
ada = record { issuer = "idp"; subject = "ada"; expires_at = 500 }

abbrev issuer : Config
issuer = record {
  app = chess;
  store = none;
  registry =
      some
        (ok (record { owner = north; healthy = true; draining = false; has_capacity = true } ∷ []));
  selector = none;
  signer = some (λ a. ok "ticket");
  authorize_group = none;
}

abbrev placed : Placement
placed = record { owner = north; group_key = ""; admission_ticket = "ticket"; expires_at = 500 }

resolved : resolve packages (some issuer) ada "" ≡ ok placed
unfolding resolve resolve_checked grant authorize ticket_expiry admit_owner find_owner any_owner
    select_owner eligible matching_status
resolved = refl

abbrev text_of : Result String → String
text_of (ok t) = t
text_of (err x) = "none"

abbrev server : ServerConfig
server = record {
  role = game_role;
  app = chess;
  owner = north;
  require_admission = true;
  verify = some (λ t. ok (ticket_for issuer ada "" placed));
  authorize_group = some (λ p g. none);
}

admits_ada : authorize_admission server 499 "" "ticket" ada ≡ ok tt
unfolding authorize_admission check_ticket matches same_app same_owner
admits_ada = refl

-- Another principal does not get in with ada's ticket, and ada not with one that expired.
refuses_eve :
    authorize_admission server 499 "" "ticket" (record ada { subject = "eve" }) ≡ err forbidden
unfolding authorize_admission check_ticket matches same_app same_owner
refuses_eve = refl

refuses_late : authorize_admission server 500 "" "ticket" ada ≡ err forbidden
unfolding authorize_admission check_ticket matches same_app same_owner
refuses_late = refl

authorize_admission-IsEntitled_example :
    (is_bootstrap game_role ≡ true)
    ⊎ ((requires server "" ≡ false) ⊎ IsEntitled server 499 "" "ticket" ada)
authorize_admission-IsEntitled_example =
    authorize_admission-IsEntitled server 499 "" "ticket" ada admits_ada

ticket_text : (t : String) → ok "ticket" ≡ ok t → same_text t "" ≡ false
ticket_text t e = subst (λ (x : Result String). same_text (text_of x) "" ≡ false) e refl

authorize_admission-resolve_example : authorize_admission server 499 "" "ticket" ada ≡ ok tt
authorize_admission-resolve_example =
    authorize_admission-resolve packages issuer (λ a. ok "ticket") server
      (λ t. ok (ticket_for issuer ada "" placed)) (λ p g. none) 499 "" ada placed refl
      (λ t e. (refl, ticket_text t e)) refl refl refl refl refl (omega arith) resolved
