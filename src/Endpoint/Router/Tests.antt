-- ===== src/Endpoint/Router/Tests.antt =====
-- A router at concrete inputs; its handlers are numbers.
use sgsp.Common.{ℕ, ◌≡◌, refl, List, [], ◌∷◌, none, some}
use sgsp.Common.Table.{lookup}
use sgsp.Endpoint.Session.{normal}
use sgsp.Endpoint.Router.{event, RouteKey, Router, register, handler_of}
use sgsp.Endpoint.Router.Registered.{Registration, routes, routes_unknown, run, registered_for_good}

abbrev empty : Router ℕ
empty = record { routes = []; unknown = none; lifecycle = none }

abbrev moves : RouteKey
moves = record { kind = event; type = 4 }

first : (register event 4 (some 70) empty).1 ≡ normal
unfolding register lookup
first = refl

abbrev later : List (Registration ℕ)
later = routes event 4 (some 71) ∷ routes_unknown (some 72) ∷ []

registered_for_good_example :
    handler_of (some moves) (run (register event 4 (some 70) empty).0 later) ≡ some 70
registered_for_good_example = registered_for_good event 4 70 empty later first
