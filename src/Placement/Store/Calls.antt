-- ===== src/Placement/Store/Calls.antt =====
-- The store over any sequence of the calls that change it.
use sgsp.Common.{List, [], ◌∷◌, Option, none, some}
use sgsp.Placement.Types.{GroupId, Owner, Assignment, Error}
use sgsp.Placement.Store.{Store, find, assign, close}

pub data Call : Type 0 where
  assigns : Option Error → GroupId → Owner → Call
  closes : Option Error → GroupId → Owner → Call

unfoldable pub step : Option Store → Call → Option Store
step s (assigns ctx group candidate) = (assign ctx s group candidate).0
step s (closes ctx group expected) = (close ctx s group expected).0

unfoldable pub run : Option Store → List Call → Option Store
run s [] = s
run s (c ∷ cs) = run (step s c) cs

abbrev pub found : Option Store → GroupId → Option Assignment
found none g = none
found (some s) g = find s g
