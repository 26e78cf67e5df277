-- ===== src/Endpoint/Server/Steps.antt =====
-- endpoint.go: the sections in which a server endpoint changes its tables, as steps in any order.
use sgsp.Common.{ℕ, Bool, true, Option}
use sgsp.Placement.Types.{String}
use sgsp.Endpoint.Server.{Server, expire_terminals, lookup_session}
use sgsp.Endpoint.Server.Admission.{
  Removed, admit, remove_session, begin_close_group, retain_closed_group, forget_group,
}

-- `drains` is the section of Drain that refuses admissions from then on.
pub data Step (s : Server) : Server → Type 0 where
  admits :
      (closes_groups : Bool) (key : String) (random_id : Option ℕ) (session : ℕ)
      → Step s (admit closes_groups key random_id session s).0
  removes : (now at at' : ℕ) (r : Removed) → Step s (remove_session now at at' r s)
  looks_up : (now at id : ℕ) → Step s (lookup_session now at id s).0
  expires : (now at : ℕ) → Step s (expire_terminals now at s)
  begins_closing :
      (closes_groups : Bool) (key : String) → Step s (begin_close_group closes_groups key s).0
  retains : (key : String) (g : ℕ) → Step s (retain_closed_group key g s)
  forgets : (key : String) (g : ℕ) → Step s (forget_group key g s)
  drains : Step s (record s { draining = true })

pub data Run (s : Server) : Server → Type 0 where
  start : Run s s
  later : {t u : Server} → Run s t → Step t u → Run s u
