-- ===== src/Endpoint/Server/Closure/Runs.antt =====
-- endpoint.go: a closed group in any run of the sections.
use sgsp.Common.{ℕ, ◌≢◌, sym, subst}
use sgsp.Placement.Types.{String}
use sgsp.Endpoint.Server.{Server}
use sgsp.Endpoint.Server.Steps.{
  Step, Run, admits, removes, looks_up, expires, begins_closing, retains, forgets, drains, start,
  later,
}
use sgsp.Endpoint.Server.Bounds.Operations.{lookup_session-expire}
use sgsp.Endpoint.Server.Closure.{
  Shut, admit-Shut, remove_session-Shut, begin_close_group-Shut, retain_closed_group-Shut,
  forget_group-Shut, expire_terminals-Shut,
}

module _ (key : String) (g : ℕ) where
  -- The closure of the group `g` is not committed in a section.
  abbrev pub Spares : {s t : Server} → Step s t → Type 0
  Spares (admits closes_groups k random_id session) = Unit
  Spares (removes now at at' r) = Unit
  Spares (looks_up now at id) = Unit
  Spares (expires now at) = Unit
  Spares (begins_closing closes_groups k) = Unit
  Spares (retains k h) = h ≢ g
  Spares (forgets k h) = Unit
  Spares drains = Unit

  abbrev pub AllSpare : {s t : Server} → Run s t → Type 0
  AllSpare start = Unit
  AllSpare (later r st) = AllSpare r × Spares st

  Step-Shut : {s t : Server} (st : Step s t) → Spares st → Shut key g s → Shut key g t
  Step-Shut (admits closes_groups k random_id session) n b =
      admit-Shut key g closes_groups k random_id session _ b
  Step-Shut (removes now at at' r) n b = remove_session-Shut key g now at at' r _ b
  Step-Shut {s} (looks_up now at id) n b =
      subst (Shut key g) (sym (lookup_session-expire now at id s))
        (expire_terminals-Shut key g now at s b)
  Step-Shut {s} (expires now at) n b = expire_terminals-Shut key g now at s b
  Step-Shut (begins_closing closes_groups k) n b = begin_close_group-Shut key g closes_groups k _ b
  Step-Shut (retains k h) n b = retain_closed_group-Shut key g k h _ n b
  Step-Shut (forgets k h) n b = forget_group-Shut key g k h _ b
  Step-Shut drains n b = b

  pub Run-Shut : {s t : Server} (r : Run s t) → AllSpare r → Shut key g s → Shut key g t
  Run-Shut start n b = b
  Run-Shut (later r st) (n, m) b = Step-Shut st m (Run-Shut r n b)
