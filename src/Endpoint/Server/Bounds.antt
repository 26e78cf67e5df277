-- ===== src/Endpoint/Server/Bounds.antt =====
-- endpoint.go: the limits on the tables of a server endpoint.
pub mod Operations
pub mod Runs
use sgsp.Common.{
  ℕ, zero, suc, ◌+◌, ◌*◌, ◌/◌, ◌^◌, ◌==◌, ◌≤◌, ◌<◌, ◌≡◌, refl, sym, ◌⊎◌, inl, inr, arith, ltb, leb,
  List, [], ◌∷◌, ◌++◌, length, if◌then◌else◌, Bool, true, false, Bool-cases, Option-cases, not,
  ◌&&◌, Option, none, some,
}
use sgsp.Common.Table.{lookup, assign_key, delete_key, length-assign_key}
use sgsp.Placement.Types.{String, same_text}
use sgsp.Endpoint.Session.{Code}
use sgsp.Endpoint.Server.{
  Server, Terminal, same_id, terminal_cache_capacity, keep_live, oldest_entry, delete_oldest,
  is_none, make_room, expire_terminals, schedule_terminal_expiry, record_terminal, lookup_session,
}
use sgsp.Endpoint.Server.Admission.{
  Removed, admit, admit_session, find_group, remove_session, delete_session, leave_group,
  begin_close_group, retain_closed_group, forget_group,
}
use sgsp.Endpoint.Server.Steps.{
  Step, Run, admits, removes, looks_up, expires, begins_closing, retains, forgets, drains, start,
  later,
}

-- The tables are within the limits, which let in at least one session.
pub record IsBounded (s : Server) : Type 0 where
  pub some_session : 0 < s.max_sessions
  pub few_sessions : length s.sessions ≤ s.max_sessions
  pub few_terminals : length s.terminals ≤ terminal_cache_capacity s
  pub few_groups : length s.groups ≤ s.max_active_groups

pub length-delete_key {ℓ κ} :
    {K : Type ℓ} {V : Type κ} (same : K → K → Bool) (k : K) (t : List (K × V))
    → length (delete_key same k t) + (elim (lookup same k t) [ none ↦ 0 | some v ↦ 1 ]) ≤ length t
unfolding delete_key lookup
length-delete_key same k [] = omega arith
length-delete_key same k ((j, v) ∷ t) = ground (arith, length-delete_key same k t)

length-keep_live : (now : ℕ) (ts : List (ℕ × Terminal)) → length (keep_live now ts) ≤ length ts
length-keep_live now [] = omega arith
length-keep_live now ((id, t) ∷ ts) = ground (arith, length-keep_live now ts)

-- The oldest entry is one of the entries.
oldest_entry-listed :
    (o : Option (ℕ × ℕ)) (ts : List (ℕ × Terminal)) (id e : ℕ)
    → oldest_entry o ts ≡ some (id, e)
    → (o ≡ some (id, e)) ⊎ (is_none (lookup same_id id ts) ≡ false)
unfolding lookup
oldest_entry-listed o [] id e h = inl h
oldest_entry-listed none ((j, t) ∷ ts) id e h =
    ground (arith, oldest_entry-listed (some (j, t.expires)) ts id e)
oldest_entry-listed (some (o, f)) ((j, t) ∷ ts) id e h = elim (Bool-cases (ltb t.expires f)) [
  | inl g ↦ let next = oldest_entry-listed (some (j, t.expires)) ts id e (rw g at h) in ground arith
  | inr g ↦ let next = oldest_entry-listed (some (o, f)) ts id e (rw g at h) in ground arith
]

oldest_entry-some :
    (o : ℕ × ℕ) (ts : List (ℕ × Terminal)) → (p : ℕ × ℕ) × (oldest_entry (some o) ts ≡ some p)
oldest_entry-some o [] = (o, refl)
oldest_entry-some (i, e) ((j, t) ∷ ts) = elim (Bool-cases (ltb t.expires e)) [
  | inl g ↦ rw g (oldest_entry-some (j, t.expires) ts)
  | inr g ↦ rw g (oldest_entry-some (i, e) ts)
]

length-delete_oldest :
    (ts : List (ℕ × Terminal)) → 0 < length ts → length (delete_oldest ts) < length ts
unfolding delete_oldest
length-delete_oldest [] h = absurd (omega arith)
length-delete_oldest ((i, t) ∷ ts) h =
    let ((j, e), f) = oldest_entry-some (i, t.expires) ts in
    let listed = oldest_entry-listed none ((i, t) ∷ ts) j e f in
    ground (arith, f, length-delete_key same_id j ((i, t) ∷ ts), listed)

-- The cache takes an entry in.
length-make_room :
    (capacity id : ℕ) (terminal : Terminal) (ts : List (ℕ × Terminal))
    → 0 < capacity
    → length ts ≤ capacity
    → length (assign_key same_id id terminal (make_room capacity id ts)) ≤ capacity
unfolding make_room
length-make_room capacity id terminal ts h l = elim (Option-cases (lookup same_id id ts)) [
  | inr (t, e) ↦ rw (e) (ground (arith, e, length-assign_key same_id id terminal ts))
  | inl e ↦ elim (Bool-cases (leb capacity (length ts))) [
    | inr f ↦ rw (e, f) (ground (arith, e, length-assign_key same_id id terminal ts))
    | inl f ↦
        rw (e, f)
          (ground (
            arith,
            length-delete_oldest ts,
            length-assign_key same_id id terminal (delete_oldest ts),
          ))
  ]
]

capacity-positive : (s : Server) → 0 < s.max_sessions → 0 < terminal_cache_capacity s
unfolding terminal_cache_capacity
capacity-positive s h = ground arith

pub expire_terminals-IsBounded :
    (now at : ℕ) (s : Server) → IsBounded s → IsBounded (expire_terminals now at s)
unfolding expire_terminals schedule_terminal_expiry terminal_cache_capacity
expire_terminals-IsBounded now at s b = record {
  some_session = b.some_session;
  few_sessions = b.few_sessions;
  few_terminals = ground (arith, b.few_terminals, length-keep_live now s.terminals);
  few_groups = b.few_groups;
}

pub record_terminal-IsBounded :
    (now at at' id : ℕ) (code : Code) (s : Server)
    → IsBounded s
    → IsBounded (record_terminal now at at' id code s)
unfolding record_terminal expire_terminals schedule_terminal_expiry terminal_cache_capacity
record_terminal-IsBounded now at at' id code s b = record {
  some_session = b.some_session;
  few_sessions = b.few_sessions;
  few_terminals =
      length-make_room _ id _ (keep_live now s.terminals) (ground (arith, b.some_session))
        (ground (arith, b.few_terminals, length-keep_live now s.terminals));
  few_groups = b.few_groups;
}
