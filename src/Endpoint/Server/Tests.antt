-- ===== src/Endpoint/Server/Tests.antt =====
-- Runs of a server endpoint's tables, and their theorems at concrete inputs.
use sgsp.Common.{◌+◌, ◌<◌, ◌≡◌, refl, arith, [], ◌∷◌, length, true, false, none, some}
use sgsp.Common.Int.{pos}
use sgsp.Common.Table.{lookup, assign_key, delete_key}
use sgsp.Endpoint.Session.{normal, session_expired, resource_exhausted, group_closed}
use sgsp.Endpoint.Server.{
  Server, same_id, terminal_cache_capacity, terminal_lifetime, lookup_session, record_terminal,
  expire_terminals, schedule_terminal_expiry, make_room,
}
use sgsp.Endpoint.Server.Admission.{
  Removed, find_group, admit, admit_session, remove_session, delete_session, leave_group,
  begin_close_group,
}
use sgsp.Endpoint.Server.Steps.{start, later, admits, begins_closing, drains}
use sgsp.Endpoint.Server.Bounds.{IsBounded}
use sgsp.Endpoint.Server.Bounds.Runs.{Run-IsBounded}
use sgsp.Endpoint.Server.Terminals.Answers.{KeepsAll, lookup_session-remove_session}
use sgsp.Endpoint.Server.Terminals.Answers
use sgsp.Endpoint.Server.Closure.Refusal.{closed_group-refused}

-- Room for one session and one group; a terminal code is kept for five nanoseconds.
abbrev empty : Server
empty = record {
  max_sessions = 1;
  max_active_groups = 1;
  max_group_key_bytes = 8;
  terminal_ttl = pos 5;
  sessions = [];
  terminals = [];
  terminal_timer = none;
  made = [];
  groups = [];
  draining = false;
}

abbrev serving : Server
serving = record empty {
  sessions = (70, 1) ∷ [];
  made = record { closed = false; persisted = false; sessions = 1 ∷ [] } ∷ [];
  groups = ("arena", 0) ∷ [];
}

admits_one : admit true "arena" (some 70) 1 empty ≡ (serving, normal)
unfolding admit admit_session find_group lookup assign_key delete_key
admits_one = refl

refuses_second : admit false "" (some 71) 2 serving ≡ (serving, resource_exhausted)
unfolding admit admit_session
refuses_second = refl

refuses_other_group : admit true "cave" (some 71) 2 serving ≡ (serving, resource_exhausted)
unfolding admit find_group lookup
refuses_other_group = refl

abbrev closing : Server
closing = record serving {
  made = record { closed = true; persisted = false; sessions = 1 ∷ [] } ∷ [];
}

begins : begin_close_group true "arena" serving ≡ (closing, normal, some (0, 1 ∷ []))
unfolding begin_close_group find_group lookup
begins = refl

empty-IsBounded : IsBounded empty
unfolding terminal_cache_capacity
empty-IsBounded = record {
  some_session = omega arith;
  few_sessions = omega arith;
  few_terminals = omega arith;
  few_groups = omega arith;
}

Run-IsBounded_example :
    IsBounded (begin_close_group true "arena" (admit true "arena" (some 70) 1 empty).0).0
Run-IsBounded_example =
    Run-IsBounded empty-IsBounded
      (later (later start (admits true "arena" (some 70) 1)) (begins_closing true "arena"))

closed_group-refused_example :
    admit true "arena" (some 71) 2 (record closing { draining = true })
    ≡ (record closing { draining = true }, group_closed)
closed_group-refused_example =
    closed_group-refused "arena" serving closing (record closing { draining = true }) 0 (1 ∷ [])
      (record { closed = true; persisted = false; sessions = 1 ∷ [] }) (later start drains)
      (some 71) 2 begins refl refl (tt, tt)

abbrev gone : Removed
gone = record {
  session = 1;
  id = 70;
  group_key = "arena";
  is_closed = true;
  code = session_expired;
}

found_serving : lookup same_id 70 serving.sessions ≡ some 1
unfolding lookup
found_serving = refl

in_time : 104 < 100 + terminal_lifetime serving
unfolding terminal_lifetime
in_time = omega arith

-- Another player is admitted, the table is looked into, the player leaves, and the server drains.
abbrev removed : Server
removed = remove_session 100 100 100 gone serving

abbrev played : Server
played = (admit true "arena" (some 71) 2 removed).0

abbrev looked_into : Server
looked_into = (lookup_session 101 101 70 played).0

abbrev other_gone : Removed
other_gone = record gone { session = 2; id = 71; code = normal }

abbrev drained : Server
drained = record (remove_session 102 102 102 other_gone looked_into) { draining = true }

room_left : length looked_into.terminals < terminal_cache_capacity looked_into
unfolding lookup terminal_cache_capacity terminal_lifetime admit admit_session find_group
    remove_session delete_session leave_group record_terminal expire_terminals
    schedule_terminal_expiry make_room assign_key delete_key lookup_session
room_left = omega arith

abbrev sections : KeepsAll 70 (100 + terminal_lifetime serving) removed drained
sections =
    Answers.later
      (Answers.later
        (Answers.later (Answers.later Answers.start (Answers.admits true "arena" (some 71) 2 refl))
          (Answers.looks_up 101 101 70 (omega (arith, in_time))))
        (Answers.removes 102 102 102 other_gone (omega (arith, in_time)) room_left))
      Answers.drains

lookup_session-remove_session_example :
    ((lookup_session 104 104 70 drained).1 ≡ none)
    × ((lookup_session 104 104 70 drained).2 ≡ session_expired)
lookup_session-remove_session_example =
    lookup_session-remove_session 100 100 100 104 104 gone serving drained found_serving refl
      sections in_time
