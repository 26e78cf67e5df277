-- ===== src/Endpoint/Server/Admission.antt =====
-- endpoint.go: the groups of a server endpoint, the commit of an admission, the removal of a session,
-- and CloseGroup with the timer that forgets a closed group.
use sgsp.Common.{
  ℕ, ◌==◌, ltb, leb, List, [], ◌∷◌, ◌++◌, length, get_elem?, set, if◌then◌else◌, Bool, true, false,
  not, ◌&&◌, ◌||◌, Option, none, some,
}
use Prim.Native.String.{len}
use sgsp.Common.Table.{lookup, assign_key, delete_key}
use sgsp.Placement.Types.{String, same_text}
use sgsp.Endpoint.Session.{
  Code, normal, invalid_argument, resource_exhausted, server_draining, internal, group_closed,
}
use sgsp.Endpoint.Server.{Server, Group, same_id, record_terminal}

abbrev pub group_at : Server → String → Option ℕ
group_at s key = lookup same_text key s.groups

-- A write through a pointer to a group.
abbrev pub change_group : ℕ → (Group → Group) → Server → Server
change_group g f s = record s {
  made = elim (get_elem? s.made g) [ none ↦ s.made | some group ↦ set s.made g (f group) ];
}

abbrev pub is_closed_group : ℕ → Server → Bool
is_closed_group g s = elim (get_elem? s.made g) [ none ↦ false | some group ↦ group.closed ]

unfoldable pub group_open : Server → String → Bool
group_open s key =
    if same_text key ""
    then true
    else elim (group_at s key) [ none ↦ true | some g ↦ not (is_closed_group g s) ]

abbrev pub new_group : Group
new_group = record { closed = false; persisted = false; sessions = [] }

-- The group of a key, made when there is none and there is room.
unfoldable pub find_group : String → Server → Server × Option ℕ
find_group key s = elim (group_at s key) [
  | some g ↦ (s, some g)
  | none ↦ if leb s.max_active_groups (length s.groups) then (s, none) else (
    record s {
      made = s.made ++ (new_group ∷ []);
      groups = assign_key same_text key (length s.made) s.groups;
    },
    some (length s.made),
  )
]

abbrev pub join_group : Option ℕ → ℕ → Server → Server
join_group none session s = s
join_group (some g) session s =
    change_group g (λ group. record group { sessions = session ∷ group.sessions }) s

-- The sessions' part of the admission: a new identifier, or the failure of the random source.
unfoldable pub admit_session : Option ℕ → Option ℕ → ℕ → Server → Server × Code
admit_session group random_id session s =
    if s.draining
    then (s, server_draining)
    else if leb s.max_sessions (length s.sessions)
    then (s, resource_exhausted)
    else elim random_id [
      | none ↦ (s, internal)
      | some id ↦ (
        join_group group session (record s {
          sessions = assign_key same_id id session s.sessions;
          terminals = delete_key same_id id s.terminals;
        }),
        normal,
      )
    ]

-- The commit of an admission, behind the authentication: both locks are held throughout.
unfoldable pub admit : Bool → String → Option ℕ → ℕ → Server → Server × Code
admit closes_groups key random_id session s =
    if same_text key ""
    then admit_session none random_id session s
    else if not closes_groups
    then (s, invalid_argument)
    else let (found, group) = find_group key s in
      elim group [
        | none ↦ (found, resource_exhausted)
        | some g ↦
            if is_closed_group g found
            then (found, group_closed)
            else admit_session (some g) random_id session found
      ]

-- A session that is removed: its record's number, identifier and group key, whether its state is
-- Closed, and its terminal code.
pub record Removed : Type 0 where
  pub session : ℕ
  pub id : ℕ
  pub group_key : String
  pub is_closed : Bool
  pub code : Code

-- `delete(state.sessions, session)`
abbrev pub without : ℕ → List ℕ → List ℕ
without i [] = []
without i (j ∷ js) = let rest = without i js in if i == j then rest else j ∷ rest

unfoldable pub leave_group : String → ℕ → Server → Server
leave_group key session s = if same_text key "" then s else elim (group_at s key) [
  | none ↦ s
  | some g ↦ change_group g (λ group. record group { sessions = without session group.sessions }) s
]

abbrev pub is_session : ℕ → Option ℕ → Bool
is_session i none = false
is_session i (some j) = j == i

-- `delete(s.sessions, session.id)`, and a closed session's code goes into the cache.
unfoldable pub delete_session : ℕ → ℕ → ℕ → Removed → Server → Server
delete_session now at at' r s =
    let deleted : Server = record s { sessions = delete_key same_id r.id s.sessions } in
    if r.is_closed then record_terminal now at at' r.id r.code deleted else deleted

unfoldable pub remove_session : ℕ → ℕ → ℕ → Removed → Server → Server
remove_session now at at' r s =
    let left = leave_group r.group_key r.session s in
    let deleted = delete_session now at at' r left in
    if is_session r.session (lookup same_id r.id left.sessions) then deleted else left

-- CloseGroup up to the end of its critical section: the group, and the sessions that it closes next.
unfoldable pub begin_close_group : Bool → String → Server → Server × Code × Option (ℕ × List ℕ)
begin_close_group closes_groups key s =
    if len key == 0 || ltb s.max_group_key_bytes (len key) || not closes_groups
    then (s, invalid_argument, none)
    else let (found, group) = find_group key s in
      elim group [
        | none ↦ (found, resource_exhausted, none)
        | some g ↦ (
          change_group g (λ state. record state { closed = true }) found,
          normal,
          some (g, elim (get_elem? found.made g) [ none ↦ [] | some state ↦ state.sessions ]),
        )
      ]

-- And its end, once the closure was committed: from then on a timer may forget the group.
unfoldable pub retain_closed_group : String → ℕ → Server → Server
retain_closed_group key g s = elim (get_elem? s.made g) [
  | none ↦ s
  | some group ↦
      if not (is_session g (group_at s key)) || not group.closed || group.persisted
      then s
      else change_group g (λ state. record state { persisted = true }) s
]

-- The timer's function.
unfoldable pub forget_group : String → ℕ → Server → Server
forget_group key g s = elim (get_elem? s.made g) [
  | none ↦ s
  | some group ↦
      if is_session g (group_at s key) && group.closed && group.persisted
      then record s { groups = delete_key same_text key s.groups }
      else s
]
