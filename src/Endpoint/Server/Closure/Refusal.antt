-- ===== src/Endpoint/Server/Closure/Refusal.antt =====
-- endpoint.go: a group that CloseGroup began to close takes in no session.
use sgsp.Common.{
  ℕ, ◌==◌, ◌≡◌, refl, sym, ap, ◌∙◌, subst, inl, inr, arith, ltb, leb, List, length, get_elem?, Bool,
  true, false, Bool-cases, Option-cases, not, ◌||◌, Option, some,
}
use Prim.Native.String.{len}
use sgsp.Common.Table.{lookup-assign_key}
use sgsp.Placement.Types.{String, same_text, same_text-eq, same_text_refl}
use sgsp.Endpoint.Session.{normal, group_closed}
use sgsp.Endpoint.Server.{Server, Group}
use sgsp.Endpoint.Server.Admission.{
  change_group, group_at, is_closed_group, admit, find_group, begin_close_group,
}
use sgsp.Endpoint.Server.Steps.{Run}
use sgsp.Endpoint.Server.Closure.{texts-Decides, get_elem?-set, Shut}
use sgsp.Endpoint.Server.Closure.Runs.{AllSpare, Run-Shut}

-- The group that was found or made stands under the key.
find_group-found :
    (key : String) (s : Server) (g : ℕ)
    → (find_group key s).1 ≡ some g
    → group_at (find_group key s).0 key ≡ some g
unfolding find_group
find_group-found key s g h = elim (Option-cases (group_at s key)) [
  | inr (p, e) ↦ ground (arith, e)
  | inl e ↦ elim (Bool-cases (leb s.max_active_groups (length s.groups))) [
    | inl f ↦ absurd (ground arith)
    | inr f ↦
        let made = lookup-assign_key same_text texts-Decides key key (length s.made) s.groups in
        let own = same_text_refl key in
        let place : length s.made ≡ g = ground arith in
        rw (e, f, find_group) (made ∙ rw own (ap some place))
  ]
]

-- What an answer without a refusal shows.
begin_close_group-begun :
    (closes_groups : Bool) (key : String) (s t : Server) (g : ℕ) (sessions : List ℕ)
    → begin_close_group closes_groups key s ≡ (t, normal, some (g, sessions))
    → (len key == 0 ≡ false)
      × (closes_groups ≡ true)
      × ((find_group key s).1 ≡ some g)
      × (change_group g (λ state. record state { closed = true }) (find_group key s).0 ≡ t)
unfolding begin_close_group
begin_close_group-begun closes_groups key s t g sessions h =
    elim (Bool-cases (len key == 0 || ltb s.max_group_key_bytes (len key) || not closes_groups)) [
      | inl e ↦ absurd (ground arith)
      | inr e ↦ elim (Option-cases (find_group key s).1) [
        | inl f ↦ absurd (ground arith)
        | inr (p, f) ↦
            let k = rw (e, f, begin_close_group) at h in
            let place : p ≡ g = ground arith in
            let state : change_group p (λ state. record state { closed = true })
                  (find_group key s).0
                ≡ t =
              ground arith in
            (
              ground arith,
              ground arith,
              f ∙ ap some place,
              ap
                    (λ (x : ℕ).
                      change_group x (λ state. record state { closed = true }) (find_group key s).0)
                    (sym place)
                  ∙ state,
            )
      ]
    ]

change_group-closed :
    (g : ℕ) (s : Server) (group : Group)
    → get_elem? (change_group g (λ state. record state { closed = true }) s).made g ≡ some group
    → group.closed ≡ true
change_group-closed g s group h = elim (Option-cases (get_elem? s.made g)) [
  | inl e ↦ absurd (let k = rw (e, change_group) at h in ground (arith, e, k))
  | inr (state, e) ↦
      let k = rw (e, change_group) at h in
      let written = get_elem?-set s.made g g (record state { closed = true }) state e in
      ground (arith, k, written)
]

-- A server that has just begun to close a group finds it shut, as long as no closure of it is
-- committed.
begun-Shut :
    (closes_groups : Bool) (key : String) (s t : Server) (g : ℕ) (sessions : List ℕ) (group : Group)
    → begin_close_group closes_groups key s ≡ (t, normal, some (g, sessions))
    → get_elem? t.made g ≡ some group
    → group.persisted ≡ false
    → Shut key g t
begun-Shut closes_groups key s t g sessions group h e p =
    let (_, _, f, q) = begin_close_group-begun closes_groups key s t g sessions h in
    record {
      found = subst (λ (x : Server). group_at x key ≡ some g) q (find_group-found key s g f);
      group = group;
      there = e;
      closed =
          change_group-closed g (find_group key s).0 group
            (subst (λ (x : Server). get_elem? x.made g ≡ some group) (sym q) e);
      uncommitted = p;
    }

not_empty : (key : String) → len key == 0 ≡ false → same_text key "" ≡ false
not_empty key h = elim (Bool-cases (same_text key "")) [
  | inr e ↦ e
  | inl e ↦ absurd (
      let same : key ≡ "" = same_text-eq key "" e in
      let k : len "" == 0 ≡ false = rw same at h in cc)
]

find_group-known :
    (key : String) (g : ℕ) (s : Server) → group_at s key ≡ some g → find_group key s ≡ (s, some g)
unfolding find_group
find_group-known key g s e = rw (e, find_group) refl

Shut-refused :
    (key : String) (g : ℕ) (s : Server) (random_id : Option ℕ) (session : ℕ)
    → len key == 0 ≡ false
    → Shut key g s
    → admit true key random_id session s ≡ (s, group_closed)
unfolding admit
Shut-refused key g s random_id session h b =
    let shut : is_closed_group g s ≡ true = rw (b.there, is_closed_group) b.closed in
    let known = find_group-known key g s b.found in rw (not_empty key h, known, known, shut) refl

-- Once CloseGroup began to close a group, every admission to the group is refused, whatever sections
-- run, until its closure is committed.
pub closed_group-refused :
    (key : String) (s t u : Server) (g : ℕ) (sessions : List ℕ) (group : Group) (r : Run t u)
    (random_id : Option ℕ) (session : ℕ)
    → begin_close_group true key s ≡ (t, normal, some (g, sessions))
    → get_elem? t.made g ≡ some group
    → group.persisted ≡ false
    → AllSpare key g r
    → admit true key random_id session u ≡ (u, group_closed)
closed_group-refused key s t u g sessions group r random_id session h e p n =
    Shut-refused key g u random_id session (begin_close_group-begun true key s t g sessions h).0
      (Run-Shut key g r n (begun-Shut true key s t g sessions group h e p))
