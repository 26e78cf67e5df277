-- ===== src/Endpoint/Session/Invariant.antt =====
-- A session over any sequence of the calls that change it, with the connections made for it.
use sgsp.Common.{
  ℕ, zero, suc, ◌+◌, ◌%◌, ◌^◌, ◌<◌, ◌≡◌, ◌≢◌, refl, arith, List, [], ◌∷◌, ◌++◌, length,
  length-append, if◌then◌else◌, true, false, Option, none, some, ◌⊎◌,
}
use sgsp.Endpoint.Session.{
  active, Code, normal, Session, Connection, is_closed, close, close_remote, set_principal,
  suspend_if_current, replace_connection, replace_connection_at,
}

pub record System (P : Type 0) : Type 0 where
  pub session : Session P
  pub connections : List Connection

-- A peer's epoch is a uint64.
pub data Call (P : Type 0) : Type 0 where
  suspends : ℕ → Call P
  resumes : P → Call P
  resumes_at : P → ℕ → Call P
  closes : Code → Call P
  closes_remotely : Code → Call P
  sets_principal : P → Call P

-- stopEpoch on the connection `i`.
unfoldable pub stop_at : ℕ → List Connection → List Connection
stop_at i [] = []
stop_at zero (k ∷ ks) = record k { stopped = true } ∷ ks
stop_at (suc i) (k ∷ ks) = k ∷ stop_at i ks

abbrev pub stop_previous : Option ℕ → List Connection → List Connection
stop_previous none ks = ks
stop_previous (some i) ks = stop_at i ks

module _ {P : Type 0} where
  -- What the endpoint does with the answer of a replacement: the previous connection is stopped, the
  -- new one has the epoch.
  abbrev pub adopt : System P → Session P × Code → System P
  adopt s (s', normal) = record {
    session = s';
    connections =
        stop_previous s.session.operations s.connections
        ++ (record { epoch = s'.epoch; stopped = false } ∷ []);
  }
  adopt s (s', _) = s

  unfoldable pub step : System P → Call P → System P
  step s (suspends i) =
      let (s', detached) = suspend_if_current s.session i in
      record {
        session = s';
        connections = if detached then stop_at i s.connections else s.connections;
      }
  step s (resumes principal) =
      let (s', code, _) = replace_connection s.session (length s.connections) principal in
      adopt s (s', code)
  step s (resumes_at principal epoch) =
      adopt s (replace_connection_at s.session (length s.connections) principal (epoch % 2 ^ 64))
  step s (closes code) = record s { session = (close s.session code).0 }
  step s (closes_remotely code) = record s { session = (close_remote s.session code).0 }
  step s (sets_principal principal) = record s { session = set_principal s.session principal }

  unfoldable pub run : System P → List (Call P) → System P
  run s [] = s
  run s (c ∷ cs) = run (step s c) cs

-- The epochs strictly grow from each connection to the next, and the last one has `e`.
abbrev pub Climbs : List Connection → ℕ → Type 0
Climbs [] e = ⊥
Climbs (k ∷ []) e = k.epoch ≡ e
Climbs (k ∷ (l ∷ ks)) e = (k.epoch < l.epoch) × Climbs (l ∷ ks) e

Climbs-append :
    (ks : List Connection) (e : ℕ) (k : Connection)
    → Climbs ks e
    → e < k.epoch
    → Climbs (ks ++ (k ∷ [])) k.epoch
Climbs-append [] e k c h = absurd c
Climbs-append (l ∷ []) e k c h = (omega arith, refl)
Climbs-append (l ∷ (m ∷ ks)) e k c h = (c.0, Climbs-append (m ∷ ks) e k c.1 h)

Climbs-stop_at : (i : ℕ) (ks : List Connection) (e : ℕ) → Climbs ks e → Climbs (stop_at i ks) e
unfolding stop_at
Climbs-stop_at i [] e c = absurd c
Climbs-stop_at zero (k ∷ []) e c = c
Climbs-stop_at zero (k ∷ (l ∷ ks)) e c = c
Climbs-stop_at (suc i) (k ∷ []) e c = c
Climbs-stop_at (suc zero) (k ∷ (l ∷ ks)) e c = (c.0, Climbs-stop_at zero (l ∷ ks) e c.1)
Climbs-stop_at (suc (suc i)) (k ∷ (l ∷ ks)) e c = (c.0, Climbs-stop_at (suc i) (l ∷ ks) e c.1)

pub length-stop_at : (i : ℕ) (ks : List Connection) → length (stop_at i ks) ≡ length ks
unfolding stop_at
length-stop_at i [] = refl
length-stop_at zero (k ∷ ks) = refl
length-stop_at (suc i) (k ∷ ks) = ground (arith, length-stop_at i ks)

-- The newest connection serves the session, under the session's epoch, every older one has a smaller
-- epoch, no epoch is zero or wraps, and the context is canceled exactly when the session is closed.
pub record IsServed {P : Type 0} (s : System P) : Type 0 where
  pub climbs : Climbs s.connections s.session.epoch
  pub serves : (c : ℕ) × (s.session.operations ≡ some c) × (c + 1 ≡ length s.connections)
  pub bounded : s.session.epoch < 2 ^ 64
  pub positive : 0 < s.session.epoch
  pub canceled : s.session.canceled ≡ is_closed s.session.state

module _ {P : Type 0} where
  pub adopted :
      (s : System P) (s' : Session P)
      → IsServed s
      → s.session.epoch < s'.epoch
      → s'.epoch < 2 ^ 64
      → s'.operations ≡ some (length s.connections)
      → s'.canceled ≡ is_closed s'.state
      → IsServed (adopt s (s', normal))
  adopted s s' v g b o c =
      let (i, e, _) = v.serves in
      let new : Connection = record { epoch = s'.epoch; stopped = false } in
      let stopped = stop_at i s.connections in
      record {
        climbs = rw e (
            Climbs-append stopped s.session.epoch new
              (Climbs-stop_at i s.connections s.session.epoch v.climbs) g);
        serves = (
          length s.connections,
          o,
          rw e (omega (arith, length-append stopped (new ∷ []), length-stop_at i s.connections)),
        );
        bounded = b;
        positive = omega arith;
        canceled = c;
      }

  pub replace_connection-cases :
      (s : Session P) (c : ℕ) (p : P)
      → s.epoch < 2 ^ 64
      → let (s', code, epoch) = replace_connection s c p in
        ((code ≢ normal) × (s' ≡ s))
        ⊎ ((code ≡ normal)
            × (s' ≡ record s {
              epoch = s.epoch + 1;
              state = active;
              principal = p;
              operations = some c;
            })
            × (is_closed s.state ≡ false)
            × (s.epoch + 1 < 2 ^ 64))
  unfolding replace_connection
  replace_connection-cases s c p b = ground arith

  pub replace_connection_at-cases :
      (s : Session P) (c : ℕ) (p : P) (epoch : ℕ)
      → let (s', code) = replace_connection_at s c p epoch in
        ((code ≢ normal) × (s' ≡ s))
        ⊎ ((code ≡ normal)
            × (s' ≡ record s { epoch = epoch; state = active; principal = p; operations = some c })
            × (is_closed s.state ≡ false)
            × (s.epoch < epoch))
  unfolding replace_connection_at
  replace_connection_at-cases s c p epoch = ground arith

  pub adopt-refused :
      (s : System P) (s' : Session P) (code : Code) → code ≢ normal → adopt s (s', code) ≡ s
  adopt-refused s s' code h = ground arith

  pub suspend-IsServed : (s : System P) (i : ℕ) → IsServed s → IsServed (step s (suspends i))
  unfolding step suspend_if_current
  suspend-IsServed s i v = ground (
    arith,
    Climbs-stop_at i s.connections s.session.epoch v.climbs,
    length-stop_at i s.connections,
  )
