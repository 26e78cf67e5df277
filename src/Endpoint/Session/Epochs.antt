-- ===== src/Endpoint/Session/Epochs.antt =====
-- The epochs of a session: they grow with each connection, and an older connection stays out.
use sgsp.Common.{
  ℕ, ◌+◌, ◌%◌, ◌^◌, ◌==◌, ◌≤◌, ◌<◌, ◌≡◌, ◌≢◌, refl, ap, ◌∙◌, arith, List, [], ◌∷◌, length,
  length-append, false, some, ◌⊎◌, inl, inr, Option-cases,
}
use sgsp.Endpoint.Session.{
  active, Code, normal, Session, Connection, is_closed, close, close_remote, set_principal,
  suspend_if_current, is_current, replace_connection, replace_connection_at,
}
use sgsp.Endpoint.Session.Invariant.{
  System, Call, suspends, resumes, resumes_at, closes, closes_remotely, sets_principal, stop_at,
  adopt, step, run, length-stop_at, IsServed, adopted, replace_connection-cases,
  replace_connection_at-cases, adopt-refused, suspend-IsServed,
}

module _ {P : Type 0} where
  -- A replacement, taken through `adopt`.
  resumed-IsServed :
      (s : System P) (s' : Session P) (code : Code) (p : P) (epoch : ℕ)
      → IsServed s
      → ((code ≢ normal) × (s' ≡ s.session))
        ⊎ ((code ≡ normal)
            × (s' ≡ record (s.session) {
              epoch = epoch;
              state = active;
              principal = p;
              operations = some (length s.connections);
            })
            × (is_closed s.session.state ≡ false)
            × (s.session.epoch < epoch)
            × (epoch < 2 ^ 64))
      → IsServed (adopt s (s', code))
  resumed-IsServed s s' code p epoch v (inl (h, e)) = rw (adopt-refused s s' code h) v
  resumed-IsServed s s' code p epoch v (inr (h, e, o, g, b)) =
      let new : Session P = record (s.session) {
        epoch = epoch;
        state = active;
        principal = p;
        operations = some (length s.connections);
      } in
      rw (h, e) (adopted s new v g b refl (v.canceled ∙ o))

  -- Every call on a session that serves its newest connection, under epochs that grow with each one,
  -- leaves such a session.
  pub step-IsServed : (s : System P) (c : Call P) → IsServed s → IsServed (step s c)
  step-IsServed s (suspends i) v = suspend-IsServed s i v
  step-IsServed s (resumes p) v =
      unfold step in
      let (s', code, _) = replace_connection s.session (length s.connections) p in
      resumed-IsServed s s' code p (s.session.epoch + 1) v
        (elim (replace_connection-cases s.session (length s.connections) p v.bounded) [
          | inl h ↦ inl h
          | inr (h, e, o, b) ↦ inr (h, e, o, omega arith, b)
        ])
  step-IsServed s (resumes_at p epoch) v =
      unfold step in
      let at = epoch % 2 ^ 64 in
      let (s', code) = replace_connection_at s.session (length s.connections) p at in
      resumed-IsServed s s' code p at v
        (elim (replace_connection_at-cases s.session (length s.connections) p at) [
          | inl h ↦ inl h
          | inr (h, e, o, g) ↦ inr (h, e, o, g, omega arith)
        ])
  step-IsServed s (closes code) v = unfold step close in ground arith
  step-IsServed s (closes_remotely code) v = unfold step close_remote in ground arith
  step-IsServed s (sets_principal p) v =
      unfold step set_principal in
      record {
        climbs = v.climbs;
        serves = v.serves;
        bounded = v.bounded;
        positive = v.positive;
        canceled = v.canceled;
      }

  pub run-IsServed : (s : System P) (cs : List (Call P)) → IsServed s → IsServed (run s cs)
  unfolding run
  run-IsServed s [] v = v
  run-IsServed s (c ∷ cs) v = run-IsServed (step s c) cs (step-IsServed s c v)

  -- A step forgets no connection, and no epoch is taken back.
  Grows : System P → System P → Type 0
  Grows s t = (length s.connections ≤ length t.connections) × (s.session.epoch ≤ t.session.epoch)

  length-adopt :
      (s : System P) (s' : Session P)
      → length (adopt s (s', normal)).connections ≡ length s.connections + 1
  length-adopt s s' = elim (Option-cases s.session.operations) [
    | inl e ↦ rw e (length-append s.connections (record { epoch = s'.epoch; stopped = false } ∷ []))
    | inr (i, e) ↦ rw e (
        length-append (stop_at i s.connections) (record { epoch = s'.epoch; stopped = false } ∷ [])
        ∙ ap (λ (n : ℕ). n + 1) (length-stop_at i s.connections))
  ]

  adopt-Grows :
      (s : System P) (s' : Session P) (code : Code)
      → (code ≢ normal) ⊎ ((code ≡ normal) × (s.session.epoch ≤ s'.epoch))
      → Grows s (adopt s (s', code))
  unfolding Grows
  adopt-Grows s s' code (inl h) = rw (adopt-refused s s' code h) (omega arith, omega arith)
  adopt-Grows s s' code (inr (h, g)) = rw h (omega (arith, length-adopt s s'), g)

  step-Grows : (s : System P) (c : Call P) → IsServed s → Grows s (step s c)
  unfolding step Grows
  step-Grows s (suspends i) v =
      unfold suspend_if_current in ground (arith, length-stop_at i s.connections)
  step-Grows s (resumes p) v =
      adopt-Grows s _ _
        (elim (replace_connection-cases s.session (length s.connections) p v.bounded) [
          | inl (h, e) ↦ inl h
          | inr (h, e, o, b) ↦ inr (h, rw e (omega arith))
        ])
  step-Grows s (resumes_at p epoch) v =
      adopt-Grows s _ _
        (elim (replace_connection_at-cases s.session (length s.connections) p (epoch % 2 ^ 64)) [
          | inl (h, e) ↦ inl h
          | inr (h, e, o, g) ↦ inr (h, rw e (omega arith))
        ])
  step-Grows s (closes code) v = unfold close in ground arith
  step-Grows s (closes_remotely code) v = unfold close_remote in ground arith
  step-Grows s (sets_principal p) v = unfold set_principal in (omega arith, omega arith)

  run-Grows : (s : System P) (cs : List (Call P)) → IsServed s → Grows s (run s cs)
  unfolding run Grows
  run-Grows s [] v = (omega arith, omega arith)
  run-Grows s (c ∷ cs) v =
      omega (arith, step-Grows s c v, run-Grows (step s c) cs (step-IsServed s c v))

  -- A connection that another one took over from stays out for good: whatever calls follow, it is
  -- not the current one, its end does not suspend the session, and the epoch is never taken back.
  pub superseded :
      (s : System P) (cs : List (Call P)) (i : ℕ) (k : Connection)
      → IsServed s
      → i + 1 < length s.connections
      → let t = (run s cs).session in
        (is_current t i k ≡ false)
        × (suspend_if_current t i ≡ (t, false))
        × (s.session.epoch ≤ t.epoch)
  unfolding Grows is_current suspend_if_current
  superseded s cs i k v h =
      let (c, e, n) = (run-IsServed s cs v).serves in
      let (l, g) = run-Grows s cs v in
      let apart : (c == i) ≡ false = ground arith in (rw (e, apart) refl, rw (e, apart) refl, g)
