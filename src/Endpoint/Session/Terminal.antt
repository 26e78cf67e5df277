-- ===== src/Endpoint/Session/Terminal.antt =====
-- The end of a session, and what its guards let through.
use sgsp.Common.{
  ℕ, ◌%◌, ◌^◌, ◌==◌, ◌≡◌, refl, sym, ◌∙◌, arith, List, [], ◌∷◌, length, true, false, some, ◌⊎◌, inl,
  inr, Bool-cases,
}
use sgsp.Common.Int.{ℤ, exceeds}
use sgsp.Endpoint.Limits.{not_positive, within_both}
use sgsp.Endpoint.Session.{
  active, closed, Delivery, reliable_ordered, unreliable, unreliable_sequenced, Code, normal,
  session_expired, Session, is_closed, is_superseded, admitted, delivery_limit,
  outbound_message_limit, outbound_datagram_limit, send, close, close_remote, set_principal,
  suspend_if_current, replace_connection, replace_connection_at,
}
use sgsp.Endpoint.Session.Invariant.{
  System, Call, suspends, resumes, resumes_at, closes, closes_remotely, sets_principal, step, run,
}

-- A payload within one side's own limit and within the peer's, where the peer advertised one.
abbrev pub InBoth : ℕ → ℤ → ℤ → Type 0
InBoth n local peer =
    (exceeds n local ≡ false) × ((not_positive peer ≡ true) ⊎ (exceeds n peer ≡ false))

module _ {P : Type 0} where
  -- Two sessions that differ in nothing but the principal.
  abbrev pub SameLife : Session P → Session P → Type 0
  SameLife s t =
      (s.state ≡ t.state)
      × (s.epoch ≡ t.epoch)
      × (s.operations ≡ t.operations)
      × (s.terminal ≡ t.terminal)
      × (s.canceled ≡ t.canceled)

  expired :
      (s : Session P) (c : ℕ) (p : P) (e : ℕ)
      → s.state ≡ closed
      → (replace_connection s c p ≡ (s, session_expired, 0))
        × (replace_connection_at s c p e ≡ (s, session_expired))
  unfolding replace_connection replace_connection_at
  expired s c p e h = ground arith

  closed-step :
      (s : System P) (c : Call P) → s.session.state ≡ closed → SameLife s.session (step s c).session
  unfolding step
  closed-step s (suspends i) h = unfold suspend_if_current in ground arith
  closed-step s (resumes p) h =
      rw (expired s.session (length s.connections) p 0 h).0 (refl, refl, refl, refl, refl)
  closed-step s (resumes_at p e) h =
      rw (expired s.session (length s.connections) p (e % 2 ^ 64) h).1
        (refl, refl, refl, refl, refl)
  closed-step s (closes code) h = unfold close in ground arith
  closed-step s (closes_remotely code) h = unfold close_remote in ground arith
  closed-step s (sets_principal p) h = unfold set_principal in (refl, refl, refl, refl, refl)

  -- A closed session stays closed: whatever calls follow, its state, epoch, operations, terminal code
  -- and canceled context are what they were.
  pub closed-run :
      (s : System P) (cs : List (Call P))
      → s.session.state ≡ closed
      → SameLife s.session (run s cs).session
  unfolding run
  closed-run s [] h = (refl, refl, refl, refl, refl)
  closed-run s (c ∷ cs) h =
      let (a, b, d, e, f) = closed-step s c h in
      let (a', b', d', e', f') = closed-run (step s c) cs (sym a ∙ h) in
      (a ∙ a', b ∙ b', d ∙ d', e ∙ e', f ∙ f')

  -- A close of a session that is not closed, with any code but superseded, closes it under that code,
  -- cancels its context and reports the connection that must send the close; a second close of either
  -- kind changes nothing, and the peer's close does the same to the session as the own one.
  pub close_once :
      (s : Session P) (code code' : Code)
      → is_closed s.state ≡ false
      → is_superseded code ≡ false
      → let (t, answer, sender) = close s code in
        (t ≡ record s { state = closed; terminal = code; canceled = true })
        × (answer ≡ normal)
        × (sender ≡ s.operations)
        × (close_remote s code ≡ (t, true))
        × (close_remote t code' ≡ (t, false))
        × ((close t code').0 ≡ t)
  unfolding close close_remote
  close_once s code code' h k = ground arith

  abbrev pub Fitting : Session P → ℕ → Delivery → Type 0
  Fitting s n reliable_ordered = InBoth n s.limits.message_bytes s.peer_limits.message_bytes
  Fitting s n unreliable = InBoth n s.limits.datagram_bytes s.peer_limits.datagram_bytes
  Fitting s n unreliable_sequenced = InBoth n s.limits.datagram_bytes s.peer_limits.datagram_bytes

  fits :
      (s : Session P) (n : ℕ) (d : Delivery)
      → exceeds n (delivery_limit s d) ≡ false
      → Fitting s n d
  unfolding delivery_limit outbound_message_limit outbound_datagram_limit
  fits s n reliable_ordered h = within_both n _ _ h
  fits s n unreliable h = within_both n _ _ h
  fits s n unreliable_sequenced h = within_both n _ _ h

  -- Whatever a send lets through goes to the connection of an active session, with a message type,
  -- and within the limit of its delivery on both sides, as far as the peer advertised one.
  pub send_admitted :
      (s : Session P) (type bytes : ℕ) (d : Delivery) (code : Code) (c : ℕ)
      → send s type bytes d ≡ (code, some c)
      → (code ≡ normal)
        × (s.state ≡ active)
        × (s.operations ≡ some c)
        × ((type == 0) ≡ false)
        × Fitting s bytes d
  unfolding send admitted
  send_admitted s type bytes d code c h = elim (Bool-cases (type == 0)) [
    | inl t ↦ absurd (ground arith)
    | inr t ↦ elim (Bool-cases (exceeds bytes (delivery_limit s d))) [
      | inl x ↦ absurd (ground arith)
      | inr x ↦ (ground arith, ground arith, ground arith, t, fits s bytes d x)
    ]
  ]
