-- ===== src/Endpoint/Charges/Accounting.antt =====
-- The ledgers of a session over any sequence of reservations and releases.
use sgsp.Common.{
  ℕ, ◌+◌, ◌≡◌, refl, subst, arith, List, ◌∷◌, get_elem?, set, Bool, true, false, Option, none, some,
  inl, inr, Option-cases,
}
use native.Mathlib.Nat.{zero-add}
use sgsp.Common.Int.{ℤ, pos, negsuc}
use sgsp.Runtime.Budget.{Budget, acquire}
use sgsp.Endpoint.Charges.{
  Ledgers, Side, from_ordinary, from_reply, Charge, acquire?, reserve_application,
  reserve_directional_bytes, reserve_reply_directional_bytes, reserve_ordinary_first, reserve_reply,
  release_charge, ◌>>=◌,
}
use sgsp.Endpoint.Charges.Ledger.{
  Holds, AtLeast, charged, held, held_all, held-set, acquire?-Holds, acquire?-AtLeast,
  release?-Holds, release?-AtLeast,
}
use sgsp.Endpoint.Charges.Sessions.{
  System, IsSound, Call, reserves, reserves_reply, releases, others_hold, keep, others, release_at,
  step, IsFine,
}

abbrev of : Side → ℕ → Bool → Charge
of side n d = record { side = side; bytes = n; done = d }

-- A charge that is released counts for nothing.
spent : (side : Side) (n : ℕ) (t : Side) → charged t (of side n true) ≡ 0
spent from_ordinary n from_ordinary = refl
spent from_ordinary n from_reply = refl
spent from_reply n from_ordinary = refl
spent from_reply n from_reply = refl

others-AtLeast : (m : Option Budget) (mine n : ℕ) → AtLeast m mine → AtLeast (others m mine n) mine
unfolding others
others-AtLeast none mine n h = tt
others-AtLeast (some b) mine n h = ground arith

module _ (co cr : ℕ) where
  -- With the direction's ledger charged, the endpoint's is charged too or the first is given back.
  application-IsFine :
      (l : Ledgers) (cs : List Charge) (side : Side) (n : ℕ)
      → Holds co l.ordinary
          (held from_ordinary (record { side = side; bytes = n; done = false } ∷ cs))
      → Holds cr l.reply (held from_reply (record { side = side; bytes = n; done = false } ∷ cs))
      → AtLeast l.application (held_all cs)
      → IsFine co cr (reserve_application l side n >>= λ r. some (keep cs r))
  unfolding reserve_application
  application-IsFine l cs from_ordinary n o r a =
      elim (acquire?-AtLeast l.application (held_all cs) n a) [
        | inl e ↦
            let (m, q, h) = release?-Holds co l.ordinary (held from_ordinary cs) n o in
            rw (e, q) (record { ordinary = h; reply = rw zero-add at r; application = a })
        | inr (e, h) ↦ rw e (record {
          ordinary = o;
          reply = r;
          application = subst (AtLeast (acquire? l.application n).0) (omega arith) h;
        })
      ]
  application-IsFine l cs from_reply n o r a =
      elim (acquire?-AtLeast l.application (held_all cs) n a) [
        | inl e ↦
            let (m, q, h) = release?-Holds cr l.reply (held from_reply cs) n r in
            rw (e, q) (record { ordinary = rw zero-add at o; reply = h; application = a })
        | inr (e, h) ↦ rw e (record {
          ordinary = o;
          reply = r;
          application = subst (AtLeast (acquire? l.application n).0) (omega arith) h;
        })
      ]

  reserves-IsFine : (s : System) (n : ℤ) → IsSound co cr s → IsFine co cr (step s (reserves n))
  unfolding step reserve_directional_bytes
  reserves-IsFine s (negsuc n) v = v
  reserves-IsFine s (pos n) v =
      elim (acquire?-Holds co s.ledgers.ordinary (held from_ordinary s.charges) n v.ordinary) [
        | inl e ↦ rw e v
        | inr (e, h) ↦ rw e (
            application-IsFine (record (s.ledgers) { ordinary = (acquire? s.ledgers.ordinary n).0 })
              s.charges from_ordinary n h (rw zero-add v.reply) v.application)
      ]

  reply-IsFine :
      (l : Ledgers) (cs : List Charge) (n : ℕ)
      → IsSound co cr (record { ledgers = l; charges = cs })
      → IsFine co cr (reserve_reply l n >>= λ r. some (keep cs r))
  unfolding reserve_reply
  reply-IsFine l cs n v = elim (acquire?-Holds cr l.reply (held from_reply cs) n v.reply) [
    | inl e ↦ rw e v
    | inr (e, h) ↦ rw e (
        application-IsFine (record l { reply = (acquire? l.reply n).0 }) cs from_reply n
          (rw zero-add v.ordinary) h v.application)
  ]

  ordinary_first-IsFine :
      (b : Option Budget) (l : Ledgers) (cs : List Charge) (n : ℕ)
      → l.ordinary ≡ b
      → IsSound co cr (record { ledgers = l; charges = cs })
      → IsFine co cr (reserve_ordinary_first b l n >>= λ r. some (keep cs r))
  unfolding reserve_ordinary_first acquire?
  ordinary_first-IsFine none l cs n e v = reply-IsFine l cs n v
  ordinary_first-IsFine (some b) l cs n e v =
      elim (acquire?-Holds co (some b) (held from_ordinary cs) n (rw e at (v.ordinary))) [
        | inl f ↦ rw f (reply-IsFine l cs n v)
        | inr (f, h) ↦ rw f (
            application-IsFine (record l { ordinary = some (acquire b (pos n)).0 }) cs from_ordinary
              n h (rw zero-add v.reply) v.application)
      ]

  reserves_reply-IsFine :
      (s : System) (n : ℤ) → IsSound co cr s → IsFine co cr (step s (reserves_reply n))
  unfolding step reserve_reply_directional_bytes
  reserves_reply-IsFine s (negsuc n) v = v
  reserves_reply-IsFine s (pos n) v =
      ordinary_first-IsFine s.ledgers.ordinary s.ledgers s.charges n refl v

  -- A charge that is held is released by both of its ledgers.
  released :
      (side : Side) (l : Ledgers) (cs : List Charge) (f : Charge → List Charge) (n : ℕ)
      → held from_ordinary cs
        ≡ charged from_ordinary (of side n false) + held from_ordinary (f (of side n true))
      → held from_reply cs
        ≡ charged from_reply (of side n false) + held from_reply (f (of side n true))
      → IsSound co cr (record { ledgers = l; charges = cs })
      → IsFine co cr (
          release_charge l (of side n false) >>= λ r.
          some (record { ledgers = r.0; charges = f r.1 }))
  unfolding release_charge
  released from_ordinary l cs f n o r v =
      let (a, p, h) =
        release?-AtLeast l.application (held_all (f (of from_ordinary n true))) n
          (subst (AtLeast l.application) (omega arith) v.application) in
      let (m, q, k) =
        release?-Holds co l.ordinary (held from_ordinary (f (of from_ordinary n true))) n
          (rw o at (v.ordinary)) in
      rw (p, q)
        (record {
          ordinary = k;
          reply = subst (Holds cr l.reply) (omega arith) v.reply;
          application = h;
        })
  released from_reply l cs f n o r v =
      let (a, p, h) =
        release?-AtLeast l.application (held_all (f (of from_reply n true))) n
          (subst (AtLeast l.application) (omega arith) v.application) in
      let (m, q, k) =
        release?-Holds cr l.reply (held from_reply (f (of from_reply n true))) n
          (rw r at (v.reply)) in
      rw (p, q)
        (record {
          ordinary = subst (Holds co l.ordinary) (omega arith) v.ordinary;
          reply = k;
          application = h;
        })

  others-IsFine : (s : System) (n : ℕ) → IsSound co cr s → IsFine co cr (step s (others_hold n))
  unfolding step
  others-IsFine s n v = record {
    ordinary = v.ordinary;
    reply = v.reply;
    application = others-AtLeast s.ledgers.application (held_all s.charges) n v.application;
  }

  release-IsFine :
      (s : System) (i : ℕ) (side : Side) (n : ℕ) (d : Bool)
      → get_elem? s.charges i ≡ some (of side n d)
      → IsSound co cr s
      → IsFine co cr (
          release_charge s.ledgers (of side n d) >>= λ r.
          some (record { ledgers = r.0; charges = set s.charges i r.1 }))
  unfolding release_charge
  release-IsFine s i side n true g v =
      let c = of side n true in
      record {
        ordinary =
            subst (Holds co s.ledgers.ordinary)
              (omega (arith, held-set from_ordinary s.charges i c c g)) v.ordinary;
        reply =
            subst (Holds cr s.ledgers.reply) (omega (arith, held-set from_reply s.charges i c c g))
              v.reply;
        application =
            subst (AtLeast s.ledgers.application)
              (omega (
                arith,
                held-set from_ordinary s.charges i c c g,
                held-set from_reply s.charges i c c g,
              ))
              v.application;
      }
  release-IsFine s i side n false g v =
      released side s.ledgers s.charges (set s.charges i) n
        (omega (arith, set_lem from_ordinary, spent side n from_ordinary))
        (omega (arith, set_lem from_reply, spent side n from_reply)) v
    where
      set_lem :
          (t : Side)
          → held t (set s.charges i (of side n true)) + charged t (of side n false)
            ≡ held t s.charges + charged t (of side n true)
      set_lem t = held-set t s.charges i (of side n false) (of side n true) g

  -- From every sound state no operation panics, and the state stays sound: each of the direction's
  -- ledgers stands at exactly the bytes of the charges still held on it, and the endpoint's at no less
  -- than all of them, none above its maximum.
  pub step-IsFine : (s : System) (c : Call) → IsSound co cr s → IsFine co cr (step s c)
  step-IsFine s (reserves n) v = reserves-IsFine s n v
  step-IsFine s (reserves_reply n) v = reserves_reply-IsFine s n v
  step-IsFine s (releases i) v = elim (Option-cases (get_elem? s.charges i)) [
    | inl e ↦ unfold step in rw (e, release_at) v
    | inr (c, e) ↦ unfold step in rw (e, release_at) (release-IsFine s i c.side c.bytes c.done e v)
  ]
  step-IsFine s (others_hold n) v = others-IsFine s n v
