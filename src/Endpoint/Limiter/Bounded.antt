-- ===== src/Endpoint/Limiter/Bounded.antt =====
-- handshake_limiter.go: how many sources a limiter keeps.
use sgsp.Common.{
  ℕ, ◌+◌, ◌≤◌, ◌≡◌, ◌∙◌, arith, leb, List, [], ◌∷◌, length, Option, none, some, inl, inr,
  Bool-cases, Option-cases,
}
use sgsp.Common.Table.{lookup, length-assign_key}
use sgsp.Placement.Types.{String, same_text}
use sgsp.Endpoint.Limiter.{
  Floats, max_handshake_sources, HandshakeBucket, HandshakeLimiter, forget_idle, refill, spend,
  allow,
}

module _ (go : Floats) where
  -- A limiter over the handshakes that come, each with its time.
  unfoldable pub allow_all : List (ℕ × String) → HandshakeLimiter go → HandshakeLimiter go
  allow_all [] l = l
  allow_all ((now, source) ∷ rest) l = allow_all rest (allow go now source l).0

  length-forget_idle :
      (now : ℕ) (ts : List (String × HandshakeBucket go))
      → length (forget_idle go now ts) ≤ length ts
  unfolding forget_idle
  length-forget_idle now [] = omega arith
  length-forget_idle now ((source, bucket) ∷ rest) = ground (arith, length-forget_idle now rest)

  length-spend :
      (source : String) (bucket : HandshakeBucket go) (l : HandshakeLimiter go)
      → length (spend go source bucket l).0.sources
        ≡ length l.sources + (elim (lookup same_text source l.sources) [ none ↦ 1 | some w ↦ 0 ])
  unfolding spend
  length-spend source bucket l = elim (Bool-cases (go.is_below_one bucket.tokens)) [
    | inl b ↦ rw (b, spend) (length-assign_key same_text source bucket l.sources)
    | inr b ↦ rw (b, spend) (length-assign_key same_text source _ l.sources)
  ]

  at_most_one : (o : Option (HandshakeBucket go)) → (elim o [ none ↦ 1 | some w ↦ 0 ]) ≤ 1
  at_most_one none = omega arith
  at_most_one (some w) = omega arith

  allow-IsBounded :
      (now : ℕ) (source : String) (l : HandshakeLimiter go)
      → length l.sources ≤ max_handshake_sources
      → length (allow go now source l).0.sources ≤ max_handshake_sources
  unfolding allow
  allow-IsBounded now source l h = elim (Option-cases (lookup same_text source l.sources)) [
    | inr (bucket, e) ↦
        let same : length (spend go source (refill go now l bucket) l).0.sources
            ≡ length l.sources =
          length-spend source (refill go now l bucket) l ∙ rw e (omega arith) in
        rw (e, allow) (omega (arith, same))
    | inl e ↦
        let forgotten : HandshakeLimiter go = record l { sources = forget_idle go now l.sources } in
        let new : HandshakeBucket go = record { tokens = l.burst; seen = now } in
        elim (Bool-cases (leb max_handshake_sources (length forgotten.sources))) [
          | inl f ↦ rw (e, f, allow) (omega (arith, length-forget_idle now l.sources))
          | inr f ↦
              rw (e, f, allow)
                (ground (
                  arith,
                  length-spend source new forgotten,
                  at_most_one (lookup same_text source forgotten.sources),
                ))
        ]
  ]

  -- Whatever handshakes come, from whatever sources and whenever, a limiter that keeps no more than 4096
  -- sources keeps no more than those.
  pub allow_all-bounded :
      (handshakes : List (ℕ × String)) (l : HandshakeLimiter go)
      → length l.sources ≤ max_handshake_sources
      → length (allow_all handshakes l).sources ≤ max_handshake_sources
  unfolding allow_all
  allow_all-bounded [] l h = h
  allow_all-bounded ((now, source) ∷ rest) l h =
      allow_all-bounded rest (allow go now source l).0 (allow-IsBounded now source l h)
