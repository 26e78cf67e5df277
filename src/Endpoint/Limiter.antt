-- ===== src/Endpoint/Limiter.antt =====
-- handshake_limiter.go: the limit on the handshakes of one source address. The arithmetic on floats and
-- sourceIP, which reads an address, are parameters; a source is its text. Times are numbers of
-- nanoseconds, and a reading of the clock is an argument.
pub mod Bounded
mod Tests
use sgsp.Common.{
  ℕ, ◌+◌, leb, List, [], ◌∷◌, length, if◌then◌else◌, Bool, true, false, Option, none, some,
}
use sgsp.Common.Table.{lookup, assign_key}
use sgsp.Placement.Types.{String, same_text}

-- float64, with the operations and tests that the limiter uses.
pub record Floats : Type 1 where
  pub Float : Type 0
  pub min : Float → Float → Float
  pub add : Float → Float → Float
  pub multiply : Float → Float → Float
  pub minus_one : Float → Float
  pub seconds : ℕ → ℕ → Float
  pub above_zero : Float → Bool
  pub is_below_one : Float → Bool

abbrev pub max_handshake_sources : ℕ
max_handshake_sources = 4096

abbrev pub handshake_source_idle : ℕ
handshake_source_idle = 60_000_000_000

module _ (go : Floats) where
  pub record HandshakeBucket : Type 0 where
    pub tokens : go.Float
    pub seen : ℕ

  pub record HandshakeLimiter : Type 0 where
    pub rate : go.Float
    pub burst : go.Float
    pub sources : List (String × HandshakeBucket)

  -- `now.Sub(existing.seen) >= handshakeSourceIdle` goes.
  unfoldable pub forget_idle : ℕ → List (String × HandshakeBucket) → List (String × HandshakeBucket)
  forget_idle now [] = []
  forget_idle now ((source, bucket) ∷ rest) =
      let kept = forget_idle now rest in
      if leb (bucket.seen + handshake_source_idle) now then kept else (source, bucket) ∷ kept

  -- A known source's tokens, refilled for the time that passed.
  unfoldable pub refill : ℕ → HandshakeLimiter → HandshakeBucket → HandshakeBucket
  refill now l bucket =
      let elapsed = go.seconds now bucket.seen in
      record {
        tokens =
            if go.above_zero elapsed
            then go.min l.burst (go.add bucket.tokens (go.multiply elapsed l.rate))
            else bucket.tokens;
        seen = now;
      }

  -- The end of allow: the bucket is kept, less a token where there is one.
  unfoldable pub spend : String → HandshakeBucket → HandshakeLimiter → HandshakeLimiter × Bool
  spend source bucket l =
      if go.is_below_one bucket.tokens
      then (record l { sources = assign_key same_text source bucket l.sources }, false)
      else let less : HandshakeBucket = record bucket { tokens = go.minus_one bucket.tokens } in
        (record l { sources = assign_key same_text source less l.sources }, true)

  unfoldable pub allow : ℕ → String → HandshakeLimiter → HandshakeLimiter × Bool
  allow now source l = elim (lookup same_text source l.sources) [
    | some bucket ↦ spend source (refill now l bucket) l
    | none ↦
        let forgotten : HandshakeLimiter = record l { sources = forget_idle now l.sources } in
        if leb max_handshake_sources (length forgotten.sources)
        then (forgotten, false)
        else spend source (record { tokens = l.burst; seen = now }) forgotten
  ]
