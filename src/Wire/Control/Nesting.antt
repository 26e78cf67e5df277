-- ===== src/Wire/Control/Nesting.antt =====
-- The recursion over the tokens ends: each token takes some of the decoder's bytes.
use sgsp.Common.{
  ℕ, zero, suc, ◌+◌, ◌*◌, ◌≤◌, ◌<◌, ◌≡◌, refl, arith, ◌==◌, ltb, List, [], ◌∷◌, length,
  if◌then◌else◌, Bool, true, false, not, ◌&&◌, Option, none, some, inl, inr, Bool-cases,
}
use sgsp.Wire.Result.{invalid_control, nesting, Result, ok, err, Result-cases}
use sgsp.Wire.Control.Json.{
  String, Bytes, Token, object_starts, object_ends, array_starts, array_ends, str, scalar, Answer,
  next, eof, failed, Go, object_end, array_end, member_key, and_then, validate_value, members,
  elements,
}

-- What encoding/json documents of a decoder: it holds no more tokens than bytes, and Token takes one.
pub record Consumes (go : Go) : Type 0 where
  pub size : go.Decoder → ℕ
  pub starts : (raw : Bytes) → size (go.start raw) ≤ length raw
  pub takes : (d d' : go.Decoder) (t : Token) → go.token d ≡ next t d' → size d' < size d

module _ (go : Go) (c : Consumes go) where
  open go use {Decoder, token, more}
  open c use {size, takes}

  -- A result with fewer bytes left than `n`, or an error.
  abbrev Below : ℕ → Result Decoder → Type 0
  Below n (ok d) = size d < n
  Below n (err e) = Unit

  abbrev pub Ends : ℕ → Option (Result Decoder) → Type 0
  Ends n none = ⊥
  Ends n (some r) = Below n r

  Ends-mono : (m n : ℕ) (o : Option (Result Decoder)) → Ends m o → m ≤ n → Ends n o
  Ends-mono m n none h l = h
  Ends-mono m n (some (ok d)) h l = omega arith
  Ends-mono m n (some (err e)) h l = tt

  and_then-Ends :
      (m n : ℕ) (o : Option (Result Decoder)) (f : Decoder → Option (Result Decoder))
      → Ends m o
      → ((d : Decoder) → size d < m → Ends n (f d))
      → Ends n (and_then o f)
  and_then-Ends m n none f h k = absurd h
  and_then-Ends m n (some (ok d)) f h k = k d h
  and_then-Ends m n (some (err e)) f h k = tt

  object_end-Below :
      (d : Decoder) (a : Answer Decoder) → token d ≡ a → Below (size d) (object_end a)
  object_end-Below d (next object_ends d') e = takes d d' object_ends e
  object_end-Below d (next object_starts d') e = tt
  object_end-Below d (next array_starts d') e = tt
  object_end-Below d (next array_ends d') e = tt
  object_end-Below d (next (str s) d') e = tt
  object_end-Below d (next scalar d') e = tt
  object_end-Below d eof e = tt
  object_end-Below d failed e = tt

  array_end-Below : (d : Decoder) (a : Answer Decoder) → token d ≡ a → Below (size d) (array_end a)
  array_end-Below d (next array_ends d') e = takes d d' array_ends e
  array_end-Below d (next object_starts d') e = tt
  array_end-Below d (next array_starts d') e = tt
  array_end-Below d (next object_ends d') e = tt
  array_end-Below d (next (str s) d') e = tt
  array_end-Below d (next scalar d') e = tt
  array_end-Below d eof e = tt
  array_end-Below d failed e = tt

  -- A key that was read.
  member_key-takes :
      (d : Decoder) (seen : List String) (a : Answer Decoder) (k : String) (d' : Decoder)
      → token d ≡ a
      → member_key seen a ≡ ok (k, d')
      → size d' < size d
  member_key-takes d seen (next (str s) e) k d' h q =
      let t = takes d e (str s) h in ground (arith, t)
  member_key-takes d seen (next object_starts e) k d' h q = cc
  member_key-takes d seen (next object_ends e) k d' h q = cc
  member_key-takes d seen (next array_starts e) k d' h q = cc
  member_key-takes d seen (next array_ends e) k d' h q = cc
  member_key-takes d seen (next scalar e) k d' h q = cc
  member_key-takes d seen eof k d' h q = cc
  member_key-takes d seen failed k d' h q = cc

  closing-Ends :
      (n : ℕ) (d : Decoder) (root : Bool)
      → size d < n
      → Ends n (some (if root then err invalid_control else ok d))
  closing-Ends n d true h = tt
  closing-Ends n d false h = h

  -- What validateValue answers behind a token.
  behind-Ends :
      (fuel : ℕ)
      → ((d : Decoder) (depth : ℕ) → 2 * size d < fuel → Ends (size d) (members go fuel d depth []))
      → ((d : Decoder) (depth : ℕ)
          → 2 * size d + 1 < fuel
          → Ends (size d) (elements go fuel d depth))
      → (d : Decoder) (a : Answer Decoder) (depth : ℕ) (root : Bool) → token d ≡ a
      → 2 * size d < suc fuel
      → Ends (size d) (elim a [
        | eof ↦ some (err invalid_control)
        | failed ↦ some (err invalid_control)
        | next t d' ↦ elim t [
          | object_starts ↦
              if not root && depth == 8 then some (err nesting) else members go fuel d' depth []
          | array_starts ↦ if root then some (err invalid_control) else elements go fuel d' depth
          | object_ends ↦ some (if root then err invalid_control else ok d')
          | array_ends ↦ some (if root then err invalid_control else ok d')
          | str s ↦ some (if root then err invalid_control else ok d')
          | scalar ↦ some (if root then err invalid_control else ok d')
        ]
      ])
  behind-Ends fuel in_members in_elements d eof depth root e h = tt
  behind-Ends fuel in_members in_elements d failed depth root e h = tt
  behind-Ends fuel in_members in_elements d (next object_starts d') depth root e h =
      let t = takes d d' object_starts e in
      elim (Bool-cases (not root && depth == 8)) [
        | inl f ↦ rw f tt
        | inr f ↦ rw f (
            Ends-mono (size d') (size d) (members go fuel d' depth [])
              (in_members d' depth (omega arith)) (omega arith))
      ]
  behind-Ends fuel in_members in_elements d (next array_starts d') depth true e h = tt
  behind-Ends fuel in_members in_elements d (next array_starts d') depth false e h =
      let t = takes d d' array_starts e in
      Ends-mono (size d') (size d) (elements go fuel d' depth) (in_elements d' depth (omega arith))
        (omega arith)
  behind-Ends fuel in_members in_elements d (next object_ends d') depth root e h =
      closing-Ends (size d) d' root (takes d d' object_ends e)
  behind-Ends fuel in_members in_elements d (next array_ends d') depth root e h =
      closing-Ends (size d) d' root (takes d d' array_ends e)
  behind-Ends fuel in_members in_elements d (next (str s) d') depth root e h =
      closing-Ends (size d) d' root (takes d d' (str s) e)
  behind-Ends fuel in_members in_elements d (next scalar d') depth root e h =
      closing-Ends (size d) d' root (takes d d' scalar e)

  mutual
    unfolding validate_value members elements

    value-Ends :
        (fuel : ℕ) (d : Decoder) (depth : ℕ) (root : Bool)
        → 2 * size d < fuel
        → Ends (size d) (validate_value go fuel d depth root)
    value-Ends zero d depth root h = absurd (omega arith)
    value-Ends (suc fuel) d depth root h = elim (Bool-cases (ltb 8 depth)) [
      | inl e ↦ rw e tt
      | inr e ↦ rw e (
          behind-Ends fuel (λ d' n. members-Ends fuel d' n []) (elements-Ends fuel) d (token d)
            depth root refl h)
    ]

    members-Ends :
        (fuel : ℕ) (d : Decoder) (depth : ℕ) (seen : List String)
        → 2 * size d < fuel
        → Ends (size d) (members go fuel d depth seen)
    members-Ends zero d depth seen h = absurd (omega arith)
    members-Ends (suc fuel) d depth seen h = elim (Bool-cases (more d)) [
      | inr e ↦ rw e (object_end-Below d (token d) refl)
      | inl e ↦ elim (Result-cases (member_key seen (token d))) [
        | inr (x, f) ↦ rw (e, f) tt
        | inl ((k, d1), f) ↦
            let t = member_key-takes d seen (token d) k d1 refl f in
            rw (e, f)
              (and_then-Ends (size d1) (size d) (validate_value go fuel d1 (depth + 1) false)
                (λ d2. members go fuel d2 depth (k ∷ seen))
                (value-Ends fuel d1 (depth + 1) false (omega arith))
                (λ d2 l.
                  Ends-mono (size d2) (size d) (members go fuel d2 depth (k ∷ seen))
                    (members-Ends fuel d2 depth (k ∷ seen) (omega arith)) (omega arith)))
      ]
    ]

    elements-Ends :
        (fuel : ℕ) (d : Decoder) (depth : ℕ)
        → 2 * size d + 1 < fuel
        → Ends (size d) (elements go fuel d depth)
    elements-Ends zero d depth h = absurd (omega arith)
    elements-Ends (suc fuel) d depth h = elim (Bool-cases (more d)) [
      | inr e ↦ rw e (array_end-Below d (token d) refl)
      | inl e ↦ rw e (
          and_then-Ends (size d) (size d) (validate_value go fuel d (depth + 1) false)
            (λ d2. elements go fuel d2 depth) (value-Ends fuel d (depth + 1) false (omega arith))
            (λ d2 l.
              Ends-mono (size d2) (size d) (elements go fuel d2 depth)
                (elements-Ends fuel d2 depth (omega arith)) (omega arith)))
    ]

  answered : (n : ℕ) (o : Option (Result Decoder)) → Ends n o → (r : Result Decoder) × (o ≡ some r)
  answered n none h = absurd h
  answered n (some r) h = (r, refl)

  -- The check of a message's tokens ends within the fuel that it is given, twice the number of the
  -- message's bytes and one, with a verdict.
  pub validate_value-Ends :
      (raw : Bytes) (depth : ℕ) (root : Bool)
      → (r : Result Decoder) × (validate_value go (2 * length raw + 1) (go.start raw) depth root
          ≡ some r)
  validate_value-Ends raw depth root =
      answered _ _
        (value-Ends (2 * length raw + 1) (go.start raw) depth root (omega (arith, c.starts raw)))
