-- ===== src/Wire/Result.antt =====
-- The errors of internal/wire, and Go's (value, error) pair.
use sgsp.Common.{◌≡◌, refl, ◌⊎◌, inl, inr}

-- `extra_bytes` is the unnamed error of DecodeCustomStreamHeader; `eof` and `other` are what an
-- io.ByteReader returns. A wrapped error stands as the error that errors.Is finds.
pub data Error : Type 0 where
  truncated non_minimal value_too_large : Error
  invalid_control duplicate_key nesting : Error
  invalid_kind too_large malformed : Error
  extra_bytes : Error
  eof other : Error

-- Go returns the error last; the value counts only where the error is nil.
pub data Result {ℓ} (V : Type ℓ) : Type ℓ where
  err : Error → Result V
  ok : V → Result V

-- `if err != nil { return err }`
infixl 5 ◌>>=◌
abbrev pub ◌>>=◌ {ℓ κ} : {V : Type ℓ} {W : Type κ} → Result V → (V → Result W) → Result W
err x >>= next = err x
ok v >>= next = next v

-- The same behind a function that returns an error only.
infixl 5 ◌>>◌
abbrev pub ◌>>◌ {ℓ} : {W : Type ℓ} → Result (Unit {0}) → Result W → Result W
err x >> next = err x
ok _ >> next = next

pub Result-cases {ℓ} :
    {V : Type ℓ} (r : Result V) → ((v : V) × (r ≡ ok v)) ⊎ ((x : Error) × (r ≡ err x))
Result-cases (err x) = inr (x, refl)
Result-cases (ok v) = inl (v, refl)

-- A chain that succeeds has steps that succeed.
pub >>=-eq-ok {ℓ κ} :
    {V : Type ℓ} {W : Type κ} (r : Result V) (next : V → Result W) {w : W}
    → (r >>= next) ≡ ok w
    → (v : V) × (r ≡ ok v) × (next v ≡ ok w)
>>=-eq-ok (err x) next e = cc
>>=-eq-ok (ok v) next e = (v, refl, e)
