-- ===== src/Wire/Varint/Encode.antt =====
-- What AppendVarint writes, in plain arithmetic.
use sgsp.Common.{
  ℕ, ◌+◌, ◌/◌, ◌%◌, ◌^◌, ◌≤◌, ◌<◌, ◌≡◌, inl, inr, arith, List, [], ◌∷◌, ◌++◌, length, All, leb,
  Bool-cases,
}
use sgsp.Common.Bits.{tag_two, tag_four, tag_eight}
use sgsp.Wire.Result.{ok, err, value_too_large}
use sgsp.Wire.Varint.{IsByte, max_varint, varint_len, low_bytes, varint_bytes, append_varint}

-- The bytes that stand for `v`.
unfoldable pub encoding : ℕ → List ℕ
unfolding varint_len varint_bytes
encoding v = varint_bytes (varint_len v) v

-- The four ranges of VarintLen, and the numbers that have no encoding.
pub data Width (v : ℕ) : Type 0 where
  one : v ≤ 63 → varint_len v ≡ 1 → Width v
  two : 63 < v → v ≤ 16383 → varint_len v ≡ 2 → Width v
  four : 16383 < v → v ≤ 1073741823 → varint_len v ≡ 4 → Width v
  eight : 1073741823 < v → v ≤ max_varint → varint_len v ≡ 8 → Width v
  over : max_varint < v → varint_len v ≡ 0 → Width v

pub width : (v : ℕ) → Width v
unfolding varint_len
width v = elim (Bool-cases (leb v 63)) [
  | inl a ↦ one (ground arith) (ground arith)
  | inr a ↦ elim (Bool-cases (leb v 16383)) [
    | inl b ↦ two (ground arith) (ground arith) (ground arith)
    | inr b ↦ elim (Bool-cases (leb v 1073741823)) [
      | inl c ↦ four (ground arith) (ground arith) (ground arith)
      | inr c ↦ elim (Bool-cases (leb v max_varint)) [
        | inl d ↦ eight (ground arith) (ground arith) (ground arith)
        | inr d ↦ over (ground arith) (ground arith)
      ]
    ]
  ]
]

pub encoding_one : (v : ℕ) → v ≤ 63 → encoding v ≡ v ∷ []
unfolding encoding
encoding_one v h = ground arith

pub encoding_two : (v : ℕ) → 63 < v → v ≤ 16383 → encoding v ≡ (v / 256 + 64) ∷ v % 256 ∷ []
unfolding encoding
encoding_two v g h = ground (arith, tag_two (v / 256))

pub encoding_four :
    (v : ℕ)
    → 16383 < v
    → v ≤ 1073741823
    → encoding v ≡ (v / 2 ^ 24 + 128) ∷ v / 2 ^ 16 % 256 ∷ v / 2 ^ 8 % 256 ∷ v % 256 ∷ []
unfolding encoding
encoding_four v g h = ground (arith, tag_four (v / 2 ^ 24))

pub encoding_eight :
    (v : ℕ) → 1073741823 < v → v ≤ max_varint → encoding v ≡ (v / 2 ^ 56 + 192) ∷ low_bytes 7 v
unfolding encoding
encoding_eight v g h = ground (arith, tag_eight (v / 2 ^ 56))

-- Up to the maximum `dst` is kept and the encoding goes behind it; above, there is only the error.
pub append-encoding :
    (dst : List ℕ) (v : ℕ) → v ≤ max_varint → append_varint dst v ≡ ok (dst ++ encoding v)
unfolding append_varint encoding
append-encoding dst v h = ground arith

pub append_too_large :
    (dst : List ℕ) (v : ℕ) → max_varint < v → append_varint dst v ≡ err value_too_large
unfolding append_varint
append_too_large dst v h = ground arith

pub length-encoding : (v : ℕ) → v ≤ max_varint → length (encoding v) ≡ varint_len v
unfolding encoding
length-encoding v h = ground arith

pub varint_len_pos : (v : ℕ) → v ≤ max_varint → 1 ≤ varint_len v
unfolding varint_len
varint_len_pos v h = ground arith

pub varint_len-le-eight : (v : ℕ) → varint_len v ≤ 8
unfolding varint_len
varint_len-le-eight v = ground arith

pub encoding-IsByte : (v : ℕ) → v ≤ max_varint → All IsByte (encoding v)
encoding-IsByte v h = elim (width v) [
  | one b e ↦ rw (encoding_one v b) (omega arith)
  | two a b e ↦ rw (encoding_two v a b) (omega arith)
  | four a b e ↦ rw (encoding_four v a b) (omega arith)
  | eight a b e ↦ rw (encoding_eight v a b) (omega arith)
  | over a e ↦ absurd (omega arith)
]

pub append-inv :
    (dst : List ℕ) (v : ℕ) (b : List ℕ)
    → append_varint dst v ≡ ok b
    → (v ≤ max_varint) × (b ≡ dst ++ encoding v)
unfolding append_varint encoding
append-inv dst v b h = ground arith
