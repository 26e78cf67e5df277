-- ===== src/Wire/Varint/Decode.antt =====
-- DecodeVarint on encodings and on any input.
use sgsp.Common.{
  ℕ, suc, ◌+◌, ◌-◌, ◌*◌, ◌/◌, ◌%◌, ◌^◌, ◌≤◌, ◌<◌, ◌≡◌, refl, ap, ◌∙◌, arith, List, [], ◌∷◌, ◌++◌,
  length, All, ◌==◌, not, if◌then◌else◌, bit_or,
}
use sgsp.Common.Bits.{low_six, join_byte}
use sgsp.Wire.Result.{Result, ok, err, non_minimal}
use sgsp.Wire.Varint.{IsByte, max_varint, varint_len, join_bytes, decode_varint}
use sgsp.Wire.Varint.Encode.{
  encoding, one, two, four, eight, over, width, encoding_one, encoding_two, encoding_four,
  encoding_eight,
}

-- The check of minimality, on a value that was read from `n` bytes.
abbrev pub minimal : ℕ → ℕ → Result (ℕ × ℕ)
minimal n v = if not (varint_len v == n) then err non_minimal else ok (v, n)

join_step :
    (k v b : ℕ) (bs : List ℕ)
    → v < 2 ^ 54
    → b < 256
    → join_bytes (suc k) v (b ∷ bs) ≡ join_bytes k (v * 256 + b) bs
unfolding join_bytes
join_step k v b bs h g =
    ap (λ (t : ℕ). join_bytes k (bit_or t b) bs) (omega arith)
    ∙ ap (λ (t : ℕ). join_bytes k t bs) (join_byte v b g)

pub join_end : (v : ℕ) (bs : List ℕ) → join_bytes 0 v bs ≡ v
unfolding join_bytes
join_end v bs = refl

pub join_one : (v b : ℕ) (r : List ℕ) → v < 64 → b < 256 → join_bytes 1 v (b ∷ r) ≡ v * 256 + b
join_one v b r h g = join_step 0 v b r (omega arith) g ∙ join_end _ r

pub join_three :
    (v b c d : ℕ) (r : List ℕ)
    → v < 64
    → All IsByte (b ∷ c ∷ d ∷ [])
    → join_bytes 3 v (b ∷ c ∷ d ∷ r) ≡ ((v * 256 + b) * 256 + c) * 256 + d
join_three v b c d r h g =
    join_step 2 v b _ (omega arith) (omega arith)
    ∙ join_step 1 _ c _ (omega arith) (omega arith)
    ∙ join_step 0 _ d r (omega arith) (omega arith)
    ∙ join_end _ r

pub join_seven :
    (v b c d e f g i : ℕ) (r : List ℕ)
    → v < 64
    → All IsByte (b ∷ c ∷ d ∷ e ∷ f ∷ g ∷ i ∷ [])
    → join_bytes 7 v (b ∷ c ∷ d ∷ e ∷ f ∷ g ∷ i ∷ r)
      ≡ ((((((v * 256 + b) * 256 + c) * 256 + d) * 256 + e) * 256 + f) * 256 + g) * 256 + i
join_seven v b c d e f g i r h k =
    join_step 6 v b _ (omega arith) (omega arith)
    ∙ join_step 5 _ c _ (omega arith) (omega arith)
    ∙ join_step 4 _ d _ (omega arith) (omega arith)
    ∙ join_step 3 _ e _ (omega arith) (omega arith)
    ∙ join_step 2 _ f _ (omega arith) (omega arith)
    ∙ join_step 1 _ g _ (omega arith) (omega arith)
    ∙ join_step 0 _ i r (omega arith) (omega arith)
    ∙ join_end _ r

-- With enough bytes at hand the value is joined and checked.
pub decode_head :
    (b t a : ℕ) (r : List ℕ)
    → b < 256
    → b / 64 ≡ t
    → b % 64 ≡ a
    → 2 ^ t ≤ suc (length r)
    → decode_varint (b ∷ r) ≡ minimal (2 ^ t) (join_bytes (2 ^ t - 1) a r)
unfolding decode_varint
decode_head b t a r h e m l = rw (e, low_six b h, m) (ground arith)

decode_head_one : (b : ℕ) (r : List ℕ) → b < 64 → decode_varint (b ∷ r) ≡ minimal 1 b
decode_head_one b r h =
    decode_head b 0 b r (omega arith) (omega arith) (omega arith) (omega arith)
    ∙ ap (minimal 1) (join_end b r)

decode_head_two :
    (b c : ℕ) (r : List ℕ)
    → b < 64
    → c < 256
    → decode_varint ((b + 64) ∷ c ∷ r) ≡ minimal 2 (b * 256 + c)
decode_head_two b c r h g =
    decode_head (b + 64) 1 b _ (omega arith) (omega arith) (omega arith) (omega arith)
    ∙ ap (minimal 2) (join_one b c r h g)

decode_head_four :
    (a b c d : ℕ) (r : List ℕ)
    → a < 64
    → All IsByte (b ∷ c ∷ d ∷ [])
    → decode_varint ((a + 128) ∷ b ∷ c ∷ d ∷ r) ≡ minimal 4 (((a * 256 + b) * 256 + c) * 256 + d)
decode_head_four a b c d r h g =
    decode_head (a + 128) 2 a _ (omega arith) (omega arith) (omega arith) (omega arith)
    ∙ ap (minimal 4) (join_three a b c d r h g)

decode_head_eight :
    (a b c d e f g i : ℕ) (r : List ℕ)
    → a < 64
    → All IsByte (b ∷ c ∷ d ∷ e ∷ f ∷ g ∷ i ∷ [])
    → decode_varint ((a + 192) ∷ b ∷ c ∷ d ∷ e ∷ f ∷ g ∷ i ∷ r)
      ≡ minimal 8
          (((((((a * 256 + b) * 256 + c) * 256 + d) * 256 + e) * 256 + f) * 256 + g) * 256 + i)
decode_head_eight a b c d e f g i r h k =
    decode_head (a + 192) 3 a _ (omega arith) (omega arith) (omega arith) (omega arith)
    ∙ ap (minimal 8) (join_seven a b c d e f g i r h k)

minimal-ok : (n v : ℕ) → varint_len v ≡ n → minimal n v ≡ ok (v, n)
minimal-ok n v e = ground arith

-- Every encodable number is read back from its encoding, whatever follows.
pub decode-encoding :
    (v : ℕ) (rest : List ℕ)
    → v ≤ max_varint
    → decode_varint (encoding v ++ rest) ≡ ok (v, varint_len v)
decode-encoding v rest h = elim (width v) [
  | one b e ↦ rw (encoding_one v b, e) (decode_head_one v rest (omega arith) ∙ minimal-ok 1 v e)
  | two a b e ↦
      rw (encoding_two v a b, e)
        (decode_head_two (v / 256) (v % 256) rest (omega arith) (omega arith)
          ∙ ap (minimal 2) (omega arith)
          ∙ minimal-ok 2 v e)
  | four a b e ↦
      rw (encoding_four v a b, e)
        (decode_head_four (v / 2 ^ 24) _ _ _ rest (omega arith) (omega arith)
          ∙ ap (minimal 4) (omega arith)
          ∙ minimal-ok 4 v e)
  | eight a b e ↦
      rw (encoding_eight v a b, e)
        (decode_head_eight (v / 2 ^ 56) _ _ _ _ _ _ _ rest (omega arith) (omega arith)
          ∙ ap (minimal 8) (omega arith)
          ∙ minimal-ok 8 v e)
  | over a e ↦ absurd (omega arith)
]
