-- ===== src/Wire/Varint/Reader.antt =====
-- ReadVarint of internal/wire/varint.go. The io.ByteReader is a parameter: what a read returns, and
-- the reader after it.
use sgsp.Common.{
  sym, ap, ◌∙◌, ◌++◌, drop-append, ℕ, zero, suc, ◌-◌, ◌*◌, ◌/◌, ◌%◌, ◌^◌, ◌≤◌, ◌<◌, ◌≡◌, refl,
  subst, inl, inr, arith, List, [], ◌∷◌, length, drop, ltb, ◌==◌, not, if◌then◌else◌, bit_and,
  bit_or, Bool-cases,
}
use native.Mathlib.Nat.{one-le-pow}
use sgsp.Wire.Result.{Result, ok, err, Error, non_minimal, truncated, eof, ◌>>=◌}
use sgsp.Wire.Varint.Encode.{encoding, length-encoding}
use sgsp.Wire.Varint.Decode.{decode-encoding}
use sgsp.Wire.Varint.{max_varint, varint_len, join_bytes, decode_varint}

-- `errors.Is(err, io.EOF)` inside a number becomes ErrTruncated.
pub mid_read : Error → Error
mid_read eof = truncated
mid_read e = e

pow_pred : (k : ℕ) → suc (2 ^ k - 1) ≡ 2 ^ k
pow_pred k = omega (arith, one-le-pow k 2 (omega arith))

module _ {R : Type 0} (read_byte : R → Result (ℕ × R)) where
  pub read_loop : ℕ → ℕ → R → Result (ℕ × R)
  unfolding mid_read
  read_loop zero v r = ok (v, r)
  read_loop (suc k) v r = elim (read_byte r) [
    | ok (b, r') ↦ read_loop k (bit_or (v * 256 % 2 ^ 64) b) r'
    | err e ↦ err (mid_read e)
  ]

  unfoldable pub read_varint : R → Result (ℕ × R)
  unfolding varint_len read_loop
  read_varint r = do
    (first, rest) ← read_byte r
    let n = 2 ^ (first / 64)
    (v, rest') ← read_loop (n - 1) (bit_and first 0x3f) rest
    if not (varint_len v == n) then err non_minimal else ok (v, rest')

  -- The reader gives these bytes one after the other, and then io.EOF.
  abbrev pub Delivers : R → List ℕ → Type 0
  Delivers r [] = read_byte r ≡ err eof
  Delivers r (b ∷ bs) = (s : R) × (read_byte r ≡ ok (b, s)) × Delivers s bs

  read_loop-ok :
      (k v : ℕ) (r : R) (bs : List ℕ)
      → Delivers r bs
      → k ≤ length bs
      → (s : R) × (read_loop k v r ≡ ok (join_bytes k v bs, s)) × Delivers s (drop k bs)
  unfolding read_loop join_bytes
  read_loop-ok zero v r bs d h = (r, refl, d)
  read_loop-ok (suc k) v r [] d h = absurd (omega arith)
  read_loop-ok (suc k) v r (b ∷ bs) (s, e, d) h =
      let (t, f, d') = read_loop-ok k (bit_or (v * 256 % 2 ^ 64) b) s bs d (omega arith) in
      (t, rw (e, read_loop) f, d')

  read_loop_short :
      (k v : ℕ) (r : R) (bs : List ℕ)
      → Delivers r bs
      → length bs < k
      → read_loop k v r ≡ err truncated
  unfolding read_loop
  read_loop_short zero v r bs d h = absurd (omega arith)
  read_loop_short (suc k) v r [] d h = rw (d, read_loop, mid_read)
  read_loop_short (suc k) v r (b ∷ bs) (s, e, d) h =
      rw (e, read_loop) (read_loop_short k _ s bs d (omega arith))

  -- ReadVarint against DecodeVarint on the bytes that the reader delivers.
  abbrev pub Agrees : R → List ℕ → Result (ℕ × ℕ) → Type 0
  Agrees r bs (ok (v, n)) = (s : R) × (read_varint r ≡ ok (v, s)) × Delivers s (drop n bs)
  Agrees r bs (err e) = read_varint r ≡ err e

  -- Reading from a reader that delivers at least one byte answers as decoding those bytes does, and
  -- leaves the bytes behind the number.
  pub read-decode :
      (r : R) (b : ℕ) (bs : List ℕ)
      → Delivers r (b ∷ bs)
      → Agrees r (b ∷ bs) (decode_varint (b ∷ bs))
  unfolding read_varint decode_varint
  read-decode r b bs (s, e, d) = elim (Bool-cases (ltb (suc (length bs)) (2 ^ (b / 64)))) [
    | inl short ↦
        rw (short, e)
          (rw (read_loop_short (2 ^ (b / 64) - 1) (bit_and b 0x3f) s bs d (ground arith)))
    | inr long ↦
        let n = 2 ^ (b / 64) in
        let w = join_bytes (n - 1) (bit_and b 0x3f) bs in
        let (t, f, d') = read_loop-ok (n - 1) (bit_and b 0x3f) s bs d (ground arith) in
        elim (Bool-cases (varint_len w == n)) [
          | inl m ↦
              rw (long, m)
                (
                  t,
                  rw (e, f, m),
                  subst (λ (k : ℕ). Delivers t (drop k (b ∷ bs))) (pow_pred (b / 64)) d',
                )
          | inr m ↦ rw (long, m) (rw (e, f, m))
        ]
  ]

  pub read-decode_ok :
      (r : R) (src : List ℕ) (v n : ℕ)
      → Delivers r src
      → decode_varint src ≡ ok (v, n)
      → (s : R) × (read_varint r ≡ ok (v, s)) × Delivers s (drop n src)
  read-decode_ok r [] v n d e = unfold decode_varint in cc
  read-decode_ok r (b ∷ bs) v n d e = rw e at (read-decode r b bs d)

  pub read-encoding :
      (r : R) (v : ℕ) (rest : List ℕ)
      → v ≤ max_varint
      → Delivers r (encoding v ++ rest)
      → (s : R) × (read_varint r ≡ ok (v, s)) × Delivers s rest
  read-encoding r v rest h d =
      let (s, e, d') =
        read-decode_ok r (encoding v ++ rest) v (varint_len v) d (decode-encoding v rest h) in
      (
        s,
        e,
        subst (Delivers s)
            (ap (λ (n : ℕ). drop n (encoding v ++ rest)) (sym (length-encoding v h))
              ∙ drop-append (encoding v) rest)
            d',
      )
