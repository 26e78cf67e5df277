-- ===== src/Wire/Request/Responses.antt =====
-- EncodeResponse, DecodeResponse and ReadResponseHeader against one another.
use sgsp.Common.{
  ℕ, ◌+◌, ◌-◌, ◌≤◌, ◌≡◌, refl, sym, ap, ◌∙◌, ◌⊎◌, inl, inr, arith, List, [], ◌++◌, append_assoc,
  length, drop, ltb, Bool, true, false, All, some, length-drop,
}
use sgsp.Common.Int.{ℤ, is_neg, exceeds, to_u64, IsInt, inside_u64, not_neg, within_int}
use sgsp.Wire.Result.{Result, ok, Result-cases}
use sgsp.Wire.Varint.{IsByte, varint_len, decode_varint}
use sgsp.Wire.Varint.Encode.{encoding, append-encoding, append_too_large}
use sgsp.Wire.Varint.Reader.{Delivers, read-encoding}
use sgsp.Wire.Cursor.{IsVarint, reads, reads_first, was_read, was_read_first}
use sgsp.Wire.Request.{
  Response, encode_response, decode_response, read_response_header, max_diagnostic_bytes,
}

abbrev pub response_bytes : Response → List ℕ
response_bytes r = encoding r.status ++ (encoding (length r.payload) ++ r.payload)

module _ (valid_utf8 : List ℕ → Bool) where
  -- The diagnostic of a response that is not a success.
  abbrev pub IsResponse : Response → Type 0
  IsResponse r =
      IsVarint r.status
      × IsVarint (length r.payload)
      × ((r.status ≡ 0)
          ⊎ ((length r.payload ≤ max_diagnostic_bytes) × (valid_utf8 r.payload ≡ true)))

  encode_response-bytes :
      (r : Response) (m : ℤ)
      → IsResponse r
      → exceeds (length r.payload) m ≡ false
      → encode_response valid_utf8 r m ≡ ok (response_bytes r)
  unfolding encode_response
  encode_response-bytes r m v x = ground (
    arith,
    append-encoding [] r.status,
    append-encoding (encoding r.status) (length r.payload),
    append_assoc (encoding r.status) (encoding (length r.payload)) r.payload,
  )

  pub encode_response-inv :
      (r : Response) (m : ℤ) (b : List ℕ)
      → encode_response valid_utf8 r m ≡ ok b
      → IsResponse r × (exceeds (length r.payload) m ≡ false) × (b ≡ response_bytes r)
  unfolding encode_response
  encode_response-inv r m b h = ground (
    arith,
    append-encoding [] r.status,
    append_too_large [] r.status,
    append-encoding (encoding r.status) (length r.payload),
    append_too_large (encoding r.status) (length r.payload),
    append_assoc (encoding r.status) (encoding (length r.payload)) r.payload,
  )

  decode_response-bytes :
      (r : Response) (m : ℤ)
      → IsResponse r
      → ltb (to_u64 m) (length r.payload) ≡ false
      → decode_response valid_utf8 (response_bytes r) m ≡ ok r
  unfolding decode_response
  decode_response-bytes r m v x =
      let src = response_bytes r in
      let (d1, l1) = reads_first src r.status _ refl v.0 in
      let (d2, l2) = reads src _ (length r.payload) r.payload l1 v.1 in
      let rest : length r.payload
          ≡ length src - varint_len r.status - varint_len (length r.payload) =
        omega (
          arith,
          ap length l2,
          length-drop (varint_len r.status + varint_len (length r.payload)) src,
        ) in
      rw (d1, d2, l2, x) (ground arith)

  -- A response that was encoded is decoded again under the same limit.
  pub decode-encode_response :
      (r : Response) (max_payload : ℤ) (b : List ℕ)
      → IsInt max_payload
      → encode_response valid_utf8 r max_payload ≡ ok b
      → decode_response valid_utf8 b max_payload ≡ ok r
  decode-encode_response r m b i h =
      let (v, x, q) = encode_response-inv r m b h in
      rw q (decode_response-bytes r m v (inside_u64 (length r.payload) m i x))

  decode_response-inv :
      (src : List ℕ) (m : ℤ) (r : Response)
      → All IsByte src
      → decode_response valid_utf8 src m ≡ ok r
      → IsResponse r × (ltb (to_u64 m) (length r.payload) ≡ false) × (src ≡ response_bytes r)
  unfolding decode_response
  decode_response-inv src m r w h = elim (Result-cases (decode_varint src)) [
    | inr (x, d1) ↦ absurd (ground arith)
    | inl ((k, n), d1) ↦ elim (Result-cases (decode_varint (drop n src))) [
      | inr (x, d2) ↦ absurd (ground arith)
      | inl ((l, n'), d2) ↦
          let (v1, _, s1) = was_read_first src k n w d1 in
          let (v2, _, s2) = was_read src n l n' w d2 in
          let shape : src ≡ encoding k ++ (encoding l ++ drop (n + n') src) =
            s1 ∙ ap (◌++◌ (encoding k)) s2 in
          ground (arith, shape, length-drop (n + n') src)
    ]
  ]

  -- Under a limit that is not negative, the bytes that decode as a response are those that the
  -- encoder writes for it.
  pub encode-decode_response :
      (src : List ℕ) (max_payload : ℤ) (r : Response)
      → All IsByte src
      → IsInt max_payload
      → is_neg max_payload ≡ false
      → decode_response valid_utf8 src max_payload ≡ ok r
      → encode_response valid_utf8 r max_payload ≡ ok src
  encode-decode_response src m r w i g h =
      let (v, x, q) = decode_response-inv src m r w h in
      encode_response-bytes r m v (within_int _ m i g x) ∙ ap ok (sym q)

  module _ {R : Type 0} (read_byte : R → Result (ℕ × R)) where
    -- The stream reader finds the status of a response that was encoded and its payload's length, and
    -- leaves the reader at the payload.
    pub read-encode_response :
        (r : R) (q : Response) (m : ℤ) (b : List ℕ)
        → IsInt m
        → encode_response valid_utf8 q m ≡ ok b
        → Delivers read_byte r b
        → (t : R) × (read_response_header read_byte (some r) m
            ≡ ok (record q { payload = [] }, length q.payload, t))
          × Delivers read_byte t q.payload
    unfolding read_response_header
    read-encode_response r q m b i h d =
        let (v, x, e) = encode_response-inv q m b h in
        let (r1, q1, d1) = read-encoding read_byte r q.status _ v.0 (rw e at d) in
        let (r2, q2, d2) = read-encoding read_byte r1 (length q.payload) q.payload v.1 d1 in
        (
          r2,
          rw (not_neg (length q.payload) m x, q1, q2, inside_u64 (length q.payload) m i x)
              (ground arith),
          d2,
        )
