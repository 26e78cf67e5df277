-- ===== src/Wire/Request/Requests.antt =====
-- EncodeRequest, DecodeRequest and ReadRequestHeader against one another.
use sgsp.Common.{
  ℕ, ◌+◌, ◌-◌, ◌≤◌, ◌<◌, ◌≡◌, refl, sym, ap, ◌∙◌, inl, inr, arith, List, [], ◌∷◌, ◌++◌, append-nil,
  append_assoc, length, drop, ltb, false, All, some, length-drop,
}
use sgsp.Common.Int.{ℤ, negsuc, is_neg, exceeds, to_u64, IsInt, inside_u64, not_neg, within_int}
use sgsp.Wire.Result.{Result, ok, err, malformed, Result-cases}
use sgsp.Wire.Varint.{IsByte, varint_len, decode_varint}
use sgsp.Wire.Varint.Encode.{encoding, append-encoding}
use sgsp.Wire.Varint.Reader.{read_varint, Delivers, read-encoding}
use sgsp.Wire.Cursor.{
  append_varints, encodings, IsVarint, append_varints-encodings, append_varints-inv, reads,
  reads_first, was_read, was_read_first,
}
use sgsp.Wire.Events.{max_message_type}
use sgsp.Wire.Request.{
  Request, encode_request, decode_request, read_request_header, request_stream_kind, max_timeout_ms,
}

abbrev pub IsRequest : Request → Type 0
IsRequest r =
    (0 < r.message_type)
    × (r.message_type ≤ max_message_type)
    × (0 < r.timeout_ms)
    × (r.timeout_ms ≤ max_timeout_ms)

-- The bytes of a request.
abbrev pub request_bytes : Request → List ℕ
request_bytes r =
    encoding request_stream_kind
    ++ (encoding r.message_type
        ++ (encoding r.timeout_ms ++ (encoding (length r.payload) ++ r.payload)))

abbrev values : Request → List ℕ
values r = r.message_type ∷ r.timeout_ms ∷ length r.payload ∷ []

appended :
    (r : Request)
    → All IsVarint (values r)
    → append_varints (encoding request_stream_kind) (values r)
      ≡ ok (encoding request_stream_kind ++ encodings (values r))
appended r a = append_varints-encodings (encoding request_stream_kind) (values r) a

joined :
    (r : Request)
    → (encoding request_stream_kind ++ encodings (values r)) ++ r.payload ≡ request_bytes r
joined r = simp (append_assoc, append-nil)

encode_request-bytes :
    (r : Request) (m : ℤ)
    → IsRequest r
    → exceeds (length r.payload) m ≡ false
    → IsVarint (length r.payload)
    → encode_request r m ≡ ok (request_bytes r)
unfolding encode_request
encode_request-bytes r m v x l =
    ground (arith, append-encoding [] request_stream_kind, appended r (omega arith), joined r)

encode_request-inv :
    (r : Request) (m : ℤ) (b : List ℕ)
    → encode_request r m ≡ ok b
    → IsRequest r
      × (exceeds (length r.payload) m ≡ false)
      × IsVarint (length r.payload)
      × (b ≡ request_bytes r)
unfolding encode_request
encode_request-inv r m b h =
    elim (Result-cases (append_varints (encoding request_stream_kind) (values r))) [
      | inl (b', e) ↦
          let (a, q) = append_varints-inv (encoding request_stream_kind) (values r) b' e in
          ground (arith, append-encoding [] request_stream_kind, joined r)
      | inr (x, e) ↦ absurd (ground (arith, append-encoding [] request_stream_kind))
    ]

decode_request-bytes :
    (r : Request) (m : ℤ)
    → IsRequest r
    → ltb (to_u64 m) (length r.payload) ≡ false
    → IsVarint (length r.payload)
    → decode_request (request_bytes r) m ≡ ok r
unfolding decode_request
decode_request-bytes r m v x l =
    let src = request_bytes r in
    let (d1, l1) = reads_first src request_stream_kind _ refl (omega arith) in
    let (d2, l2) = reads src _ r.message_type _ l1 (omega arith) in
    let (d3, l3) = reads src _ r.timeout_ms _ l2 (omega arith) in
    let (d4, l4) = reads src _ (length r.payload) r.payload l3 l in
    let used : ℕ =
      varint_len request_stream_kind
      + varint_len r.message_type
      + varint_len r.timeout_ms
      + varint_len (length r.payload) in
    let rest : length r.payload ≡ length src - used =
      omega (arith, ap length l4, length-drop used src) in
    rw (d1, d2, d3, d4, l4, x) (ground arith)

-- A request that was encoded is decoded again under the same limit.
pub decode-encode_request :
    (r : Request) (max_payload : ℤ) (b : List ℕ)
    → IsInt max_payload
    → encode_request r max_payload ≡ ok b
    → decode_request b max_payload ≡ ok r
decode-encode_request r m b i h =
    let (v, x, l, q) = encode_request-inv r m b h in
    rw q (decode_request-bytes r m v (inside_u64 (length r.payload) m i x) l)

decode_request-inv :
    (src : List ℕ) (m : ℤ) (r : Request)
    → All IsByte src
    → decode_request src m ≡ ok r
    → IsRequest r
      × (ltb (to_u64 m) (length r.payload) ≡ false)
      × IsVarint (length r.payload)
      × (src ≡ request_bytes r)
unfolding decode_request
decode_request-inv src m r w h = elim (Result-cases (decode_varint src)) [
  | inr (x, d1) ↦ absurd (ground arith)
  | inl ((k, n), d1) ↦ elim (Result-cases (decode_varint (drop n src))) [
    | inr (x, d2) ↦ absurd (ground arith)
    | inl ((a, n'), d2) ↦ elim (Result-cases (decode_varint (drop (n + n') src))) [
      | inr (x, d3) ↦ absurd (ground arith)
      | inl ((t, n''), d3) ↦ elim (Result-cases (decode_varint (drop (n + n' + n'') src))) [
        | inr (x, d4) ↦ absurd (ground arith)
        | inl ((l, n'''), d4) ↦
            let (v1, _, s1) = was_read_first src k n w d1 in
            let (v2, _, s2) = was_read src n a n' w d2 in
            let (v3, _, s3) = was_read src (n + n') t n'' w d3 in
            let (v4, _, s4) = was_read src (n + n' + n'') l n''' w d4 in
            let rest = drop (n + n' + n'' + n''') src in
            let shape : src ≡ encoding k ++ (encoding a ++ (encoding t ++ (encoding l ++ rest))) =
              s1
              ∙ ap (◌++◌ (encoding k))
                  (s2 ∙ ap (◌++◌ (encoding a)) (s3 ∙ ap (◌++◌ (encoding t)) s4)) in
            ground (arith, shape, length-drop (n + n' + n'' + n''') src)
      ]
    ]
  ]
]

-- Under a limit that is not negative, the bytes that decode as a request are those that the encoder
-- writes for it.
pub encode-decode_request :
    (src : List ℕ) (max_payload : ℤ) (r : Request)
    → All IsByte src
    → IsInt max_payload
    → is_neg max_payload ≡ false
    → decode_request src max_payload ≡ ok r
    → encode_request r max_payload ≡ ok src
encode-decode_request src m r w i g h =
    let (v, x, l, q) = decode_request-inv src m r w h in
    encode_request-bytes r m v (within_int _ m i g x) l ∙ ap ok (sym q)

-- Under a negative limit the decoder accepts every well-formed request, whatever its payload's
-- length, while the encoder refuses each one.
pub decode_request_negative :
    (r : Request) (n : ℕ)
    → IsRequest r
    → IsVarint (length r.payload)
    → IsInt (negsuc n)
    → (decode_request (request_bytes r) (negsuc n) ≡ ok r)
      × (encode_request r (negsuc n) ≡ err malformed)
unfolding encode_request
decode_request_negative r n v l i =
    (decode_request-bytes r (negsuc n) v (ground arith) l, ground arith)

module _ {R : Type 0} (read_byte : R → Result (ℕ × R)) where
  -- Behind the stream's kind, the stream reader finds the fields of a request that was encoded and
  -- its payload's length, and leaves the reader at the payload.
  pub read-encode_request :
      (r : R) (q : Request) (m : ℤ) (b : List ℕ)
      → IsInt m
      → encode_request q m ≡ ok b
      → Delivers read_byte r b
      → (s : R) × (t : R) × (read_varint read_byte r ≡ ok (request_stream_kind, s))
        × (read_request_header read_byte (some s) m
            ≡ ok (record q { payload = [] }, length q.payload, t))
        × Delivers read_byte t q.payload
  unfolding read_request_header
  read-encode_request r q m b i h d =
      let (v, x, l, e) = encode_request-inv q m b h in
      let (r1, q1, d1) =
        read-encoding read_byte r request_stream_kind _ (omega arith) (rw e at d) in
      let (r2, q2, d2) = read-encoding read_byte r1 q.message_type _ (omega arith) d1 in
      let (r3, q3, d3) = read-encoding read_byte r2 q.timeout_ms _ (omega arith) d2 in
      let (r4, q4, d4) = read-encoding read_byte r3 (length q.payload) q.payload l d3 in
      (
        r1,
        r4,
        q1,
        rw (not_neg (length q.payload) m x, q2, q3, q4, inside_u64 (length q.payload) m i x)
            (ground arith),
        d4,
      )
