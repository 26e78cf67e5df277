-- ===== src/Wire/Request/Custom.antt =====
-- The header of a custom stream.
use sgsp.Common.{
  ℕ, ◌+◌, ◌≤◌, ◌<◌, ◌≡◌, refl, sym, ap, ◌∙◌, inl, inr, arith, List, [], ◌++◌, append-nil, length,
  drop, All, drop-append,
}
use sgsp.Wire.Result.{ok, Result-cases}
use sgsp.Wire.Varint.{IsByte, varint_len, decode_varint}
use sgsp.Wire.Varint.Encode.{encoding, append-encoding, length-encoding}
use sgsp.Wire.Cursor.{reads, reads_first, was_read, was_read_first, length-encodings}
use sgsp.Wire.Events.{max_message_type}
use sgsp.Wire.Request.{encode_custom_stream_header, decode_custom_stream_header, custom_stream_kind}

abbrev header : ℕ → List ℕ
header t = encoding custom_stream_kind ++ encoding t

encode_custom-header :
    (t : ℕ) → 0 < t → t ≤ max_message_type → encode_custom_stream_header t ≡ ok (header t)
unfolding encode_custom_stream_header
encode_custom-header t z h =
    ground (
      arith,
      append-encoding [] custom_stream_kind,
      append-encoding (encoding custom_stream_kind) t,
    )

encode_custom-inv :
    (t : ℕ) (b : List ℕ)
    → encode_custom_stream_header t ≡ ok b
    → (0 < t) × (t ≤ max_message_type) × (b ≡ header t)
unfolding encode_custom_stream_header
encode_custom-inv t b h =
    ground (
      arith,
      append-encoding [] custom_stream_kind,
      append-encoding (encoding custom_stream_kind) t,
    )

-- A header that was encoded is decoded to its message type.
pub decode-encode_custom :
    (t : ℕ) (b : List ℕ)
    → encode_custom_stream_header t ≡ ok b
    → decode_custom_stream_header b ≡ ok t
unfolding decode_custom_stream_header
decode-encode_custom t b h =
    let (z, m, q) = encode_custom-inv t b h in
    let src = header t in
    let (d, l) = reads_first src custom_stream_kind (encoding t) refl (omega arith) in
    let (d', l') =
      reads src (varint_len custom_stream_kind) t [] (l ∙ sym (append-nil (encoding t)))
        (omega arith) in
    let whole : varint_len custom_stream_kind + varint_len t ≡ length src =
      omega (arith, length-encodings custom_stream_kind (encoding t), length-encoding t) in
    rw (q, d, d') (ground (arith, whole))

drop_all : (n : ℕ) (xs : List ℕ) → n ≡ length xs → drop n xs ≡ []
drop_all n xs h =
    ap (λ (k : ℕ). drop k xs) h ∙ ap (drop (length xs)) (sym (append-nil xs)) ∙ drop-append xs []

-- Bytes that decode as a header are the encoding of the message type.
pub encode-decode_custom :
    (src : List ℕ) (t : ℕ)
    → All IsByte src
    → decode_custom_stream_header src ≡ ok t
    → encode_custom_stream_header t ≡ ok src
unfolding decode_custom_stream_header
encode-decode_custom src t w h = elim (Result-cases (decode_varint src)) [
  | inr (x, d) ↦ absurd (ground arith)
  | inl ((k, n), d) ↦ elim (Result-cases (decode_varint (drop n src))) [
    | inr (x, d') ↦ absurd (ground arith)
    | inl ((a, n'), d') ↦
        let (v, _, s) = was_read_first src k n w d in
        let (v', _, s') = was_read src n a n' w d' in
        let tail : drop (n + n') src ≡ [] = drop_all (n + n') src (ground arith) in
        let shape : src ≡ encoding k ++ encoding a =
          s ∙ ap (◌++◌ (encoding k)) (s' ∙ ap (◌++◌ (encoding a)) tail ∙ append-nil (encoding a)) in
        ground (arith, shape, encode_custom-header t)
  ]
]
