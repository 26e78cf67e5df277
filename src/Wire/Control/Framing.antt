-- ===== src/Wire/Control/Framing.antt =====
-- internal/wire/control.go: what EncodeControl writes, DecodeControl reads.
use sgsp.Common.{
  ℕ, ◌+◌, ◌-◌, ◌≤◌, ◌≡◌, refl, sym, ap, ◌∙◌, arith, inl, inr, [], ◌++◌, append_assoc, length,
  length-append, take, drop, take-append, take-append_add, length-take, length-drop, All, ltb,
  false, Bool-cases,
}
use sgsp.Common.Int.{ℤ, pos}
use sgsp.Wire.Result.{ok, Result-cases}
use sgsp.Wire.Varint.{IsByte, max_varint, append_varint, decode_varint, varint_len}
use sgsp.Wire.Varint.Encode.{encoding, length-encoding, append-encoding, append-inv}
use sgsp.Wire.Cursor.{reads_first, was_read_first, length-encodings}
use sgsp.Wire.Control.Json.{Bytes, Go}
use sgsp.Wire.Control.{Control, control_limit, decode_control_body, encode_control, decode_control}

module _ (go : Go) where
  abbrev IsBody : Bytes → ℤ → Control → Type 0
  IsBody raw max c = decode_control_body go raw (pos (control_limit max)) ≡ ok c

  -- The parts of an accepted control message.
  encode_control-inv :
      (raw b : Bytes) (max : ℤ)
      → encode_control go raw max ≡ ok b
      → (c : Control) × IsBody raw max c
        × (ltb (control_limit max) (length raw) ≡ false)
        × (length raw ≤ max_varint)
        × (b ≡ encoding (length raw) ++ raw)
  unfolding encode_control
  encode_control-inv raw b max h = elim (Bool-cases (ltb (control_limit max) (length raw))) [
    | inl e ↦ absurd (ground arith)
    | inr e ↦ elim (Result-cases (decode_control_body go raw (pos (control_limit max)))) [
      | inr (x, f) ↦ absurd (ground arith)
      | inl (c, f) ↦ elim (Result-cases (append_varint [] (length raw))) [
        | inr (x, g) ↦ absurd (ground arith)
        | inl (d, g) ↦
            let (l, q) = append-inv [] (length raw) d g in (c, f, e, l, ground (arith, q))
      ]
    ]
  ]

  -- A control message that was encoded is decoded under the same limit, whatever follows it: its
  -- body is the accepted one, and the count is the frame's length.
  pub decode-encode_control :
      (raw rest b : Bytes) (max : ℤ)
      → encode_control go raw max ≡ ok b
      → (c : Control) × (decode_control_body go raw (pos (control_limit max)) ≡ ok c)
        × (decode_control go (b ++ rest) max ≡ ok (c, length b))
  unfolding decode_control
  decode-encode_control raw rest b max h =
      let (c, f, e, l, q) = encode_control-inv raw b max h in
      let n = varint_len (length raw) in
      let (d, t) =
        reads_first (b ++ rest) (length raw) (raw ++ rest)
          (rw q (append_assoc (encoding (length raw)) raw rest)) l in
      let k : length (b ++ rest) - n ≡ length raw + length rest =
        sym (length-drop n (b ++ rest)) ∙ ap length t ∙ length-append raw rest in
      let s : ltb (length (b ++ rest) - n) (length raw) ≡ false = rw k (ground arith) in
      let m : n + length raw ≡ length b = rw q (sym (length-encodings (length raw) raw l)) in
      (c, f, rw (d, e, s, t, take-append raw rest, f, m) refl)

  -- The frame that stands at the head of the bytes is the one that the encoder writes for its body.
  encode_control-body :
      (src : Bytes) (max : ℤ) (c : Control) (len n : ℕ)
      → All IsByte src
      → decode_varint src ≡ ok (len, n)
      → ltb (control_limit max) len ≡ false
      → ltb (length src - n) len ≡ false
      → IsBody (take len (drop n src)) max c
      → encode_control go (take len (drop n src)) max ≡ ok (take (n + len) src)
  unfolding encode_control
  encode_control-body src max c len n w d e s f =
      let (l, q, p) = was_read_first src len n w d in
      let raw = take len (drop n src) in
      let m : length raw ≡ len = length-take len (drop n src) (ground (arith, length-drop n src)) in
      let t : take (n + len) src ≡ encoding len ++ raw =
        ap (take (n + len)) p
        ∙ ap (λ (k : ℕ). take (k + len) (encoding len ++ drop n src))
            (q ∙ sym (length-encoding len l))
        ∙ take-append_add len (encoding len) (drop n src) in
      rw (m, e, f, append-encoding [] len l, t) refl

  -- The frame that is decoded from bytes is the one that the encoder writes for its body, under the
  -- same limit, and it stands at the head of the bytes.
  pub encode-decode_control :
      (src : Bytes) (max : ℤ) (c : Control) (used : ℕ)
      → All IsByte src
      → decode_control go src max ≡ ok (c, used)
      → (raw : Bytes) × (decode_control_body go raw (pos (control_limit max)) ≡ ok c)
        × (encode_control go raw max ≡ ok (take used src))
  unfolding decode_control
  encode-decode_control src max c used w h = elim (Result-cases (decode_varint src)) [
    | inr (x, d) ↦ absurd (ground arith)
    | inl ((len, n), d) ↦ elim (Bool-cases (ltb (control_limit max) len)) [
      | inl e ↦ absurd (ground arith)
      | inr e ↦ elim (Bool-cases (ltb (length src - n) len)) [
        | inl s ↦ absurd (ground arith)
        | inr s ↦
            elim (Result-cases
              (decode_control_body go (take len (drop n src)) (pos (control_limit max)))) [
                | inr (x, f) ↦ absurd (ground arith)
                | inl (c', f) ↦
                    let k = rw (d, e, s, f) at h in
                    let same : c' ≡ c = cc in
                    let all : n + len ≡ used = cc in
                    (
                      take len (drop n src),
                      f ∙ ap ok same,
                      encode_control-body src max c' len n w d e s f
                          ∙ ap (λ (t : ℕ). ok (take t src)) all,
                    )
              ]
      ]
    ]
  ]
