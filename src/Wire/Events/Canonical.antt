-- ===== src/Wire/Events/Canonical.antt =====
-- What the decoders accept: only what the encoders write.
use sgsp.Common.{
  ℕ, ◌+◌, ◌≡◌, ◌≢◌, sym, ap, ◌∙◌, ◌⊎◌, inl, inr, arith, List, [], ◌∷◌, ◌++◌, length, drop, ◌==◌,
  true, false, All, Bool-cases,
}
use sgsp.Common.Int.{ℤ, pos, negsuc, exceeds}
use sgsp.Wire.Result.{ok, err, Result-cases, Error}
use sgsp.Wire.Varint.{IsByte, varint_len, decode_varint}
use sgsp.Wire.Varint.Encode.{encoding}
use sgsp.Wire.Cursor.{was_read, was_read_first, IsVarint}
use sgsp.Wire.Events.{
  Event, validate_event, decode_event, encode_datagram, decode_datagram, unreliable_kind,
  sequenced_kind,
}
use sgsp.Wire.Events.RoundTrip.{fields, append_event-fields, append_event-sequence}

-- The parts of a decoded event, and where they stood.
abbrev pub EventAt : List ℕ → ℕ → Event → ℕ → Type 0
EventAt src expected e used =
    All IsVarint (e.kind ∷ e.channel ∷ e.message_type ∷ [])
    × ((expected ≡ 0) ⊎ (e.kind ≡ expected))
    × (e.sequence ≡ 0)
    × (src ≡ fields e.kind e.channel e.message_type e.payload)
    × (drop used src ≡ e.payload)
    × (used ≡ varint_len e.kind + varint_len e.channel + varint_len e.message_type)

pub decode_event-inv :
    (src : List ℕ) (expected : ℕ) (e : Event) (used : ℕ)
    → All IsByte src
    → decode_event src expected false ≡ ok (e, used)
    → EventAt src expected e used
unfolding decode_event
decode_event-inv src x e used w h = elim (Result-cases (decode_varint src)) [
  | inr (r, d) ↦ absurd (cc (rw d at h))
  | inl ((k, n), d) ↦ elim (Result-cases (decode_varint (drop n src))) [
    | inr (r, d') ↦ absurd (ground arith)
    | inl ((c, n'), d') ↦ elim (Result-cases (decode_varint (drop (n + n') src))) [
      | inr (r, d'') ↦ absurd (ground arith)
      | inl ((t, n''), d'') ↦
          let (kv, kn, ks) = was_read_first src k n w d in
          let (cv, cn, cs) = was_read src n c n' w d' in
          let (tv, tn, ts) = was_read src (n + n') t n'' w d'' in
          let shape : src ≡ fields k c t (drop (n + n' + n'') src) =
            ks ∙ ap (◌++◌ (encoding k)) (cs ∙ ap (◌++◌ (encoding c)) ts) in
          ground (arith, shape)
    ]
  ]
]

encode_unreliable-ok :
    (e : Event) (m : ℤ) (src : List ℕ)
    → e.kind ≡ unreliable_kind
    → validate_event e false ≡ ok tt
    → All IsVarint (e.kind ∷ e.channel ∷ e.message_type ∷ [])
    → src ≡ fields e.kind e.channel e.message_type e.payload
    → exceeds (length src) m ≡ false
    → encode_datagram e m ≡ ok src
unfolding encode_datagram
encode_unreliable-ok e (pos m) src k v a q x = ground (arith, append_event-fields e a)
encode_unreliable-ok e (negsuc m) src k v a q x = cc

encode_sequenced-ok :
    (e : Event) (m : ℤ) (src : List ℕ)
    → e.kind ≡ sequenced_kind
    → validate_event e true ≡ ok tt
    → All IsVarint (e.kind ∷ e.channel ∷ e.message_type ∷ e.sequence ∷ [])
    → src ≡ fields e.kind e.channel e.message_type (encoding e.sequence ++ e.payload)
    → exceeds (length src) m ≡ false
    → encode_datagram e m ≡ ok src
unfolding encode_datagram
encode_sequenced-ok e (pos m) src k v a q x = ground (arith, append_event-sequence e a)
encode_sequenced-ok e (negsuc m) src k v a q x = cc

-- Taking a datagram apart, by its kind.
module _ (src : List ℕ) (m : ℤ) (e f : Event) (used : ℕ)
    (d : decode_event src 0 false ≡ ok (f, used)) (h : decode_datagram src m ≡ ok e) where
  decoded_kind : (f.kind ≡ unreliable_kind) ⊎ (f.kind ≡ sequenced_kind)
  unfolding decode_datagram
  decoded_kind = elim (Bool-cases (f.kind == unreliable_kind)) [
    | inl y ↦ inl (ground arith)
    | inr n ↦ inr (ground arith)
  ]

  datagram_unreliable :
      f.kind ≡ unreliable_kind
      → (exceeds (length src) m ≡ false)
        × (validate_event f false ≡ ok tt)
        × (e ≡ record f { payload = drop used src })
  unfolding decode_datagram
  datagram_unreliable k = ground arith

  datagram_sequenced :
      f.kind ≡ sequenced_kind
      → (s n : ℕ) → decode_varint (drop used src) ≡ ok (s, n)
      → (exceeds (length src) m ≡ false)
        × (validate_event (record f { sequence = s; payload = drop (used + n) src }) true ≡ ok tt)
        × (e ≡ record f { sequence = s; payload = drop (used + n) src })
  unfolding decode_datagram validate_event
  datagram_sequenced k s n q = ground arith

  sequence_read : f.kind ≡ sequenced_kind → (r : Error) → decode_varint (drop used src) ≢ err r
  unfolding decode_datagram
  sequence_read k r q = ground arith

-- Whatever bytes the datagram decoder accepts are those that the encoder writes for the event that
-- it returned, under the same limit.
pub encode-decode_datagram :
    (src : List ℕ) (max_bytes : ℤ) (e : Event)
    → All IsByte src
    → decode_datagram src max_bytes ≡ ok e
    → encode_datagram e max_bytes ≡ ok src
encode-decode_datagram src m e w h = elim (Result-cases (decode_event src 0 false)) [
  | inr (r, d) ↦ absurd (unfold decode_datagram in ground arith)
  | inl ((f, used), d) ↦
      let (all, _, _, shape, tail, _) = decode_event-inv src 0 f used w d in
      elim (decoded_kind src m e f used d h) [
        | inl k ↦
            let (x, v, q) = datagram_unreliable src m e f used d h k in
            rw (q, tail) (encode_unreliable-ok f m src k v all shape x)
        | inr k ↦ elim (Result-cases (decode_varint (drop used src))) [
          | inr (r, d') ↦ absurd (sequence_read src m e f used d h k r d')
          | inl ((s, n), d') ↦
              let (x, v, q) = datagram_sequenced src m e f used d h k s n d' in
              let (sv, _, ss) = was_read src used s n w d' in
              rw q (
                encode_sequenced-ok (record f { sequence = s; payload = drop (used + n) src }) m src
                  k v (all.0, (all.1.0, (all.1.1.0, (sv, tt))))
                  (shape ∙ ap (fields f.kind f.channel f.message_type) (sym tail ∙ ss)) x)
        ]
      ]
]
