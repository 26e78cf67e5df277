-- ===== src/Wire/Events/Datagram.antt =====
-- Datagrams: what was encoded is decoded again, and what is decoded was one encoding.
use sgsp.Common.{
  ℕ, ◌<◌, ◌≡◌, refl, sym, ap, ◌∙◌, ◌⊎◌, inl, inr, arith, List, [], ◌∷◌, ◌++◌, length, ◌==◌,
  if◌then◌else◌, true, false, All, Bool-cases,
}
use sgsp.Common.Int.{ℤ, exceeds}
use sgsp.Wire.Result.{ok}
use sgsp.Wire.Varint.Encode.{encoding}
use sgsp.Wire.Cursor.{IsVarint, reads}
use sgsp.Wire.Events.{Event, encode_datagram, decode_datagram, unreliable_kind, sequenced_kind}
use sgsp.Wire.Events.RoundTrip.{
  fields, decode_event-fields, InRange, validate_event-inv, append_event-fields,
  append_event-sequence, append_event_large, validate_event-ok, drop-fields,
}

abbrev event : ℕ → ℕ → ℕ → ℕ → List ℕ → Event
event k c t s p = record { kind = k; channel = c; message_type = t; sequence = s; payload = p }

-- What an encoded datagram is made of.
abbrev DatagramOf : Event → ℤ → List ℕ → Type 0
DatagramOf e max_bytes b =
    InRange e.channel e.message_type
    × (exceeds (length b) max_bytes ≡ false)
    × (((e.kind ≡ unreliable_kind)
          × (b ≡ fields unreliable_kind e.channel e.message_type e.payload))
        ⊎ ((e.kind ≡ sequenced_kind)
            × (0 < e.sequence)
            × IsVarint e.sequence
            × (b
                ≡ fields sequenced_kind e.channel e.message_type
                    (encoding e.sequence ++ e.payload))))

encode_unreliable-DatagramOf :
    (e : Event) (m : ℤ) (b : List ℕ)
    → e.kind ≡ unreliable_kind
    → encode_datagram e m ≡ ok b
    → DatagramOf e m b
unfolding encode_datagram
encode_unreliable-DatagramOf e m b k h =
    ground (arith, validate_event-inv e false, append_event-fields e)

encode_sequenced-DatagramOf :
    (e : Event) (m : ℤ) (b : List ℕ)
    → e.kind ≡ sequenced_kind
    → encode_datagram e m ≡ ok b
    → DatagramOf e m b
unfolding encode_datagram
encode_sequenced-DatagramOf e m b k h =
    ground (arith, validate_event-inv e true, append_event-sequence e, append_event_large e)

encoded_kind :
    (e : Event) (m : ℤ) (b : List ℕ)
    → encode_datagram e m ≡ ok b
    → (e.kind ≡ unreliable_kind) ⊎ (e.kind ≡ sequenced_kind)
unfolding encode_datagram
encoded_kind e m b h = elim (Bool-cases (e.kind == unreliable_kind)) [
  | inl y ↦ inl (ground arith)
  | inr n ↦ inr (ground arith)
]

pub encode_datagram-DatagramOf :
    (e : Event) (m : ℤ) (b : List ℕ) → encode_datagram e m ≡ ok b → DatagramOf e m b
encode_datagram-DatagramOf e m b h = elim (encoded_kind e m b h) [
  | inl k ↦ encode_unreliable-DatagramOf e m b k h
  | inr k ↦ encode_sequenced-DatagramOf e m b k h
]

decode_unreliable :
    (c t : ℕ) (p : List ℕ) (m : ℤ)
    → InRange c t
    → exceeds (length (fields unreliable_kind c t p)) m ≡ false
    → decode_datagram (fields unreliable_kind c t p) m ≡ ok (event unreliable_kind c t 0 p)
unfolding decode_datagram
decode_unreliable c t p m r h =
    let all : All IsVarint (unreliable_kind ∷ c ∷ t ∷ []) = omega arith in
    rw (
      h,
      decode_event-fields (fields unreliable_kind c t p) unreliable_kind c t p 0 refl all refl,
      validate_event-ok (event unreliable_kind c t 0 p) false r (inl refl),
      drop-fields unreliable_kind c t p all,
    )

decode_sequenced :
    (c t s : ℕ) (p : List ℕ) (m : ℤ)
    → InRange c t
    → 0 < s
    → IsVarint s
    → exceeds (length (fields sequenced_kind c t (encoding s ++ p))) m ≡ false
    → decode_datagram (fields sequenced_kind c t (encoding s ++ p)) m
      ≡ ok (event sequenced_kind c t s p)
unfolding decode_datagram
decode_sequenced c t s p m r o v h =
    let src = fields sequenced_kind c t (encoding s ++ p) in
    let all : All IsVarint (sequenced_kind ∷ c ∷ t ∷ []) = omega arith in
    let (d, l) = reads src _ s p (drop-fields sequenced_kind c t (encoding s ++ p) all) v in
    rw (
      h,
      decode_event-fields src sequenced_kind c t _ 0 refl all refl,
      d,
      validate_event-ok (event sequenced_kind c t s (encoding s ++ p)) true r (inr o),
      l,
    )

abbrev pub kept_sequence : Event → ℕ
kept_sequence e = if e.kind == sequenced_kind then e.sequence else 0

-- A datagram that was encoded is decoded, under the same limit, to its event; only an event that is
-- not sequenced loses its sequence number.
pub decode-encode_datagram :
    (e : Event) (max_bytes : ℤ) (b : List ℕ)
    → encode_datagram e max_bytes ≡ ok b
    → decode_datagram b max_bytes ≡ ok (record e { sequence = kept_sequence e })
decode-encode_datagram e m b h =
    let (r, x, kinds) = encode_datagram-DatagramOf e m b h in
    elim kinds [
      | inl (k, q) ↦ rw q (
          decode_unreliable e.channel e.message_type e.payload m r (rw q at x)
          ∙ ap ok (ground arith))
      | inr (k, o, v, q) ↦ rw q (
          decode_sequenced e.channel e.message_type e.sequence e.payload m r o v (rw q at x)
          ∙ ap ok (ground arith))
    ]

-- A limit admits a datagram or not; it does not change what the bytes say.
pub decode_datagram_unique :
    (b : List ℕ) (m n : ℤ) (e f : Event)
    → decode_datagram b m ≡ ok e
    → decode_datagram b n ≡ ok f
    → e ≡ f
unfolding decode_datagram
decode_datagram_unique b m n e f h k = elim (Bool-cases (exceeds (length b) m)) [
  | inl x ↦ absurd (ground arith)
  | inr x ↦ elim (Bool-cases (exceeds (length b) n)) [
    | inl y ↦ absurd (ground arith)
    | inr y ↦ let same : ok e ≡ ok f = sym (rw x at h) ∙ (rw y at k) in cc
  ]
]
