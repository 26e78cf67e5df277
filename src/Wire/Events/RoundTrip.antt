-- ===== src/Wire/Events/RoundTrip.antt =====
-- Frames and datagrams that were encoded are decoded to the event that they were made from.
use sgsp.Common.{
  ℕ, ◌+◌, ◌-◌, ◌≤◌, ◌<◌, ◌≡◌, refl, ap, ◌⊎◌, inl, inr, arith, List, [], ◌∷◌, ◌++◌, append-nil,
  append_assoc, length, take, drop, ltb, ◌==◌, not, ◌&&◌, Bool, true, false, length-append,
  take-append, All,
}
use sgsp.Common.Int.{ℤ, pos, negsuc, exceeds, add_int, to_u64, IsInt}
use sgsp.Wire.Result.{ok, err, value_too_large}
use sgsp.Wire.Varint.{varint_len, max_varint}
use sgsp.Wire.Varint.Encode.{encoding, append-encoding, append_too_large}
use sgsp.Wire.Cursor.{IsVarint, append_varints-encodings, reads, reads_first, length-encodings}
use sgsp.Wire.Events.{
  Event, validate_event, append_event, encode_reliable_event, decode_event, decode_reliable_event,
  max_channel, max_message_type, reliable_event_kind,
}

-- The three fields in front, and what follows them.
abbrev pub fields : ℕ → ℕ → ℕ → List ℕ → List ℕ
fields k c t rest = encoding k ++ (encoding c ++ (encoding t ++ rest))

pub decode_event-fields :
    (src : List ℕ) (k c t : ℕ) (p : List ℕ) (expected : ℕ)
    → src ≡ fields k c t p
    → All IsVarint (k ∷ c ∷ t ∷ [])
    → (not (expected == 0) && not (k == expected)) ≡ false
    → decode_event src expected false
      ≡ ok (
        record { kind = k; channel = c; message_type = t; sequence = 0; payload = p },
        varint_len k + varint_len c + varint_len t,
      )
unfolding decode_event
decode_event-fields src k c t p expected e h g =
    let (d, l) = reads_first src k _ e h.0 in
    let (d', l') = reads src _ c _ l h.1.0 in
    let (d'', l'') = reads src _ t _ l' h.1.1.0 in rw (d, g, d', d'', l'')

pub drop-fields :
    (k c t : ℕ) (p : List ℕ)
    → All IsVarint (k ∷ c ∷ t ∷ [])
    → drop (varint_len k + varint_len c + varint_len t) (fields k c t p) ≡ p
drop-fields k c t p h =
    let src = fields k c t p in
    let (d, l) = reads_first src k _ refl h.0 in
    let (d', l') = reads src _ c _ l h.1.0 in (reads src _ t _ l' h.1.1.0).1

-- What the decoders accept behind a valid event.
abbrev pub InRange : ℕ → ℕ → Type 0
InRange c t = (c ≤ max_channel) × (0 < t) × (t ≤ max_message_type)

pub validate_event-ok :
    (e : Event) (s : Bool)
    → InRange e.channel e.message_type
    → ((s ≡ false) ⊎ (0 < e.sequence))
    → validate_event e s ≡ ok tt
unfolding validate_event
validate_event-ok e false r h = ground arith
validate_event-ok e true r (inl h) = cc
validate_event-ok e true r (inr h) = ground arith

pub validate_event-inv :
    (e : Event) (s : Bool)
    → validate_event e s ≡ ok tt
    → InRange e.channel e.message_type × ((s ≡ true) → 0 < e.sequence)
unfolding validate_event
validate_event-inv e false h = (ground arith, λ q. cc)
validate_event-inv e true h = (ground arith, λ q. ground arith)

pub append_event-fields :
    (e : Event)
    → All IsVarint (e.kind ∷ e.channel ∷ e.message_type ∷ [])
    → append_event [] e false ≡ ok (fields e.kind e.channel e.message_type e.payload)
unfolding append_event
append_event-fields e h =
    rw (append_varints-encodings [] (e.kind ∷ e.channel ∷ e.message_type ∷ []) h)
      (simp (append_assoc, append-nil))

pub append_event-sequence :
    (e : Event)
    → All IsVarint (e.kind ∷ e.channel ∷ e.message_type ∷ e.sequence ∷ [])
    → append_event [] e true
      ≡ ok (fields e.kind e.channel e.message_type (encoding e.sequence ++ e.payload))
unfolding append_event
append_event-sequence e h =
    rw
      (append_varints-encodings [] (e.kind ∷ e.channel ∷ e.message_type ∷ [])
        (h.0, (h.1.0, (h.1.1.0, tt))))
      (rw (append-encoding _ e.sequence h.1.1.1.0) (simp (append_assoc, append-nil)))

-- What an encoded frame is made of.
abbrev pub FrameOf : Event → ℤ → List ℕ → Type 0
FrameOf e max_payload frame =
    let body = fields reliable_event_kind e.channel e.message_type e.payload in
    InRange e.channel e.message_type
    × (exceeds (length e.payload) max_payload ≡ false)
    × (exceeds (length body) (add_int max_payload 32) ≡ false)
    × (length body ≤ max_varint)
    × (frame ≡ encoding (length body) ++ body)

pub encode_reliable_event-FrameOf :
    (e : Event) (max_payload : ℤ) (frame : List ℕ)
    → encode_reliable_event e max_payload ≡ ok frame
    → FrameOf e max_payload frame
unfolding encode_reliable_event
encode_reliable_event-FrameOf e m frame h =
    let f : Event = record e { kind = reliable_event_kind } in
    let body = fields reliable_event_kind e.channel e.message_type e.payload in
    ground (
      arith,
      validate_event-inv f false,
      append_event-fields f,
      append-encoding [] (length body),
      append_too_large [] (length body),
    )

pub within_u64 :
    (n : ℕ) (m : ℤ)
    → IsInt m
    → exceeds n (add_int m 32) ≡ false
    → ltb (to_u64 (add_int m 32)) n ≡ false
within_u64 n (pos m) i h = ground arith
within_u64 n (negsuc m) i h = ground arith

pub length-fields :
    (k c t : ℕ) (p : List ℕ)
    → All IsVarint (k ∷ c ∷ t ∷ [])
    → length (fields k c t p) ≡ varint_len k + varint_len c + varint_len t + length p
length-fields k c t p h = omega (
  arith,
  length-encodings k (encoding c ++ (encoding t ++ p)) h.0,
  length-encodings c (encoding t ++ p) h.1.0,
  length-encodings t p h.1.1.0,
)

-- A reliable event that was encoded is read back, with its kind set and no sequence, from the front
-- of any bytes that begin with its frame, and the frame's length is what the decoder has used.
pub decode-encode_reliable :
    (e : Event) (max_payload : ℤ) (frame rest : List ℕ)
    → IsInt max_payload
    → encode_reliable_event e max_payload ≡ ok frame
    → decode_reliable_event (frame ++ rest) max_payload
      ≡ ok (record e { kind = reliable_event_kind; sequence = 0 }, length frame)
unfolding decode_reliable_event
decode-encode_reliable e m frame rest i h =
    let body = fields reliable_event_kind e.channel e.message_type e.payload in
    let (range, small, fits, l, shape) = encode_reliable_event-FrameOf e m frame h in
    let at : frame ++ rest ≡ encoding (length body) ++ (body ++ rest) =
      rw shape (append_assoc (encoding (length body)) body rest) in
    let (d, rest_at) = reads_first (frame ++ rest) (length body) _ at l in
    let inside : take (length body) (body ++ rest) ≡ body = take-append body rest in
    let total : length frame ≡ varint_len (length body) + length body =
      omega (arith, ap length shape, length-encodings (length body) body l) in
    let short : ltb (length (frame ++ rest) - varint_len (length body)) (length body) ≡ false =
      ground (arith, total, length-append frame rest) in
    let used : ltb (length body)
          (varint_len reliable_event_kind + varint_len e.channel + varint_len e.message_type)
        ≡ false =
      ground (
        arith,
        length-fields reliable_event_kind e.channel e.message_type e.payload (omega arith),
      ) in
    rw (
      d,
      rest_at,
      inside,
      within_u64 (length body) m i fits,
      short,
      decode_event-fields body reliable_event_kind e.channel e.message_type e.payload 1 refl
          (omega arith) refl,
      used,
      small,
      total,
    )

-- A sequence that no varint can carry is an error.
pub append_event_large :
    (e : Event)
    → All IsVarint (e.kind ∷ e.channel ∷ e.message_type ∷ [])
    → max_varint < e.sequence
    → append_event [] e true ≡ err value_too_large
unfolding append_event
append_event_large e h g = rw (
  append_varints-encodings [] (e.kind ∷ e.channel ∷ e.message_type ∷ []) h,
  append_too_large _ e.sequence g,
)
