-- ===== src/Wire/Events/Header.antt =====
-- ReadReliableEventHeader against the frames that EncodeReliableEvent writes.
use sgsp.Common.{ℕ, ◌+◌, ◌-◌, ◌≡◌, refl, inl, arith, List, [], length, ltb, some, false}
use sgsp.Common.Int.{ℤ, IsInt, not_neg, inside_u64}
use sgsp.Wire.Result.{Result, ok}
use sgsp.Wire.Varint.{varint_len}
use sgsp.Wire.Varint.Reader.{read_varint, Delivers, read-encoding}
use sgsp.Wire.Events.{Event, encode_reliable_event, read_reliable_event_header, reliable_event_kind}
use sgsp.Wire.Events.RoundTrip.{
  fields, validate_event-ok, length-fields, within_u64, encode_reliable_event-FrameOf,
}

module _ {R : Type 0} (read_byte : R → Result (ℕ × R)) where
  -- The stream reader, given the length in front of a frame and then the frame's body, returns the
  -- event's fields and its payload's length, and leaves the reader at the payload.
  pub read-encode_reliable :
      (r : R) (e : Event) (m : ℤ) (frame : List ℕ)
      → IsInt m
      → encode_reliable_event e m ≡ ok frame
      → Delivers read_byte r frame
      → (s : R) × (t : R) × (len : ℕ) × (read_varint read_byte r ≡ ok (len, s))
        × (read_reliable_event_header read_byte (some s) len m
            ≡ ok (
              record e { kind = reliable_event_kind; sequence = 0; payload = [] },
              length e.payload,
              t,
            ))
        × Delivers read_byte t e.payload
  unfolding read_reliable_event_header
  read-encode_reliable r e m frame i h d =
      let p = e.payload in
      let c = e.channel in
      let t = e.message_type in
      let body = fields reliable_event_kind c t p in
      let (range, small, fits, l, shape) = encode_reliable_event-FrameOf e m frame h in
      let (r', q, d') = read-encoding read_byte r (length body) body l (rw shape at d) in
      let (r1, q1, d1) = read-encoding read_byte r' reliable_event_kind _ (omega arith) d' in
      let (r2, q2, d2) = read-encoding read_byte r1 c _ (omega arith) d1 in
      let (r3, q3, d3) = read-encoding read_byte r2 t p (omega arith) d2 in
      let used : ℕ = varint_len reliable_event_kind + varint_len c + varint_len t in
      let whole : length body ≡ used + length p =
        length-fields reliable_event_kind c t p (omega arith) in
      let behind : length body - used ≡ length p = omega (arith, whole) in
      let long : ltb (length body) used ≡ false = ground (arith, whole) in
      (
        r',
        r3,
        length body,
        q,
        rw (
          not_neg (length p) m small,
          within_u64 (length body) m i fits,
          q1,
          q2,
          q3,
          validate_event-ok (record e { kind = 1; sequence = 0; payload = [] }) false range
              (inl refl),
          long,
          behind,
          inside_u64 (length p) m i small,
        ),
        d3,
      )
