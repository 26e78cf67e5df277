-- ===== src/Wire/Events.antt =====
-- internal/wire/events.go: the frames of reliable events and the datagrams.
pub mod RoundTrip
pub mod Datagram
pub mod Canonical
pub mod Header
mod Tests
use sgsp.Common.{
  ℕ, ◌+◌, ◌-◌, ◌^◌, List, [], ◌∷◌, ◌++◌, length, take, drop, ltb, ◌==◌, not, ◌&&◌, ◌||◌,
  if◌then◌else◌, Bool, true, false, Option, none, some,
}
use sgsp.Common.Int.{ℤ, is_neg, exceeds, add_int, to_u64}
use sgsp.Wire.Result.{Result, ok, err, ◌>>=◌, ◌>>◌, invalid_kind, too_large, malformed, truncated}
use sgsp.Wire.Varint.{varint_len, append_varint, decode_varint}
use sgsp.Wire.Varint.Reader.{read_varint}
use sgsp.Wire.Cursor.{append_varints}

abbrev pub max_message_type : ℕ
max_message_type = 2 ^ 32 - 1

abbrev pub max_channel : ℕ
max_channel = 2 ^ 16 - 1

abbrev pub reliable_event_kind : ℕ
reliable_event_kind = 1

abbrev pub unreliable_kind : ℕ
unreliable_kind = 2

abbrev pub sequenced_kind : ℕ
sequenced_kind = 3

pub record Event : Type 0 where
  pub kind : ℕ
  pub channel : ℕ
  pub message_type : ℕ
  pub sequence : ℕ
  pub payload : List ℕ

unfoldable pub validate_event : Event → Bool → Result (Unit {0})
validate_event e sequenced =
    if ltb max_channel e.channel || e.message_type == 0 || ltb max_message_type e.message_type
    then err malformed
    else if sequenced && e.sequence == 0
    then err malformed
    else ok tt

unfoldable pub append_event : List ℕ → Event → Bool → Result (List ℕ)
append_event dst e sequence = do
  dst' ← append_varints dst (e.kind ∷ e.channel ∷ e.message_type ∷ [])
  dst'' ← if sequence then append_varint dst' e.sequence else ok dst'
  ok (dst'' ++ e.payload)

pub encode_reliable_channel_header : ℕ → Result (List ℕ)
encode_reliable_channel_header channel = do
  b ← append_varint [] reliable_event_kind
  append_varint b channel

pub encode_reliable_event : Event → ℤ → Result (List ℕ)
encode_reliable_event e max_payload =
    if not (e.kind == 0) && not (e.kind == reliable_event_kind)
    then err invalid_kind
    else if is_neg max_payload || exceeds (length e.payload) max_payload
    then err too_large
    else do
      let event = record e { kind = reliable_event_kind }
      validate_event event false
      body ← append_event [] event false
      if exceeds (length body) (add_int max_payload 32)
          then err too_large
          else do b ← append_varint [] (length body); ok (b ++ body)

-- The event with the payload behind its fields, and the offset of that payload.
unfoldable pub decode_event : List ℕ → ℕ → Bool → Result (Event × ℕ)
decode_event src expected_kind sequence = do
  (kind, n) ← decode_varint src
  if not (expected_kind == 0) && not (kind == expected_kind) then err invalid_kind else do
    (channel, n') ← decode_varint (drop n src)
    let used = n + n'
    (message_type, n'') ← decode_varint (drop used src)
    let used' = used + n''
    (sequence', used'') ←
        if sequence
        then (do (s, m) ← decode_varint (drop used' src); ok (s, used' + m))
        else ok (0, used')
    ok (
      record {
        kind = kind;
        channel = channel;
        message_type = message_type;
        sequence = sequence';
        payload = drop used'' src;
      },
      used'',
    )

pub decode_reliable_event : List ℕ → ℤ → Result (Event × ℕ)
decode_reliable_event src max_payload = do
  (len, n) ← decode_varint src
  if ltb (to_u64 (add_int max_payload 32)) len || ltb (length src - n) len
      then if ltb (to_u64 (add_int max_payload 32)) len then err too_large else err truncated
      else do
        let body = take len (drop n src)
        (event, used) ← decode_event body reliable_event_kind false
        if ltb (length body) used || exceeds (length event.payload) max_payload
            then err malformed
            else ok (event, n + len)

-- The header of a frame of `len` bytes from an io.ByteReader, which may be nil: the event with no
-- payload, the payload's length, and the reader behind the header.
module _ {R : Type 0} (read_byte : R → Result (ℕ × R)) where
  pub read_reliable_event_header : Option R → ℕ → ℤ → Result (Event × ℕ × R)
  read_reliable_event_header none len max_payload = err too_large
  read_reliable_event_header (some r) len max_payload =
      if is_neg max_payload || ltb (to_u64 (add_int max_payload 32)) len then err too_large else do
        (kind, s) ← read_varint read_byte r
        (channel, t) ← read_varint read_byte s
        (message_type, u) ← read_varint read_byte t
        let used = varint_len kind + varint_len channel + varint_len message_type
        let event : Event = record {
          kind = kind;
          channel = channel;
          message_type = message_type;
          sequence = 0;
          payload = [];
        }
        if not (kind == reliable_event_kind) then err invalid_kind else do
          validate_event event false
          if ltb len used
              then err truncated
              else let payload_bytes = len - used in
                if ltb (to_u64 max_payload) payload_bytes
                then err too_large
                else ok (event, payload_bytes, u)

unfoldable pub encode_datagram : Event → ℤ → Result (List ℕ)
encode_datagram e max_bytes =
    if not (e.kind == unreliable_kind) && not (e.kind == sequenced_kind)
    then err invalid_kind
    else if is_neg max_bytes
    then err too_large
    else do
      validate_event e (e.kind == sequenced_kind)
      b ← append_event [] e (e.kind == sequenced_kind)
      if exceeds (length b) max_bytes then err too_large else ok b

unfoldable pub decode_datagram : List ℕ → ℤ → Result Event
decode_datagram src max_bytes = if exceeds (length src) max_bytes then err too_large else do
  (event, used) ← decode_event src 0 false
  if not (event.kind == unreliable_kind) && not (event.kind == sequenced_kind)
      then err invalid_kind
      else do
        (sequence, used') ←
            if event.kind == sequenced_kind
            then (do (s, n) ← decode_varint (drop used src); ok (s, used + n))
            else ok (event.sequence, used)
        let event' = record event { sequence = sequence }
        validate_event event' (event'.kind == sequenced_kind)
        ok (record event' { payload = drop used' src })
