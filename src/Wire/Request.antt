-- ===== src/Wire/Request.antt =====
-- internal/wire/request.go: requests, responses and the header of a custom stream. utf8.Valid is a
-- parameter of the responses.
pub mod Requests
pub mod Responses
pub mod Custom
mod Tests
use sgsp.Common.{
  ℕ, ◌+◌, ◌-◌, List, [], ◌∷◌, ◌++◌, length, drop, ltb, ◌==◌, not, ◌&&◌, ◌||◌, if◌then◌else◌, Bool,
  Option, none, some,
}
use sgsp.Common.Int.{ℤ, is_neg, exceeds, to_u64}
use sgsp.Wire.Result.{Result, ok, err, ◌>>=◌, malformed, too_large, invalid_kind, extra_bytes}
use sgsp.Wire.Varint.{append_varint, decode_varint}
use sgsp.Wire.Varint.Reader.{read_varint}
use sgsp.Wire.Cursor.{append_varints}
use sgsp.Wire.Events.{max_message_type}

abbrev pub max_diagnostic_bytes : ℕ
max_diagnostic_bytes = 256

abbrev pub request_stream_kind : ℕ
request_stream_kind = 2

abbrev pub custom_stream_kind : ℕ
custom_stream_kind = 3

-- The longest timeout of a request, five minutes.
abbrev pub max_timeout_ms : ℕ
max_timeout_ms = 300000

pub record Request : Type 0 where
  pub message_type : ℕ
  pub timeout_ms : ℕ
  pub payload : List ℕ

pub record Response : Type 0 where
  pub status : ℕ
  pub payload : List ℕ

pub encode_request : Request → ℤ → Result (List ℕ)
encode_request r max_payload =
    if r.message_type == 0
      || ltb max_message_type r.message_type
      || r.timeout_ms == 0
      || ltb max_timeout_ms r.timeout_ms
      || exceeds (length r.payload) max_payload
    then err malformed
    else do
      b ← append_varint [] request_stream_kind
      b' ← append_varints b (r.message_type ∷ r.timeout_ms ∷ length r.payload ∷ [])
      ok (b' ++ r.payload)

-- The loop over the four values is written out.
pub decode_request : List ℕ → ℤ → Result Request
decode_request src max_payload = do
  (kind, n) ← decode_varint src
  (message_type, n') ← decode_varint (drop n src)
  (timeout_ms, n'') ← decode_varint (drop (n + n') src)
  (len, n''') ← decode_varint (drop (n + n' + n'') src)
  let used = n + n' + n'' + n'''
  if not (kind == request_stream_kind)
        || message_type == 0
        || ltb max_message_type message_type
        || ltb (to_u64 max_payload) len
        || not (len == length src - used)
        || timeout_ms == 0
        || ltb max_timeout_ms timeout_ms
      then err malformed
      else ok
          (record { message_type = message_type; timeout_ms = timeout_ms; payload = drop used src })

pub encode_custom_stream_header : ℕ → Result (List ℕ)
encode_custom_stream_header message_type =
    if message_type == 0 || ltb max_message_type message_type
    then err malformed
    else do b ← append_varint [] custom_stream_kind; append_varint b message_type

pub decode_custom_stream_header : List ℕ → Result ℕ
decode_custom_stream_header src = do
  (kind, n) ← decode_varint src
  if not (kind == custom_stream_kind) then err invalid_kind else do
    (typ, m) ← decode_varint (drop n src)
    if not (n + m == length src)
        then err extra_bytes
        else if typ == 0 || ltb max_message_type typ
        then err malformed
        else ok typ

-- The headers read from a stream, behind the kind of the stream: with the payload's length.
module _ {R : Type 0} (read_byte : R → Result (ℕ × R)) where
  pub read_request_header : Option R → ℤ → Result (Request × ℕ × R)
  read_request_header none max_payload = err malformed
  read_request_header (some r) max_payload = if is_neg max_payload then err malformed else do
    (message_type, s) ← read_varint read_byte r
    (timeout_ms, t) ← read_varint read_byte s
    (payload_bytes, u) ← read_varint read_byte t
    if message_type == 0
          || ltb max_message_type message_type
          || timeout_ms == 0
          || ltb max_timeout_ms timeout_ms
          || ltb (to_u64 max_payload) payload_bytes
        then err malformed
        else ok (
          record { message_type = message_type; timeout_ms = timeout_ms; payload = [] },
          payload_bytes,
          u,
        )

  pub read_response_header : Option R → ℤ → Result (Response × ℕ × R)
  read_response_header none max_payload = err malformed
  read_response_header (some r) max_payload = if is_neg max_payload then err malformed else do
    (status, s) ← read_varint read_byte r
    (payload_bytes, t) ← read_varint read_byte s
    if ltb (to_u64 max_payload) payload_bytes
          || (not (status == 0) && ltb max_diagnostic_bytes payload_bytes)
        then err malformed
        else ok (record { status = status; payload = [] }, payload_bytes, t)

module _ (valid_utf8 : List ℕ → Bool) where
  pub encode_response : Response → ℤ → Result (List ℕ)
  encode_response r max_payload =
      if exceeds (length r.payload) max_payload
      then err too_large
      else if not (r.status == 0)
          && (ltb max_diagnostic_bytes (length r.payload) || not (valid_utf8 r.payload))
      then err malformed
      else do
        b ← append_varint [] r.status
        b' ← append_varint b (length r.payload)
        ok (b' ++ r.payload)

  pub decode_response : List ℕ → ℤ → Result Response
  decode_response src max_payload = do
    (status, n) ← decode_varint src
    (len, m) ← decode_varint (drop n src)
    if ltb (to_u64 max_payload) len
          || not (len == length src - n - m)
          || (not (status == 0)
              && (ltb max_diagnostic_bytes len || not (valid_utf8 (drop (n + m) src))))
        then err malformed
        else ok (record { status = status; payload = drop (n + m) src })
