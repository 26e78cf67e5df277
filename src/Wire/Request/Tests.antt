-- ===== src/Wire/Request/Tests.antt =====
-- Runs of the request, response and custom stream codecs, and their theorems at concrete inputs.
use sgsp.Common.{ℕ, ◌≡◌, refl, List, [], ◌∷◌, arith, Bool, true, ltb}
use sgsp.Common.Int.{pos, negsuc}
use sgsp.Wire.Result.{Result, ok, err, eof, malformed}
use sgsp.Wire.Varint.{append_varint, decode_varint}
use sgsp.Wire.Varint.Reader.{Delivers}
use sgsp.Wire.Cursor.{append_varints}
use sgsp.Wire.Request.{
  Request, Response, encode_request, decode_request, encode_response, decode_response,
  encode_custom_stream_header, decode_custom_stream_header,
}
use sgsp.Wire.Request.Requests.{request_bytes, decode-encode_request, decode_request_negative}

abbrev query : Request
query = record { message_type = 1; timeout_ms = 5000; payload = 7 ∷ [] }

abbrev query_bytes : List ℕ
query_bytes = 2 ∷ 1 ∷ 0x53 ∷ 0x88 ∷ 1 ∷ 7 ∷ []

query_encoded : encode_request query (pos 9) ≡ ok query_bytes
unfolding encode_request append_varints append_varint
query_encoded = refl

query_decoded : decode_request query_bytes (pos 9) ≡ ok query
unfolding decode_request decode_varint
query_decoded = refl

decode-encode_request_example : decode_request query_bytes (pos 9) ≡ ok query
decode-encode_request_example =
    decode-encode_request query (pos 9) query_bytes (omega arith) query_encoded

decode_request_negative_example :
    (decode_request (request_bytes query) (negsuc 0) ≡ ok query)
    × (encode_request query (negsuc 0) ≡ err malformed)
decode_request_negative_example =
    decode_request_negative query 0 (omega arith) (omega arith) (omega arith)

abbrev next_byte : List ℕ → Result (ℕ × List ℕ)
next_byte [] = err eof
next_byte (b ∷ bs) = ok (b, bs)

delivered : (bs : List ℕ) → Delivers next_byte bs bs
delivered [] = refl
delivered (b ∷ bs) = (bs, refl, delivered bs)

-- A test of UTF-8 that is right on ASCII.
abbrev ascii : List ℕ → Bool
ascii [] = true
ascii (b ∷ bs) = ltb b 128

abbrev refusal : Response
refusal = record { status = 20; payload = 0x6e ∷ 0x6f ∷ [] }

abbrev refusal_bytes : List ℕ
refusal_bytes = 20 ∷ 2 ∷ 0x6e ∷ 0x6f ∷ []

refusal_encoded : encode_response ascii refusal (pos 9) ≡ ok refusal_bytes
unfolding encode_response append_varint
refusal_encoded = refl

refusal_decoded : decode_response ascii refusal_bytes (pos 9) ≡ ok refusal
unfolding decode_response decode_varint
refusal_decoded = refl

custom_encoded : encode_custom_stream_header 300 ≡ ok (3 ∷ 0x41 ∷ 0x2c ∷ [])
unfolding encode_custom_stream_header append_varint
custom_encoded = refl

custom_decoded : decode_custom_stream_header (3 ∷ 0x41 ∷ 0x2c ∷ []) ≡ ok 300
unfolding decode_custom_stream_header decode_varint
custom_decoded = refl
