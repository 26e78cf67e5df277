-- ===== src/Wire/Control/Tests.antt =====
-- Witnesses for internal/wire/control.go, over a small reader of one-byte tokens: "o" is the key "op"
-- and "c" the text "close_ack".
use sgsp.Common.{
  ℕ, ◌≡◌, refl, ◌==◌, [], ◌∷◌, ◌++◌, ◌↔◌, All, length, if◌then◌else◌, Bool, true, false, not, ◌||◌,
  none, some, arith, ◌<◌,
}
use sgsp.Common.Int.{pos}
use sgsp.Wire.Result.{Result, ok, err, nesting, invalid_control}
use sgsp.Wire.Varint.{append_varint}
use sgsp.Wire.Control.Json.{
  Bytes, Map, same, has_text, Token, object_starts, object_ends, array_starts, array_ends, str,
  scalar, Answer, next, eof, Go, validate_value, members, elements,
}
use sgsp.Wire.Control.{
  Control, control_limit, decode_control_body, encode_control, decode_control, validate_json,
}
use sgsp.Wire.Control.Fields.{validate_control}
use sgsp.Wire.Control.Nesting.{Consumes, validate_value-Ends}
use sgsp.Wire.Control.Framing.{decode-encode_control}
use sgsp.Wire.Control.Capabilities.{IsMet, AreFresh, require_capabilities, require_capabilities-Met}

abbrev token_of : ℕ → Token
token_of b =
    if b == 0x7b
    then object_starts
    else if b == 0x7d
    then object_ends
    else if b == 0x5b
    then array_starts
    else if b == 0x5d
    then array_ends
    else if b == 0x6f
    then str "op"
    else scalar

abbrev answer : Bytes → Answer Bytes
answer [] = eof
answer (b ∷ bs) = next (token_of b) bs

abbrev has_more : Bytes → Bool
has_more [] = false
has_more (b ∷ bs) = not (b == 0x7d || b == 0x5d)

abbrev fields_of : Map
fields_of k = if same k "op" then some (0x63 ∷ []) else none

abbrev reader : Go
reader = record {
  Decoder = Bytes;
  start = λ raw. raw;
  token = answer;
  more = has_more;
  valid_utf8 = λ raw. true;
  valid_utf8_string = λ s. true;
  unmarshal_map = λ raw. some (some fields_of);
  unmarshal_string = λ raw. some "close_ack";
  unmarshal_uint64 = λ raw. none;
  unmarshal_strings = λ raw. some ("ordered" ∷ "resume" ∷ []);
  decode_hex = λ s. none;
  decode_base64 = λ s. none;
  to_lower = λ s. s;
  trim_digits = λ s. s;
}

answer-takes : (d d' : Bytes) (t : Token) → answer d ≡ next t d' → length d' < length d
answer-takes [] d' t e = cc
answer-takes (b ∷ bs) d' t e = ground arith

reader-Consumes : Consumes reader
reader-Consumes = record { size = length; starts = λ raw. omega arith; takes = answer-takes }

abbrev message : Bytes
message = 0x7b ∷ 0x6f ∷ 0x63 ∷ 0x7d ∷ []

accepts_message : encode_control reader message (pos 100) ≡ ok (4 ∷ message)
unfolding encode_control control_limit decode_control_body validate_json validate_value members
    elements validate_control append_varint has_text
accepts_message = refl

-- Nine objects within each other are too deep.
refuses_nesting :
    decode_control_body reader
      (0x7b ∷ 0x6f ∷ 0x7b ∷ 0x6f ∷ 0x7b ∷ 0x6f ∷ 0x7b ∷ 0x6f ∷ 0x7b ∷ 0x6f ∷ 0x7b ∷ 0x6f ∷ 0x7b
        ∷ 0x6f ∷ 0x7b ∷ 0x6f ∷ 0x7b ∷ [])
      (pos 100)
    ≡ err nesting
unfolding decode_control_body validate_json validate_value members elements
refuses_nesting = refl

-- The root may not be an array.
refuses_array : decode_control_body reader (0x5b ∷ 0x5d ∷ []) (pos 100) ≡ err invalid_control
unfolding decode_control_body validate_json validate_value members elements
refuses_array = refl

read_message : (c : Control) × (decode_control reader (4 ∷ message) (pos 100) ≡ ok (c, 5))
read_message =
    let (c, _, e) =
      decode-encode_control reader message [] (4 ∷ message) (pos 100) accepts_message in
    (c, e)

validate_value-Ends_example : (r : Result Bytes) × (validate_value reader 9 message 0 true ≡ some r)
validate_value-Ends_example = validate_value-Ends reader reader-Consumes message 0 true

decode-encode_control_example :
    (c : Control) × (decode_control_body reader message (pos (control_limit (pos 100))) ≡ ok c)
    × (decode_control reader ((4 ∷ message) ++ (1 ∷ [])) (pos 100) ≡ ok (c, 5))
decode-encode_control_example =
    decode-encode_control reader message (1 ∷ []) (4 ∷ message) (pos 100) accepts_message

abbrev hello : Control
hello = record { op = "hello"; fields = λ k. some (0x5b ∷ []) }

require_capabilities-Met_example : (require_capabilities reader hello (λ name. true) ≡ ok tt) ↔ (
    All (IsMet (λ name. true)) ("ordered" ∷ "resume" ∷ [])
    × AreFresh [] ("ordered" ∷ "resume" ∷ []))
require_capabilities-Met_example =
    require_capabilities-Met reader hello (λ name. true) (0x5b ∷ []) ("ordered" ∷ "resume" ∷ [])
      refl refl
