-- ===== src/Wire/Control.antt =====
-- internal/wire/control.go: the frames of control messages, and the checks of their JSON. The packages
-- encoding/json, encoding/hex, encoding/base64, strings and unicode/utf8 are the parameter `go`. A
-- decoded JSON string is a text; a map is what its keys find.
pub mod Json
pub mod Fields
pub mod Framing
pub mod Nesting
pub mod Capabilities
mod Tests
use sgsp.Common.{
  ℕ, suc, ◌+◌, ◌-◌, ◌*◌, ◌==◌, ltb, List, [], ◌∷◌, ◌++◌, length, take, drop, if◌then◌else◌, Bool,
  true, false, not, ◌&&◌, ◌||◌, Option, none, some,
}
use sgsp.Common.Int.{ℤ, pos, negsuc, exceeds}
use sgsp.Wire.Result.{
  Error, too_large, truncated, invalid_control, duplicate_key, nesting, invalid_kind, Result, ok,
  err, ◌>>=◌, ◌>>◌,
}
use sgsp.Wire.Varint.{append_varint, decode_varint}
use sgsp.Wire.Control.Json.{
  String, Bytes, Map, field, Go, Answer, next, eof, failed, validate_value, has_text,
}
use sgsp.Wire.Control.Fields.{validate_control}

abbrev pub pre_negotiation_control_bytes : ℕ
pre_negotiation_control_bytes = 0x4000

pub record Control : Type 0 where
  pub op : String
  pub fields : Map

-- `maxBytes <= 0 || maxBytes > PreNegotiationControlBytes`
unfoldable pub control_limit : ℤ → ℕ
control_limit (negsuc n) = pre_negotiation_control_bytes
control_limit (pos n) =
    if n == 0 || ltb pre_negotiation_control_bytes n then pre_negotiation_control_bytes else n

module _ (go : Go) where
  open go use {Decoder, valid_utf8, start, token, unmarshal_map, unmarshal_string}

  -- The error of a decoder's run; the fuel is enough for the bytes that are read.
  unfoldable pub validate_json : Bytes → Result Decoder
  validate_json raw = elim (validate_value go (2 * length raw + 1) (start raw) 0 true) [
    | none ↦ err invalid_control
    | some r ↦ r
  ]

  abbrev pub at_end : Answer Decoder → Result (Unit {0})
  at_end eof = ok tt
  at_end failed = err invalid_control
  at_end (next t d) = err invalid_control

  abbrev pub map_of : Option (Option Map) → Result Map
  map_of none = err invalid_control
  map_of (some none) = ok (λ k. none)
  map_of (some (some m)) = ok m

  abbrev pub operation_of : Map → Result String
  operation_of fields = elim (fields "op") [
    | none ↦ err invalid_control
    | some op ↦
        if has_text go op 128 false
        then (elim (unmarshal_string op) [ none ↦ ok "" | some s ↦ ok s ])
        else err invalid_control
  ]

  unfoldable pub decode_control_body : Bytes → ℤ → Result Control
  decode_control_body raw max_bytes =
      if length raw == 0 || exceeds (length raw) max_bytes || not (valid_utf8 raw)
      then err invalid_control
      else do
        d ← validate_json raw
        at_end (token d)
        fields ← map_of (unmarshal_map raw)
        op ← operation_of fields
        validate_control go op fields
        ok (record { op = op; fields = fields })

  unfoldable pub encode_control : Bytes → ℤ → Result Bytes
  encode_control raw max =
      let max_bytes = control_limit max in
      if ltb max_bytes (length raw) then err too_large else do
        control ← decode_control_body raw (pos max_bytes)
        b ← append_varint [] (length raw)
        ok (b ++ raw)

  -- The number of the bytes used comes with the control; Go returns it with an error too.
  unfoldable pub decode_control : Bytes → ℤ → Result (Control × ℕ)
  decode_control src max = do
    (len, n) ← decode_varint src
    let max_bytes = control_limit max
    if ltb max_bytes len
        then err too_large
        else if ltb (length src - n) len
        then err truncated
        else do
          control ← decode_control_body (take len (drop n src)) (pos max_bytes)
          ok (control, n + len)
