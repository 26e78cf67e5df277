-- ===== src/Wire/Control/Fields.antt =====
-- internal/wire/control.go: the checks of a control message's fields, by operation.
use sgsp.Common.{
  ℕ, ◌==◌, ltb, leb, List, [], ◌∷◌, length, if◌then◌else◌, Bool, true, false, not, ◌&&◌, ◌||◌,
  Option, none, some,
}
use Prim.Native.String.{len}
use text.Mathlib.Text.{starts_with}
use sgsp.Wire.Result.{invalid_control, Result, ok, err, ◌>>◌}
use sgsp.Wire.Request.{max_diagnostic_bytes}
use sgsp.Wire.Control.Json.{
  String, Bytes, Map, field, Go, same, has_seen, same_bytes, is_absent, has_text,
}

-- `if !test { return ErrInvalidControl }`
abbrev pub expect : Bool → Result (Unit {0})
expect true = ok tt
expect false = err invalid_control

-- The check of a field that may be missing.
abbrev pub optional : Option Bytes → (Bytes → Result (Unit {0})) → Result (Unit {0})
optional none f = ok tt
optional (some raw) f = f raw

abbrev pub bytes_true : Bytes
bytes_true = 0x74 ∷ 0x72 ∷ 0x75 ∷ 0x65 ∷ []

abbrev pub bytes_false : Bytes
bytes_false = 0x66 ∷ 0x61 ∷ 0x6c ∷ 0x73 ∷ 0x65 ∷ []

unfoldable pub boolean : Bytes → Bool
boolean raw = same_bytes raw bytes_true || same_bytes raw bytes_false

abbrev pub one_of : String → List String → Bool
one_of value [] = false
one_of value (c ∷ cs) = same value c || one_of value cs

-- `raw[0] != '['`, once it is known that there is a byte.
abbrev pub opens_list : Bytes → Bool
opens_list [] = false
opens_list (b ∷ bs) = b == 0x5b

module _ (go : Go) where
  open go use {
    valid_utf8_string, unmarshal_map, unmarshal_string, unmarshal_uint64, unmarshal_strings,
    decode_hex, decode_base64, to_lower, trim_digits,
  }

  unfoldable pub object : Bytes → Option Map
  object raw = elim (unmarshal_map raw) [ none ↦ none | some m ↦ m ]

  unfoldable pub positive_integer : Bytes → Bool
  positive_integer raw =
      if is_absent raw
      then false
      else elim (unmarshal_uint64 raw) [ none ↦ false | some value ↦ ltb 0 value ]

  unfoldable pub nonnegative_integer : Bytes → Bool
  nonnegative_integer raw =
      if is_absent raw
      then false
      else elim (unmarshal_uint64 raw) [ none ↦ false | some value ↦ true ]

  unfoldable pub one_of_string : Bytes → List String → Bool
  one_of_string raw values = elim (unmarshal_string raw) [
    | none ↦ false
    | some value ↦ one_of value values
  ]

  unfoldable pub positive_decimal_string : Bytes → Bool
  positive_decimal_string raw = elim (unmarshal_string raw) [
    | none ↦ false
    | some value ↦ not (same value "") && not (starts_with value "0") && same (trim_digits value) ""
  ]

  unfoldable pub valid_id : Bytes → Bool
  valid_id raw = elim (unmarshal_string raw) [
    | none ↦ false
    | some value ↦
        if not (len value == 32) || not (same (to_lower value) value)
        then false
        else elim (decode_hex value) [ none ↦ false | some b ↦ true ]
  ]

  unfoldable pub valid_base64_exact : Bytes → ℕ → Bool
  valid_base64_exact raw bytes = elim (unmarshal_string raw) [
    | none ↦ false
    | some value ↦ elim (decode_base64 value) [ none ↦ false | some b ↦ length b == bytes ]
  ]

  unfoldable pub valid_base64_at_most : Bytes → ℕ → Bool
  valid_base64_at_most raw max = if is_absent raw then false else elim (unmarshal_string raw) [
    | none ↦ false
    | some value ↦ elim (decode_base64 value) [ none ↦ false | some b ↦ leb (length b) max ]
  ]

  -- The loop of validateStringList.
  unfoldable pub list_values : List String → ℕ → List String → Result (Unit {0})
  list_values seen max [] = ok tt
  list_values seen max (value ∷ values) =
      if same value "" || ltb max (len value) || not (valid_utf8_string value)
      then err invalid_control
      else if has_seen seen value
      then err invalid_control
      else list_values (value ∷ seen) max values

  unfoldable pub validate_string_list : Bytes → ℕ → Result (Unit {0})
  validate_string_list raw max =
      if length raw == 0 || not (opens_list raw)
      then err invalid_control
      else elim (unmarshal_strings raw) [
        | none ↦ err invalid_control
        | some values ↦ list_values [] max values
      ]

  unfoldable pub validate_code_message : Map → Result (Unit {0})
  validate_code_message fields = expect (
      nonnegative_integer (field fields "code")
      && has_text go (field fields "message") max_diagnostic_bytes true)

  unfoldable pub validate_credential : Map → Result (Unit {0})
  validate_credential fields = elim (object (field fields "credential")) [
    | none ↦ err invalid_control
    | some credential ↦ expect (
        has_text go (field credential "scheme") 128 false
        && valid_base64_at_most (field credential "data") 4096)
  ]

  abbrev pub limit_keys : List String
  limit_keys =
      "control_bytes" ∷ "message_bytes" ∷ "datagram_bytes" ∷ "reliable_channels"
      ∷ "datagram_channels" ∷ "requests" ∷ "streams" ∷ []

  abbrev pub all_positive : Map → List String → Bool
  all_positive limits [] = true
  all_positive limits (key ∷ keys) = positive_integer (field limits key) && all_positive limits keys

  unfoldable pub validate_limits : Bytes → Result (Unit {0})
  validate_limits raw = elim (object raw) [
    | none ↦ err invalid_control
    | some limits ↦ expect (all_positive limits limit_keys)
  ]

  unfoldable pub validate_resume : Bytes → Result (Unit {0})
  validate_resume raw = elim (object raw) [
    | none ↦ err invalid_control
    | some resume ↦ expect (
        valid_id (field resume "session_id")
        && has_text go (field resume "owner_id") 128 false
        && valid_id (field resume "incarnation")
        && valid_base64_exact (field resume "secret") 32)
  ]

  unfoldable pub valid_owner : Bytes → Bool
  valid_owner raw = elim (object raw) [
    | none ↦ false
    | some owner ↦
        has_text go (field owner "id") 128 false
        && valid_id (field owner "incarnation")
        && has_text go (field owner "address") 128 false
        && has_text go (field owner "server_name") 128 false
  ]

  unfoldable pub valid_principal : Bytes → Bool
  valid_principal raw = elim (object raw) [
    | none ↦ false
    | some principal ↦
        has_text go (field principal "issuer") 128 false
        && has_text go (field principal "subject") 128 false
        && positive_integer (field principal "expires_unix_ms")
  ]

  unfoldable pub validate_hello : Map → Result (Unit {0})
  validate_hello fields = do
    expect (
        one_of_string (field fields "role") ("game" ∷ "bootstrap" ∷ [])
        && has_text go (field fields "app") 128 false
        && has_text go (field fields "app_version") 128 false)
    validate_string_list (field fields "required") 128
    validate_limits (field fields "limits")
    validate_credential fields
    optional (fields "group") (λ raw. expect (has_text go raw 256 false))
    optional (fields "admission") (λ raw. expect (has_text go raw 4096 false))
    optional (fields "resume") validate_resume

  unfoldable pub validate_welcome : Map → Result (Unit {0})
  validate_welcome fields = do
    expect (
        valid_id (field fields "session_id")
        && positive_decimal_string (field fields "epoch")
        && valid_owner (field fields "owner"))
    expect (valid_principal (field fields "principal"))
    validate_limits (field fields "limits")
    validate_string_list (field fields "capabilities") 128
    expect (
        boolean (field fields "resumed")
        && boolean (field fields "resumable")
        && nonnegative_integer (field fields "resume_grace_ms"))
    optional (fields "resume_secret") (λ raw. expect (valid_base64_exact raw 32))

  unfoldable pub validate_control : String → Map → Result (Unit {0})
  validate_control op fields =
      if same op "hello"
      then validate_hello fields
      else if same op "welcome"
      then validate_welcome fields
      else if same op "reject"
      then validate_code_message fields
      else if same op "refresh"
      then validate_credential fields
      else if same op "refresh_result"
      then (do
        validate_code_message fields
        optional (fields "expires_unix_ms") (λ raw. expect (positive_integer raw)))
      else if same op "close"
      then validate_code_message fields
      else if same op "close_ack"
      then ok tt
      else err invalid_control
