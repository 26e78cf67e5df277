-- ===== src/Wire/Control/Json.antt =====
-- internal/wire/control.go: the JSON tokens of a control message. json.Decoder is a parameter: Token's
-- answers and More. The recursion of validateValue and its loops run on fuel; without fuel there is no
-- answer.
use sgsp.Common.{
  ℕ, zero, suc, ◌+◌, ◌==◌, ltb, List, [], ◌∷◌, length, if◌then◌else◌, Bool, true, false, not, ◌&&◌,
  ◌||◌, Option, none, some,
}
use Prim.Native.String.{len}
use text.Mathlib.Text.{◌==◌ as ◌=s◌}
use sgsp.Wire.Result.{invalid_control, duplicate_key, nesting, Result, ok, err}
pub use Prim.Native.String.{String}

abbrev pub Bytes : Type 0
Bytes = List ℕ

-- map[string]json.RawMessage
abbrev pub Map : Type 0
Map = String → Option Bytes

-- `m[k]`, which is empty for a missing key.
abbrev pub field : Map → String → Bytes
field m k = elim (m k) [ none ↦ [] | some raw ↦ raw ]

pub data Token : Type 0 where
  object_starts object_ends array_starts array_ends : Token
  str : String → Token
  scalar : Token

-- What Token answers: a token and the decoder behind it, io.EOF, or another error.
pub data Answer {ℓ} (D : Type ℓ) : Type ℓ where
  next : Token → D → Answer D
  eof : Answer D
  failed : Answer D

-- The packages of Go. Unmarshal answers `none` for an error; into a map it may leave nil.
pub record Go : Type 1 where
  pub Decoder : Type 0
  pub start : Bytes → Decoder
  pub token : Decoder → Answer Decoder
  pub more : Decoder → Bool
  pub valid_utf8 : Bytes → Bool
  pub valid_utf8_string : String → Bool
  pub unmarshal_map : Bytes → Option (Option Map)
  pub unmarshal_string : Bytes → Option String
  pub unmarshal_uint64 : Bytes → Option ℕ
  pub unmarshal_strings : Bytes → Option (List String)
  pub decode_hex : String → Option Bytes
  pub decode_base64 : String → Option Bytes
  pub to_lower : String → String
  pub trim_digits : String → String

abbrev pub same : String → String → Bool
same a b = a =s b

-- `_, ok := seen[key]`
abbrev pub has_seen : List String → String → Bool
has_seen [] k = false
has_seen (s ∷ seen) k = same s k || has_seen seen k

abbrev pub bytes_null : Bytes
bytes_null = 0x6e ∷ 0x75 ∷ 0x6c ∷ 0x6c ∷ []

abbrev pub same_bytes : Bytes → Bytes → Bool
same_bytes [] [] = true
same_bytes [] (c ∷ cs) = false
same_bytes (b ∷ bs) [] = false
same_bytes (b ∷ bs) (c ∷ cs) = b == c && same_bytes bs cs

-- `len(raw) == 0 || bytes.Equal(raw, []byte("null"))`
abbrev pub is_absent : Bytes → Bool
is_absent raw = length raw == 0 || same_bytes raw bytes_null

-- The end of an object or an array: the one delimiter that is expected.
abbrev pub object_end {ℓ} : {D : Type ℓ} → Answer D → Result D
object_end (next object_ends d) = ok d
object_end _ = err invalid_control

abbrev pub array_end {ℓ} : {D : Type ℓ} → Answer D → Result D
array_end (next array_ends d) = ok d
array_end _ = err invalid_control

-- The key of a member, not seen before.
abbrev pub member_key {ℓ} : {D : Type ℓ} → List String → Answer D → Result (String × D)
member_key seen (next (str k) d) = if has_seen seen k then err duplicate_key else ok (k, d)
member_key seen _ = err invalid_control

-- What follows a result: its error ends the run.
abbrev pub and_then {ℓ κ} :
    {V : Type ℓ} {W : Type κ} → Option (Result V) → (V → Option (Result W)) → Option (Result W)
and_then none f = none
and_then (some (err e)) f = some (err e)
and_then (some (ok v)) f = f v

module _ (go : Go) where
  open go use {Decoder, token, more, unmarshal_string, valid_utf8_string}

  -- jsonString
  unfoldable pub has_text : Bytes → ℕ → Bool → Bool
  has_text raw max empty = if is_absent raw then false else elim (unmarshal_string raw) [
    | none ↦ false
    | some value ↦
        not (not empty && same value "") && not (ltb max (len value)) && valid_utf8_string value
  ]

  -- validateValue with its two loops; each call takes one unit of fuel.
  unfoldable mutual
    pub validate_value : ℕ → Decoder → ℕ → Bool → Option (Result Decoder)
    validate_value zero d depth root = none
    validate_value (suc fuel) d depth root =
        if ltb 8 depth then some (err nesting) else elim (token d) [
          | eof ↦ some (err invalid_control)
          | failed ↦ some (err invalid_control)
          | next t d' ↦ elim t [
            | object_starts ↦
                if not root && depth == 8 then some (err nesting) else members fuel d' depth []
            | array_starts ↦ if root then some (err invalid_control) else elements fuel d' depth
            | object_ends ↦ some (if root then err invalid_control else ok d')
            | array_ends ↦ some (if root then err invalid_control else ok d')
            | str s ↦ some (if root then err invalid_control else ok d')
            | scalar ↦ some (if root then err invalid_control else ok d')
          ]
        ]

    pub members : ℕ → Decoder → ℕ → List String → Option (Result Decoder)
    members zero d depth seen = none
    members (suc fuel) d depth seen =
        if more d
        then and_then (some (member_key seen (token d))) (λ kd.
          and_then (validate_value fuel kd.1 (depth + 1) false)
            (λ d'. members fuel d' depth (kd.0 ∷ seen)))
        else some (object_end (token d))

    pub elements : ℕ → Decoder → ℕ → Option (Result Decoder)
    elements zero d depth = none
    elements (suc fuel) d depth =
        if more d
        then and_then (validate_value fuel d (depth + 1) false) (λ d'. elements fuel d' depth)
        else some (array_end (token d))
