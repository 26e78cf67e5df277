-- ===== src/Wire/Control/Capabilities.antt =====
-- internal/wire/control.go: RequireCapabilities. A `supported[name]` that is missing reads false.
use sgsp.Common.{
  ◌≡◌, refl, ◌↔◌, arith, inl, inr, List, [], ◌∷◌, All, Bool, true, false, Bool-cases, if◌then◌else◌,
  not, ◌==◌, none, some,
}
use Prim.Native.String.{len}
use sgsp.Wire.Result.{Result, ok, err, invalid_control, invalid_kind}
use sgsp.Wire.Control.Json.{String, Bytes, Go, has_seen}
use sgsp.Wire.Control.{Control}

-- The loop; a wrapped error stands as the error that it wraps.
abbrev pub check_capabilities : (String → Bool) → List String → List String → Result (Unit {0})
check_capabilities supported seen [] = ok tt
check_capabilities supported seen (name ∷ names) =
    let rest = check_capabilities supported (name ∷ seen) names in
    if len name == 0
    then err invalid_control
    else if has_seen seen name
    then err invalid_control
    else if not (supported name)
    then err invalid_kind
    else rest

unfoldable pub require_capabilities : Go → Control → (String → Bool) → Result (Unit {0})
require_capabilities go control supported = elim (control.fields "required") [
  | none ↦ err invalid_control
  | some raw ↦ elim (go.unmarshal_strings raw) [
    | none ↦ err invalid_control
    | some capabilities ↦ check_capabilities supported [] capabilities
  ]
]

-- Each name once, none of them among those seen.
abbrev pub AreFresh : List String → List String → Type 0
AreFresh seen [] = Unit
AreFresh seen (name ∷ names) = (has_seen seen name ≡ false) × AreFresh (name ∷ seen) names

abbrev pub IsMet : (String → Bool) → String → Type 0
IsMet supported name = (len name == 0 ≡ false) × (supported name ≡ true)

check_capabilities_sound :
    (supported : String → Bool) (seen names : List String)
    → check_capabilities supported seen names ≡ ok tt
    → All (IsMet supported) names × AreFresh seen names
check_capabilities_sound supported seen [] h = (tt, tt)
check_capabilities_sound supported seen (name ∷ names) h = elim (Bool-cases (len name == 0)) [
  | inl e ↦ absurd (ground arith)
  | inr e ↦ elim (Bool-cases (has_seen seen name)) [
    | inl f ↦ absurd (ground arith)
    | inr f ↦ elim (Bool-cases (supported name)) [
      | inr g ↦ absurd (ground arith)
      | inl g ↦
          let (a, b) = check_capabilities_sound supported (name ∷ seen) names (rw (e, f, g) at h) in
          (((e, g), a), (f, b))
    ]
  ]
]

check_capabilities_complete :
    (supported : String → Bool) (seen names : List String)
    → All (IsMet supported) names
    → AreFresh seen names
    → check_capabilities supported seen names ≡ ok tt
check_capabilities_complete supported seen [] m d = refl
check_capabilities_complete supported seen (name ∷ names) ((e, g), m) (f, d) =
    rw (e, f, g, check_capabilities_complete supported (name ∷ seen) names m d) refl

-- The capabilities that a control message requires are accepted exactly when each is non-empty and
-- supported and no name comes twice.
pub require_capabilities-Met :
    (go : Go) (control : Control) (supported : String → Bool) (raw : Bytes) (names : List String)
    → control.fields "required" ≡ some raw
    → go.unmarshal_strings raw ≡ some names
    → (require_capabilities go control supported ≡ ok tt)
      ↔ (All (IsMet supported) names × AreFresh [] names)
unfolding require_capabilities
require_capabilities-Met go control supported raw names e f = (
  λ h. check_capabilities_sound supported [] names (rw (e, f, require_capabilities) at h),
  λ (m, d). rw (e, f, require_capabilities) (check_capabilities_complete supported [] names m d),
)
