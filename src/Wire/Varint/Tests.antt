-- ===== src/Wire/Varint/Tests.antt =====
-- Runs of the varint codec, and its theorems at concrete inputs.
use sgsp.Common.{ℕ, ◌≡◌, refl, List, [], ◌∷◌, arith}
use sgsp.Wire.Result.{Result, ok, err, truncated, non_minimal, eof}
use sgsp.Wire.Varint.{append_varint, decode_varint}
use sgsp.Wire.Varint.Encode.{encoding}
use sgsp.Wire.Varint.Canonical.{IsDecoded, decode-IsDecoded, decode_truncated}

append_small : append_varint [] 37 ≡ ok (37 ∷ [])
unfolding append_varint
append_small = refl

append_two : append_varint [] 15293 ≡ ok (0x7b ∷ 0xbd ∷ [])
unfolding append_varint
append_two = refl

decode_eight :
    decode_varint (0xc2 ∷ 0x19 ∷ 0x7c ∷ 0x5e ∷ 0xff ∷ 0x14 ∷ 0xe8 ∷ 0x8c ∷ 9 ∷ [])
    ≡ ok (151288809941952652, 8)
unfolding decode_varint
decode_eight = refl

decode_padded : decode_varint (0x40 ∷ 0x01 ∷ []) ≡ err non_minimal
unfolding decode_varint
decode_padded = refl

decode_short : decode_varint (0x40 ∷ []) ≡ err truncated
unfolding decode_varint
decode_short = refl

decode-IsDecoded_example : IsDecoded (0x7b ∷ 0xbd ∷ 9 ∷ []) 15293 2
unfolding decode_varint
decode-IsDecoded_example = decode-IsDecoded (0x7b ∷ 0xbd ∷ 9 ∷ []) 15293 2 (omega arith) refl

decode_truncated_example : decode_varint (0x7b ∷ []) ≡ err truncated
unfolding encoding
decode_truncated_example = decode_truncated 15293 0xbd (0x7b ∷ []) [] (omega arith) refl

-- A reader over a list of bytes.
abbrev next_byte : List ℕ → Result (ℕ × List ℕ)
next_byte [] = err eof
next_byte (b ∷ bs) = ok (b, bs)
