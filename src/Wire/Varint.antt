-- ===== src/Wire/Varint.antt =====
-- internal/wire/varint.go: QUIC variable-length integers. A byte slice is a list of numbers below
-- 256, and a uint64 is a number below 2 ^ 64.
pub mod Encode
pub mod Decode
pub mod Canonical
pub mod Reader
mod Tests
use sgsp.Common.{
  ℕ, zero, suc, ◌+◌, ◌-◌, ◌*◌, ◌/◌, ◌%◌, ◌^◌, ◌<◌, bit_and, bit_or, List, [], ◌∷◌, ◌++◌, length,
  ltb, leb, ◌==◌, not, if◌then◌else◌,
}
use sgsp.Wire.Result.{Result, ok, err, truncated, non_minimal, value_too_large}

abbrev pub IsByte : ℕ → Type 0
IsByte b = b < 256

abbrev pub IsU64 : ℕ → Type 0
IsU64 v = v < 2 ^ 64

abbrev pub max_varint : ℕ
max_varint = 2 ^ 62 - 1

-- VarintLen, a ladder of cases.
pub varint_len : ℕ → ℕ
varint_len v =
    if leb v 63
    then 1
    else if leb v 16383
    then 2
    else if leb v 1073741823
    then 4
    else if leb v max_varint
    then 8
    else 0

-- `byte(v)`
abbrev pub byte : ℕ → ℕ
byte v = v % 256

-- The bytes of `v` below its byte number `k`, the highest first: the loop `byte(v >> 8*(7-i))`.
abbrev pub low_bytes : ℕ → ℕ → List ℕ
low_bytes zero v = []
low_bytes (suc k) v = byte (v / 2 ^ (8 * k)) ∷ low_bytes k v

-- What the switch of AppendVarint writes behind `dst`, for n = VarintLen(v).
pub varint_bytes : ℕ → ℕ → List ℕ
varint_bytes n v =
    if n == 1
    then byte v ∷ []
    else if n == 2
    then bit_or (byte (v / 2 ^ 8)) 0x40 ∷ byte v ∷ []
    else if n == 4
    then bit_or (byte (v / 2 ^ 24)) 0x80 ∷ byte (v / 2 ^ 16) ∷ byte (v / 2 ^ 8) ∷ byte v ∷ []
    else bit_or (byte (v / 2 ^ 56)) 0xc0 ∷ low_bytes 7 v

unfoldable pub append_varint : List ℕ → ℕ → Result (List ℕ)
unfolding varint_len varint_bytes
append_varint dst v =
    let n = varint_len v in if n == 0 then err value_too_large else ok (dst ++ varint_bytes n v)

-- `for i := 1; i < n; i++ { v = v<<8 | uint64(src[i]) }` over the bytes from src[1] on; `k` rounds
-- are left. The case of too few bytes is not reached, since the caller has compared the lengths.
pub join_bytes : ℕ → ℕ → List ℕ → ℕ
join_bytes zero v bs = v
join_bytes (suc k) v [] = v
join_bytes (suc k) v (b ∷ bs) = join_bytes k (bit_or (v * 256 % 2 ^ 64) b) bs

-- The value and the number of bytes that it takes.
unfoldable pub decode_varint : List ℕ → Result (ℕ × ℕ)
unfolding varint_len join_bytes
decode_varint [] = err truncated
decode_varint (b ∷ rest) =
    let n = 2 ^ (b / 64) in
    if ltb (length (b ∷ rest)) n
    then err truncated
    else let v = join_bytes (n - 1) (bit_and b 0x3f) rest in
      if not (varint_len v == n) then err non_minimal else ok (v, n)
