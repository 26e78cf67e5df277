-- ===== src/Endpoint/Handshake/Bytes.antt =====
-- endpoint.go: the texts of identifiers, owners and limits, written and read back.
use sgsp.Common.{
  ℕ, zero, suc, ◌/◌, ◌%◌, ◌^◌, ◌<◌, ◌≡◌, refl, ap, ◌∙◌, arith, take, List, ◌∷◌, Bool, true, some,
}
use native.Mathlib.Nat.{div-lt_iff_lt-mul}
use sgsp.Common.Int.{ℤ, pos, negsuc}
use sgsp.Placement.Types.{Owner}
use sgsp.Endpoint.Handshake.{
  Packages, LimitMessage, id_bytes, number, bytes_of, parse_session_id, format_id, to_owner,
  owner_message, same_int, same_limits,
}

-- What encoding/hex promises of an identifier, and strconv of an epoch: the text is read back.
abbrev pub ReadsId : Packages → ℕ → Type 0
ReadsId go n = go.decode_hex (go.encode_hex (bytes_of id_bytes n)) ≡ (bytes_of id_bytes n, true)

pub record IsLawful (go : Packages) (id incarnation epoch : ℕ) : Type 0 where
  pub reads_id : ReadsId go id
  pub reads_incarnation : ReadsId go incarnation
  pub reads_epoch : go.parse_uint (go.format_uint epoch) ≡ some epoch

number-bytes_of : (w n : ℕ) → n < 256 ^ w → number (bytes_of w n) ≡ n
number-bytes_of zero n h = omega arith
number-bytes_of (suc w) n h =
    let rest = number-bytes_of w (n / 256) ((div-lt_iff_lt-mul (omega arith)).1 (omega arith)) in
    omega (arith, rest)

take-bytes_of : (w n : ℕ) → take w (bytes_of w n) ≡ bytes_of w n
take-bytes_of zero n = refl
take-bytes_of (suc w) n = ap (◌∷◌ (n % 256)) (take-bytes_of w (n / 256))

pub parse-format_id :
    (go : Packages) (id : ℕ)
    → ReadsId go id
    → id < 256 ^ 16
    → parse_session_id go (format_id go id) ≡ some id
unfolding parse_session_id format_id
parse-format_id go id v h = rw v (ap some (number-bytes_of id_bytes id h))

pub to_owner-owner_message :
    (go : Packages) (o : Owner)
    → ReadsId go o.incarnation
    → o.incarnation < 256 ^ 16
    → to_owner go (owner_message go o) ≡ o
unfolding to_owner owner_message format_id
to_owner-owner_message go o v h =
    ap (λ (n : ℕ). record o { incarnation = n })
      (ap (λ (x : List ℕ × Bool). number (take id_bytes x.0)) v
        ∙ (ap number (take-bytes_of id_bytes o.incarnation)
            ∙ number-bytes_of id_bytes o.incarnation h))

same_int_refl : (a : ℤ) → same_int a a ≡ true
same_int_refl (pos a) = ground arith
same_int_refl (negsuc a) = ground arith

pub same_limits_refl : (a : LimitMessage) → same_limits a a ≡ true
unfolding same_limits
same_limits_refl a =
    rw
      (
        same_int_refl a.control_bytes,
        same_int_refl a.rest.message_bytes,
        same_int_refl a.rest.datagram_bytes,
        same_int_refl a.rest.reliable_channels,
        same_int_refl a.rest.datagram_channels,
        same_int_refl a.rest.requests,
        same_int_refl a.rest.streams,
      )
      refl
