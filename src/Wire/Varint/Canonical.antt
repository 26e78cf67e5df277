-- ===== src/Wire/Varint/Canonical.antt =====
-- What DecodeVarint accepts: of any bytes, only the one encoding of the number that it returns.
use sgsp.Common.{
  ℕ, zero, suc, ◌+◌, ◌-◌, ◌*◌, ◌/◌, ◌%◌, ◌^◌, ◌≤◌, ◌<◌, ◌≡◌, refl, sym, ap, ◌∙◌, arith, List, [],
  ◌∷◌, ◌++◌, length, All, drop, lt→ltb, append-nil, length-append,
}
use sgsp.Wire.Result.{ok, err, truncated}
use sgsp.Wire.Varint.{IsByte, max_varint, varint_len, join_bytes, decode_varint}
use sgsp.Wire.Varint.Encode.{
  encoding, encoding_one, encoding_two, encoding_four, encoding_eight, length-encoding,
  encoding-IsByte,
}
use sgsp.Wire.Varint.Decode.{
  minimal, decode_head, join_end, join_one, join_three, join_seven, decode-encoding,
}

-- The number, its length and the bytes in front fit together.
abbrev pub IsDecoded : List ℕ → ℕ → ℕ → Type 0
IsDecoded src v n =
    (v ≤ max_varint) × (n ≡ varint_len v) × (n ≤ length src) × (src ≡ encoding v ++ drop n src)

minimal-inv : (k x v n : ℕ) → minimal k x ≡ ok (v, n) → (x ≡ v) × (n ≡ k) × (varint_len v ≡ k)
minimal-inv k x v n h = ground arith

len_one : (v : ℕ) → varint_len v ≡ 1 → v ≤ 63
unfolding varint_len
len_one v h = ground arith

len_two : (v : ℕ) → varint_len v ≡ 2 → (63 < v) × (v ≤ 16383)
unfolding varint_len
len_two v h = ground arith

len_four : (v : ℕ) → varint_len v ≡ 4 → (16383 < v) × (v ≤ 1073741823)
unfolding varint_len
len_four v h = ground arith

len_eight : (v : ℕ) → varint_len v ≡ 8 → (1073741823 < v) × (v ≤ max_varint)
unfolding varint_len
len_eight v h = ground arith

-- Too few bytes are an error.
decode_length :
    (b : ℕ) (r : List ℕ) (v n : ℕ)
    → decode_varint (b ∷ r) ≡ ok (v, n)
    → 2 ^ (b / 64) ≤ suc (length r)
unfolding decode_varint
decode_length b r v n h = ground arith

decode_inv :
    (b t : ℕ) (r : List ℕ) (v n : ℕ)
    → b < 256
    → b / 64 ≡ t
    → decode_varint (b ∷ r) ≡ ok (v, n)
    → (2 ^ t ≤ suc (length r))
      × (join_bytes (2 ^ t - 1) (b % 64) r ≡ v)
      × (n ≡ 2 ^ t)
      × (varint_len v ≡ 2 ^ t)
decode_inv b t r v n h e d =
    let l : 2 ^ t ≤ suc (length r) = rw e at (decode_length b r v n d) in
    let (x, y, z) =
      minimal-inv (2 ^ t) (join_bytes (2 ^ t - 1) (b % 64) r) v n
        (sym (decode_head b t (b % 64) r h e refl l) ∙ d) in
    (l, x, y, z)

IsDecoded-one :
    (b : ℕ) (r : List ℕ) (v n : ℕ)
    → b < 64
    → decode_varint (b ∷ r) ≡ ok (v, n)
    → IsDecoded (b ∷ r) v n
IsDecoded-one b r v n h d =
    let (l, x, y, z) = decode_inv b 0 r v n (omega arith) (omega arith) d in
    let e : v ≡ b = omega (arith, join_end (b % 64) r) in
    (
      omega (arith, len_one v z),
      omega arith,
      omega arith,
      rw (y, encoding_one v (len_one v z), e) refl,
    )

IsDecoded-two :
    (b : ℕ) (r : List ℕ) (v n : ℕ)
    → b < 256
    → b / 64 ≡ 1
    → All IsByte r
    → decode_varint (b ∷ r) ≡ ok (v, n)
    → IsDecoded (b ∷ r) v n
IsDecoded-two b [] v n h t w d = absurd (omega (arith, (decode_inv b 1 [] v n h t d).0))
IsDecoded-two b (c ∷ r) v n h t w d =
    let (l, x, y, z) = decode_inv b 1 (c ∷ r) v n h t d in
    let e : v ≡ b % 64 * 256 + c = omega (arith, join_one (b % 64) c r (omega arith) w.0) in
    let (lo, hi) = len_two v z in
    (omega arith, omega arith, omega arith, rw (y, encoding_two v lo hi) (ground arith))

-- A list of `k` elements at least, with the first three or seven named.
abbrev Three : List ℕ → Type 0
Three r = (b : ℕ) × (c : ℕ) × (d : ℕ) × (s : List ℕ) × (r ≡ b ∷ c ∷ d ∷ s)

three : (r : List ℕ) → 3 ≤ length r → Three r
three (b ∷ c ∷ d ∷ s) h = (b, c, d, s, refl)
three _ h = absurd (omega arith)

abbrev Seven : List ℕ → Type 0
Seven r =
    (b : ℕ) × (c : ℕ) × (d : ℕ) × (e : ℕ) × (f : ℕ) × (g : ℕ) × (i : ℕ) × (s : List ℕ) × (r
      ≡ b ∷ c ∷ d ∷ e ∷ f ∷ g ∷ i ∷ s)

seven : (r : List ℕ) → 7 ≤ length r → Seven r
seven (b ∷ c ∷ d ∷ e ∷ f ∷ g ∷ i ∷ s) h = (b, c, d, e, f, g, i, s, refl)
seven _ h = absurd (omega arith)

IsDecoded-four :
    (a b c d : ℕ) (s : List ℕ) (v n : ℕ)
    → a < 256
    → a / 64 ≡ 2
    → All IsByte (b ∷ c ∷ d ∷ [])
    → decode_varint (a ∷ b ∷ c ∷ d ∷ s) ≡ ok (v, n)
    → IsDecoded (a ∷ b ∷ c ∷ d ∷ s) v n
IsDecoded-four a b c d s v n h t w m =
    let (l, x, y, z) = decode_inv a 2 (b ∷ c ∷ d ∷ s) v n h t m in
    let e : v ≡ ((a % 64 * 256 + b) * 256 + c) * 256 + d =
      omega (arith, join_three (a % 64) b c d s (omega arith) w) in
    let (lo, hi) = len_four v z in
    (omega arith, omega arith, omega arith, rw (y, encoding_four v lo hi) (ground arith))

cons_path : {x y : ℕ} {xs ys : List ℕ} → x ≡ y → xs ≡ ys → x ∷ xs ≡ y ∷ ys
cons_path p q = λ i. p i ∷ q i

IsDecoded-eight :
    (a b c d e f g i : ℕ) (s : List ℕ) (v n : ℕ)
    → a < 256
    → a / 64 ≡ 3
    → All IsByte (b ∷ c ∷ d ∷ e ∷ f ∷ g ∷ i ∷ [])
    → decode_varint (a ∷ b ∷ c ∷ d ∷ e ∷ f ∷ g ∷ i ∷ s) ≡ ok (v, n)
    → IsDecoded (a ∷ b ∷ c ∷ d ∷ e ∷ f ∷ g ∷ i ∷ s) v n
IsDecoded-eight a b c d e f g i s v n h t w m =
    let (l, x, y, z) = decode_inv a 3 (b ∷ c ∷ d ∷ e ∷ f ∷ g ∷ i ∷ s) v n h t m in
    let q : v
        ≡ ((((((a % 64 * 256 + b) * 256 + c) * 256 + d) * 256 + e) * 256 + f) * 256 + g) * 256 + i =
      omega (arith, join_seven (a % 64) b c d e f g i s (omega arith) w) in
    let (lo, hi) = len_eight v z in
    (
      omega arith,
      omega arith,
      omega arith,
      rw (y, encoding_eight v lo hi)
          (cons_path (omega arith) (
            cons_path (omega arith) (
              cons_path (omega arith) (
                cons_path (omega arith) (
                  cons_path (omega arith) (
                    cons_path (omega arith)
                      (cons_path (omega arith) (cons_path (omega arith) refl)))))))),
    )

decoded :
    (t b : ℕ) (r : List ℕ) (v n : ℕ)
    → b < 256
    → b / 64 ≡ t
    → All IsByte r
    → decode_varint (b ∷ r) ≡ ok (v, n)
    → IsDecoded (b ∷ r) v n
decoded zero b r v n h t w d = IsDecoded-one b r v n (omega arith) d
decoded (suc zero) b r v n h t w d = IsDecoded-two b r v n h t w d
decoded (suc (suc zero)) b r v n h t w d =
    let (c, e, f, s, q) = three r (omega (arith, (decode_inv b 2 r v n h t d).0)) in
    rw q (IsDecoded-four b c e f s v n h t (ground arith) (rw q at d))
decoded (suc (suc (suc zero))) b r v n h t w d =
    let (c, e, f, g, i, j, k, s, q) = seven r (omega (arith, (decode_inv b 3 r v n h t d).0)) in
    rw q (IsDecoded-eight b c e f g i j k s v n h t (ground arith) (rw q at d))
decoded (suc (suc (suc (suc t)))) b r v n h e w d = absurd (omega arith)

-- A successful DecodeVarint returns at most the maximum, and its bytes are that number's encoding.
pub decode-IsDecoded :
    (src : List ℕ) (v n : ℕ) → All IsByte src → decode_varint src ≡ ok (v, n) → IsDecoded src v n
decode-IsDecoded [] v n w d = unfold decode_varint in cc
decode-IsDecoded (b ∷ r) v n w d = decoded (b / 64) b r v n w.0 refl w.1 d

-- Every proper prefix of an encoding is refused as truncated.
pub decode_truncated :
    (v x : ℕ) (front back : List ℕ)
    → v ≤ max_varint
    → encoding v ≡ front ++ (x ∷ back)
    → decode_varint front ≡ err truncated
unfolding decode_varint
decode_truncated v x [] back h e = refl
decode_truncated v x (b ∷ front) back h e = rw (lt→ltb (suc (length front)) (2 ^ (b / 64)) short)
  where
    bytes : All IsByte (b ∷ (front ++ (x ∷ back)))
    bytes = rw e at (encoding-IsByte v h)

    whole : decode_varint (b ∷ (front ++ (x ∷ back))) ≡ ok (v, varint_len v)
    whole = rw (append-nil, e) at (decode-encoding v [] h)

    short : suc (length front) < 2 ^ (b / 64)
    short = omega (
      arith,
      (decode_inv b (b / 64) _ v _ bytes.0 refl whole).3,
      length-encoding v h,
      ap length e,
      length-append front (x ∷ back),
    )
