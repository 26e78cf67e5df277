-- ===== src/Wire/Cursor.antt =====
-- Runs of varints in a slice, read at a growing offset.
use sgsp.Common.{
  ℕ, ◌+◌, ◌≤◌, ◌≡◌, inl, inr, sym, ap, ◌∙◌, arith, List, [], ◌∷◌, ◌++◌, append-nil, append_assoc,
  length, All, drop, drop-drop, drop-append, All-drop, length-append,
}
use native.Mathlib.Nat.{zero-add}
use sgsp.Wire.Result.{Result, ok, ◌>>=◌, Result-cases}
use sgsp.Wire.Varint.{IsByte, max_varint, varint_len, append_varint, decode_varint}
use sgsp.Wire.Varint.Encode.{encoding, append-encoding, append-inv, length-encoding}
use sgsp.Wire.Varint.Decode.{decode-encoding}
use sgsp.Wire.Varint.Canonical.{decode-IsDecoded}

-- `for _, v := range values { dst, err = AppendVarint(dst, v) … }`
unfoldable pub append_varints : List ℕ → List ℕ → Result (List ℕ)
append_varints dst [] = ok dst
append_varints dst (v ∷ vs) = do dst' ← append_varint dst v; append_varints dst' vs

abbrev pub encodings : List ℕ → List ℕ
encodings [] = []
encodings (v ∷ vs) = encoding v ++ encodings vs

abbrev pub IsVarint : ℕ → Type 0
IsVarint v = v ≤ max_varint

pub append_varints-encodings :
    (dst vs : List ℕ) → All IsVarint vs → append_varints dst vs ≡ ok (dst ++ encodings vs)
unfolding append_varints
append_varints-encodings dst [] h = ap ok (sym (append-nil dst))
append_varints-encodings dst (v ∷ vs) h = rw (append-encoding dst v h.0) (
    append_varints-encodings (dst ++ encoding v) vs h.1
    ∙ ap ok (append_assoc dst (encoding v) (encodings vs)))

-- What decoding at offset `used` gives where an encoding stands there, and what stands behind it.
abbrev pub Reads : List ℕ → ℕ → ℕ → List ℕ → Type 0
Reads src used v rest =
    (decode_varint (drop used src) ≡ ok (v, varint_len v)) × (drop (used + varint_len v) src ≡ rest)

pub reads :
    (src : List ℕ) (used v : ℕ) (rest : List ℕ)
    → drop used src ≡ encoding v ++ rest
    → v ≤ max_varint
    → Reads src used v rest
reads src used v rest e h = (
  rw e (decode-encoding v rest h),
  sym (drop-drop used (varint_len v) src)
      ∙ ap (drop (varint_len v)) e
      ∙ ap (λ (n : ℕ). drop n (encoding v ++ rest)) (sym (length-encoding v h))
      ∙ drop-append (encoding v) rest,
)

pub reads_first :
    (src : List ℕ) (v : ℕ) (rest : List ℕ)
    → src ≡ encoding v ++ rest
    → v ≤ max_varint
    → (decode_varint src ≡ ok (v, varint_len v)) × (drop (varint_len v) src ≡ rest)
reads_first src v rest e h = let (d, l) = reads src 0 v rest e h in (d, rw zero-add at l)

-- The other way: what was decoded at `used` is the encoding that stands there.
abbrev pub WasRead : List ℕ → ℕ → ℕ → ℕ → Type 0
WasRead src used v n =
    (v ≤ max_varint) × (n ≡ varint_len v) × (drop used src ≡ encoding v ++ drop (used + n) src)

pub was_read :
    (src : List ℕ) (used v n : ℕ)
    → All IsByte src
    → decode_varint (drop used src) ≡ ok (v, n)
    → WasRead src used v n
was_read src used v n w d =
    let (a, b, c, e) = decode-IsDecoded (drop used src) v n (All-drop IsByte used src w) d in
    (a, b, e ∙ ap (◌++◌ (encoding v)) (drop-drop used n src))

pub length-encodings :
    (v : ℕ) (xs : List ℕ) → v ≤ max_varint → length (encoding v ++ xs) ≡ varint_len v + length xs
length-encodings v xs h = omega (arith, length-append (encoding v) xs, length-encoding v h)

pub was_read_first :
    (src : List ℕ) (v n : ℕ)
    → All IsByte src
    → decode_varint src ≡ ok (v, n)
    → (v ≤ max_varint) × (n ≡ varint_len v) × (src ≡ encoding v ++ drop n src)
was_read_first src v n w d = let (a, b, e) = was_read src 0 v n w d in (a, b, rw zero-add at e)

-- Only encodable numbers are appended.
pub append_varints-inv :
    (dst vs b : List ℕ) → append_varints dst vs ≡ ok b → All IsVarint vs × (b ≡ dst ++ encodings vs)
unfolding append_varints
append_varints-inv dst [] b h = (tt, ground (arith, append-nil dst))
append_varints-inv dst (v ∷ vs) b h = elim (Result-cases (append_varint dst v)) [
  | inl (dst', e) ↦
      let (l, q) = append-inv dst v dst' e in
      let (a, p) = append_varints-inv dst' vs b (rw e at h) in
      (
        (l, a),
        p ∙ ap (λ (t : List ℕ). t ++ encodings vs) q ∙ append_assoc dst (encoding v) (encodings vs),
      )
  | inr (x, e) ↦ absurd (ground arith)
]
