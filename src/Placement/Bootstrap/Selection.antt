-- ===== src/Placement/Bootstrap/Selection.antt =====
-- Which candidate the default selection takes, given that Go's sort sorts.
use sgsp.Common.{
  ℕ, ◌≡◌, refl, subst, sym, ◌∙◌, ap, arith, List, [], ◌∷◌, Bool, true, false, none, ◌⊎◌, inl, inr,
  Bool-cases,
}
use mathlib.Core.Path.{ap₂}
use mathlib.Core.Logic.{∥∥₁_elim}
use mathlib.Core.List.{Perm, Mem, Permᴰ, mem-cons_self}
use mathlib.Core.List.Perm
use mathlib.Core.List.Permᴰ
use Prim.Native.Nat.{Ordering, compare as compare_ℕ}
use Prim.Native.Char.{code}
use Prim.Native.String.compare
use Prim.Native.String.{compare, then as at_first}
use text.Mathlib.Text.{is_lt}
use text.Mathlib.TextEquality.{codes_equal}
use sgsp.Placement.Types.{
  String, GroupId, Owner, OwnerStatus, ok, same_text, same_text-eq, same_text_refl,
}
use sgsp.Placement.Bootstrap.{
  Principal, Packages, less_text, is_eligible, eligible, precedes, select_owner,
}

-- One character decides, or the rest does.
then-total :
    (m n : ℕ) (o p : Ordering)
    → is_lt (at_first (compare_ℕ m n) o) ≡ false
    → is_lt (at_first (compare_ℕ n m) p) ≡ false
    → (compare_ℕ m n ≡ Ordering.eq) × (is_lt o ≡ false) × (is_lt p ≡ false)
then-total m n o p h k = ground arith

-- Two texts of which neither is less are equal.
less_text-total : (s t : String) → less_text s t ≡ false → less_text t s ≡ false → s ≡ t
less_text-total String.[] String.[] h k = refl
less_text-total String.[] (String.◌∷◌ d t) h k = absurd (ground (arith, compare.nil-cons d t))
less_text-total (String.◌∷◌ c s) String.[] h k = absurd (ground (arith, compare.nil-cons c s))
less_text-total (String.◌∷◌ c s) (String.◌∷◌ d t) h k =
    let (same, first, second) =
      then-total (code c) (code d) (compare s t) (compare t s)
        (ap is_lt (sym (compare.cons-cons c d s t)) ∙ h)
        (ap is_lt (sym (compare.cons-cons d c t s)) ∙ k) in
    ap₂ String.◌∷◌ (codes_equal c d same) (less_text-total s t first second)

same_text_sym : (a b : String) → same_text a b ≡ same_text b a
same_text_sym a b = elim (Bool-cases (same_text a b)) [
  | inl e ↦
      ap (λ (x : String). same_text a x) (sym (same_text-eq a b e))
      ∙ ap (λ (x : String). same_text x a) (same_text-eq a b e)
  | inr e ↦ elim (Bool-cases (same_text b a)) [
    | inr f ↦ e ∙ sym f
    | inl f ↦
        ap (λ (x : String). same_text x b) (sym (same_text-eq b a f))
        ∙ ap (λ (x : String). same_text b x) (same_text-eq b a f)
  ]
]

-- Neither of two statuses precedes the other: they are the same owner's.
precedes-total :
    (go : Packages) (g : GroupId) (a b : OwnerStatus)
    → precedes go g a b ≡ false
    → precedes go g b a ≡ false
    → (a.owner.id ≡ b.owner.id) × (a.owner.incarnation ≡ b.owner.incarnation)
unfolding precedes
precedes-total go g a b h k =
    let i = a.owner.id in
    let j = b.owner.id in
    elim (Bool-cases (same_text i j)) [
      | inl e ↦
          let f : same_text j i ≡ true = same_text_sym j i ∙ e in (same_text-eq i j e, ground arith)
      | inr e ↦
          let f : same_text j i ≡ false = same_text_sym j i ∙ e in
          let same = less_text-total i j (ground arith) (ground arith) in
          let g : same_text i j ≡ true =
            ap (λ (x : String). same_text i x) (sym same) ∙ same_text_refl i in
          absurd (ground arith)
    ]

eligible-Permᴰ : (xs ys : List OwnerStatus) → Permᴰ xs ys → Permᴰ (eligible xs) (eligible ys)
unfolding eligible
eligible-Permᴰ [] [] Permᴰ.nil = Permᴰ.nil
eligible-Permᴰ (a ∷ xs) (b ∷ ys) (Permᴰ.cons e d) = elim (Bool-cases (is_eligible a)) [
  | inl f ↦ rw (← e, f) (Permᴰ.cons refl (eligible-Permᴰ xs ys d))
  | inr f ↦ rw (← e, f) (eligible-Permᴰ xs ys d)
]
eligible-Permᴰ (a ∷ b ∷ xs) (c ∷ d ∷ ys) (Permᴰ.swap e f) = elim (Bool-cases (is_eligible a)) [
  | inl g ↦ elim (Bool-cases (is_eligible b)) [
    | inl h ↦ rw (← e, ← f, g, h) (Permᴰ.swap refl refl)
    | inr h ↦ rw (← e, ← f, g, h) (Permᴰ.refl (a ∷ eligible xs))
  ]
  | inr g ↦ elim (Bool-cases (is_eligible b)) [
    | inl h ↦ rw (← e, ← f, g, h) (Permᴰ.refl (b ∷ eligible xs))
    | inr h ↦ rw (← e, ← f, g, h) (Permᴰ.refl (eligible xs))
  ]
]
eligible-Permᴰ xs ys (Permᴰ.trans {l₂ = zs} d d') =
    Permᴰ.trans (eligible-Permᴰ xs zs d) (eligible-Permᴰ zs ys d')

-- What Go documents of sort.Slice, for one list: a permutation whose first element no other precedes.
pub record IsSorted (less : OwnerStatus → OwnerStatus → Bool) (cs sorted : List OwnerStatus)
    : Type 0 where
  pub same : Perm cs sorted
  pub first :
      (c : OwnerStatus) (rest : List OwnerStatus)
      → sorted ≡ c ∷ rest
      → (x : OwnerStatus) → Mem x sorted
      → less x c ≡ false

eligible-Perm : (xs ys : List OwnerStatus) → Perm xs ys → Perm (eligible xs) (eligible ys)
eligible-Perm xs ys p = ∥∥₁_elim p (hlevel) (λ d. ∣ eligible-Permᴰ xs ys d ∣₁)

List-cases {ℓ} :
    {A : Type ℓ} (xs : List A) → (xs ≡ []) ⊎ ((x : A) × (rest : List A) × (xs ≡ x ∷ rest))
List-cases [] = inl refl
List-cases (x ∷ rest) = inr (x, rest, refl)

-- The default selection takes the first of the sorted candidates.
chosen :
    (go : Packages) (p : Principal) (g : GroupId) (cs : List OwnerStatus) (o : Owner)
    → select_owner go none p g cs ≡ ok o
    → (c : OwnerStatus) × (rest : List OwnerStatus) × (go.sort (precedes go g) (eligible cs)
        ≡ c ∷ rest)
      × (c.owner ≡ o)
unfolding select_owner
chosen go p g cs o h = elim (List-cases (eligible cs)) [
  | inl e ↦ absurd (ground arith)
  | inr (a, others, e) ↦ elim (List-cases (go.sort (precedes go g) (eligible cs))) [
    | inl f ↦ absurd (ground arith)
    | inr (c, rest, f) ↦ (c, rest, f, ground arith)
  ]
]

-- All bootstraps choose alike, if Go's sort sorts the eligible candidates: whatever the order in which
-- the registry lists the candidates, and whoever asks, two default selections for a group that succeed
-- take the same owner, by identity and incarnation.
pub select_owner-agrees :
    (go : Packages) (p p' : Principal) (g : GroupId) (cs cs' : List OwnerStatus) (o o' : Owner)
    → IsSorted (precedes go g) (eligible cs) (go.sort (precedes go g) (eligible cs))
    → IsSorted (precedes go g) (eligible cs') (go.sort (precedes go g) (eligible cs'))
    → Perm cs cs'
    → select_owner go none p g cs ≡ ok o
    → select_owner go none p' g cs' ≡ ok o'
    → (o.id ≡ o'.id) × (o.incarnation ≡ o'.incarnation)
select_owner-agrees go p p' g cs cs' o o' s s' m h h' =
    let (c, rest, e, w) = chosen go p g cs o h in
    let (c', rest', e', w') = chosen go p' g cs' o' h' in
    let sorted = go.sort (precedes go g) (eligible cs) in
    let sorted' = go.sort (precedes go g) (eligible cs') in
    let mixed : Perm sorted sorted' =
      Perm.trans (Perm.symm s.same) (Perm.trans (eligible-Perm cs cs' m) s'.same) in
    let there : Mem c sorted = subst (Mem c) (sym e) (mem-cons_self) in
    let there' : Mem c' sorted' = subst (Mem c') (sym e') (mem-cons_self) in
    let (i, n) =
      precedes-total go g c c' (s'.first c' rest' e' c ((Perm.mem_iff mixed).0 there))
        (s.first c rest e c' ((Perm.mem_iff mixed).1 there')) in
    (ground (arith, i), ground (arith, n))
