-- ===== src/Common/Table.antt =====
-- A Go map as an association list, under a test of its keys that decides their equality.
use Prim.Native.Nat.{◌+◌}
use mathlib.Core.Bool.{Bool, true}
use mathlib.Core.Path.{◌≡◌, refl, ap, ◌∙◌}
use mathlib.Core.Logic.{inl, inr}
use mathlib.Core.Option.{Option, none, some}
use mathlib.Core.List.{List, [], ◌∷◌}
use native.Mathlib.Omega.{arith}
use sgsp.Common.Tests.{if◌then◌else◌, Bool-cases}
use sgsp.Common.Lists.{length}

-- What the test of the keys decides.
pub record Decides {ℓ} {K : Type ℓ} (same : K → K → Bool) : Type ℓ where
  pub equal : (a b : K) → same a b ≡ true → a ≡ b
  pub reflexive : (a : K) → same a a ≡ true

module _ {ℓ κ} {K : Type ℓ} {V : Type κ} (same : K → K → Bool) where
  unfoldable pub lookup : K → List (K × V) → Option V
  lookup k [] = none
  lookup k ((k', v) ∷ t) = if same k' k then some v else lookup k t

  -- `m[k] = v`
  unfoldable pub assign_key : K → V → List (K × V) → List (K × V)
  assign_key k v [] = (k, v) ∷ []
  assign_key k v ((k', w) ∷ t) = if same k' k then (k', v) ∷ t else (k', w) ∷ assign_key k v t

  -- `delete(m, k)`
  unfoldable pub delete_key : K → List (K × V) → List (K × V)
  delete_key k [] = []
  delete_key k ((k', w) ∷ t) = if same k' k then delete_key k t else (k', w) ∷ delete_key k t

  pub lookup-assign_key :
      Decides same
      → (j k : K) (v : V) (t : List (K × V))
      → lookup j (assign_key k v t) ≡ (if same k j then some v else lookup j t)
  unfolding lookup assign_key
  lookup-assign_key d j k v [] = refl
  lookup-assign_key d j k v ((k', w) ∷ t) = elim (Bool-cases (same k' k)) [
    | inl e ↦ rw (e, ap (λ (x : K). same x j) (d.equal k' k e)) (ground arith)
    | inr e ↦ elim (Bool-cases (same k' j)) [
      | inr f ↦ rw (e, f) (lookup-assign_key d j k v t)
      | inl f ↦ elim (Bool-cases (same k j)) [
        | inr g ↦ rw (e, f, g) refl
        | inl g ↦ absurd (
            let h : same k' k ≡ true = ap (λ (x : K). same k' x) (d.equal k j g) ∙ f in
            ground arith)
      ]
    ]
  ]

  pub lookup-delete_key :
      Decides same
      → (j k : K) (t : List (K × V))
      → lookup j (delete_key k t) ≡ (if same k j then none else lookup j t)
  unfolding lookup delete_key
  lookup-delete_key d j k [] = ground arith
  lookup-delete_key d j k ((k', w) ∷ t) = elim (Bool-cases (same k' k)) [
    | inl e ↦
        rw (e, ap (λ (x : K). same x j) (d.equal k' k e)) (lookup-delete_key d j k t ∙ ground arith)
    | inr e ↦ elim (Bool-cases (same k' j)) [
      | inr f ↦ rw (e, f) (lookup-delete_key d j k t)
      | inl f ↦ elim (Bool-cases (same k j)) [
        | inr g ↦ rw (e, f, g) refl
        | inl g ↦ absurd (
            let h : same k' k ≡ true = ap (λ (x : K). same k' x) (d.equal k j g) ∙ f in
            ground arith)
      ]
    ]
  ]

  pub length-assign_key :
      (k : K) (v : V) (t : List (K × V))
      → length (assign_key k v t) ≡ length t + (elim (lookup k t) [ none ↦ 1 | some w ↦ 0 ])
  unfolding lookup assign_key
  length-assign_key k v [] = refl
  length-assign_key k v ((k', w) ∷ t) = ground (arith, length-assign_key k v t)
