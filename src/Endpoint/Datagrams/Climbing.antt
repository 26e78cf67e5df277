-- ===== src/Endpoint/Datagrams/Climbing.antt =====
-- Events whose sequence numbers grow: a list of them within another one is a part of it.
use sgsp.Common.{
  ℕ, ◌<◌, ◌≤◌, ◌≡◌, refl, sym, ap, subst, arith, All, List, [], ◌∷◌, true, inl, inr, Bool-cases,
}
use mathlib.Core.List.{Memᴰ, Sublistᴰ}
use mathlib.Core.List.Memᴰ.{cases_cons, not-nil, head, tail}
use mathlib.Core.List.Sublistᴰ.{slnil, cons, cons-cons}
use sgsp.Wire.Events.{Event}
use sgsp.Endpoint.Datagrams.Order.{is_on, on, Climbs}

-- An event of a climbing list lies above its start.
above : (n : ℕ) (es : List Event) (e : Event) → Climbs n es → Memᴰ e es → n < e.sequence
above n [] e c m = absurd (not-nil m)
above n (f ∷ es) e c m = elim (cases_cons m) [
  | inl q ↦ rw q (c.0)
  | inr k ↦ omega (arith, above f.sequence es e c.1 k, c.0)
]

not_below :
    (x : Event) (xs : List Event) (z : Event)
    → Climbs x.sequence xs
    → Memᴰ z (x ∷ xs)
    → x.sequence ≤ z.sequence
not_below x xs z c m = elim (cases_cons m) [
  | inl q ↦ let same : z.sequence ≡ x.sequence = ap (λ (e : Event). e.sequence) q in omega arith
  | inr k ↦ omega (arith, above x.sequence xs z c k)
]

-- What is not the head is in the rest, if it lies elsewhere.
in_rest : (x y : Event) (ys : List Event) → y.sequence < x.sequence → Memᴰ x (y ∷ ys) → Memᴰ x ys
in_rest x y ys l m = elim (cases_cons m) [
  | inl q ↦
      absurd (let same : x.sequence ≡ y.sequence = ap (λ (e : Event). e.sequence) q in omega arith)
  | inr k ↦ k
]

-- One climbing list whose events are all in another is a part of it, in its order.
pub Climbs-Sublist :
    (n k : ℕ) (xs ys : List Event)
    → Climbs n xs
    → Climbs k ys
    → ((x : Event) → Memᴰ x xs → Memᴰ x ys)
    → Sublistᴰ xs ys
Climbs-Sublist n k [] [] c d h = slnil
Climbs-Sublist n k [] (y ∷ ys) c d h =
    cons (Climbs-Sublist n y.sequence [] ys tt d.1 (λ x m. absurd (not-nil m)))
Climbs-Sublist n k (x ∷ xs) [] c d h = absurd (not-nil (h x (head refl)))
Climbs-Sublist n k (x ∷ xs) (y ∷ ys) c d h = elim (cases_cons (h x (head refl))) [
  | inl q ↦ cons-cons q (
      Climbs-Sublist x.sequence y.sequence xs ys c.1 d.1 (λ z m.
        in_rest z y ys
          (let same : x.sequence ≡ y.sequence = ap (λ (e : Event). e.sequence) q in
            omega (arith, above x.sequence xs z c.1 m))
          (h z (tail m))))
  | inr m ↦ cons (
      Climbs-Sublist n y.sequence (x ∷ xs) ys c d.1 (λ z k.
        in_rest z y ys (omega (arith, above y.sequence ys x d.1 m, not_below x xs z c.1 k))
          (h z k)))
]

pub mem_of_on :
    (channel : ℕ) (es : List Event) (e : Event)
    → Memᴰ e (on channel es)
    → Memᴰ e es × (is_on channel e ≡ true)
mem_of_on channel [] e m = absurd (not-nil m)
mem_of_on channel (f ∷ es) e m = elim (Bool-cases (is_on channel f)) [
  | inr o ↦ let (k, p) = mem_of_on channel es e (rw o at m) in (tail k, p)
  | inl o ↦ elim (cases_cons (rw o at m)) [
    | inl q ↦ (head q, rw q o)
    | inr l ↦ let (k, p) = mem_of_on channel es e l in (tail k, p)
  ]
]

pub on_of_mem :
    (channel : ℕ) (es : List Event) (e : Event)
    → Memᴰ e es
    → is_on channel e ≡ true
    → Memᴰ e (on channel es)
on_of_mem channel [] e m o = absurd (not-nil m)
on_of_mem channel (f ∷ es) e m o = elim (cases_cons m) [
  | inl q ↦ let here : is_on channel f ≡ true = rw (sym q) o in rw here (head q)
  | inr k ↦ elim (Bool-cases (is_on channel f)) [
    | inl p ↦ rw p (tail (on_of_mem channel es e k o))
    | inr p ↦ rw p (on_of_mem channel es e k o)
  ]
]

pub all_of_mem {ℓ κ} :
    {A : Type ℓ} (P : A → Type κ) (xs : List A) (x : A) → All P xs → Memᴰ x xs → P x
all_of_mem P [] x h m = absurd (not-nil m)
all_of_mem P (y ∷ ys) x h m = elim (cases_cons m) [
  | inl q ↦ subst P (sym q) h.0
  | inr k ↦ all_of_mem P ys x h.1 k
]
