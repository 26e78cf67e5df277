-- ===== src/Endpoint/Channels/Bindings.antt =====
-- What a binding promises, in both directions.
use sgsp.Common.{
  ℕ, ◌+◌, ◌==◌, ==_iff, ◌≡◌, refl, subst, ◌∙◌, arith, [], ◌∷◌, if◌then◌else◌, Bool, false, not,
  none, some, ◌⊎◌, inl, inr, Bool-cases,
}
use sgsp.Common.Int.{ℤ, pos, negsuc, exceeds}
use sgsp.Common.Table.{Decides, lookup, assign_key, lookup-assign_key}
use sgsp.Endpoint.Limits.{Limits}
use sgsp.Endpoint.Session.{Delivery}
use sgsp.Endpoint.Channels.{
  Bindings, is_reliable, same_class, count, reaches, find, put, outbound_limit, bind_outbound,
  inbound_limit, bind_inbound,
}

channels-Decides : Decides (λ a b. a == b)
channels-Decides = record {
  equal = λ a b h. (==_iff a b).0 h;
  reflexive = λ a. (==_iff a a).1 refl;
}

count-put :
    (r : Bool) (t : Bindings) (c : ℕ) (d : Delivery)
    → find t c ≡ none
    → count r (put t c d) ≡ count r t + (if same_class (is_reliable d) r then 1 else 0)
unfolding count lookup assign_key
count-put r [] c d h = ground arith
count-put r ((k, e) ∷ t) c d h = ground (arith, count-put r t c d)

not_reached : (n : ℕ) (limit : ℤ) → reaches n limit ≡ false → exceeds (n + 1) limit ≡ false
not_reached n (pos m) h = ground arith
not_reached n (negsuc m) h = cc

-- The new bindings `t'` after a channel `c` was bound to `d`, or they are the old ones.
abbrev pub Binds : ℤ → Bindings → ℕ → Delivery → Bindings → Type 0
Binds limit t c d t' =
    (t' ≡ t)
    ⊎ ((find t c ≡ none)
        × (find t' c ≡ some d)
        × (count (is_reliable d) t' ≡ count (is_reliable d) t + 1)
        × (count (not (is_reliable d)) t' ≡ count (not (is_reliable d)) t)
        × (exceeds (count (is_reliable d) t') limit ≡ false))

put-Binds :
    (limit : ℤ) (t : Bindings) (c : ℕ) (d : Delivery)
    → find t c ≡ none
    → reaches (count (is_reliable d) t) limit ≡ false
    → Binds limit t c d (put t c d)
put-Binds limit t c d h r =
    let own : count (is_reliable d) (put t c d) ≡ count (is_reliable d) t + 1 =
      ground (arith, count-put (is_reliable d) t c d h) in
    let other : count (not (is_reliable d)) (put t c d) ≡ count (not (is_reliable d)) t =
      ground (arith, count-put (not (is_reliable d)) t c d h) in
    let found : find (put t c d) c ≡ some d =
      lookup-assign_key (λ a b. a == b) channels-Decides c c d t
      ∙ rw (channels-Decides.reflexive c) refl in
    inr (h, found, own, other, rw own (not_reached _ limit r))

put-keeps :
    (t : Bindings) (c k : ℕ) (d : Delivery)
    → find t c ≡ none
    → (find t k ≡ none) ⊎ (find (put t c d) k ≡ find t k)
put-keeps t c k d h =
    let found = lookup-assign_key (λ a b. a == b) channels-Decides k c d t in
    elim (Bool-cases (c == k)) [
      | inl e ↦ inl (subst (λ (j : ℕ). find t j ≡ none) ((==_iff c k).0 e) h)
      | inr e ↦ inr (found ∙ rw e refl)
    ]

outbound-cases :
    (own peer : Limits) (t : Bindings) (c : ℕ) (d : Delivery)
    → ((bind_outbound own peer t c d).0 ≡ t)
      ⊎ ((find t c ≡ none)
          × (reaches (count (is_reliable d) t) (outbound_limit own peer d) ≡ false)
          × ((bind_outbound own peer t c d).0 ≡ put t c d))
unfolding bind_outbound
outbound-cases own peer t c d = ground arith

inbound-cases :
    (own : Limits) (t : Bindings) (c : ℕ) (d : Delivery)
    → ((bind_inbound own t c d).0 ≡ t)
      ⊎ ((find t c ≡ none)
          × (reaches (count (is_reliable d) t) (inbound_limit own d) ≡ false)
          × ((bind_inbound own t c d).0 ≡ put t c d))
unfolding bind_inbound
inbound-cases own t c d = ground arith

-- A direction's new bindings keep what any channel had, and bind at most `c`.
abbrev pub BindsOnce : ℤ → Bindings → ℕ → Delivery → ℕ → Bindings → Type 0
BindsOnce limit t c d k t' = Binds limit t c d t' × ((find t k ≡ none) ⊎ (find t' k ≡ find t k))

binds :
    (limit : ℤ) (t t' : Bindings) (c k : ℕ) (d : Delivery)
    → (t' ≡ t)
      ⊎ ((find t c ≡ none) × (reaches (count (is_reliable d) t) limit ≡ false) × (t' ≡ put t c d))
    → BindsOnce limit t c d k t'
binds limit t t' c k d (inl e) = rw e (inl refl, inr refl)
binds limit t t' c k d (inr (h, r, e)) = rw e (put-Binds limit t c d h r, put-keeps t c k d h)

-- Both directions bind a channel once: a channel that has a delivery keeps it, and either nothing
-- changes, or the channel had none and has the given one from now on; then its class of deliveries
-- grew by one and is within the limit, outbound the smaller one of both sides where the peer
-- advertised one, and the other class did not grow.
pub bound_once :
    (own peer : Limits) (t : Bindings) (c k : ℕ) (d : Delivery)
    → BindsOnce (outbound_limit own peer d) t c d k (bind_outbound own peer t c d).0
      × BindsOnce (inbound_limit own d) t c d k (bind_inbound own t c d).0
bound_once own peer t c k d = (
  binds (outbound_limit own peer d) t _ c k d (outbound-cases own peer t c d),
  binds (inbound_limit own d) t _ c k d (inbound-cases own t c d),
)
