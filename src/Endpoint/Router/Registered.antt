-- ===== src/Endpoint/Router/Registered.antt =====
-- api.go: a handler that was registered stays the one for its messages.
use sgsp.Common.{
  ℕ, ◌==◌, ◌≡◌, refl, ap, ◌∙◌, arith, List, [], ◌∷◌, true, Option, none, some, inl, inr, Bool-cases,
  Option-cases,
}
use sgsp.Common.Table.{lookup, lookup-assign_key, Decides}
use sgsp.Endpoint.Session.{normal}
use sgsp.Endpoint.Router.{
  RoutedKind, event, request_message, stream_message, RouteKey, same_kind, same_route, Router,
  register, on_unknown, on_lifecycle, handler_of,
}

same_kind-eq : (a b : RoutedKind) → same_kind a b ≡ true → a ≡ b
same_kind-eq event event h = refl
same_kind-eq event request_message h = absurd (cc)
same_kind-eq event stream_message h = absurd (cc)
same_kind-eq request_message event h = absurd (cc)
same_kind-eq request_message request_message h = refl
same_kind-eq request_message stream_message h = absurd (cc)
same_kind-eq stream_message event h = absurd (cc)
same_kind-eq stream_message request_message h = absurd (cc)
same_kind-eq stream_message stream_message h = refl

same_kind_refl : (a : RoutedKind) → same_kind a a ≡ true
same_kind_refl event = refl
same_kind_refl request_message = refl
same_kind_refl stream_message = refl

routes-Decides : Decides same_route
routes-Decides = record {
  equal = λ a b h. ground (arith, same_kind-eq a.kind b.kind);
  reflexive = λ a. ground (arith, same_kind_refl a.kind);
}

-- The calls that register handlers.
pub data Registration (H : Type 0) : Type 0 where
  routes : RoutedKind → ℕ → Option H → Registration H
  routes_unknown : Option H → Registration H
  routes_lifecycle : Option H → Registration H

module _ {H : Type 0} where
  unfoldable pub step : Router H → Registration H → Router H
  step r (routes kind type h) = (register kind type h r).0
  step r (routes_unknown h) = (on_unknown h r).0
  step r (routes_lifecycle h) = (on_lifecycle h r).0

  unfoldable pub run : Router H → List (Registration H) → Router H
  run r [] = r
  run r (c ∷ cs) = run (step r c) cs

  register-lookup :
      (kind : RoutedKind) (type : ℕ) (o : Option H) (key : RouteKey) (h : H) (r : Router H)
      → lookup same_route key r.routes ≡ some h
      → lookup same_route key (register kind type o r).0.routes ≡ some h
  unfolding register
  register-lookup kind type none key h r e = e
  register-lookup kind type (some g) key h r e =
      let own : RouteKey = record { kind = kind; type = type } in
      elim (Bool-cases (type == 0)) [
        | inl z ↦ rw (z, register) e
        | inr z ↦ elim (Option-cases (lookup same_route own r.routes)) [
          | inr (g', f) ↦ rw (z, f, register) e
          | inl f ↦ elim (Bool-cases (same_route own key)) [
            | inl s ↦
                let same : own ≡ key = routes-Decides.equal own key s in
                absurd (
                  let found : lookup same_route own r.routes ≡ some h =
                    ap (λ (k : RouteKey). lookup same_route k r.routes) same ∙ e in
                  cc)
            | inr s ↦
                rw (z, f, register)
                  (lookup-assign_key same_route routes-Decides key own g r.routes ∙ rw s e)
          ]
        ]
      ]

  registered :
      (kind : RoutedKind) (type : ℕ) (h : H) (r : Router H)
      → (register kind type (some h) r).1 ≡ normal
      → lookup same_route
          (record { kind = kind; type = type })
          (register kind type (some h) r).0.routes
        ≡ some h
  unfolding register
  registered kind type h r e =
      let own : RouteKey = record { kind = kind; type = type } in
      elim (Bool-cases (type == 0)) [
        | inl z ↦ absurd (ground arith)
        | inr z ↦ elim (Option-cases (lookup same_route own r.routes)) [
          | inr (g', f) ↦ absurd (ground arith)
          | inl f ↦
              rw (z, f, register)
                (lookup-assign_key same_route routes-Decides own own h r.routes
                  ∙ rw (routes-Decides.reflexive own) refl)
        ]
      ]

  step-lookup :
      (c : Registration H) (key : RouteKey) (h : H) (r : Router H)
      → lookup same_route key r.routes ≡ some h
      → lookup same_route key (step r c).routes ≡ some h
  unfolding step
  step-lookup (routes kind type o) key h r e = register-lookup kind type o key h r e
  step-lookup (routes_unknown none) key h r e = unfold on_unknown in e
  step-lookup (routes_unknown (some g)) key h r e = unfold on_unknown in ground (arith, e)
  step-lookup (routes_lifecycle none) key h r e = unfold on_lifecycle in e
  step-lookup (routes_lifecycle (some g)) key h r e = unfold on_lifecycle in ground (arith, e)

  run-lookup :
      (cs : List (Registration H)) (key : RouteKey) (h : H) (r : Router H)
      → lookup same_route key r.routes ≡ some h
      → lookup same_route key (run r cs).routes ≡ some h
  unfolding run
  run-lookup [] key h r e = e
  run-lookup (c ∷ cs) key h r e = run-lookup cs key h (step r c) (step-lookup c key h r e)

  -- A registration that succeeded is for good: whatever registrations follow, of the same messages too,
  -- its handler is the one that its messages get.
  pub registered_for_good :
      (kind : RoutedKind) (type : ℕ) (h : H) (r : Router H) (cs : List (Registration H))
      → (register kind type (some h) r).1 ≡ normal
      → handler_of
          (some (record { kind = kind; type = type }))
          (run (register kind type (some h) r).0 cs)
        ≡ some h
  unfolding handler_of
  registered_for_good kind type h r cs e =
      let own : RouteKey = record { kind = kind; type = type } in
      rw
        (
          run-lookup cs own h (register kind type (some h) r).0 (registered kind type h r e),
          handler_of,
        )
        refl
