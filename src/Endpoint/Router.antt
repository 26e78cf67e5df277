-- ===== src/Endpoint/Router.antt =====
-- api.go: the router of incoming messages. A handler is a value of a type of its own, and `none` is a nil
-- one; a router that is nil is not modelled.
pub mod Registered
mod Tests
use sgsp.Common.{ℕ, ◌==◌, List, [], if◌then◌else◌, Bool, true, false, ◌&&◌, Option, none, some}
use sgsp.Common.Table.{lookup, assign_key}
use sgsp.Endpoint.Session.{Code, normal, invalid_argument}

-- The kinds of messages that have routes.
pub data RoutedKind : Type 0 where
  event request_message stream_message : RoutedKind

pub record RouteKey : Type 0 where
  pub kind : RoutedKind
  pub type : ℕ

abbrev pub same_kind : RoutedKind → RoutedKind → Bool
same_kind event event = true
same_kind event request_message = false
same_kind event stream_message = false
same_kind request_message event = false
same_kind request_message request_message = true
same_kind request_message stream_message = false
same_kind stream_message event = false
same_kind stream_message request_message = false
same_kind stream_message stream_message = true

-- `==` on the keys.
abbrev pub same_route : RouteKey → RouteKey → Bool
same_route a b = same_kind a.kind b.kind && a.type == b.type

pub record Router (H : Type 0) : Type 0 where
  pub routes : List (RouteKey × H)
  pub unknown : Option H
  pub lifecycle : Option H

module _ {H : Type 0} where
  pub new_router : Router H
  new_router = record { routes = []; unknown = none; lifecycle = none }

  unfoldable pub register : RoutedKind → ℕ → Option H → Router H → Router H × Code
  register kind type none r = (r, invalid_argument)
  register kind type (some handler) r =
      let key : RouteKey = record { kind = kind; type = type } in
      if type == 0 then (r, invalid_argument) else elim (lookup same_route key r.routes) [
        | some h ↦ (r, invalid_argument)
        | none ↦ (record r { routes = assign_key same_route key handler r.routes }, normal)
      ]

  unfoldable pub on_unknown : Option H → Router H → Router H × Code
  on_unknown none r = (r, invalid_argument)
  on_unknown (some handler) r = elim r.unknown [
    | some h ↦ (r, invalid_argument)
    | none ↦ (record r { unknown = some handler }, normal)
  ]

  unfoldable pub on_lifecycle : Option H → Router H → Router H × Code
  on_lifecycle none r = (r, invalid_argument)
  on_lifecycle (some handler) r = elim r.lifecycle [
    | some h ↦ (r, invalid_argument)
    | none ↦ (record r { lifecycle = some handler }, normal)
  ]

  -- The handler of a message; `none` is a lifecycle message.
  unfoldable pub handler_of : Option RouteKey → Router H → Option H
  handler_of none r = r.lifecycle
  handler_of (some key) r = elim (lookup same_route key r.routes) [
    | some h ↦ some h
    | none ↦ r.unknown
  ]
