-- ===== src/Placement/Types.antt =====
-- placement/placement.go, types.go and placement/memory/memory.go: the data of placement, its keys, and
-- what makes them valid. An Incarnation's 16 bytes are read as one number. A context's error is
-- `none` while it is live; `foreign` is an error that another package returns.
use sgsp.Common.{ℕ, ◌≡◌, refl, arith, ◌==◌, Bool, true, not, ◌&&◌}
use sgsp.Common.Table.{Decides}
pub use Prim.Native.String.{String}
use text.Mathlib.Text.{◌==◌ as ◌=s◌}
use text.Mathlib.TextEquality.{eq_iff}

pub record AppIdentity : Type 0 where
  pub id : String
  pub version : String

pub record GroupId : Type 0 where
  pub app : AppIdentity
  pub key : String

pub record Endpoint : Type 0 where
  pub address : String
  pub server_name : String

pub record Owner : Type 0 where
  pub id : String
  pub incarnation : ℕ
  pub endpoint : Endpoint

pub record Assignment : Type 0 where
  pub group : GroupId
  pub owner : Owner
  pub closed : Bool

pub record OwnerStatus : Type 0 where
  pub owner : Owner
  pub healthy : Bool
  pub draining : Bool
  pub has_capacity : Bool

pub data Error : Type 0 where
  canceled deadline_exceeded invalid_argument unsupported_version : Error
  group_closed resource_exhausted forbidden assignment_not_found : Error
  server_unavailable server_draining unauthenticated : Error
  foreign : ℕ → Error

-- A method's error, or what it returns.
pub data Result {ℓ} (A : Type ℓ) : Type ℓ where
  ok : A → Result A
  err : Error → Result A

-- `a == b` on strings
abbrev pub same_text : String → String → Bool
same_text a b = a =s b

pub record AssignmentKey : Type 0 where
  pub app_id : String
  pub group : String

pub record OwnerKey : Type 0 where
  pub id : String
  pub incarnation : ℕ

abbrev pub key : GroupId → AssignmentKey
key g = record { app_id = g.app.id; group = g.key }

abbrev pub registry_key : Owner → OwnerKey
registry_key o = record { id = o.id; incarnation = o.incarnation }

unfoldable pub valid_group : GroupId → Bool
valid_group g =
    not (same_text g.app.id "") && not (same_text g.app.version "") && not (same_text g.key "")

unfoldable pub valid_owner : Owner → Bool
valid_owner o =
    not (same_text o.id "")
    && not (same_text o.endpoint.address "")
    && not (same_text o.endpoint.server_name "")

unfoldable pub same_group_key : AssignmentKey → AssignmentKey → Bool
same_group_key a b = same_text a.app_id b.app_id && same_text a.group b.group

unfoldable pub same_owner_key : OwnerKey → OwnerKey → Bool
same_owner_key a b = same_text a.id b.id && a.incarnation == b.incarnation

pub same_text-eq : (a b : String) → same_text a b ≡ true → a ≡ b
same_text-eq a b h = (eq_iff a b).0 h

pub same_text_refl : (a : String) → same_text a a ≡ true
same_text_refl a = (eq_iff a a).1 refl

pub same_group_key-Decides : Decides same_group_key
unfolding same_group_key
same_group_key-Decides = record {
  equal = λ a b h. ground (arith, same_text-eq a.app_id b.app_id, same_text-eq a.group b.group);
  reflexive = λ a. rw (same_text_refl a.app_id, same_text_refl a.group) refl;
}

pub same_owner_key-Decides : Decides same_owner_key
unfolding same_owner_key
same_owner_key-Decides = record {
  equal = λ a b h. ground (arith, same_text-eq a.id b.id);
  reflexive = λ a. ground (arith, same_text_refl a.id);
}
