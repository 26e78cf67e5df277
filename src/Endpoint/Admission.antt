-- ===== src/Endpoint/Admission.antt =====
-- endpoint.go: authorizeAdmission, which decides whether a principal may open a session at an owner. The
-- verifier of tickets and the group's authorizer are parameters, by what they answer; `none` is a nil
-- one. The principals, tickets and errors are those of placement.
pub mod Entitled
mod Tests
use sgsp.Common.{
  ℕ, ltb, ◌==◌, if◌then◌else◌, Bool, true, false, not, ◌&&◌, ◌||◌, Option, none, some,
}
use sgsp.Placement.Types.{
  String, AppIdentity, Endpoint, Owner, Error, forbidden, Result, ok, err, same_text,
}
use sgsp.Placement.Bootstrap.{Principal, Admission, ◌>>=◌, ◌>>◌, check, succeed}

pub data Role : Type 0 where
  game_role bootstrap_role : Role

pub record ServerConfig : Type 0 where
  pub role : Role
  pub app : AppIdentity
  pub owner : Owner
  pub require_admission : Bool
  pub verify : Option (String → Result Admission)
  pub authorize_group : Option (Principal → String → Option Error)

-- `==` on the structs.
unfoldable pub same_app : AppIdentity → AppIdentity → Bool
same_app a b = same_text a.id b.id && same_text a.version b.version

unfoldable pub same_owner : Owner → Owner → Bool
same_owner a b =
    same_text a.id b.id
    && a.incarnation == b.incarnation
    && same_text a.endpoint.address b.endpoint.address
    && same_text a.endpoint.server_name b.endpoint.server_name

-- The admission is for this application, principal, owner and group, and still live.
unfoldable pub matches : ServerConfig → ℕ → String → Principal → Admission → Bool
matches config now group principal a =
    same_app a.app config.app
    && same_text a.principal_issuer principal.issuer
    && same_text a.subject principal.subject
    && same_owner a.owner config.owner
    && same_text a.group_key group
    && ltb now a.expires_at

abbrev pub is_bootstrap : Role → Bool
is_bootstrap game_role = false
is_bootstrap bootstrap_role = true

abbrev pub requires : ServerConfig → String → Bool
requires config group = config.require_admission || not (same_text group "")

-- With a ticket, a verifier and an authorizer that are there.
unfoldable pub check_ticket :
    ServerConfig
    → (String → Result Admission)
    → (Principal → String → Option Error)
    → ℕ
    → String
    → String
    → Principal
    → Result (Unit {0})
check_ticket config verify allow now group ticket principal = do
  admission ← verify ticket
  check (matches config now group principal admission) forbidden
  succeed (allow principal group)

unfoldable pub authorize_admission :
    ServerConfig → ℕ → String → String → Principal → Result (Unit {0})
authorize_admission config now group ticket principal =
    if is_bootstrap config.role
    then ok tt
    else if not (requires config group)
    then ok tt
    else elim config.verify [
      | none ↦ err forbidden
      | some verify ↦ elim config.authorize_group [
        | none ↦ err forbidden
        | some allow ↦
            if same_text ticket ""
            then err forbidden
            else check_ticket config verify allow now group ticket principal
      ]
    ]
