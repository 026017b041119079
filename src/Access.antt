-- ===== src/Access.antt =====
-- internal/auth/authz.go, internal/handler/ownership.go and `mayReadRoutingJob` of
-- internal/handler/routingjob.go: who may reach a row.
pub mod Rules
use sparks_effect_api.Prelude.{
  [], Option, none, some, Str, Bool, true, false, ◌||◌, ◌==◌, str_Eq, if◌then◌else◌,
}

-- The fields of `account.User` that are read.
pub record User : Type 0 where
  pub id : Str
  pub is_admin : Bool

unfoldable pub owns : User → Option Str → Bool
owns user none = false
owns user (some owner) = if user.id == [] then false else owner == user.id

unfoldable pub can_access : User → Option Str → Bool
unfolding owns
can_access user owner = if user.is_admin then true else owns user owner

unfoldable pub can_reference : User → Option Str → Bool
unfolding can_access
can_reference user none = true
can_reference user (some owner) = can_access user (some owner)

-- The user of the request's context, if it has one.
unfoldable pub may_reach_scenario : Option User → Option Str → Bool
unfolding can_access
may_reach_scenario user none = true
may_reach_scenario none (some owner) = false
may_reach_scenario (some user) (some owner) = can_access user (some owner)

unfoldable pub may_read_routing_job : Option User → Option Str → Bool
may_read_routing_job user none = true
may_read_routing_job none (some owner) = false
may_read_routing_job (some user) (some owner) = user.is_admin || owner == user.id
