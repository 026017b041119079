-- ===== src/Examples/Users.antt =====
-- One user and the rows of another.
use sparks_effect_api.Prelude.{[], some, codes, false, ◌≡◌, ◌≢◌, refl, str_eq}
use sparks_effect_api.Access.{
  User, can_access, can_reference, may_reach_scenario, may_read_routing_job,
}
use sparks_effect_api.Access.Rules.{access_rules_agree}

abbrev user : User
user = record { id = codes "u"; is_admin = false }

named : user.id ≢ []
named e = cc

-- A row of another user is out of reach.
no_access : can_access user (some (codes "w")) ≡ false
unfolding can_access str_eq
no_access = refl

access_rules_agree_example :
    (may_read_routing_job (some user) (some (codes "u")) ≡ can_reference user (some (codes "u")))
    × (may_reach_scenario (some user) (some (codes "u")) ≡ can_reference user (some (codes "u")))
access_rules_agree_example = access_rules_agree user (some (codes "u")) named
