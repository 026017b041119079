-- ===== src/Access/Rules.antt =====
-- The access rules agree, and say what they mean.
use sparks_effect_api.Prelude.{
  [], Option, none, some, Str, true, ◌==◌, str_Eq, str_eq_iff, ◌≡◌, ◌≢◌, refl, ap, ◌↔◌, ◌⊎◌, inl,
  inr, Bool-cases, arith,
}
use sparks_effect_api.Access.{
  User, owns, can_access, can_reference, may_reach_scenario, may_read_routing_job,
}

owns_iff :
    (user : User) (owner : Option Str)
    → (owns user owner ≡ true) ↔ ((owner ≡ some user.id) × (user.id ≢ []))
unfolding owns
owns_iff user none = ((λ h. cc), λ p. cc)
owns_iff user (some owner) = elim (Bool-cases (user.id == [])) [
  | inl blank ↦ ((λ h. ground arith), λ p. absurd (p.1 ((str_eq_iff user.id []).0 blank)))
  | inr named ↦ (
    (λ h. (
      ap some ((str_eq_iff owner user.id).0 (rw (named, owns) at h)),
      λ e. let y = (str_eq_iff user.id []).1 e in cc,
    )),
    λ p. rw (named, owns) ((str_eq_iff owner user.id).1 (let e = p.0 in cc)),
  )
]

-- A user may access a row exactly when they are an admin, or the row has an owner with their id and
-- that id is not blank.
pub can_access_iff :
    (user : User) (owner : Option Str)
    → (can_access user owner ≡ true)
      ↔ ((user.is_admin ≡ true) ⊎ ((owner ≡ some user.id) × (user.id ≢ [])))
unfolding can_access
can_access_iff user owner = elim (Bool-cases user.is_admin) [
  | inl admin ↦ ((λ h. inl admin), λ p. rw admin refl)
  | inr plain ↦ (
    (λ h. inr ((owns_iff user owner).0 (rw (plain, can_access) at h))),
    λ p. elim p [ inl admin ↦ cc | inr own ↦ rw (plain, can_access) ((owns_iff user owner).1 own) ],
  )
]

-- For a user whose id is not blank, the rules for a routing job, for a scenario and for a reference
-- are one: a row without an owner, or one that the user may access.
pub access_rules_agree :
    (user : User) (owner : Option Str)
    → user.id ≢ []
    → (may_read_routing_job (some user) owner ≡ can_reference user owner)
      × (may_reach_scenario (some user) owner ≡ can_reference user owner)
unfolding may_read_routing_job may_reach_scenario can_reference can_access owns
access_rules_agree user none n = (refl, refl)
access_rules_agree user (some owner) n = elim (Bool-cases (user.id == [])) [
  | inl blank ↦ absurd (n ((str_eq_iff user.id []).0 blank))
  | inr named ↦ (ground arith, refl)
]
