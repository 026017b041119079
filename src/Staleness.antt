-- ===== src/Staleness.antt =====
-- internal/transit/staleness.go: whether a compiled graph or a rendered isochrone is out of date.
pub mod Fresh
pub mod Routed
use sparks_effect_api.Prelude.{
  ℕ, List, [], ◌∷◌, none, some, Str, Bool, true, false, not, ◌&&◌, ◌||◌, ltb, nat_eq, nat_Eq, eq_ℤ,
  ◌==◌, str_Eq, if◌then◌else◌, length, contains, insert, lookup, arith,
}
use sparks_effect_api.Types.{BoardingWaitPolicy, Edge, ServiceGraph, CompileJob}
use sparks_effect_api.BoardingWait.{default_boarding_wait_policy, kind_or_none, wait_fixed}

-- The keys of `compiled`, each once.
id_set : List Str → List Str
id_set [] = []
id_set (id ∷ ids) = insert id (id_set ids)

-- The first loop over `currentServiceIDs`.
any_missing : List Str → List Str → Bool
any_missing compiled [] = false
any_missing compiled (id ∷ ids) =
    let rest = any_missing compiled ids in if not (contains compiled id) then true else rest

-- The second loop over `currentServiceIDs`.
any_updated : List (Str × ℕ) → ℕ → List Str → Bool
any_updated updated_at captured_at [] = false
any_updated updated_at captured_at (id ∷ ids) =
    let rest = any_updated updated_at captured_at ids in
    elim (lookup updated_at id) [ none ↦ rest | some t ↦ if ltb captured_at t then true else rest ]

unfoldable pub membership_stale : List Str → ℕ → List Str → List (Str × ℕ) → Bool
unfolding id_set any_missing any_updated
membership_stale compiled_ids captured_at current_ids updated_at =
    if not (nat_eq (length (id_set compiled_ids)) (length current_ids))
    then true
    else if any_missing (id_set compiled_ids) current_ids
    then true
    else any_updated updated_at captured_at current_ids

-- `ServiceMembership` and the fields of `PrerenderedIsochrone` that are read.
pub record ServiceMembership : Type 0 where
  pub service_id : Str
  pub updated_at : ℕ

pub record PrerenderedIsochrone : Type 0 where
  pub compiled_service_ids : List Str
  pub created_at : ℕ

unfoldable pub membership_ids : List ServiceMembership → List Str
membership_ids [] = []
membership_ids (m ∷ ms) = m.service_id ∷ membership_ids ms

-- The map that `PrerenderedOutdated` fills.
updates : List ServiceMembership → List (Str × ℕ) → List (Str × ℕ)
updates [] at = at
updates (m ∷ ms) at = updates ms ((m.service_id, m.updated_at) ∷ at)

unfoldable pub prerendered_outdated : PrerenderedIsochrone → List ServiceMembership → Bool
unfolding updates
prerendered_outdated p members =
    membership_stale p.compiled_service_ids p.created_at (membership_ids members)
      (updates members [])

-- `currentPolicies[sg.ServiceID]`, or the default.
current_policy : List (Str × BoardingWaitPolicy) → Str → BoardingWaitPolicy
current_policy policies id = elim (lookup policies id) [
  | none ↦ default_boarding_wait_policy
  | some p ↦ p
]

module _ {F : Type 0} where
  policy_changed : BoardingWaitPolicy → ServiceGraph F → Bool
  policy_changed current sg =
      not (sg.wait_policy == kind_or_none current)
      || (current.kind == wait_fixed && not (eq_ℤ sg.wait_secs current.fixed_secs))

  unfoldable pub boarding_wait_stale :
      List (ServiceGraph F) → List (Str × BoardingWaitPolicy) → Bool
  unfolding current_policy policy_changed
  boarding_wait_stale [] policies = false
  boarding_wait_stale (sg ∷ sgs) policies =
      let rest = boarding_wait_stale sgs policies in
      if policy_changed (current_policy policies sg.service_id) sg then true else rest

  any_unrouted : List (Edge F) → Bool
  any_unrouted [] = false
  any_unrouted (e ∷ es) = let rest = any_unrouted es in if e.route_id == [] then true else rest

  unfoldable pub edge_routes_stale : List (ServiceGraph F) → Bool
  unfolding any_unrouted
  edge_routes_stale [] = false
  edge_routes_stale (sg ∷ sgs) =
      let rest = edge_routes_stale sgs in if any_unrouted sg.edges then true else rest

  unfoldable pub graph_stale :
      CompileJob F → List Str → List (Str × ℕ) → List (Str × BoardingWaitPolicy) → Bool
  graph_stale job current_ids updated_at policies =
      if membership_stale job.compiled_service_ids job.created_at current_ids updated_at
      then true
      else elim job.result [
        | none ↦ false
        | some g ↦ boarding_wait_stale g.services policies || edge_routes_stale g.services
      ]
