-- ===== src/Staleness/Routed.antt =====
-- internal/transit/staleness.go: the edges of a graph that is not stale.
use sparks_effect_api.Prelude.{
  ℕ, List, [], ◌∷◌, some, Str, true, false, ◌||◌, ◌==◌, str_Eq, ◌≡◌, sym, subst, inl, inr, In,
  Bool-cases, arith,
}
use sparks_effect_api.Types.{BoardingWaitPolicy, Edge, ServiceGraph, TransitGraph, CompileJob}
use sparks_effect_api.Staleness.{
  graph_stale, edge_routes_stale, any_unrouted, membership_stale, boarding_wait_stale,
}

module _ {F : Type 0} where
  any_unrouted-routed :
      (es : List (Edge F)) (e : Edge F)
      → any_unrouted es ≡ false
      → In e es
      → (e.route_id == []) ≡ false
  unfolding any_unrouted
  any_unrouted-routed [] e h m = absurd m
  any_unrouted-routed (f ∷ es) e h (inl same) =
      subst (λ (z : Edge F). (z.route_id == []) ≡ false) (sym same)
        (elim (Bool-cases (f.route_id == [])) [
          | inl bad ↦ let z : true ≡ false = rw bad at h in absurd (cc)
          | inr good ↦ good
        ])
  any_unrouted-routed (f ∷ es) e h (inr m) = elim (Bool-cases (f.route_id == [])) [
    | inl bad ↦ let z : true ≡ false = rw bad at h in absurd (cc)
    | inr good ↦ any_unrouted-routed es e (rw good at h) m
  ]

  edge_routes_stale-routed :
      (sgs : List (ServiceGraph F)) (sg : ServiceGraph F)
      → edge_routes_stale sgs ≡ false
      → In sg sgs
      → any_unrouted sg.edges ≡ false
  unfolding edge_routes_stale
  edge_routes_stale-routed [] sg h m = absurd m
  edge_routes_stale-routed (g ∷ sgs) sg h (inl same) =
      subst (λ (z : ServiceGraph F). any_unrouted z.edges ≡ false) (sym same)
        (elim (Bool-cases (any_unrouted g.edges)) [
          | inl bad ↦ let z : true ≡ false = rw bad at h in absurd (cc)
          | inr good ↦ good
        ])
  edge_routes_stale-routed (g ∷ sgs) sg h (inr m) = elim (Bool-cases (any_unrouted g.edges)) [
    | inl bad ↦ let z : true ≡ false = rw bad at h in absurd (cc)
    | inr good ↦ edge_routes_stale-routed sgs sg (rw good at h) m
  ]

  -- Every edge of a graph that is not stale has a route.
  pub graph_stale-routed :
      (job : CompileJob F) (ids : List Str) (updated_at : List (Str × ℕ))
      (policies : List (Str × BoardingWaitPolicy)) (g : TransitGraph F)
      → graph_stale job ids updated_at policies ≡ false
      → job.result ≡ some g
      → (sg : ServiceGraph F) → In sg g.services
      → (e : Edge F) → In e sg.edges
      → (e.route_id == []) ≡ false
  unfolding graph_stale
  graph_stale-routed job ids updated_at policies g h found sg m e n =
      elim (Bool-cases (membership_stale job.compiled_service_ids job.created_at ids updated_at)) [
        | inl old ↦ let z : true ≡ false = rw old at h in absurd (cc)
        | inr kept ↦
            let routed : edge_routes_stale g.services ≡ false =
              let r : boarding_wait_stale g.services policies || edge_routes_stale g.services
                  ≡ false =
                rw (kept, found) at h in
              ground arith in
            any_unrouted-routed sg.edges e (edge_routes_stale-routed g.services sg routed m) n
      ]
