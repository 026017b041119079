-- ===== src/Clusters.antt =====
-- internal/transit/cluster.go and interchange.go: grouping the stops of several services, and the
-- check on declared interchanges. `near` is the test `physics.DistanceM(…) <= effectiveMergeRadius(…)`
-- of a cluster's first member and a stop.
pub mod Grouped
pub mod Pairs
use sparks_effect_api.Prelude.{
  ℕ, suc, List, [], ◌∷◌, ◌++◌, Str, Bool, false, not, ◌||◌, ◌&&◌, ◌==◌, str_Eq, if◌then◌else◌,
  contains, insert, Result, ok, err,
}

pub record StopRef : Type 0 where
  pub service_id : Str
  pub slug : Str
  pub name : Str

pub record MergeStop (F : Type 0) : Type 0 where
  pub svc_idx : ℕ
  pub stop_idx : ℕ
  pub ref : StopRef
  pub lng : F
  pub lat : F
  pub offset_m : F

pub record PendingCluster (F : Type 0) : Type 0 where
  pub members : List (MergeStop F)
  pub services : List Str

module _ {F : Type 0} (near : MergeStop F → MergeStop F → Bool) where
  -- The distance test; a cluster always has a first member.
  unfoldable pub near_anchor : List (MergeStop F) → MergeStop F → Bool
  near_anchor [] s = false
  near_anchor (anchor ∷ members) s = near anchor s

  -- The two tests of the inner loop.
  unfoldable pub joins : PendingCluster F → MergeStop F → Bool
  unfolding near_anchor
  joins c s = not (contains c.services s.ref.service_id) && near_anchor c.members s

  -- The body of the outer loop: the stop joins the first cluster that takes it, or makes one of its
  -- own at the end. The number is the cluster's index.
  unfoldable pub cluster_stop : MergeStop F → List (PendingCluster F) → ℕ × List (PendingCluster F)
  unfolding joins
  cluster_stop s [] = (0, record { members = s ∷ []; services = insert s.ref.service_id [] } ∷ [])
  cluster_stop s (c ∷ cs) =
      let (i, cs') = cluster_stop s cs in
      if joins c s
      then (
        0,
        record { members = c.members ++ s ∷ []; services = insert s.ref.service_id c.services }
            ∷ cs,
      )
      else (suc i, c ∷ cs')

  unfoldable pub cluster_from :
      List (MergeStop F) → List (PendingCluster F) → List (PendingCluster F) × List ℕ
  unfolding cluster_stop
  cluster_from [] clusters = (clusters, [])
  cluster_from (s ∷ ss) clusters =
      let (i, clusters') = cluster_stop s clusters in
      let (final, cluster_of) = cluster_from ss clusters' in (final, i ∷ cluster_of)

  -- `clusterStops`: the clusters, and the index of the cluster of each stop.
  unfoldable pub cluster_stops : List (MergeStop F) → List (PendingCluster F) × List ℕ
  unfolding cluster_from
  cluster_stops stops = cluster_from stops []

pub record StopIdentity : Type 0 where
  pub service_id : Str
  pub slug : Str

pub record InterchangePair : Type 0 where
  pub a : StopIdentity
  pub b : StopIdentity

pub data PairError : Type 0 where
  same_service : ℕ → Str → PairError
  unknown_stop : ℕ → StopIdentity → PairError

-- `known[…]`, of the stops of all services.
unfoldable pub is_known : List StopIdentity → StopIdentity → Bool
is_known [] s = false
is_known (k ∷ ks) s = (s.service_id == k.service_id && s.slug == k.slug) || is_known ks s

-- The loop over the pairs.
unfoldable pub check_pairs : List StopIdentity → ℕ → List InterchangePair → Result PairError Unit
unfolding is_known
check_pairs known i [] = ok tt
check_pairs known i (p ∷ ps) =
    let rest = check_pairs known (suc i) ps in
    if p.a.service_id == p.b.service_id
    then err (same_service i p.a.service_id)
    else if not (is_known known p.a)
    then err (unknown_stop i p.a)
    else if not (is_known known p.b)
    then err (unknown_stop i p.b)
    else rest

unfoldable pub validate_interchange_pairs :
    List StopIdentity → List InterchangePair → Result PairError Unit
unfolding check_pairs
validate_interchange_pairs known pairs = check_pairs known 0 pairs
