-- ===== src/Examples/Merging.antt =====
-- Three stops of two services, of which two merge.
use sparks_effect_api.Prelude.{
  ℕ, List, [], ◌∷◌, Str, codes, Bool, ◌==◌, nat_Eq, ◌≡◌, refl, ◌↔◌, ok, All, str_eq, contains,
  insert,
}
use sparks_effect_api.Clusters.{
  MergeStop, StopIdentity, InterchangePair, cluster_stops, validate_interchange_pairs,
}
use sparks_effect_api.Clusters.Grouped.{IsCluster, AreAssigned, cluster_stops-IsCluster}
use sparks_effect_api.Clusters.Pairs.{IsPair, validate_interchange_pairs_iff}

abbrev stop : Str → Str → ℕ → MergeStop ℕ
stop service slug at = record {
  svc_idx = 0;
  stop_idx = 0;
  ref = record { service_id = service; slug = slug; name = slug };
  lng = at;
  lat = at;
  offset_m = 0;
}

abbrev same_place : MergeStop ℕ → MergeStop ℕ → Bool
same_place s r = s.lng == r.lng

abbrev stops : List (MergeStop ℕ)
stops =
    stop (codes "x") (codes "a") 1
    ∷ stop (codes "x") (codes "b") 1
    ∷ stop (codes "y") (codes "c") 1
    ∷ []

-- The second stop is of the first one's service, the third joins the first.
stops_merge : (cluster_stops same_place stops).1 ≡ 0 ∷ 1 ∷ 0 ∷ []
unfolding cluster_stops contains insert str_eq
stops_merge = refl

cluster_stops-IsCluster_example :
    All (IsCluster same_place) (cluster_stops same_place stops).0
    × AreAssigned same_place
        (cluster_stops same_place stops).0
        stops
        (cluster_stops same_place stops).1
cluster_stops-IsCluster_example = cluster_stops-IsCluster same_place stops

abbrev identity : Str → Str → StopIdentity
identity service slug = record { service_id = service; slug = slug }

abbrev known : List StopIdentity
known = identity (codes "x") (codes "a") ∷ identity (codes "y") (codes "c") ∷ []

abbrev pairs : List InterchangePair
pairs = record { a = identity (codes "x") (codes "a"); b = identity (codes "y") (codes "c") } ∷ []

validate_interchange_pairs_iff_example :
    (validate_interchange_pairs known pairs ≡ ok tt) ↔ All (IsPair known) pairs
validate_interchange_pairs_iff_example = validate_interchange_pairs_iff known pairs

pairs_pass : validate_interchange_pairs known pairs ≡ ok tt
unfolding validate_interchange_pairs str_eq
pairs_pass = refl
