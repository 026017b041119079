-- ===== src/Publications/Snapshots.antt =====
-- internal/handler/publication.go and internal/persistence/postgres/publication.go: publishing the
-- latest compiled graph of a service, reading what is published, and unpublishing it.
use sparks_effect_api.Prelude.{
  ℕ, List, [], ◌∷◌, ◌++◌, Option, none, some, Str, Bool, false, not, ◌&&◌, ◌||◌, ltb, nat_eq, ◌==◌,
  str_Eq, if◌then◌else◌, Result, ok, err, ◌>>=◌, or_fail, select, update_where, delete_where,
  has_row, contains, lookup,
}
use sparks_effect_api.Types.{
  CompileJob, TransitGraph, ServiceGraph, Edge, BoardingWaitPolicy, BoardingWaitOverride,
}
use sparks_effect_api.BoardingWait.{resolve_boarding_wait, default_boarding_wait_policy}
use sparks_effect_api.JobRunner.{succeeded, compile_user_service}
use sparks_effect_api.Staleness.{graph_stale}
use sparks_effect_api.Publications.{ServicePublication, Route}

-- The row of a service: what a publication reads of the draft.
pub record Draft : Type 0 where
  pub id : Str
  pub slug : Str
  pub owner_id : Str
  pub name : Str
  pub subtext : Str
  pub description : Str
  pub boarding_wait : Option BoardingWaitOverride
  pub updated_at : ℕ

pub data PublishError : Type 0 where
  no_service : PublishError
  stale_graph : PublishError

-- What the public reads answer when there is no graph to show: 404, and 500.
pub data ReadError : Type 0 where
  service_not_found : ReadError
  has_no_graph : Str → ReadError

unfoldable pub is_of : Str → ServicePublication → Bool
is_of service p = p.user_service_id == service

unfoldable pub resolved : Draft → BoardingWaitPolicy → BoardingWaitPolicy
resolved svc global = elim (resolve_boarding_wait svc.boarding_wait none global) [
  | ok (p, source) ↦ p
  | err e ↦ default_boarding_wait_policy
]

unfoldable pub by_id : List Route → List (Str × Route) → List (Str × Route)
by_id [] at = at
by_id (rt ∷ rts) at = by_id rts ((rt.id, rt) ∷ at)

-- The loop of `routesInEdgeOrder` over the ids.
unfoldable pub routes_at : List (Str × Route) → List Str → Result PublishError (List Route)
routes_at at [] = ok []
routes_at at (id ∷ ids) = do
  rt ← or_fail (lookup at id) stale_graph
  rest ← routes_at at ids
  ok (rt ∷ rest)

unfoldable pub routes_in_edge_order : List Str → List Route → Result PublishError (List Route)
unfolding by_id routes_at
routes_in_edge_order ids loaded = routes_at (by_id loaded []) ids

unfoldable pub list_routes_by_ids : List Str → List Route → List Route
list_routes_by_ids ids rts = delete_where (λ rt. not (contains ids rt.id)) rts

-- The upsert, and the row that it returns.
unfoldable pub upsert_publication :
    ℕ → ServicePublication → List ServicePublication → ServicePublication × List ServicePublication
upsert_publication now p rows = elim (select (is_of p.user_service_id) rows) [
  | none ↦
      let stored = record p { published_at = now; first_published_at = now } in
      (stored, stored ∷ rows)
  | some q ↦
      let stored = record p { published_at = now; first_published_at = q.first_published_at } in
      (stored, update_where (is_of p.user_service_id) (λ _. stored) rows)
]

unfoldable pub get_service_publication_by_slug :
    Str → List Draft → List ServicePublication → Option ServicePublication
get_service_publication_by_slug slug drafts rows =
    elim (select (λ (d : Draft). d.slug == slug) drafts) [
      | none ↦ none
      | some d ↦ select (is_of d.id) rows
    ]

-- A service whose row is gone is a success, as is one that is not published.
unfoldable pub unpublish_user_service :
    Str → List Draft → List ServicePublication → List ServicePublication
unpublish_user_service service drafts rows =
    if has_row (λ (d : Draft). d.id == service) drafts
    then delete_where (is_of service) rows
    else rows

module _ {F : Type 0} where
  unfoldable pub is_succeeded_of : Str → CompileJob F → Bool
  is_succeeded_of service j = elim j.user_service_id [
    | none ↦ false
    | some id ↦ id == service && j.kind == compile_user_service && j.status == succeeded
  ]

  -- `ORDER BY created_at DESC, id DESC`; `id_before` is the order of ids in the database.
  unfoldable pub is_newer : (Str → Str → Bool) → CompileJob F → CompileJob F → Bool
  is_newer id_before j k =
      ltb k.created_at j.created_at || (nat_eq k.created_at j.created_at && id_before k.id j.id)

  unfoldable pub newest_of :
      (Str → Str → Bool) → CompileJob F → Option (CompileJob F) → Option (CompileJob F)
  newest_of id_before j none = some j
  newest_of id_before j (some k) = if is_newer id_before k j then some k else some j

  unfoldable pub latest_succeeded_compile_job :
      (Str → Str → Bool) → Str → List (CompileJob F) → Option (CompileJob F)
  unfolding newest_of
  latest_succeeded_compile_job id_before service [] = none
  latest_succeeded_compile_job id_before service (j ∷ js) =
      let rest = latest_succeeded_compile_job id_before service js in
      if is_succeeded_of service j then newest_of id_before j rest else rest

  -- The guard of `currentCompile` on a job that was found with a graph.
  unfoldable pub current_compile : Draft → CompileJob F → BoardingWaitPolicy → Bool
  unfolding resolved
  current_compile svc job global =
      job.kind == compile_user_service
      && job.status == succeeded
      && not (
          graph_stale job (svc.id ∷ []) ((svc.id, svc.updated_at) ∷ [])
            ((svc.id, resolved svc global) ∷ []))

  -- The step of the loop over the edges; the ids seen are the ids collected.
  unfoldable pub add_edge_route : List Str → Edge F → List Str
  add_edge_route ids e =
      if e.route_id == [] || contains ids e.route_id then ids else ids ++ e.route_id ∷ []

  unfoldable pub add_edge_routes : List Str → List (Edge F) → List Str
  unfolding add_edge_route
  add_edge_routes ids [] = ids
  add_edge_routes ids (e ∷ es) = add_edge_routes (add_edge_route ids e) es

  unfoldable pub edge_route_ids_from : List Str → List (ServiceGraph F) → List Str
  unfolding add_edge_routes
  edge_route_ids_from ids [] = ids
  edge_route_ids_from ids (sg ∷ sgs) = edge_route_ids_from (add_edge_routes ids sg.edges) sgs

  unfoldable pub edge_route_ids : TransitGraph F → List Str
  unfolding edge_route_ids_from
  edge_route_ids g = edge_route_ids_from [] g.services

  unfoldable pub publication_from_locked_draft :
      Draft
      → Option (CompileJob F)
      → List Route
      → BoardingWaitPolicy
      → Result PublishError ServicePublication
  unfolding edge_route_ids routes_in_edge_order list_routes_by_ids current_compile
  publication_from_locked_draft svc found routes global = do
    job ← or_fail found stale_graph
    g ← or_fail job.result stale_graph
    if not (current_compile svc job global) then err stale_graph else do
      taken ← routes_in_edge_order (edge_route_ids g) (list_routes_by_ids (edge_route_ids g) routes)
      ok (record {
        user_service_id = svc.id;
        compile_job_id = job.id;
        name = svc.name;
        subtext = svc.subtext;
        description = svc.description;
        routes = taken;
        published_at = 0;
        first_published_at = 0;
      })

  unfoldable pub publish_user_service :
      (Str → Str → Bool)
      → ℕ
      → Str
      → List Draft
      → List (CompileJob F)
      → List Route
      → BoardingWaitPolicy
      → List ServicePublication
      → Result PublishError (ServicePublication × List ServicePublication)
  unfolding publication_from_locked_draft latest_succeeded_compile_job upsert_publication
  publish_user_service id_before now service drafts jobs routes global rows = do
    svc ← or_fail (select (λ (d : Draft). d.id == service) drafts) no_service
    p ←
        publication_from_locked_draft svc (latest_succeeded_compile_job id_before svc.id jobs)
          routes global
    ok (upsert_publication now p rows)

  unfoldable pub get_succeeded_compile_job : Str → List (CompileJob F) → Option (CompileJob F)
  get_succeeded_compile_job id jobs =
      select
        (λ (j : CompileJob F).
          j.id == id && j.status == succeeded && j.kind == compile_user_service)
        jobs

  -- `loadPublishedGraph`
  unfoldable pub load_published_graph :
      Str
      → List Draft
      → List (CompileJob F)
      → List ServicePublication
      → Result ReadError (ServicePublication × CompileJob F × TransitGraph F)
  unfolding get_service_publication_by_slug get_succeeded_compile_job
  load_published_graph slug drafts jobs rows = do
    p ← or_fail (get_service_publication_by_slug slug drafts rows) service_not_found
    j ← or_fail (get_succeeded_compile_job p.compile_job_id jobs) service_not_found
    g ← or_fail j.result (has_no_graph j.id)
    ok (p, j, g)
