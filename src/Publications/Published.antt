-- ===== src/Publications/Published.antt =====
-- internal/handler/publication.go and internal/persistence/postgres/publication.go: what a publish
-- takes from the draft and its compile, and the row that it stores.
use sparks_effect_api.Prelude.{
  ℕ, List, [], ◌∷◌, Option, none, some, Str, true, false, ◌==◌, str_Eq, str_eq_iff, ok, >>=-eq-ok,
  or_fail, or_fail-eq-ok, ok-eq-ok, err-eq-ok, select, update_where, ◌≡◌, ◌≢◌, ◌⊎◌, refl, sym,
  subst, ◌∙◌, inl, inr, In, Bool-cases, Option-cases, arith, select-overwritten,
  select-update_other,
}
use sparks_effect_api.Types.{CompileJob, TransitGraph, ServiceGraph, Edge, BoardingWaitPolicy}
use sparks_effect_api.Staleness.{graph_stale}
use sparks_effect_api.Staleness.Routed.{graph_stale-routed}
use sparks_effect_api.Publications.{ServicePublication, Route}
use sparks_effect_api.Publications.Drawn.{routes_in_edge_order-each, edge_route_ids_from-adds}
use sparks_effect_api.Publications.Snapshots.{
  Draft, PublishError, is_of, upsert_publication, resolved, current_compile, edge_route_ids,
  routes_in_edge_order, list_routes_by_ids, publication_from_locked_draft,
}

is_of_id : (p : ServicePublication) → is_of p.user_service_id p ≡ true
unfolding is_of
is_of_id p = (str_eq_iff p.user_service_id p.user_service_id).1 refl

-- The row is stored under its service, with the time of the service's first publish; the rows of
-- other services stay.
pub record IsStored (now : ℕ) (p : ServicePublication) (rows : List ServicePublication)
    (stored : ServicePublication) (rows' : List ServicePublication) : Type 0 where
  pub first : ℕ
  pub copy : stored ≡ record p { published_at = now; first_published_at = first }
  pub since :
      ((select (is_of p.user_service_id) rows ≡ none) × (first ≡ now))
      ⊎ ((q : ServicePublication) × (select (is_of p.user_service_id) rows ≡ some q)
          × (first ≡ q.first_published_at))
  pub found : select (is_of p.user_service_id) rows' ≡ some stored
  pub others :
      (other : Str)
      → other ≢ p.user_service_id
      → select (is_of other) rows' ≡ select (is_of other) rows

is_other :
    (p : ServicePublication) (other : Str) → other ≢ p.user_service_id → is_of other p ≡ false
unfolding is_of
is_other p other apart = elim (Bool-cases (p.user_service_id == other)) [
  | inl same ↦ absurd (apart (sym ((str_eq_iff p.user_service_id other).0 same)))
  | inr off ↦ off
]

fresh-IsStored :
    (now : ℕ) (p : ServicePublication) (rows : List ServicePublication)
    → select (is_of p.user_service_id) rows ≡ none
    → let stored = record p { published_at = now; first_published_at = now } in
      IsStored now p rows stored (stored ∷ rows)
unfolding select
fresh-IsStored now p rows fresh =
    let stored = record p { published_at = now; first_published_at = now } in
    record {
      first = now;
      copy = refl;
      since = inl (fresh, refl);
      found = rw (is_of_id stored) refl;
      others = λ other apart. rw (is_other stored other apart) refl;
    }

kept-IsStored :
    (now : ℕ) (p : ServicePublication) (rows : List ServicePublication) (q : ServicePublication)
    → select (is_of p.user_service_id) rows ≡ some q
    → let stored = record p { published_at = now; first_published_at = q.first_published_at } in
      IsStored now p rows stored (update_where (is_of p.user_service_id) (λ _. stored) rows)
unfolding is_of
kept-IsStored now p rows q kept =
    let stored = record p { published_at = now; first_published_at = q.first_published_at } in
    record {
      first = q.first_published_at;
      copy = refl;
      since = inr (q, kept, refl);
      found = select-overwritten (is_of p.user_service_id) stored rows q (is_of_id stored) kept;
      others = λ other apart.
          select-update_other (is_of other) (is_of p.user_service_id) (λ _. stored) rows
            (λ y here. (
              is_other y other
                  (λ e. apart (e ∙ (str_eq_iff y.user_service_id p.user_service_id).0 here)),
              is_other stored other apart,
            ));
    }

pub upsert_publication-IsStored :
    (now : ℕ) (p : ServicePublication) (rows : List ServicePublication)
    → IsStored now p rows (upsert_publication now p rows).0 (upsert_publication now p rows).1
unfolding upsert_publication
upsert_publication-IsStored now p rows =
    elim (Option-cases (select (is_of p.user_service_id) rows)) [
      | inl fresh ↦ rw (upsert_publication, fresh) (fresh-IsStored now p rows fresh)
      | inr (q, kept) ↦ rw (upsert_publication, kept) (kept-IsStored now p rows q kept)
    ]

-- A snapshot of the draft and of a compile of it that is not stale, with every route of its graph.
pub record IsSnapshot {F : Type 0} (svc : Draft) (job : CompileJob F) (graph : TransitGraph F)
    (routes : List Route) (global : BoardingWaitPolicy) (p : ServicePublication) : Type 0 where
  pub result : job.result ≡ some graph
  pub fresh :
      graph_stale job
        (svc.id ∷ [])
        ((svc.id, svc.updated_at) ∷ [])
        ((svc.id, resolved svc global) ∷ [])
      ≡ false
  pub of_service : p.user_service_id ≡ svc.id
  pub pins : p.compile_job_id ≡ job.id
  pub name : p.name ≡ svc.name
  pub subtext : p.subtext ≡ svc.subtext
  pub description : p.description ≡ svc.description
  pub drawn :
      (sg : ServiceGraph F)
      → In sg graph.services
      → (e : Edge F) → In e sg.edges
      → (rt : Route) × In rt p.routes × In rt routes × (rt.id ≡ e.route_id)

current_compile-fresh :
    {F : Type 0} (svc : Draft) (job : CompileJob F) (global : BoardingWaitPolicy)
    → current_compile svc job global ≡ true
    → graph_stale job
        (svc.id ∷ [])
        ((svc.id, svc.updated_at) ∷ [])
        ((svc.id, resolved svc global) ∷ [])
      ≡ false
unfolding current_compile
current_compile-fresh svc job global h = ground arith

pub publication_from_locked_draft-IsSnapshot :
    {F : Type 0} (svc : Draft) (found : Option (CompileJob F)) (routes : List Route)
    (global : BoardingWaitPolicy) (p : ServicePublication)
    → publication_from_locked_draft svc found routes global ≡ ok p
    → (job : CompileJob F) × (graph : TransitGraph F) × (found ≡ some job)
      × IsSnapshot svc job graph routes global p
unfolding publication_from_locked_draft edge_route_ids
publication_from_locked_draft-IsSnapshot svc found routes global p h =
    let (job, a, h1) = >>=-eq-ok (or_fail found PublishError.stale_graph) _ h in
    let (g, b, h2) = >>=-eq-ok (or_fail job.result PublishError.stale_graph) _ h1 in
    let here = or_fail-eq-ok job.result PublishError.stale_graph b in
    elim (Bool-cases (current_compile svc job global)) [
      | inr off ↦ err-eq-ok PublishError.stale_graph p (rw off at h2)
      | inl on ↦
          let ids = edge_route_ids g in
          let fresh = current_compile-fresh svc job global on in
          let (taken, c, last) =
            >>=-eq-ok (routes_in_edge_order ids (list_routes_by_ids ids routes)) _ (rw on at h2) in
          let e = ok-eq-ok last in
          (
            job,
            g,
            or_fail-eq-ok found PublishError.stale_graph a,
            subst (IsSnapshot svc job g routes global) e (record {
              result = here;
              fresh = fresh;
              of_service = refl;
              pins = refl;
              name = refl;
              subtext = refl;
              description = refl;
              drawn = λ sg m e n. routes_in_edge_order-each routes ids taken c e.route_id (
                  edge_route_ids_from-adds g.services [] sg e m n (
                    graph_stale-routed job (svc.id ∷ []) ((svc.id, svc.updated_at) ∷ [])
                      ((svc.id, resolved svc global) ∷ []) g fresh here sg m e n));
            }),
          )
    ]
