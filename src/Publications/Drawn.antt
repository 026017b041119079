-- ===== src/Publications/Drawn.antt =====
-- internal/handler/publication.go: the routes that a snapshot takes along.
use sparks_effect_api.Prelude.{
  List, [], ◌∷◌, Str, false, not, ◌||◌, ◌==◌, str_Eq, ok, ◌>>=◌, >>=-eq-ok, or_fail, or_fail-eq-ok,
  ok-eq-ok, contains, lookup, lookup-In, contains-In, ◌≡◌, refl, sym, subst, ◌∙◌, inl, inr, In, All,
  All-In, Bool-cases, In-append_left, In-append_right, delete_where-In,
}
use sparks_effect_api.Types.{ServiceGraph, Edge}
use sparks_effect_api.Publications.{Route}
use sparks_effect_api.Publications.Snapshots.{
  PublishError, by_id, routes_at, routes_in_edge_order, list_routes_by_ids, add_edge_route,
  add_edge_routes, edge_route_ids_from,
}

-- The routes of a snapshot, each under its id.
abbrev Keyed : List Route → Str × Route → Type 0
Keyed loaded (id, rt) = (rt.id ≡ id) × In rt loaded

by_id-Keyed :
    (loaded rts : List Route) (at : List (Str × Route))
    → ((rt : Route) → In rt rts → In rt loaded)
    → All (Keyed loaded) at
    → All (Keyed loaded) (by_id rts at)
unfolding by_id
by_id-Keyed loaded [] at within h = h
by_id-Keyed loaded (rt ∷ rts) at within h =
    by_id-Keyed loaded rts ((rt.id, rt) ∷ at) (λ r m. within r (inr m))
      ((refl, within rt (inl refl)), h)

-- A route for each id, and no other.
routes_at-each :
    (loaded : List Route) (at : List (Str × Route)) (ids : List Str) (out : List Route)
    → All (Keyed loaded) at
    → routes_at at ids ≡ ok out
    → (id : Str) → In id ids
    → (rt : Route) × In rt out × In rt loaded × (rt.id ≡ id)
unfolding routes_at
routes_at-each loaded at [] out h e id m = absurd m
routes_at-each loaded at (i ∷ ids) out h e id m =
    let (rt, found, later) =
      >>=-eq-ok (or_fail (lookup at i) PublishError.stale_graph)
        (λ rt. do rest ← routes_at at ids; ok (rt ∷ rest)) e in
    let (rest, others, whole) = >>=-eq-ok (routes_at at ids) (λ rest. ok (rt ∷ rest)) later in
    let here = or_fail-eq-ok (lookup at i) PublishError.stale_graph found in
    let (same_id, stored) = All-In (Keyed loaded) at (i, rt) h (lookup-In at i rt here) in
    let all : rt ∷ rest ≡ out = ok-eq-ok whole in
    elim m [
      | inl first ↦ (rt, subst (λ r. In rt r) all (inl refl), stored, same_id ∙ sym first)
      | inr n ↦
          let (r, inside, loaded_too, of_id) = routes_at-each loaded at ids rest h others id n in
          (r, subst (λ l. In r l) all (inr inside), loaded_too, of_id)
    ]

pub routes_in_edge_order-each :
    (routes : List Route) (ids : List Str) (out : List Route)
    → routes_in_edge_order ids (list_routes_by_ids ids routes) ≡ ok out
    → (id : Str) → In id ids
    → (rt : Route) × In rt out × In rt routes × (rt.id ≡ id)
unfolding routes_in_edge_order list_routes_by_ids
routes_in_edge_order-each routes ids out e id m =
    let loaded = list_routes_by_ids ids routes in
    let (rt, inside, stored, of_id) =
      routes_at-each loaded (by_id loaded []) ids out (by_id-Keyed loaded loaded [] (λ r n. n) tt) e
        id m in
    (rt, inside, (delete_where-In (λ r. not (contains ids r.id)) routes rt stored).0, of_id)

module _ {F : Type 0} where
  add_edge_route-keeps :
      (ids : List Str) (e : Edge F) (id : Str) → In id ids → In id (add_edge_route ids e)
  unfolding add_edge_route
  add_edge_route-keeps ids e id m =
      elim (Bool-cases (e.route_id == [] || contains ids e.route_id)) [
        | inl old ↦ rw old m
        | inr new ↦ rw new (In-append_left id ids (e.route_id ∷ []) m)
      ]

  add_edge_route-adds :
      (ids : List Str) (e : Edge F)
      → (e.route_id == []) ≡ false
      → In e.route_id (add_edge_route ids e)
  unfolding add_edge_route
  add_edge_route-adds ids e h = elim (Bool-cases (contains ids e.route_id)) [
    | inl old ↦ rw (h, old) (contains-In ids e.route_id old)
    | inr new ↦ rw (h, new) (In-append_right e.route_id ids (e.route_id ∷ []) (inl refl))
  ]

  add_edge_routes-keeps :
      (es : List (Edge F)) (ids : List Str) (id : Str) → In id ids → In id (add_edge_routes ids es)
  unfolding add_edge_routes
  add_edge_routes-keeps [] ids id m = m
  add_edge_routes-keeps (e ∷ es) ids id m =
      add_edge_routes-keeps es (add_edge_route ids e) id (add_edge_route-keeps ids e id m)

  add_edge_routes-adds :
      (es : List (Edge F)) (ids : List Str) (e : Edge F)
      → In e es
      → (e.route_id == []) ≡ false
      → In e.route_id (add_edge_routes ids es)
  unfolding add_edge_routes
  add_edge_routes-adds [] ids e m h = absurd m
  add_edge_routes-adds (f ∷ es) ids e (inr m) h =
      add_edge_routes-adds es (add_edge_route ids f) e m h
  add_edge_routes-adds (f ∷ es) ids e (inl same) h =
      add_edge_routes-keeps es (add_edge_route ids f) e.route_id (
        subst (λ (z : Edge F). In e.route_id (add_edge_route ids z)) same
          (add_edge_route-adds ids e h))

  edge_route_ids_from-keeps :
      (sgs : List (ServiceGraph F)) (ids : List Str) (id : Str)
      → In id ids
      → In id (edge_route_ids_from ids sgs)
  unfolding edge_route_ids_from
  edge_route_ids_from-keeps [] ids id m = m
  edge_route_ids_from-keeps (sg ∷ sgs) ids id m =
      edge_route_ids_from-keeps sgs (add_edge_routes ids sg.edges) id
        (add_edge_routes-keeps sg.edges ids id m)

  pub edge_route_ids_from-adds :
      (sgs : List (ServiceGraph F)) (ids : List Str) (sg : ServiceGraph F) (e : Edge F)
      → In sg sgs
      → In e sg.edges
      → (e.route_id == []) ≡ false
      → In e.route_id (edge_route_ids_from ids sgs)
  unfolding edge_route_ids_from
  edge_route_ids_from-adds [] ids sg e m n h = absurd m
  edge_route_ids_from-adds (g ∷ sgs) ids sg e (inr m) n h =
      edge_route_ids_from-adds sgs (add_edge_routes ids g.edges) sg e m n h
  edge_route_ids_from-adds (g ∷ sgs) ids sg e (inl same) n h =
      edge_route_ids_from-keeps sgs (add_edge_routes ids g.edges) e.route_id
        (add_edge_routes-adds g.edges ids e (subst (λ (z : ServiceGraph F). In e z.edges) same n) h)
