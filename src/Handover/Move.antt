-- ===== src/Handover/Move.antt =====
-- internal/persistence/postgres/handover.go: `moveLockedUserService`, what moves with a service.
use sparks_effect_api.Prelude.{
  ℕ, zero, suc, ◌+◌, ◌-◌, ◌||◌, ◌/◌, ◌%◌, List, [], ◌∷◌, ◌++◌, Option, none, some, Str, Bool, false,
  not, ltb, ◌==◌, str_Eq, if◌then◌else◌, Result, ok, err, ◌>>=◌, or_fail, lookup, update_where,
  select,
}
use sparks_effect_api.Handover.{
  HandoverError, recipient_disabled, in_scenarios, no_row, no_free_slug, ServiceRow, RouteRow,
  JobRow, Tables,
}

-- `fmt.Sprintf("%d", attempt)` for an attempt below 1000.
decimal : ℕ → Str
decimal n =
    if ltb n 10
    then (48 + n) ∷ []
    else if ltb n 100
    then (48 + n / 10) ∷ (48 + n % 10) ∷ []
    else (48 + n / 100) ∷ (48 + n / 10 % 10) ∷ (48 + n % 10) ∷ []

-- `fmt.Sprintf("%s-%d", slug, attempt)`
unfoldable pub copy_slug : Str → ℕ → Str
unfolding decimal
copy_slug slug attempt = slug ++ 45 ∷ decimal attempt

-- `ON CONFLICT (slug) DO NOTHING`
unfoldable pub slug_taken : List RouteRow → Str → Bool
slug_taken [] slug = false
slug_taken (r ∷ rs) slug = r.slug == slug || slug_taken rs slug

-- The loop over the attempts; `left` counts those that remain.
unfoldable pub copy_attempts :
    ℕ → ℕ → RouteRow → Str → Str → List RouteRow → Result HandoverError (List RouteRow)
unfolding copy_slug slug_taken
copy_attempts zero attempt route copy_id owner routes = err (no_free_slug route.slug)
copy_attempts (suc left) attempt route copy_id owner routes =
    let rest = copy_attempts left (suc attempt) route copy_id owner routes in
    if slug_taken routes (copy_slug route.slug attempt)
    then rest
    else ok (
        record {
          id = copy_id;
          owner_id = some owner;
          slug = copy_slug route.slug attempt;
          geometry = route.geometry;
        }
        ∷ routes)

-- `maxRouteCopyAttempts`; the first attempt is 2.
abbrev max_route_copy_attempts : ℕ
max_route_copy_attempts = 100

unfoldable pub copy_route_to :
    Str → RouteRow → Str → List RouteRow → Result HandoverError (List RouteRow)
unfolding copy_attempts
copy_route_to copy_id route owner routes =
    copy_attempts (max_route_copy_attempts - 1) 2 route copy_id owner routes

-- `scenarioSlugsContaining`
unfoldable pub scenario_slugs_containing : Str → List (Str × Str) → List Str
scenario_slugs_containing service [] = []
scenario_slugs_containing service ((slug, member) ∷ ms) =
    let rest = scenario_slugs_containing service ms in
    if member == service then slug ∷ rest else rest

unfoldable pub refuse_members : List Str → Result HandoverError Unit
refuse_members [] = ok tt
refuse_members (slug ∷ slugs) = err (in_scenarios (slug ∷ slugs))

-- `routeOwner != nil && *routeOwner != toUserID`
unfoldable pub owned_by_other : Option Str → Str → Bool
owned_by_other none to = false
owned_by_other (some owner) to = not (owner == to)

-- The service's route is copied if the recipient cannot reference it.
unfoldable pub settle_route : Str → Str → Str → RouteRow → Tables → Result HandoverError Tables
unfolding owned_by_other copy_route_to
settle_route copy_id service to route t =
    let copied = copy_route_to copy_id route to t.routes in
    if owned_by_other route.owner_id to
    then (do
      routes ← copied
      ok (record t {
        routes = routes;
        services =
            update_where (λ (s : ServiceRow). s.id == service)
              (λ s. record s { route_id = copy_id }) t.services;
      }))
    else ok t

-- `jobs.user_service_id = $1`
unfoldable pub is_job_of : Str → JobRow → Bool
is_job_of service j = elim j.user_service_id [ none ↦ false | some s ↦ s == service ]

-- The two updates at the end of the move.
unfoldable pub reown : ℕ → Str → Str → Tables → Tables
unfolding is_job_of
reown now service to t = record t {
  services =
      update_where (λ (s : ServiceRow). s.id == service)
        (λ s. record s { owner_id = to; updated_at = now }) t.services;
  jobs = update_where (is_job_of service) (λ j. record j { owner_id = some to }) t.jobs;
}

-- `copy_id` is the id that `ids.NewUUID` returns.
unfoldable pub move_locked_user_service :
    ℕ → Str → Str → Str → Str → Tables → Result HandoverError Tables
unfolding refuse_members scenario_slugs_containing settle_route
move_locked_user_service now copy_id service route_id to t = do
  _ ← refuse_members (scenario_slugs_containing service t.members)
  route ← or_fail (select (λ (r : RouteRow). r.id == route_id) t.routes) no_row
  t' ← settle_route copy_id service to route t
  ok (reown now service to t')

-- `refuseDisabledRecipient`
unfoldable pub refuse_disabled_recipient : Str → Tables → Result HandoverError Unit
refuse_disabled_recipient user t = do
  disabled ← or_fail (lookup t.disabled user) no_row
  if disabled then err recipient_disabled else ok tt
