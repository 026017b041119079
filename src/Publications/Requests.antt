-- ===== src/Publications/Requests.antt =====
-- internal/handler/publication.go, with `loadService` and `authorizeService` of
-- internal/handler/service.go: the requests that publish and unpublish a service.
use sparks_effect_api.Prelude.{
  ℕ, List, Option, none, some, Str, Bool, true, ◌==◌, str_Eq, if◌then◌else◌, Result, ok, err,
  select, [], ◌≡◌, ◌≢◌, ◌⊎◌, refl, inl, inr, Bool-cases, Option-cases,
}
use sparks_effect_api.Types.{CompileJob, BoardingWaitPolicy}
use sparks_effect_api.Access.{User, can_access}
use sparks_effect_api.Access.Rules.{can_access_iff}
use sparks_effect_api.Publications.{ServicePublication, Route}
use sparks_effect_api.Publications.Snapshots.{
  Draft, stale_graph, no_service, publish_user_service, unpublish_user_service,
}

-- The answer: a status, or the publication with 200.
pub data Answer : Type 0 where
  status : ℕ → Answer
  published : ServicePublication → Answer

-- Which calls of the store fail.
pub record Down : Type 0 where
  pub lookup_down : Bool
  pub write_down : Bool

-- `loadService` and `authorizeService`, of the user of the request's context.
unfoldable pub authorized : Down → Option User → Str → List Draft → Result ℕ Draft
authorized down user slug drafts =
    if down.lookup_down then err 500 else elim (select (λ (d : Draft). d.slug == slug) drafts) [
      | none ↦ err 404
      | some svc ↦ elim user [
        | none ↦ err 401
        | some u ↦ if can_access u (some svc.owner_id) then ok svc else err 404
      ]
    ]

unfoldable pub publish_service :
    {F : Type 0}
    → (Str → Str → Bool)
    → Down
    → ℕ
    → Option User
    → Str
    → List Draft
    → List (CompileJob F)
    → List Route
    → BoardingWaitPolicy
    → List ServicePublication
    → Answer × List ServicePublication
unfolding authorized
publish_service id_before down now user slug drafts jobs routes global rows =
    elim (authorized down user slug drafts) [
      | err code ↦ (status code, rows)
      | ok svc ↦
          if down.write_down
          then (status 500, rows)
          else elim (publish_user_service id_before now svc.id drafts jobs routes global rows) [
            | err e ↦ (elim e [ no_service ↦ status 500 | stale_graph ↦ status 409 ], rows)
            | ok (stored, rows') ↦ (published stored, rows')
          ]
    ]

unfoldable pub unpublish_service :
    Down
    → Option User
    → Str
    → List Draft
    → List ServicePublication
    → Answer × List ServicePublication
unfolding authorized
unpublish_service down user slug drafts rows = elim (authorized down user slug drafts) [
  | err code ↦ (status code, rows)
  | ok svc ↦
      if down.write_down
      then (status 500, rows)
      else (status 204, unpublish_user_service svc.id drafts rows)
]

-- The user of the request may change the service at the slug.
pub record MayChange (user : Option User) (slug : Str) (drafts : List Draft) : Type 0 where
  pub svc : Draft
  pub caller : User
  pub signed_in : user ≡ some caller
  pub at_slug : select (λ (d : Draft). d.slug == slug) drafts ≡ some svc
  pub allowed : (caller.is_admin ≡ true) ⊎ ((some svc.owner_id ≡ some caller.id) × (caller.id ≢ []))

authorized-MayChange :
    (down : Down) (user : Option User) (slug : Str) (drafts : List Draft)
    → ((code : ℕ) × (authorized down user slug drafts ≡ err code)) ⊎ MayChange user slug drafts
unfolding authorized
authorized-MayChange down user slug drafts = elim (Bool-cases down.lookup_down) [
  | inl off ↦ inl (500, rw off refl)
  | inr on ↦ elim (Option-cases (select (λ (d : Draft). d.slug == slug) drafts)) [
    | inl e ↦ inl (404, rw (on, e) refl)
    | inr (svc, e) ↦ elim (Option-cases user) [
      | inl n ↦ inl (401, rw (on, e, n) refl)
      | inr (u, n) ↦ elim (Bool-cases (can_access u (some svc.owner_id))) [
        | inl may ↦ inr (record {
          svc = svc;
          caller = u;
          signed_in = n;
          at_slug = e;
          allowed = (can_access_iff u (some svc.owner_id)).0 may;
        })
        | inr not_allowed ↦ inl (404, rw (on, e, n, not_allowed) refl)
      ]
    ]
  ]
]

-- A request to publish or to unpublish leaves every publication as it was, unless the user of
-- the request is signed in, and is an admin or owns the service at the slug under an id that is
-- not blank.
pub requests-MayChange :
    {F : Type 0} (id_before : Str → Str → Bool) (down : Down) (now : ℕ) (user : Option User)
    (slug : Str) (drafts : List Draft) (jobs : List (CompileJob F)) (routes : List Route)
    (global : BoardingWaitPolicy) (rows : List ServicePublication)
    → (((publish_service id_before down now user slug drafts jobs routes global rows).1 ≡ rows)
        × ((unpublish_service down user slug drafts rows).1 ≡ rows))
      ⊎ MayChange user slug drafts
unfolding publish_service unpublish_service
requests-MayChange id_before down now user slug drafts jobs routes global rows =
    elim (authorized-MayChange down user slug drafts) [
      | inl (code, e) ↦ inl (rw (publish_service, e) refl, rw (unpublish_service, e) refl)
      | inr may ↦ inr may
    ]
