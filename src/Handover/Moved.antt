-- ===== src/Handover/Moved.antt =====
-- What a recipient has after a service has moved to them.
use sparks_effect_api.Prelude.{
  ℕ, zero, suc, List, [], ◌∷◌, Option, none, some, Str, Bool, true, false, not, ◌==◌, str_Eq,
  str_eq_iff, str_eq_refl, ok, >>=-eq-ok, err-eq-ok, ok-eq-ok, or_fail, or_fail-eq-ok, ◌≡◌, ◌≢◌,
  refl, sym, subst, ap, ◌⊎◌, inl, inr, Bool-cases, All, arith, update_where, select, select-holds,
  select-update_where,
}
use sparks_effect_api.Handover.{
  no_row, no_free_slug, in_scenarios, ServiceRow, RouteRow, JobRow, Tables, Handover, is_live,
}
use sparks_effect_api.Handover.Move.{
  slug_taken, copy_slug, copy_attempts, copy_route_to, owned_by_other, settle_route, reown,
  refuse_members, scenario_slugs_containing, move_locked_user_service, is_job_of,
}
use sparks_effect_api.Handover.Decide.{
  lock_user_service, accept_service_handover, transfer_user_service, is_offer_of, recipient,
}
use sparks_effect_api.Handover.Success.{
  accept_service_handover-IsAccept, transfer_user_service-IsTransfer,
}

-- A copy of a route: its geometry, an owner, and a slug that no route had.
pub record IsCopy (copy_id owner : Str) (route : RouteRow) (routes routes' : List RouteRow)
    : Type 0 where
  pub slug : Str
  pub free : slug_taken routes slug ≡ false
  pub made :
      routes'
      ≡ record { id = copy_id; owner_id = some owner; slug = slug; geometry = route.geometry }
        ∷ routes

copy_attempts-IsCopy :
    (left attempt : ℕ) (route : RouteRow) (copy_id owner : Str) (routes routes' : List RouteRow)
    → copy_attempts left attempt route copy_id owner routes ≡ ok routes'
    → IsCopy copy_id owner route routes routes'
unfolding copy_attempts
copy_attempts-IsCopy zero attempt route copy_id owner routes routes' h =
    err-eq-ok (no_free_slug route.slug) routes' h
copy_attempts-IsCopy (suc left) attempt route copy_id owner routes routes' h =
    elim (Bool-cases (slug_taken routes (copy_slug route.slug attempt))) [
      | inl held ↦
          copy_attempts-IsCopy left (suc attempt) route copy_id owner routes routes'
            (rw (held, copy_attempts) at h)
      | inr free ↦ record {
        slug = copy_slug route.slug attempt;
        free = free;
        made = sym (ok-eq-ok (rw (free, copy_attempts) at h));
      }
    ]

copy_route_to-IsCopy :
    (copy_id : Str) (route : RouteRow) (owner : Str) (routes routes' : List RouteRow)
    → copy_route_to copy_id route owner routes ≡ ok routes'
    → IsCopy copy_id owner route routes routes'
unfolding copy_route_to
copy_route_to-IsCopy copy_id route owner routes routes' h =
    copy_attempts-IsCopy 99 2 route copy_id owner routes routes' h

-- The recipient of a service may use its route: it is curated, or theirs.
abbrev pub MayUse : RouteRow → Str → Type 0
MayUse r to = (r.owner_id ≡ none) ⊎ (r.owner_id ≡ some to)

owned_by_other-MayUse :
    (r : RouteRow) (to : Str) → owned_by_other r.owner_id to ≡ false → MayUse r to
unfolding owned_by_other
owned_by_other-MayUse r to h = go r.owner_id h
  where
    go : (o : Option Str) → owned_by_other o to ≡ false → (o ≡ none) ⊎ (o ≡ some to)
    go none e = inl refl
    go (some owner) e =
        inr (
          ap some ((str_eq_iff owner to).0 (let n : not (owner == to) ≡ false = e in ground arith)))

-- The service after the move, its route, and its jobs.
pub record IsMoved (service to : Str) (before after : Tables) : Type 0 where
  pub row : ServiceRow
  pub route : RouteRow
  pub locked : lock_user_service service after ≡ some row
  pub owner : row.owner_id ≡ to
  pub routed : select (λ (r : RouteRow). r.id == row.route_id) after.routes ≡ some route
  pub usable : MayUse route to
  pub jobs : All (λ (j : JobRow). is_job_of service j ≡ true → j.owner_id ≡ some to) after.jobs
  pub alone : scenario_slugs_containing service before.members ≡ []

jobs-reowned :
    (service to : Str) (js : List JobRow)
    → All
        (λ (j : JobRow). is_job_of service j ≡ true → j.owner_id ≡ some to)
        (update_where (is_job_of service) (λ j. record j { owner_id = some to }) js)
unfolding update_where
jobs-reowned service to [] = tt
jobs-reowned service to (j ∷ js) = elim (Bool-cases (is_job_of service j)) [
  | inl hit ↦ rw hit ((λ h. refl), jobs-reowned service to js)
  | inr miss ↦ rw miss ((λ h. cc), jobs-reowned service to js)
]

refuse_members-eq-ok : (slugs : List Str) → refuse_members slugs ≡ ok tt → slugs ≡ []
unfolding refuse_members
refuse_members-eq-ok [] h = refl
refuse_members-eq-ok (slug ∷ slugs) h = err-eq-ok (in_scenarios (slug ∷ slugs)) tt h

-- Where the route is settled, the service has a row that points to a route its recipient may use.
record IsSettled (service to : Str) (after : Tables) : Type 0 where
  row : ServiceRow
  route : RouteRow
  locked : lock_user_service service after ≡ some row
  routed : select (λ (r : RouteRow). r.id == row.route_id) after.routes ≡ some route
  usable : MayUse route to

settle_route-IsSettled :
    (copy_id service to : Str) (route : RouteRow) (row : ServiceRow) (t t' : Tables)
    → lock_user_service service t ≡ some row
    → select (λ (r : RouteRow). r.id == row.route_id) t.routes ≡ some route
    → settle_route copy_id service to route t ≡ ok t'
    → IsSettled service to t'
unfolding settle_route lock_user_service select
settle_route-IsSettled copy_id service to route row t t' l f h =
    elim (Bool-cases (owned_by_other route.owner_id to)) [
      | inr mine ↦
          let same : t ≡ t' = ok-eq-ok (rw (mine, settle_route) at h) in
          subst (IsSettled service to) same (record {
            row = row;
            route = route;
            locked = l;
            routed = f;
            usable = owned_by_other-MayUse route to mine;
          })
      | inl other ↦
          let (routes, c, h') =
            >>=-eq-ok (copy_route_to copy_id route to t.routes) _ (rw (other, settle_route) at h) in
          let copy = copy_route_to-IsCopy copy_id route to t.routes routes c in
          subst (IsSettled service to) (ok-eq-ok h') (record {
            row = record row { route_id = copy_id };
            route = copied copy.slug;
            locked =
                select-update_where (λ (s : ServiceRow). s.id == service)
                  (λ (s : ServiceRow). s.id == service) (λ s. record s { route_id = copy_id })
                  t.services row (λ y. refl) l
                  (select-holds (λ (s : ServiceRow). s.id == service) t.services row l);
            routed =
                subst
                  (λ (rs : List RouteRow).
                    select (λ (r : RouteRow). r.id == copy_id) rs ≡ some (copied copy.slug))
                  (sym copy.made) (rw (str_eq_refl copy_id, select) refl);
            usable = inr refl;
          })
    ]
  where
    copied : Str → RouteRow
    copied slug = record {
      id = copy_id;
      owner_id = some to;
      slug = slug;
      geometry = route.geometry;
    }

move_locked-IsMoved :
    (now : ℕ) (copy_id service to : Str) (row : ServiceRow) (t t' : Tables)
    → lock_user_service service t ≡ some row
    → move_locked_user_service now copy_id service row.route_id to t ≡ ok t'
    → IsMoved service to t t'
unfolding move_locked_user_service reown lock_user_service
move_locked-IsMoved now copy_id service to row t t' l h =
    let (_, alone, h1) =
      >>=-eq-ok (refuse_members (scenario_slugs_containing service t.members)) _ h in
    let (route, f, h2) =
      >>=-eq-ok (or_fail (select (λ (r : RouteRow). r.id == row.route_id) t.routes) no_row) _ h1 in
    let (mid, e, h3) = >>=-eq-ok (settle_route copy_id service to route t) _ h2 in
    let s =
      settle_route-IsSettled copy_id service to route row t mid l
        (or_fail-eq-ok (select (λ (r : RouteRow). r.id == row.route_id) t.routes) no_row f) e in
    subst (IsMoved service to t) (ok-eq-ok h3) (record {
      row = record s.row { owner_id = to; updated_at = now };
      route = s.route;
      locked =
          select-update_where (λ (x : ServiceRow). x.id == service)
            (λ (x : ServiceRow). x.id == service)
            (λ x. record x { owner_id = to; updated_at = now }) mid.services s.row (λ y. refl)
            s.locked
            (select-holds (λ (x : ServiceRow). x.id == service) mid.services s.row s.locked);
      owner = refl;
      routed = s.routed;
      usable = s.usable;
      jobs = jobs-reowned service to mid.jobs;
      alone = refuse_members-eq-ok (scenario_slugs_containing service t.members) alone;
    })

-- The offers are no part of it.
with_handovers :
    (service to : Str) (t moved : Tables) (hs : List Handover)
    → IsMoved service to t moved
    → IsMoved service to t (record moved { handovers = hs })
unfolding lock_user_service
with_handovers service to t moved hs m = record {
  row = m.row;
  route = m.route;
  locked = m.locked;
  owner = m.owner;
  routed = m.routed;
  usable = m.usable;
  jobs = m.jobs;
  alone = m.alone;
}

-- An offer that is accepted was live, was made to the one who accepts it by the service's owner,
-- and the service is in no scenario; afterwards the service is the recipient's, its row points to a
-- route that is curated or theirs, and its compile jobs are theirs.
pub accept_service_handover-IsMoved :
    (now : ℕ) (copy_id id to : Str) (t t' : Tables) (h : Handover)
    → accept_service_handover now copy_id id to t ≡ ok (h, t')
    → (offer : Handover) × (select (is_offer_of recipient id to) t.handovers ≡ some offer)
      × (is_live now offer ≡ true)
      × ((row : ServiceRow) × (lock_user_service offer.user_service_id t ≡ some row)
          × (row.owner_id ≡ offer.from_user_id))
      × IsMoved offer.user_service_id to t t'
accept_service_handover-IsMoved now copy_id id to t t' h r =
    let a = accept_service_handover-IsAccept now copy_id id to t t' h r in
    let m =
      move_locked-IsMoved now copy_id a.offer.user_service_id to a.service t a.moved a.locked
        a.moves in
    (
      a.offer,
      a.addressed,
      a.live,
      (a.service, a.locked, (str_eq_iff a.service.owner_id a.offer.from_user_id).0 a.owned),
      subst (IsMoved a.offer.user_service_id to t) a.closes
          (with_handovers a.offer.user_service_id to t a.moved _ m),
    )

-- A move that an admin forces succeeds only for a service in no scenario that the recipient does
-- not own; afterwards the service, a route they may use and its compile jobs are theirs.
pub transfer_user_service-IsMoved :
    (now : ℕ) (copy_id audit_id service to by : Str) (t t' : Tables) (h : Handover)
    → transfer_user_service now copy_id audit_id service to by t ≡ ok (h, t')
    → ((row : ServiceRow) × (lock_user_service service t ≡ some row) × (row.owner_id ≢ to))
      × IsMoved service to t t'
transfer_user_service-IsMoved now copy_id audit_id service to by t t' h r =
    let a = transfer_user_service-IsTransfer now copy_id audit_id service to by t t' h r in
    let m = move_locked-IsMoved now copy_id service to a.service t a.moved a.locked a.moves in
    (
      (
        a.service,
        a.locked,
        λ e.
            different (a.service.owner_id == to) a.not_owner
              ((str_eq_iff a.service.owner_id to).1 e),
      ),
      subst (IsMoved service to t) a.closes (with_handovers service to t a.moved _ m),
    )
  where
    different : (b : Bool) → b ≡ false → b ≡ true → ⊥
    different b f g = cc
