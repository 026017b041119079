-- ===== src/RoutingJobs/Reuse.antt =====
-- Which finished job answers a request.
use sparks_effect_api.Prelude.{
  some-eq-some, ℕ, ◌≤◌, List, [], ◌∷◌, Option, none, some, Str, Bool, true, ltb, ◌==◌, nat_Eq,
  str_Eq, str_eq_iff, nat_eq_iff, ◌≡◌, refl, ap, subst, sym, inl, inr, Bool-cases, Option-cases, In,
  arith,
}
use sparks_effect_api.JobRunner.{succeeded}
use sparks_effect_api.RoutingJobs.{
  RoutingJob, same_owner, latest_tileset, later, same_time, is_reusable, newer, select_latest,
  find_reusable_routing_job,
}

later-left : (t : ℕ) (b : Option ℕ) → (m : ℕ) × (later (some t) b ≡ some m) × (t ≤ m)
unfolding later
later-left t none = (t, refl, omega arith)
later-left t (some b) = elim (Bool-cases (ltb t b)) [
  | inl less ↦ rw less (b, refl, ground arith)
  | inr more ↦ rw more (t, refl, omega arith)
]

later-right : (a : Option ℕ) (t : ℕ) → (m : ℕ) × (later a (some t) ≡ some m) × (t ≤ m)
unfolding later
later-right none t = (t, refl, omega arith)
later-right (some a) t = elim (Bool-cases (ltb a t)) [
  | inl less ↦ rw less (t, refl, omega arith)
  | inr more ↦ rw more (a, refl, ground arith)
]

same_owner-eq : (a b : Option Str) → same_owner a b ≡ true → a ≡ b
unfolding same_owner
same_owner-eq none none h = refl
same_owner-eq none (some b) h = cc
same_owner-eq (some a) none h = cc
same_owner-eq (some a) (some b) h = ap some ((str_eq_iff a b).0 h)

same_time-some : (a b : Option ℕ) → same_time a b ≡ true → (t : ℕ) × (a ≡ some t) × (b ≡ some t)
unfolding same_time
same_time-some none b h = cc
same_time-some (some a) none h = cc
same_time-some (some a) (some b) h = (a, refl, ap some (sym ((nat_eq_iff a b).0 h)))

module _ {F : Type 0} where
  -- A job that may answer the request.
  pub record Answers (round : F → ℕ) (now : ℕ) (jobs : List (RoutingJob F)) (want j : RoutingJob F)
      : Type 0 where
    pub stored : In j jobs
    pub done : j.status ≡ succeeded
    pub same_graph : j.compile_job_id ≡ want.compile_job_id
    pub same_mode : j.mode ≡ want.mode
    pub same_budget : j.budget_mins ≡ want.budget_mins
    pub near : (round j.lat ≡ round want.lat) × (round j.lng ≡ round want.lng)
    pub owner : j.owner_id ≡ want.owner_id
    pub tileset : ℕ
    pub cut : j.tileset_at ≡ some tileset
    pub newest :
        (k : RoutingJob F) (t : ℕ)
        → In k jobs
        → k.status ≡ succeeded
        → k.tileset_at ≡ some t
        → t ≤ tileset

  select_latest-holds :
      (p : RoutingJob F → Bool) (jobs : List (RoutingJob F)) (j : RoutingJob F)
      → select_latest p jobs ≡ some j
      → In j jobs × (p j ≡ true)
  unfolding select_latest newer
  select_latest-holds p [] j h = ground arith
  select_latest-holds p (x ∷ xs) j h = elim (Bool-cases (p x)) [
    | inr miss ↦
        let (i, e) = select_latest-holds p xs j (rw (miss, select_latest) at h) in (inr i, e)
    | inl hit ↦ elim (Option-cases (select_latest p xs)) [
      | inl n ↦
          let same : x ≡ j = some-eq-some (rw n at (rw (hit, select_latest) at h)) in
          (inl (sym same), subst (λ z. p z ≡ true) same hit)
      | inr (k, n) ↦
          let (i, e) = select_latest-holds p xs k n in
          elim (Bool-cases (ltb x.updated_at k.updated_at)) [
            | inl old ↦
                let same : k ≡ j =
                  some-eq-some (rw old at (rw n at (rw (hit, select_latest) at h))) in
                (inr (subst (λ z. In z xs) same i), subst (λ z. p z ≡ true) same e)
            | inr new ↦
                let same : x ≡ j =
                  some-eq-some (rw new at (rw n at (rw (hit, select_latest) at h))) in
                (inl (sym same), subst (λ z. p z ≡ true) same hit)
          ]
    ]
  ]

  latest_tileset-le :
      (jobs : List (RoutingJob F)) (k : RoutingJob F) (t : ℕ)
      → In k jobs
      → k.status ≡ succeeded
      → k.tileset_at ≡ some t
      → (m : ℕ) × (latest_tileset jobs ≡ some m) × (t ≤ m)
  unfolding latest_tileset
  latest_tileset-le [] k t i s e = absurd i
  latest_tileset-le (x ∷ xs) k t (inl p) s e =
      let hit : (x.status == succeeded) ≡ true =
        (str_eq_iff x.status succeeded).1
          (subst (λ (z : RoutingJob F). z.status ≡ succeeded) p s) in
      let at : x.tileset_at ≡ some t = subst (λ (z : RoutingJob F). z.tileset_at ≡ some t) p e in
      rw (hit, at, latest_tileset) (later-left t (latest_tileset xs))
  latest_tileset-le (x ∷ xs) k t (inr i) s e =
      let (m, r, le) = latest_tileset-le xs k t i s e in
      elim (Bool-cases (x.status == succeeded)) [
        | inr miss ↦ rw (miss, latest_tileset) (m, r, le)
        | inl hit ↦
            let (n, q, up) = later-right x.tileset_at m in
            rw (hit, r, latest_tileset) (n, q, omega (arith, le, up))
      ]

  -- A job that answers a request is stored, has succeeded, is of the same owner, graph, mode, budget
  -- and rounded origin, and no job that succeeded was cut from a later tileset.
  pub find_reusable_routing_job-Answers :
      (round : F → ℕ) (now : ℕ) (want : RoutingJob F) (jobs : List (RoutingJob F))
      (j : RoutingJob F)
      → find_reusable_routing_job round now want jobs ≡ some j
      → Answers round now jobs want j
  unfolding find_reusable_routing_job is_reusable
  find_reusable_routing_job-Answers round now want jobs j h =
      let (i, e) =
        select_latest-holds (is_reusable round now (latest_tileset jobs) want) jobs j h in
      let (tileset, cut, top) = same_time-some j.tileset_at (latest_tileset jobs) (ground arith) in
      record {
        stored = i;
        done = (str_eq_iff j.status succeeded).0 (ground arith);
        same_graph = (str_eq_iff j.compile_job_id want.compile_job_id).0 (ground arith);
        same_mode = (str_eq_iff j.mode want.mode).0 (ground arith);
        same_budget = (nat_eq_iff j.budget_mins want.budget_mins).0 (ground arith);
        near = (
          (nat_eq_iff (round j.lat) (round want.lat)).0 (ground arith),
          (nat_eq_iff (round j.lng) (round want.lng)).0 (ground arith),
        );
        owner = same_owner-eq j.owner_id want.owner_id (ground arith);
        tileset = tileset;
        cut = cut;
        newest = λ k t l s q.
            let (m, r, le) = latest_tileset-le jobs k t l s q in
            let same : m ≡ tileset = cc in omega (arith, same, le);
      }
