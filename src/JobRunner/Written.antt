-- ===== src/JobRunner/Written.antt =====
-- internal/compile/compile.go and the job queries of internal/persistence/postgres/postgres.go: one
-- write of a job's row.
use sparks_effect_api.Prelude.{
  ℕ, codes, map, ◌≢◌, List, [], ◌∷◌, some, Str, Bool, true, false, ◌==◌, str_Eq, ok, err, err-eq-ok,
  ok-eq-ok, ◌≡◌, refl, subst, sym, ap, ◌∙◌, str_eq_iff, ◌⊎◌, inl, inr, Bool-cases, arith,
}
use sparks_effect_api.Types.{CompileJob, TransitGraph, ServiceGraph}
use sparks_effect_api.JobRunner.{
  StoreError, unavailable, job_not_found, has_job, update_job, find_job, write_job, with_status,
  with_result, compiled_service_ids,
}

module _ {F : Type 0} where
  -- The job's row has changed by `f`, and no other row has changed.
  pub record IsWritten (f : CompileJob F → CompileJob F) (id : Str)
      (jobs jobs' : List (CompileJob F)) : Type 0 where
    pub before : CompileJob F
    pub found : find_job id jobs ≡ some before
    pub wrote : find_job id jobs' ≡ some (f before)
    pub others : (k : Str) → (k == id) ≡ false → find_job k jobs' ≡ find_job k jobs

  find_job-update_job :
      (f : CompileJob F → CompileJob F) (id : Str) (jobs : List (CompileJob F))
      → ((j : CompileJob F) → (f j).id ≡ j.id)
      → (k : Str) → (k == id) ≡ false
      → find_job k (update_job f id jobs) ≡ find_job k jobs
  unfolding update_job find_job
  find_job-update_job f id [] keep k n = refl
  find_job-update_job f id (j ∷ js) keep k n = elim (Bool-cases (j.id == id)) [
    | inl hit ↦
        let other : (j.id == k) ≡ false = other_key j.id hit in
        rw (hit, keep j, other) (find_job-update_job f id js keep k n)
    | inr miss ↦ rw (miss, find_job-update_job f id js keep k n) refl
  ]
    where
      other_key : (a : Str) → (a == id) ≡ true → (a == k) ≡ false
      other_key a hit = ground (arith, str_eq_iff a id, str_eq_iff a k, str_eq_iff k id)

  update_job-IsWritten :
      (f : CompileJob F → CompileJob F) (id : Str) (jobs : List (CompileJob F))
      → ((j : CompileJob F) → (f j).id ≡ j.id)
      → has_job id jobs ≡ true
      → IsWritten f id jobs (update_job f id jobs)
  unfolding has_job update_job find_job
  update_job-IsWritten f id [] keep h = ground arith
  update_job-IsWritten f id (j ∷ js) keep h = elim (Bool-cases (j.id == id)) [
    | inl hit ↦ record {
      before = j;
      found = rw hit refl;
      wrote = rw (hit, keep j, hit) refl;
      others = find_job-update_job f id (j ∷ js) keep;
    }
    | inr miss ↦
        let w = update_job-IsWritten f id js keep (ground arith) in
        record {
          before = w.before;
          found = rw miss w.found;
          wrote = rw miss (rw miss w.wrote);
          others = find_job-update_job f id (j ∷ js) keep;
        }
  ]

  pub write_job-IsWritten :
      (down : Bool) (f : CompileJob F → CompileJob F) (id : Str) (jobs jobs' : List (CompileJob F))
      → ((j : CompileJob F) → (f j).id ≡ j.id)
      → write_job down f id jobs ≡ ok jobs'
      → IsWritten f id jobs jobs'
  unfolding write_job
  write_job-IsWritten true f id jobs jobs' keep h = err-eq-ok unavailable jobs' h
  write_job-IsWritten false f id jobs jobs' keep h = elim (Bool-cases (has_job id jobs)) [
    | inl here ↦
        subst (IsWritten f id jobs) (ok-eq-ok (rw (here, write_job) at h))
          (update_job-IsWritten f id jobs keep here)
    | inr gone ↦ err-eq-ok (job_not_found id) jobs' (rw (gone, write_job) at h)
  ]

  -- Two writes of one row, of which the second sets what the first has set.
  pub twice :
      (f g h : CompileJob F → CompileJob F) (id : Str) (a b c : List (CompileJob F))
      → ((j : CompileJob F) → g (f j) ≡ h j)
      → IsWritten f id a b
      → IsWritten g id b c
      → IsWritten h id a c
  twice f g h id a b c e v w = record {
    before = v.before;
    found = v.found;
    wrote =
        let same : f v.before ≡ w.before = cc in w.wrote ∙ ap some (ap g (sym same) ∙ e v.before);
    others = λ k n. w.others k n ∙ v.others k n;
  }

  -- A write leaves all else of a job.
  pub record IsSameJob (before after : CompileJob F) : Type 0 where
    pub id : after.id ≡ before.id
    pub kind : after.kind ≡ before.kind
    pub scenario_id : after.scenario_id ≡ before.scenario_id
    pub user_scenario_id : after.user_scenario_id ≡ before.user_scenario_id
    pub user_service_id : after.user_service_id ≡ before.user_service_id
    pub owner_id : after.owner_id ≡ before.owner_id
    pub created_at : after.created_at ≡ before.created_at

  -- The job has succeeded with the graph and the ids of its services.
  pub record HoldsGraph (now : ℕ) (graph : TransitGraph F) (before after : CompileJob F)
      : Type 0 where
    pub same : IsSameJob before after
    pub status : after.status ≡ codes "succeeded"
    pub error : after.error ≡ []
    pub result : after.result ≡ some graph
    pub ids :
        after.compiled_service_ids ≡ map (λ (sg : ServiceGraph F). sg.service_id) graph.services
    pub updated_at : after.updated_at ≡ now

  -- The job has a status and an error, and the result that it had.
  pub record HoldsStatus (now : ℕ) (status error : Str) (before after : CompileJob F) : Type 0 where
    pub same : IsSameJob before after
    pub is_status : after.status ≡ status
    pub is_error : after.error ≡ error
    pub result : after.result ≡ before.result
    pub ids : after.compiled_service_ids ≡ before.compiled_service_ids
    pub updated_at : after.updated_at ≡ now

  -- The job's row has changed as told, and no other row has changed.
  pub record IsLeft (P : CompileJob F → CompileJob F → Type 0) (id : Str)
      (jobs jobs' : List (CompileJob F)) : Type 0 where
    pub before : CompileJob F
    pub after : CompileJob F
    pub found : find_job id jobs ≡ some before
    pub left : find_job id jobs' ≡ some after
    pub holds : P before after
    pub others : (k : Str) → k ≢ id → find_job k jobs' ≡ find_job k jobs

  pub IsWritten-IsLeft :
      (f : CompileJob F → CompileJob F) (P : CompileJob F → CompileJob F → Type 0) (id : Str)
      (jobs jobs' : List (CompileJob F))
      → ((j : CompileJob F) → P j (f j))
      → IsWritten f id jobs jobs'
      → IsLeft P id jobs jobs'
  IsWritten-IsLeft f P id jobs jobs' holds w = record {
    before = w.before;
    after = f w.before;
    found = w.found;
    left = w.wrote;
    holds = holds w.before;
    others = λ k apart. w.others k (elim (Bool-cases (k == id)) [
      | inl same ↦ absurd (apart ((str_eq_iff k id).0 same))
      | inr off ↦ off
    ]);
  }

  kept :
      (j k : CompileJob F)
      → k.id ≡ j.id
      → k.kind ≡ j.kind
      → k.scenario_id ≡ j.scenario_id
      → k.user_scenario_id ≡ j.user_scenario_id
      → k.user_service_id ≡ j.user_service_id
      → k.owner_id ≡ j.owner_id
      → k.created_at ≡ j.created_at
      → IsSameJob j k
  kept j k a b c d e f g = record {
    id = a;
    kind = b;
    scenario_id = c;
    user_scenario_id = d;
    user_service_id = e;
    owner_id = f;
    created_at = g;
  }

  pub with_result-HoldsGraph :
      (now : ℕ) (graph : TransitGraph F) (j : CompileJob F)
      → HoldsGraph now graph j (with_result now graph j)
  unfolding compiled_service_ids
  with_result-HoldsGraph now graph j = record {
    same = kept j (with_result now graph j) refl refl refl refl refl refl refl;
    status = refl;
    error = refl;
    result = refl;
    ids = refl;
    updated_at = refl;
  }

  pub with_status-HoldsStatus :
      (now : ℕ) (status error : Str) (j : CompileJob F)
      → HoldsStatus now status error j (with_status now status error j)
  with_status-HoldsStatus now status error j = record {
    same = kept j (with_status now status error j) refl refl refl refl refl refl refl;
    is_status = refl;
    is_error = refl;
    result = refl;
    ids = refl;
    updated_at = refl;
  }

  find_job-has_job :
      (id : Str) (js : List (CompileJob F)) (j : CompileJob F)
      → find_job id js ≡ some j
      → has_job id js ≡ true
  unfolding find_job has_job
  find_job-has_job id [] j h = cc
  find_job-has_job id (x ∷ js) j h = elim (Bool-cases (x.id == id)) [
    | inl hit ↦ rw hit refl
    | inr miss ↦ rw miss (find_job-has_job id js j (rw miss at h))
  ]

  pub write_job-failed :
      (down : Bool) (f : CompileJob F → CompileJob F) (id : Str) (jobs : List (CompileJob F))
      (e : StoreError)
      → write_job down f id jobs ≡ err e
      → (has_job id jobs ≡ false) ⊎ (down ≡ true)
  unfolding write_job
  write_job-failed true f id jobs e h = inr refl
  write_job-failed false f id jobs e h = elim (Bool-cases (has_job id jobs)) [
    | inl here ↦ err-eq-ok e (update_job f id jobs) (sym (rw (here, write_job) at h))
    | inr gone ↦ inl gone
  ]

  -- A row that is there is not missed by a later write.
  pub only_down :
      (f g : CompileJob F → CompileJob F) (id : Str) (jobs marked : List (CompileJob F))
      (down : Bool) (e : StoreError)
      → IsWritten f id jobs marked
      → write_job down g id marked ≡ err e
      → down ≡ true
  only_down f g id jobs marked down e w h = elim (write_job-failed down g id marked e h) [
    | inr b ↦ b
    | inl gone ↦ let here = find_job-has_job id marked (f w.before) w.wrote in cc
  ]
