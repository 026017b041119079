-- ===== src/Publications/Reads.antt =====
-- internal/handler/publication.go and internal/persistence/postgres/publication.go: a publish, and
-- what the public reads answer after it and after an unpublish.
use sparks_effect_api.Prelude.{
  ℕ, List, none, some, Str, Bool, true, false, ◌&&◌, ◌==◌, str_Eq, str_eq_iff, ok, err, >>=-eq-ok,
  or_fail, or_fail-eq-ok, ok-eq-ok, select, delete_where, has_row, ◌≡◌, refl, subst, ap, ◌∙◌, inl,
  inr, In, Option-cases, arith, delete_where-In, select_unique, select-In, select-holds,
  select-none, has_row-In,
}
use sparks_effect_api.Types.{CompileJob, TransitGraph, BoardingWaitPolicy}
use sparks_effect_api.JobRunner.{succeeded, compile_user_service}
use sparks_effect_api.Publications.{ServicePublication, Route}
use sparks_effect_api.Publications.Newest.{IsNewest, latest-IsNewest}
use sparks_effect_api.Publications.Published.{
  IsStored, IsSnapshot, upsert_publication-IsStored, publication_from_locked_draft-IsSnapshot,
}
use sparks_effect_api.Publications.Snapshots.{
  Draft, PublishError, ReadError, is_of, upsert_publication, get_service_publication_by_slug,
  unpublish_user_service, is_succeeded_of, latest_succeeded_compile_job,
  publication_from_locked_draft, publish_user_service, get_succeeded_compile_job,
  load_published_graph,
}

module _ {F : Type 0} (drafts : List Draft) (jobs : List (CompileJob F))
    (slugs : (d e : Draft) → In d drafts → In e drafts → d.slug ≡ e.slug → d ≡ e)
    (ids : (j k : CompileJob F) → In j jobs → In k jobs → j.id ≡ k.id → j ≡ k) where
  draft_by_slug :
      (svc : Draft) → In svc drafts → select (λ (d : Draft). d.slug == svc.slug) drafts ≡ some svc
  draft_by_slug svc m =
      select_unique (λ (d : Draft). d.slug == svc.slug) drafts svc m
        ((str_eq_iff svc.slug svc.slug).1 refl)
        (λ d n h. slugs d svc n m ((str_eq_iff d.slug svc.slug).0 h))

  is_succeeded_of-pinned :
      (service : Str) (job : CompileJob F)
      → is_succeeded_of service job ≡ true
      → (job.id == job.id && job.status == succeeded && job.kind == compile_user_service) ≡ true
  unfolding is_succeeded_of
  is_succeeded_of-pinned service job h = elim (Option-cases job.user_service_id) [
    | inl e ↦ let z : false ≡ true = rw e at h in absurd (cc)
    | inr (id, e) ↦
        let same = (str_eq_iff job.id job.id).1 refl in
        let rest : (id == service && job.kind == compile_user_service && job.status == succeeded)
            ≡ true =
          rw e at h in
        ground arith
  ]

  pinned_job :
      (service : Str) (job : CompileJob F)
      → In job jobs
      → is_succeeded_of service job ≡ true
      → get_succeeded_compile_job job.id jobs ≡ some job
  unfolding get_succeeded_compile_job
  pinned_job service job m h =
      select_unique
        (λ (j : CompileJob F).
          j.id == job.id && j.status == succeeded && j.kind == compile_user_service)
        jobs job m (is_succeeded_of-pinned service job h)
        (λ j n e. ids j job n m ((str_eq_iff j.id job.id).0 (ground arith)))

  read_stored :
      (svc : Draft) (job : CompileJob F) (graph : TransitGraph F) (stored : ServicePublication)
      (rows : List ServicePublication)
      → In svc drafts
      → select (is_of svc.id) rows ≡ some stored
      → get_succeeded_compile_job stored.compile_job_id jobs ≡ some job
      → job.result ≡ some graph
      → load_published_graph svc.slug drafts jobs rows ≡ ok (stored, job, graph)
  unfolding load_published_graph get_service_publication_by_slug
  read_stored svc job graph stored rows m found pinned result =
      rw
        (
          load_published_graph,
          get_service_publication_by_slug,
          draft_by_slug svc m,
          found,
          pinned,
          result,
        )
        refl

  read_gone :
      (svc : Draft) (rows : List ServicePublication)
      → In svc drafts
      → load_published_graph svc.slug drafts jobs (unpublish_user_service svc.id drafts rows)
        ≡ err ReadError.service_not_found
  unfolding load_published_graph get_service_publication_by_slug unpublish_user_service
  read_gone svc rows m =
      let there : has_row (λ (d : Draft). d.id == svc.id) drafts ≡ true =
        has_row-In (λ (d : Draft). d.id == svc.id) drafts svc m
          ((str_eq_iff svc.id svc.id).1 refl) in
      let none_left : select (is_of svc.id) (delete_where (is_of svc.id) rows) ≡ none =
        select-none (is_of svc.id) (delete_where (is_of svc.id) rows)
          (λ p n. (delete_where-In (is_of svc.id) rows p n).1) in
      let gone : get_service_publication_by_slug svc.slug drafts (delete_where (is_of svc.id) rows)
          ≡ none =
        rw (get_service_publication_by_slug, draft_by_slug svc m, none_left) refl in
      let deleted : unpublish_user_service svc.id drafts rows ≡ delete_where (is_of svc.id) rows =
        rw (unpublish_user_service, there) refl in
      rw (deleted, load_published_graph, gone) refl

  module _ (id_before : Str → Str → Bool) (now : ℕ) (service : Str) (routes : List Route)
      (global : BoardingWaitPolicy) (rows : List ServicePublication) where
    -- The publish took the newest compile, and the reads by slug show it until an unpublish.
    pub record IsPublished (stored : ServicePublication) (rows' : List ServicePublication)
        : Type 0 where
      pub svc : Draft
      pub job : CompileJob F
      pub graph : TransitGraph F
      pub taken : ServicePublication
      pub draft : select (λ (d : Draft). d.id == service) drafts ≡ some svc
      pub newest : IsNewest svc.id jobs job
      pub snapshot : IsSnapshot svc job graph routes global taken
      pub written : IsStored now taken rows stored rows'
      pub shown : load_published_graph svc.slug drafts jobs rows' ≡ ok (stored, job, graph)
      pub gone :
          load_published_graph svc.slug drafts jobs (unpublish_user_service service drafts rows')
          ≡ err ReadError.service_not_found

    -- A publish that succeeds has pinned the newest succeeded compile of the draft, which is not
    -- stale for the draft as it stands, with the draft's texts and a stored route for every edge of
    -- its graph; a republish keeps the time of the first publish, and the publications of other
    -- services stay. The read by slug then answers that publication with that graph, and nothing
    -- once the service is unpublished. Slugs and the ids of jobs are unique.
    pub publish_user_service-IsPublished :
        (stored : ServicePublication) (rows' : List ServicePublication)
        → publish_user_service id_before now service drafts jobs routes global rows
          ≡ ok (stored, rows')
        → IsPublished stored rows'
    unfolding publish_user_service
    publish_user_service-IsPublished stored rows' h =
        let (svc, a, h1) =
          >>=-eq-ok
            (or_fail (select (λ (d : Draft). d.id == service) drafts) PublishError.no_service) _
            h in
        let draft =
          or_fail-eq-ok (select (λ (d : Draft). d.id == service) drafts) PublishError.no_service
            a in
        let m = select-In (λ (d : Draft). d.id == service) drafts svc draft in
        let same : svc.id ≡ service =
          (str_eq_iff svc.id service).0
            (select-holds (λ (d : Draft). d.id == service) drafts svc draft) in
        let (p, b, h2) =
          >>=-eq-ok
            (publication_from_locked_draft svc (latest_succeeded_compile_job id_before svc.id jobs)
              routes global)
            _ h1 in
        let (job, graph, c, snapshot) =
          publication_from_locked_draft-IsSnapshot svc
            (latest_succeeded_compile_job id_before svc.id jobs) routes global p b in
        let newest = latest-IsNewest id_before svc.id jobs job c in
        let (among, is_one, _) = newest in
        let e : upsert_publication now p rows ≡ (stored, rows') = ok-eq-ok h2 in
        let written : IsStored now p rows stored rows' =
          subst (λ (x : ServicePublication × List ServicePublication). IsStored now p rows x.0 x.1)
            e (upsert_publication-IsStored now p rows) in
        let found : select (is_of svc.id) rows' ≡ some stored =
          subst (λ s. select (is_of s) rows' ≡ some stored) snapshot.of_service written.found in
        let pin : stored.compile_job_id ≡ job.id =
          ap (λ (x : ServicePublication). x.compile_job_id) written.copy ∙ snapshot.pins in
        record {
          svc = svc;
          job = job;
          graph = graph;
          taken = p;
          draft = draft;
          newest = newest;
          snapshot = snapshot;
          written = written;
          shown =
              read_stored svc job graph stored rows' m found
                (ap (λ i. get_succeeded_compile_job i jobs) pin
                  ∙ pinned_job svc.id job among is_one)
                snapshot.result;
          gone =
              subst
                (λ s.
                  load_published_graph svc.slug drafts jobs (unpublish_user_service s drafts rows')
                  ≡ err ReadError.service_not_found)
                same (read_gone svc rows' m);
        }
