-- ===== src/Examples/Published.antt =====
-- The index of three services, in the order of their bytes, read with room for two on a page; and
-- a publish of a service that was compiled twice.
use sparks_effect_api.BoardingWait.{kind_or_none, resolve_boarding_wait}
use sparks_effect_api.Staleness.{
  boarding_wait_stale, edge_routes_stale, graph_stale, membership_stale,
}
use sparks_effect_api.Prelude.{
  ℕ, ◌+◌, List, [], ◌∷◌, none, some, Str, codes, Bool, true, false, ◌&&◌, ◌||◌, ltb, nat_eq, ◌≡◌,
  ◌≢◌, ◌⊎◌, refl, arith, ap, map, ◌∙◌, delete_where, Bool-cases, inl, inr, subst, sym, In, pos, ok,
  insert, select, str_eq, lookup, contains,
}
use sparks_effect_api.Publications.{
  ServicePublication, Listed, order_rows, list_published, walk, summary, place, collect, is_before,
  key_of, after_key,
}
use sparks_effect_api.Types.{CompileJob, TransitGraph, BoardingWaitPolicy}
use sparks_effect_api.JobRunner.{compile_user_service, succeeded}
use sparks_effect_api.Publications.Snapshots.{
  Draft, publish_user_service, is_succeeded_of, is_newer,
}
use sparks_effect_api.Publications.Reads.{IsPublished, publish_user_service-IsPublished}
use sparks_effect_api.Access.{User}
use sparks_effect_api.Publications.Requests.{
  Down, MayChange, publish_service, unpublish_service, requests-MayChange,
}
use sparks_effect_api.Publications.Ordered.{IsOrder, AreDistinct}
use sparks_effect_api.Publications.Index.{IsIndex, items_of}
use sparks_effect_api.Publications.Walked.{walk-all}

abbrev byte_order : List ℕ → List ℕ → Bool
byte_order xs [] = false
byte_order [] (y ∷ ys) = true
byte_order (x ∷ xs) (y ∷ ys) = ltb x y || (nat_eq x y && byte_order xs ys)

irreflexive : (s : Str) → byte_order s s ≡ false
irreflexive [] = refl
irreflexive (x ∷ s) = let h = irreflexive s in ground arith

transitive : (s t u : Str) → byte_order s t ≡ true → byte_order t u ≡ true → byte_order s u ≡ true
transitive s [] u p q = absurd (cc)
transitive s (y ∷ t) [] p q = absurd (cc)
transitive [] (y ∷ t) (z ∷ u) p q = refl
transitive (x ∷ s) (y ∷ t) (z ∷ u) p q = let h = transitive s t u in ground arith

total : (s t : Str) → s ≢ t → byte_order s t ≡ false → byte_order t s ≡ true
total [] [] apart p = absurd (apart refl)
total [] (y ∷ t) apart p = absurd (cc)
total (x ∷ s) [] apart p = refl
total (x ∷ s) (y ∷ t) apart p = elim (Bool-cases (nat_eq x y)) [
  | inl same ↦
      let heads : x ≡ y = ground arith in
      let h = total s t (λ e. apart (ap (λ r. x ∷ r) e ∙ ap (λ r. r ∷ t) heads)) (ground arith) in
      ground arith
  | inr other ↦ ground arith
]

order : IsOrder byte_order
order = record { irreflexive = irreflexive; transitive = transitive; total = total }

abbrev row : ℕ → Str → Listed
row at slug = record {
  publication = record {
    user_service_id = slug;
    compile_job_id = [];
    name = slug;
    subtext = [];
    description = [];
    routes = [];
    published_at = at + 5;
    first_published_at = at;
  };
  slug = slug;
  author_name = [];
}

abbrev rows : List Listed
rows = row 3 (codes "b") ∷ row 4 (codes "c") ∷ row 3 (codes "a") ∷ []

apart : (s t : Str) → (byte_order s t || byte_order t s) ≡ true → s ≢ t
apart s t h e =
    let both : (byte_order t t || byte_order t t) ≡ true =
      subst (λ (r : Str). (byte_order r t || byte_order t r) ≡ true) e h in
    let off = irreflexive t in let bad : true ≡ false = ground arith in absurd (cc)

distinct : AreDistinct rows
distinct = (
  (apart (codes "b") (codes "c") refl, (apart (codes "b") (codes "a") refl, tt)),
  ((apart (codes "c") (codes "a") refl, tt), (tt, tt)),
)

walk-all_example :
    (index : List Listed) × IsIndex byte_order rows index
    × (walk byte_order 4 none 2 rows ≡ some (items_of index))
    × (list_published byte_order none 0 rows ≡ record { items = items_of index; next = none })
walk-all_example = walk-all byte_order order rows distinct 1

in_order :
    walk byte_order 2 none 2 rows
    ≡ some (map summary (row 4 (codes "c") ∷ row 3 (codes "a") ∷ row 3 (codes "b") ∷ []))
unfolding walk delete_where list_published order_rows place collect is_before key_of after_key
    summary
in_order = refl

abbrev draft : Draft
draft = record {
  id = codes "s";
  slug = codes "line";
  owner_id = codes "u";
  name = codes "Line";
  subtext = [];
  description = [];
  boarding_wait = none;
  updated_at = 3;
}

abbrev graph : TransitGraph ℕ
graph = record {
  services =
      record {
        service_id = codes "s";
        edges =
            record {
              from_slug = codes "a";
              to_slug = codes "b";
              seconds = pos 60;
              dwell_s = pos 0;
              route_id = codes "r";
              from_chainage_m = 0;
              to_chainage_m = 900;
            }
            ∷ [];
        wait_secs = pos 0;
        wait_policy = codes "none";
      }
      ∷ [];
  nodes = [];
}

abbrev compiled : ℕ → Str → CompileJob ℕ
compiled at id = record {
  id = id;
  kind = compile_user_service;
  status = succeeded;
  scenario_id = none;
  user_scenario_id = none;
  user_service_id = some (codes "s");
  owner_id = none;
  error = [];
  result = some graph;
  compiled_service_ids = codes "s" ∷ [];
  created_at = at;
  updated_at = at + 1;
}

abbrev jobs : List (CompileJob ℕ)
jobs = compiled 4 (codes "j") ∷ compiled 6 (codes "k") ∷ []

abbrev stored : ServicePublication
stored = record {
  user_service_id = codes "s";
  compile_job_id = codes "k";
  name = codes "Line";
  subtext = [];
  description = [];
  routes = record { id = codes "r"; body = [] } ∷ [];
  published_at = 9;
  first_published_at = 9;
}

abbrev fixed : BoardingWaitPolicy
fixed = record { kind = []; fixed_secs = pos 0 }

publishes :
    publish_user_service byte_order 9
      (codes "s")
      (draft ∷ [])
      jobs
      (record { id = codes "r"; body = [] } ∷ [])
      fixed
      []
    ≡ ok (stored, stored ∷ [])
unfolding publish_user_service select str_eq is_succeeded_of is_newer graph_stale membership_stale
    insert contains lookup boarding_wait_stale kind_or_none resolve_boarding_wait edge_routes_stale
    delete_where
publishes = refl

slugs : (d e : Draft) → In d (draft ∷ []) → In e (draft ∷ []) → d.slug ≡ e.slug → d ≡ e
slugs d e (inl p) (inl q) h = p ∙ sym q
slugs d e (inl p) (inr n) h = elim n [ ]
slugs d e (inr m) n h = elim m [ ]

ids : (j k : CompileJob ℕ) → In j jobs → In k jobs → j.id ≡ k.id → j ≡ k
ids j k (inl p) (inl q) h = p ∙ sym q
ids j k (inl p) (inr (inl q)) h = absurd (
    apart (codes "j") (codes "k") refl
      (sym (ap (λ (z : CompileJob ℕ). z.id) p) ∙ h ∙ ap (λ (z : CompileJob ℕ). z.id) q))
ids j k (inr (inl p)) (inl q) h = absurd (
    apart (codes "k") (codes "j") refl
      (sym (ap (λ (z : CompileJob ℕ). z.id) p) ∙ h ∙ ap (λ (z : CompileJob ℕ). z.id) q))
ids j k (inr (inl p)) (inr (inl q)) h = p ∙ sym q
ids j k (inl p) (inr (inr n)) h = elim n [ ]
ids j k (inr (inl p)) (inr (inr n)) h = elim n [ ]
ids j k (inr (inr m)) n h = elim m [ ]

abbrev up : Down
up = record { lookup_down = false; write_down = false }

abbrev stranger : User
stranger = record { id = codes "v"; is_admin = false }

publish_user_service-IsPublished_example :
    IsPublished
      (draft ∷ [])
      jobs
      slugs
      ids
      byte_order
      9
      (codes "s")
      (record { id = codes "r"; body = [] } ∷ [])
      fixed
      []
      stored
      (stored ∷ [])
publish_user_service-IsPublished_example =
    publish_user_service-IsPublished (draft ∷ []) jobs slugs ids byte_order 9 (codes "s")
      (record { id = codes "r"; body = [] } ∷ []) fixed [] stored (stored ∷ []) publishes

requests-MayChange_example :
    (((publish_service byte_order up 9
          (some stranger)
          (codes "line")
          (draft ∷ [])
          jobs
          []
          fixed
          (stored ∷ [])).1
        ≡ stored ∷ [])
      × ((unpublish_service up (some stranger) (codes "line") (draft ∷ []) (stored ∷ [])).1
          ≡ stored ∷ []))
    ⊎ MayChange (some stranger) (codes "line") (draft ∷ [])
requests-MayChange_example =
    requests-MayChange byte_order up 9 (some stranger) (codes "line") (draft ∷ []) jobs [] fixed
      (stored ∷ [])
