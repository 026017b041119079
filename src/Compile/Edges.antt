-- ===== src/Compile/Edges.antt =====
-- The edges that the seeded compiler emits, hop by hop.
use sparks_effect_api.Prelude.{
  List, [], ◌∷◌, ◌++◌, Str, ℤ, ◌≡◌, refl, subst, ◌⊎◌, inl, inr, ◌+ⁱ◌, Result, ok, err, Result-cases,
  str_Eq, arith, Option-cases,
}
use sparks_effect_api.Types.{VehicleType, ServiceStop, Edge}
use sparks_effect_api.Segments.{
  Adj, PathResult, path_ok, no_path, path_out_of_fuel, segment_path_seconds, path_run_seconds,
  reverse_path,
}
use sparks_effect_api.Segments.Sound.{Walk}
use sparks_effect_api.Segments.Complete.{Decides, segment_path_seconds-Decides}
use sparks_effect_api.Segments.Built.{IsNetwork, IsNetwork-Walk}
use sparks_effect_api.Compile.{
  CompileError, no_segment_path, Tables, hop_edges, answer_hop, search_rounds, hops,
}

module _ {F : Type 0} where
  -- The forward and the reverse edge of one hop from `from` to `to`.
  pub record IsHop (adj : Adj) (from to : Str) (path : List Str) (fwd rev : Edge F) : Type 0 where
    pub out : Walk adj from to path
    pub home : Walk adj to from (reverse_path path)
    pub starts : (fwd.from_slug ≡ from) × (rev.from_slug ≡ to)
    pub ends : (fwd.to_slug ≡ to) × (rev.to_slug ≡ from)
    pub run_out : fwd.seconds ≡ path_run_seconds adj path +ⁱ fwd.dwell_s
    pub run_home : rev.seconds ≡ path_run_seconds adj (reverse_path path) +ⁱ rev.dwell_s
    pub mirrored :
        (rev.route_id ≡ fwd.route_id)
        × (rev.from_chainage_m ≡ fwd.to_chainage_m)
        × (rev.to_chainage_m ≡ fwd.from_chainage_m)

  -- The edges of a run over the slugs: two for each consecutive pair.
  abbrev pub AreHops : Adj → List Str → List (Edge F) → Type 0
  AreHops adj [] [] = Unit
  AreHops adj (a ∷ []) [] = Unit
  AreHops adj (a ∷ b ∷ slugs) (fwd ∷ rev ∷ es) =
      ((path : List Str) × IsHop adj a b path fwd rev) × AreHops adj (b ∷ slugs) es
  AreHops adj _ _ = ⊥

  abbrev IsPair : Adj → Str → Str → List Str → List (Edge F) → Type 0
  IsPair adj from to path (fwd ∷ rev ∷ []) = IsHop adj from to path fwd rev
  IsPair adj from to path _ = ⊥

  hop_edges-IsPair :
      (t : Tables F) (m : List (Str × ServiceStop)) (vt : VehicleType) (from to : Str) (run : ℤ)
      (path : List Str)
      → IsNetwork t.network
      → Walk t.network.adj from to path
      → run ≡ path_run_seconds t.network.adj path
      → IsPair t.network.adj from to path (hop_edges t m vt from to run path)
  unfolding hop_edges
  hop_edges-IsPair t m vt from to run path i w e = elim (Option-cases (t.place path)) [
    | inl n ↦
        rw (n, hop_edges)
          (record {
            out = w;
            home = back;
            starts = (refl, refl);
            ends = (refl, refl);
            run_out = rw e refl;
            run_home = refl;
            mirrored = (refl, refl, refl);
          })
    | inr ((route, a, b), n) ↦
        rw (n, hop_edges)
          (record {
            out = w;
            home = back;
            starts = (refl, refl);
            ends = (refl, refl);
            run_out = rw e refl;
            run_home = refl;
            mirrored = (refl, refl, refl);
          })
  ]
    where
      back : Walk t.network.adj to from (reverse_path path)
      back = IsNetwork-Walk t.network from to path i w

  -- One hop is answered with its pair of edges, or there is no path; the rounds never run out.
  answer_hop-cases :
      (t : Tables F) (m : List (Str × ServiceStop)) (vt : VehicleType) (svc from to : Str)
      → IsNetwork t.network
      → ((es : List (Edge F)) × (path : List Str) × (answer_hop t m vt svc from to
              (segment_path_seconds (search_rounds t.network) t.network.adj from to)
            ≡ ok es)
          × IsPair t.network.adj from to path es)
        ⊎ (answer_hop t m vt svc from to
              (segment_path_seconds (search_rounds t.network) t.network.adj from to)
            ≡ err (no_segment_path svc from to))
  unfolding answer_hop
  answer_hop-cases t m vt svc from to i =
      go (segment_path_seconds (search_rounds t.network) t.network.adj from to) (
        segment_path_seconds-Decides t.network.on_path (search_rounds t.network) t.network.adj from
          to i.covered (omega arith))
    where
      go :
          (r : PathResult)
          → Decides t.network.adj from to r
          → ((es : List (Edge F)) × (path : List Str) × (answer_hop t m vt svc from to r ≡ ok es)
              × IsPair t.network.adj from to path es)
            ⊎ (answer_hop t m vt svc from to r ≡ err (no_segment_path svc from to))
      go (path_ok total path) d = inl (
        hop_edges t m vt from to total path,
        path,
        refl,
        hop_edges-IsPair t m vt from to total path i d.0 d.1,
      )
      go (no_path a b) d = inr (rw (d.0, d.1) refl)
      go path_out_of_fuel d = absurd d

  abbrev pub HopsResult : Adj → List Str → Result CompileError (List (Edge F)) → Type 0
  HopsResult adj slugs (ok es) = AreHops adj slugs es
  HopsResult adj slugs (err e) = (svc a b : Str) × (e ≡ no_segment_path svc a b)

  AreHops-pair :
      (adj : Adj) (a b : Str) (slugs path : List Str) (pair es : List (Edge F))
      → IsPair adj a b path pair
      → AreHops adj (b ∷ slugs) es
      → AreHops adj (a ∷ b ∷ slugs) (pair ++ es)
  AreHops-pair adj a b slugs path [] es p h = absurd p
  AreHops-pair adj a b slugs path (f ∷ []) es p h = absurd p
  AreHops-pair adj a b slugs path (f ∷ r ∷ []) es p h = ((path, p), h)
  AreHops-pair adj a b slugs path (f ∷ r ∷ x ∷ xs) es p h = absurd p

  pub hops-HopsResult :
      (t : Tables F) (m : List (Str × ServiceStop)) (vt : VehicleType) (svc : Str)
      (slugs : List Str)
      → IsNetwork t.network
      → HopsResult t.network.adj slugs (hops t m vt svc slugs)
  unfolding hops
  hops-HopsResult t m vt svc [] i = tt
  hops-HopsResult t m vt svc (a ∷ []) i = tt
  hops-HopsResult t m vt svc (a ∷ b ∷ slugs) i = elim (answer_hop-cases t m vt svc a b i) [
    | inr e ↦ rw (e, hops) (svc, a, b, refl)
    | inl (es, path, e, p) ↦ elim (Result-cases (hops t m vt svc (b ∷ slugs))) [
      | inl (rest, r) ↦
          rw (e, hops)
            (rw (r, hops)
              (AreHops-pair t.network.adj a b slugs path es rest p (
                subst (HopsResult t.network.adj (b ∷ slugs)) r
                  (hops-HopsResult t m vt svc (b ∷ slugs) i))))
      | inr (x, r) ↦
          rw (e, hops)
            (rw (r, hops)
              (subst (HopsResult t.network.adj (b ∷ slugs)) r
                (hops-HopsResult t m vt svc (b ∷ slugs) i)))
    ]
  ]
