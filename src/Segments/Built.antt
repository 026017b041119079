-- ===== src/Segments/Built.antt =====
-- The network that `buildSegmentAdj` builds: its nodes are covered, and every edge can be run back.
use sparks_effect_api.Prelude.{
  suc, List, [], ◌∷◌, ◌++◌, Str, ℤ, Bool, true, ◌≡◌, refl, sym, subst, ◌⊎◌, inl, inr, str_Eq,
  str_eq, str_eq_iff, str_eq_refl, contains, insert, In, In-append, In-append_left, In-append_right,
  length, arith, Bool-cases, ok, err, Result-cases,
}
use sparks_effect_api.Types.{SegmentTime}
use sparks_effect_api.Segments.{
  Adj, SegEdge, Network, append_edge, empty_network, reverse_seconds, add_segment, segment_step,
  build_from, build_segment_adj, segment_path_seconds, reverse_path, reverse_path_onto,
}
use sparks_effect_api.Segments.Sound.{Walk, here, hop}
use sparks_effect_api.Segments.Complete.{Decides, TargetsIn, segment_path_seconds-Decides}

-- Every edge leads to a slug of `onPath`, and has an edge back.
pub record IsNetwork (n : Network) : Type 0 where
  pub covered : (x : Str) → TargetsIn n.on_path (n.adj x)
  pub back :
      (x : Str) (e : SegEdge) → In e (n.adj x) → (d : SegEdge) × In d (n.adj e.to) × (d.to ≡ x)

In-append_edge :
    (adj : Adj) (k : Str) (d : SegEdge) (x : Str) (e : SegEdge)
    → In e (append_edge adj k d x)
    → In e (adj x) ⊎ ((x ≡ k) × (e ≡ d))
unfolding append_edge
In-append_edge adj k d x e m = elim (Bool-cases (str_eq x k)) [
  | inl same ↦ elim (In-append e (adj x) (d ∷ []) (rw (same, append_edge) at m)) [
    | inl l ↦ inl l
    | inr (inl p) ↦ inr ((str_eq_iff x k).0 same, p)
    | inr (inr n) ↦ absurd n
  ]
  | inr other ↦ inl (rw (other, append_edge) at m)
]

append_edge-In_old :
    (adj : Adj) (k : Str) (d : SegEdge) (x : Str) (e : SegEdge)
    → In e (adj x)
    → In e (append_edge adj k d x)
unfolding append_edge
append_edge-In_old adj k d x e m = elim (Bool-cases (str_eq x k)) [
  | inl same ↦ rw same (In-append_left e (adj x) (d ∷ []) m)
  | inr other ↦ rw other m
]

append_edge-In_new : (adj : Adj) (k : Str) (d : SegEdge) → In d (append_edge adj k d k)
unfolding append_edge
append_edge-In_new adj k d = rw (str_eq_refl k) (In-append_right d (adj k) (d ∷ []) (inl refl))

contains-insert_self : (x : Str) (xs : List Str) → contains (insert x xs) x ≡ true
unfolding contains insert
contains-insert_self x xs = ground (arith, str_eq_refl x)

contains-insert_old :
    (x y : Str) (xs : List Str) → contains xs x ≡ true → contains (insert y xs) x ≡ true
unfolding contains insert
contains-insert_old x y xs h = ground arith

add_segment-IsNetwork :
    (n : Network) (seg : SegmentTime) (rev : ℤ) → IsNetwork n → IsNetwork (add_segment n seg rev)
unfolding add_segment
add_segment-IsNetwork n seg rev i = record {
  covered = λ x e m. elim (In-append_edge mid to bwd x e m) [
    | inr (p, q) ↦
        rw q (
          contains-insert_old from to (insert from n.on_path) (contains-insert_self from n.on_path))
    | inl m' ↦ elim (In-append_edge n.adj from fwd x e m') [
      | inr (p, q) ↦ rw q (contains-insert_self to (insert from n.on_path))
      | inl old ↦
          contains-insert_old e.to to (insert from n.on_path)
            (contains-insert_old e.to from n.on_path (i.covered x e old))
    ]
  ];
  back = λ x e m. elim (In-append_edge mid to bwd x e m) [
    | inr (p, q) ↦ (
      fwd,
      rw q (append_edge-In_old mid to bwd from fwd (append_edge-In_new n.adj from fwd)),
      sym p,
    )
    | inl m' ↦ elim (In-append_edge n.adj from fwd x e m') [
      | inr (p, q) ↦ (bwd, rw q (append_edge-In_new mid to bwd), sym p)
      | inl old ↦ let (d, k, z) = i.back x e old in (d, keep e.to d k, z)
    ]
  ];
}
  where
    from : Str
    from = seg.from_slug

    to : Str
    to = seg.to_slug

    fwd : SegEdge
    fwd = record { to = seg.to_slug; seconds = seg.run_seconds }

    bwd : SegEdge
    bwd = record { to = seg.from_slug; seconds = rev }

    mid : Adj
    mid = append_edge n.adj from fwd

    keep : (x : Str) (e : SegEdge) → In e (n.adj x) → In e (append_edge mid to bwd x)
    keep x e m = append_edge-In_old mid to bwd x e (append_edge-In_old n.adj from fwd x e m)

segment_step-IsNetwork :
    (known : Str → Bool) (n n' : Network) (seg : SegmentTime)
    → IsNetwork n
    → segment_step known n seg ≡ ok n'
    → IsNetwork n'
unfolding segment_step
segment_step-IsNetwork known n n' seg i h = elim (Result-cases (reverse_seconds seg)) [
  | inl (rev, e) ↦
      let made : add_segment n seg rev ≡ n' = ground arith in
      subst IsNetwork made (add_segment-IsNetwork n seg rev i)
  | inr (x, e) ↦ ground arith
]

build_from-IsNetwork :
    (known : Str → Bool) (n n' : Network) (segs : List SegmentTime)
    → IsNetwork n
    → build_from known n segs ≡ ok n'
    → IsNetwork n'
unfolding build_from
build_from-IsNetwork known n n' [] i h = let e : n ≡ n' = cc in subst IsNetwork e i
build_from-IsNetwork known n n' (seg ∷ segs) i h = elim (Result-cases (segment_step known n seg)) [
  | inl (n1, e) ↦
      build_from-IsNetwork known n1 n' segs (segment_step-IsNetwork known n n1 seg i e)
        (rw (e, build_from) at h)
  | inr (x, e) ↦ let z : err x ≡ ok n' = rw (e, build_from) at h in cc
]

empty-IsNetwork : IsNetwork empty_network
empty-IsNetwork = record { covered = λ x e m. absurd m; back = λ x e m. absurd m }

pub build_segment_adj-IsNetwork :
    (known : Str → Bool) (segs : List SegmentTime) (n : Network)
    → build_segment_adj known segs ≡ ok n
    → IsNetwork n
unfolding build_segment_adj
build_segment_adj-IsNetwork known segs n h =
    build_from-IsNetwork known empty_network n segs empty-IsNetwork h

-- Over a network that was built, a search with one round for each slug of `onPath` and one more
-- answers: by a walk and its seconds, or by an error, and then there is no walk.
pub segment_path_seconds-built :
    (known : Str → Bool) (segs : List SegmentTime) (n : Network) (from to : Str)
    → build_segment_adj known segs ≡ ok n
    → Decides n.adj from to (segment_path_seconds (suc (length n.on_path)) n.adj from to)
segment_path_seconds-built known segs n from to h =
    segment_path_seconds-Decides n.on_path (suc (length n.on_path)) n.adj from to
      (build_segment_adj-IsNetwork known segs n h).covered (omega arith)

-- A walk with its first hop split off.
Walk-cons :
    (adj : Adj) (x : Str) (e : SegEdge) (y : Str) (path : List Str)
    → In e (adj x)
    → Walk adj e.to y path
    → Walk adj x y (x ∷ path)
Walk-cons adj x e y path m here = hop e here m
Walk-cons adj x e y path m (hop d w k) = hop d (Walk-cons adj x e _ _ m w) k

reverse_path_onto-snoc :
    (path out : List Str) (x : Str)
    → reverse_path_onto (path ++ x ∷ []) out ≡ x ∷ reverse_path_onto path out
unfolding reverse_path_onto
reverse_path_onto-snoc [] out x = refl
reverse_path_onto-snoc (y ∷ path) out x = reverse_path_onto-snoc path (y ∷ out) x

-- The same over any network whose edges have their way back.
pub IsNetwork-Walk :
    (n : Network) (from to : Str) (path : List Str)
    → IsNetwork n
    → Walk n.adj from to path
    → Walk n.adj to from (reverse_path path)
unfolding reverse_path
IsNetwork-Walk n from to path i here = here
IsNetwork-Walk n from to path i (hop {a = a} {path = before} e w m) =
    let (d, k, z) = i.back a e m in
    let w' : Walk n.adj d.to from (reverse_path before) =
      rw z (IsNetwork-Walk n from a before i w) in
    rw (reverse_path_onto-snoc before [] e.to)
      (Walk-cons n.adj e.to d from (reverse_path before) k w')

-- Over the network that is built from segments, the reverse of a walk is a walk: a path that the
-- forward search finds can always be run backwards.
pub reverse_path-Walk :
    (known : Str → Bool) (segs : List SegmentTime) (n : Network) (from to : Str) (path : List Str)
    → build_segment_adj known segs ≡ ok n
    → Walk n.adj from to path
    → Walk n.adj to from (reverse_path path)
reverse_path-Walk known segs n from to path h =
    IsNetwork-Walk n from to path (build_segment_adj-IsNetwork known segs n h)
