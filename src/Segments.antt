-- ===== src/Segments.antt =====
-- internal/transit/compile.go: the adjacency of the segment times, the breadth-first search over it
-- and the sums along a path. A map of slices is a function into lists.
pub mod Chain
pub mod Sound
pub mod Complete
pub mod Built
use sparks_effect_api.Prelude.{
  ℕ, zero, suc, List, [], ◌∷◌, ◌++◌, Option, none, some, Str, Bool, ℤ, pos, leb_ℤ, length, ◌+ⁱ◌,
  ◌==◌, str_Eq, if◌then◌else◌, Result, ok, err, ◌>>=◌, contains, insert,
}
use sparks_effect_api.Types.{SegmentTime}

pub record SegEdge : Type 0 where
  pub to : Str
  pub seconds : ℤ

abbrev pub Adj : Type 0
Adj = Str → List SegEdge

-- `adj[k] = append(adj[k], e)`
unfoldable pub append_edge : Adj → Str → SegEdge → Adj
append_edge adj k e j = if j == k then adj j ++ e ∷ [] else adj j

pub data SegmentError : Type 0 where
  unknown_slug : Str → SegmentError
  non_positive_reverse : Str → Str → SegmentError

-- What `buildSegmentAdj` has built so far: the adjacency and the set `onPath`.
pub record Network : Type 0 where
  pub adj : Adj
  pub on_path : List Str

abbrev pub empty_network : Network
empty_network = record { adj = λ k. []; on_path = [] }

-- `revSecs`
reverse_seconds : SegmentTime → Result SegmentError ℤ
reverse_seconds seg = elim seg.reverse_run_seconds [
  | none ↦ ok seg.run_seconds
  | some secs ↦
      if leb_ℤ secs (pos 0) then err (non_positive_reverse seg.from_slug seg.to_slug) else ok secs
]

-- The writes at the end of the loop's body.
unfoldable pub add_segment : Network → SegmentTime → ℤ → Network
unfolding append_edge
add_segment n seg rev_secs = record {
  adj =
      append_edge
        (append_edge n.adj seg.from_slug (record { to = seg.to_slug; seconds = seg.run_seconds }))
        seg.to_slug (record { to = seg.from_slug; seconds = rev_secs });
  on_path = insert seg.to_slug (insert seg.from_slug n.on_path);
}

-- The loop's body; `known` tells the slugs of `stationsBySlug`.
unfoldable pub segment_step : (Str → Bool) → Network → SegmentTime → Result SegmentError Network
unfolding reverse_seconds add_segment
segment_step known n seg =
    if known seg.from_slug
    then (if known seg.to_slug
        then (do rev_secs ← reverse_seconds seg; ok (add_segment n seg rev_secs))
        else err (unknown_slug seg.to_slug))
    else err (unknown_slug seg.from_slug)

unfoldable pub build_from : (Str → Bool) → Network → List SegmentTime → Result SegmentError Network
unfolding segment_step
build_from known n [] = ok n
build_from known n (seg ∷ segs) = do n' ← segment_step known n seg; build_from known n' segs

unfoldable pub build_segment_adj : (Str → Bool) → List SegmentTime → Result SegmentError Network
unfolding build_from
build_segment_adj known segments = build_from known empty_network segments

-- The variables of `segmentPathSeconds`. A queue entry is a slug and the seconds to it; `prev` and
-- `visited` have the latest entry first.
pub record Search : Type 0 where
  pub visited : List Str
  pub prev : List (Str × Str)
  pub queue : List (Str × ℤ)

-- `total` is set where the inner loop breaks.
pub record Scanned : Type 0 where
  pub search : Search
  pub total : Option ℤ

-- `visited[e.to] = true; prev[e.to] = cur.slug`
unfoldable pub visit : Search → Str → Str → Search
visit s cur to = record s { visited = to ∷ s.visited; prev = (to, cur) ∷ s.prev }

-- The loop over `adj[cur.slug]`.
unfoldable pub scan : Str → Str → ℤ → List SegEdge → Search → Scanned
unfolding visit
scan target cur secs [] s = record { search = s; total = none }
scan target cur secs (e ∷ es) s =
    let skip = scan target cur secs es s in
    let s' = visit s cur e.to in
    let next_secs = secs +ⁱ e.seconds in
    let go = scan target cur secs es (record s' { queue = s'.queue ++ (e.to, next_secs) ∷ [] }) in
    if contains s.visited e.to
    then skip
    else if e.to == target
    then record { search = record s' { queue = [] }; total = some next_secs }
    else go

-- How the outer loop ends: at the target, with an empty queue, or (in the model only) without fuel.
pub data Outcome : Type 0 where
  found : ℤ → List (Str × Str) → Outcome
  not_found : Search → Outcome
  out_of_fuel : Outcome

-- The loop over the queue.
unfoldable pub search_loop : ℕ → Adj → Str → Search → Outcome
unfolding scan
search_loop zero adj target s = elim s.queue [ [] ↦ not_found s | _ ∷ _ ↦ out_of_fuel ]
search_loop (suc fuel) adj target s = elim s.queue [
  | [] ↦ not_found s
  | (cur, secs) ∷ rest ↦
      let r = scan target cur secs (adj cur) (record s { queue = rest }) in
      elim r.total [
        | some total ↦ found total r.search.prev
        | none ↦ search_loop fuel adj target r.search
      ]
]

-- `prev[x]`: a missing key reads as "".
unfoldable pub prev_of : List (Str × Str) → Str → Str
prev_of [] x = []
prev_of ((y, p) ∷ prev) x = if x == y then p else prev_of prev x

-- `for cur := to; cur != from; cur = prev[cur]`: the path is built from its end, so the loop's list
-- is already reversed here.
unfoldable pub walk_back : ℕ → List (Str × Str) → Str → Str → List Str → Option (List Str)
unfolding prev_of
walk_back zero prev from cur path = none
walk_back (suc fuel) prev from cur path =
    let before = prev_of prev cur in
    let rest = walk_back fuel prev from before (before ∷ path) in
    if cur == from then some path else rest

pub data PathResult : Type 0 where
  path_ok : ℤ → List Str → PathResult
  no_path : Str → Str → PathResult
  path_out_of_fuel : PathResult

abbrev pub start : Str → Search
start from = record { visited = from ∷ []; prev = []; queue = (from, pos 0) ∷ [] }

unfoldable pub finish : Str → Str → Outcome → PathResult
unfolding walk_back
finish from to (found total prev) = elim (walk_back (suc (length prev)) prev from to (to ∷ [])) [
  | none ↦ path_out_of_fuel
  | some path ↦ path_ok total path
]
finish from to (not_found s) = no_path from to
finish from to out_of_fuel = path_out_of_fuel

-- `fuel` bounds the rounds of the outer loop.
unfoldable pub segment_path_seconds : ℕ → Adj → Str → Str → PathResult
unfolding search_loop finish
segment_path_seconds fuel adj from to =
    if from == to
    then path_ok (pos 0) (from ∷ [])
    else finish from to (search_loop fuel adj to (start from))

-- The inner loop of `pathRunSeconds`: the first edge to `to`.
unfoldable pub hop_seconds : ℤ → List SegEdge → Str → ℤ
hop_seconds secs [] to = secs
hop_seconds secs (e ∷ es) to = if e.to == to then secs +ⁱ e.seconds else hop_seconds secs es to

unfoldable pub run_seconds_from : ℤ → Adj → List Str → ℤ
unfolding hop_seconds
run_seconds_from secs adj [] = secs
run_seconds_from secs adj (from ∷ []) = secs
run_seconds_from secs adj (from ∷ to ∷ path) =
    run_seconds_from (hop_seconds secs (adj from) to) adj (to ∷ path)

unfoldable pub path_run_seconds : Adj → List Str → ℤ
unfolding run_seconds_from
path_run_seconds adj path = run_seconds_from (pos 0) adj path

-- `out[len(path)-1-i] = slug`: the result is filled from its end.
unfoldable pub reverse_path_onto : List Str → List Str → List Str
reverse_path_onto [] out = out
reverse_path_onto (slug ∷ path) out = reverse_path_onto path (slug ∷ out)

unfoldable pub reverse_path : List Str → List Str
unfolding reverse_path_onto
reverse_path path = reverse_path_onto path []
