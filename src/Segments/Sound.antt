-- ===== src/Segments/Sound.antt =====
-- What the search of `segmentPathSeconds` finds is a path, and its seconds are the path's.
use sparks_effect_api.Prelude.{
  ℕ, zero, suc, List, [], ◌∷◌, ◌++◌, Option, none, some, Str, ℤ, pos, true, false, ◌≡◌, refl, sym,
  ◌∙◌, ap, subst, inl, inr, ◌+ⁱ◌, str_Eq, str_eq, str_eq_iff, str_eq_refl, contains, In, All,
  All-append, arith, Bool-cases, Option-cases, length,
}
use mathlib.Core.List.{append_assoc}
use sparks_effect_api.Segments.{
  Adj, SegEdge, Search, Outcome, found, not_found, out_of_fuel, visit, scan, search_loop, path_ok,
  finish, start, hop_seconds, run_seconds_from, path_run_seconds,
}
use sparks_effect_api.Segments.Chain.{
  chain, reached, IsGrown, chain_older, chain_last, walk_back-chain,
}

run_seconds_from-snoc :
    (secs : ℤ) (adj : Adj) (init : List Str) (a x : Str)
    → run_seconds_from secs adj (init ++ a ∷ x ∷ [])
      ≡ hop_seconds (run_seconds_from secs adj (init ++ a ∷ [])) (adj a) x
unfolding run_seconds_from
run_seconds_from-snoc secs adj [] a x = refl
run_seconds_from-snoc secs adj (b ∷ []) a x = refl
run_seconds_from-snoc secs adj (b ∷ c ∷ init) a x =
    run_seconds_from-snoc (hop_seconds secs (adj b) c) adj (c ∷ init) a x

-- The seconds of a chain that is one hop longer.
path_run_seconds-hop :
    (adj : Adj) (prev : List (Str × Str)) (cur y : Str)
    → path_run_seconds adj (chain prev cur ++ y ∷ [])
      ≡ hop_seconds (path_run_seconds adj (chain prev cur)) (adj cur) y
unfolding path_run_seconds
path_run_seconds-hop adj prev cur y =
    let (init, e) = chain_last prev cur in
    rw (e, append_assoc init (cur ∷ []) (y ∷ [])) (run_seconds_from-snoc (pos 0) adj init cur y)

-- A queue entry names a visited node with the seconds of its chain.
abbrev pub IsTimed : Adj → Search → Str × ℤ → Type 0
IsTimed adj s q = (contains s.visited q.0 ≡ true) × (q.1 ≡ path_run_seconds adj (chain s.prev q.0))

pub record IsSearch (adj : Adj) (from : Str) (s : Search) : Type 0 where
  pub seen : s.visited ≡ reached from s.prev
  pub grown : IsGrown adj from s.prev
  pub timed : All (IsTimed adj s) s.queue

-- The recorded chain of the target, with its seconds.
pub record IsFound (adj : Adj) (from target : Str) (total : ℤ) (prev : List (Str × Str))
    : Type 0 where
  pub grown : IsGrown adj from prev
  pub at_target : contains (reached from prev) target ≡ true
  pub timed : total ≡ path_run_seconds adj (chain prev target)

IsTimed-visit :
    (adj : Adj) (from cur y : Str) (s : Search) (q : Str × ℤ)
    → IsSearch adj from s
    → contains s.visited y ≡ false
    → IsTimed adj s q
    → IsTimed adj (visit s cur y) q
unfolding visit contains
IsTimed-visit adj from cur y s (x, secs) i fresh (v, e) = (
  ground arith,
  e
      ∙ ap (path_run_seconds adj)
          (sym (chain_older y cur x s.prev from (rw i.seen at fresh) (rw i.seen at v))),
)

All-IsTimed-visit :
    (adj : Adj) (from cur y : Str) (s : Search) (qs : List (Str × ℤ))
    → IsSearch adj from s
    → contains s.visited y ≡ false
    → All (IsTimed adj s) qs
    → All (IsTimed adj (visit s cur y)) qs
All-IsTimed-visit adj from cur y s [] i fresh t = tt
All-IsTimed-visit adj from cur y s (q ∷ qs) i fresh t = (
  IsTimed-visit adj from cur y s q i fresh t.0,
  All-IsTimed-visit adj from cur y s qs i fresh t.1,
)

-- The node whose edges are scanned: it was visited, its seconds are known, and the first edge to an
-- unvisited node is among the edges that are left.
pub record IsScanning (adj : Adj) (cur : Str) (secs : ℤ) (es : List SegEdge) (s : Search)
    : Type 0 where
  pub timed : IsTimed adj s (cur, secs)
  pub left : (e : SegEdge) → In e es → In e (adj cur)
  pub first :
      (y : Str)
      → contains s.visited y ≡ false
      → hop_seconds secs (adj cur) y ≡ hop_seconds secs es y

abbrev pub ScanFinds : Adj → Str → Str → Option ℤ → Search → Type 0
ScanFinds adj from target none s = IsSearch adj from s
ScanFinds adj from target (some total) s = IsFound adj from target total s.prev

new-timed :
    (adj : Adj) (from cur : Str) (secs : ℤ) (e : SegEdge) (es : List SegEdge) (s : Search)
    → IsScanning adj cur secs (e ∷ es) s
    → contains s.visited e.to ≡ false
    → secs +ⁱ e.seconds ≡ path_run_seconds adj (chain ((e.to, cur) ∷ s.prev) e.to)
unfolding chain hop_seconds
new-timed adj from cur secs e es s c fresh =
    let first : secs +ⁱ e.seconds ≡ hop_seconds secs (adj cur) e.to =
      rw (c.first e.to fresh) (ground (arith, str_eq_refl e.to)) in
    rw (str_eq_refl e.to) (
      first
      ∙ ap (λ t. hop_seconds t (adj cur) e.to) c.timed.1
      ∙ sym (path_run_seconds-hop adj s.prev cur e.to))

new-IsGrown :
    (adj : Adj) (from cur : Str) (secs : ℤ) (e : SegEdge) (es : List SegEdge) (s : Search)
    → IsSearch adj from s
    → IsScanning adj cur secs (e ∷ es) s
    → contains s.visited e.to ≡ false
    → IsGrown adj from ((e.to, cur) ∷ s.prev)
new-IsGrown adj from cur secs e es s i c fresh =
    (rw i.seen at fresh, rw i.seen at c.timed.0, (e, c.left e (inl refl), refl), i.grown)

IsScanning-skip :
    (adj : Adj) (cur : Str) (secs : ℤ) (e : SegEdge) (es : List SegEdge) (s : Search)
    → IsScanning adj cur secs (e ∷ es) s
    → contains s.visited e.to ≡ true
    → IsScanning adj cur secs es s
unfolding hop_seconds
IsScanning-skip adj cur secs e es s c seen = record {
  timed = c.timed;
  left = λ d m. c.left d (inr m);
  first = λ y fresh. ground (arith, c.first y fresh, str_eq_iff e.to y);
}

abbrev pub enqueue : Search → Str × ℤ → Search
enqueue s q = record s { queue = s.queue ++ q ∷ [] }

IsScanning-visit :
    (adj : Adj) (from cur : Str) (secs next : ℤ) (e : SegEdge) (es : List SegEdge) (s : Search)
    → IsSearch adj from s
    → IsScanning adj cur secs (e ∷ es) s
    → contains s.visited e.to ≡ false
    → IsScanning adj cur secs es (enqueue (visit s cur e.to) (e.to, next))
unfolding hop_seconds visit contains
IsScanning-visit adj from cur secs next e es s i c fresh = record {
  timed = IsTimed-visit adj from cur e.to s (cur, secs) i fresh c.timed;
  left = λ d m. c.left d (inr m);
  first = λ y k. ground (arith, c.first y, str_eq_iff e.to y, str_eq_iff y e.to);
}

search-visit :
    (adj : Adj) (from cur : Str) (secs : ℤ) (e : SegEdge) (es : List SegEdge) (s : Search)
    → IsSearch adj from s
    → IsScanning adj cur secs (e ∷ es) s
    → contains s.visited e.to ≡ false
    → IsSearch adj from (enqueue (visit s cur e.to) (e.to, secs +ⁱ e.seconds))
unfolding visit contains
search-visit adj from cur secs e es s i c fresh = record {
  seen = ap (λ v. e.to ∷ v) i.seen;
  grown = new-IsGrown adj from cur secs e es s i c fresh;
  timed =
      All-append (IsTimed adj (visit s cur e.to)) s.queue ((e.to, secs +ⁱ e.seconds) ∷ [])
        (All-IsTimed-visit adj from cur e.to s s.queue i fresh i.timed)
        ((ground (arith, str_eq_refl e.to), new-timed adj from cur secs e es s c fresh), tt);
}

IsFound-at :
    (adj : Adj) (from target cur : Str) (secs : ℤ) (e : SegEdge) (es : List SegEdge) (s : Search)
    → IsSearch adj from s
    → IsScanning adj cur secs (e ∷ es) s
    → contains s.visited e.to ≡ false
    → e.to ≡ target
    → IsFound adj from target (secs +ⁱ e.seconds) ((e.to, cur) ∷ s.prev)
unfolding contains
IsFound-at adj from target cur secs e es s i c fresh hit = record {
  grown = new-IsGrown adj from cur secs e es s i c fresh;
  at_target = ground (arith, str_eq_iff target e.to);
  timed =
      new-timed adj from cur secs e es s c fresh
      ∙ ap (λ t. path_run_seconds adj (chain ((e.to, cur) ∷ s.prev) t)) hit;
}

scan-ScanFinds :
    (adj : Adj) (from target cur : Str) (secs : ℤ) (es : List SegEdge) (s : Search)
    → IsSearch adj from s
    → IsScanning adj cur secs es s
    → ScanFinds adj from target (scan target cur secs es s).total (scan target cur secs es s).search
unfolding scan
scan-ScanFinds adj from target cur secs [] s i c = i
scan-ScanFinds adj from target cur secs (e ∷ es) s i c =
    elim (Bool-cases (contains s.visited e.to)) [
      | inl seen ↦
          rw (seen, scan)
            (scan-ScanFinds adj from target cur secs es s i
              (IsScanning-skip adj cur secs e es s c seen))
      | inr fresh ↦ elim (Bool-cases (str_eq e.to target)) [
        | inl hit ↦
            rw (fresh, hit, scan)
              (IsFound-at adj from target cur secs e es s i c fresh
                ((str_eq_iff e.to target).0 hit))
        | inr miss ↦
            rw (fresh, miss, scan)
              (scan-ScanFinds adj from target cur secs es
                (enqueue (visit s cur e.to) (e.to, secs +ⁱ e.seconds))
                (search-visit adj from cur secs e es s i c fresh)
                (IsScanning-visit adj from cur secs (secs +ⁱ e.seconds) e es s i c fresh))
      ]
    ]

abbrev pub Finds : Adj → Str → Str → Outcome → Type 0
Finds adj from target (found total prev) = IsFound adj from target total prev
Finds adj from target (not_found s) = IsSearch adj from s
Finds adj from target out_of_fuel = Unit

popped :
    (adj : Adj) (from : Str) (s : Search) (q : Str × ℤ) (rest : List (Str × ℤ))
    → s.queue ≡ q ∷ rest
    → IsSearch adj from s
    → IsSearch adj from (record s { queue = rest }) × IsTimed adj s q
popped adj from s q rest e i =
    let timed : All (IsTimed adj s) (q ∷ rest) = subst (All (IsTimed adj s)) e i.timed in
    (record { seen = i.seen; grown = i.grown; timed = timed.1 }, timed.0)

loop-Finds :
    (fuel : ℕ) (adj : Adj) (from target : Str) (s : Search) (queue : List (Str × ℤ))
    → s.queue ≡ queue
    → IsSearch adj from s
    → Finds adj from target (search_loop fuel adj target s)
unfolding search_loop
loop-Finds zero adj from target s [] e i = rw (e, search_loop) i
loop-Finds zero adj from target s (q ∷ rest) e i = rw (e, search_loop) tt
loop-Finds (suc fuel) adj from target s [] e i = rw (e, search_loop) i
loop-Finds (suc fuel) adj from target s ((cur, secs) ∷ rest) e i =
    let (i', t) = popped adj from s (cur, secs) rest e i in
    let s' : Search = record s { queue = rest } in
    let c : IsScanning adj cur secs (adj cur) s' = record {
      timed = t;
      left = λ d m. m;
      first = λ y k. refl;
    } in
    let r = scan target cur secs (adj cur) s' in
    let k = scan-ScanFinds adj from target cur secs (adj cur) s' i' c in
    elim (Option-cases r.total) [
      | inl n ↦
          rw (e, search_loop)
            (rw (n, search_loop)
              (loop-Finds fuel adj from target r.search r.search.queue refl
                (subst (λ t. ScanFinds adj from target t r.search) n k)))
      | inr (total, n) ↦
          rw (e, search_loop)
            (rw (n, search_loop) (subst (λ t. ScanFinds adj from target t r.search) n k))
    ]

start-IsSearch : (adj : Adj) (from : Str) → IsSearch adj from (start from)
unfolding contains chain path_run_seconds
start-IsSearch adj from = record {
  seen = refl;
  grown = tt;
  timed = ((ground (arith, str_eq_refl from), refl), tt);
}

-- The walks along edges of the adjacency from `from`, by their last node.
pub data Walk (adj : Adj) (from : Str) : Str → List Str → Type 0 where
  here : Walk adj from from (from ∷ [])
  hop :
      {a : Str} {path : List Str} (e : SegEdge)
      → Walk adj from a path
      → In e (adj a)
      → Walk adj from e.to (path ++ e.to ∷ [])

chain-Walk :
    (adj : Adj) (from x : Str) (prev : List (Str × Str))
    → IsGrown adj from prev
    → contains (reached from prev) x ≡ true
    → Walk adj from x (chain prev x)
unfolding chain contains
chain-Walk adj from x [] g r = let e : x ≡ from = ground (arith, str_eq_iff x from) in rw e here
chain-Walk adj from x ((y, p) ∷ prev) g r = elim (Bool-cases (str_eq x y)) [
  | inl same ↦
      let (e, m, at) = g.2 in
      let w : Walk adj from e.to (chain prev p ++ e.to ∷ []) =
        hop e (chain-Walk adj from p prev g.3 g.1) m in
      rw same (rw ((str_eq_iff x y).0 same) (rw at at w))
  | inr other ↦ rw other (chain-Walk adj from x prev g.3 (ground arith))
]

-- A found target is answered with its chain.
pub finish-found :
    (adj : Adj) (from to : Str) (total : ℤ) (prev : List (Str × Str))
    → IsFound adj from to total prev
    → (finish from to (found total prev) ≡ path_ok total (chain prev to))
      × Walk adj from to (chain prev to)
unfolding finish
finish-found adj from to total prev f =
    let (tail, e, w) =
      walk_back-chain (suc (length prev)) adj from to prev (to ∷ []) f.grown f.at_target
        (omega arith) in
    (rw (w, finish) (rw e refl), chain-Walk adj from to prev f.grown f.at_target)

-- Whatever the fuel, the loop from the start finds a chain or keeps its invariant.
pub search_loop-Finds :
    (fuel : ℕ) (adj : Adj) (from to : Str)
    → Finds adj from to (search_loop fuel adj to (start from))
search_loop-Finds fuel adj from to =
    loop-Finds fuel adj from to (start from) (start from).queue refl (start-IsSearch adj from)
