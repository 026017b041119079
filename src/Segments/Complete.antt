-- ===== src/Segments/Complete.antt =====
-- The search of `segmentPathSeconds` ends, and reports no path only where there is none.
use sparks_effect_api.Prelude.{
  ℕ, zero, suc, ◌+◌, ◌≤◌, ◌<◌, List, [], ◌∷◌, ◌++◌, map, none, some, Str, ℤ, Bool, true, false, ◌≡◌,
  refl, ap, subst, ◌⊎◌, inl, inr, ◌+ⁱ◌, str_Eq, str_eq, str_eq_iff, str_eq_refl, if◌then◌else◌,
  contains, In, length, length-append, arith, Bool-cases, Option-cases,
}
use sparks_effect_api.Segments.{
  Adj, SegEdge, Search, Outcome, found, not_found, out_of_fuel, visit, scan, search_loop, start,
  PathResult, path_ok, no_path, path_out_of_fuel, finish, segment_path_seconds, path_run_seconds,
}
use sparks_effect_api.Segments.Sound.{
  Walk, here, hop, Finds, finish-found, search_loop-Finds, enqueue,
}

queued : Search → Str → Bool
queued s x = contains (map (λ (q : Str × ℤ). q.0) s.queue) x

-- Each visited node is queued, or all its edges lead to visited nodes; of `cur` the edges `es` are left.
record IsOpen (adj : Adj) (cur : Str) (es : List SegEdge) (s : Search) : Type 0 where
  at :
      (x : Str)
      → contains s.visited x ≡ true
      → (queued s x ≡ true)
        ⊎ ((e : SegEdge) → In e (adj x) → (contains s.visited e.to ≡ true) ⊎ ((x ≡ cur) × In e es))

IsOpen-skip :
    (adj : Adj) (cur : Str) (e : SegEdge) (es : List SegEdge) (s : Search)
    → contains s.visited e.to ≡ true
    → IsOpen adj cur (e ∷ es) s
    → IsOpen adj cur es s
IsOpen-skip adj cur e es s seen o = record {
  at = λ x v. elim (o.at x v) [
    | inl q ↦ inl q
    | inr h ↦ inr (λ d m. elim (h d m) [
      | inl k ↦ inl k
      | inr (c, inl p) ↦ inl (rw p seen)
      | inr (c, inr n) ↦ inr (c, n)
    ])
  ];
}

contains-append :
    (xs ys : List (Str × ℤ)) (x : Str)
    → contains (map (λ (q : Str × ℤ). q.0) xs) x ≡ true
    → contains (map (λ (q : Str × ℤ). q.0) (xs ++ ys)) x ≡ true
unfolding contains
contains-append [] ys x h = ground arith
contains-append (q ∷ xs) ys x h = ground (arith, contains-append xs ys x)

contains-snoc :
    (xs : List (Str × ℤ)) (x : Str) (secs : ℤ)
    → contains (map (λ (q : Str × ℤ). q.0) (xs ++ (x, secs) ∷ [])) x ≡ true
unfolding contains
contains-snoc [] x secs = ground (arith, str_eq_refl x)
contains-snoc (q ∷ xs) x secs = ground (arith, contains-snoc xs x secs)

IsOpen-visit :
    (adj : Adj) (cur : Str) (secs : ℤ) (e : SegEdge) (es : List SegEdge) (s : Search)
    → IsOpen adj cur (e ∷ es) s
    → IsOpen adj cur es (enqueue (visit s cur e.to) (e.to, secs))
unfolding visit contains queued
IsOpen-visit adj cur secs e es s o = record {
  at = λ x v. elim (Bool-cases (str_eq x e.to)) [
    | inl same ↦ inl (rw ((str_eq_iff x e.to).0 same) (contains-snoc s.queue e.to secs))
    | inr other ↦ elim (o.at x (ground arith)) [
      | inl q ↦ inl (contains-append s.queue ((e.to, secs) ∷ []) x q)
      | inr h ↦ inr (λ d m. elim (h d m) [
        | inl k ↦ inl (ground arith)
        | inr (c, inl p) ↦ inl (rw p (ground (arith, str_eq_refl e.to)))
        | inr (c, inr n) ↦ inr (c, n)
      ])
    ]
  ];
}

-- How many of the nodes are not visited.
unseen : List Str → List Str → ℕ
unseen [] visited = 0
unseen (u ∷ us) visited =
    let rest = unseen us visited in if contains visited u then rest else suc rest

unseen_mono : (us visited : List Str) (y : Str) → unseen us (y ∷ visited) ≤ unseen us visited
unfolding unseen contains
unseen_mono [] visited y = omega arith
unseen_mono (u ∷ us) visited y = ground (arith, unseen_mono us visited y)

unseen-visit :
    (us visited : List Str) (y : Str)
    → contains visited y ≡ false
    → contains us y ≡ true
    → unseen us (y ∷ visited) < unseen us visited
unfolding unseen contains
unseen-visit [] visited y fresh known = ground arith
unseen-visit (u ∷ us) visited y fresh known = ground (
  arith,
  unseen_mono us visited y,
  unseen-visit us visited y fresh,
  str_eq_iff y u,
  str_eq_refl u,
)

-- The rounds that are still possible.
budget : List Str → Search → ℕ
budget us s = length s.queue + unseen us s.visited

-- What an inner loop that did not meet the target leaves.
record Misses (adj : Adj) (us : List Str) (from target cur : Str) (spent : ℕ) (r : Search)
    : Type 0 where
  opened : IsOpen adj cur [] r
  missed : contains r.visited target ≡ false
  kept : contains r.visited from ≡ true
  within : budget us r ≤ spent

abbrev pub TargetsIn : List Str → List SegEdge → Type 0
TargetsIn us es = (e : SegEdge) → In e es → contains us e.to ≡ true

budget-visit :
    (us : List Str) (cur y : Str) (secs : ℤ) (s : Search)
    → contains s.visited y ≡ false
    → contains us y ≡ true
    → budget us (enqueue (visit s cur y) (y, secs)) ≤ budget us s
unfolding budget visit
budget-visit us cur y secs s fresh known =
    omega (arith, unseen-visit us s.visited y fresh known, length-append s.queue ((y, secs) ∷ []))

scan-Misses :
    (adj : Adj) (us : List Str) (from target cur : Str) (secs : ℤ) (es : List SegEdge) (spent : ℕ)
    (s : Search)
    → TargetsIn us es
    → IsOpen adj cur es s
    → contains s.visited target ≡ false
    → contains s.visited from ≡ true
    → budget us s ≤ spent
    → (scan target cur secs es s).total ≡ none
    → Misses adj us from target cur spent (scan target cur secs es s).search
unfolding scan
scan-Misses adj us from target cur secs [] spent s k o m f b h = record {
  opened = o;
  missed = m;
  kept = f;
  within = b;
}
scan-Misses adj us from target cur secs (e ∷ es) spent s k o m f b h =
    elim (Bool-cases (contains s.visited e.to)) [
      | inl seen ↦
          rw (seen, scan)
            (scan-Misses adj us from target cur secs es spent s (λ d n. k d (inr n))
              (IsOpen-skip adj cur e es s seen o) m f b (rw (seen, scan) at h))
      | inr fresh ↦ elim (Bool-cases (str_eq e.to target)) [
        | inl hit ↦ let met : some (secs +ⁱ e.seconds) ≡ none = rw (fresh, hit, scan) at h in cc
        | inr miss ↦
            rw (fresh, miss, scan)
              (scan-Misses adj us from target cur secs es spent
                (enqueue (visit s cur e.to) (e.to, secs +ⁱ e.seconds)) (λ d n. k d (inr n))
                (IsOpen-visit adj cur (secs +ⁱ e.seconds) e es s o)
                (unfold visit contains in
                  ground (arith, str_eq_iff target e.to, str_eq_iff e.to target))
                (unfold visit contains in ground arith)
                (omega
                  (arith, budget-visit us cur e.to (secs +ⁱ e.seconds) s fresh (k e (inl refl))))
                (rw (fresh, miss, scan) at h))
      ]
    ]

abbrev Exhausts : Adj → Str → Str → Outcome → Type 0
Exhausts adj from target (found total prev) = Unit
Exhausts adj from target (not_found s) =
    (contains s.visited target ≡ false)
    × (contains s.visited from ≡ true)
    × ((x : Str)
        → contains s.visited x ≡ true
        → (e : SegEdge) → In e (adj x)
        → contains s.visited e.to ≡ true)
Exhausts adj from target out_of_fuel = ⊥

-- Between two rounds every visited node is queued or has all its edges visited.
record IsClosed (adj : Adj) (s : Search) : Type 0 where
  at :
      (x : Str)
      → contains s.visited x ≡ true
      → (queued s x ≡ true) ⊎ ((e : SegEdge) → In e (adj x) → contains s.visited e.to ≡ true)

IsClosed-of_open : (adj : Adj) (cur : Str) (s : Search) → IsOpen adj cur [] s → IsClosed adj s
IsClosed-of_open adj cur s o = record {
  at = λ x v. elim (o.at x v) [
    | inl q ↦ inl q
    | inr h ↦ inr (λ e m. elim (h e m) [ inl k ↦ k | inr (c, n) ↦ absurd n ])
  ];
}

abbrev IsQueued : List (Str × ℤ) → Str → Type 0
IsQueued qs x = contains (map (λ (q : Str × ℤ). q.0) qs) x ≡ true

pop_queued :
    (x cur : Str) (secs : ℤ) (rest : List (Str × ℤ)) (s : Search)
    → s.queue ≡ (cur, secs) ∷ rest
    → str_eq x cur ≡ false
    → queued s x ≡ true
    → IsQueued rest x
unfolding queued contains
pop_queued x cur secs rest s e other q =
    let q' : IsQueued ((cur, secs) ∷ rest) x = subst (λ qs. IsQueued qs x) e q in ground arith

closed_of_empty :
    (adj : Adj) (s : Search)
    → s.queue ≡ []
    → IsClosed adj s
    → (x : Str) → contains s.visited x ≡ true
    → (e : SegEdge) → In e (adj x)
    → contains s.visited e.to ≡ true
unfolding queued contains
closed_of_empty adj s empty c x v = elim (c.at x v) [
  | inl q ↦ let q' : IsQueued [] x = subst (λ qs. IsQueued qs x) empty q in cc
  | inr h ↦ h
]

IsOpen-of_closed :
    (adj : Adj) (cur : Str) (secs : ℤ) (rest : List (Str × ℤ)) (s : Search)
    → s.queue ≡ (cur, secs) ∷ rest
    → IsClosed adj s
    → IsOpen adj cur (adj cur) (record s { queue = rest })
unfolding queued contains
IsOpen-of_closed adj cur secs rest s e c = record {
  at = λ x v. elim (Bool-cases (str_eq x cur)) [
    | inl same ↦
        let p = (str_eq_iff x cur).0 same in inr (λ d m. inr (p, subst (λ y. In d (adj y)) p m))
    | inr other ↦ elim (c.at x v) [
      | inl q ↦ inl (pop_queued x cur secs rest s e other q)
      | inr h ↦ inr (λ d m. inl (h d m))
    ]
  ];
}

loop-Exhausts :
    (adj : Adj) (us : List Str) (from target : Str) (fuel : ℕ) (s : Search) (queue : List (Str × ℤ))
    → ((x : Str) → TargetsIn us (adj x))
    → s.queue ≡ queue
    → IsClosed adj s
    → contains s.visited target ≡ false
    → contains s.visited from ≡ true
    → budget us s ≤ fuel
    → Exhausts adj from target (search_loop fuel adj target s)
unfolding search_loop budget
loop-Exhausts adj us from target zero s [] k e c m f b =
    rw (e, search_loop) (m, f, closed_of_empty adj s e c)
loop-Exhausts adj us from target zero s (q ∷ rest) k e c m f b = absurd (omega (arith, ap length e))
loop-Exhausts adj us from target (suc fuel) s [] k e c m f b =
    rw (e, search_loop) (m, f, closed_of_empty adj s e c)
loop-Exhausts adj us from target (suc fuel) s ((cur, secs) ∷ rest) k e c m f b =
    let s' : Search = record s { queue = rest } in
    let r = scan target cur secs (adj cur) s' in
    elim (Option-cases r.total) [
      | inl n ↦
          let left =
            scan-Misses adj us from target cur secs (adj cur) fuel s' (k cur)
              (IsOpen-of_closed adj cur secs rest s e c) m f (omega (arith, ap length e)) n in
          rw (e, search_loop)
            (rw (n, search_loop)
              (loop-Exhausts adj us from target fuel r.search r.search.queue k refl
                (IsClosed-of_open adj cur r.search left.opened) left.missed left.kept left.within))
      | inr (total, n) ↦ rw (e, search_loop) (rw (n, search_loop) tt)
    ]

start-IsClosed : (adj : Adj) (from : Str) → IsClosed adj (start from)
unfolding queued contains
start-IsClosed adj from = record { at = λ x v. inl (ground arith) }

closed-Walk :
    (adj : Adj) (from x : Str) (path : List Str) (visited : List Str)
    → contains visited from ≡ true
    → ((y : Str)
        → contains visited y ≡ true
        → (e : SegEdge) → In e (adj y)
        → contains visited e.to ≡ true)
    → Walk adj from x path
    → contains visited x ≡ true
closed-Walk adj from x path visited f c here = f
closed-Walk adj from x path visited f c (hop {a = a} {path = before} e w m) =
    c a (closed-Walk adj from a before visited f c w) e m

-- The answer is a path with its seconds, or the absence of any walk.
abbrev pub Decides : Adj → Str → Str → PathResult → Type 0
Decides adj from to (path_ok total path) =
    Walk adj from to path × (total ≡ path_run_seconds adj path)
Decides adj from to (no_path a b) =
    (a ≡ from) × (b ≡ to) × ((path : List Str) → ¬ Walk adj from to path)
Decides adj from to path_out_of_fuel = ⊥

finish-Decides :
    (adj : Adj) (from to : Str) (o : Outcome)
    → Exhausts adj from to o
    → Finds adj from to o
    → Decides adj from to (finish from to o)
unfolding finish
finish-Decides adj from to (found total prev) h f =
    let (e, w) = finish-found adj from to total prev f in rw e (w, f.timed)
finish-Decides adj from to (not_found s) h f =
    (refl, refl, λ path w. differ h.0 (closed-Walk adj from to path s.visited h.1 h.2 w))
  where
    differ : contains s.visited to ≡ false → contains s.visited to ≡ true → ⊥
    differ p q = cc
finish-Decides adj from to out_of_fuel h f = absurd h

unseen-le : (us visited : List Str) → unseen us visited ≤ length us
unfolding unseen
unseen-le [] visited = omega arith
unseen-le (u ∷ us) visited = ground (arith, unseen-le us visited)

-- With more fuel than there are nodes the search answers: by a walk from `from` to `to` and the
-- seconds that `pathRunSeconds` adds up along it, or by an error, and then there is no walk at all.
pub segment_path_seconds-Decides :
    (us : List Str) (fuel : ℕ) (adj : Adj) (from to : Str)
    → ((x : Str) → TargetsIn us (adj x))
    → length us < fuel
    → Decides adj from to (segment_path_seconds fuel adj from to)
unfolding segment_path_seconds path_run_seconds budget
segment_path_seconds-Decides us fuel adj from to k h = elim (Bool-cases (str_eq from to)) [
  | inl same ↦ rw (same, ← (str_eq_iff from to).0 same) (here, refl)
  | inr other ↦ rw other (
      finish-Decides adj from to (search_loop fuel adj to (start from))
        (loop-Exhausts adj us from to fuel (start from) (start from).queue k refl
          (start-IsClosed adj from)
          (unfold contains in ground (arith, str_eq_iff to from, str_eq_iff from to))
          (unfold contains in ground (arith, str_eq_refl from))
          (omega (arith, unseen-le us (from ∷ []))))
        (search_loop-Finds fuel adj from to))
]
