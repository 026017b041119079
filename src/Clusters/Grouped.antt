-- ===== src/Clusters/Grouped.antt =====
-- What the clusters are: each stop is in the one it is assigned to, and no cluster has two stops of
-- one service.
use sparks_effect_api.Prelude.{
  ℕ, zero, suc, List, [], ◌∷◌, ◌++◌, some, Str, Bool, true, false, str_Eq, contains, insert,
  In-contains, get_elem?, map, ◌≡◌, refl, sym, subst, ap, ◌⊎◌, inl, inr, All, All-append, In,
  In-append_left, In-append_right, NoRepeat, Within, Bool-cases, arith,
}
use sparks_effect_api.Clusters.{
  MergeStop, PendingCluster, near_anchor, joins, cluster_stop, cluster_from, cluster_stops,
}

module _ {F : Type 0} (near : MergeStop F → MergeStop F → Bool) where
  -- No service has two members, and each member but the first is near the first.
  pub record IsCluster (c : PendingCluster F) : Type 0 where
    pub apart : NoRepeat (map (λ (s : MergeStop F). s.ref.service_id) c.members)
    pub listed : Within (map (λ (s : MergeStop F). s.ref.service_id) c.members) c.services
    pub anchored :
        (anchor : MergeStop F) × (rest : List (MergeStop F)) × (c.members ≡ anchor ∷ rest)
        × All (λ s. near anchor s ≡ true) rest

  -- The clusters of the one list are in the other, at the same indices, and may have grown.
  abbrev Grown : List (PendingCluster F) → List (PendingCluster F) → Type 0
  Grown [] ds = Unit
  Grown (c ∷ cs) [] = ⊥
  Grown (c ∷ cs) (d ∷ ds) = Within c.members d.members × Grown cs ds

  -- Each stop is a member of the cluster with its number.
  abbrev pub AreAssigned : List (PendingCluster F) → List (MergeStop F) → List ℕ → Type 0
  AreAssigned clusters [] [] = Unit
  AreAssigned clusters (s ∷ ss) (i ∷ is) =
      ((c : PendingCluster F) × (get_elem? clusters i ≡ some c) × In s c.members)
      × AreAssigned clusters ss is
  AreAssigned clusters _ _ = ⊥

  Grown-refl : (cs : List (PendingCluster F)) → Grown cs cs
  Grown-refl [] = tt
  Grown-refl (c ∷ cs) = ((λ z m. m), Grown-refl cs)

  Grown-trans : (xs ys zs : List (PendingCluster F)) → Grown xs ys → Grown ys zs → Grown xs zs
  Grown-trans [] ys zs g h = tt
  Grown-trans (x ∷ xs) [] zs g h = absurd g
  Grown-trans (x ∷ xs) (y ∷ ys) [] g h = absurd h
  Grown-trans (x ∷ xs) (y ∷ ys) (z ∷ zs) g h =
      ((λ a m. h.0 a (g.0 a m)), Grown-trans xs ys zs g.1 h.1)

  Grown-get_elem :
      (cs ds : List (PendingCluster F)) (i : ℕ) (c : PendingCluster F)
      → Grown cs ds
      → get_elem? cs i ≡ some c
      → (d : PendingCluster F) × (get_elem? ds i ≡ some d) × Within c.members d.members
  Grown-get_elem [] ds i c g e = cc
  Grown-get_elem (x ∷ cs) [] i c g e = absurd g
  Grown-get_elem (x ∷ cs) (d ∷ ds) zero c g e =
      let same : x ≡ c = cc in
      (d, refl, subst (λ (y : PendingCluster F). Within y.members d.members) same g.0)
  Grown-get_elem (x ∷ cs) (d ∷ ds) (suc i) c g e = Grown-get_elem cs ds i c g.1 e

  cluster_stop-Grown :
      (s : MergeStop F) (cs : List (PendingCluster F)) → Grown cs (cluster_stop near s cs).1
  unfolding cluster_stop
  cluster_stop-Grown s [] = tt
  cluster_stop-Grown s (c ∷ cs) = elim (Bool-cases (joins near c s)) [
    | inl hit ↦ rw hit ((λ z m. In-append_left z c.members (s ∷ []) m), Grown-refl cs)
    | inr miss ↦ rw miss ((λ z m. m), cluster_stop-Grown s cs)
  ]

  cluster_stop-In :
      (s : MergeStop F) (cs : List (PendingCluster F))
      → (c : PendingCluster F) × (get_elem? (cluster_stop near s cs).1 (cluster_stop near s cs).0
          ≡ some c)
        × In s c.members
  unfolding cluster_stop
  cluster_stop-In s [] = (_, refl, inl refl)
  cluster_stop-In s (c ∷ cs) = elim (Bool-cases (joins near c s)) [
    | inl hit ↦ rw hit (_, refl, In-append_right s c.members (s ∷ []) (inl refl))
    | inr miss ↦ rw miss (cluster_stop-In s cs)
  ]

  cluster_from-Grown :
      (ss : List (MergeStop F)) (cs : List (PendingCluster F))
      → Grown cs (cluster_from near ss cs).0
  unfolding cluster_from
  cluster_from-Grown [] cs = Grown-refl cs
  cluster_from-Grown (s ∷ ss) cs =
      Grown-trans cs (cluster_stop near s cs).1 _ (cluster_stop-Grown s cs)
        (cluster_from-Grown ss (cluster_stop near s cs).1)

  cluster_from-AreAssigned :
      (ss : List (MergeStop F)) (cs : List (PendingCluster F))
      → AreAssigned (cluster_from near ss cs).0 ss (cluster_from near ss cs).1
  unfolding cluster_from
  cluster_from-AreAssigned [] cs = tt
  cluster_from-AreAssigned (s ∷ ss) cs =
      let (c, e, m) = cluster_stop-In s cs in
      let next = (cluster_stop near s cs).1 in
      let (d, f, w) =
        Grown-get_elem next (cluster_from near ss next).0 (cluster_stop near s cs).0 c
          (cluster_from-Grown ss next) e in
      ((d, f, w s m), cluster_from-AreAssigned ss next)

  -- The services of a cluster's members.
  abbrev services_of : List (MergeStop F) → List Str
  services_of = map (λ (s : MergeStop F). s.ref.service_id)

  In-snoc :
      (z : Str) (ms : List (MergeStop F)) (s : MergeStop F)
      → In z (services_of (ms ++ s ∷ []))
      → (z ≡ s.ref.service_id) ⊎ In z (services_of ms)
  In-snoc z [] s (inl p) = inl p
  In-snoc z [] s (inr m) = absurd m
  In-snoc z (x ∷ ms) s (inl p) = inr (inl p)
  In-snoc z (x ∷ ms) s (inr m) = elim (In-snoc z ms s m) [ inl p ↦ inl p | inr k ↦ inr (inr k) ]

  NoRepeat-snoc :
      (ms : List (MergeStop F)) (s : MergeStop F)
      → NoRepeat (services_of ms)
      → ¬ (In s.ref.service_id (services_of ms))
      → NoRepeat (services_of (ms ++ s ∷ []))
  NoRepeat-snoc [] s d n = ((λ m. m), tt)
  NoRepeat-snoc (x ∷ ms) s d n = (
    (λ m. elim (In-snoc x.ref.service_id ms s m) [ inl p ↦ n (inl (sym p)) | inr k ↦ d.0 k ]),
    NoRepeat-snoc ms s d.1 (λ m. n (inr m)),
  )

  joined-IsCluster :
      (c : PendingCluster F) (s : MergeStop F)
      → IsCluster c
      → joins near c s ≡ true
      → IsCluster
          (record { members = c.members ++ s ∷ []; services = insert s.ref.service_id c.services })
  unfolding joins near_anchor insert
  joined-IsCluster c s i h =
      let fresh : contains c.services s.ref.service_id ≡ false = ground arith in
      let close_by : near_anchor near c.members s ≡ true = ground arith in
      let (anchor, rest, e, a) = i.anchored in
      let at_anchor : near anchor s ≡ true =
        subst (λ ms. near_anchor near ms s ≡ true) e close_by in
      let new : ¬ (In s.ref.service_id (services_of c.members)) = λ m.
        let old = In-contains c.services s.ref.service_id (i.listed s.ref.service_id m) in cc in
      rw (fresh, insert)
        (record {
          apart = NoRepeat-snoc c.members s i.apart new;
          listed =
              λ z m. elim (In-snoc z c.members s m) [ inl p ↦ inl p | inr k ↦ inr (i.listed z k) ];
          anchored = (
            anchor,
            rest ++ s ∷ [],
            ap (λ ms. ms ++ s ∷ []) e,
            All-append (λ (x : MergeStop F). near anchor x ≡ true) rest (s ∷ []) a (at_anchor, tt),
          );
        })

  single-IsCluster :
      (s : MergeStop F)
      → IsCluster (record { members = s ∷ []; services = insert s.ref.service_id [] })
  unfolding insert contains
  single-IsCluster s = record {
    apart = ((λ m. m), tt);
    listed = λ z m. m;
    anchored = (s, [], refl, tt);
  }

  cluster_stop-All :
      (s : MergeStop F) (cs : List (PendingCluster F))
      → All IsCluster cs
      → All IsCluster (cluster_stop near s cs).1
  unfolding cluster_stop
  cluster_stop-All s [] a = (single-IsCluster s, tt)
  cluster_stop-All s (c ∷ cs) a = elim (Bool-cases (joins near c s)) [
    | inl hit ↦ rw hit (joined-IsCluster c s a.0 hit, a.1)
    | inr miss ↦ rw miss (a.0, cluster_stop-All s cs a.1)
  ]

  cluster_from-All :
      (ss : List (MergeStop F)) (cs : List (PendingCluster F))
      → All IsCluster cs
      → All IsCluster (cluster_from near ss cs).0
  unfolding cluster_from
  cluster_from-All [] cs a = a
  cluster_from-All (s ∷ ss) cs a =
      cluster_from-All ss (cluster_stop near s cs).1 (cluster_stop-All s cs a)

  -- Each stop is a member of the cluster that it is assigned to; in every cluster no service has two
  -- members, and each member but the first is near the first.
  pub cluster_stops-IsCluster :
      (stops : List (MergeStop F))
      → All IsCluster (cluster_stops near stops).0
        × AreAssigned (cluster_stops near stops).0 stops (cluster_stops near stops).1
  unfolding cluster_stops
  cluster_stops-IsCluster stops = (cluster_from-All stops [] tt, cluster_from-AreAssigned stops [])
