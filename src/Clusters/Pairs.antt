-- ===== src/Clusters/Pairs.antt =====
-- The declared interchanges that pass.
use sparks_effect_api.Prelude.{
  ℕ, suc, List, [], ◌∷◌, true, ◌&&◌, ◌==◌, str_Eq, str_eq_iff, str_eq_refl, ok, err-eq-ok, ◌≡◌, ◌≢◌,
  refl, sym, ◌↔◌, inl, inr, All, In, Bool-cases, arith,
}
use sparks_effect_api.Clusters.{
  StopIdentity, InterchangePair, same_service, unknown_stop, is_known, check_pairs,
  validate_interchange_pairs,
}

is_known-In : (ks : List StopIdentity) (s : StopIdentity) → is_known ks s ≡ true → In s ks
unfolding is_known
is_known-In [] s h = cc
is_known-In (k ∷ ks) s h = elim (Bool-cases (s.service_id == k.service_id && s.slug == k.slug)) [
  | inl hit ↦
      let service : s.service_id ≡ k.service_id =
        (str_eq_iff s.service_id k.service_id).0 (ground arith) in
      let slug : s.slug ≡ k.slug = (str_eq_iff s.slug k.slug).0 (ground arith) in inl cc
  | inr miss ↦ inr (is_known-In ks s (ground arith))
]

In-is_known : (ks : List StopIdentity) (s : StopIdentity) → In s ks → is_known ks s ≡ true
unfolding is_known
In-is_known [] s m = absurd m
In-is_known (k ∷ ks) s (inl p) = rw (sym p) (rw (str_eq_refl s.service_id, str_eq_refl s.slug) refl)
In-is_known (k ∷ ks) s (inr m) = let rest = In-is_known ks s m in ground arith

-- Two stops of different services, both in the compile.
pub record IsPair (known : List StopIdentity) (p : InterchangePair) : Type 0 where
  pub apart : p.a.service_id ≢ p.b.service_id
  pub left : In p.a known
  pub right : In p.b known

check_pairs-IsPair :
    (known : List StopIdentity) (i : ℕ) (ps : List InterchangePair)
    → check_pairs known i ps ≡ ok tt
    → All (IsPair known) ps
unfolding check_pairs
check_pairs-IsPair known i [] h = tt
check_pairs-IsPair known i (p ∷ ps) h = elim (Bool-cases (p.a.service_id == p.b.service_id)) [
  | inl same ↦ err-eq-ok (same_service i p.a.service_id) tt (rw (same, check_pairs) at h)
  | inr apart ↦ elim (Bool-cases (is_known known p.a)) [
    | inr gone ↦ err-eq-ok (unknown_stop i p.a) tt (rw gone at (rw (apart, check_pairs) at h))
    | inl left ↦ elim (Bool-cases (is_known known p.b)) [
      | inr gone ↦
          err-eq-ok (unknown_stop i p.b) tt (rw gone at (rw left at (rw (apart, check_pairs) at h)))
      | inl right ↦ (
        record {
          apart = λ e. let y = (str_eq_iff p.a.service_id p.b.service_id).1 e in cc;
          left = is_known-In known p.a left;
          right = is_known-In known p.b right;
        },
        check_pairs-IsPair known (suc i) ps
            (rw right at (rw left at (rw (apart, check_pairs) at h))),
      )
    ]
  ]
]

IsPair-check_pairs :
    (known : List StopIdentity) (i : ℕ) (ps : List InterchangePair)
    → All (IsPair known) ps
    → check_pairs known i ps ≡ ok tt
unfolding check_pairs
IsPair-check_pairs known i [] a = refl
IsPair-check_pairs known i (p ∷ ps) a = elim (Bool-cases (p.a.service_id == p.b.service_id)) [
  | inl same ↦ absurd (a.0.apart ((str_eq_iff p.a.service_id p.b.service_id).0 same))
  | inr apart ↦
      rw (apart, In-is_known known p.a a.0.left, In-is_known known p.b a.0.right, check_pairs)
        (IsPair-check_pairs known (suc i) ps a.1)
]

-- The declared interchanges pass exactly when each joins stops of two different services, and both
-- stops are among those of the compile.
pub validate_interchange_pairs_iff :
    (known : List StopIdentity) (pairs : List InterchangePair)
    → (validate_interchange_pairs known pairs ≡ ok tt) ↔ All (IsPair known) pairs
unfolding validate_interchange_pairs
validate_interchange_pairs_iff known pairs =
    (check_pairs-IsPair known 0 pairs, IsPair-check_pairs known 0 pairs)
