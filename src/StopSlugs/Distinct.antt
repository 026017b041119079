-- ===== src/StopSlugs/Distinct.antt =====
-- internal/transit/compilable.go: the loop that looks for a free slug ends, and no slug is given twice.
use sparks_effect_api.Prelude.{
  ℕ, zero, suc, ◌+◌, ◌≤◌, List, [], ◌∷◌, ◌++◌, length, none, some, Str, codes, true, ◌≡◌, ◌≢◌, refl,
  ap, sym, subst, contains, contains-In, In-contains, In, NoRepeat, Within, NoRepeat-length,
  Bool-cases, Option-cases, inl, inr, arith, str_Eq,
}
use sparks_effect_api.StopSlugs.{numbered, free_slug, stop_slugs_from, stop_slugs}

append_left_cancel : (s t u : Str) → s ++ t ≡ s ++ u → t ≡ u
append_left_cancel [] t u h = h
append_left_cancel (c ∷ s) t u h = append_left_cancel s t u (cc)

append_self : (s t : Str) (c : ℕ) → s ≢ s ++ c ∷ t
append_self [] t c h = cc
append_self (d ∷ s) t c h = append_self s t c (cc)

-- Different numbers print differently.
module _ (print : ℕ → Str) (slugify : Str → Str)
    (print_injective : (m n : ℕ) → print m ≡ print n → m ≡ n) where
  numbered_injective :
      (base : Str) (m n : ℕ) → numbered print slugify base m ≡ numbered print slugify base n → m ≡ n
  unfolding numbered
  numbered_injective base m n h = print_injective m n (
      let e : ◌≡◌ {A = Str} (b'-' ∷ print m) (b'-' ∷ print n) =
        append_left_cancel base (b'-' ∷ print m) (b'-' ∷ print n) h in
      cc)

  -- The slugs with the numbers from `n` on, `k` of them.
  candidates : Str → ℕ → ℕ → List Str
  candidates base zero n = []
  candidates base (suc k) n = numbered print slugify base n ∷ candidates base k (n + 1)

  length-candidates : (base : Str) (k n : ℕ) → length (candidates base k n) ≡ k
  unfolding candidates
  length-candidates base zero n = refl
  length-candidates base (suc k) n = ap suc (length-candidates base k (n + 1))

  later_number :
      (base : Str) (k n : ℕ) (s : Str)
      → In s (candidates base k n)
      → (m : ℕ) × (n ≤ m) × (s ≡ numbered print slugify base m)
  unfolding candidates
  later_number base zero n s i = absurd i
  later_number base (suc k) n s (inl e) = (n, omega arith, e)
  later_number base (suc k) n s (inr i) =
      let (m, le, e) = later_number base k (n + 1) s i in (m, omega arith, e)

  candidates-NoRepeat : (base : Str) (k n : ℕ) → NoRepeat (candidates base k n)
  unfolding candidates
  candidates-NoRepeat base zero n = tt
  candidates-NoRepeat base (suc k) n = (
    λ i.
        let (m, le, e) = later_number base k (n + 1) (numbered print slugify base n) i in
        let same : n ≡ m = numbered_injective base n m e in absurd (omega arith),
    candidates-NoRepeat base k (n + 1),
  )

  base-not_candidate : (base : Str) (k n : ℕ) → ¬ In base (candidates base k n)
  unfolding numbered
  base-not_candidate base k n i =
      let (m, _, e) = later_number base k n base i in append_self base (print m) b'-' e

  -- The search fails only when every slug that it tried is taken.
  all_taken :
      (rounds : ℕ) (taken : List Str) (base : Str) (n : ℕ) (slug : Str)
      → free_slug print slugify (suc rounds) taken base n slug ≡ none
      → (contains taken slug ≡ true)
        × (free_slug print slugify rounds taken base (n + 1) (numbered print slugify base n) ≡ none)
  unfolding free_slug
  all_taken rounds taken base n slug h = elim (Bool-cases (contains taken slug)) [
    | inl held ↦ (held, rw (free_slug, held) at h)
    | inr open_slug ↦ let z : some slug ≡ none = rw (free_slug, open_slug) at h in absurd (cc)
  ]

  free_slug-none :
      (rounds : ℕ) (taken : List Str) (base : Str) (n : ℕ) (slug : Str)
      → free_slug print slugify (suc rounds) taken base n slug ≡ none
      → Within (slug ∷ candidates base rounds n) taken
  unfolding candidates
  free_slug-none zero taken base n slug h z (inl e) =
      subst (λ s. In s taken) (sym e)
        (contains-In taken slug (all_taken zero taken base n slug h).0)
  free_slug-none zero taken base n slug h z (inr i) = absurd i
  free_slug-none (suc rounds) taken base n slug h z (inl e) =
      subst (λ s. In s taken) (sym e)
        (contains-In taken slug (all_taken (suc rounds) taken base n slug h).0)
  free_slug-none (suc rounds) taken base n slug h z (inr i) =
      free_slug-none rounds taken base (n + 1) (numbered print slugify base n)
        (all_taken (suc rounds) taken base n slug h).1 z i

  -- With a round for each taken slug and one more, a slug is found.
  free_slug-found :
      (taken : List Str) (base : Str)
      → (free : Str) × (free_slug print slugify (length taken + 1) taken base 2 base ≡ some free)
  free_slug-found taken base =
      elim (Option-cases (free_slug print slugify (length taken + 1) taken base 2 base)) [
        | inr found ↦ found
        | inl missing ↦
            let k = length taken in
            let z : free_slug print slugify (suc k) taken base 2 base ≡ none =
              subst (λ r. free_slug print slugify r taken base 2 base ≡ none) (omega arith)
                missing in
            let within = free_slug-none k taken base 2 base z in
            let once : NoRepeat (base ∷ candidates base k 2) =
              (base-not_candidate base k 2, candidates-NoRepeat base k 2) in
            let too_many = NoRepeat-length (base ∷ candidates base k 2) taken once within in
            absurd (omega (arith, length-candidates base k 2))
      ]

  free_slug-some :
      (rounds : ℕ) (taken : List Str) (base : Str) (n : ℕ) (slug free : Str)
      → free_slug print slugify rounds taken base n slug ≡ some free
      → ¬ In free taken
  unfolding free_slug
  free_slug-some zero taken base n slug free h = cc
  free_slug-some (suc rounds) taken base n slug free h = elim (Bool-cases (contains taken slug)) [
    | inl held ↦
        free_slug-some rounds taken base (n + 1) (numbered print slugify base n) free
          (rw (free_slug, held) at h)
    | inr open_slug ↦ λ i.
        let same : some slug ≡ some free = rw (free_slug, open_slug) at h in
        let e : slug ≡ free = cc in
        let held : contains taken slug ≡ true = rw e (In-contains taken free i) in cc
  ]

  abbrev Apart : List Str → List Str → Type 0
  Apart slugs taken = (s : Str) → In s slugs → ¬ In s taken

  stop_slugs_from-some :
      (slug : Str) (taken names : List Str)
      → (slugs : List Str) × (stop_slugs_from print slugify slug taken names ≡ some slugs)
        × (length slugs ≡ length names)
        × NoRepeat slugs
        × Apart slugs taken
  unfolding stop_slugs_from
  stop_slugs_from-some slug taken [] = ([], refl, refl, tt, λ s i. absurd i)
  stop_slugs_from-some slug taken (name ∷ names) =
      let base = slug ++ codes "--" ++ slugify name in
      let (free, found) = free_slug-found taken base in
      let (slugs, rest, long, once, apart) = stop_slugs_from-some slug (free ∷ taken) names in
      (
        free ∷ slugs,
        rw (stop_slugs_from, found, rest) refl,
        ap suc long,
        (λ i. apart free i (inl refl), once),
        λ s i. elim i [
          | inl e ↦
              subst (λ t. ¬ In t taken) (sym e)
                (free_slug-some (length taken + 1) taken base 2 base free found)
          | inr j ↦ λ k. apart s j (inr k)
        ],
      )

  -- The slugs of a service's stops are found, one for each stop, and no two of them are the same.
  pub stop_slugs-NoRepeat :
      (slug : Str) (names : List Str)
      → (slugs : List Str) × (stop_slugs print slugify slug names ≡ some slugs)
        × (length slugs ≡ length names)
        × NoRepeat slugs
  unfolding stop_slugs
  stop_slugs-NoRepeat slug names =
      let (slugs, found, long, once, _) = stop_slugs_from-some slug [] names in
      (slugs, found, long, once)
