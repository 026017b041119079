-- ===== src/Slugs/Accepted.antt =====
-- internal/route/slug.go: Slugify gives a slug that is accepted, and leaves such a slug alone.
use sparks_effect_api.Prelude.{
  ℕ, List, [], ◌∷◌, Str, Bool, true, false, ◌&&◌, nat_eq, nat_eq_iff, sym, subst, str_Eq, str_eq,
  split_on, prepend, ◌≡◌, ◌⊎◌, refl, ap, ◌∙◌, Bool-cases, inl, inr, arith,
}
use sparks_effect_api.Slugs.{
  is_slug_rune, slug_loop, slugify, all_slug_runes, all_parts, is_valid_slug,
}

-- The parts of a text that goes on a part.
tail_parts : List Str → Bool
tail_parts [] = true
tail_parts (p ∷ ps) = all_slug_runes p && all_parts ps

all_parts-prepend :
    (r : ℕ) (ps : List Str) → all_parts (prepend r ps) ≡ (is_slug_rune r && tail_parts ps)
unfolding all_parts prepend tail_parts all_slug_runes
all_parts-prepend r [] = ground arith
all_parts-prepend r (p ∷ ps) = ground arith

tail_parts-prepend :
    (r : ℕ) (ps : List Str) → tail_parts (prepend r ps) ≡ (is_slug_rune r && tail_parts ps)
unfolding all_parts prepend tail_parts all_slug_runes
tail_parts-prepend r [] = ground arith
tail_parts-prepend r (p ∷ ps) = ground arith

not_hyphen : (r : ℕ) → is_slug_rune r ≡ true → nat_eq r b'-' ≡ false
unfolding is_slug_rune
not_hyphen r h = ground arith

split_on-slug :
    (r : ℕ) (s : Str) → is_slug_rune r ≡ true → split_on b'-' (r ∷ s) ≡ prepend r (split_on b'-' s)
unfolding split_on
split_on-slug r s h = rw (not_hyphen r h) refl

split_on-hyphen : (s : Str) → split_on b'-' (b'-' ∷ s) ≡ [] ∷ split_on b'-' s
unfolding split_on
split_on-hyphen s = refl

all_parts-slug :
    (r : ℕ) (s : Str)
    → is_slug_rune r ≡ true
    → all_parts (split_on b'-' (r ∷ s)) ≡ tail_parts (split_on b'-' s)
all_parts-slug r s h =
    ap all_parts (split_on-slug r s h) ∙ all_parts-prepend r (split_on b'-' s) ∙ rw h refl

tail_parts-slug :
    (r : ℕ) (s : Str)
    → is_slug_rune r ≡ true
    → tail_parts (split_on b'-' (r ∷ s)) ≡ tail_parts (split_on b'-' s)
tail_parts-slug r s h =
    ap tail_parts (split_on-slug r s h) ∙ tail_parts-prepend r (split_on b'-' s) ∙ rw h refl

tail_parts-hyphen : (s : Str) → tail_parts (split_on b'-' (b'-' ∷ s)) ≡ all_parts (split_on b'-' s)
unfolding tail_parts all_slug_runes
tail_parts-hyphen s = ap tail_parts (split_on-hyphen s)

slug_loop-tail :
    (rs : List ℕ) (pending : Bool) → tail_parts (split_on b'-' (slug_loop rs pending true)) ≡ true
unfolding slug_loop
slug_loop-tail [] pending = unfold split_on tail_parts all_parts all_slug_runes in refl
slug_loop-tail (r ∷ rs) pending = elim (Bool-cases (is_slug_rune r)) [
  | inr other ↦ rw (slug_loop, other) (slug_loop-tail rs true)
  | inl slug ↦ elim (Bool-cases pending) [
    | inl held ↦
        rw (slug_loop, slug, held)
          (tail_parts-hyphen (r ∷ slug_loop rs false true)
            ∙ all_parts-slug r (slug_loop rs false true) slug
            ∙ slug_loop-tail rs false)
    | inr free ↦
        rw (slug_loop, slug, free)
          (tail_parts-slug r (slug_loop rs false true) slug ∙ slug_loop-tail rs false)
  ]
]

-- Before anything is written, nothing comes out or an accepted slug does.
slug_loop-valid :
    (rs : List ℕ) (pending : Bool)
    → (slug_loop rs pending false ≡ []) ⊎ (is_valid_slug (slug_loop rs pending false) ≡ true)
unfolding slug_loop
slug_loop-valid [] pending = inl refl
slug_loop-valid (r ∷ rs) pending = elim (Bool-cases (is_slug_rune r)) [
  | inr other ↦ rw (slug_loop, other) (slug_loop-valid rs true)
  | inl slug ↦
      let z : is_valid_slug (r ∷ slug_loop rs false true) ≡ true =
        unfold is_valid_slug str_eq in
        (all_parts-slug r (slug_loop rs false true) slug ∙ slug_loop-tail rs false) in
      elim (Bool-cases pending) [
        | inl held ↦ rw (slug_loop, slug, held) (inr z)
        | inr free ↦ rw (slug_loop, slug, free) (inr z)
      ]
]

split_on-other :
    (r : ℕ) (s : Str) → nat_eq r b'-' ≡ false → split_on b'-' (r ∷ s) ≡ prepend r (split_on b'-' s)
unfolding split_on
split_on-other r s h = rw h refl

no_blank : (ps : List Str) → ¬ (all_parts ([] ∷ ps) ≡ true)
unfolding all_parts
no_blank ps h = cc

head_slug :
    (r : ℕ) (s : Str)
    → all_parts (split_on b'-' (r ∷ s)) ≡ true
    → (is_slug_rune r ≡ true) × (tail_parts (split_on b'-' s) ≡ true)
head_slug r s h = elim (Bool-cases (nat_eq r b'-')) [
  | inl hyphen ↦
      let e : r ≡ b'-' = (nat_eq_iff r b'-').0 hyphen in
      let z : all_parts ([] ∷ split_on b'-' s) ≡ true = rw (e, split_on-hyphen s) at h in
      absurd (no_blank (split_on b'-' s) z)
  | inr other ↦
      let z : (is_slug_rune r && tail_parts (split_on b'-' s)) ≡ true =
        rw (split_on-other r s other, all_parts-prepend) at h in
      ground arith
]

nothing_left : (pending started : Bool) → slug_loop [] pending started ≡ []
unfolding slug_loop
nothing_left pending started = refl

blank_parts : ¬ (all_parts (split_on b'-' []) ≡ true)
unfolding split_on all_parts
blank_parts h = cc

slug_step :
    (r : ℕ) (s : Str) (started : Bool)
    → is_slug_rune r ≡ true
    → slug_loop (r ∷ s) false started ≡ r ∷ slug_loop s false true
unfolding slug_loop
slug_step r s started h = rw (slug_loop, h) refl

held_step :
    (r : ℕ) (s : Str)
    → is_slug_rune r ≡ true
    → slug_loop (r ∷ s) true true ≡ b'-' ∷ r ∷ slug_loop s false true
unfolding slug_loop
held_step r s h = rw (slug_loop, h) refl

hyphen_step : (r : ℕ) (s : Str) → r ≡ b'-' → slug_loop (r ∷ s) false true ≡ slug_loop s true true
unfolding slug_loop
hyphen_step r s e =
    let other : is_slug_rune r ≡ false = unfold is_slug_rune in ground arith in
    rw (slug_loop, other) refl

hyphen_rest :
    (r : ℕ) (s : Str)
    → r ≡ b'-'
    → tail_parts (split_on b'-' (r ∷ s)) ≡ true
    → all_parts (split_on b'-' s) ≡ true
hyphen_rest r s e h =
    sym (tail_parts-hyphen s) ∙ subst (λ c. tail_parts (split_on b'-' (c ∷ s)) ≡ true) e h

other_rest :
    (r : ℕ) (s : Str)
    → nat_eq r b'-' ≡ false
    → tail_parts (split_on b'-' (r ∷ s)) ≡ true
    → (is_slug_rune r ≡ true) × (tail_parts (split_on b'-' s) ≡ true)
other_rest r s other h =
    let z : (is_slug_rune r && tail_parts (split_on b'-' s)) ≡ true =
      rw (split_on-other r s other, tail_parts-prepend) at h in
    ground arith

-- An accepted slug is written as it is.
mutual
  slug_loop_tail_same : (s : Str) → tail_parts (split_on b'-' s) ≡ true → slug_loop s false true ≡ s
  slug_loop_tail_same [] h = nothing_left false true
  slug_loop_tail_same (r ∷ s) h = elim (Bool-cases (nat_eq r b'-')) [
    | inl hyphen ↦
        let e : r ≡ b'-' = (nat_eq_iff r b'-').0 hyphen in
        hyphen_step r s e ∙ slug_loop_pending_same s (hyphen_rest r s e h) ∙ ap (λ c. c ∷ s) (sym e)
    | inr other ↦
        let (slug, rest) = other_rest r s other h in
        slug_step r s true slug ∙ ap (λ t. r ∷ t) (slug_loop_tail_same s rest)
  ]

  slug_loop_pending_same :
      (s : Str) → all_parts (split_on b'-' s) ≡ true → slug_loop s true true ≡ b'-' ∷ s
  slug_loop_pending_same [] h = absurd (blank_parts h)
  slug_loop_pending_same (r ∷ s) h =
      let (slug, rest) = head_slug r s h in
      held_step r s slug ∙ ap (λ t. b'-' ∷ r ∷ t) (slug_loop_tail_same s rest)

slug_loop_same : (s : Str) → is_valid_slug s ≡ true → slug_loop s false false ≡ s
unfolding is_valid_slug
slug_loop_same [] h = nothing_left false false
slug_loop_same (r ∷ s) h =
    let (slug, rest) = head_slug r s (unfold str_eq in h) in
    slug_step r s false slug ∙ ap (λ t. r ∷ t) (slug_loop_tail_same s rest)

-- Slugify gives nothing, or a slug that is accepted; and an accepted slug that ToLower leaves alone is
-- its own slug.
pub slugify-valid :
    (lower : Str → List ℕ) (name : Str)
    → ((slugify lower name ≡ []) ⊎ (is_valid_slug (slugify lower name) ≡ true))
      × (is_valid_slug name ≡ true → lower name ≡ name → slugify lower name ≡ name)
unfolding slugify
slugify-valid lower name =
    (slug_loop-valid (lower name) false, λ valid same. rw same (slug_loop_same name valid))
