-- ===== src/Publications/Ordered.antt =====
-- internal/persistence/postgres/publication.go: the order of the index.
use mathlib.Core.List.{Perm}
use mathlib.Core.List.Perm
use sparks_effect_api.Prelude.{
  suc, length, List, [], ◌∷◌, ◌++◌, some, Str, Bool, true, false, ◌≡◌, ◌≢◌, refl, sym, Bool-cases,
  inl, inr, arith, All, delete_where, ◌∙◌, ap, All-In, In-append_right,
}
use sparks_effect_api.Publications.{Listed, key_of, is_before, place, order_rows, after_key}

-- The order of text is strict and total.
pub record IsOrder (slug_before : Str → Str → Bool) : Type 0 where
  pub irreflexive : (s : Str) → slug_before s s ≡ false
  pub transitive :
      (s t u : Str) → slug_before s t ≡ true → slug_before t u ≡ true → slug_before s u ≡ true
  pub total : (s t : Str) → s ≢ t → slug_before s t ≡ false → slug_before t s ≡ true

-- Slugs are unique.
abbrev pub AreDistinct : List Listed → Type 0
AreDistinct [] = Unit
AreDistinct (x ∷ xs) = All (λ (y : Listed). x.slug ≢ y.slug) xs × AreDistinct xs

module _ (slug_before : Str → Str → Bool) where
  place-Perm : (x : Listed) (ys : List Listed) → Perm (place slug_before x ys) (x ∷ ys)
  unfolding place
  place-Perm x [] = Perm.refl (x ∷ [])
  place-Perm x (y ∷ ys) = elim (Bool-cases (is_before slug_before (key_of x) (key_of y))) [
    | inl first ↦ rw (place, first) (Perm.refl (x ∷ y ∷ ys))
    | inr later ↦ rw (place, later) (Perm.trans (Perm.cons y (place-Perm x ys)) (Perm.swap x y ys))
  ]

  pub order_rows-Perm : (xs : List Listed) → Perm (order_rows slug_before xs) xs
  unfolding order_rows
  order_rows-Perm [] = Perm.refl []
  order_rows-Perm (x ∷ xs) =
      Perm.trans (place-Perm x (order_rows slug_before xs)) (Perm.cons x (order_rows-Perm xs))

  length-place : (x : Listed) (ys : List Listed) → length (place slug_before x ys) ≡ suc (length ys)
  unfolding place
  length-place x [] = refl
  length-place x (y ∷ ys) = elim (Bool-cases (is_before slug_before (key_of x) (key_of y))) [
    | inl first ↦ rw (place, first) refl
    | inr later ↦ rw (place, later) (omega (arith, length-place x ys))
  ]

  pub length-order_rows : (xs : List Listed) → length (order_rows slug_before xs) ≡ length xs
  unfolding order_rows
  length-order_rows [] = refl
  length-order_rows (x ∷ xs) =
      omega (arith, length-place x (order_rows slug_before xs), length-order_rows xs)

module _ (slug_before : Str → Str → Bool) (order : IsOrder slug_before) where
  abbrev pub Before : Listed → Listed → Type 0
  Before x y = is_before slug_before (key_of x) (key_of y) ≡ true

  abbrev pub IsSorted : List Listed → Type 0
  IsSorted [] = Unit
  IsSorted (x ∷ xs) = All (Before x) xs × IsSorted xs

  Before-irreflexive : (x : Listed) → is_before slug_before (key_of x) (key_of x) ≡ false
  unfolding is_before key_of
  Before-irreflexive x = ground (arith, order.irreflexive x.slug)

  Before-trans : (x y z : Listed) → Before x y → Before y z → Before x z
  unfolding is_before key_of
  Before-trans x y z p q = ground (arith, order.transitive x.slug y.slug z.slug)

  pub Before-asym :
      (x y : Listed) → Before x y → is_before slug_before (key_of y) (key_of x) ≡ false
  Before-asym x y p = elim (Bool-cases (is_before slug_before (key_of y) (key_of x))) [
    | inr off ↦ off
    | inl back ↦
        let loop : Before x x = Before-trans x y x p back in
        let z : true ≡ false = sym loop ∙ Before-irreflexive x in absurd (cc)
  ]

  Before-total :
      (x y : Listed)
      → x.slug ≢ y.slug
      → is_before slug_before (key_of x) (key_of y) ≡ false
      → Before y x
  unfolding is_before key_of
  Before-total x y apart off = ground (arith, order.total x.slug y.slug apart)

  All-Before :
      (x y : Listed) (ys : List Listed) → Before x y → All (Before y) ys → All (Before x) ys
  All-Before x y [] p h = tt
  All-Before x y (z ∷ ys) p h = (Before-trans x y z p h.0, All-Before x y ys p h.1)

  All-place :
      (P : Listed → Type 0) (x : Listed) (ys : List Listed)
      → P x
      → All P ys
      → All P (place slug_before x ys)
  unfolding place
  All-place P x [] p h = (p, tt)
  All-place P x (y ∷ ys) p h = elim (Bool-cases (is_before slug_before (key_of x) (key_of y))) [
    | inl first ↦ rw (place, first) (p, h)
    | inr later ↦ rw (place, later) (h.0, All-place P x ys p h.1)
  ]

  place-IsSorted :
      (x : Listed) (ys : List Listed)
      → All (λ (y : Listed). x.slug ≢ y.slug) ys
      → IsSorted ys
      → IsSorted (place slug_before x ys)
  unfolding place
  place-IsSorted x [] apart s = (tt, tt)
  place-IsSorted x (y ∷ ys) apart s =
      elim (Bool-cases (is_before slug_before (key_of x) (key_of y))) [
        | inl first ↦ rw (place, first) ((first, All-Before x y ys first s.0), s)
        | inr later ↦
            rw (place, later)
              (
                All-place (Before y) x ys (Before-total x y apart.0 later) s.0,
                place-IsSorted x ys apart.1 s.1,
              )
      ]

  All-order_rows :
      (P : Listed → Type 0) (xs : List Listed) → All P xs → All P (order_rows slug_before xs)
  unfolding order_rows
  All-order_rows P [] h = tt
  All-order_rows P (x ∷ xs) h =
      All-place P x (order_rows slug_before xs) h.0 (All-order_rows P xs h.1)

  pub order_rows-IsSorted :
      (xs : List Listed) → AreDistinct xs → IsSorted (order_rows slug_before xs)
  unfolding order_rows
  order_rows-IsSorted [] d = tt
  order_rows-IsSorted (x ∷ xs) d =
      place-IsSorted x (order_rows slug_before xs)
        (All-order_rows (λ (y : Listed). x.slug ≢ y.slug) xs d.0) (order_rows-IsSorted xs d.1)

  -- In a sorted list the rows after one of them are those behind it.
  keep_all :
      (z : Listed) (ws : List Listed)
      → All (Before z) ws
      → after_key slug_before (some (key_of z)) ws ≡ ws
  unfolding after_key delete_where
  keep_all z [] h = refl
  keep_all z (w ∷ ws) h = rw h.0 (ap (λ r. w ∷ r) (keep_all z ws h.1))

  pub after_key-sorted :
      (xs : List Listed) (z : Listed) (ws : List Listed)
      → IsSorted (xs ++ z ∷ ws)
      → after_key slug_before (some (key_of z)) (xs ++ z ∷ ws) ≡ ws
  unfolding after_key delete_where
  after_key-sorted [] z ws s = rw (Before-irreflexive z) (keep_all z ws s.0)
  after_key-sorted (x ∷ xs) z ws s =
      rw
        (Before-asym x z
          (All-In (Before x) (xs ++ z ∷ ws) z s.0 (In-append_right z xs (z ∷ ws) (inl refl))))
        (after_key-sorted xs z ws s.1)
