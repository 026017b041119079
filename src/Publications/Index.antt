-- ===== src/Publications/Index.antt =====
-- internal/persistence/postgres/publication.go: what the index of published services is.
use mathlib.Core.List.{Perm}
use sparks_effect_api.Prelude.{
  ◌<◌, List, [], ◌∷◌, map, Str, Bool, true, ltb, ◌≡◌, ◌⊎◌, inl, inr, arith, All, All-map,
  Bool-cases,
}
use sparks_effect_api.Publications.{Listed, PublishedServiceSummary, key_of, is_before, order_rows}
use sparks_effect_api.Publications.Ordered.{
  IsOrder, IsSorted, AreDistinct, order_rows-IsSorted, order_rows-Perm,
}

-- The items of the rows, one by one.
abbrev pub items_of : List Listed → List PublishedServiceSummary
items_of = map (λ (l : Listed). record {
  slug = l.slug;
  name = l.publication.name;
  subtext = l.publication.subtext;
  description = l.publication.description;
  author_name = l.author_name;
  published_at = l.publication.published_at;
})

module _ (slug_before : Str → Str → Bool) where
  -- A row comes before another if it was first published later, or at the same time with the earlier
  -- slug.
  abbrev pub Precedes : Listed → Listed → Type 0
  Precedes x y =
      (y.publication.first_published_at < x.publication.first_published_at)
      ⊎ ((y.publication.first_published_at ≡ x.publication.first_published_at)
          × (slug_before x.slug y.slug ≡ true))

  abbrev pub InOrder : List Listed → Type 0
  InOrder [] = Unit
  InOrder (x ∷ xs) = All (Precedes x) xs × InOrder xs

  -- The index of the rows has each of them once, in order.
  pub record IsIndex (rows index : List Listed) : Type 0 where
    pub rows_once : Perm index rows
    pub in_order : InOrder index

  module _ (order : IsOrder slug_before) where
    Before-Precedes :
        (x y : Listed) → is_before slug_before (key_of x) (key_of y) ≡ true → Precedes x y
    unfolding is_before key_of
    Before-Precedes x y h =
        elim (Bool-cases (ltb y.publication.first_published_at x.publication.first_published_at)) [
          | inl earlier ↦ inl (ground arith)
          | inr not_earlier ↦ inr (ground arith, ground arith)
        ]

    IsSorted-InOrder : (xs : List Listed) → IsSorted slug_before order xs → InOrder xs
    IsSorted-InOrder [] s = tt
    IsSorted-InOrder (x ∷ xs) s = (All-map (Before-Precedes x) xs s.0, IsSorted-InOrder xs s.1)

    pub order_rows-IsIndex :
        (rows : List Listed) → AreDistinct rows → IsIndex rows (order_rows slug_before rows)
    order_rows-IsIndex rows distinct = record {
      rows_once = order_rows-Perm slug_before rows;
      in_order =
          IsSorted-InOrder (order_rows slug_before rows)
            (order_rows-IsSorted slug_before order rows distinct);
    }
