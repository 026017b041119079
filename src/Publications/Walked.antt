-- ===== src/Publications/Walked.antt =====
-- internal/persistence/postgres/publication.go: reading the index page by page.
use sparks_effect_api.Prelude.{
  ℕ, zero, suc, ◌+◌, ◌<◌, List, [], ◌∷◌, ◌++◌, map, length, length-append, take, Option, none, some,
  Str, Bool, false, nat_Eq, ◌==◌, ◌≡◌, refl, sym, ap, subst, ◌∙◌, arith,
}
use mathlib.Core.List.{append_assoc, map-append}
use sparks_effect_api.Publications.{
  PublishedIndexKey, Listed, Page, PublishedServiceSummary, key_of, summary, order_rows, after_key,
  collect, list_published, walk,
}
use sparks_effect_api.Publications.Index.{items_of, IsIndex, order_rows-IsIndex}
use sparks_effect_api.Publications.Ordered.{
  IsOrder, IsSorted, AreDistinct, order_rows-IsSorted, length-order_rows, after_key-sorted,
}

module _ (slug_before : Str → Str → Bool) where
  -- A page is cut short only when more rows are left: then its last row is its cursor.
  pub data Cut (room : ℕ) (ys : List Listed) (page : Page) : Type 0 where
    all_fit : page.items ≡ map summary ys → page.next ≡ none → Cut room ys page
    cut :
        (zs : List Listed) (z : Listed) (ws : List Listed)
        → ys ≡ zs ++ z ∷ ws
        → page.items ≡ map summary (zs ++ z ∷ [])
        → page.next ≡ some (key_of z)
        → Cut room ys page

  Cut-later :
      (room : ℕ) (y : Listed) (ys : List Listed) (page : Page)
      → Cut room ys page
      → Cut (suc room) (y ∷ ys) (record page { items = summary y ∷ page.items })
  Cut-later room y ys page (all_fit e n) = all_fit (ap (λ r. summary y ∷ r) e) n
  Cut-later room y ys page (cut zs z ws e i n) =
      cut (y ∷ zs) z ws (ap (λ r. y ∷ r) e) (ap (λ r. summary y ∷ r) i) n

  -- The rows read are one more than fit.
  collect-Cut :
      (room : ℕ) (last : PublishedIndexKey) (ys : List Listed)
      → Cut (suc room) ys (collect slug_before (suc room) last (take (suc (suc room)) ys))
  unfolding collect
  collect-Cut room last [] = all_fit refl refl
  collect-Cut zero last (y ∷ []) = all_fit refl refl
  collect-Cut zero last (y ∷ x ∷ ys) = cut [] y (x ∷ ys) refl refl refl
  collect-Cut (suc room) last (y ∷ ys) =
      Cut-later (suc room) y ys
        (collect slug_before (suc room) (key_of y) (take (suc (suc room)) ys))
        (collect-Cut room (key_of y) ys)

  module _ (order : IsOrder slug_before) (rows : List Listed) (distinct : AreDistinct rows) where
    page-Cut :
        (room : ℕ) (after : Option PublishedIndexKey) (ys : List Listed)
        → after_key slug_before after (order_rows slug_before rows) ≡ ys
        → Cut (suc room) ys (list_published slug_before after (suc room) rows)
    unfolding list_published
    page-Cut room after ys found =
        let on : (suc room == 0) ≡ false = ground arith in
        let more : suc room + 1 ≡ suc (suc room) = omega arith in
        let zero_key : PublishedIndexKey = record { first_published_at = 0; slug = [] } in
        let e : list_published slug_before after (suc room) rows
            ≡ collect slug_before (suc room) zero_key (take (suc (suc room)) ys) =
          rw (list_published, on, found, more) refl in
        subst (Cut (suc room) ys) (sym e) (collect-Cut room zero_key ys)

    walk-last :
        (requests room : ℕ) (after : Option PublishedIndexKey)
        → (list_published slug_before after (suc room) rows).next ≡ none
        → walk slug_before (suc requests) after (suc room) rows
          ≡ some (list_published slug_before after (suc room) rows).items
    unfolding walk
    walk-last requests room after n = rw (walk, n) refl

    walk-next :
        (requests room : ℕ) (after : Option PublishedIndexKey) (k : PublishedIndexKey)
        (more : List PublishedServiceSummary)
        → (list_published slug_before after (suc room) rows).next ≡ some k
        → walk slug_before requests (some k) (suc room) rows ≡ some more
        → walk slug_before (suc requests) after (suc room) rows
          ≡ some ((list_published slug_before after (suc room) rows).items ++ more)
    unfolding walk
    walk-next requests room after k more n rest = rw (walk, n, rest) refl

    -- The rest of the index behind a cursor, read page by page.
    walk-rest :
        (requests room : ℕ) (after : Option PublishedIndexKey) (pre ys : List Listed)
        → order_rows slug_before rows ≡ pre ++ ys
        → after_key slug_before after (order_rows slug_before rows) ≡ ys
        → length ys < requests
        → walk slug_before requests after (suc room) rows ≡ some (map summary ys)
    walk-rest zero room after pre ys split found enough = absurd (omega arith)
    walk-rest (suc requests) room after pre ys split found enough =
        elim (page-Cut room after ys found) [
          | all_fit e n ↦ walk-last requests room after n ∙ ap some e
          | cut zs z ws e i n ↦
              let whole : order_rows slug_before rows ≡ (pre ++ zs) ++ z ∷ ws =
                split ∙ ap (λ r. pre ++ r) e ∙ sym (append_assoc pre zs (z ∷ ws)) in
              let sorted : IsSorted slug_before order ((pre ++ zs) ++ z ∷ ws) =
                subst (IsSorted slug_before order) whole
                  (order_rows-IsSorted slug_before order rows distinct) in
              let behind : after_key slug_before (some (key_of z)) (order_rows slug_before rows)
                  ≡ ws =
                ap (after_key slug_before (some (key_of z))) whole
                ∙ after_key-sorted slug_before order (pre ++ zs) z ws sorted in
              let again : order_rows slug_before rows ≡ ((pre ++ zs) ++ z ∷ []) ++ ws =
                whole ∙ sym (append_assoc (pre ++ zs) (z ∷ []) ws) in
              let fewer : length ws < requests =
                omega (arith, ap length e, length-append zs (z ∷ ws), enough) in
              let rest =
                walk-rest requests room (some (key_of z)) ((pre ++ zs) ++ z ∷ []) ws again behind
                  fewer in
              walk-next requests room after (key_of z) (map summary ws) n rest
              ∙ ap (λ r. some (r ++ map summary ws)) i
              ∙ ap some (sym (map-append summary (zs ++ z ∷ []) ws))
              ∙ ap (λ r. some (map summary r)) (append_assoc zs (z ∷ []) ws ∙ sym e)
        ]

    -- A client that reads the index page by page, with any limit above 0 and each cursor that it is
    -- given, gets the item of every row once, by the time of the first publish, the latest first,
    -- and then by slug; it needs no more requests than there are rows, and one. A request for
    -- everything gets the same items. The order of slugs is strict and total, and slugs are unique.
    pub walk-all :
        (room : ℕ)
        → (index : List Listed) × IsIndex slug_before rows index
          × (walk slug_before (length rows + 1) none (suc room) rows ≡ some (items_of index))
          × (list_published slug_before none 0 rows
              ≡ record { items = items_of index; next = none })
    unfolding list_published after_key summary
    walk-all room =
        let index = order_rows slug_before rows in
        (
          index,
          order_rows-IsIndex slug_before order rows distinct,
          walk-rest (length rows + 1) room none [] index refl refl
              (omega (arith, length-order_rows slug_before rows)),
          refl,
        )
