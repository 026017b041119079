-- ===== src/Publications.antt =====
-- internal/persistence/postgres/publication.go, internal/handler/publication.go and
-- internal/transit/publication.go: publishing the compiled graph of a service, and the index of what
-- is published, page by page.
pub mod Ordered
pub mod Index
pub mod Snapshots
pub mod Newest
pub mod Published
pub mod Reads
pub mod Requests
pub mod Drawn
pub mod Walked
use sparks_effect_api.Prelude.{
  ℕ, zero, suc, ◌+◌, List, [], ◌∷◌, ◌++◌, map, take, Option, none, some, Str, Bool, not, ◌&&◌, ◌||◌,
  ltb, nat_eq, ◌==◌, str_Eq, nat_Eq, if◌then◌else◌, delete_where,
}

-- A route by its id; the rest of its row is the list.
pub record Route : Type 0 where
  pub id : Str
  pub body : Str

pub record ServicePublication : Type 0 where
  pub user_service_id : Str
  pub compile_job_id : Str
  pub name : Str
  pub subtext : Str
  pub description : Str
  pub routes : List Route
  pub published_at : ℕ
  pub first_published_at : ℕ

pub record PublishedIndexKey : Type 0 where
  pub first_published_at : ℕ
  pub slug : Str

-- A row of the index: the publication, joined to the slug and the name of the author.
pub record Listed : Type 0 where
  pub publication : ServicePublication
  pub slug : Str
  pub author_name : Str

pub record PublishedServiceSummary : Type 0 where
  pub slug : Str
  pub name : Str
  pub subtext : Str
  pub description : Str
  pub author_name : Str
  pub published_at : ℕ

-- `PublishedIndexPage`
pub record Page : Type 0 where
  pub items : List PublishedServiceSummary
  pub next : Option PublishedIndexKey

unfoldable pub key_of : Listed → PublishedIndexKey
key_of l = record { first_published_at = l.publication.first_published_at; slug = l.slug }

unfoldable pub summary : Listed → PublishedServiceSummary
summary l = record {
  slug = l.slug;
  name = l.publication.name;
  subtext = l.publication.subtext;
  description = l.publication.description;
  author_name = l.author_name;
  published_at = l.publication.published_at;
}

-- `slug_before` is the order of text in the database.
module _ (slug_before : Str → Str → Bool) where
  -- `ORDER BY p.first_published_at DESC, s.slug`, which is also the test on the row after a cursor.
  unfoldable pub is_before : PublishedIndexKey → PublishedIndexKey → Bool
  is_before a b =
      ltb b.first_published_at a.first_published_at
      || (nat_eq b.first_published_at a.first_published_at && slug_before a.slug b.slug)

  unfoldable pub place : Listed → List Listed → List Listed
  unfolding is_before key_of
  place x [] = x ∷ []
  place x (y ∷ ys) =
      let rest = place x ys in if is_before (key_of x) (key_of y) then x ∷ y ∷ ys else y ∷ rest

  unfoldable pub order_rows : List Listed → List Listed
  unfolding place
  order_rows [] = []
  order_rows (x ∷ xs) = place x (order_rows xs)

  unfoldable pub after_key : Option PublishedIndexKey → List Listed → List Listed
  unfolding is_before key_of
  after_key none rows = rows
  after_key (some k) rows = delete_where (λ l. not (is_before k (key_of l))) rows

  -- The loop over the rows of a page with room for `room` more items.
  unfoldable pub collect : ℕ → PublishedIndexKey → List Listed → Page
  unfolding key_of summary
  collect room last [] = record { items = []; next = none }
  collect zero last (l ∷ ls) = record { items = []; next = some last }
  collect (suc room) last (l ∷ ls) =
      let rest = collect room (key_of l) ls in record rest { items = summary l ∷ rest.items }

  -- `ListPublishedServiceSummaries`; a limit of 0 reads everything.
  unfoldable pub list_published : Option PublishedIndexKey → ℕ → List Listed → Page
  unfolding order_rows after_key collect
  list_published after limit rows =
      let found = after_key after (order_rows rows) in
      if limit == 0
      then record { items = map summary found; next = none }
      else collect limit (record { first_published_at = 0; slug = [] }) (take (limit + 1) found)

  -- A client that reads page after page, on a number of requests.
  unfoldable pub walk :
      ℕ → Option PublishedIndexKey → ℕ → List Listed → Option (List PublishedServiceSummary)
  unfolding list_published
  walk zero after limit rows = none
  walk (suc requests) after limit rows =
      let page = list_published after limit rows in
      elim page.next [
        | none ↦ some page.items
        | some k ↦ elim (walk requests (some k) limit rows) [
          | none ↦ none
          | some more ↦ some (page.items ++ more)
        ]
      ]
