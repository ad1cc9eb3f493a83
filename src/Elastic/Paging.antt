-- ===== src/Elastic/Paging.antt =====
-- services/elasticsearch.go: QueryChan, which asks for one page after another and sends their rows
-- over a channel. The context is not cancelled, so that each row is taken.
use cloudvelo.Prelude.{
  ℕ, zero, suc, String, List, [], ◌∷◌, ◌++◌, Option, none, some, Bool, true, false, if◌then◌else◌,
  ltb, ◌==◌, length, Result, ok, err,
}

-- A query: its own text, the sort field with whether it ascends, the size, and the key after which
-- the page starts.
pub record PageQuery (K : Type 0) : Type 0 where
  pub query : String
  pub sort : Option (String × Bool)
  pub size : ℕ
  pub search_after : Option K

-- A leading '>' asks for the rows in descending order.
unfoldable pub sort_of : String → Option (String × Bool)
sort_of String.[] = none
sort_of (String.◌∷◌ c rest) =
    if String.◌∷◌ c "" == ">" then some (rest, false) else some (String.◌∷◌ c rest, true)

-- `sort_field` after the first query.
abbrev pub field_of : Option (String × Bool) → String
field_of none = ""
field_of (some (field, ascending)) = field

module _ {K : Type 0} where
  abbrev pub first_query : ℕ → String → String → PageQuery K
  first_query page_size query sort_field = record {
    query = query;
    sort = sort_of sort_field;
    size = page_size;
    search_after = none;
  }

  -- The later queries ascend.
  abbrev pub next_query : ℕ → String → String → K → PageQuery K
  next_query page_size query field key = record {
    query = query;
    sort = some (field, true);
    size = page_size;
    search_after = some key;
  }

-- A page and then the rows of the later pages, where these come to an end.
abbrev pub then_rows {ℓ} : {A : Type ℓ} → List A → Option (List A) → Option (List A)
then_rows part none = none
then_rows part (some rows) = some (part ++ rows)

-- The error of a later page only ends the channel.
abbrev pub page_answered {ℓ} :
    {A : Type ℓ} → List A → (List A → Option (List A)) → Result (List A) → Option (List A)
page_answered part again (err e) = some part
page_answered part again (ok next) = then_rows part (again next)

abbrev chan_rows {ℓ} : {A : Type ℓ} → Option (List A) → Option (Result (List A))
chan_rows none = none
chan_rows (some rows) = some (ok rows)

abbrev chan_started {ℓ} :
    {A : Type ℓ} → (List A → Option (List A)) → Result (List A) → Option (Result (List A))
chan_started send (err e) = some (err e)
chan_started send (ok part) = chan_rows (send part)

module _ {K A : Type 0} where
  -- The key of the last row of a page, where it has one.
  abbrev pub last_key : (A → Option K) → List A → Option K
  last_key key_of [] = none
  last_key key_of (row ∷ []) = key_of row
  last_key key_of (row ∷ next ∷ rest) = last_key key_of (next ∷ rest)

  -- After a page whose last row has this key, if any: `again` is the loop with the next page.
  abbrev pub page_keyed :
      (PageQuery K → Result (List A))
      → ℕ
      → String
      → String
      → List A
      → (List A → Option (List A))
      → Option K
      → Option (List A)
  page_keyed ask page_size query field part again none = some part
  page_keyed ask page_size query field part again (some key) =
      if ltb (length part) page_size
      then some part
      else page_answered part again (ask (next_query page_size query field key))

  -- What the loop sends, from this page on; `none` where the fuel ran out.
  unfoldable pub send_pages :
      (PageQuery K → Result (List A))
      → (A → Option K)
      → ℕ
      → String
      → String
      → ℕ
      → List A
      → Option (List A)
  send_pages ask key_of page_size query field zero part = none
  send_pages ask key_of page_size query field (suc fuel) [] = some []
  send_pages ask key_of page_size query field (suc fuel) (row ∷ rest) =
      page_keyed ask page_size query field (row ∷ rest)
        (send_pages ask key_of page_size query field fuel) (last_key key_of (row ∷ rest))

  -- The rows that the channel gives, or the error of the first query. `keys` reads a field of a row.
  unfoldable pub query_chan :
      (PageQuery K → Result (List A))
      → (String → A → Option K)
      → ℕ
      → String
      → String
      → ℕ
      → Option (Result (List A))
  query_chan ask keys page_size query sort_field fuel =
      let field = field_of (sort_of sort_field) in
      chan_started (send_pages ask (keys field) page_size query field fuel)
        (ask (first_query page_size query sort_field))
