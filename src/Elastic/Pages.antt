-- ===== src/Elastic/Pages.antt =====
-- A query whose rows ascend in a key that no two of them share gives each row once.
use cloudvelo.Prelude.{
  ℕ, zero, suc, String, List, [], ◌∷◌, ◌++◌, ◌<◌, ◌≤◌, Option, none, some, Bool, true, false, ltb,
  ltb→lt, length, take, drop, filter, All, ◌≡◌, refl, sym, ap, ◌∙◌, inl, inr, arith, Bool-cases,
  Result, ok, subst, append_assoc, take-append-drop,
}
use cloudvelo.Elastic.Paging.{
  PageQuery, sort_of, first_query, next_query, last_key, send_pages, query_chan,
}

module _ {K A : Type 0} (key_of : A → Option K) (after : K → A → Bool) where
  -- Each row has a key; the rows behind it are after that key, and it is after none of theirs, nor
  -- after its own.
  abbrev pub IsAscending : List A → Type 0
  IsAscending [] = Unit
  IsAscending (row ∷ rest) =
      ((key : K) × (key_of row ≡ some key)
        × (after key row ≡ false)
        × All
            (λ later.
              (after key later ≡ true) × ((k : K) → key_of later ≡ some k → after k row ≡ false))
            rest)
      × IsAscending rest

  filter_whole :
      (key : K) (rows : List A)
      → All (λ row. after key row ≡ true) rows
      → filter (after key) rows ≡ rows
  filter_whole key [] h = refl
  filter_whole key (row ∷ rest) (here, h) = rw here (ap (◌∷◌ row) (filter_whole key rest h))

  some_injective : {a b : K} → some a ≡ some b → a ≡ b
  some_injective e = cc e

  -- What holds of all rows holds of the one that has the last key.
  All-last_key :
      {P : A → Type 0} (front rest : List A) (key : K)
      → All P (front ++ rest)
      → last_key key_of front ≡ some key
      → (row : A) × (key_of row ≡ some key) × P row
  All-last_key [] rest key h e = cc e
  All-last_key (row ∷ []) rest key (here, h) e = (row, e, here)
  All-last_key (row ∷ next ∷ front) rest key (here, h) e = All-last_key (next ∷ front) rest key h e

  All-map :
      {P Q : A → Type 0} (rows : List A) → ((row : A) → P row → Q row) → All P rows → All Q rows
  All-map [] f h = tt
  All-map (row ∷ rows) f (here, h) = (f row here, All-map rows f h)

  -- After the last key of the rows in front come just the others.
  filter-last_key :
      (front rest : List A) (key : K)
      → IsAscending (front ++ rest)
      → last_key key_of front ≡ some key
      → filter (after key) (front ++ rest) ≡ rest
  filter-last_key [] rest key h e = cc e
  filter-last_key (row ∷ []) rest key ((k, is_k, own, later), h) e =
      let same : k ≡ key = some_injective (sym is_k ∙ e) in
      rw (subst (λ m. after m row ≡ false) same own) (
        filter_whole key rest
          (All-map rest (λ s both. subst (λ m. after m s ≡ true) same both.0) later))
  filter-last_key (row ∷ next ∷ front) rest key ((k, is_k, own, later), h) e =
      let (last, is_last, (behind, before)) = All-last_key (next ∷ front) rest key later e in
      rw (before key is_last) (filter-last_key (next ∷ front) rest key h e)

  last_key-append :
      (front : List A) (row : A) (rest : List A)
      → last_key key_of (front ++ row ∷ rest) ≡ last_key key_of (row ∷ rest)
  last_key-append [] row rest = refl
  last_key-append (first ∷ []) row rest = refl
  last_key-append (first ∷ next ∷ front) row rest = last_key-append (next ∷ front) row rest

  last_key-some :
      (row : A) (rest others : List A)
      → IsAscending ((row ∷ rest) ++ others)
      → (key : K) × (last_key key_of (row ∷ rest) ≡ some key)
  last_key-some row [] others ((k, is_k, own, later), h) = (k, is_k)
  last_key-some row (next ∷ rest) others (here, h) = last_key-some next rest others h

  IsAscending-front : (front rest : List A) → IsAscending (front ++ rest) → IsAscending rest
  IsAscending-front [] rest h = h
  IsAscending-front (row ∷ front) rest (here, h) = IsAscending-front front rest h

module _ {A : Type 0} where
  take-short : (n : ℕ) (xs : List A) → length (take n xs) < n → take n xs ≡ xs
  take-short zero xs short = absurd (omega (arith, short))
  take-short (suc n) [] short = refl
  take-short (suc n) (x ∷ xs) short = ap (◌∷◌ x) (take-short n xs (omega (arith, short)))

  length-drop_le : (n : ℕ) (xs : List A) → length (drop n xs) ≤ length xs
  length-drop_le zero xs = omega arith
  length-drop_le (suc n) [] = omega arith
  length-drop_le (suc n) (x ∷ xs) = omega (arith, length-drop_le n xs)

module _ {K A : Type 0} (ask : PageQuery K → Result (List A)) (key_of : A → Option K)
    (after : K → A → Bool) (n : ℕ) (query field : String) (rows : List A) where
  -- The search of the server: a query for these rows that asks for the ascending order of the field
  -- gets the first of them, as many as its size, or the first of those after its key.
  pub record IsPaged : Type 0 where
    pub from_start :
        (q : PageQuery K)
        → q.query ≡ query
        → q.sort ≡ some (field, true)
        → q.search_after ≡ none
        → ask q ≡ ok (take q.size rows)
    pub from_key :
        (q : PageQuery K) (key : K)
        → q.query ≡ query
        → q.sort ≡ some (field, true)
        → q.search_after ≡ some key
        → ask q ≡ ok (take q.size (filter (after key) rows))

  page_after :
      (key : K)
      → IsPaged
      → ask (next_query (suc n) query field key) ≡ ok (take (suc n) (filter (after key) rows))
  page_after key paged = paged.from_key (next_query (suc n) query field key) key refl refl refl

  first_page :
      (sort_field : String)
      → sort_of sort_field ≡ some (field, true)
      → IsPaged
      → ask (first_query (suc n) query sort_field) ≡ ok (take (suc n) rows)
  first_page sort_field ascends paged =
      paged.from_start (first_query (suc n) query sort_field) refl ascends refl

  send_pages-all :
      (fuel : ℕ) (done rest : List A)
      → IsAscending key_of after rows
      → IsPaged
      → done ++ rest ≡ rows
      → length rest < fuel
      → send_pages ask key_of (suc n) query field fuel (take (suc n) rest) ≡ some rest
  unfolding send_pages
  send_pages-all zero done rest h pages same enough = absurd (omega (arith, enough))
  send_pages-all (suc fuel) done [] h pages same enough = refl
  send_pages-all (suc fuel) done (row ∷ rest) h pages same enough =
      let part = row ∷ take n rest in
      let others = drop n rest in
      let whole : part ++ others ≡ row ∷ rest = take-append-drop (suc n) (row ∷ rest) in
      let ascending =
        IsAscending-front key_of after done (part ++ others)
          (subst (IsAscending key_of after) (sym same ∙ ap (λ l. done ++ l) (sym whole)) h) in
      let (key, is_last) = last_key-some key_of after row (take n rest) others ascending in
      elim (Bool-cases (ltb (length part) (suc n))) [
        | inl short ↦
            rw (is_last, short) (ap some (take-short (suc n) (row ∷ rest) (ltb→lt _ _ short)))
        | inr full ↦
            let split : rows ≡ (done ++ part) ++ others =
              sym same ∙ ap (λ l. done ++ l) (sym whole) ∙ sym (append_assoc done part others) in
            let left : filter (after key) rows ≡ others =
              ap (filter (after key)) split
              ∙ filter-last_key key_of after (done ++ part) others key
                  (subst (IsAscending key_of after) split h)
                  (last_key-append key_of after done row (take n rest) ∙ is_last) in
            let next = page_after key pages ∙ ap (λ l. ok (take (suc n) l)) left in
            let later =
              send_pages-all fuel (done ++ part) others h pages (sym split)
                (omega (arith, enough, length-drop_le n rest)) in
            rw (is_last, full, next, later) (ap some whole)
      ]

  -- If the rows of the query have keys that ascend strictly, and each search for them in ascending
  -- order of the sort field gives as many of the first rows, or of the rows after a key, as it asks
  -- for, then a channel that is asked for the ascending order with a page size that is not 0 gives
  -- just these rows, once each and in this order; one request more than the rows is enough.
  pub query_chan-all :
      (sort_field : String) (keys : String → A → Option K) (fuel : ℕ)
      → keys field ≡ key_of
      → sort_of sort_field ≡ some (field, true)
      → IsAscending key_of after rows
      → IsPaged
      → length rows < fuel
      → query_chan ask keys (suc n) query sort_field fuel ≡ some (ok rows)
  unfolding query_chan
  query_chan-all sort_field keys fuel is_key ascends h paged enough = rw (
    first_page sort_field ascends paged,
    ascends,
    is_key,
    send_pages-all fuel [] rows h paged refl enough,
  )
