-- ===== src/Db/Pages.antt =====
-- internal/db/pgsql: a list that pages by id, newest first (pageByIDDesc, listRows), over the rows
-- that the other predicates of its query keep. xdb says whether a page has a next one, from the
-- limit and the number of rows that were read: an argument here.
pub mod Order
pub mod Walk
use trustyca.Base.{
  ltb, ℕ, zero, suc, String, Bool, true, false, Option, none, some, List, [], ◌∷◌, ◌++◌,
  if◌then◌else◌, filter, length,
}
use trustyca.Base.Status.{Result, ok, err, wrapped, ◌>>=◌}
use trustyca.Db.Cursor.{
  Value, id_value, Cursor, Codec, PageParams, by_key, by_offset, set_page, parse_cursor,
  encode_cursor, new_cursor,
}

module _ {ℓ} {A : Type ℓ} where
  abbrev pub take : ℕ → List A → List A
  take zero xs = []
  take (suc n) [] = []
  take (suc n) (x ∷ xs) = x ∷ take n xs

  abbrev pub drop : ℕ → List A → List A
  drop zero xs = xs
  drop (suc n) [] = []
  drop (suc n) (x ∷ xs) = drop n xs

  abbrev pub last : List A → Option A
  last [] = none
  last (x ∷ []) = some x
  last (x ∷ y ∷ xs) = last (y ∷ xs)

-- the result of a list, as the generated models declare it
pub record Page (A : Type 0) : Type 0 where
  pub rows : List A
  pub has_next_page : Bool
  pub cursor : String

module _ {A : Type 0} (id : A → ℕ) where
  -- ORDER BY id DESC
  abbrev pub insert : A → List A → List A
  insert a [] = a ∷ []
  insert a (b ∷ rows) = if ltb (id a) (id b) then b ∷ insert a rows else a ∷ b ∷ rows

  abbrev pub by_id_desc : List A → List A
  by_id_desc [] = []
  by_id_desc (a ∷ rows) = insert a (by_id_desc rows)

  -- the rows with an id below the key
  abbrev pub below : ℕ → List A → List A
  below k rows = filter (λ a. ltb (id a) k) rows

  -- pageByIDDesc; a key of another list does not reach the query (checkKey)
  unfoldable pub page_by_id_desc : PageParams → List A → List A
  page_by_id_desc (by_key n (id_value k ∷ [])) rows = take n (below k (by_id_desc rows))
  page_by_id_desc (by_key n key) rows = []
  page_by_id_desc (by_offset n offset) rows = take n (drop offset (by_id_desc rows))

  -- the cursor of SetResultWithCursor
  abbrev pub next_cursor : Codec → Bool → Option A → String
  next_cursor codec false a = ""
  next_cursor codec true none = ""
  next_cursor codec true (some a) = encode_cursor codec (id a)

  module _ (codec : Codec) (has_next : ℕ → ℕ → Bool) where
    -- SetResultWithCursor
    unfoldable pub page_of : ℕ → List A → Page A
    page_of limit rows = record {
      rows = rows;
      has_next_page = has_next limit (length rows);
      cursor = next_cursor codec (has_next limit (length rows)) (last rows);
    }

    -- listRows, for a request with a cursor
    unfoldable pub list_rows : ℕ → Cursor → List A → Page A
    list_rows limit cursor rows = page_of limit (page_by_id_desc (set_page limit 0 cursor) rows)

module _ {A B : Type 0} where
  -- The rows one after another, up to the first that does not convert.
  abbrev pub convert_all : (A → Result B) → List A → Result (List B)
  convert_all f [] = ok []
  convert_all f (a ∷ rows) = f a >>= λ b. convert_all f rows >>= λ bs. ok (b ∷ bs)

-- what follows the rows of a page: the end, or the pages from the cursor of the next one
module _ {B : Type 0} (codec : Codec) where
  abbrev pub collect_next : (Cursor → Result (List B)) → List B → Bool → String → Result (List B)
  collect_next later found false next = ok found
  collect_next later found true next =
      parse_cursor codec next >>= λ cursor. later cursor >>= λ rest. ok (found ++ rest)

module _ {A B : Type 0} (codec : Codec) (convert : List A → Result (List B))
    (list : Cursor → Result (Page A)) where
  -- the loop that reads a list a page at a time, from the cursor, and converts the rows
  unfoldable pub collect : ℕ → Cursor → Result (List B)
  collect zero cursor = err (wrapped "out of fuel")
  collect (suc fuel) cursor = list cursor >>= λ page. convert page.rows >>= λ found.
      collect_next codec (collect fuel) found page.has_next_page page.cursor
