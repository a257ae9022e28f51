-- ===== src/Db/Cursor.antt =====
-- internal/db/pgsql/query/cursor.go: the cursors of the lists that page by a sort key. The tokens
-- are made and read by xdb.NewCursor and xdb.ParseCursor, which are arguments here.
pub mod RoundTrip
pub mod Lists
use text.Mathlib.Text.{◌==◌ as str_eq}
use trustyca.Base.{
  ℕ, String, Bool, true, false, Option, none, some, List, [], ◌∷◌, ◌⊎◌, inl, inr, ◌==◌, not, ◌&&◌,
  if◌then◌else◌,
}
use trustyca.Base.Status.{Result, Done, ok, err, grpc, wrapped, invalid_argument, ◌>>=◌}

-- a value of a sort key
pub data Value : Type 0 where
  id_value time_value : ℕ → Value
  name_value : String → Value

-- cursorKind
pub data CursorKind : Type 0 where
  key_none key_id key_time key_name : CursorKind

unfoldable pub kind_eq : CursorKind → CursorKind → Bool
kind_eq key_none key_none = true
kind_eq key_id key_id = true
kind_eq key_time key_time = true
kind_eq key_name key_name = true
kind_eq a b = false

-- Cursor; a nil key is none
pub record Cursor : Type 0 where
  pub set : Bool
  pub kind : CursorKind
  pub key : Option (List Value)

unfoldable pub zero_cursor : Cursor
zero_cursor = record { set = false; kind = key_none; key = none }

-- NewCursor
unfoldable pub new_cursor : ℕ → Cursor
new_cursor last_id =
    if last_id == 0
    then record { set = true; kind = key_none; key = none }
    else record { set = true; kind = key_id; key = some (id_value last_id ∷ []) }

-- Cursor.checkKey
unfoldable pub check_key : CursorKind → Cursor → Result Done
check_key kind c =
    if not (kind_eq c.kind key_none) && not (kind_eq c.kind kind)
    then err (wrapped "invalid cursor: the cursor of another list")
    else ok tt

unfoldable pub last_value : List Value → ℕ
last_value [] = 0
last_value (id_value i ∷ []) = i
last_value (v ∷ []) = 0
last_value (v ∷ w ∷ vs) = last_value (w ∷ vs)

-- Cursor.LastID
unfoldable pub last_id : Cursor → ℕ
last_id c = elim c.key [ none ↦ 0 | some vs ↦ last_value vs ]

-- xdb.NewCursor, and xdb.ParseCursor with the Scan into the variables of each sort key
pub record Codec : Type 0 where
  pub token : List Value → String
  pub scan_id : String → Result ℕ
  pub scan_time : String → Result (ℕ × ℕ)
  pub scan_name : String → Result (String × ℕ)

-- decodeCursor: a cursor without a key, or the scanned key
unfoldable pub decode_cursor : {A : Type 0} → (String → Result A) → String → Result (Cursor ⊎ A)
decode_cursor scan cursor =
    if str_eq cursor ""
    then ok (inl zero_cursor)
    else if str_eq cursor "initial"
    then ok (inl (new_cursor 0))
    else (scan cursor >>= λ key. ok (inr key))

-- keyCursor
unfoldable pub key_cursor : CursorKind → ℕ → List Value → Result Cursor
key_cursor kind id key =
    if id == 0
    then err (wrapped "invalid cursor: missing id")
    else ok (record { set = true; kind = kind; key = some key })

-- the end of each parser: the cursor without a key, or the cursor of the key that was scanned
abbrev pub keyed_cursor :
    {A : Type 0} → CursorKind → (A → ℕ) → (A → List Value) → Cursor ⊎ A → Result Cursor
keyed_cursor kind id key (inl c) = ok c
keyed_cursor kind id key (inr a) = key_cursor kind (id a) (key a)

module _ (codec : Codec) where
  -- ParseCursor
  unfoldable pub parse_cursor : String → Result Cursor
  parse_cursor cursor =
      decode_cursor codec.scan_id cursor >>= keyed_cursor key_id (λ id. id) (λ id. id_value id ∷ [])

  -- ParseTimeCursor
  unfoldable pub parse_time_cursor : String → Result Cursor
  parse_time_cursor cursor =
      decode_cursor codec.scan_time cursor
      >>= keyed_cursor key_time (λ k. k.1) (λ k. time_value k.0 ∷ id_value k.1 ∷ [])

  -- ParseNameCursor
  unfoldable pub parse_name_cursor : String → Result Cursor
  parse_name_cursor cursor =
      decode_cursor codec.scan_name cursor
      >>= keyed_cursor key_name (λ k. k.1) (λ k. name_value k.0 ∷ id_value k.1 ∷ [])

  -- EncodeCursor
  unfoldable pub encode_cursor : ℕ → String
  encode_cursor last_id = codec.token (id_value last_id ∷ [])

  -- EncodeTimeCursor
  unfoldable pub encode_time_cursor : ℕ → ℕ → String
  encode_time_cursor last_at last_id = codec.token (time_value last_at ∷ id_value last_id ∷ [])

  -- EncodeNameCursor
  unfoldable pub encode_name_cursor : String → ℕ → String
  encode_name_cursor last_name last_id = codec.token (name_value last_name ∷ id_value last_id ∷ [])

-- ListCursor
abbrev pub cursor_read : Result Cursor → Result Cursor
cursor_read (ok c) = ok c
cursor_read (err e) = err (grpc invalid_argument "invalid cursor")

unfoldable pub list_cursor : String → (String → Result Cursor) → Result Cursor
list_cursor cursor parse = cursor_read (parse cursor)

-- Limit, with xdb.DefaultPageSize
unfoldable pub limit : ℕ → ℕ → ℕ
limit default_page_size n = if n == 0 then default_page_size else n

-- the page that setPage records
pub data PageParams : Type 0 where
  by_key : ℕ → List Value → PageParams
  by_offset : ℕ → ℕ → PageParams

-- setPage
unfoldable pub set_page : ℕ → ℕ → Cursor → PageParams
set_page limit offset c = elim c.key [
  | some key ↦ by_key limit key
  | none ↦ if c.set then by_offset limit 0 else by_offset limit offset
]
