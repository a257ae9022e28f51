-- ===== src/Db/Cursor/RoundTrip.antt =====
-- A cursor that was encoded for a list is read back by the parser of that list.
use text.Mathlib.Text.{◌==◌ as str_eq}
use text.Mathlib.TextEquality.{eq_iff}
use trustyca.Base.{
  ℕ, String, ◌≡◌, ◌≢◌, inl, inr, true, false, Bool-cases, some, [], ◌∷◌, arith, List,
}
use trustyca.Base.Status.{Result, ok}
use trustyca.Db.Cursor.{
  Value, id_value, time_value, name_value, Cursor, CursorKind, key_id, key_time, key_name, Codec,
  decode_cursor, key_cursor, parse_cursor, parse_time_cursor, parse_name_cursor, encode_cursor,
  encode_time_cursor, encode_name_cursor, list_cursor,
}

-- What the lists rely on of xdb: a token is neither of the two words that stand for no key, and it
-- scans into the values it was made of.
pub record CodecLaws (codec : Codec) : Type 0 where
  pub not_empty : (key : List Value) → codec.token key ≢ ""
  pub not_initial : (key : List Value) → codec.token key ≢ "initial"
  pub id_scans : (id : ℕ) → codec.scan_id (codec.token (id_value id ∷ [])) ≡ ok id
  pub time_scans :
      (at id : ℕ) → codec.scan_time (codec.token (time_value at ∷ id_value id ∷ [])) ≡ ok (at, id)
  pub name_scans :
      (name : String) (id : ℕ)
      → codec.scan_name (codec.token (name_value name ∷ id_value id ∷ [])) ≡ ok (name, id)

str_eq-false : (s t : String) → s ≢ t → str_eq s t ≡ false
str_eq-false s t h = elim (Bool-cases (str_eq s t)) [
  | inl e ↦ absurd (h ((eq_iff s t).0 e))
  | inr e ↦ e
]

decode-key :
    {A : Type 0} (scan : String → Result A) (s : String) (a : A)
    → s ≢ ""
    → s ≢ "initial"
    → scan s ≡ ok a
    → decode_cursor scan s ≡ ok (inr a)
unfolding decode_cursor
decode-key scan s a not_empty not_initial h =
    rw (str_eq-false s "" not_empty, str_eq-false s "initial" not_initial, h)

key_cursor-ok :
    (kind : CursorKind) (id : ℕ) (key : List Value)
    → id ≢ 0
    → key_cursor kind id key ≡ ok (record { set = true; kind = kind; key = some key })
unfolding key_cursor
key_cursor-ok kind id key h = ground arith

list_cursor-ok :
    (s : String) (parse : String → Result Cursor) (c : Cursor)
    → parse s ≡ ok c
    → list_cursor s parse ≡ ok c
unfolding list_cursor
list_cursor-ok s parse c h = rw h

module _ (codec : Codec) (laws : CodecLaws codec) where
  pub parse_cursor-encode :
      (id : ℕ)
      → id ≢ 0
      → parse_cursor codec (encode_cursor codec id)
        ≡ ok (record { set = true; kind = key_id; key = some (id_value id ∷ []) })
  unfolding parse_cursor encode_cursor
  parse_cursor-encode id h = rw (
    decode-key codec.scan_id (codec.token (id_value id ∷ [])) id (laws.not_empty _)
        (laws.not_initial _) (laws.id_scans id),
    key_cursor-ok key_id id (id_value id ∷ []) h,
  )

  -- With tokens that scan into the values they were made of, the cursor of the row with an id
  -- other than 0 is read back by the parser of its list: the lists by id, by time and id, and by
  -- name and id continue after the values of the row that the cursor was encoded for.
  pub list_cursor-encode :
      (id at : ℕ) (name : String)
      → id ≢ 0
      → (list_cursor (encode_cursor codec id) (parse_cursor codec)
          ≡ ok (record { set = true; kind = key_id; key = some (id_value id ∷ []) }))
        × (list_cursor (encode_time_cursor codec at id) (parse_time_cursor codec)
            ≡ ok (record {
              set = true;
              kind = key_time;
              key = some (time_value at ∷ id_value id ∷ []);
            }))
        × (list_cursor (encode_name_cursor codec name id) (parse_name_cursor codec)
            ≡ ok (record {
              set = true;
              kind = key_name;
              key = some (name_value name ∷ id_value id ∷ []);
            }))
  unfolding parse_time_cursor parse_name_cursor encode_time_cursor encode_name_cursor
  list_cursor-encode id at name h = (
    list_cursor-ok _ (parse_cursor codec) _ (parse_cursor-encode id h),
    list_cursor-ok _ (parse_time_cursor codec) _ (
        rw (
          decode-key codec.scan_time (codec.token (time_value at ∷ id_value id ∷ [])) (at, id)
              (laws.not_empty _) (laws.not_initial _) (laws.time_scans at id),
          key_cursor-ok key_time id (time_value at ∷ id_value id ∷ []) h,
        )),
    list_cursor-ok _ (parse_name_cursor codec) _ (
        rw (
          decode-key codec.scan_name (codec.token (name_value name ∷ id_value id ∷ [])) (name, id)
              (laws.not_empty _) (laws.not_initial _) (laws.name_scans name id),
          key_cursor-ok key_name id (name_value name ∷ id_value id ∷ []) h,
        )),
  )
