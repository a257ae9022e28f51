-- ===== src/Db/Tests.antt =====
-- A codec of cursors that keeps its laws, and the pages of a small table.
mod Ones
use Ones.{
  keyed, id_token, pair_token, text_token, scan_one, scan_pair, scan_text, scan_one-id_token,
  scan_pair-pair_token, scan_text-text_token, keyed-empty, keyed-initial,
}
use trustyca.Base.{
  ℕ, zero, suc, String, ◌≡◌, ◌≢◌, refl, ap, ◌∙◌, sym, Bool, true, false, Option, some, none,
  if◌then◌else◌, ◌==◌, ◌&&◌, ◌+◌, ltb, leb, not, arith, List, [], ◌∷◌,
}
use trustyca.Base.Status.{Result, ok, err, wrapped}
use trustyca.Db.Cursor.{
  Value, id_value, time_value, name_value, Codec, Cursor, key_id, key_time, key_name, parse_cursor,
  encode_cursor, list_cursor, parse_time_cursor, encode_time_cursor, parse_name_cursor,
  encode_name_cursor, new_cursor,
}
use trustyca.Db.Cursor.RoundTrip.{CodecLaws, list_cursor-encode}
use trustyca.Db.Pages.{Page, list_rows, collect, convert_all, by_id_desc}
use trustyca.Db.Pages.Order.{Distinct}
use trustyca.Db.Pages.Walk.{PagingLaws, collect-rows}

abbrev values : List Value → String
values (id_value id ∷ []) = id_token id
values (time_value at ∷ id_value id ∷ []) = pair_token at id
values (name_value name ∷ id_value id ∷ []) = text_token name id
values key = ""

abbrev pub codec : Codec
codec = record {
  token = λ key. keyed (values key);
  scan_id = λ s. ok (scan_one s);
  scan_time = λ s. ok (scan_pair s);
  scan_name = λ s. ok (scan_text s);
}

pub codec-laws : CodecLaws codec
codec-laws = record {
  not_empty = λ key. keyed-empty (values key);
  not_initial = λ key. keyed-initial (values key);
  id_scans = λ id. ap ok (scan_one-id_token id);
  time_scans = λ at id. ap ok (scan_pair-pair_token at id);
  name_scans = λ name id. ap ok (scan_text-text_token name id);
}

-- a page that is full has a next one
abbrev pub is_full : ℕ → ℕ → Bool
is_full limit n = ltb 0 n && leb limit n

pub is_full-laws : PagingLaws is_full
is_full-laws = record { full = λ limit n p h. ground arith; empty = λ limit. ground arith }

list_cursor-encode_example :
    (list_cursor (encode_cursor codec 7) (parse_cursor codec)
      ≡ ok (record { set = true; kind = key_id; key = some (id_value 7 ∷ []) }))
    × (list_cursor (encode_time_cursor codec 3 7) (parse_time_cursor codec)
        ≡ ok (record { set = true; kind = key_time; key = some (time_value 3 ∷ id_value 7 ∷ []) }))
    × (list_cursor (encode_name_cursor codec "acme" 7) (parse_name_cursor codec)
        ≡ ok (record {
          set = true;
          kind = key_name;
          key = some (name_value "acme" ∷ id_value 7 ∷ []);
        }))
list_cursor-encode_example = list_cursor-encode codec codec-laws 7 3 "acme" (λ e. ground arith)

-- a table whose rows are their ids, read two at a time
abbrev table : List ℕ
table = 2 ∷ 5 ∷ 1 ∷ []

abbrev double : ℕ → Result ℕ
double n = ok (n + n)

collect-rows_example :
    collect codec
      (convert_all double)
      (λ c. ok (list_rows (λ n. n) codec is_full 2 c table))
      4
      (new_cursor 0)
    ≡ ok (10 ∷ 4 ∷ 2 ∷ [])
collect-rows_example =
    collect-rows (λ n. n) codec codec-laws is_full is_full-laws double 2 (omega arith) table
      (λ c. ok (list_rows (λ n. n) codec is_full 2 c table)) (λ k. refl) 4
      (((λ e. omega arith), ((λ e. omega arith), tt)), (((λ e. omega arith), tt), (tt, tt)))
      ((λ e. omega arith), ((λ e. omega arith), ((λ e. omega arith), tt))) (omega arith)
