-- ===== src/Db/Cursor/Lists.antt =====
-- Which lists accept the cursor of another list.
use text.Mathlib.Text.{◌==◌ as str_eq}
use text.Mathlib.TextEquality.{eq_iff}
use trustyca.Base.{
  ℕ, String, ◌≡◌, ◌≢◌, ◌⊎◌, ◌↔◌, sym, inl, inr, true, false, Bool-cases, some, [], ◌∷◌, ◌==◌, arith,
  List,
}
use trustyca.Base.Status.{Result, Done, ok, err, wrapped, bind_iff, ok-injective}
use trustyca.Db.Cursor.{
  Value, id_value, time_value, Cursor, CursorKind, key_id, key_time, Codec, decode_cursor,
  key_cursor, parse_time_cursor, check_key, kind_eq, new_cursor, zero_cursor, last_id, last_value,
}

differ : false ≡ true → ⊥
differ e = cc

-- how decode_cursor gave its value
decoded :
    {A : Type 0} (scan : String → Result A) (s : String) (d : Cursor ⊎ A)
    → decode_cursor scan s ≡ ok d
    → (((s ≡ "") ⊎ (s ≡ "initial")) × ((d ≡ inl zero_cursor) ⊎ (d ≡ inl (new_cursor 0))))
      ⊎ ((s ≢ "") × (s ≢ "initial") × ((a : A) × (d ≡ inr a)))
unfolding decode_cursor
decoded scan s d h = elim (Bool-cases (str_eq s "")) [
  | inl e ↦ inl (inl ((eq_iff s "").0 e), inl (sym (ok-injective (inl zero_cursor) d (rw e at h))))
  | inr e ↦ elim (Bool-cases (str_eq s "initial")) [
    | inl k ↦ inl (
      inr ((eq_iff s "initial").0 k),
      inr (sym (ok-injective (inl (new_cursor 0)) d (rw (e, k) at h))),
    )
    | inr k ↦
        let (a, _, g) = (bind_iff (scan s) (λ key. ok (inr key)) d).0 (rw (e, k) at h) in
        inr (
          λ eq. differ (rw e at (eq_iff s "").1 eq),
          λ eq. differ (rw k at (eq_iff s "initial").1 eq),
          (a, sym (ok-injective (inr a) d g)),
        )
  ]
]

-- the cursor of a key that was scanned
key_cursor-set :
    (kind : CursorKind) (id : ℕ) (key : List Value) (c : Cursor)
    → key_cursor kind id key ≡ ok c
    → (id ≢ 0) × (c ≡ record { set = true; kind = kind; key = some key })
unfolding key_cursor
key_cursor-set kind id key c h = elim (Bool-cases (id == 0)) [
  | inl e ↦ absurd (refuse (rw e at h))
  | inr e ↦ (λ z. ground arith, sym (ok-injective _ c (rw e at h)))
]
  where
    refuse : ◌≡◌ {A = Result Cursor} (err (wrapped "invalid cursor: missing id")) (ok c) → ⊥
    refuse e = cc

-- what a cursor of the events' parser is
Parsed : String → Cursor → Type 0
Parsed s c =
    (((s ≡ "") ⊎ (s ≡ "initial")) × ((c ≡ zero_cursor) ⊎ (c ≡ new_cursor 0)))
    ⊎ ((s ≢ "")
        × (s ≢ "initial")
        × ((at : ℕ) × (id : ℕ) × (id ≢ 0)
            × (c ≡ record {
              set = true;
              kind = key_time;
              key = some (time_value at ∷ id_value id ∷ []);
            })))

parse_time_cursor-Parsed :
    (codec : Codec) (s : String) (c : Cursor) → parse_time_cursor codec s ≡ ok c → Parsed s c
unfolding Parsed parse_time_cursor
parse_time_cursor-Parsed codec s c h =
    let (d, from, g) = (bind_iff (decode_cursor codec.scan_time s) _ c).0 h in
    elim (decoded codec.scan_time s d from) [
      | inl k ↦ inl (
        k.0,
        elim k.1 [
          | inl e ↦ inl (sym (ok-injective _ c (rw e at g)))
          | inr e ↦ inr (sym (ok-injective _ c (rw e at g)))
        ],
      )
      | inr k ↦
          let ((at, id), e) = k.2 in
          let (nonzero, is) = key_cursor-set key_time id _ c (rw e at g) in
          inr (k.0, k.1, (at, id, nonzero, is))
    ]

-- A list of events reads a cursor by its time parser: the list itself accepts the result. A list
-- by id accepts it only where the token is empty or the first page's, which has no last row.
pub parse_time_cursor-check_key :
    (codec : Codec) (s : String) (c : Cursor)
    → parse_time_cursor codec s ≡ ok c
    → (check_key key_time c ≡ ok tt)
      × ((check_key key_id c ≡ ok tt) ↔ ((s ≡ "") ⊎ (s ≡ "initial")))
      × ((last_id c ≡ 0) ↔ ((s ≡ "") ⊎ (s ≡ "initial")))
unfolding check_key kind_eq last_id last_value new_cursor zero_cursor Parsed
parse_time_cursor-check_key codec s c h = elim (parse_time_cursor-Parsed codec s c h) [
  | inl k ↦ elim k.1 [
    | inl e ↦ (rw e, (λ _. k.0, λ _. rw e), (λ _. k.0, λ _. rw e))
    | inr e ↦ (rw e, (λ _. k.0, λ _. rw e), (λ _. k.0, λ _. rw e))
  ]
  | inr k ↦
      let (at, id, nonzero, e) = k.2 in
      (
        rw e,
        (λ g. absurd (refuse (rw e at g)), λ o. absurd (neither k o)),
        (λ g. absurd (nonzero (rw e at g)), λ o. absurd (neither k o)),
      )
]
  where
    refuse :
        ◌≡◌ {A = Result Done} (err (wrapped "invalid cursor: the cursor of another list")) (ok tt)
        → ⊥
    refuse e = cc

    neither : {A : Type 0} → (s ≢ "") × (s ≢ "initial") × A → (s ≡ "") ⊎ (s ≡ "initial") → ⊥
    neither k (inl e) = k.0 e
    neither k (inr e) = k.1 e
