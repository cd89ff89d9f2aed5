-- ===== src/Pagination/Cursor.antt =====
-- The encoders and decoders of `Cursor`.
pub mod RoundTrip
use meno.Prelude.{
  ℕ, zero, suc, ◌+◌, ◌-◌, ◌*◌, ◌/◌, ◌%◌, ◌^◌, ◌≤◌, ◌<◌, ◌≡◌, refl, sym, ap, ◌∙◌, ◌≢◌, ◌↔◌, ◌⊎◌, inl,
  inr, Bool, true, false, not, ◌&&◌, ◌||◌, Option, none, some, List, [], ◌∷◌, ◌++◌, map, arith, ltb,
  leb, ◌==◌, if◌then◌else◌, ltb→lt, lt→ltb, leb→le, ==_iff, ==_self, tests, Bool-cases,
  Option-cases, is_some, unwrap_or, or_else, length, take, drop, last, replicate, All,
  length-append, take-append-drop, length-take, take_all, All-append, All-map_iff, length-map,
}
use meno.Prelude.Int.{ℤ, pos, negsuc}
use meno.Prelude.Texts.{Text, split_once, strip_prefix, show_ℤ, parse_ℤ}
use meno.Prelude.Results.{Result, ok, err, ◌>>=◌, ok_or}
use meno.Pagination.{
  Formats, CursorError, invalid_encoding, invalid_shape, invalid_timestamp, i128_min, i128_max,
  i64_min, i64_max,
}

-- The characters `|` and `:`.
abbrev pub bar : ℕ
bar = 124

abbrev pub colon : ℕ
colon = 58

-- "score:", "name:" and "rank:"
abbrev pub score_tag : Text
score_tag = 115 ∷ 99 ∷ 111 ∷ 114 ∷ 101 ∷ 58 ∷ []

abbrev pub name_tag : Text
name_tag = 110 ∷ 97 ∷ 109 ∷ 101 ∷ 58 ∷ []

abbrev pub rank_tag : Text
rank_tag = 114 ∷ 97 ∷ 110 ∷ 107 ∷ 58 ∷ []

module _ (fm : Formats) where
  -- `Uuid::parse_str`, `from_unix_timestamp_nanos` and the parses of numbers, with the errors that they are
  -- mapped to.
  abbrev pub uuid_of : Text → Result CursorError ℕ
  uuid_of s = ok_or (fm.parse_uuid s) invalid_shape

  abbrev pub instant_of : ℤ → Result CursorError ℤ
  instant_of n = if fm.is_instant n then ok n else err invalid_timestamp

  abbrev pub nanos_of : Text → Result CursorError ℤ
  unfolding parse_ℤ
  nanos_of s = ok_or (parse_ℤ i128_min i128_max s) invalid_shape

  abbrev pub decoded : Text → Result CursorError Text
  decoded c = ok_or (fm.decode c) invalid_encoding

  abbrev pub two_parts : ℕ → Text → Result CursorError (Text × Text)
  unfolding split_once
  two_parts c s = ok_or (split_once c s) invalid_shape

  abbrev pub tagged : Text → Text → Result CursorError Text
  unfolding strip_prefix
  tagged tag s = ok_or (strip_prefix tag s) invalid_shape

  unfoldable pub from_timestamp_id : ℤ → ℕ → Text
  unfolding show_ℤ
  from_timestamp_id ts id = fm.encode (show_ℤ ts ++ bar ∷ fm.show_uuid id)

  unfoldable pub from_two_timestamps_id : ℤ → ℤ → ℕ → Text
  unfolding show_ℤ
  from_two_timestamps_id ts1 ts2 id =
      fm.encode ((show_ℤ ts1 ++ colon ∷ show_ℤ ts2) ++ bar ∷ fm.show_uuid id)

  unfoldable pub from_score_id : ℤ → ℕ → Text
  unfolding show_ℤ
  from_score_id score id = fm.encode (score_tag ++ (show_ℤ score ++ bar ∷ fm.show_uuid id))

  unfoldable pub from_name_id : Text → ℕ → Text
  from_name_id name id = fm.encode (name_tag ++ (name ++ bar ∷ fm.show_uuid id))

  unfoldable pub from_rank_timestamp_id : ℕ → ℤ → ℕ → Text
  unfolding show_ℤ
  from_rank_timestamp_id rank ts id =
      fm.encode (rank_tag ++ (fm.show_f32 rank ++ bar ∷ (show_ℤ ts ++ bar ∷ fm.show_uuid id)))

  unfoldable pub to_timestamp_id : Text → Result CursorError (ℤ × ℕ)
  unfolding nanos_of two_parts
  to_timestamp_id c = do
    s ← decoded c
    (first, second) ← two_parts bar s
    nanos ← nanos_of first
    id ← uuid_of second
    ts ← instant_of nanos
    ok (ts, id)

  unfoldable pub to_two_timestamps_id : Text → Result CursorError (ℤ × ℤ × ℕ)
  unfolding nanos_of two_parts
  to_two_timestamps_id c = do
    s ← decoded c
    (first, second) ← two_parts bar s
    (t1, t2) ← two_parts colon first
    n1 ← nanos_of t1
    n2 ← nanos_of t2
    id ← uuid_of second
    ts1 ← instant_of n1
    ts2 ← instant_of n2
    ok (ts1, ts2, id)

  unfoldable pub to_score_id : Text → Result CursorError (ℤ × ℕ)
  unfolding parse_ℤ two_parts tagged
  to_score_id c = do
    raw ← decoded c
    s ← tagged score_tag raw
    (first, second) ← two_parts bar s
    score ← ok_or (parse_ℤ i64_min i64_max first) invalid_shape
    id ← uuid_of second
    ok (score, id)

  unfoldable pub to_name_id : Text → Result CursorError (Text × ℕ)
  unfolding two_parts tagged
  to_name_id c = do
    raw ← decoded c
    s ← tagged name_tag raw
    (name, second) ← two_parts bar s
    id ← uuid_of second
    ok (name, id)

  -- `splitn(3, '|')`
  unfoldable pub to_rank_timestamp_id : Text → Result CursorError (ℕ × ℤ × ℕ)
  unfolding nanos_of two_parts tagged
  to_rank_timestamp_id c = do
    raw ← decoded c
    s ← tagged rank_tag raw
    (first, rest) ← two_parts bar s
    (second, third) ← two_parts bar rest
    rank ← ok_or (fm.parse_f32 first) invalid_shape
    nanos ← nanos_of second
    id ← uuid_of third
    ts ← instant_of nanos
    ok (rank, ts, id)
