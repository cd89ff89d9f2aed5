-- ===== src/Pagination/Cursor/RoundTrip.antt =====
-- A cursor that the server made is read back, by the reader that belongs to it.
use mathlib.Core.List.{append_assoc}
use meno.Prelude.{ℕ, ◌≡◌, refl, true, false, none, some, ◌∷◌, ◌++◌, arith, ◌==◌, All-append}
use meno.Prelude.Int.{ℤ, ◌≤ℤ◌}
use meno.Prelude.Texts.{Text, Free, split_once-append, show_ℤ, show_ℤ-Free, parse_ℤ, parse-show}
use meno.Prelude.Results.{ok, err}
use meno.Pagination.{Formats, invalid_shape, i128_min, i128_max, i64_min, i64_max}
use meno.Pagination.Cursor.{
  bar, colon, score_tag, name_tag, rank_tag, from_timestamp_id, from_two_timestamps_id,
  from_score_id, from_name_id, from_rank_timestamp_id, to_timestamp_id, to_two_timestamps_id,
  to_score_id, to_name_id, to_rank_timestamp_id,
}

-- What the packages document: base64 and UUIDs are read back, instants are within i128, no number has
-- a bar in its text, and no text with a bar is a UUID.
pub record Lawful (fm : Formats) : Type 0 where
  pub decodes : (s : Text) → fm.decode (fm.encode s) ≡ some s
  pub uuids : (id : ℕ) → fm.parse_uuid (fm.show_uuid id) ≡ some id
  pub instants : (n : ℤ) → fm.is_instant n ≡ true → (i128_min ≤ℤ n) × (n ≤ℤ i128_max)
  pub f32_Free : (r : ℕ) → Free bar (fm.show_f32 r)
  pub uuid_Free : (a b : Text) → fm.parse_uuid (a ++ bar ∷ b) ≡ none

module _ (fm : Formats) (v : Lawful fm) where
  nanos : (n : ℤ) → fm.is_instant n ≡ true → parse_ℤ i128_min i128_max (show_ℤ n) ≡ some n
  nanos n h = parse-show i128_min i128_max n (v.instants n h).0 (v.instants n h).1

  show-bar : (n : ℤ) → Free bar (show_ℤ n)
  show-bar n = show_ℤ-Free bar n refl (omega arith)

  show-colon : (n : ℤ) → Free colon (show_ℤ n)
  show-colon n = show_ℤ-Free colon n refl (omega arith)

  -- A pair of an instant and an id.
  pub timestamp_id :
      (ts : ℤ) (id : ℕ)
      → fm.is_instant ts ≡ true
      → to_timestamp_id fm (from_timestamp_id fm ts id) ≡ ok (ts, id)
  unfolding to_timestamp_id from_timestamp_id
  timestamp_id ts id h = rw (v.decodes (show_ℤ ts ++ bar ∷ fm.show_uuid id)) (
      rw (split_once-append bar (show_ℤ ts) (fm.show_uuid id) (show-bar ts))
        (rw (nanos ts h) (rw (v.uuids id) (rw h refl))))

  two_timestamps_id :
      (ts1 ts2 : ℤ) (id : ℕ)
      → fm.is_instant ts1 ≡ true
      → fm.is_instant ts2 ≡ true
      → to_two_timestamps_id fm (from_two_timestamps_id fm ts1 ts2 id) ≡ ok (ts1, ts2, id)
  unfolding to_two_timestamps_id from_two_timestamps_id
  two_timestamps_id ts1 ts2 id h k =
      let first = show_ℤ ts1 ++ colon ∷ show_ℤ ts2 in
      let clear : Free bar first =
        All-append (λ x. (x == bar) ≡ false) (show_ℤ ts1) (colon ∷ show_ℤ ts2) (show-bar ts1)
          (refl, show-bar ts2) in
      rw (v.decodes (first ++ bar ∷ fm.show_uuid id)) (
        rw (split_once-append bar first (fm.show_uuid id) clear) (
          rw (split_once-append colon (show_ℤ ts1) (show_ℤ ts2) (show-colon ts1))
            (rw (nanos ts1 h) (rw (nanos ts2 k) (rw (v.uuids id) (rw h (rw k refl)))))))

  score_id :
      (score : ℤ) (id : ℕ)
      → i64_min ≤ℤ score
      → score ≤ℤ i64_max
      → to_score_id fm (from_score_id fm score id) ≡ ok (score, id)
  unfolding to_score_id from_score_id
  score_id score id h k =
      let s = show_ℤ score ++ bar ∷ fm.show_uuid id in
      rw (v.decodes (score_tag ++ s)) (
        rw (split_once-append bar (show_ℤ score) (fm.show_uuid id) (show-bar score))
          (rw (parse-show i64_min i64_max score h k) (rw (v.uuids id) refl)))

  rank_timestamp_id :
      (rank : ℕ) (ts : ℤ) (id : ℕ)
      → fm.parse_f32 (fm.show_f32 rank) ≡ some rank
      → fm.is_instant ts ≡ true
      → to_rank_timestamp_id fm (from_rank_timestamp_id fm rank ts id) ≡ ok (rank, ts, id)
  unfolding to_rank_timestamp_id from_rank_timestamp_id
  rank_timestamp_id rank ts id r h =
      let rest = show_ℤ ts ++ bar ∷ fm.show_uuid id in
      let s = fm.show_f32 rank ++ bar ∷ rest in
      rw (v.decodes (rank_tag ++ s)) (
        rw (split_once-append bar (fm.show_f32 rank) rest (v.f32_Free rank)) (
          rw (split_once-append bar (show_ℤ ts) (fm.show_uuid id) (show-bar ts))
            (rw r (rw (nanos ts h) (rw (v.uuids id) (rw h refl))))))

  name_id :
      (name : Text) (id : ℕ)
      → Free bar name
      → to_name_id fm (from_name_id fm name id) ≡ ok (name, id)
  unfolding to_name_id from_name_id
  name_id name id h =
      let s = name ++ bar ∷ fm.show_uuid id in
      rw (v.decodes (name_tag ++ s))
        (rw (split_once-append bar name (fm.show_uuid id) h) (rw (v.uuids id) refl))

-- Each cursor of a feed is read back to the values that it was made of: a time, two times, a score
-- within i64 or a rank with a time, each with a UUID. The packages that the cursors go through keep
-- their laws, the times are instants of `time`, and the f32 is one whose text is read back.
pub cursor_read_back :
    (fm : Formats) (ts1 ts2 score : ℤ) (rank id : ℕ)
    → Lawful fm
    → fm.is_instant ts1 ≡ true
    → fm.is_instant ts2 ≡ true
    → i64_min ≤ℤ score
    → score ≤ℤ i64_max
    → fm.parse_f32 (fm.show_f32 rank) ≡ some rank
    → (to_timestamp_id fm (from_timestamp_id fm ts1 id) ≡ ok (ts1, id))
      × (to_two_timestamps_id fm (from_two_timestamps_id fm ts1 ts2 id) ≡ ok (ts1, ts2, id))
      × (to_score_id fm (from_score_id fm score id) ≡ ok (score, id))
      × (to_rank_timestamp_id fm (from_rank_timestamp_id fm rank ts1 id) ≡ ok (rank, ts1, id))
cursor_read_back fm ts1 ts2 score rank id v h k lo hi r = (
  timestamp_id fm v ts1 id h,
  two_timestamps_id fm v ts1 ts2 id h k,
  score_id fm v score id lo hi,
  rank_timestamp_id fm v rank ts1 id r h,
)

-- The comment in the code says that a name may have special characters. A cursor of a name without
-- `|` is read back; one of a name with `|` is refused as misshapen.
pub name_cursor :
    (fm : Formats) (name after : Text) (id : ℕ)
    → Lawful fm
    → Free bar name
    → (to_name_id fm (from_name_id fm name id) ≡ ok (name, id))
      × (to_name_id fm (from_name_id fm (name ++ bar ∷ after) id) ≡ err invalid_shape)
unfolding to_name_id from_name_id
name_cursor fm name after id v h =
    let rest = after ++ bar ∷ fm.show_uuid id in
    let s = (name ++ bar ∷ after) ++ bar ∷ fm.show_uuid id in
    let joined : s ≡ name ++ bar ∷ rest = append_assoc name (bar ∷ after) _ in
    (
      name_id fm v name id h,
      rw (v.decodes (name_tag ++ s)) (
          rw joined (
            rw (split_once-append bar name rest h)
              (rw (v.uuid_Free after (fm.show_uuid id)) refl))),
    )
