-- ===== src/Pagination/Examples.antt =====
-- Runs of the cursors and pages of apps/api/src/shared/pagination.rs.
use meno.Prelude.{List, ◌≡◌, refl, none, some, [], ◌∷◌, ◌++◌, arith}
use meno.Prelude.Int.{pos, negsuc}
use meno.Prelude.Results.{ok, err}
use meno.Pagination.{invalid_shape}
use meno.Pagination.Cursor.{
  bar, from_timestamp_id, from_two_timestamps_id, from_score_id, from_name_id,
  from_rank_timestamp_id, to_timestamp_id, to_two_timestamps_id, to_score_id, to_name_id,
  to_rank_timestamp_id,
}
use meno.Pagination.Cursor.RoundTrip.{cursor_read_back, name_cursor}
use meno.Pagination.Page.{CursorParams, Key}
use meno.Pagination.Plain.{plain, plain-Lawful, early, count_zeros, zeros}

cursor_read_back_example :
    (to_timestamp_id plain (from_timestamp_id plain (pos 17) 3) ≡ ok (pos 17, 3))
    × (to_two_timestamps_id plain (from_two_timestamps_id plain (pos 17) (pos 90) 3)
        ≡ ok (pos 17, pos 90, 3))
    × (to_score_id plain (from_score_id plain (negsuc 4) 3) ≡ ok (negsuc 4, 3))
    × (to_rank_timestamp_id plain (from_rank_timestamp_id plain 2 (pos 17) 3) ≡ ok (2, pos 17, 3))
unfolding plain early count_zeros zeros
cursor_read_back_example =
    cursor_read_back plain (pos 17) (pos 90) (negsuc 4) 2 3 plain-Lawful refl refl (omega arith)
      (omega arith) refl

name_cursor_example :
    (to_name_id plain (from_name_id plain (97 ∷ 98 ∷ []) 3) ≡ ok (97 ∷ 98 ∷ [], 3))
    × (to_name_id plain (from_name_id plain ((97 ∷ 98 ∷ []) ++ bar ∷ 99 ∷ []) 3)
        ≡ err invalid_shape)
name_cursor_example = name_cursor plain (97 ∷ 98 ∷ []) (99 ∷ []) 3 plain-Lawful (refl, (refl, tt))

abbrev wide : CursorParams
wide = record { cursor = none; limit = some (pos 500) }

abbrev three_keys : List Key
three_keys = (pos 5, 1) ∷ (pos 7, 2) ∷ (pos 9, 3) ∷ []
