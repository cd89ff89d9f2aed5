-- ===== src/Notes/Pull/Examples.antt =====
-- Runs of the listings and of `sync_pull` of apps/api/src/modules/notes.
use meno.Prelude.{ℕ, ◌≡◌, refl, true, false, Option, none, some, [], ◌∷◌, map, arith, ◌==◌}
use meno.Table.{select}
use meno.Prelude.Int.{pos}
use meno.Pagination.Page.{desc, asc, Key, order_by}
use meno.Pagination.Page.Walk.{walk}
use meno.Pagination.Plain.{plain, plain-Lawful, early}
use meno.Notes.{Text, Note, Folder, Store, note_dto, folder_dto, ok}
use meno.Notes.Listing.{TextSearch, NotesQuery, note_created, wanted_note, get_notes, cursor_key}
use meno.Notes.Listing.Complete.{answered, notes_from, follow_notes}
use meno.Notes.Pull.{NotesSyncQuery, note_updated, folder_updated, sync_pull}
use meno.Notes.Pull.Complete.{then_page, notes_of, folders_of, pull_from, pull_both}

-- Note `id`, made at `at`, of a user.
abbrev row : ℕ → ℕ → ℕ → Note
row id creator at = record {
  id = id;
  title = [];
  content = 98 ∷ [];
  pinned = false;
  folder_id = none;
  creator_id = creator;
  version = 1;
  created_at = at;
  updated_at = at;
  deleted_at = none;
}

abbrev folder_row : ℕ → ℕ → ℕ → Folder
folder_row id creator at = record {
  id = id;
  title = [];
  pinned = false;
  creator_id = creator;
  version = 1;
  created_at = at;
  updated_at = at;
  deleted_at = none;
}

abbrev db : Store
db = record {
  notes = row 4 1 20 ∷ row 5 1 30 ∷ row 6 2 25 ∷ row 7 1 30 ∷ [];
  folders = folder_row 1 1 20 ∷ folder_row 2 1 10 ∷ [];
}

abbrev any_text : TextSearch
any_text = record { trim = λ t. t; matches = λ d k. true }

abbrev one_by_one : NotesQuery
one_by_one = record {
  folder_id = none;
  pinned = none;
  keywords = none;
  pagination = record { cursor = none; limit = some (pos 1) };
}

newest_first :
    map
      (λ (n : Note). n.id)
      (order_by desc note_created (select (wanted_note any_text 1 one_by_one) db.notes))
    ≡ 7 ∷ 5 ∷ 4 ∷ []
unfolding order_by select wanted_note
newest_first = refl

follow_notes_example :
    walk (λ c. answered (get_notes plain any_text 1 (notes_from one_by_one c) db)) 5 none
    ≡ some (
        map note_dto
          (order_by desc note_created (select (wanted_note any_text 1 one_by_one) db.notes)))
unfolding plain early
follow_notes_example =
    follow_notes plain any_text 1 db one_by_one 4 plain-Lawful
      ((refl, (refl, (refl, tt))), ((refl, (refl, tt)), ((refl, tt), (tt, tt))))
      (refl, (refl, (refl, (refl, tt)))) (omega arith)

abbrev pull_one : NotesSyncQuery
pull_one = record { notes_cursor = none; folders_cursor = none; limit = some (pos 1) }

abbrev stay : Option Text → Option Text
stay c = none

readable : (c : Option Text) → (k : Option Key) × (cursor_key plain (stay c) ≡ ok k)
unfolding cursor_key
readable c = (none, refl)

pull_both_example :
    (walk (λ c. then_page notes_of (sync_pull plain 1 (pull_from pull_one c (stay c)) db)) 5 none
      ≡ some (map note_dto (order_by asc note_updated (select (λ r. r.creator_id == 1) db.notes))))
    × (walk
          (λ c. then_page folders_of (sync_pull plain 1 (pull_from pull_one (stay c) c) db))
          5
          none
        ≡ some (
            map folder_dto
              (order_by asc folder_updated (select (λ r. r.creator_id == 1) db.folders))))
unfolding plain early
pull_both_example =
    pull_both plain 1 db pull_one stay 4 plain-Lawful readable
      ((refl, (refl, (refl, tt))), ((refl, (refl, tt)), ((refl, tt), (tt, tt))))
      ((refl, tt), (tt, tt)) (refl, (refl, (refl, (refl, tt)))) (refl, (refl, tt)) (omega arith)
      (omega arith)
