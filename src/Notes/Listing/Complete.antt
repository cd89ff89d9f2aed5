-- ===== src/Notes/Listing/Complete.antt =====
-- A client that follows the cursors of a listing of notes or folders gets all of them.
use meno.Prelude.{
  ℕ, suc, ◌≤◌, ◌≡◌, refl, ap, ◌∙◌, true, Option, none, some, map, arith, length, All,
}
use meno.Table.{select}
use meno.Prelude.Int.{pos}
use meno.Pagination.{Formats}
use meno.Pagination.Cursor.{from_timestamp_id}
use meno.Pagination.Cursor.RoundTrip.{Lawful, timestamp_id}
use meno.Pagination.Page.{limit_of, CursorPage, from_rows, desc, Key, order_by, feed}
use meno.Pagination.Page.Sorting.{Distinct}
use meno.Pagination.Page.Walk.{walk}
use meno.Pagination.Page.Feeds.{follow, select-All, length-select, Distinct-select}
use meno.Pagination.Page.Bounds.{limit_within, limit_from, next_size, positive}
use meno.Notes.{Text, Store, NoteDto, note_dto, FolderDto, folder_dto, Result, ok, err}
use meno.Notes.Listing.{
  TextSearch, NotesQuery, FoldersQuery, note_created, folder_created, cursor_key, wanted_note,
  find_notes, get_notes, wanted_folder, find_folders, get_folders,
}

-- What a client makes of an answer: a page, or nothing.
unfoldable pub answered : {A : Type 0} → Result A → Option A
answered (ok a) = some a
answered (err e) = none

-- The query after the first page.
abbrev pub notes_from : NotesQuery → Option Text → NotesQuery
notes_from q c = record q { pagination = record q.pagination { cursor = c } }

abbrev pub folders_from : FoldersQuery → Option Text → FoldersQuery
folders_from q c = record q { pagination = record q.pagination { cursor = c } }

pub read_cursor :
    (fm : Formats) (ts id : ℕ)
    → Lawful fm
    → fm.is_instant (pos ts) ≡ true
    → cursor_key fm (some (from_timestamp_id fm (pos ts) id)) ≡ ok (some (pos ts, id))
unfolding cursor_key
read_cursor fm ts id v h = rw (timestamp_id fm v (pos ts) id h) refl

module _ (fm : Formats) (search : TextSearch) (creator_id : ℕ) (s : Store) where
  notes_page :
      (q : NotesQuery) (m : ℕ) (k : Option Key)
      → limit_of q.pagination ≡ pos (suc m)
      → cursor_key fm q.pagination.cursor ≡ ok k
      → get_notes fm search creator_id q s
        ≡ ok (
            from_rows
              (map note_dto (
                feed desc note_created k
                  (pos (suc (suc m)))
                  (select (wanted_note search creator_id q) s.notes)))
              (pos (suc m))
              (λ n. from_timestamp_id fm (pos n.created_at) n.id))
  unfolding get_notes find_notes
  notes_page q m k l h = rw (h, next_size q.pagination m l, l) refl

  folders_page :
      (q : FoldersQuery) (m : ℕ) (k : Option Key)
      → limit_of q.pagination ≡ pos (suc m)
      → cursor_key fm q.pagination.cursor ≡ ok k
      → get_folders fm search creator_id q s
        ≡ ok (
            from_rows
              (map folder_dto (
                feed desc folder_created k
                  (pos (suc (suc m)))
                  (select (wanted_folder search creator_id q) s.folders)))
              (pos (suc m))
              (λ n. from_timestamp_id fm (pos n.created_at) n.id))
  unfolding get_folders find_folders
  folders_page q m k l h = rw (h, next_size q.pagination m l, l) refl

  -- A client lists the notes that a query wants, page after page, each with the cursor of the page
  -- before. It gets each of them once, the newest first, as if there were no pages, and stops
  -- after at most one page more than there are notes. No two notes have one id, and the times of the notes
  -- are instants of `time`.
  pub follow_notes :
      (q : NotesQuery) (fuel : ℕ)
      → Lawful fm
      → Distinct desc note_created s.notes
      → All (λ r. fm.is_instant (pos r.created_at) ≡ true) s.notes
      → length s.notes ≤ fuel
      → walk (λ c. answered (get_notes fm search creator_id (notes_from q c) s)) (suc fuel) none
        ≡ some (
            map note_dto
              (order_by desc note_created (select (wanted_note search creator_id q) s.notes)))
  unfolding answered wanted_note cursor_key note_dto
  follow_notes q fuel v d instants enough =
      let rows = select (wanted_note search creator_id q) s.notes in
      let (m, l) = positive (limit_of q.pagination) (limit_within q.pagination).0 in
      let page : Option Text → Option (CursorPage NoteDto) =
        λ c. answered (get_notes fm search creator_id (notes_from q c) s) in
      let at = λ (c : Option Text) (k : Option Key) (h : cursor_key fm c ≡ ok k).
        ap answered (notes_page (notes_from q c) m k (limit_from q.pagination c ∙ l) h) in
      follow desc note_created note_dto (λ r. from_timestamp_id fm (pos r.created_at) r.id)
        (λ r. fm.is_instant (pos r.created_at) ≡ true) rows m page (at none none refl)
        (λ c h. at _ (some (note_created c)) (read_cursor fm c.created_at c.id v h))
        (Distinct-select desc note_created (wanted_note search creator_id q) s.notes d)
        (select-All (wanted_note search creator_id q) (λ r. fm.is_instant (pos r.created_at) ≡ true)
          s.notes instants)
        fuel (omega (arith, length-select (wanted_note search creator_id q) s.notes))

  pub follow_folders :
      (q : FoldersQuery) (fuel : ℕ)
      → Lawful fm
      → Distinct desc folder_created s.folders
      → All (λ r. fm.is_instant (pos r.created_at) ≡ true) s.folders
      → length s.folders ≤ fuel
      → walk (λ c. answered (get_folders fm search creator_id (folders_from q c) s)) (suc fuel) none
        ≡ some (
            map folder_dto
              (order_by desc folder_created (select (wanted_folder search creator_id q) s.folders)))
  unfolding answered wanted_folder cursor_key folder_dto
  follow_folders q fuel v d instants enough =
      let rows = select (wanted_folder search creator_id q) s.folders in
      let (m, l) = positive (limit_of q.pagination) (limit_within q.pagination).0 in
      let page : Option Text → Option (CursorPage FolderDto) =
        λ c. answered (get_folders fm search creator_id (folders_from q c) s) in
      let at = λ (c : Option Text) (k : Option Key) (h : cursor_key fm c ≡ ok k).
        ap answered (folders_page (folders_from q c) m k (limit_from q.pagination c ∙ l) h) in
      follow desc folder_created folder_dto (λ r. from_timestamp_id fm (pos r.created_at) r.id)
        (λ r. fm.is_instant (pos r.created_at) ≡ true) rows m page (at none none refl)
        (λ c h. at _ (some (folder_created c)) (read_cursor fm c.created_at c.id v h))
        (Distinct-select desc folder_created (wanted_folder search creator_id q) s.folders d)
        (select-All (wanted_folder search creator_id q)
          (λ r. fm.is_instant (pos r.created_at) ≡ true) s.folders instants)
        fuel (omega (arith, length-select (wanted_folder search creator_id q) s.folders))
