-- ===== src/Notes/Pull.antt =====
-- `sync_pull` of apps/api/src/modules/notes/service.rs, with `find_notes_changed_since` and
-- `find_folders_changed_since` of repository.rs and the request and response of dto.rs. The response is
-- without `server_time`, which no client may resume from.
pub mod Complete
mod Examples
use meno.Prelude.{
  ℕ, zero, suc, ◌+◌, ◌-◌, ◌*◌, ◌/◌, ◌%◌, ◌^◌, ◌≤◌, ◌<◌, ◌≡◌, refl, sym, ap, ◌∙◌, ◌≢◌, ◌↔◌, ◌⊎◌, inl,
  inr, Bool, true, false, not, ◌&&◌, ◌||◌, Option, none, some, List, [], ◌∷◌, ◌++◌, map, arith, ltb,
  leb, ◌==◌, if◌then◌else◌, ltb→lt, lt→ltb, leb→le, ==_iff, ==_self, tests, Bool-cases,
  Option-cases, is_some, unwrap_or, or_else, length, take, drop, last, replicate, All,
  length-append, take-append-drop, length-take, take_all, All-append, All-map_iff, length-map,
}
use meno.Table.{select}
use meno.Prelude.Int.{ℤ, pos, clamp, ◌+ℤ◌}
use meno.Pagination.{Formats}
use meno.Pagination.Cursor.{from_timestamp_id}
use meno.Pagination.Page.{as_usize, Order, asc, Key, feed}
use meno.Notes.{
  Text, Note, Folder, Store, NoteDto, note_dto, FolderDto, folder_dto, Result, ok, err, ◌>>=◌,
}
use meno.Notes.Listing.{cursor_key}

pub record NotesSyncQuery : Type 0 where
  pub notes_cursor : Option Text
  pub folders_cursor : Option Text
  pub limit : Option ℤ

-- `NotesSyncQuery::limit`
unfoldable pub sync_limit : NotesSyncQuery → ℤ
unfolding clamp
sync_limit q = clamp (pos 1) (pos 500) (unwrap_or q.limit (pos 200))

pub record NotesSyncResponse : Type 0 where
  pub notes : List NoteDto
  pub notes_next_cursor : Option Text
  pub notes_has_more : Bool
  pub folders : List FolderDto
  pub folders_next_cursor : Option Text
  pub folders_has_more : Bool

abbrev pub note_updated : Note → Key
note_updated n = (pos n.updated_at, n.id)

abbrev pub folder_updated : Folder → Key
folder_updated f = (pos f.updated_at, f.id)

unfoldable pub find_notes_changed_since : ℕ → Option Key → ℤ → Store → List Note
unfolding feed
find_notes_changed_since creator_id k limit s =
    feed asc note_updated k limit (select (λ n. n.creator_id == creator_id) s.notes)

unfoldable pub find_folders_changed_since : ℕ → Option Key → ℤ → Store → List Folder
unfolding feed
find_folders_changed_since creator_id k limit s =
    feed asc folder_updated k limit (select (λ f. f.creator_id == creator_id) s.folders)

-- The cursor of the last row, or the cursor that the client sent.
unfoldable pub next_or_same : {A : Type 0} → (A → Text) → List A → Option Text → Option Text
next_or_same enc rows sent = or_else (elim (last rows) [ none ↦ none | some r ↦ some (enc r) ]) sent

module _ (fm : Formats) where
  abbrev pub note_cursor : Note → Text
  unfolding from_timestamp_id
  note_cursor n = from_timestamp_id fm (pos n.updated_at) n.id

  abbrev pub folder_cursor : Folder → Text
  unfolding from_timestamp_id
  folder_cursor f = from_timestamp_id fm (pos f.updated_at) f.id

  unfoldable pub respond : NotesSyncQuery → List Note → List Folder → NotesSyncResponse
  unfolding sync_limit next_or_same note_dto folder_dto
  respond q note_rows folder_rows =
      let limit = as_usize (sync_limit q) in
      let kept_notes = take limit note_rows in
      let kept_folders = take limit folder_rows in
      record {
        notes = map note_dto kept_notes;
        notes_next_cursor = next_or_same note_cursor kept_notes q.notes_cursor;
        notes_has_more = ltb limit (length note_rows);
        folders = map folder_dto kept_folders;
        folders_next_cursor = next_or_same folder_cursor kept_folders q.folders_cursor;
        folders_has_more = ltb limit (length folder_rows);
      }

  unfoldable pub sync_pull : ℕ → NotesSyncQuery → Store → Result NotesSyncResponse
  unfolding respond cursor_key find_notes_changed_since find_folders_changed_since sync_limit ◌+ℤ◌
  sync_pull creator_id q s = cursor_key fm q.notes_cursor >>= (λ notes_key.
      cursor_key fm q.folders_cursor >>= (λ folders_key. ok (
        respond q (find_notes_changed_since creator_id notes_key (sync_limit q +ℤ pos 1) s)
          (find_folders_changed_since creator_id folders_key (sync_limit q +ℤ pos 1) s))))
