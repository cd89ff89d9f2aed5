-- ===== src/Notes/Service.antt =====
-- apps/api/src/modules/notes/service.rs: the operations on one note or one folder. Each statement
-- commits by itself; an operation that fails has written nothing.
pub mod Versions
pub mod Move
use meno.Prelude.{
  ℕ, zero, suc, ◌+◌, ◌-◌, ◌*◌, ◌/◌, ◌%◌, ◌^◌, ◌≤◌, ◌<◌, ◌≡◌, refl, sym, ap, ◌∙◌, ◌≢◌, ◌↔◌, ◌⊎◌, inl,
  inr, Bool, true, false, not, ◌&&◌, ◌||◌, Option, none, some, List, [], ◌∷◌, ◌++◌, map, arith, ltb,
  leb, ◌==◌, if◌then◌else◌, ltb→lt, lt→ltb, leb→le, ==_iff, ==_self, tests, Bool-cases,
  Option-cases, is_some, unwrap_or, or_else, length, take, drop, last, replicate, All,
  length-append, take-append-drop, length-take, take_all, All-append, All-map_iff, length-map,
}
use meno.Table.{contains, find}
use meno.Notes.{
  Text, Note, Folder, Store, NoteDto, note_dto, FolderDto, folder_dto, ConflictEntity, note_entity,
  folder_entity, NotesError, note_not_found, folder_not_found, bad_request, not_note_owner,
  not_folder_owner, version_conflict, Result, ok, err, ◌>>=◌, ok_or, Write,
}
use meno.Notes.Repository.{
  CreateNoteInput, UpdateNoteInput, find_note_by_id, update_note_by_version, soft_delete_note,
  remove_note_from_folder,
}
use meno.Notes.Repository
use meno.Notes.Folders.{
  CreateFolderInput, UpdateFolderInput, find_folder_by_id, update_folder_by_version,
  soft_delete_folder,
}
use meno.Notes.Folders

-- `NoteDto::from(note)`, with the tables after the write.
abbrev reply_note : Note × Store → Write NoteDto
unfolding note_dto
reply_note (n, s) = ok (note_dto n, s)

abbrev reply_folder : Folder × Store → Write FolderDto
unfolding folder_dto
reply_folder (f, s) = ok (folder_dto f, s)

-- What a service answers when the versioned statement hit no row: the row as it is now, if the
-- caller has one, as a conflict.
note_conflict : ℕ → ℕ → Option Note × Store → Write NoteDto
unfolding note_dto find_note_by_id
note_conflict id creator (some n, s) = ok (note_dto n, s)
note_conflict id creator (none, s) = do
  n ← ok_or (find_note_by_id id creator s) note_not_found
  err (version_conflict (note_entity (note_dto n)))

folder_conflict : ℕ → ℕ → Option Folder × Store → Write FolderDto
unfolding folder_dto find_folder_by_id
folder_conflict id creator (some f, s) = ok (folder_dto f, s)
folder_conflict id creator (none, s) = do
  f ← ok_or (find_folder_by_id id creator s) folder_not_found
  err (version_conflict (folder_entity (folder_dto f)))

unfoldable pub create_note : ℕ → CreateNoteInput → Store → Write NoteDto
unfolding reply_note Repository.create_note
create_note now input s = do r ← Repository.create_note now input s; reply_note r

unfoldable pub update_note : ℕ → UpdateNoteInput → Store → Write NoteDto
unfolding note_conflict update_note_by_version
update_note now input s = do
  r ← update_note_by_version now input s
  note_conflict input.note_id input.creator_id r

unfoldable pub delete_note : ℕ → ℕ → ℕ → ℕ → Store → Write NoteDto
unfolding note_conflict soft_delete_note
delete_note now id creator base_version s = do
  r ← soft_delete_note now id creator base_version s
  note_conflict id creator r

unfoldable pub create_folder : ℕ → CreateFolderInput → Store → Write FolderDto
unfolding reply_folder Folders.create_folder
create_folder now input s = do r ← Folders.create_folder now input s; reply_folder r

unfoldable pub update_folder : ℕ → UpdateFolderInput → Store → Write FolderDto
unfolding folder_conflict update_folder_by_version
update_folder now input s = do
  r ← update_folder_by_version now input s
  folder_conflict input.folder_id input.creator_id r

-- The request's `should_delete_notes` is not read.
unfoldable pub delete_folder : ℕ → ℕ → ℕ → ℕ → Store → Write FolderDto
unfolding folder_conflict soft_delete_folder
delete_folder now id creator base_version s = do
  r ← soft_delete_folder now id creator base_version s
  folder_conflict id creator r

abbrev filed_in : Option ℕ → ℕ → Bool
filed_in none folder = false
filed_in (some f) folder = f == folder

abbrev or_conflict : Note → Option Note × Store → Write NoteDto
unfolding note_dto
or_conflict note (some n, s) = ok (note_dto n, s)
or_conflict note (none, s) = err (version_conflict (note_entity (note_dto note)))

unfoldable pub add_note_to_folder : ℕ → ℕ → ℕ → ℕ → Store → Write NoteDto
unfolding find_note_by_id find_folder_by_id Repository.add_note_to_folder note_dto or_conflict
add_note_to_folder now creator note_id folder_id s = do
  note ← ok_or (find_note_by_id note_id creator s) note_not_found
  folder ← ok_or (find_folder_by_id folder_id creator s) folder_not_found
  if filed_in note.folder_id folder_id
      then ok (note_dto note, s)
      else if not (note.creator_id == creator)
      then err not_note_owner
      else if not (folder.creator_id == creator)
      then err not_folder_owner
      else (do
        r ← Repository.add_note_to_folder now creator note_id folder_id s
        or_conflict note r)

abbrev or_missing : Option Note × Store → Write NoteDto
unfolding note_dto
or_missing (some n, s) = ok (note_dto n, s)
or_missing (none, s) = err note_not_found

unfoldable pub remove_note_to_folder : ℕ → ℕ → ℕ → ℕ → Store → Write NoteDto
unfolding remove_note_from_folder or_missing
remove_note_to_folder now creator note_id folder_id s = do
  r ← remove_note_from_folder now creator note_id folder_id s
  or_missing r
