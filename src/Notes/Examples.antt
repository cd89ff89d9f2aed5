-- ===== src/Notes/Examples.antt =====
-- Concrete pushes and edits of notes, and the theorems about them at these.
use meno.Prelude.{ℕ, ◌≡◌, refl, true, false, Option, none, some, List, [], ◌∷◌, map, arith, All}
use meno.Notes.{
  Text, Note, Store, NoteDto, note_dto, folder_dto, note_entity, folder_entity, version_conflict,
  Result, ok, err, Write,
}
use meno.Notes.Repository.{UpdateNoteInput, new_note, find_note_by_id}
use meno.Notes.Folders.{new_folder, owned_folder_ids}
use meno.Notes.Service.{update_note, delete_note}
use meno.Notes.Service.Versions.{lost_update_refused}
use meno.Notes.Sync.{
  NoteMutation, SyncMutation, note, folder, note_type, folder_type, MutationResult, was_applied,
  was_conflict, applied, note_input, apply_folder_mutation, apply_note_mutation,
}
use meno.Notes.Sync.Order.{enumerate, sort_by_key}
use meno.Notes.Sync.Push.{
  sync_push, apply_folders, apply_notes, folder_mutations, note_mutations, unfile, owned_set,
  referenced_folder_ids,
}
use meno.Notes.Service.Move.{move_notes_to_folder, move_notes_to_folder-Safe}
use meno.Notes.Purge.{
  purge_stale, stale_note, stale_folder, gone_folders, let_go, purge_stale-delete,
}
use meno.Table.{delete, find, exists, select, update, contains}
use meno.Notes.Sync.Results.{result_ref, mutation_ref}
use meno.Notes.Sync.Positions.{sync_push-positional}
use meno.Notes.Sync.Isolation.{Safe, IsFiled}
use meno.Notes.Sync.Ownership.{sync_push-Safe}
use meno.Notes.Sync.Batch.{make_folder, make_note, batch_folder_lost}

abbrev row : ℕ → Text → Option ℕ → ℕ → ℕ → Note
row id title folder_id creator version = record {
  id = id;
  title = title;
  content = [];
  pinned = false;
  folder_id = folder_id;
  creator_id = creator;
  version = version;
  created_at = 1;
  updated_at = 2;
  deleted_at = none;
}

-- User 1 has folder 50 and note 7, user 2 has folder 60 and note 8.
abbrev db : Store
db = record {
  notes = row 7 (1 ∷ []) (some 50) 1 3 ∷ row 8 (2 ∷ []) (some 60) 2 1 ∷ [];
  folders = new_folder 1 50 [] false 1 ∷ new_folder 1 60 [] false 2 ∷ [];
}

abbrev edit_7 : Option ℕ → NoteMutation
edit_7 version = record {
  id = 7;
  title = 4 ∷ [];
  content = 5 ∷ [];
  pinned = true;
  folder_id = some 60;
  deleted = false;
  base_version = version;
  client_updated_at = 9;
}

-- A note, a folder, an edit of a note from a stale version, and one that names the folder of user 2.
abbrev batch : List SyncMutation
batch =
    note (make_note 20 [] [] false (some 50) 9)
    ∷ folder (make_folder 51 [] true 9)
    ∷ note (edit_7 (some 2))
    ∷ note (edit_7 (some 3))
    ∷ []

abbrev answers_of : Write (List MutationResult) → List MutationResult
answers_of (ok (rs, _)) = rs
answers_of (err _) = []

abbrev tables_of {ℓ} : {A : Type ℓ} → Result (A × Store) → Store
tables_of (ok (_, s)) = s
tables_of (err _) = db

abbrev after : Store
after = tables_of (sync_push 10 1 batch db)

abbrev answers : List MutationResult
answers = answers_of (sync_push 10 1 batch db)

push_answers : sync_push 10 1 batch db ≡ ok (answers, after)
unfolding sync_push apply_folders folder_mutations enumerate apply_folder_mutation exists
    apply_notes note_mutations apply_note_mutation unfile contains owned_set referenced_folder_ids
    owned_folder_ids select find
push_answers = refl

-- The first note is written, the new folder too, the stale edit is answered by a conflict, and the
-- edit that names a foreign folder is written without it.
push_outcomes :
    map (λ r. r.outcome) answers ≡ was_applied ∷ was_applied ∷ was_conflict ∷ was_applied ∷ []
unfolding sync_push apply_folders folder_mutations enumerate apply_folder_mutation exists
    apply_notes note_mutations apply_note_mutation unfile contains owned_set referenced_folder_ids
    owned_folder_ids select find sort_by_key
push_outcomes = refl

push_folders : map (λ (r : Note). r.folder_id) after.notes ≡ some 50 ∷ none ∷ some 60 ∷ []
unfolding sync_push apply_folders folder_mutations enumerate apply_folder_mutation exists
    apply_notes note_mutations apply_note_mutation unfile contains owned_set referenced_folder_ids
    owned_folder_ids select find update
push_folders = refl

sync_push-positional_example : map result_ref answers ≡ map mutation_ref batch
sync_push-positional_example = sync_push-positional 10 1 batch db after answers push_answers

db-IsFiled : IsFiled db
unfolding exists
db-IsFiled = (refl, (refl, tt))

sync_push-Safe_example : Safe 1 db after
sync_push-Safe_example = sync_push-Safe 10 1 batch db after answers db-IsFiled push_answers

batch_folder_lost_example :
    sync_push 10 1
      (folder (make_folder 51 (3 ∷ []) true 9) ∷ note (make_note 20 [] [] false (some 51) 9) ∷ [])
      db
    ≡ ok (
      applied folder_type (folder_entity (folder_dto (new_folder 10 51 (3 ∷ []) true 1)))
          ∷ applied note_type (
              note_entity (note_dto (new_note 10 (note_input 1 (make_note 20 [] [] false none 9)))))
          ∷ [],
      record {
        notes = new_note 10 (note_input 1 (make_note 20 [] [] false none 9)) ∷ db.notes;
        folders = new_folder 10 51 (3 ∷ []) true 1 ∷ db.folders;
      },
    )
unfolding exists
batch_folder_lost_example =
    batch_folder_lost 10 1 51 20 9 [] [] (3 ∷ []) false true db refl refl (omega arith)
      (omega arith) (omega arith)

abbrev edit : Text → UpdateNoteInput
edit title = record {
  title = some title;
  content = none;
  pinned = none;
  folder_id = none;
  note_id = 7;
  creator_id = 1;
  base_version = 3;
}

abbrev dto_of : Write NoteDto → NoteDto
unfolding note_dto
dto_of (ok (d, _)) = d
dto_of (err _) = note_dto (row 0 [] none 0 0)

abbrev edited : Store
edited = tables_of (update_note 10 (edit (6 ∷ [])) db)

edit_answer :
    update_note 10 (edit (6 ∷ [])) db ≡ ok (dto_of (update_note 10 (edit (6 ∷ [])) db), edited)
unfolding update_note find
edit_answer = refl

lost_update_refused_example :
    (n : Note) × ((dto_of (update_note 10 (edit (6 ∷ [])) db)).version ≡ 4)
    × (find_note_by_id 7 1 edited ≡ some n)
    × (update_note 11 (edit (8 ∷ [])) edited ≡ err (version_conflict (note_entity (note_dto n))))
    × (delete_note 11 7 1 3 edited ≡ err (version_conflict (note_entity (note_dto n))))
lost_update_refused_example =
    lost_update_refused 10 11 (edit (6 ∷ [])) (edit (8 ∷ [])) db edited
      (dto_of (update_note 10 (edit (6 ∷ [])) db)) edit_answer refl refl refl

-- Folder 70 of user 1 and note 9 were deleted at 3; note 10 lies in folder 70.
abbrev old : Store
old = record {
  notes = record (row 9 [] none 1 2) { deleted_at = some 3 } ∷ row 10 [] (some 70) 1 1 ∷ db.notes;
  folders = record (new_folder 1 70 [] false 1) { deleted_at = some 3 } ∷ db.folders;
}

purge_stale-delete_example :
    purge_stale 90 5 old
    ≡ some (
      (1, 1),
      record {
        notes = let_go 90 (gone_folders 5 old.folders) (delete (stale_note 5) old.notes);
        folders = delete (stale_folder 5) old.folders;
      },
    )
unfolding select
purge_stale-delete_example = purge_stale-delete 90 5 old (omega arith) (omega arith)

abbrev dtos_of : Write (List NoteDto) → List NoteDto
dtos_of (ok (ds, _)) = ds
dtos_of (err _) = []

-- User 1 names the note of user 2 too, which stays where it is.
abbrev moved_dtos : List NoteDto
moved_dtos = dtos_of (move_notes_to_folder 10 1 (7 ∷ 8 ∷ []) (some 50) db)

abbrev moved_db : Store
moved_db = tables_of (move_notes_to_folder 10 1 (7 ∷ 8 ∷ []) (some 50) db)

move_answer : move_notes_to_folder 10 1 (7 ∷ 8 ∷ []) (some 50) db ≡ ok (moved_dtos, moved_db)
unfolding move_notes_to_folder find exists contains
move_answer = refl

one_moved : map (λ (d : NoteDto). d.id) moved_dtos ≡ 7 ∷ []
unfolding move_notes_to_folder find exists contains select note_dto
one_moved = refl

move_notes_to_folder-Safe_example :
    Safe 1 db moved_db × All (λ (d : NoteDto). d.folder_id ≡ some 50) moved_dtos
move_notes_to_folder-Safe_example =
    move_notes_to_folder-Safe 10 1 (7 ∷ 8 ∷ []) (some 50) db moved_db moved_dtos db-IsFiled
      move_answer
