-- ===== src/Notes/Sync/Batch.antt =====
-- A note filed into a folder of its own batch.
use meno.Prelude.{
  ℕ, ◌≤◌, ◌≡◌, refl, Bool, false, ◌&&◌, Option, none, some, List, [], ◌∷◌, map, arith, ◌==◌, length,
}
use meno.Table.{exists, select, contains}
use meno.Notes.{Text, Folder, Store, note_dto, folder_dto, note_entity, folder_entity, ok}
use meno.Notes.Repository.{new_note}
use meno.Notes.Folders.{owned_folder_ids, new_folder}
use meno.Notes.Sync.{
  NoteMutation, FolderMutation, note, folder, note_type, folder_type, applied, note_input,
  apply_note_mutation, apply_folder_mutation,
}
use meno.Notes.Sync.Order.{enumerate, sort_by_key}
use meno.Notes.Sync.Push.{
  folder_mutations, note_mutations, apply_folders, referenced_folder_ids, owned_set, owned_or_none,
  unfile, apply_notes, push_batch, sync_push,
}

-- The mutations that a client queues when it makes a folder and files a new note into it offline.
abbrev pub make_folder : ℕ → Text → Bool → ℕ → FolderMutation
make_folder id title pinned at = record {
  id = id;
  title = title;
  pinned = pinned;
  deleted = false;
  base_version = none;
  client_updated_at = at;
}

abbrev pub make_note : ℕ → Text → Text → Bool → Option ℕ → ℕ → NoteMutation
make_note id title content pinned dir at = record {
  id = id;
  title = title;
  content = content;
  pinned = pinned;
  folder_id = dir;
  deleted = false;
  base_version = none;
  client_updated_at = at;
}

module _ (creator f : ℕ) where
  abbrev wanted : Folder → Bool
  wanted r = r.creator_id == creator && contains r.id (f ∷ [])

  none_selected :
      (rows : List Folder)
      → exists (λ r. r.id == f) rows ≡ false
      → contains f (map (λ r. r.id) (select wanted rows)) ≡ false
  unfolding exists select contains
  none_selected [] h = refl
  none_selected (r ∷ rows) h = ground (arith, none_selected rows)

module _ (now creator : ℕ) (db : Store) where
  folder_applied :
      (m : FolderMutation) (tx : Store)
      → m.base_version ≡ none
      → m.deleted ≡ false
      → length m.title ≤ 100
      → exists (λ r. r.id == m.id) tx.folders ≡ false
      → let dir = new_folder now m.id m.title m.pinned creator in
        apply_folder_mutation db now creator m tx
        ≡ ok (
          applied folder_type (folder_entity (folder_dto dir)),
          record tx { folders = dir ∷ tx.folders },
        )
  unfolding apply_folder_mutation
  folder_applied m tx v d a h = rw v (rw d (rw h (ground arith)))

  note_applied :
      (m : NoteMutation) (tx : Store)
      → m.base_version ≡ none
      → m.deleted ≡ false
      → length m.title ≤ 100
      → length m.content ≤ 10000
      → m.folder_id ≡ none
      → exists (λ r. r.id == m.id) tx.notes ≡ false
      → let row = new_note now (note_input creator m) in
        apply_note_mutation db now creator m tx
        ≡ ok (applied note_type (note_entity (note_dto row)), record tx { notes = row ∷ tx.notes })
  unfolding apply_note_mutation
  note_applied m tx v d a b o h = rw v (rw d (rw h (rw o (ground arith))))

-- The comment in the code says that folders are applied first so that a note may name a folder of
-- its own batch. The ownership query does not see the transaction: when a client pushes a new folder
-- and a new note filed into it, both ids unknown to the server and the texts within their limits, the
-- push succeeds, both rows are written, and the note is in no folder.
pub batch_folder_lost :
    (now creator f n at : ℕ) (title content name : Text) (pinned pinned' : Bool) (s : Store)
    → exists (λ r. r.id == f) s.folders ≡ false
    → exists (λ r. r.id == n) s.notes ≡ false
    → length title ≤ 100
    → length content ≤ 10000
    → length name ≤ 100
    → let row = new_note now (note_input creator (make_note n title content pinned none at)) in
      let dir = new_folder now f name pinned' creator in
      sync_push now creator
        (folder (make_folder f name pinned' at)
          ∷ note (make_note n title content pinned (some f) at)
          ∷ [])
        s
      ≡ ok (
        applied folder_type (folder_entity (folder_dto dir))
            ∷ applied note_type (note_entity (note_dto row))
            ∷ [],
        record { notes = row ∷ s.notes; folders = dir ∷ s.folders },
      )
unfolding sync_push push_batch apply_folders apply_notes folder_mutations note_mutations enumerate
    sort_by_key referenced_folder_ids owned_set owned_folder_ids unfile owned_or_none
batch_folder_lost now creator f n at title content name pinned pinned' s h k a b c =
    rw (folder_applied now creator s (make_folder f name pinned' at) s refl refl c h) (
      rw (none_selected creator f s.folders h) (
        rw
          (note_applied now creator s (make_note n title content pinned none at)
            (record s { folders = new_folder now f name pinned' creator ∷ s.folders }) refl refl a b
            refl k)
          refl))
