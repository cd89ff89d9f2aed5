-- ===== src/Notes/Sync/Mutated.antt =====
-- One mutation of a push is safe: it works on rows of its caller alone, and a note whose folder its
-- caller owned when the push began is filed there.
use meno.Prelude.{ℕ, refl, ◌&&◌, Option, none, some, arith, ltb, ◌==◌, length}
use meno.Notes.{Note, Folder, Store, note_not_found, folder_not_found, ok, ◌>>=◌}
use meno.Notes.Post.{
  Returns, Returns-bind, Returns-ok_or, Returns-if, update_note_where_rule, upsert_note_rule,
  update_folder_where_rule, upsert_folder_rule, fetch_one_rule,
}
use meno.Notes.Repository.{
  owned_note, put_note_snapshot, find_note_by_id, upsert_note_if_absent, new_note,
  apply_note_snapshot_if_version_matches, force_apply_note_snapshot,
}
use meno.Notes.Folders.{
  owned_folder, put_folder_snapshot, find_folder_by_id, upsert_folder_if_absent, new_folder,
  apply_folder_snapshot_if_version_matches, force_apply_folder_snapshot,
}
use meno.Notes.Sync.{
  NoteMutation, FolderMutation, applied_unpersisted, note_input, note_snapshot, folder_snapshot,
  applied_note, note_last_write, note_conflicts, note_collision, note_stale, note_by_version,
  apply_note_mutation, applied_folder, folder_last_write, folder_conflicts, folder_collision,
  folder_stale, folder_by_version, apply_folder_mutation, note_type, folder_type,
}
use meno.Notes.Sync.Isolation.{
  FiledIn, Safe, insert_note-Safe, update_note-Safe, insert_folder-Safe, update_folder-Safe,
}

module _ (creator : ℕ) (db : Store) where
  abbrev Stays : {A : Type 0} → A → Store → Type 0
  Stays a s = Safe creator db s

  filed_now :
      (s : Store) (o : Option ℕ)
      → Safe creator db s
      → FiledIn db.folders creator o
      → FiledIn s.folders creator o
  filed_now s none v h = tt
  filed_now s (some f) v h = v.kept f h

  module _ (now : ℕ) (m : NoteMutation) (h : FiledIn db.folders creator m.folder_id) where
    forced_note :
        (tx : Store)
        → Safe creator db tx
        → Returns Stays (force_apply_note_snapshot now m.id creator (note_snapshot m) tx)
    unfolding force_apply_note_snapshot
    forced_note tx v =
        fetch_one_rule Stays Stays _
          (update_note_where_rule Stays _ _ tx v λ r _ _.
            update_note-Safe creator db tx v (owned_note m.id creator)
              (put_note_snapshot now (note_snapshot m)) (λ r k. ground arith) (λ r. refl)
              (λ r. filed_now tx m.folder_id v h))
          (λ n s w. w)

    last_write :
        (tx : Store) (n : Note)
        → Safe creator db tx
        → Returns Stays (note_last_write now creator m tx n)
    unfolding note_last_write
    last_write tx n v =
        Returns-if Stays (ltb n.updated_at m.client_updated_at)
          (force_apply_note_snapshot now m.id creator (note_snapshot m) tx >>= applied_note) _
          (λ _.
            Returns-bind Stays Stays
              (force_apply_note_snapshot now m.id creator (note_snapshot m) tx) applied_note
              (forced_note tx v) (λ n s w. w))
          (λ _. v)

    collision :
        (o : Option Note) (tx : Store)
        → Safe creator db tx
        → Returns Stays (note_collision db now creator m (o, tx))
    unfolding note_collision
    collision (some n) tx v = v
    collision none tx v =
        Returns-ok_or Stays (find_note_by_id m.id creator db) note_not_found
          (note_last_write now creator m tx) (λ n _. last_write tx n v)

    stale :
        (o : Option Note) (tx : Store)
        → Safe creator db tx
        → Returns Stays (note_stale db creator m (o, tx))
    unfolding note_stale
    stale (some n) tx v = v
    stale none tx v =
        Returns-ok_or Stays (find_note_by_id m.id creator db) note_not_found (note_conflicts tx)
          (λ n _. v)

    by_version :
        (b : Option ℕ) (tx : Store)
        → Safe creator db tx
        → Returns Stays (note_by_version b db now creator m tx)
    unfolding note_by_version apply_note_snapshot_if_version_matches
    by_version none tx v =
        Returns-if Stays m.deleted (ok (applied_unpersisted m.id note_type, tx))
          (upsert_note_if_absent now (note_input creator m) tx >>= note_collision db now creator m)
          (λ _. v)
          (λ _.
            Returns-bind Stays Stays (upsert_note_if_absent now (note_input creator m) tx)
              (note_collision db now creator m)
              (upsert_note_rule Stays now (note_input creator m) tx v (λ _.
                insert_note-Safe creator db tx v (new_note now (note_input creator m)) refl
                  (filed_now tx m.folder_id v h)))
              collision)
    by_version (some b) tx v =
        Returns-bind Stays Stays
          (apply_note_snapshot_if_version_matches now m.id creator b (note_snapshot m) tx)
          (note_stale db creator m)
          (update_note_where_rule Stays _ _ tx v λ r _ _.
            update_note-Safe creator db tx v (λ r. owned_note m.id creator r && r.version == b)
              (put_note_snapshot now (note_snapshot m)) (λ r k. ground arith) (λ r. refl)
              (λ r. filed_now tx m.folder_id v h))
          stale

    pub note_mutation-Safe :
        (tx : Store) → Safe creator db tx → Returns Stays (apply_note_mutation db now creator m tx)
    unfolding apply_note_mutation
    note_mutation-Safe tx v =
        Returns-if Stays (ltb 100 (length m.title)) _ _ (λ _. v)
          λ _.
            Returns-if Stays (ltb 10000 (length m.content)) _
              (note_by_version m.base_version db now creator m tx) (λ _. v)
              (λ _. by_version m.base_version tx v)

  module _ (now : ℕ) (m : FolderMutation) where
    forced_folder :
        (tx : Store)
        → Safe creator db tx
        → Returns Stays (force_apply_folder_snapshot now m.id creator (folder_snapshot m) tx)
    unfolding force_apply_folder_snapshot
    forced_folder tx v =
        fetch_one_rule Stays Stays _
          (update_folder_where_rule Stays _ _ tx v λ r _.
            update_folder-Safe creator db tx v (owned_folder m.id creator)
              (put_folder_snapshot now (folder_snapshot m)) (λ r k. ground arith) (λ r. refl)
              (λ r. refl))
          (λ n s w. w)

    last_folder_write :
        (tx : Store) (f : Folder)
        → Safe creator db tx
        → Returns Stays (folder_last_write now creator m tx f)
    unfolding folder_last_write
    last_folder_write tx f v =
        Returns-if Stays (ltb f.updated_at m.client_updated_at)
          (force_apply_folder_snapshot now m.id creator (folder_snapshot m) tx >>= applied_folder) _
          (λ _.
            Returns-bind Stays Stays
              (force_apply_folder_snapshot now m.id creator (folder_snapshot m) tx) applied_folder
              (forced_folder tx v) (λ n s w. w))
          (λ _. v)

    collision_of_folder :
        (o : Option Folder) (tx : Store)
        → Safe creator db tx
        → Returns Stays (folder_collision db now creator m (o, tx))
    unfolding folder_collision
    collision_of_folder (some n) tx v = v
    collision_of_folder none tx v =
        Returns-ok_or Stays (find_folder_by_id m.id creator db) folder_not_found
          (folder_last_write now creator m tx) (λ n _. last_folder_write tx n v)

    stale_of_folder :
        (o : Option Folder) (tx : Store)
        → Safe creator db tx
        → Returns Stays (folder_stale db creator m (o, tx))
    unfolding folder_stale
    stale_of_folder (some n) tx v = v
    stale_of_folder none tx v =
        Returns-ok_or Stays (find_folder_by_id m.id creator db) folder_not_found
          (folder_conflicts tx) (λ n _. v)

    by_folder_version :
        (b : Option ℕ) (tx : Store)
        → Safe creator db tx
        → Returns Stays (folder_by_version b db now creator m tx)
    unfolding folder_by_version apply_folder_snapshot_if_version_matches
    by_folder_version none tx v =
        Returns-if Stays m.deleted (ok (applied_unpersisted m.id folder_type, tx))
          (upsert_folder_if_absent now m.id creator (folder_snapshot m) tx
            >>= folder_collision db now creator m)
          (λ _. v)
          (λ _.
            Returns-bind Stays Stays
              (upsert_folder_if_absent now m.id creator (folder_snapshot m) tx)
              (folder_collision db now creator m)
              (upsert_folder_rule Stays now m.id creator (folder_snapshot m) tx v (
                insert_folder-Safe creator db tx v (new_folder now m.id m.title m.pinned creator)
                  refl))
              collision_of_folder)
    by_folder_version (some b) tx v =
        Returns-bind Stays Stays
          (apply_folder_snapshot_if_version_matches now m.id creator b (folder_snapshot m) tx)
          (folder_stale db creator m)
          (update_folder_where_rule Stays _ _ tx v λ r _.
            update_folder-Safe creator db tx v (λ r. owned_folder m.id creator r && r.version == b)
              (put_folder_snapshot now (folder_snapshot m)) (λ r k. ground arith) (λ r. refl)
              (λ r. refl))
          stale_of_folder

    pub folder_mutation-Safe :
        (tx : Store)
        → Safe creator db tx
        → Returns Stays (apply_folder_mutation db now creator m tx)
    unfolding apply_folder_mutation
    folder_mutation-Safe tx v =
        Returns-if Stays (ltb 100 (length m.title)) _
          (folder_by_version m.base_version db now creator m tx) (λ _. v)
          (λ _. by_folder_version m.base_version tx v)
