-- ===== src/Notes/Sync/Results.antt =====
-- The results of a push answer its mutations one by one.
use meno.Prelude.{
  ℕ, ◌≡◌, refl, inl, inr, ◌&&◌, Option, none, some, arith, ltb, ◌==◌, Bool-cases, length,
}
use meno.Table.Laws.{find_passes}
use meno.Notes.{note_not_found, folder_not_found, Note, Folder, Store, ok, ◌>>=◌}
use meno.Notes.Post.{
  Returns, Returns-bind, Returns-ok_or, Returns-if, update_note_where_rule, upsert_note_rule,
  update_folder_where_rule, upsert_folder_rule, fetch_one_rule,
}
use meno.Notes.Repository.{
  owned_note, live_note, find_note_by_id, upsert_note_if_absent,
  apply_note_snapshot_if_version_matches, force_apply_note_snapshot,
}
use meno.Notes.Folders.{
  owned_folder, live_folder, find_folder_by_id, upsert_folder_if_absent,
  apply_folder_snapshot_if_version_matches, force_apply_folder_snapshot,
}
use meno.Notes.Sync.{
  NoteMutation, FolderMutation, SyncMutation, note, folder, EntityType, note_type, folder_type,
  MutationResult, applied_unpersisted, note_input, note_snapshot, folder_snapshot, applied_note,
  note_last_write, note_conflicts, note_collision, note_stale, note_by_version, apply_note_mutation,
  applied_folder, folder_last_write, folder_conflicts, folder_collision, folder_stale,
  folder_by_version, apply_folder_mutation,
}

-- Which row a mutation or a result speaks of.
abbrev pub Ref : Type 0
Ref = ℕ × EntityType

abbrev pub result_ref : MutationResult → Ref
result_ref r = (r.id, r.entity_type)

abbrev pub mutation_ref : SyncMutation → Ref
mutation_ref (note m) = (m.id, note_type)
mutation_ref (folder m) = (m.id, folder_type)

abbrev Speaks : Ref → MutationResult → Store → Type 0
Speaks ref r s = result_ref r ≡ ref

-- A row that a statement returns has the id asked for.
abbrev NoteAt : ℕ → Option Note → Store → Type 0
NoteAt id none s = Unit
NoteAt id (some n) s = n.id ≡ id

abbrev FolderAt : ℕ → Option Folder → Store → Type 0
FolderAt id none s = Unit
FolderAt id (some f) s = f.id ≡ id

module _ (db : Store) (now creator : ℕ) (m : NoteMutation) where
  found_note_id : (n : Note) → find_note_by_id m.id creator db ≡ some n → n.id ≡ m.id
  unfolding find_note_by_id
  found_note_id n h =
      ground (arith, find_passes (λ r. owned_note m.id creator r && live_note r) db.notes n h)

  versioned-NoteAt :
      (v : ℕ) (tx : Store)
      → Returns
          (NoteAt m.id)
          (apply_note_snapshot_if_version_matches now m.id creator v (note_snapshot m) tx)
  unfolding apply_note_snapshot_if_version_matches
  versioned-NoteAt v tx = update_note_where_rule (NoteAt m.id) _ _ tx tt λ r h _.
      ground (arith, find_passes (λ r. owned_note m.id creator r && r.version == v) tx.notes r h)

  forced_note_at :
      (tx : Store)
      → Returns
          (λ n s. n.id ≡ m.id)
          (force_apply_note_snapshot now m.id creator (note_snapshot m) tx)
  unfolding force_apply_note_snapshot
  forced_note_at tx =
      fetch_one_rule (NoteAt m.id) (λ n s. n.id ≡ m.id) _
        (update_note_where_rule (NoteAt m.id) _ _ tx tt
          λ r h _. ground (arith, find_passes (owned_note m.id creator) tx.notes r h))
        (λ n s h. h)

  applied_Speaks :
      (n : Note) (tx : Store)
      → n.id ≡ m.id
      → Returns (Speaks (m.id, note_type)) (applied_note (n, tx))
  unfolding applied_note
  applied_Speaks n tx h = ground arith

  last_write_Speaks :
      (tx : Store) (n : Note)
      → n.id ≡ m.id
      → Returns (Speaks (m.id, note_type)) (note_last_write now creator m tx n)
  unfolding note_last_write
  last_write_Speaks tx n h = elim (Bool-cases (ltb n.updated_at m.client_updated_at)) [
    | inl e ↦ rw e (
        Returns-bind (λ x s. x.id ≡ m.id) (Speaks (m.id, note_type))
          (force_apply_note_snapshot now m.id creator (note_snapshot m) tx) applied_note
          (forced_note_at tx) applied_Speaks)
    | inr e ↦ rw e (ground arith)
  ]

  collision_Speaks :
      (o : Option Note) (tx : Store)
      → NoteAt m.id o tx
      → Returns (Speaks (m.id, note_type)) (note_collision db now creator m (o, tx))
  unfolding note_collision
  collision_Speaks (some n) tx h = applied_Speaks n tx h
  collision_Speaks none tx h =
      Returns-ok_or (Speaks (m.id, note_type)) (find_note_by_id m.id creator db) note_not_found
        (note_last_write now creator m tx)
        (λ n found. last_write_Speaks tx n (found_note_id n found))

  stale_Speaks :
      (o : Option Note) (tx : Store)
      → NoteAt m.id o tx
      → Returns (Speaks (m.id, note_type)) (note_stale db creator m (o, tx))
  unfolding note_stale
  stale_Speaks (some n) tx h = applied_Speaks n tx h
  stale_Speaks none tx h =
      Returns-ok_or (Speaks (m.id, note_type)) (find_note_by_id m.id creator db) note_not_found
        (note_conflicts tx) (λ n found. let e = found_note_id n found in ground arith)

  version_Speaks :
      (v : Option ℕ) (tx : Store)
      → Returns (Speaks (m.id, note_type)) (note_by_version v db now creator m tx)
  unfolding note_by_version
  version_Speaks none tx =
      Returns-if (Speaks (m.id, note_type)) m.deleted (ok (applied_unpersisted m.id note_type, tx))
        (upsert_note_if_absent now (note_input creator m) tx >>= note_collision db now creator m)
        (λ _. refl)
        (λ _.
          Returns-bind (NoteAt m.id) (Speaks (m.id, note_type))
            (upsert_note_if_absent now (note_input creator m) tx) (note_collision db now creator m)
            (upsert_note_rule (NoteAt m.id) now (note_input creator m) tx tt (λ _. refl))
            collision_Speaks)
  version_Speaks (some v) tx =
      Returns-bind (NoteAt m.id) (Speaks (m.id, note_type))
        (apply_note_snapshot_if_version_matches now m.id creator v (note_snapshot m) tx)
        (note_stale db creator m) (versioned-NoteAt v tx) stale_Speaks

  -- The result of a note mutation names its note.
  pub note_Speaks :
      (tx : Store) → Returns (Speaks (m.id, note_type)) (apply_note_mutation db now creator m tx)
  unfolding apply_note_mutation
  note_Speaks tx = elim (Bool-cases (ltb 100 (length m.title))) [
    | inl e ↦ rw e refl
    | inr e ↦ elim (Bool-cases (ltb 10000 (length m.content))) [
      | inl e' ↦ rw (e, e') refl
      | inr e' ↦ rw (e, e') (version_Speaks m.base_version tx)
    ]
  ]

module _ (db : Store) (now creator : ℕ) (m : FolderMutation) where
  found_folder_id : (n : Folder) → find_folder_by_id m.id creator db ≡ some n → n.id ≡ m.id
  unfolding find_folder_by_id
  found_folder_id n h =
      ground (arith, find_passes (λ r. owned_folder m.id creator r && live_folder r) db.folders n h)

  versioned-FolderAt :
      (v : ℕ) (tx : Store)
      → Returns
          (FolderAt m.id)
          (apply_folder_snapshot_if_version_matches now m.id creator v (folder_snapshot m) tx)
  unfolding apply_folder_snapshot_if_version_matches
  versioned-FolderAt v tx = update_folder_where_rule (FolderAt m.id) _ _ tx tt λ r h.
      ground
        (arith, find_passes (λ r. owned_folder m.id creator r && r.version == v) tx.folders r h)

  forced_folder_at :
      (tx : Store)
      → Returns
          (λ n s. n.id ≡ m.id)
          (force_apply_folder_snapshot now m.id creator (folder_snapshot m) tx)
  unfolding force_apply_folder_snapshot
  forced_folder_at tx =
      fetch_one_rule (FolderAt m.id) (λ n s. n.id ≡ m.id) _
        (update_folder_where_rule (FolderAt m.id) _ _ tx tt
          λ r h. ground (arith, find_passes (owned_folder m.id creator) tx.folders r h))
        (λ n s h. h)

  folder_applied_Speaks :
      (n : Folder) (tx : Store)
      → n.id ≡ m.id
      → Returns (Speaks (m.id, folder_type)) (applied_folder (n, tx))
  unfolding applied_folder
  folder_applied_Speaks n tx h = ground arith

  folder_last_write-Speaks :
      (tx : Store) (n : Folder)
      → n.id ≡ m.id
      → Returns (Speaks (m.id, folder_type)) (folder_last_write now creator m tx n)
  unfolding folder_last_write
  folder_last_write-Speaks tx n h = elim (Bool-cases (ltb n.updated_at m.client_updated_at)) [
    | inl e ↦ rw e (
        Returns-bind (λ x s. x.id ≡ m.id) (Speaks (m.id, folder_type))
          (force_apply_folder_snapshot now m.id creator (folder_snapshot m) tx) applied_folder
          (forced_folder_at tx) folder_applied_Speaks)
    | inr e ↦ rw e (ground arith)
  ]

  folder_collision-Speaks :
      (o : Option Folder) (tx : Store)
      → FolderAt m.id o tx
      → Returns (Speaks (m.id, folder_type)) (folder_collision db now creator m (o, tx))
  unfolding folder_collision
  folder_collision-Speaks (some n) tx h = folder_applied_Speaks n tx h
  folder_collision-Speaks none tx h =
      Returns-ok_or (Speaks (m.id, folder_type)) (find_folder_by_id m.id creator db)
        folder_not_found (folder_last_write now creator m tx)
        (λ n found. folder_last_write-Speaks tx n (found_folder_id n found))

  folder_stale-Speaks :
      (o : Option Folder) (tx : Store)
      → FolderAt m.id o tx
      → Returns (Speaks (m.id, folder_type)) (folder_stale db creator m (o, tx))
  unfolding folder_stale
  folder_stale-Speaks (some n) tx h = folder_applied_Speaks n tx h
  folder_stale-Speaks none tx h =
      Returns-ok_or (Speaks (m.id, folder_type)) (find_folder_by_id m.id creator db)
        folder_not_found (folder_conflicts tx)
        (λ n found. let e = found_folder_id n found in ground arith)

  folder_version_Speaks :
      (v : Option ℕ) (tx : Store)
      → Returns (Speaks (m.id, folder_type)) (folder_by_version v db now creator m tx)
  unfolding folder_by_version
  folder_version_Speaks none tx =
      Returns-if (Speaks (m.id, folder_type)) m.deleted
        (ok (applied_unpersisted m.id folder_type, tx))
        (upsert_folder_if_absent now m.id creator (folder_snapshot m) tx
          >>= folder_collision db now creator m)
        (λ _. refl)
        (λ _.
          Returns-bind (FolderAt m.id) (Speaks (m.id, folder_type))
            (upsert_folder_if_absent now m.id creator (folder_snapshot m) tx)
            (folder_collision db now creator m)
            (upsert_folder_rule (FolderAt m.id) now m.id creator (folder_snapshot m) tx tt refl)
            folder_collision-Speaks)
  folder_version_Speaks (some v) tx =
      Returns-bind (FolderAt m.id) (Speaks (m.id, folder_type))
        (apply_folder_snapshot_if_version_matches now m.id creator v (folder_snapshot m) tx)
        (folder_stale db creator m) (versioned-FolderAt v tx) folder_stale-Speaks

  -- The result of a folder mutation names its folder.
  pub folder_Speaks :
      (tx : Store)
      → Returns (Speaks (m.id, folder_type)) (apply_folder_mutation db now creator m tx)
  unfolding apply_folder_mutation
  folder_Speaks tx = elim (Bool-cases (ltb 100 (length m.title))) [
    | inl e ↦ rw e refl
    | inr e ↦ rw e (folder_version_Speaks m.base_version tx)
  ]
