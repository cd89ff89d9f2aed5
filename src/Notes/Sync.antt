-- ===== src/Notes/Sync.antt =====
-- apps/api/src/modules/notes/service.rs, `sync_push`, and the requests of dto.rs. The statements of a
-- push run in one transaction, whose tables are `tx`; the reads by `find_note_by_id`,
-- `find_folder_by_id` and `owned_folder_ids` go to the connection pool and see the committed tables
-- `db`. `NOW()` is the instant at which the transaction began.
pub mod Order
pub mod Push
pub mod Results
pub mod Positions
pub mod Batch
pub mod Isolation
pub mod Mutated
pub mod Ownership
use meno.Prelude.{
  ℕ, zero, suc, ◌+◌, ◌-◌, ◌*◌, ◌/◌, ◌%◌, ◌^◌, ◌≤◌, ◌<◌, ◌≡◌, refl, sym, ap, ◌∙◌, ◌≢◌, ◌↔◌, ◌⊎◌, inl,
  inr, Bool, true, false, not, ◌&&◌, ◌||◌, Option, none, some, List, [], ◌∷◌, ◌++◌, map, arith, ltb,
  leb, ◌==◌, if◌then◌else◌, ltb→lt, lt→ltb, leb→le, ==_iff, ==_self, tests, Bool-cases,
  Option-cases, is_some, unwrap_or, or_else, length, take, drop, last, replicate, All,
  length-append, take-append-drop, length-take, take_all, All-append, All-map_iff, length-map,
}
use meno.Table.{contains}
use meno.Notes.{
  Text, Note, Folder, Store, note_dto, folder_dto, ConflictEntity, note_entity, folder_entity,
  entity_id, NotesError, note_not_found, folder_not_found, bad_request, Result, ok, err, ◌>>=◌,
  ok_or, Write,
}
use meno.Notes.Repository.{
  CreateNoteInput, NoteSnapshotInput, find_note_by_id, upsert_note_if_absent,
  apply_note_snapshot_if_version_matches, force_apply_note_snapshot,
}
use meno.Notes.Folders.{
  FolderSnapshotInput, find_folder_by_id, upsert_folder_if_absent, owned_folder_ids,
  apply_folder_snapshot_if_version_matches, force_apply_folder_snapshot,
}

pub record NoteMutation : Type 0 where
  pub id : ℕ
  pub title : Text
  pub content : Text
  pub pinned : Bool
  pub folder_id : Option ℕ
  pub deleted : Bool
  pub base_version : Option ℕ
  pub client_updated_at : ℕ

pub record FolderMutation : Type 0 where
  pub id : ℕ
  pub title : Text
  pub pinned : Bool
  pub deleted : Bool
  pub base_version : Option ℕ
  pub client_updated_at : ℕ

pub data SyncMutation : Type 0 where
  note : NoteMutation → SyncMutation
  folder : FolderMutation → SyncMutation

pub data EntityType : Type 0 where
  note_type folder_type : EntityType

pub data MutationOutcome : Type 0 where
  was_applied was_conflict was_rejected : MutationOutcome

-- The reasons of a rejection, which are fixed texts.
pub data Reason : Type 0 where
  title_too_long content_too_long : Reason

pub record MutationResult : Type 0 where
  pub id : ℕ
  pub entity_type : EntityType
  pub outcome : MutationOutcome
  pub server_entity : Option ConflictEntity
  pub reason : Option Reason

unfoldable pub applied : EntityType → ConflictEntity → MutationResult
unfolding entity_id
applied t e = record {
  id = entity_id e;
  entity_type = t;
  outcome = was_applied;
  server_entity = some e;
  reason = none;
}

unfoldable pub applied_unpersisted : ℕ → EntityType → MutationResult
applied_unpersisted id t = record {
  id = id;
  entity_type = t;
  outcome = was_applied;
  server_entity = none;
  reason = none;
}

unfoldable pub conflict : EntityType → ConflictEntity → MutationResult
unfolding entity_id
conflict t e = record {
  id = entity_id e;
  entity_type = t;
  outcome = was_conflict;
  server_entity = some e;
  reason = none;
}

unfoldable pub rejected : ℕ → EntityType → Reason → MutationResult
rejected id t why = record {
  id = id;
  entity_type = t;
  outcome = was_rejected;
  server_entity = none;
  reason = some why;
}

abbrev pub note_snapshot : NoteMutation → NoteSnapshotInput
note_snapshot m = record {
  title = m.title;
  content = m.content;
  pinned = m.pinned;
  folder_id = m.folder_id;
  deleted = m.deleted;
}

abbrev pub note_input : ℕ → NoteMutation → CreateNoteInput
note_input creator m = record {
  id = m.id;
  title = m.title;
  content = m.content;
  pinned = m.pinned;
  folder_id = m.folder_id;
  creator_id = creator;
}

abbrev applied_note : Note × Store → Write MutationResult
unfolding applied note_dto
applied_note (n, tx) = ok (applied note_type (note_entity (note_dto n)), tx)

-- An id that is already taken: the newer of the two writes wins.
note_last_write : ℕ → ℕ → NoteMutation → Store → Note → Write MutationResult
unfolding applied_note conflict note_dto force_apply_note_snapshot
note_last_write now creator m tx existing =
    if ltb existing.updated_at m.client_updated_at
    then force_apply_note_snapshot now m.id creator (note_snapshot m) tx >>= applied_note
    else ok (conflict note_type (note_entity (note_dto existing)), tx)

note_collision : Store → ℕ → ℕ → NoteMutation → Option Note × Store → Write MutationResult
unfolding applied_note note_last_write find_note_by_id
note_collision db now creator m (some n, tx) = applied_note (n, tx)
note_collision db now creator m (none, tx) =
    ok_or (find_note_by_id m.id creator db) note_not_found >>= note_last_write now creator m tx

note_conflicts : Store → Note → Write MutationResult
unfolding conflict note_dto
note_conflicts tx existing = ok (conflict note_type (note_entity (note_dto existing)), tx)

note_stale : Store → ℕ → NoteMutation → Option Note × Store → Write MutationResult
unfolding applied_note note_conflicts find_note_by_id
note_stale db creator m (some n, tx) = applied_note (n, tx)
note_stale db creator m (none, tx) =
    ok_or (find_note_by_id m.id creator db) note_not_found >>= note_conflicts tx

-- The two cases of `m.base_version`.
note_by_version : Option ℕ → Store → ℕ → ℕ → NoteMutation → Store → Write MutationResult
unfolding note_collision note_stale applied_unpersisted upsert_note_if_absent
    apply_note_snapshot_if_version_matches
note_by_version none db now creator m tx =
    if m.deleted
    then ok (applied_unpersisted m.id note_type, tx)
    else upsert_note_if_absent now (note_input creator m) tx >>= note_collision db now creator m
note_by_version (some v) db now creator m tx =
    apply_note_snapshot_if_version_matches now m.id creator v (note_snapshot m) tx
    >>= note_stale db creator m

unfoldable pub apply_note_mutation : Store → ℕ → ℕ → NoteMutation → Store → Write MutationResult
unfolding note_by_version rejected
apply_note_mutation db now creator m tx =
    if ltb 100 (length m.title)
    then ok (rejected m.id note_type title_too_long, tx)
    else if ltb 10000 (length m.content)
    then ok (rejected m.id note_type content_too_long, tx)
    else note_by_version m.base_version db now creator m tx

abbrev pub folder_snapshot : FolderMutation → FolderSnapshotInput
folder_snapshot m = record { title = m.title; pinned = m.pinned; deleted = m.deleted }

abbrev applied_folder : Folder × Store → Write MutationResult
unfolding applied folder_dto
applied_folder (f, tx) = ok (applied folder_type (folder_entity (folder_dto f)), tx)

folder_last_write : ℕ → ℕ → FolderMutation → Store → Folder → Write MutationResult
unfolding applied_folder conflict folder_dto force_apply_folder_snapshot
folder_last_write now creator m tx existing =
    if ltb existing.updated_at m.client_updated_at
    then force_apply_folder_snapshot now m.id creator (folder_snapshot m) tx >>= applied_folder
    else ok (conflict folder_type (folder_entity (folder_dto existing)), tx)

folder_collision : Store → ℕ → ℕ → FolderMutation → Option Folder × Store → Write MutationResult
unfolding applied_folder folder_last_write find_folder_by_id
folder_collision db now creator m (some f, tx) = applied_folder (f, tx)
folder_collision db now creator m (none, tx) =
    ok_or (find_folder_by_id m.id creator db) folder_not_found
    >>= folder_last_write now creator m tx

folder_conflicts : Store → Folder → Write MutationResult
unfolding conflict folder_dto
folder_conflicts tx existing = ok (conflict folder_type (folder_entity (folder_dto existing)), tx)

folder_stale : Store → ℕ → FolderMutation → Option Folder × Store → Write MutationResult
unfolding applied_folder folder_conflicts find_folder_by_id
folder_stale db creator m (some f, tx) = applied_folder (f, tx)
folder_stale db creator m (none, tx) =
    ok_or (find_folder_by_id m.id creator db) folder_not_found >>= folder_conflicts tx

folder_by_version : Option ℕ → Store → ℕ → ℕ → FolderMutation → Store → Write MutationResult
unfolding folder_collision folder_stale applied_unpersisted upsert_folder_if_absent
    apply_folder_snapshot_if_version_matches
folder_by_version none db now creator m tx =
    if m.deleted
    then ok (applied_unpersisted m.id folder_type, tx)
    else upsert_folder_if_absent now m.id creator (folder_snapshot m) tx
      >>= folder_collision db now creator m
folder_by_version (some v) db now creator m tx =
    apply_folder_snapshot_if_version_matches now m.id creator v (folder_snapshot m) tx
    >>= folder_stale db creator m

unfoldable pub apply_folder_mutation : Store → ℕ → ℕ → FolderMutation → Store → Write MutationResult
unfolding folder_by_version rejected
apply_folder_mutation db now creator m tx =
    if ltb 100 (length m.title)
    then ok (rejected m.id folder_type title_too_long, tx)
    else folder_by_version m.base_version db now creator m tx
