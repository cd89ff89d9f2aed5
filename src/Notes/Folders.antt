-- ===== src/Notes/Folders.antt =====
-- The statements of apps/api/src/modules/notes/repository.rs on the table of folders.
use meno.Prelude.{
  ℕ, ◌+◌, Bool, not, ◌&&◌, Option, none, some, List, ◌∷◌, map, leb, ◌==◌, if◌then◌else◌, is_some,
  unwrap_or,
}
use meno.Table.{select, find, exists, update, contains}
use meno.Notes.{Text, Folder, Store, database, ok, err, ◌>>=◌, Write}
use meno.Notes.Repository.{i32_max, fetch_one}

pub record CreateFolderInput : Type 0 where
  pub id : ℕ
  pub title : Text
  pub pinned : Option Bool
  pub creator_id : ℕ

abbrev pub new_folder : ℕ → ℕ → Text → Bool → ℕ → Folder
new_folder now id title pinned creator = record {
  id = id;
  title = title;
  pinned = pinned;
  creator_id = creator;
  version = 1;
  created_at = now;
  updated_at = now;
  deleted_at = none;
}

-- `pinned` is bound as it is: NULL goes to a column that is NOT NULL.
unfoldable pub create_folder : ℕ → CreateFolderInput → Store → Write Folder
create_folder now i s =
    if exists (λ r. r.id == i.id) s.folders then err database else elim i.pinned [
      | none ↦ err database
      | some pinned ↦
          let row = new_folder now i.id i.title pinned i.creator_id in
          ok (row, record s { folders = row ∷ s.folders })
    ]

pub record FolderSnapshotInput : Type 0 where
  pub title : Text
  pub pinned : Bool
  pub deleted : Bool

unfoldable pub upsert_folder_if_absent :
    ℕ → ℕ → ℕ → FolderSnapshotInput → Store → Write (Option Folder)
upsert_folder_if_absent now id creator x s =
    if exists (λ r. r.id == id) s.folders
    then ok (none, s)
    else let row = new_folder now id x.title x.pinned creator in
      ok (some row, record s { folders = row ∷ s.folders })

unfoldable pub update_folder_where :
    (Folder → Bool) → (Folder → Folder) → Store → Write (Option Folder)
update_folder_where p set s = elim (find p s.folders) [
  | none ↦ ok (none, s)
  | some r ↦
      if leb i32_max r.version
      then err database
      else ok (some (set r), record s { folders = update p set s.folders })
]

abbrev pub touch_folder : ℕ → Folder → Folder
touch_folder now r = record r { version = r.version + 1; updated_at = now }

abbrev pub owned_folder : ℕ → ℕ → Folder → Bool
owned_folder id creator r = r.id == id && r.creator_id == creator

abbrev pub live_folder : Folder → Bool
live_folder r = not (is_some r.deleted_at)

pub record UpdateFolderInput : Type 0 where
  pub title : Option Text
  pub pinned : Option Bool
  pub folder_id : ℕ
  pub creator_id : ℕ
  pub base_version : ℕ

unfoldable pub update_folder_by_version : ℕ → UpdateFolderInput → Store → Write (Option Folder)
unfolding update_folder_where
update_folder_by_version now i =
    update_folder_where
      (λ r.
        owned_folder i.folder_id i.creator_id r && (r.version == i.base_version && live_folder r))
      (λ r.
        touch_folder now
          (record r { title = unwrap_or i.title r.title; pinned = unwrap_or i.pinned r.pinned }))

unfoldable pub soft_delete_folder : ℕ → ℕ → ℕ → ℕ → Store → Write (Option Folder)
unfolding update_folder_where
soft_delete_folder now id creator base_version =
    update_folder_where
      (λ r. owned_folder id creator r && (r.version == base_version && live_folder r))
      (λ r. touch_folder now (record r { deleted_at = some now }))

unfoldable pub find_folder_by_id : ℕ → ℕ → Store → Option Folder
find_folder_by_id id creator s = find (λ r. owned_folder id creator r && live_folder r) s.folders

abbrev pub put_folder_snapshot : ℕ → FolderSnapshotInput → Folder → Folder
put_folder_snapshot now x r = touch_folder now (record r {
  title = x.title;
  pinned = x.pinned;
  deleted_at = if x.deleted then some (unwrap_or r.deleted_at now) else none;
})

unfoldable pub apply_folder_snapshot_if_version_matches :
    ℕ → ℕ → ℕ → ℕ → FolderSnapshotInput → Store → Write (Option Folder)
unfolding update_folder_where
apply_folder_snapshot_if_version_matches now id creator base_version x =
    update_folder_where (λ r. owned_folder id creator r && r.version == base_version)
      (put_folder_snapshot now x)

unfoldable pub force_apply_folder_snapshot : ℕ → ℕ → ℕ → FolderSnapshotInput → Store → Write Folder
unfolding update_folder_where
force_apply_folder_snapshot now id creator x s =
    update_folder_where (owned_folder id creator) (put_folder_snapshot now x) s >>= fetch_one

-- `SELECT id FROM folders WHERE creator_id = $1 AND id = ANY($2)`, as a set.
unfoldable pub owned_folder_ids : ℕ → List ℕ → Store → List ℕ
owned_folder_ids creator candidates s =
    map (λ r. r.id) (select (λ r. r.creator_id == creator && contains r.id candidates) s.folders)
