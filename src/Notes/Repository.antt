-- ===== src/Notes/Repository.antt =====
-- apps/api/src/modules/notes/repository.rs: each statement as a function of the tables that its
-- executor sees. Primary keys, the foreign key `notes.folder_id`, `NOT NULL` and the range of `INT`
-- make Postgres refuse a statement; lengths are checked before by the callers.
use meno.Prelude.{
  ℕ, ◌+◌, Bool, true, false, not, ◌&&◌, Option, none, some, ◌∷◌, leb, ◌==◌, if◌then◌else◌, is_some,
  unwrap_or,
}
use meno.Table.{find, exists, update}
use meno.Notes.{Text, Note, Store, database, Result, ok, err, ◌>>=◌, Write}

abbrev pub i32_max : ℕ
i32_max = 2147483647

-- `COALESCE($1, column)`
abbrev pub coalesce {ℓ} : {A : Type ℓ} → Option A → A → A
coalesce o d = unwrap_or o d

abbrev pub same_id : Option ℕ → ℕ → Bool
same_id none i = false
same_id (some j) i = j == i

-- `notes.folder_id REFERENCES folders (id)`
unfoldable pub folder_exists : Store → Option ℕ → Bool
folder_exists s none = true
folder_exists s (some f) = exists (λ r. r.id == f) s.folders

pub record CreateNoteInput : Type 0 where
  pub id : ℕ
  pub title : Text
  pub content : Text
  pub pinned : Bool
  pub folder_id : Option ℕ
  pub creator_id : ℕ

-- A row as `INSERT` makes it from the columns given and the defaults of the table.
abbrev pub new_note : ℕ → CreateNoteInput → Note
new_note now i = record {
  id = i.id;
  title = i.title;
  content = i.content;
  pinned = i.pinned;
  folder_id = i.folder_id;
  creator_id = i.creator_id;
  version = 1;
  created_at = now;
  updated_at = now;
  deleted_at = none;
}

unfoldable pub create_note : ℕ → CreateNoteInput → Store → Write Note
unfolding folder_exists
create_note now i s =
    if exists (λ r. r.id == i.id) s.notes
    then err database
    else if folder_exists s i.folder_id
    then ok (new_note now i, record s { notes = new_note now i ∷ s.notes })
    else err database

-- `ON CONFLICT (id) DO NOTHING RETURNING *`
unfoldable pub upsert_note_if_absent : ℕ → CreateNoteInput → Store → Write (Option Note)
unfolding folder_exists
upsert_note_if_absent now i s =
    if exists (λ r. r.id == i.id) s.notes
    then ok (none, s)
    else if folder_exists s i.folder_id
    then ok (some (new_note now i), record s { notes = new_note now i ∷ s.notes })
    else err database

-- `UPDATE notes SET …, version = version + 1, updated_at = NOW() WHERE p RETURNING *`, read by
-- `fetch_optional`. At most one row has the id that `p` asks for.
unfoldable pub update_note_where : (Note → Bool) → (Note → Note) → Store → Write (Option Note)
unfolding folder_exists
update_note_where p set s = elim (find p s.notes) [
  | none ↦ ok (none, s)
  | some r ↦
      if leb i32_max r.version
      then err database
      else if folder_exists s (set r).folder_id
      then ok (some (set r), record s { notes = update p set s.notes })
      else err database
]

abbrev pub touch_note : ℕ → Note → Note
touch_note now r = record r { version = r.version + 1; updated_at = now }

-- `WHERE id = … AND creator_id = …`
abbrev pub owned_note : ℕ → ℕ → Note → Bool
owned_note id creator r = r.id == id && r.creator_id == creator

abbrev pub live_note : Note → Bool
live_note r = not (is_some r.deleted_at)

pub record UpdateNoteInput : Type 0 where
  pub title : Option Text
  pub content : Option Text
  pub pinned : Option Bool
  pub folder_id : Option ℕ
  pub note_id : ℕ
  pub creator_id : ℕ
  pub base_version : ℕ

-- `WHERE id = … AND creator_id = … AND version = … AND deleted_at IS NULL`
abbrev pub at_version : ℕ → ℕ → ℕ → Note → Bool
at_version id creator version r = owned_note id creator r && (r.version == version && live_note r)

abbrev pub edit_note : ℕ → UpdateNoteInput → Note → Note
edit_note now i r = touch_note now (record r {
  title = coalesce i.title r.title;
  content = coalesce i.content r.content;
  pinned = coalesce i.pinned r.pinned;
  folder_id = i.folder_id;
})

unfoldable pub update_note_by_version : ℕ → UpdateNoteInput → Store → Write (Option Note)
unfolding update_note_where
update_note_by_version now i =
    update_note_where (at_version i.note_id i.creator_id i.base_version) (edit_note now i)

abbrev pub trash_note : ℕ → Note → Note
trash_note now r = touch_note now (record r { deleted_at = some now })

unfoldable pub soft_delete_note : ℕ → ℕ → ℕ → ℕ → Store → Write (Option Note)
unfolding update_note_where
soft_delete_note now id creator base_version =
    update_note_where (at_version id creator base_version) (trash_note now)

unfoldable pub find_note_by_id : ℕ → ℕ → Store → Option Note
find_note_by_id id creator s = find (λ r. owned_note id creator r && live_note r) s.notes

unfoldable pub add_note_to_folder : ℕ → ℕ → ℕ → ℕ → Store → Write (Option Note)
unfolding update_note_where
add_note_to_folder now creator note folder =
    update_note_where (λ r. owned_note note creator r && live_note r)
      (λ r. touch_note now (record r { folder_id = some folder }))

unfoldable pub remove_note_from_folder : ℕ → ℕ → ℕ → ℕ → Store → Write (Option Note)
unfolding update_note_where
remove_note_from_folder now creator note folder =
    update_note_where
      (λ r. owned_note note creator r && (same_id r.folder_id folder && live_note r))
      (λ r. touch_note now (record r { folder_id = none }))

-- What a sync mutation says of a note.
pub record NoteSnapshotInput : Type 0 where
  pub title : Text
  pub content : Text
  pub pinned : Bool
  pub folder_id : Option ℕ
  pub deleted : Bool

-- `CASE WHEN deleted THEN COALESCE(deleted_at, NOW()) END`
abbrev pub tombstone : ℕ → Bool → Option ℕ → Option ℕ
tombstone now deleted before = if deleted then some (unwrap_or before now) else none

abbrev pub put_note_snapshot : ℕ → NoteSnapshotInput → Note → Note
put_note_snapshot now x r = touch_note now (record r {
  title = x.title;
  content = x.content;
  pinned = x.pinned;
  folder_id = x.folder_id;
  deleted_at = tombstone now x.deleted r.deleted_at;
})

unfoldable pub apply_note_snapshot_if_version_matches :
    ℕ → ℕ → ℕ → ℕ → NoteSnapshotInput → Store → Write (Option Note)
unfolding update_note_where
apply_note_snapshot_if_version_matches now id creator base_version x =
    update_note_where (λ r. owned_note id creator r && r.version == base_version)
      (put_note_snapshot now x)

-- `fetch_one`: no row is an error.
abbrev pub fetch_one {ℓ} : {A : Type ℓ} → Option A × Store → Result (A × Store)
fetch_one (none, s) = err database
fetch_one (some a, s) = ok (a, s)

unfoldable pub force_apply_note_snapshot : ℕ → ℕ → ℕ → NoteSnapshotInput → Store → Write Note
unfolding update_note_where
force_apply_note_snapshot now id creator x s =
    update_note_where (owned_note id creator) (put_note_snapshot now x) s >>= fetch_one
