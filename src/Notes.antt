-- ===== src/Notes.antt =====
-- apps/api/src/modules/notes: the rows, requests, responses and errors (model.rs, dto.rs,
-- errors.rs, and the tables of packages/db/migrations/0010 and 0011). Children: `Repository` has the
-- SQL statements, `Service` the operations on one row, `Sync` the offline synchronisation.
-- Text is a list of characters. An instant is a number that grows with time; `now` is the instant
-- at which the statement runs. A version starts at 1 and is compared with what the client sends; a
-- negative number there equals no version, so versions are natural numbers.
pub mod Repository
pub mod Folders
pub mod Post
pub mod Service
pub mod Sync
pub mod Purge
pub mod Listing
pub mod Pull
mod Examples
use meno.Prelude.{
  ℕ, zero, suc, ◌+◌, ◌-◌, ◌*◌, ◌/◌, ◌%◌, ◌^◌, ◌≤◌, ◌<◌, ◌≡◌, refl, sym, ap, ◌∙◌, ◌≢◌, ◌↔◌, ◌⊎◌, inl,
  inr, Bool, true, false, not, ◌&&◌, ◌||◌, Option, none, some, List, [], ◌∷◌, ◌++◌, map, arith, ltb,
  leb, ◌==◌, if◌then◌else◌, ltb→lt, lt→ltb, leb→le, ==_iff, ==_self, tests, Bool-cases,
  Option-cases, is_some, unwrap_or, or_else, length, take, drop, last, replicate, All,
  length-append, take-append-drop, length-take, take_all, All-append, All-map_iff, length-map,
}
use meno.Pagination.{CursorError}

abbrev pub Text : Type 0
Text = List ℕ

pub record Note : Type 0 where
  pub id : ℕ
  pub title : Text
  pub content : Text
  pub pinned : Bool
  pub folder_id : Option ℕ
  pub creator_id : ℕ
  pub version : ℕ
  pub created_at : ℕ
  pub updated_at : ℕ
  pub deleted_at : Option ℕ

pub record Folder : Type 0 where
  pub id : ℕ
  pub title : Text
  pub pinned : Bool
  pub creator_id : ℕ
  pub version : ℕ
  pub created_at : ℕ
  pub updated_at : ℕ
  pub deleted_at : Option ℕ

-- The two tables.
pub record Store : Type 0 where
  pub notes : List Note
  pub folders : List Folder

pub record NoteDto : Type 0 where
  pub id : ℕ
  pub title : Text
  pub content : Text
  pub pinned : Bool
  pub folder_id : Option ℕ
  pub version : ℕ
  pub created_at : ℕ
  pub updated_at : ℕ
  pub deleted : Bool

-- `impl From<Note> for NoteDto`
unfoldable pub note_dto : Note → NoteDto
note_dto n = record {
  id = n.id;
  title = n.title;
  content = n.content;
  pinned = n.pinned;
  folder_id = n.folder_id;
  version = n.version;
  created_at = n.created_at;
  updated_at = n.updated_at;
  deleted = is_some n.deleted_at;
}

pub record FolderDto : Type 0 where
  pub id : ℕ
  pub title : Text
  pub pinned : Bool
  pub version : ℕ
  pub created_at : ℕ
  pub updated_at : ℕ
  pub deleted : Bool

-- `impl From<Folder> for FolderDto`
unfoldable pub folder_dto : Folder → FolderDto
folder_dto f = record {
  id = f.id;
  title = f.title;
  pinned = f.pinned;
  version = f.version;
  created_at = f.created_at;
  updated_at = f.updated_at;
  deleted = is_some f.deleted_at;
}

pub data ConflictEntity : Type 0 where
  note_entity : NoteDto → ConflictEntity
  folder_entity : FolderDto → ConflictEntity

unfoldable pub entity_id : ConflictEntity → ℕ
entity_id (note_entity n) = n.id
entity_id (folder_entity f) = f.id

-- `NotesError`: the cases that these operations return; `database` is what Postgres refuses.
pub data NotesError : Type 0 where
  note_not_found folder_not_found bad_request not_note_owner not_folder_owner database : NotesError
  version_conflict : ConflictEntity → NotesError
  cursor_error : CursorError → NotesError

pub data Result {ℓ} (A : Type ℓ) : Type ℓ where
  ok : A → Result A
  err : NotesError → Result A

infixl 5 ◌>>=◌
abbrev pub ◌>>=◌ {ℓ κ} : {A : Type ℓ} {B : Type κ} → Result A → (A → Result B) → Result B
ok a >>= f = f a
err e >>= f = err e

-- `ok_or`
abbrev pub ok_or {ℓ} : {A : Type ℓ} → Option A → NotesError → Result A
ok_or none e = err e
ok_or (some a) e = ok a

-- A write returns the tables after it; an error leaves them as they were.
abbrev pub Write : Type 0 → Type 0
Write A = Result (A × Store)
