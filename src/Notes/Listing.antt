-- ===== src/Notes/Listing.antt =====
-- The listings of apps/api/src/modules/notes: `get_notes` and `get_folders` of service.rs over
-- `find_notes` and `find_folders` of repository.rs, with the queries of dto.rs. The text search of
-- Postgres and `str::trim` are the record `TextSearch`.
pub mod Complete
use meno.Prelude.{
  ℕ, zero, suc, ◌+◌, ◌-◌, ◌*◌, ◌/◌, ◌%◌, ◌^◌, ◌≤◌, ◌<◌, ◌≡◌, refl, sym, ap, ◌∙◌, ◌≢◌, ◌↔◌, ◌⊎◌, inl,
  inr, Bool, true, false, not, ◌&&◌, ◌||◌, Option, none, some, List, [], ◌∷◌, ◌++◌, map, arith, ltb,
  leb, ◌==◌, if◌then◌else◌, ltb→lt, lt→ltb, leb→le, ==_iff, ==_self, tests, Bool-cases,
  Option-cases, is_some, unwrap_or, or_else, length, take, drop, last, replicate, All,
  length-append, take-append-drop, length-take, take_all, All-append, All-map_iff, length-map,
}
use mathlib.Core.Path.{subst}
use meno.Table.{select}
use meno.Prelude.Int.{ℤ, pos, ◌+ℤ◌}
use meno.Prelude.Results as R
use meno.Pagination.{Formats, CursorError}
use meno.Pagination.Cursor.{from_timestamp_id, to_timestamp_id}
use meno.Pagination.Page.{
  CursorParams, limit_of, limit_plus_one, CursorPage, from_rows, Order, desc, Key, feed,
}
use meno.Notes.{
  Text, Note, Folder, Store, NoteDto, note_dto, FolderDto, folder_dto, cursor_error, Result, ok,
  err, ◌>>=◌,
}

pub record TextSearch : Type 0 where
  pub trim : Text → Text
  pub matches : Text → Text → Bool

pub record NotesQuery : Type 0 where
  pub folder_id : Option ℕ
  pub pinned : Option Bool
  pub keywords : Option Text
  pub pagination : CursorParams

pub record FoldersQuery : Type 0 where
  pub pinned : Option Bool
  pub keywords : Option Text
  pub pagination : CursorParams

abbrev pub same_flag : Bool → Bool → Bool
same_flag true b = b
same_flag false b = not b

-- A condition that is pushed when the query has the field.
abbrev pub where_some {ℓ} : {A : Type ℓ} → Option A → (A → Bool) → Bool
where_some none p = true
where_some (some a) p = p a

abbrev pub in_folder : Option ℕ → ℕ → Bool
in_folder none f = false
in_folder (some g) f = g == f

-- The columns of the order. Instants of rows are after the epoch.
abbrev pub note_created : Note → Key
note_created n = (pos n.created_at, n.id)

abbrev pub folder_created : Folder → Key
folder_created f = (pos f.created_at, f.id)

module _ (search : TextSearch) (creator_id : ℕ) where
  unfoldable pub wanted_note : NotesQuery → Note → Bool
  wanted_note q n =
      n.creator_id == creator_id
      && (not (is_some n.deleted_at)
          && (where_some q.folder_id (λ f. in_folder n.folder_id f)
              && (where_some q.pinned (λ p. same_flag n.pinned p)
                  && where_some q.keywords
                      (λ kw. search.matches (n.title ++ 32 ∷ n.content) (search.trim kw)))))

  unfoldable pub wanted_folder : FoldersQuery → Folder → Bool
  wanted_folder q f =
      f.creator_id == creator_id
      && (not (is_some f.deleted_at)
          && (where_some q.pinned (λ p. same_flag f.pinned p)
              && where_some q.keywords (λ kw. search.matches f.title (search.trim kw))))

module _ (fm : Formats) where
  key_result : R.Result CursorError Key → Result (Option Key)
  key_result (R.ok k) = ok (some k)
  key_result (R.err e) = err (cursor_error e)

  -- The cursor of a query, read.
  unfoldable pub cursor_key : Option Text → Result (Option Key)
  unfolding key_result to_timestamp_id
  cursor_key none = ok none
  cursor_key (some c) = key_result (to_timestamp_id fm c)

  module _ (search : TextSearch) (creator_id : ℕ) where
    unfoldable pub find_notes : NotesQuery → Store → Result (List Note)
    unfolding wanted_note cursor_key limit_plus_one feed
    find_notes q s = cursor_key q.pagination.cursor >>= (λ k. ok (
        feed desc note_created k (limit_plus_one q.pagination)
          (select (wanted_note search creator_id q) s.notes)))

    unfoldable pub get_notes : NotesQuery → Store → Result (CursorPage NoteDto)
    unfolding find_notes limit_of from_rows from_timestamp_id note_dto
    get_notes q s = find_notes q s >>= (λ rows. ok (
        from_rows (map note_dto rows) (limit_of q.pagination)
          (λ n. from_timestamp_id fm (pos n.created_at) n.id)))

    unfoldable pub find_folders : FoldersQuery → Store → Result (List Folder)
    unfolding wanted_folder cursor_key limit_plus_one feed
    find_folders q s = cursor_key q.pagination.cursor >>= (λ k. ok (
        feed desc folder_created k (limit_plus_one q.pagination)
          (select (wanted_folder search creator_id q) s.folders)))

    unfoldable pub get_folders : FoldersQuery → Store → Result (CursorPage FolderDto)
    unfolding find_folders limit_of from_rows from_timestamp_id folder_dto
    get_folders q s = find_folders q s >>= (λ rows. ok (
        from_rows (map folder_dto rows) (limit_of q.pagination)
          (λ f. from_timestamp_id fm (pos f.created_at) f.id)))
