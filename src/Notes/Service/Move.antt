-- ===== src/Notes/Service/Move.antt =====
-- `move_notes_to_folder` of apps/api/src/modules/notes/service.rs and repository.rs.
use meno.Prelude.{
  ℕ, ◌≡◌, refl, inl, inr, Bool, true, ◌&&◌, Option, none, some, List, [], ◌∷◌, map, arith, ltb, leb,
  ◌==◌, if◌then◌else◌, Bool-cases, is_some, length, All,
}
use meno.Table.{select, find, exists, update, contains}
use meno.Notes.{
  Note, Folder, Store, NoteDto, note_dto, folder_not_found, bad_request, database, ok, err, Write,
}
use meno.Notes.Post.{Returns-if, Returns_ok}
use meno.Notes.Repository.{i32_max, live_note, touch_note}
use meno.Notes.Folders.{owned_folder, live_folder, find_folder_by_id}
use meno.Notes.Sync.Isolation.{owns, FiledIn, IsFiled, Safe, update_note-Safe}

abbrev pub max_moved : ℕ
max_moved = 200

-- `WHERE id = ANY(…) AND creator_id = … AND deleted_at IS NULL`
abbrev pub movable : ℕ → List ℕ → Note → Bool
movable creator ids r = contains r.id ids && (r.creator_id == creator && live_note r)

abbrev pub moved : ℕ → Option ℕ → Note → Note
moved now folder r = touch_note now (record r { folder_id = folder })

move_rows : ℕ → ℕ → List ℕ → Option ℕ → Store → Write (List NoteDto)
unfolding note_dto
move_rows now creator ids folder s =
    if exists (λ r. movable creator ids r && leb i32_max r.version) s.notes
    then err database
    else ok (
      map (λ r. note_dto (moved now folder r)) (select (movable creator ids) s.notes),
      record s { notes = update (movable creator ids) (moved now folder) s.notes },
    )

-- Whether the folder to move to is the caller's, where one is given.
unfoldable pub may_move_to : ℕ → Option ℕ → Store → Bool
unfolding find_folder_by_id
may_move_to creator none s = true
may_move_to creator (some f) s = is_some (find_folder_by_id f creator s)

unfoldable pub move_notes_to_folder : ℕ → ℕ → List ℕ → Option ℕ → Store → Write (List NoteDto)
unfolding move_rows may_move_to
move_notes_to_folder now creator [] folder s = ok ([], s)
move_notes_to_folder now creator (i ∷ ids) folder s =
    if ltb max_moved (length (i ∷ ids))
    then err bad_request
    else if may_move_to creator folder s
    then move_rows now creator (i ∷ ids) folder s
    else err folder_not_found

live-owned :
    (f creator : ℕ) (folders : List Folder)
    → is_some (find (λ r. owned_folder f creator r && live_folder r) folders) ≡ true
    → owns folders creator f ≡ true
unfolding find exists
live-owned f creator [] h = ground arith
live-owned f creator (r ∷ rows) h = ground (arith, live-owned f creator rows)

filed_there :
    (creator : ℕ) (folder : Option ℕ) (s : Store)
    → may_move_to creator folder s ≡ true
    → FiledIn s.folders creator folder
unfolding may_move_to find_folder_by_id
filed_there creator none s h = tt
filed_there creator (some f) s h = live-owned f creator s.folders h

All-moved :
    (now : ℕ) (folder : Option ℕ) (rows : List Note)
    → All (λ (d : NoteDto). d.folder_id ≡ folder) (map (λ r. note_dto (moved now folder r)) rows)
unfolding note_dto
All-moved now folder [] = tt
All-moved now folder (r ∷ rows) = (refl, All-moved now folder rows)

unchanged : (creator : ℕ) (s : Store) → IsFiled s → Safe creator s s
unchanged creator s v = record { notes = refl; folders = refl; kept = λ f h. h; filed = v }

move_rows-Safe :
    (now creator : ℕ) (ids : List ℕ) (folder : Option ℕ) (s s' : Store) (dtos : List NoteDto)
    → IsFiled s
    → FiledIn s.folders creator folder
    → move_rows now creator ids folder s ≡ ok (dtos, s')
    → Safe creator s s' × All (λ (d : NoteDto). d.folder_id ≡ folder) dtos
unfolding move_rows
move_rows-Safe now creator ids folder s s' dtos v h e =
    Returns_ok (λ ds t. Safe creator s t × All (λ (d : NoteDto). d.folder_id ≡ folder) ds) _ dtos s'
      e
      (Returns-if (λ ds t. Safe creator s t × All (λ (d : NoteDto). d.folder_id ≡ folder) ds)
        (exists (λ r. movable creator ids r && leb i32_max r.version) s.notes) (err database) _
        (λ _. tt)
        (λ _. (
          update_note-Safe creator s s (unchanged creator s v) (movable creator ids)
              (moved now folder) (λ r k. ground arith) (λ r. refl) (λ r. h),
          All-moved now folder (select (movable creator ids) s.notes),
        )))

-- On tables in which every note lies in no folder or in one of its creator, a move that succeeds keeps
-- this so; it leaves the notes and folders of every other user as they were and keeps every folder of
-- its caller, and every note that it returns is in the folder asked for.
pub move_notes_to_folder-Safe :
    (now creator : ℕ) (ids : List ℕ) (folder : Option ℕ) (s s' : Store) (dtos : List NoteDto)
    → IsFiled s
    → move_notes_to_folder now creator ids folder s ≡ ok (dtos, s')
    → Safe creator s s' × All (λ (d : NoteDto). d.folder_id ≡ folder) dtos
unfolding move_notes_to_folder
move_notes_to_folder-Safe now creator [] folder s s' dtos v e =
    Returns_ok (λ ds t. Safe creator s t × All (λ (d : NoteDto). d.folder_id ≡ folder) ds) _ dtos s'
      e (unchanged creator s v, tt)
move_notes_to_folder-Safe now creator (i ∷ ids) folder s s' dtos v e =
    elim (Bool-cases (ltb max_moved (length (i ∷ ids)))) [
      | inl h ↦ absurd (let q = rw h at e in ground arith)
      | inr h ↦
          let q = rw h at e in
          elim (Bool-cases (may_move_to creator folder s)) [
            | inl k ↦
                move_rows-Safe now creator (i ∷ ids) folder s s' dtos v
                  (filed_there creator folder s k) (rw k at q)
            | inr k ↦ absurd (let q' = rw k at q in ground arith)
          ]
    ]
