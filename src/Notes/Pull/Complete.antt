-- ===== src/Notes/Pull/Complete.antt =====
-- A client that pulls until the server has no more gets every note and every folder it owns.
use meno.Prelude.{
  ℕ, suc, ◌≤◌, ◌≡◌, refl, ◌∙◌, inl, inr, Bool, true, false, Option, none, some, List, [], ◌∷◌, map,
  arith, ltb, ◌==◌, if◌then◌else◌, Bool-cases, unwrap_or, length, take, last, All, take_all,
  length-map,
}
use meno.Table.{select}
use meno.Prelude.Int.{pos, clamp_lem}
use meno.Pagination.{Formats}
use meno.Pagination.Cursor.{from_timestamp_id}
use meno.Pagination.Cursor.RoundTrip.{Lawful}
use meno.Pagination.Page.{CursorPage, from_rows, asc, Key, order_by, feed}
use meno.Pagination.Page.Sorting.{Distinct}
use meno.Pagination.Page.Walk.{walk, last-map, take-map, unsnoc, short_page, full_page}
use meno.Pagination.Page.Feeds.{follow, select-All, length-select, Distinct-select}
use meno.Notes.{
  Text, Note, Folder, Store, NoteDto, note_dto, FolderDto, folder_dto, Result, ok, err,
}
use meno.Notes.Listing.{cursor_key}
use meno.Pagination.Page.Bounds.{positive, plus_one}
use meno.Notes.Listing.Complete.{read_cursor}
use meno.Notes.Pull.{
  NotesSyncQuery, sync_limit, NotesSyncResponse, note_updated, folder_updated,
  find_notes_changed_since, find_folders_changed_since, next_or_same, note_cursor, folder_cursor,
  respond, sync_pull,
}

-- The pages that a client sees of each kind of row: it goes on while the server has more.
unfoldable pub page_of : {T : Type 0} → List T → Option Text → Bool → CursorPage T
page_of items next more = record {
  items = items;
  next_cursor = if more then next else none;
  has_next_page = more;
}

abbrev pub notes_of : NotesSyncResponse → CursorPage NoteDto
unfolding page_of
notes_of r = page_of r.notes r.notes_next_cursor r.notes_has_more

abbrev pub folders_of : NotesSyncResponse → CursorPage FolderDto
unfolding page_of
folders_of r = page_of r.folders r.folders_next_cursor r.folders_has_more

unfoldable pub then_page :
    {T : Type 0}
    → (NotesSyncResponse → CursorPage T)
    → Result NotesSyncResponse
    → Option (CursorPage T)
then_page f (ok r) = some (f r)
then_page f (err e) = none

sync_positive : (q : NotesSyncQuery) → (m : ℕ) × (sync_limit q ≡ pos (suc m))
unfolding sync_limit
sync_positive q =
    positive _ (clamp_lem (pos 1) (pos 500) (unwrap_or q.limit (pos 200)) (omega arith)).0

-- One stream of a response is the page that `from_rows` would make.
module _ {A T : Type 0} (f : A → T) (enc : A → Text) (enc_dto : T → Text)
    (same : (a : A) → enc_dto (f a) ≡ enc a) where
  cut_page :
      (m : ℕ) (rows : List A) (c : A) (sent : Option Text)
      → ltb (suc m) (length rows) ≡ true
      → last (take (suc m) rows) ≡ some c
      → page_of
          (map f (take (suc m) rows))
          (next_or_same enc (take (suc m) rows) sent)
          (ltb (suc m) (length rows))
        ≡ from_rows (map f rows) (pos (suc m)) enc_dto
  unfolding page_of next_or_same
  cut_page m rows c sent h l =
      let end_row : last (take (suc m) (map f rows)) ≡ some (f c) =
        rw (take-map f (suc m) rows) (last-map f (take (suc m) rows) c l) in
      let cut =
        full_page (pos (suc m)) enc_dto (map f rows) (f c) (rw (length-map rows f) h) end_row in
      rw h (rw l (rw cut (rw (take-map f (suc m) rows) (rw (same c) refl))))

  whole_page :
      (m : ℕ) (rows : List A) (sent : Option Text)
      → ltb (suc m) (length rows) ≡ false
      → page_of
          (map f (take (suc m) rows))
          (next_or_same enc (take (suc m) rows) sent)
          (ltb (suc m) (length rows))
        ≡ from_rows (map f rows) (pos (suc m)) enc_dto
  unfolding page_of
  whole_page m rows sent h =
      let all = short_page (pos (suc m)) enc_dto (map f rows) (rw (length-map rows f) h) in
      rw h (rw (take_all (suc m) rows (ground arith)) (rw all refl))

  last_row :
      (m : ℕ) (rows : List A)
      → ltb (suc m) (length rows) ≡ true
      → (c : A) × (last (take (suc m) rows) ≡ some c)
  last_row m [] h = absurd (ground arith)
  last_row m (y ∷ ys) h = let (init, c, e, l) = unsnoc y (take m ys) in (c, l)

  stream_page :
      (m : ℕ) (rows : List A) (sent : Option Text)
      → page_of
          (map f (take (suc m) rows))
          (next_or_same enc (take (suc m) rows) sent)
          (ltb (suc m) (length rows))
        ≡ from_rows (map f rows) (pos (suc m)) enc_dto
  stream_page m rows sent = elim (Bool-cases (ltb (suc m) (length rows))) [
    | inr h ↦ whole_page m rows sent h
    | inl h ↦ let (c, l) = last_row m rows h in cut_page m rows c sent h l
  ]

-- The next query, for one kind of row; the cursor of the other kind may move with it.
abbrev pub pull_from : NotesSyncQuery → Option Text → Option Text → NotesSyncQuery
pull_from q nc fc = record q { notes_cursor = nc; folders_cursor = fc }

limit_from :
    (q : NotesSyncQuery) (nc fc : Option Text) → sync_limit (pull_from q nc fc) ≡ sync_limit q
unfolding sync_limit
limit_from q nc fc = refl

module _ (fm : Formats) (creator_id : ℕ) (s : Store) where
  note_stream :
      (q : NotesSyncQuery) (m : ℕ) (note_rows : List Note) (folder_rows : List Folder)
      → sync_limit q ≡ pos (suc m)
      → notes_of (respond fm q note_rows folder_rows)
        ≡ from_rows
            (map note_dto note_rows)
            (pos (suc m))
            (λ r. from_timestamp_id fm (pos r.updated_at) r.id)
  unfolding respond note_cursor notes_of note_dto
  note_stream q m note_rows folder_rows l = rw l (
      stream_page note_dto (note_cursor fm) (λ r. from_timestamp_id fm (pos r.updated_at) r.id)
        (λ a. refl) m note_rows q.notes_cursor)

  notes_page :
      (q : NotesSyncQuery) (m : ℕ) (k kf : Option Key)
      → sync_limit q ≡ pos (suc m)
      → cursor_key fm q.notes_cursor ≡ ok k
      → cursor_key fm q.folders_cursor ≡ ok kf
      → then_page notes_of (sync_pull fm creator_id q s)
        ≡ some (
            from_rows
              (map note_dto (
                feed asc note_updated k
                  (pos (suc (suc m)))
                  (select (λ r. r.creator_id == creator_id) s.notes)))
              (pos (suc m))
              (λ r. from_timestamp_id fm (pos r.updated_at) r.id))
  unfolding then_page sync_pull find_notes_changed_since
  notes_page q m k kf l h hf = rw (h, hf, note_stream q m _ _ l, l, plus_one m) refl

  pub pull_notes :
      (q : NotesSyncQuery) (other : Option Text → Option Text) (fuel : ℕ)
      → Lawful fm
      → ((c : Option Text) → (k : Option Key) × (cursor_key fm (other c) ≡ ok k))
      → Distinct asc note_updated s.notes
      → All (λ r. fm.is_instant (pos r.updated_at) ≡ true) s.notes
      → length s.notes ≤ fuel
      → walk
          (λ c. then_page notes_of (sync_pull fm creator_id (pull_from q c (other c)) s))
          (suc fuel)
          none
        ≡ some (
            map note_dto
              (order_by asc note_updated (select (λ r. r.creator_id == creator_id) s.notes)))
  unfolding cursor_key note_dto
  pull_notes q other fuel v readable d instants enough =
      let mine : Note → Bool = λ r. r.creator_id == creator_id in
      let (m, l) = sync_positive q in
      let page : Option Text → Option (CursorPage NoteDto) =
        λ c. then_page notes_of (sync_pull fm creator_id (pull_from q c (other c)) s) in
      let at = λ (c : Option Text) (k : Option Key) (h : cursor_key fm c ≡ ok k).
        let (o, ho) = readable c in
        notes_page (pull_from q c (other c)) m k o (limit_from q c (other c) ∙ l) h ho in
      follow asc note_updated note_dto (λ r. from_timestamp_id fm (pos r.updated_at) r.id)
        (λ r. fm.is_instant (pos r.updated_at) ≡ true) (select mine s.notes) m page
        (at none none refl)
        (λ c h. at _ (some (note_updated c)) (read_cursor fm c.updated_at c.id v h))
        (Distinct-select asc note_updated mine s.notes d)
        (select-All mine (λ r. fm.is_instant (pos r.updated_at) ≡ true) s.notes instants) fuel
        (omega (arith, length-select mine s.notes))

module _ (fm : Formats) (creator_id : ℕ) (s : Store) where
  folder_stream :
      (q : NotesSyncQuery) (m : ℕ) (note_rows : List Note) (folder_rows : List Folder)
      → sync_limit q ≡ pos (suc m)
      → folders_of (respond fm q note_rows folder_rows)
        ≡ from_rows
            (map folder_dto folder_rows)
            (pos (suc m))
            (λ r. from_timestamp_id fm (pos r.updated_at) r.id)
  unfolding respond folder_cursor folders_of folder_dto
  folder_stream q m note_rows folder_rows l = rw l (
      stream_page folder_dto (folder_cursor fm) (λ r. from_timestamp_id fm (pos r.updated_at) r.id)
        (λ a. refl) m folder_rows q.folders_cursor)

  folders_page :
      (q : NotesSyncQuery) (m : ℕ) (k kf : Option Key)
      → sync_limit q ≡ pos (suc m)
      → cursor_key fm q.notes_cursor ≡ ok k
      → cursor_key fm q.folders_cursor ≡ ok kf
      → then_page folders_of (sync_pull fm creator_id q s)
        ≡ some (
            from_rows
              (map folder_dto (
                feed asc folder_updated kf
                  (pos (suc (suc m)))
                  (select (λ r. r.creator_id == creator_id) s.folders)))
              (pos (suc m))
              (λ r. from_timestamp_id fm (pos r.updated_at) r.id))
  unfolding then_page sync_pull find_folders_changed_since
  folders_page q m k kf l h hf = rw (h, hf, folder_stream q m _ _ l, l, plus_one m) refl

  pub pull_folders :
      (q : NotesSyncQuery) (other : Option Text → Option Text) (fuel : ℕ)
      → Lawful fm
      → ((c : Option Text) → (k : Option Key) × (cursor_key fm (other c) ≡ ok k))
      → Distinct asc folder_updated s.folders
      → All (λ r. fm.is_instant (pos r.updated_at) ≡ true) s.folders
      → length s.folders ≤ fuel
      → walk
          (λ c. then_page folders_of (sync_pull fm creator_id (pull_from q (other c) c) s))
          (suc fuel)
          none
        ≡ some (
            map folder_dto
              (order_by asc folder_updated (select (λ r. r.creator_id == creator_id) s.folders)))
  unfolding cursor_key folder_dto
  pull_folders q other fuel v readable d instants enough =
      let mine : Folder → Bool = λ r. r.creator_id == creator_id in
      let (m, l) = sync_positive q in
      let page : Option Text → Option (CursorPage FolderDto) =
        λ c. then_page folders_of (sync_pull fm creator_id (pull_from q (other c) c) s) in
      let at = λ (c : Option Text) (k : Option Key) (h : cursor_key fm c ≡ ok k).
        let (o, ho) = readable c in
        folders_page (pull_from q (other c) c) m o k (limit_from q (other c) c ∙ l) ho h in
      follow asc folder_updated folder_dto (λ r. from_timestamp_id fm (pos r.updated_at) r.id)
        (λ r. fm.is_instant (pos r.updated_at) ≡ true) (select mine s.folders) m page
        (at none none refl)
        (λ c h. at _ (some (folder_updated c)) (read_cursor fm c.updated_at c.id v h))
        (Distinct-select asc folder_updated mine s.folders d)
        (select-All mine (λ r. fm.is_instant (pos r.updated_at) ≡ true) s.folders instants) fuel
        (omega (arith, length-select mine s.folders))

-- A client pulls, each time with the cursor of the answer before, until the server says that there
-- is no more: for notes, while the cursor of folders moves in any way that the server can read, and
-- for folders likewise. It gets each row that it owns once, deleted ones included, those changed first
-- before the others, after at most one pull more than there are rows. No two notes have one id, nor two
-- folders, and the times of the rows are instants of `time`.
pub pull_both :
    (fm : Formats) (creator_id : ℕ) (s : Store) (q : NotesSyncQuery)
    (other : Option Text → Option Text) (fuel : ℕ)
    → Lawful fm
    → ((c : Option Text) → (k : Option Key) × (cursor_key fm (other c) ≡ ok k))
    → Distinct asc note_updated s.notes
    → Distinct asc folder_updated s.folders
    → All (λ r. fm.is_instant (pos r.updated_at) ≡ true) s.notes
    → All (λ r. fm.is_instant (pos r.updated_at) ≡ true) s.folders
    → length s.notes ≤ fuel
    → length s.folders ≤ fuel
    → (walk
          (λ c. then_page notes_of (sync_pull fm creator_id (pull_from q c (other c)) s))
          (suc fuel)
          none
        ≡ some (
            map note_dto
              (order_by asc note_updated (select (λ r. r.creator_id == creator_id) s.notes))))
      × (walk
            (λ c. then_page folders_of (sync_pull fm creator_id (pull_from q (other c) c) s))
            (suc fuel)
            none
          ≡ some (
              map folder_dto
                (order_by asc folder_updated (select (λ r. r.creator_id == creator_id) s.folders))))
pull_both fm creator_id s q other fuel v readable d df i if_ n m = (
  pull_notes fm creator_id s q other fuel v readable d i n,
  pull_folders fm creator_id s q other fuel v readable df if_ m,
)
