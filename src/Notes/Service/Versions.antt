-- ===== src/Notes/Service/Versions.antt =====
-- Optimistic concurrency: the version that a client has seen decides whether its change applies.
use meno.Prelude.{
  ℕ, ◌+◌, ◌≡◌, refl, ◌∙◌, inl, inr, true, false, ◌&&◌, none, some, arith, Option-cases,
}
use meno.Table.{find, update}
use meno.Table.Laws.{find-update_gone, find-update_kept, find_passes}
use meno.Notes.{Note, Store, NoteDto, note_dto, note_entity, version_conflict, ok, err}
use meno.Notes.Repository.{
  UpdateNoteInput, at_version, edit_note, owned_note, live_note, find_note_by_id, update_note_where,
  update_note_by_version, soft_delete_note,
}
use meno.Notes.Service.{update_note, delete_note, note_conflict}

-- What the versioned statements answer when no row is at the version asked for.
stale_update :
    (now : ℕ) (i : UpdateNoteInput) (s : Store)
    → find (at_version i.note_id i.creator_id i.base_version) s.notes ≡ none
    → update_note now i s ≡ note_conflict i.note_id i.creator_id (none, s)
unfolding update_note update_note_by_version update_note_where
stale_update now i s h = rw (h, update_note_where) refl

stale_delete :
    (now id creator version : ℕ) (s : Store)
    → find (at_version id creator version) s.notes ≡ none
    → delete_note now id creator version s ≡ note_conflict id creator (none, s)
unfolding delete_note soft_delete_note update_note_where
stale_delete now id creator version s h = rw (h, update_note_where) refl

edit_moves_on :
    (now : ℕ) (i : UpdateNoteInput) (r : Note)
    → at_version i.note_id i.creator_id i.base_version r ≡ true
    → at_version i.note_id i.creator_id i.base_version (edit_note now i r) ≡ false
edit_moves_on now i r h = ground arith

edit_stays_live :
    (now : ℕ) (i : UpdateNoteInput) (r : Note)
    → at_version i.note_id i.creator_id i.base_version r ≡ true
    → owned_note i.note_id i.creator_id (edit_note now i r) && live_note (edit_note now i r) ≡ true
edit_stays_live now i r h = ground arith

-- What a successful edit did.
edit_cases :
    (now : ℕ) (i : UpdateNoteInput) (s s' : Store) (dto : NoteDto)
    → update_note now i s ≡ ok (dto, s')
    → (r : Note) × (find (at_version i.note_id i.creator_id i.base_version) s.notes ≡ some r)
      × (dto ≡ note_dto (edit_note now i r))
      × (s' ≡ record s {
        notes = update (at_version i.note_id i.creator_id i.base_version) (edit_note now i) s.notes;
      })
unfolding update_note
edit_cases now i s s' dto h =
    elim (Option-cases (find (at_version i.note_id i.creator_id i.base_version) s.notes)) [
      | inl e ↦ absurd (ground (arith, e))
      | inr (r, e) ↦ (r, e, ground arith, ground arith)
    ]

conflict_of :
    (id creator : ℕ) (n : Note) (s : Store)
    → find_note_by_id id creator s ≡ some n
    → note_conflict id creator (none, s) ≡ err (version_conflict (note_entity (note_dto n)))
unfolding note_conflict find_note_by_id
conflict_of id creator n s h = ground (arith, h)

-- Both versioned statements answer a conflict when the version is gone and the note is there.
stale_refused :
    (later : ℕ) (j : UpdateNoteInput) (id creator version : ℕ) (n : Note) (s : Store)
    → j.note_id ≡ id
    → j.creator_id ≡ creator
    → j.base_version ≡ version
    → find (at_version id creator version) s.notes ≡ none
    → find_note_by_id id creator s ≡ some n
    → (update_note later j s ≡ err (version_conflict (note_entity (note_dto n))))
      × (delete_note later id creator version s ≡ err (version_conflict (note_entity (note_dto n))))
stale_refused later j id creator version n s a b c gone found = (
  stale_update later j s (rw (a, b, c) gone)
      ∙ conflict_of j.note_id j.creator_id n s (rw (a, b) found),
  stale_delete later id creator version s gone ∙ conflict_of id creator n s found,
)

-- The state after an edit: nothing at the old version, and the note is there.
after_edit :
    (now : ℕ) (i : UpdateNoteInput) (s : Store) (r : Note)
    → find (at_version i.note_id i.creator_id i.base_version) s.notes ≡ some r
    → (n : Note) × (find
          (λ x. owned_note i.note_id i.creator_id x && live_note x)
          (update (at_version i.note_id i.creator_id i.base_version) (edit_note now i) s.notes)
        ≡ some n)
after_edit now i s r =
    find-update_kept (at_version i.note_id i.creator_id i.base_version) (edit_note now i) _ s.notes
      r (edit_stays_live now i)

next_version :
    (i : UpdateNoteInput) (r : Note)
    → at_version i.note_id i.creator_id i.base_version r ≡ true
    → r.version + 1 ≡ i.base_version + 1
next_version i r h = ground arith

-- Lost updates are refused. Once an edit based on some version has succeeded, the note it returned
-- is at the next version, the caller still has a live note of that id, and every later edit or
-- deletion of it based on the old version is answered by a conflict that carries the row as it is.
pub lost_update_refused :
    (now later : ℕ) (i j : UpdateNoteInput) (s s' : Store) (dto : NoteDto)
    → update_note now i s ≡ ok (dto, s')
    → j.note_id ≡ i.note_id
    → j.creator_id ≡ i.creator_id
    → j.base_version ≡ i.base_version
    → (n : Note) × (dto.version ≡ i.base_version + 1)
      × (find_note_by_id i.note_id i.creator_id s' ≡ some n)
      × (update_note later j s' ≡ err (version_conflict (note_entity (note_dto n))))
      × (delete_note later i.note_id i.creator_id i.base_version s'
          ≡ err (version_conflict (note_entity (note_dto n))))
unfolding find_note_by_id note_dto
lost_update_refused now later i j s s' dto h a b c =
    let (r, hit, d, after) = edit_cases now i s s' dto h in
    let p = at_version i.note_id i.creator_id i.base_version in
    let (n, found) = after_edit now i s r hit in
    let gone : find p s'.notes ≡ none =
      rw after (find-update_gone p (edit_note now i) s.notes (edit_moves_on now i)) in
    let there : find_note_by_id i.note_id i.creator_id s' ≡ some n = rw after found in
    let refused =
      stale_refused later j i.note_id i.creator_id i.base_version n s' a b c gone there in
    (n, rw d (next_version i r (find_passes p s.notes r hit)), there, refused.0, refused.1)
