-- ===== src/Notes/Sync/Ownership.antt =====
-- Every step of a push is safe, and so is the push.
use meno.Prelude.{
  ℕ, ◌≡◌, refl, inl, inr, true, ◌&&◌, Option, none, some, List, [], ◌∷◌, ◌++◌, map, arith, ltb,
  ◌==◌, Bool-cases, length,
}
use meno.Table.{select, exists, contains}
use meno.Notes.{Folder, Store, bad_request, ok, err}
use meno.Notes.Post.{Returns, Returns-bind, Returns-if, Returns_ok}
use meno.Notes.Folders.{owned_folder_ids}
use meno.Notes.Sync.{
  NoteMutation, FolderMutation, SyncMutation, MutationResult, apply_note_mutation,
  apply_folder_mutation,
}
use meno.Notes.Sync.Order.{enumerate, sort_by_key}
use meno.Notes.Sync.Push.{
  max_mutations_per_push, folder_mutations, note_mutations, apply_folders, apply_notes,
  referenced_folder_ids, owned_set, owned_or_none, unfile, push_batch, sync_push,
}
use meno.Notes.Sync.Isolation.{owns, FiledIn, IsFiled, Safe}
use meno.Notes.Sync.Mutated.{note_mutation-Safe, folder_mutation-Safe}

module _ (creator : ℕ) (db : Store) where
  abbrev Stays : {A : Type 0} → A → Store → Type 0
  Stays a s = Safe creator db s

  apply_folders-Safe :
      (now : ℕ) (ms : List (ℕ × FolderMutation)) (tx : Store)
      → Safe creator db tx
      → Returns Stays (apply_folders db now creator ms tx)
  unfolding apply_folders
  apply_folders-Safe now [] tx v = v
  apply_folders-Safe now ((i, m) ∷ ms) tx v =
      Returns-bind Stays Stays (apply_folder_mutation db now creator m tx) _
        (folder_mutation-Safe creator db now m tx v)
        λ r tx' w.
          Returns-bind Stays Stays (apply_folders db now creator ms tx')
            (λ (rs, tx''). ok ((i, r) ∷ rs, tx'')) (apply_folders-Safe now ms tx' w) (λ rs s u. u)

  -- What the ownership query returned is owned.
  owned_only :
      (fs : List Folder) (cs : List ℕ) (f : ℕ)
      → contains f (
          map (λ (r : Folder). r.id) (select (λ r. r.creator_id == creator && contains r.id cs) fs))
        ≡ true
      → owns fs creator f ≡ true
  unfolding select exists contains
  owned_only [] cs f h = absurd (ground arith)
  owned_only (x ∷ fs) cs f h = ground (arith, owned_only fs cs f)

  owned_set-owns :
      (cs : List ℕ) (f : ℕ)
      → contains f (owned_set creator cs db) ≡ true
      → owns db.folders creator f ≡ true
  unfolding owned_set owned_folder_ids
  owned_set-owns [] f h = absurd (unfold contains in cc h)
  owned_set-owns (c ∷ cs) f h = owned_only db.folders (c ∷ cs) f h

  owned_or_none-FiledIn :
      (cs : List ℕ) (o : Option ℕ)
      → FiledIn db.folders creator (owned_or_none (owned_set creator cs db) o)
  unfolding owned_or_none
  owned_or_none-FiledIn cs none = tt
  owned_or_none-FiledIn cs (some f) = elim (Bool-cases (contains f (owned_set creator cs db))) [
    | inl e ↦ rw e (owned_set-owns cs f e)
    | inr e ↦ rw e tt
  ]

  unfile-FiledIn :
      (cs : List ℕ) (m : NoteMutation)
      → FiledIn db.folders creator (unfile (owned_set creator cs db) m).folder_id
  unfolding unfile
  unfile-FiledIn cs m = owned_or_none-FiledIn cs m.folder_id

  apply_notes-Safe :
      (now : ℕ) (cs : List ℕ) (ms : List (ℕ × NoteMutation)) (tx : Store)
      → Safe creator db tx
      → Returns Stays (apply_notes db now creator (owned_set creator cs db) ms tx)
  unfolding apply_notes
  apply_notes-Safe now cs [] tx v = v
  apply_notes-Safe now cs ((i, m) ∷ ms) tx v =
      let owned = owned_set creator cs db in
      Returns-bind Stays Stays (apply_note_mutation db now creator (unfile owned m) tx) _
        (note_mutation-Safe creator db now (unfile owned m) (unfile-FiledIn cs m) tx v)
        λ r tx' w.
          Returns-bind Stays Stays (apply_notes db now creator owned ms tx')
            (λ (rs, tx''). ok ((i, r) ∷ rs, tx'')) (apply_notes-Safe now cs ms tx' w) (λ rs s u. u)

  push_batch-Safe :
      (now : ℕ) (ms : List (ℕ × SyncMutation))
      → IsFiled db
      → Returns Stays (push_batch now creator ms db)
  unfolding push_batch
  push_batch-Safe now ms filed =
      let start : Safe creator db db = record {
        notes = refl;
        folders = refl;
        kept = λ f h. h;
        filed = filed;
      } in
      let cs = referenced_folder_ids (note_mutations ms) in
      Returns-bind Stays Stays (apply_folders db now creator (folder_mutations ms) db) _
        (apply_folders-Safe now (folder_mutations ms) db start)
        λ fs tx v.
          Returns-bind Stays Stays
            (apply_notes db now creator (owned_set creator cs db) (note_mutations ms) tx)
            (λ (ns, tx'). ok (map (λ (r : ℕ × MutationResult). r.1) (sort_by_key (fs ++ ns)), tx'))
            (apply_notes-Safe now cs (note_mutations ms) tx v) (λ ns s w. w)

-- On tables in which every note lies in no folder or in one of its creator, a push that succeeds keeps
-- this so, whatever folders the client named; it leaves the notes and folders of every other user as
-- they were, in their order, and keeps every folder of its caller in the table.
pub sync_push-Safe :
    (now creator : ℕ) (ms : List SyncMutation) (s s' : Store) (rs : List MutationResult)
    → IsFiled s
    → sync_push now creator ms s ≡ ok (rs, s')
    → Safe creator s s'
unfolding sync_push
sync_push-Safe now creator [] s s' rs filed h =
    Returns_ok (λ rs t. Safe creator s t) (ok ([], s)) rs s' h
      (record { notes = refl; folders = refl; kept = λ f h. h; filed = filed })
sync_push-Safe now creator (m ∷ ms) s s' rs filed h =
    Returns_ok (λ rs t. Safe creator s t) _ rs s' h
      (Returns-if (λ rs t. Safe creator s t) (ltb max_mutations_per_push (length (m ∷ ms)))
        (err bad_request) (push_batch now creator (enumerate 0 (m ∷ ms)) s) (λ _. tt)
        (λ _. push_batch-Safe creator s now (enumerate 0 (m ∷ ms)) filed))
