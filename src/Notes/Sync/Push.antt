-- ===== src/Notes/Sync/Push.antt =====
-- `sync_push` of apps/api/src/modules/notes/service.rs: the whole batch in one transaction.
use meno.Prelude.{ℕ, Option, none, some, List, [], ◌∷◌, ◌++◌, map, ltb, if◌then◌else◌, length}
use meno.Notes.{Store, bad_request, ok, err, ◌>>=◌, Write}
use meno.Notes.Folders.{owned_folder_ids}
use meno.Notes.Sync.{
  NoteMutation, FolderMutation, SyncMutation, note, folder, MutationResult, apply_note_mutation,
  apply_folder_mutation,
}
use meno.Notes.Sync.Order.{enumerate, sort_by_key}
use meno.Table.{contains}

abbrev pub max_mutations_per_push : ℕ
max_mutations_per_push = 200

-- The two vectors into which the loop over the mutations splits them.
unfoldable pub folder_mutations : List (ℕ × SyncMutation) → List (ℕ × FolderMutation)
folder_mutations [] = []
folder_mutations ((i, folder m) ∷ ms) = (i, m) ∷ folder_mutations ms
folder_mutations ((i, note m) ∷ ms) = folder_mutations ms

unfoldable pub note_mutations : List (ℕ × SyncMutation) → List (ℕ × NoteMutation)
note_mutations [] = []
note_mutations ((i, folder m) ∷ ms) = note_mutations ms
note_mutations ((i, note m) ∷ ms) = (i, m) ∷ note_mutations ms

unfoldable pub apply_folders :
    Store → ℕ → ℕ → List (ℕ × FolderMutation) → Store → Write (List (ℕ × MutationResult))
apply_folders db now creator [] tx = ok ([], tx)
apply_folders db now creator ((i, m) ∷ ms) tx =
    apply_folder_mutation db now creator m tx >>= λ (r, tx').
    apply_folders db now creator ms tx' >>= λ (rs, tx''). ok ((i, r) ∷ rs, tx'')

-- The folders that the note mutations name. Their order and repetitions do not matter: the list is
-- used as a set.
unfoldable pub referenced_folder_ids : List (ℕ × NoteMutation) → List ℕ
referenced_folder_ids [] = []
referenced_folder_ids ((i, m) ∷ ms) =
    let rest = referenced_folder_ids ms in elim m.folder_id [ none ↦ rest | some f ↦ f ∷ rest ]

unfoldable pub owned_set : ℕ → List ℕ → Store → List ℕ
owned_set creator [] db = []
owned_set creator (f ∷ fs) db = owned_folder_ids creator (f ∷ fs) db

-- A note that names a folder which is not in the set is unfiled.
unfoldable pub owned_or_none : List ℕ → Option ℕ → Option ℕ
owned_or_none owned none = none
owned_or_none owned (some f) = if contains f owned then some f else none

unfoldable pub unfile : List ℕ → NoteMutation → NoteMutation
unfolding owned_or_none
unfile owned m = record m { folder_id = owned_or_none owned m.folder_id }

unfoldable pub apply_notes :
    Store → ℕ → ℕ → List ℕ → List (ℕ × NoteMutation) → Store → Write (List (ℕ × MutationResult))
apply_notes db now creator owned [] tx = ok ([], tx)
apply_notes db now creator owned ((i, m) ∷ ms) tx =
    apply_note_mutation db now creator (unfile owned m) tx >>= λ (r, tx').
    apply_notes db now creator owned ms tx' >>= λ (rs, tx''). ok ((i, r) ∷ rs, tx'')

-- What the transaction does, from the committed tables `db`.
unfoldable pub push_batch : ℕ → ℕ → List (ℕ × SyncMutation) → Store → Write (List MutationResult)
push_batch now creator ms db = apply_folders db now creator (folder_mutations ms) db >>= λ (fs, tx).
    let notes = note_mutations ms in
    let owned = owned_set creator (referenced_folder_ids notes) db in
    apply_notes db now creator owned notes tx >>= λ (ns, tx').
    ok (map (λ (r : ℕ × MutationResult). r.1) (sort_by_key (fs ++ ns)), tx')

unfoldable pub sync_push : ℕ → ℕ → List SyncMutation → Store → Write (List MutationResult)
unfolding push_batch
sync_push now creator [] db = ok ([], db)
sync_push now creator (m ∷ ms) db =
    if ltb max_mutations_per_push (length (m ∷ ms))
    then err bad_request
    else push_batch now creator (enumerate 0 (m ∷ ms)) db
