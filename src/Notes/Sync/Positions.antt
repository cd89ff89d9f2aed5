-- ===== src/Notes/Sync/Positions.antt =====
-- The client zips the results of a push with its queue: they are as many and in the same order.
use mathlib.Core.List.{map-append}
use mathlib.Core.Path.{◌≡⟨◌⟩◌, ◌∎}
use meno.Prelude.{
  ℕ, suc, ◌<◌, ◌≡◌, refl, sym, ap, ◌∙◌, List, [], ◌∷◌, ◌++◌, map, arith, ltb, length,
}
use meno.Notes.{Store, bad_request, ok, err}
use meno.Notes.Post.{Returns, Returns-bind, Returns-if, Returns_ok}
use meno.Notes.Sync.{
  NoteMutation, FolderMutation, SyncMutation, note, folder, note_type, folder_type, MutationResult,
  apply_note_mutation, apply_folder_mutation,
}
use meno.Notes.Sync.Order.{enumerate, sort_by_key, Above, sort_lowest, on_value, map-sort_by_key}
use meno.Notes.Sync.Push.{
  max_mutations_per_push, folder_mutations, note_mutations, apply_folders, apply_notes,
  referenced_folder_ids, owned_set, unfile, push_batch, sync_push,
}
use meno.Notes.Sync.Results.{Ref, result_ref, mutation_ref, note_Speaks, folder_Speaks}

abbrev note_ref : NoteMutation → Ref
note_ref m = (m.id, note_type)

abbrev folder_ref : FolderMutation → Ref
folder_ref m = (m.id, folder_type)

-- The indexed results answer the indexed references.
abbrev Answers : List (ℕ × Ref) → List (ℕ × MutationResult) → Store → Type 0
Answers refs rs s = map (on_value result_ref) rs ≡ refs

module _ (db : Store) (now creator : ℕ) where
  folders_Answers :
      (ms : List (ℕ × FolderMutation)) (tx : Store)
      → Returns (Answers (map (on_value folder_ref) ms)) (apply_folders db now creator ms tx)
  unfolding apply_folders
  folders_Answers [] tx = refl
  folders_Answers ((i, m) ∷ ms) tx =
      Returns-bind (λ r s. result_ref r ≡ folder_ref m) _
        (apply_folder_mutation db now creator m tx) _ (folder_Speaks db now creator m tx)
        λ r tx' e.
          Returns-bind (Answers (map (on_value folder_ref) ms))
            (Answers (map (on_value folder_ref) ((i, m) ∷ ms)))
            (apply_folders db now creator ms tx') (λ (rs, tx''). ok ((i, r) ∷ rs, tx''))
            (folders_Answers ms tx') (λ rs s h. cc (e, h))

  unfile_ref : (owned : List ℕ) (m : NoteMutation) → note_ref (unfile owned m) ≡ note_ref m
  unfolding unfile
  unfile_ref owned m = ground arith

  notes_Answers :
      (owned : List ℕ) (ms : List (ℕ × NoteMutation)) (tx : Store)
      → Returns (Answers (map (on_value note_ref) ms)) (apply_notes db now creator owned ms tx)
  unfolding apply_notes
  notes_Answers owned [] tx = refl
  notes_Answers owned ((i, m) ∷ ms) tx =
      Returns-bind (λ r s. result_ref r ≡ note_ref (unfile owned m)) _
        (apply_note_mutation db now creator (unfile owned m) tx) _
        (note_Speaks db now creator (unfile owned m) tx)
        λ r tx' e.
          Returns-bind (Answers (map (on_value note_ref) ms))
            (Answers (map (on_value note_ref) ((i, m) ∷ ms)))
            (apply_notes db now creator owned ms tx') (λ (rs, tx''). ok ((i, r) ∷ rs, tx''))
            (notes_Answers owned ms tx') (λ rs s h. cc (e, h, unfile_ref owned m))

abbrev Increasing : {A : Type 0} → List (ℕ × A) → Type 0
Increasing [] = Unit
Increasing (x ∷ xs) = Above x.0 xs × Increasing xs

enumerate-Above : {A : Type 0} (j k : ℕ) (xs : List A) → j < k → Above j (enumerate k xs)
unfolding enumerate
enumerate-Above j k [] h = tt
enumerate-Above j k (x ∷ xs) h = (h, enumerate-Above j (suc k) xs (omega arith))

enumerate-Increasing : {A : Type 0} (k : ℕ) (xs : List A) → Increasing (enumerate k xs)
unfolding enumerate
enumerate-Increasing k [] = tt
enumerate-Increasing k (x ∷ xs) =
    (enumerate-Above k (suc k) xs (omega arith), enumerate-Increasing (suc k) xs)

folders_Above :
    (k : ℕ) (es : List (ℕ × SyncMutation))
    → Above k es
    → Above k (map (on_value folder_ref) (folder_mutations es))
unfolding folder_mutations
folders_Above k [] h = tt
folders_Above k ((i, folder m) ∷ es) h = (h.0, folders_Above k es h.1)
folders_Above k ((i, note m) ∷ es) h = folders_Above k es h.1

notes_Above :
    (k : ℕ) (es : List (ℕ × SyncMutation))
    → Above k es
    → Above k (map (on_value note_ref) (note_mutations es))
unfolding note_mutations
notes_Above k [] h = tt
notes_Above k ((i, folder m) ∷ es) h = notes_Above k es h.1
notes_Above k ((i, note m) ∷ es) h = (h.0, notes_Above k es h.1)

Above-append :
    {A : Type 0} (k : ℕ) (xs ys : List (ℕ × A)) → Above k xs → Above k ys → Above k (xs ++ ys)
Above-append k [] ys a b = b
Above-append k (x ∷ xs) ys a b = (a.0, Above-append k xs ys a.1 b)

-- Sorting the two parts by index merges them back into the batch.
merge :
    (es : List (ℕ × SyncMutation))
    → Increasing es
    → sort_by_key (
        map (on_value folder_ref) (folder_mutations es)
        ++ map (on_value note_ref) (note_mutations es))
      ≡ map (on_value mutation_ref) es
unfolding folder_mutations note_mutations
merge [] h = unfold sort_by_key in refl
merge ((i, folder m) ∷ es) h =
    sort_lowest [] (i, folder_ref m) _ tt
      (Above-append i (map (on_value folder_ref) (folder_mutations es)) _ (folders_Above i es h.0)
        (notes_Above i es h.0))
    ∙ ap (◌∷◌ (i, folder_ref m)) (merge es h.1)
merge ((i, note m) ∷ es) h =
    sort_lowest _ (i, note_ref m) _ (folders_Above i es h.0) (notes_Above i es h.0)
    ∙ ap (◌∷◌ (i, note_ref m)) (merge es h.1)

abbrev value : {A : Type 0} → ℕ × A → A
value e = e.1

map-value :
    {A B : Type 0} (f : A → B) (xs : List (ℕ × A))
    → map f (map value xs) ≡ map value (map (on_value f) xs)
map-value f [] = refl
map-value f (x ∷ xs) = ap (◌∷◌ (f x.1)) (map-value f xs)

map-value-enumerate : {A : Type 0} (k : ℕ) (xs : List A) → map value (enumerate k xs) ≡ xs
unfolding enumerate
map-value-enumerate k [] = refl
map-value-enumerate k (x ∷ xs) = ap (◌∷◌ x) (map-value-enumerate (suc k) xs)

merged :
    (es : List (ℕ × SyncMutation)) (fs ns : List (ℕ × MutationResult))
    → Increasing es
    → map (on_value result_ref) fs ≡ map (on_value folder_ref) (folder_mutations es)
    → map (on_value result_ref) ns ≡ map (on_value note_ref) (note_mutations es)
    → map result_ref (map value (sort_by_key (fs ++ ns))) ≡ map mutation_ref (map value es)
merged es fs ns inc hf hn =
    map result_ref (map value (sort_by_key (fs ++ ns)))
    ≡⟨ map-value result_ref (sort_by_key (fs ++ ns)) ⟩
      map value (map (on_value result_ref) (sort_by_key (fs ++ ns)))
    ≡⟨ ap (map value) (map-sort_by_key result_ref (fs ++ ns)) ⟩
      map value (sort_by_key (map (on_value result_ref) (fs ++ ns)))
    ≡⟨ rw (map-append (on_value result_ref) fs ns, hf, hn, merge es inc) refl ⟩
      map value (map (on_value mutation_ref) es)
    ≡⟨ sym (map-value mutation_ref es) ⟩ map mutation_ref (map value es) ∎

batch_answers :
    (now creator : ℕ) (es : List (ℕ × SyncMutation)) (db : Store)
    → Increasing es
    → Returns
        (λ rs s. map result_ref rs ≡ map mutation_ref (map value es))
        (push_batch now creator es db)
unfolding push_batch
batch_answers now creator es db inc =
    Returns-bind (Answers (map (on_value folder_ref) (folder_mutations es))) _
      (apply_folders db now creator (folder_mutations es) db) _
      (folders_Answers db now creator (folder_mutations es) db)
      λ fs tx hf.
        Returns-bind (Answers (map (on_value note_ref) (note_mutations es)))
          (λ rs s. map result_ref rs ≡ map mutation_ref (map value es))
          (apply_notes db now creator
            (owned_set creator (referenced_folder_ids (note_mutations es)) db) (note_mutations es)
            tx)
          (λ (ns, tx'). ok (map value (sort_by_key (fs ++ ns)), tx'))
          (notes_Answers db now creator _ (note_mutations es) tx)
          (λ ns s hn. merged es fs ns inc hf hn)

-- A push that succeeds answers every mutation of the batch, note or folder, with one result of the
-- same id and type, in the order in which the client sent them.
pub sync_push-positional :
    (now creator : ℕ) (ms : List SyncMutation) (s s' : Store) (rs : List MutationResult)
    → sync_push now creator ms s ≡ ok (rs, s')
    → map result_ref rs ≡ map mutation_ref ms
unfolding sync_push
sync_push-positional now creator [] s s' rs h = ground arith
sync_push-positional now creator (m ∷ ms) s s' rs h =
    Returns_ok (λ rs s. map result_ref rs ≡ map mutation_ref (m ∷ ms)) _ rs s' h
      (Returns-if _ (ltb max_mutations_per_push (length (m ∷ ms))) (err bad_request)
        (push_batch now creator (enumerate 0 (m ∷ ms)) s) (λ _. tt)
        (λ _.
          rw (map-value-enumerate 0 (m ∷ ms)) at
            (batch_answers now creator (enumerate 0 (m ∷ ms)) s (enumerate-Increasing 0 (m ∷ ms)))))
