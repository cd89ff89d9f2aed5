-- ===== src/Notes/Purge.antt =====
-- `purge_batched` of apps/api/src/modules/notes/repository.rs, which removes rows that were deleted before a
-- cutoff, in batches, and `purge_stale` of service.rs.
use meno.Prelude.{
  ℕ, zero, suc, ◌+◌, ◌%◌, ◌^◌, ◌≤◌, ◌<◌, ◌≡◌, refl, ap, ◌∙◌, inl, inr, Bool, true, false, Option,
  none, some, List, [], ◌∷◌, map, arith, ltb, if◌then◌else◌, ltb→lt, Bool-cases, length,
}
use meno.Table.{select, delete, update, contains}
use meno.Notes.{Note, Folder, Store}

abbrev pub batch_size : ℕ
batch_size = 5000

zero_add : (n : ℕ) → 0 + n ≡ n
zero_add n = omega arith

module _ {A : Type 0} (stale : A → Bool) where
  -- One statement: at most `k` of the rows that pass the test are deleted, the first ones, and the
  -- answer is their number.
  unfoldable pub delete_batch : ℕ → List A → ℕ × List A
  delete_batch k [] = (0, [])
  delete_batch zero (r ∷ rows) = (0, r ∷ rows)
  delete_batch (suc k) (r ∷ rows) = elim (stale r) [
    | true ↦ let (n, rest) = delete_batch k rows in (suc n, rest)
    | false ↦ let (n, rest) = delete_batch (suc k) rows in (n, r ∷ rest)
  ]

  -- The loop, on fuel; `total` is a u64.
  unfoldable pub purge_loop : ℕ → ℕ → ℕ → List A → Option (ℕ × List A)
  unfolding delete_batch
  purge_loop zero k total rows = none
  purge_loop (suc fuel) k total rows =
      let (n, rest) = delete_batch k rows in
      let sum = (total + n) % 2 ^ 64 in
      let again = purge_loop fuel k sum rest in if ltb n k then some (sum, rest) else again

  -- Every round but the last deletes a row, so that a round for each row and one more are enough.
  unfoldable pub purge_batched : List A → Option (ℕ × List A)
  unfolding purge_loop
  purge_batched rows = purge_loop (suc (length rows)) batch_size 0 rows

  taken :
      (k : ℕ) (r : A) (rows : List A)
      → stale r ≡ true
      → delete_batch (suc k) (r ∷ rows) ≡ (suc (delete_batch k rows).0, (delete_batch k rows).1)
  unfolding delete_batch
  taken k r rows h = rw (h, delete_batch) refl

  passed_over :
      (k : ℕ) (r : A) (rows : List A)
      → stale r ≡ false
      → delete_batch (suc k) (r ∷ rows)
        ≡ ((delete_batch (suc k) rows).0, r ∷ (delete_batch (suc k) rows).1)
  unfolding delete_batch
  passed_over k r rows h = rw (h, delete_batch) refl

  batch_count :
      (k : ℕ) (rows : List A)
      → (delete_batch k rows).0 + length (select stale (delete_batch k rows).1)
        ≡ length (select stale rows)
  unfolding delete_batch select
  batch_count k [] = refl
  batch_count zero (r ∷ rows) = omega arith
  batch_count (suc k) (r ∷ rows) = elim (Bool-cases (stale r)) [
    | inl h ↦ rw (taken k r rows h) (rw h (omega (arith, batch_count k rows)))
    | inr h ↦ rw (passed_over k r rows h) (rw h (batch_count (suc k) rows))
  ]

  batch-delete : (k : ℕ) (rows : List A) → delete stale (delete_batch k rows).1 ≡ delete stale rows
  unfolding delete_batch delete
  batch-delete k [] = refl
  batch-delete zero (r ∷ rows) = refl
  batch-delete (suc k) (r ∷ rows) = elim (Bool-cases (stale r)) [
    | inl h ↦ rw (taken k r rows h) (rw h (batch-delete k rows))
    | inr h ↦ rw (passed_over k r rows h) (rw h (ap (λ rows. r ∷ rows) (batch-delete (suc k) rows)))
  ]

  -- A batch that is not full has taken every row.
  short_batch :
      (k : ℕ) (rows : List A)
      → (delete_batch k rows).0 < k
      → (delete_batch k rows).1 ≡ delete stale rows
  unfolding delete_batch delete
  short_batch k [] h = refl
  short_batch zero (r ∷ rows) h = absurd (omega arith)
  short_batch (suc k) (r ∷ rows) h = elim (Bool-cases (stale r)) [
    | inl e ↦
        rw (taken k r rows e)
          (rw e (short_batch k rows (omega (arith, rw (taken k r rows e) at h))))
    | inr e ↦
        rw (passed_over k r rows e) (
          rw e
            (ap (λ rows. r ∷ rows) (short_batch (suc k) rows (rw (passed_over k r rows e) at h))))
  ]

  select_shorter : (rows : List A) → length (select stale rows) ≤ length rows
  unfolding select
  select_shorter [] = omega arith
  select_shorter (r ∷ rows) = ground (arith, select_shorter rows)

  select-delete_gone : (rows : List A) → select stale (delete stale rows) ≡ []
  unfolding select delete
  select-delete_gone [] = refl
  select-delete_gone (r ∷ rows) = ground (arith, select-delete_gone rows)

  short_count :
      (k : ℕ) (rows : List A)
      → (delete_batch k rows).0 < k
      → (delete_batch k rows).0 ≡ length (select stale rows)
  short_count k rows h =
      let none_left : length (select stale (delete_batch k rows).1) ≡ 0 =
        rw (short_batch k rows h) (rw (select-delete_gone rows) refl) in
      omega (arith, batch_count k rows)

  pair : (a b : ℕ) (xs ys : List A) → a ≡ b → xs ≡ ys → ◌≡◌ {A = ℕ × List A} (a, xs) (b, ys)
  pair a b xs ys e f = rw e (rw f refl)

  loop_all :
      (fuel k total : ℕ) (rows : List A)
      → 0 < k
      → length (select stale rows) < fuel
      → total + length (select stale rows) < 2 ^ 64
      → purge_loop fuel k total rows ≡ some (total + length (select stale rows), delete stale rows)
  unfolding purge_loop
  loop_all zero k total rows pos enough fits = absurd (omega arith)
  loop_all (suc fuel) k total rows pos enough fits =
      let n = (delete_batch k rows).0 in
      let count = batch_count k rows in
      let sum : (total + n) % 2 ^ 64 ≡ total + n = omega arith in
      elim (Bool-cases (ltb n k)) [
        | inl h ↦
            let less = ltb→lt n k h in
            rw h (rw sum (rw (short_batch k rows less) (rw (short_count k rows less) refl)))
        | inr h ↦
            let full : k ≤ n = ground arith in
            rw h (
              rw sum (
                loop_all fuel k (total + n) (delete_batch k rows).1 pos (omega arith) (omega arith)
                ∙ ap (λ (p : ℕ × List A). some p)
                    (pair (total + n + length (select stale (delete_batch k rows).1)) _ _ _
                      (omega arith) (batch-delete k rows))))
      ]

abbrev pub before : ℕ → Option ℕ → Bool
before cutoff none = false
before cutoff (some t) = ltb t cutoff

abbrev pub stale_note : ℕ → Note → Bool
stale_note cutoff r = before cutoff r.deleted_at

abbrev pub stale_folder : ℕ → Folder → Bool
stale_folder cutoff r = before cutoff r.deleted_at

abbrev filed_in_one_of : List ℕ → Note → Bool
filed_in_one_of gone n = elim n.folder_id [ none ↦ false | some f ↦ contains f gone ]

-- `ON DELETE SET NULL`, and the trigger that sets `updated_at`.
abbrev pub let_go : ℕ → List ℕ → List Note → List Note
let_go now gone notes =
    update (filed_in_one_of gone) (λ n. record n { folder_id = none; updated_at = now }) notes

-- The folders that a purge removes.
abbrev pub gone_folders : ℕ → List Folder → List ℕ
gone_folders cutoff folders = map (λ r. r.id) (select (stale_folder cutoff) folders)

purged :
    ℕ
    → ℕ
    → List Folder
    → Option (ℕ × List Note)
    → Option (ℕ × List Folder)
    → Option ((ℕ × ℕ) × Store)
purged now cutoff rows none _ = none
purged now cutoff rows (some _) none = none
purged now cutoff rows (some (n, notes)) (some (f, folders)) =
    some ((n, f), record { notes = let_go now (gone_folders cutoff rows) notes; folders = folders })

unfoldable pub purge_stale : ℕ → ℕ → Store → Option ((ℕ × ℕ) × Store)
unfolding purge_batched purged
purge_stale now cutoff s =
    purged now cutoff s.folders (purge_batched (stale_note cutoff) s.notes)
      (purge_batched (stale_folder cutoff) s.folders)

purge_batched-delete :
    {A : Type 0} (stale : A → Bool) (rows : List A)
    → length (select stale rows) < 2 ^ 64
    → purge_batched stale rows ≡ some (length (select stale rows), delete stale rows)
unfolding purge_batched
purge_batched-delete stale rows h =
    loop_all stale (suc (length rows)) batch_size 0 rows (omega arith)
      (omega (arith, select_shorter stale rows)) (omega arith)
    ∙ rw (zero_add (length (select stale rows))) refl

-- On tables of fewer than 2 ^ 64 rows that were deleted before the cutoff, both loops of the purge
-- end. They remove exactly the notes and folders that were deleted before the cutoff, keep the others in their
-- order, and answer with the two numbers of rows removed; of the notes that stay, those filed in
-- a folder that went are in no folder, and the rest are as they were.
pub purge_stale-delete :
    (now cutoff : ℕ) (s : Store)
    → length (select (stale_note cutoff) s.notes) < 2 ^ 64
    → length (select (stale_folder cutoff) s.folders) < 2 ^ 64
    → purge_stale now cutoff s
      ≡ some (
        (
          length (select (stale_note cutoff) s.notes),
          length (select (stale_folder cutoff) s.folders),
        ),
        record {
          notes = let_go now (gone_folders cutoff s.folders) (delete (stale_note cutoff) s.notes);
          folders = delete (stale_folder cutoff) s.folders;
        },
      )
unfolding purge_stale purged
purge_stale-delete now cutoff s h k =
    rw (purge_batched-delete (stale_note cutoff) s.notes h)
      (rw (purge_batched-delete (stale_folder cutoff) s.folders k) refl)
