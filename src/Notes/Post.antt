-- ===== src/Notes/Post.antt =====
-- Postconditions of writes, with one rule for each way in which the operations build one.
use meno.Prelude.{
  ℕ, ◌≡◌, refl, inl, inr, Bool, true, false, Option, none, some, ◌∷◌, leb, ◌==◌, if◌then◌else◌,
  Option-cases,
}
use mathlib.Core.Path.{subst₂}
use meno.Table.{find, update, exists}
use meno.Notes.{Note, Folder, Store, NotesError, ok, err, ◌>>=◌, ok_or, Write}
use meno.Notes.Repository.{
  i32_max, CreateNoteInput, new_note, upsert_note_if_absent, update_note_where, fetch_one,
  folder_exists,
}
use meno.Notes.Folders.{
  FolderSnapshotInput, new_folder, upsert_folder_if_absent, update_folder_where,
}

-- If the write succeeds, its result and the tables after it satisfy `P`.
abbrev pub Returns : {A : Type 0} → (A → Store → Type 0) → Write A → Type 0
Returns P (ok (a, s)) = P a s
Returns P (err e) = Unit

module _ {A B : Type 0} (P : A → Store → Type 0) (Q : B → Store → Type 0) where
  pub Returns-bind :
      (m : Write A) (f : A × Store → Write B)
      → Returns P m
      → ((a : A) (s : Store) → P a s → Returns Q (f (a, s)))
      → Returns Q (m >>= f)
  Returns-bind (ok (a, s)) f h k = k a s h
  Returns-bind (err e) f h k = tt

module _ {A B : Type 0} (Q : B → Store → Type 0) where
  pub Returns-ok_or :
      (o : Option A) (e : NotesError) (f : A → Write B)
      → ((a : A) → o ≡ some a → Returns Q (f a))
      → Returns Q (ok_or o e >>= f)
  Returns-ok_or none e f k = tt
  Returns-ok_or (some a) e f k = k a refl

module _ {B : Type 0} (Q : B → Store → Type 0) where
  pub Returns-if :
      (b : Bool) (x y : Write B)
      → (b ≡ true → Returns Q x)
      → (b ≡ false → Returns Q y)
      → Returns Q (if b then x else y)
  Returns-if true x y h k = h refl
  Returns-if false x y h k = k refl

  -- A successful write can be read off the postcondition.
  pub Returns_ok : (m : Write B) (b : B) (s : Store) → m ≡ ok (b, s) → Returns Q m → Q b s
  Returns_ok (ok (a, t)) b s e h = subst₂ Q (let x : a ≡ b = cc in x) (let x : t ≡ s = cc in x) h
  Returns_ok (err x) b s e h = absurd (cc)

module _ (P : Option Note → Store → Type 0) where
  pub update_note_where_rule :
      (p : Note → Bool) (set : Note → Note) (s : Store)
      → P none s
      → ((r : Note)
          → find p s.notes ≡ some r
          → folder_exists s (set r).folder_id ≡ true
          → P (some (set r)) (record s { notes = update p set s.notes }))
      → Returns P (update_note_where p set s)
  unfolding update_note_where
  update_note_where_rule p set s h k = elim (Option-cases (find p s.notes)) [
    | inl e ↦ rw (e, update_note_where) h
    | inr (r, e) ↦
        rw (e, update_note_where)
          (Returns-if P (leb i32_max r.version) _ _ (λ _. tt)
            λ _. Returns-if P (folder_exists s (set r).folder_id) _ _ (k r e) (λ _. tt))
  ]

  pub upsert_note_rule :
      (now : ℕ) (i : CreateNoteInput) (s : Store)
      → P none s
      → (folder_exists s i.folder_id ≡ true
          → P (some (new_note now i)) (record s { notes = new_note now i ∷ s.notes }))
      → Returns P (upsert_note_if_absent now i s)
  unfolding upsert_note_if_absent
  upsert_note_rule now i s h k =
      Returns-if P (exists (λ r. r.id == i.id) s.notes) _ _ (λ _. h)
        λ _. Returns-if P (folder_exists s i.folder_id) _ _ k (λ _. tt)

module _ (P : Option Folder → Store → Type 0) where
  pub update_folder_where_rule :
      (p : Folder → Bool) (set : Folder → Folder) (s : Store)
      → P none s
      → ((r : Folder)
          → find p s.folders ≡ some r
          → P (some (set r)) (record s { folders = update p set s.folders }))
      → Returns P (update_folder_where p set s)
  unfolding update_folder_where
  update_folder_where_rule p set s h k = elim (Option-cases (find p s.folders)) [
    | inl e ↦ rw (e, update_folder_where) h
    | inr (r, e) ↦
        rw (e, update_folder_where)
          (Returns-if P (leb i32_max r.version) _ _ (λ _. tt) (λ _. k r e))
  ]

  pub upsert_folder_rule :
      (now id creator : ℕ) (x : FolderSnapshotInput) (s : Store)
      → P none s
      → P
          (some (new_folder now id x.title x.pinned creator))
          (record s { folders = new_folder now id x.title x.pinned creator ∷ s.folders })
      → Returns P (upsert_folder_if_absent now id creator x s)
  unfolding upsert_folder_if_absent
  upsert_folder_rule now id creator x s h k =
      Returns-if P (exists (λ r. r.id == id) s.folders) _ _ (λ _. h) (λ _. k)

module _ {A : Type 0} (P : Option A → Store → Type 0) (Q : A → Store → Type 0) where
  -- `fetch_one` drops the case of no row.
  pub fetch_one_rule :
      (m : Write (Option A))
      → Returns P m
      → ((a : A) (s : Store) → P (some a) s → Q a s)
      → Returns Q (m >>= fetch_one)
  fetch_one_rule (ok (none, s)) h k = tt
  fetch_one_rule (ok (some a, s)) h k = k a s h
  fetch_one_rule (err e) h k = tt
