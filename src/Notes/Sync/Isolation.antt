-- ===== src/Notes/Sync/Isolation.antt =====
-- A push works on the rows of its caller alone, and files no note into another user's folder.
use mathlib.Core.Path.{subst}
use meno.Prelude.{
  ℕ, ◌≡◌, sym, ◌∙◌, Bool, true, not, Option, none, some, List, ◌∷◌, arith, ◌==◌, All, All-map_iff,
}
use meno.Table.{select, exists, update}
use meno.Table.Laws.{select-update, exists-update, All-update}
use meno.Notes.{Note, Folder, Store}
use meno.Notes.Folders.{owned_folder}

abbrev pub others_note : ℕ → Note → Bool
others_note creator r = not (r.creator_id == creator)

abbrev pub others_folder : ℕ → Folder → Bool
others_folder creator r = not (r.creator_id == creator)

-- Whether `creator` has a folder of this id, deleted or not.
abbrev pub owns : List Folder → ℕ → ℕ → Bool
owns folders creator id = exists (owned_folder id creator) folders

-- A note lies in no folder, or in one of its creator.
abbrev pub FiledIn : List Folder → ℕ → Option ℕ → Type 0
FiledIn folders creator none = Unit
FiledIn folders creator (some f) = owns folders creator f ≡ true

abbrev pub IsFiled : Store → Type 0
IsFiled s = All (λ (n : Note). FiledIn s.folders n.creator_id n.folder_id) s.notes

-- What holds of the transaction's tables `s` during a push of `creator` that began at `db`.
pub record Safe (creator : ℕ) (db s : Store) : Type 0 where
  pub notes : select (others_note creator) s.notes ≡ select (others_note creator) db.notes
  pub folders : select (others_folder creator) s.folders ≡ select (others_folder creator) db.folders
  pub kept : (f : ℕ) → owns db.folders creator f ≡ true → owns s.folders creator f ≡ true
  pub filed : IsFiled s

FiledIn-mono :
    (fs gs : List Folder)
    → ((c f : ℕ) → owns fs c f ≡ true → owns gs c f ≡ true)
    → (c : ℕ) (o : Option ℕ) → FiledIn fs c o
    → FiledIn gs c o
FiledIn-mono fs gs h c none a = tt
FiledIn-mono fs gs h c (some f) a = h c f a

module _ (creator : ℕ) (db s : Store) (v : Safe creator db s) where
  pub insert_note-Safe :
      (n : Note)
      → n.creator_id ≡ creator
      → FiledIn s.folders creator n.folder_id
      → Safe creator db (record s { notes = n ∷ s.notes })
  unfolding select
  insert_note-Safe n e f = record {
    notes = ground (arith, v.notes);
    folders = v.folders;
    kept = v.kept;
    filed = (subst (λ c. FiledIn s.folders c n.folder_id) (sym e) f, v.filed);
  }

  pub update_note-Safe :
      (p : Note → Bool) (set : Note → Note)
      → ((r : Note) → p r ≡ true → r.creator_id ≡ creator)
      → ((r : Note) → (set r).creator_id ≡ r.creator_id)
      → ((r : Note) → FiledIn s.folders creator (set r).folder_id)
      → Safe creator db (record s { notes = update p set s.notes })
  update_note-Safe p set own same filed = record {
    notes =
        select-update p set (others_note creator) s.notes
          (λ r h. (ground (arith, own r h), ground (arith, own r h, same r)))
        ∙ v.notes;
    folders = v.folders;
    kept = v.kept;
    filed =
        All-update p set (λ (n : Note). FiledIn s.folders n.creator_id n.folder_id) s.notes
          (λ r h _.
            subst (λ c. FiledIn s.folders c (set r).folder_id) (sym (same r ∙ own r h)) (filed r))
          v.filed;
  }

  pub insert_folder-Safe :
      (f : Folder) → f.creator_id ≡ creator → Safe creator db (record s { folders = f ∷ s.folders })
  unfolding select exists
  insert_folder-Safe f e = record {
    notes = v.notes;
    folders = ground (arith, v.folders);
    kept = λ g h. ground (arith, v.kept g h);
    filed =
        All-map_iff (λ (n : Note). FiledIn s.folders n.creator_id n.folder_id) _ s.notes
          (λ n.
            FiledIn-mono s.folders (f ∷ s.folders) (λ c g h. ground arith) n.creator_id n.folder_id)
          v.filed;
  }

  pub update_folder-Safe :
      (p : Folder → Bool) (set : Folder → Folder)
      → ((r : Folder) → p r ≡ true → r.creator_id ≡ creator)
      → ((r : Folder) → (set r).creator_id ≡ r.creator_id)
      → ((r : Folder) → (set r).id ≡ r.id)
      → Safe creator db (record s { folders = update p set s.folders })
  update_folder-Safe p set own same key = record {
    notes = v.notes;
    folders =
        select-update p set (others_folder creator) s.folders
          (λ r h. (ground (arith, own r h), ground (arith, own r h, same r)))
        ∙ v.folders;
    kept = λ g h. stays creator g ∙ v.kept g h;
    filed =
        All-map_iff (λ (n : Note). FiledIn s.folders n.creator_id n.folder_id) _ s.notes
          (λ n.
            FiledIn-mono s.folders (update p set s.folders) (λ c g h. stays c g ∙ h) n.creator_id
              n.folder_id)
          v.filed;
  }
    where
      stays : (c g : ℕ) → owns (update p set s.folders) c g ≡ owns s.folders c g
      stays c g =
          exists-update p set (owned_folder g c) s.folders (λ r. ground (arith, same r, key r))
