-- ===== src/Uthash.antt =====
-- What the code uses of uthash, a library of macros that is not part of the repository: a table of
-- items under keys, as its user guide documents it. Keys of one table are distinct, so the laws of
-- `HASH_ADD` and `HASH_DELETE` ask for what the code has tested before.
pub mod Assoc
use symbi_os.Base.{
  ℕ, ◌+◌, ◌≡◌, ◌↔◌, Bool, true, false, Option, none, some, List, [], ◌∷◌, ◌++◌, if◌then◌else◌,
  Bytes,
}

pub record Uthash (K V : Type 0) : Type 1 where
  pub Table : Type 0
  -- keys are compared byte by byte
  pub same : K → K → Bool
  pub same_iff : (j k : K) → (same j k ≡ true) ↔ (j ≡ k)
  -- the head pointer `NULL`
  pub empty : Table
  pub find : K → Table → Option V
  pub add : K → V → Table → Table
  pub delete : K → Table → Table
  pub count : Table → ℕ
  -- `HASH_ITER`, in the order of insertion
  pub items : Table → List V
  pub find-empty : (j : K) → find j empty ≡ none
  pub find-add :
      (j k : K) (v : V) (t : Table)
      → find k t ≡ none
      → find j (add k v t) ≡ (if same k j then some v else find j t)
  pub find-delete :
      (j k : K) (v : V) (t : Table)
      → find k t ≡ some v
      → find j (delete k t) ≡ (if same k j then none else find j t)
  pub count-empty : count empty ≡ 0
  pub count-add : (k : K) (v : V) (t : Table) → find k t ≡ none → count (add k v t) ≡ count t + 1
  pub count-delete :
      (k : K) (v : V) (t : Table) → find k t ≡ some v → count (delete k t) + 1 ≡ count t
  pub items-empty : items empty ≡ []
  pub items-add :
      (k : K) (v : V) (t : Table) → find k t ≡ none → items (add k v t) ≡ items t ++ v ∷ []

-- The two tables of a directory: its items by inode number and by name.
pub record Hashes : Type 1 where
  pub ino : Uthash ℕ ℕ
  pub name : Uthash Bytes ℕ
