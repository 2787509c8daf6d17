-- ===== src/Uthash/Assoc.antt =====
-- Association lists in the order of insertion as an instance of the interface of uthash.
use symbi_os.Base.{
  ℕ, suc, ◌+◌, ◌≡◌, refl, ◌↔◌, Bool, true, Option, none, some, List, [], ◌∷◌, ◌++◌, arith, ◌==◌,
  ==_iff, if◌then◌else◌, bytes_eq, bytes_eq_iff,
}
use symbi_os.Uthash.{Uthash, Hashes}

abbrev pub count : {A : Type 0} → List A → ℕ
count [] = 0
count (x ∷ t) = suc (count t)

abbrev pub values : {K V : Type 0} → List (K × V) → List V
values [] = []
values ((k, v) ∷ t) = v ∷ values t

module _ {K V : Type 0} (same : K → K → Bool) where
  abbrev pub find : K → List (K × V) → Option V
  find j [] = none
  find j ((k, v) ∷ t) = if same k j then some v else find j t

  abbrev pub add : K → V → List (K × V) → List (K × V)
  add k v [] = (k, v) ∷ []
  add k v (x ∷ t) = x ∷ add k v t

  abbrev pub delete : K → List (K × V) → List (K × V)
  delete j [] = []
  delete j ((k, v) ∷ t) = if same k j then t else (k, v) ∷ delete j t

  -- No key stands twice.
  abbrev pub Distinct : List (K × V) → Type 0
  Distinct [] = Unit
  Distinct ((k, v) ∷ t) = (find k t ≡ none) × Distinct t

  pub find-add :
      (j k : K) (v : V) (t : List (K × V))
      → find k t ≡ none
      → ((a b : K) → (same a b ≡ true) ↔ (a ≡ b))
      → find j (add k v t) ≡ (if same k j then some v else find j t)
  find-add j k v [] h iff = refl
  find-add j k v ((i, w) ∷ t) h iff =
      ground (arith, iff k j, iff i k, iff i j, find-add j k v t (ground arith) iff)

  pub count-add : (k : K) (v : V) (t : List (K × V)) → count (add k v t) ≡ count t + 1
  count-add k v [] = refl
  count-add k v (x ∷ t) = omega (arith, count-add k v t)

  pub values-add : (k : K) (v : V) (t : List (K × V)) → values (add k v t) ≡ values t ++ v ∷ []
  values-add k v [] = refl
  values-add k v ((i, w) ∷ t) = cc (values-add k v t)

module _ {K : Type 0} (V : Type 0) (same : K → K → Bool)
    (iff : (j k : K) → (same j k ≡ true) ↔ (j ≡ k)) where
  pub find-delete :
      (j k : K) (t : List (K × V))
      → Distinct same t
      → find same j (delete same k t) ≡ (if same k j then none else find same j t)
  find-delete j k [] d = ground arith
  find-delete j k ((i, w) ∷ t) d = ground (arith, iff k j, iff i k, iff i j, find-delete j k t d.1)

  pub count-delete :
      (k : K) (v : V) (t : List (K × V))
      → find same k t ≡ some v
      → count (delete same k t) + 1 ≡ count t
  count-delete k v [] h = cc
  count-delete k v ((i, w) ∷ t) h = ground (arith, count-delete k v t)

  pub Distinct-add :
      (k : K) (v : V) (t : List (K × V))
      → find same k t ≡ none
      → Distinct same t
      → Distinct same (add same k v t)
  Distinct-add k v [] h d = (refl, tt)
  Distinct-add k v ((i, w) ∷ t) h d = (
    ground (arith, find-add same i k v t (ground arith) iff, iff k i, iff i k),
    Distinct-add k v t (ground arith) d.1,
  )

  pub Distinct-delete :
      (k : K) (t : List (K × V)) → Distinct same t → Distinct same (delete same k t)
  Distinct-delete k [] d = tt
  Distinct-delete k ((i, w) ∷ t) d =
      ground (arith, find-delete i k t d.1, Distinct-delete k t d.1, iff k i, iff i k)

  -- A list with distinct keys; a second item under a key is not added.
  abbrev pub Assoc : Type 0
  Assoc = (t : List (K × V)) × Distinct same t

  unfoldable pub add_found : (k : K) → V → (t : Assoc) (o : Option V) → find same k t.0 ≡ o → Assoc
  add_found k v (t, d) none h = (add same k v t, Distinct-add k v t h d)
  add_found k v (t, d) (some _) h = (t, d)

  abbrev pub insert : K → V → Assoc → Assoc
  insert k v t = add_found k v t (find same k t.0) refl

  pub insert-add :
      (k : K) (v : V) (t : Assoc) → find same k t.0 ≡ none → (insert k v t).0 ≡ add same k v t.0
  unfolding add_found
  insert-add k v t h = go (find same k t.0) refl
    where
      go : (o : Option V) (e : find same k t.0 ≡ o) → (add_found k v t o e).0 ≡ add same k v t.0
      go none e = refl
      go (some w) e = cc

  pub find-insert :
      (j k : K) (v : V) (t : Assoc)
      → find same k t.0 ≡ none
      → find same j (insert k v t).0 ≡ (if same k j then some v else find same j t.0)
  find-insert j k v t h = rw (insert-add k v t h) (find-add same j k v t.0 h iff)

  pub count-insert :
      (k : K) (v : V) (t : Assoc) → find same k t.0 ≡ none → count (insert k v t).0 ≡ count t.0 + 1
  count-insert k v t h = rw (insert-add k v t h) (count-add same k v t.0)

  pub values-insert :
      (k : K) (v : V) (t : Assoc)
      → find same k t.0 ≡ none
      → values (insert k v t).0 ≡ values t.0 ++ v ∷ []
  values-insert k v t h = rw (insert-add k v t h) (values-add same k v t.0)

  abbrev pub assoc_uthash : Uthash K V
  assoc_uthash = record {
    Table = Assoc;
    same = same;
    same_iff = iff;
    empty = ([], tt);
    find = λ k t. find same k t.0;
    add = insert;
    delete = λ k t. (delete same k t.0, Distinct-delete k t.0 t.1);
    count = λ t. count t.0;
    items = λ t. values t.0;
    find-empty = λ j. refl;
    find-add = find-insert;
    find-delete = λ j k v t h. find-delete j k t.0 t.1;
    count-empty = refl;
    count-add = count-insert;
    count-delete = λ k v t h. count-delete k v t.0 h;
    items-empty = refl;
    items-add = values-insert;
  }

-- The tables of the tests.
abbrev pub assoc_hashes : Hashes
assoc_hashes = record {
  ino = assoc_uthash ℕ (λ j k. j == k) ==_iff;
  name = assoc_uthash ℕ bytes_eq bytes_eq_iff;
}
