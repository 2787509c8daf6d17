-- ===== src/Elf/Hash.antt =====
-- The table of `.hash` that elf.c writes, read the way the System V ABI describes.
use symbi_os.Base.{
  ℕ, zero, suc, ◌+◌, ◌%◌, ◌≡◌, refl, Bool, true, false, Option, none, some, List, ◌∷◌, arith, ◌==◌,
}
use symbi_os.Base.Lists.{length, get_elem?}
use symbi_os.Elf.Image.{hash_words, count_up}

-- `nbucket`, `nchain`, the buckets, the chain. The chain leads from index to index until 0; `none`
-- inside is a read behind the table.
abbrev pub follow : List ℕ → (nbucket : ℕ) → (matches : ℕ → Bool) → (fuel y : ℕ) → Option ℕ
follow h nbucket matches zero y = some 0
follow h nbucket matches (suc k) y = elim (y == 0) [
  | true ↦ some 0
  | false ↦ elim (matches y) [
    | true ↦ some y
    | false ↦ elim (get_elem? h (2 + nbucket + y)) [
      | none ↦ none
      | some z ↦ follow h nbucket matches k z
    ]
  ]
]

-- The index of the symbol for a name with this hash value, or 0.
abbrev pub hash_find : List ℕ → (value : ℕ) → (matches : ℕ → Bool) → (fuel : ℕ) → Option ℕ
hash_find (nbucket ∷ nchain ∷ rest) value matches fuel = elim (get_elem? rest (value % nbucket)) [
  | none ↦ none
  | some y ↦ follow (nbucket ∷ nchain ∷ rest) nbucket matches fuel y
]
hash_find _ value matches fuel = none

follow_end :
    (h : List ℕ) (nbucket fuel : ℕ) (matches : ℕ → Bool) → follow h nbucket matches fuel 0 ≡ some 0
follow_end h nbucket zero matches = refl
follow_end h nbucket (suc k) matches = refl

length-count_up : (n k : ℕ) → length (count_up n k) ≡ n
unfolding count_up
length-count_up zero k = refl
length-count_up (suc n) k = omega (arith, length-count_up n (k + 1))

-- The reader of the hash table finds no symbol, whatever the hash function and the names are, since
-- the one bucket stays 0; and the table is one word shorter than its header, one bucket and
-- `count + 1` chain entries, says.
pub hash_find-hash_words :
    (count value fuel : ℕ) (matches : ℕ → Bool)
    → (hash_find (hash_words count) value matches fuel ≡ some 0)
      × (length (hash_words count) + 1 ≡ 2 + 1 + (count + 1))
unfolding hash_words
hash_find-hash_words count value fuel matches =
    let only : value % 1 ≡ 0 = omega arith in
    (
      rw (only, hash_find) (follow_end (hash_words count) 1 fuel matches),
      omega (arith, length-count_up count 1),
    )
