-- ===== src/Fs/Inode/Chain.antt =====
-- The free list of the inode table, as a list of inode numbers.
use symbi_os.Base.{
  update, ℕ, zero, suc, ◌+◌, ◌<◌, ◌≡◌, refl, Bool, true, false, ◌&&◌, ◌||◌, Option, none, some,
  List, [], ◌∷◌, arith, ◌==◌, leb, ltb, if◌then◌else◌,
}
use symbi_os.Base.Lists.{length}
use symbi_os.Uthash.{Hashes}
use symbi_os.Fs.{InoDesc, ino_desc, Fs}
use symbi_os.Fs.Inode.{ino_max, link_entries}

abbrev pub has : ℕ → List ℕ → Bool
has i [] = false
has i (j ∷ js) = (i == j) || has i js

-- The `next` pointers lead from `head` through the distinct indices `is`, all below `n`.
pub data FreeChain (n : ℕ) (t : ℕ → InoDesc) : Option ℕ → List ℕ → Type 0 where
  end : FreeChain n t none []
  more :
      {i : ℕ} {is : List ℕ} (next : Option ℕ)
      → i < n
      → (t i).next ≡ next
      → has i is ≡ false
      → FreeChain n t next is
      → FreeChain n t (some i) (i ∷ is)

-- The table is in use, `free` is its free list, and what is not free has no `next`.
pub record IsTable {H : Hashes} (s : Fs H) (free : List ℕ) : Type 0 where
  pub made : s.has_table ≡ true
  pub size : s.ino_num ≡ ino_max
  pub chain : FreeChain ino_max s.ino_table s.ino_freelist free
  pub count : s.ino_numfree ≡ length free
  pub taken : (i : ℕ) → i < ino_max → has i free ≡ false → (s.ino_table i).next ≡ none

pub FreeChain-frame :
    {n : ℕ} {t u : ℕ → InoDesc} {head : Option ℕ} {is : List ℕ}
    → FreeChain n t head is
    → ((i : ℕ) → has i is ≡ true → (u i).next ≡ (t i).next)
    → FreeChain n u head is
FreeChain-frame end same = end
FreeChain-frame (more {i} next lt e out c) same =
    more next lt (ground (arith, same i)) out (FreeChain-frame c (λ j h. same j (ground arith)))

pub FreeChain-cons_inv :
    {n : ℕ} {t : ℕ → InoDesc} {head : Option ℕ} {i : ℕ} {is : List ℕ}
    → FreeChain n t head (i ∷ is)
    → (head ≡ some i) × (i < n) × (has i is ≡ false) × FreeChain n t (t i).next is
FreeChain-cons_inv {t} (more {i} {is} next lt e out c) = (refl, lt, out, rw e c)

pub FreeChain-nil_inv :
    {n : ℕ} {t : ℕ → InoDesc} {head : Option ℕ} → FreeChain n t head [] → head ≡ none
FreeChain-nil_inv end = refl

-- The loop of `init_inotable` writes the entries from `i` to `i + n - 1`.
pub link_entries_lem :
    (n i j : ℕ) (t : ℕ → InoDesc)
    → link_entries n i t j
      ≡ (if leb i j && ltb j (i + n) then ino_desc none (some (j + 1)) else t j)
unfolding link_entries
link_entries_lem zero i j t = ground arith
link_entries_lem (suc n) i j t =
    ground (arith, link_entries_lem n (i + 1) j (update t i (ino_desc none (some (i + 1)))))

-- `k`, `k + 1`, …, `m` numbers in all
unfoldable pub range_from : ℕ → ℕ → List ℕ
range_from zero k = []
range_from (suc m) k = k ∷ range_from m (k + 1)

pub length-range_from : (m k : ℕ) → length (range_from m k) ≡ m
unfolding range_from
length-range_from zero k = refl
length-range_from (suc m) k = omega (arith, length-range_from m (k + 1))

pub not_has-range_from : (m k i : ℕ) → i < k → has i (range_from m k) ≡ false
unfolding range_from
not_has-range_from zero k i h = refl
not_has-range_from (suc m) k i h = ground (arith, not_has-range_from m (k + 1) i (omega arith))

pub has-range_from : (m k i : ℕ) → has i (range_from m k) ≡ (leb k i && ltb i (k + m))
unfolding range_from
has-range_from zero k i = ground arith
has-range_from (suc m) k i = ground (arith, has-range_from m (k + 1) i)

abbrev pub index_below : ℕ → ℕ → Option ℕ
index_below n k = if ltb k n then some k else none

-- Descriptors that each lead to the next one form the chain of all indices from `k`.
pub FreeChain-range_from :
    (n : ℕ) (t : ℕ → InoDesc)
    → ((i : ℕ) → i < n → (t i).next ≡ index_below n (i + 1))
    → (m k : ℕ) → k + m ≡ n
    → FreeChain n t (index_below n k) (range_from m k)
unfolding range_from
FreeChain-range_from n t links zero k e = let over : ltb k n ≡ false = ground arith in rw over end
FreeChain-range_from n t links (suc m) k e =
    let under : ltb k n ≡ true = ground arith in
    rw under (
      more (index_below n (k + 1)) (omega arith) (links k (omega arith))
        (not_has-range_from m (k + 1) k (omega arith))
        (FreeChain-range_from n t links m (k + 1) (omega arith)))
