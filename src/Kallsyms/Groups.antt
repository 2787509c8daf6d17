-- ===== src/Kallsyms/Groups.antt =====
-- The groups of symbols that `prcKallsyms` of main.c builds, against the lines of each module.
use symbi_os.Base.{
  update, ap, ℕ, ◌+◌, ◌<◌, ◌≡◌, refl, ◌≢◌, Bool, true, false, inl, inr, Option, none, some, List,
  [], ◌∷◌, ◌++◌, arith, ◌==◌, Bytes, bytes_eq, bytes_eq_iff, Bool-cases,
}
use mathlib.Core.List.{append-nil}
use symbi_os.Uthash.{Uthash}
use symbi_os.Elf.{SymbolEntry, strs_len}
use symbi_os.Elf.Image.{names_of}
use symbi_os.Elf.Read.Room.{strs_len-snoc}
use symbi_os.Kallsyms.{Line, init_se, module_of, Group, empty_group, add_entry, Symbols}

abbrev pub same_word : Option Bytes → Option Bytes → Bool
same_word none none = true
same_word (some a) (some b) = bytes_eq a b
same_word _ _ = false

abbrev pub entry_to : Bool → Option SymbolEntry → List SymbolEntry → List SymbolEntry
entry_to true (some e) es = e ∷ es
entry_to _ _ es = es

-- The entries of the lines that name a module, or none.
abbrev pub entries_for : Option Bytes → List Line → List SymbolEntry
entries_for m [] = []
entries_for m (l ∷ ls) = entry_to (same_word (module_of l.word) m) (init_se l) (entries_for m ls)

-- A group holds these entries and counts the bytes of their names.
pub record Holds (g : Group) (es : List SymbolEntry) : Type 0 where
  pub entries : g.entries ≡ es
  pub sum : g.nmstrlen ≡ strs_len (names_of es)

Holds-add_entry :
    (g : Group) (es : List SymbolEntry) (e : SymbolEntry)
    → Holds g es
    → Holds (add_entry e g) (es ++ e ∷ [])
unfolding add_entry
Holds-add_entry g es e h = record {
  entries = ap (λ x. x ++ e ∷ []) h.entries;
  sum = let sum = h.sum in omega (arith, strs_len-snoc es e);
}

pub nothing : Holds empty_group []
unfolding strs_len
nothing = record { entries = refl; sum = refl }

-- The table leads from each module to a group of its own, which holds what is wanted for it.
pub record IsGrouped {T : Uthash Bytes ℕ} (want : Option Bytes → List SymbolEntry) (s : Symbols T)
    : Type 0 where
  pub kernel : Holds s.kernel (want none)
  pub absent : (m : Bytes) → T.find m s.mhash ≡ none → want (some m) ≡ []
  pub below : (m : Bytes) (p : ℕ) → T.find m s.mhash ≡ some p → p < s.used
  pub present : (m : Bytes) (p : ℕ) → T.find m s.mhash ≡ some p → Holds (s.mods p) (want (some m))
  pub distinct :
      (m n : Bytes) (p : ℕ) → T.find m s.mhash ≡ some p → T.find n s.mhash ≡ some p → m ≡ n

abbrev pub with_entry :
    (Option Bytes → List SymbolEntry) → Option Bytes → SymbolEntry → Option Bytes → List SymbolEntry
with_entry want m e n = want n ++ entry_to (same_word m n) (some e) []

module _ {T : Uthash Bytes ℕ} (want : Option Bytes → List SymbolEntry) (e : SymbolEntry)
    (s : Symbols T) (v : IsGrouped want s) where
  pub kernel_added : IsGrouped (with_entry want none e) (record s { kernel = add_entry e s.kernel })
  kernel_added = record {
    kernel = Holds-add_entry s.kernel (want none) e v.kernel;
    absent = λ m h. rw (v.absent m h) refl;
    below = v.below;
    present = λ m p h. rw append-nil (v.present m p h);
    distinct = v.distinct;
  }

  module _ (m : Bytes) where
    not_same : (n : Bytes) → m ≢ n → bytes_eq m n ≡ false
    not_same n ne = ground (arith, bytes_eq_iff m n)

    same_self : bytes_eq m m ≡ true
    same_self = ground (arith, bytes_eq_iff m m)

    pub found_added :
        (p : ℕ)
        → T.find m s.mhash ≡ some p
        → IsGrouped
            (with_entry want (some m) e)
            (record s { mods = update s.mods p (add_entry e (s.mods p)) })
    found_added p found = record {
      kernel = rw append-nil v.kernel;
      absent = λ n h. let apart : m ≢ n = λ same. cc in rw (not_same n apart, v.absent n h) refl;
      below = v.below;
      present = λ n q h. elim (Bool-cases (bytes_eq m n)) [
        | inl same ↦
            let is : m ≡ n = (bytes_eq_iff m n).0 same in
            let there : T.find n s.mhash ≡ some p = cc in
            let hit : (p == q) ≡ true = ground (arith, there) in
            rw (hit, same) (Holds-add_entry (s.mods p) (want (some n)) e (v.present n p there))
        | inr other ↦
            let miss : (p == q) ≡ false = ground (arith, v.distinct m n q, bytes_eq_iff m n) in
            rw (miss, other, append-nil) (v.present n q h)
      ];
      distinct = v.distinct;
    }

    abbrev pub added : Symbols T
    added = record s {
      mhash = T.add m s.used s.mhash;
      mods = update (update s.mods s.used empty_group) s.used (add_entry e empty_group);
      used = s.used + 1;
    }

    pub new_added : T.find m s.mhash ≡ none → IsGrouped (with_entry want (some m) e) added
    new_added missing = record {
      kernel = rw append-nil v.kernel;
      absent = λ n h.
          let out : bytes_eq m n ≡ false =
            ground
              (arith, T.find-add n m s.used s.mhash missing, T.same_iff m n, bytes_eq_iff m n) in
          let far : T.find n s.mhash ≡ none =
            ground (arith, T.find-add n m s.used s.mhash missing) in
          rw (out, v.absent n far) refl;
      below = λ n q h. ground (arith, T.find-add n m s.used s.mhash missing, v.below n q);
      present = λ n q h. elim (Bool-cases (bytes_eq m n)) [
        | inl same ↦
            let is : m ≡ n = (bytes_eq_iff m n).0 same in
            let far : T.find n s.mhash ≡ none = cc in
            let hit : (s.used == q) ≡ true =
              ground (arith, T.find-add n m s.used s.mhash missing, T.same_iff m n) in
            rw (hit, same, v.absent n far) (Holds-add_entry empty_group [] e nothing)
        | inr other ↦
            let there : T.find n s.mhash ≡ some q =
              ground
                (arith, T.find-add n m s.used s.mhash missing, T.same_iff m n, bytes_eq_iff m n) in
            let miss : (s.used == q) ≡ false = ground (arith, v.below n q there) in
            rw (miss, other, append-nil) (v.present n q there)
      ];
      distinct = λ n o q h k. ground (
        arith,
        T.find-add n m s.used s.mhash missing,
        T.find-add o m s.used s.mhash missing,
        T.same_iff m n,
        T.same_iff m o,
        v.below n q,
        v.below o q,
        v.distinct n o q,
      );
    }
