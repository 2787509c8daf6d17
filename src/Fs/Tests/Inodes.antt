-- ===== src/Fs/Tests/Inodes.antt =====
-- Instances of the theorems on the inode table.
use symbi_os.Base.{ℕ, ◌<◌, ◌≡◌, refl, ◌≢◌, true, false, none, some, [], ◌∷◌, arith}
use symbi_os.Base.Machine.{done, abort, ◌>>=◌}
use symbi_os.Uthash.Assoc.{assoc_hashes}
use symbi_os.Fs.{Fs}
use symbi_os.Fs.Inode.{ino_max, inoalloc, inofree}
use symbi_os.Fs.Inode.Chain.{IsTable, range_from}
use symbi_os.Fs.Inode.Alloc.{
  inoalloc-IsTable, inoalloc_exhausted, inoalloc-inofree_abort, inofree-inoalloc,
}
use symbi_os.Fs.Inode.Init.{inoalloc_first}
use symbi_os.Fs.Tests.State.{
  empty_root, empty_root-IsTable, full_table, full_table-IsTable, root_and_file,
  root_and_file-IsTable,
}

inoalloc-IsTable_example :
    (s' : Fs assoc_hashes) × (inoalloc empty_root ≡ done 2 s')
    × IsTable s' (3 ∷ [])
    × ((j : ℕ) → j ≢ 2 → s'.ino_table j ≡ empty_root.ino_table j)
inoalloc-IsTable_example = inoalloc-IsTable empty_root empty_root-IsTable refl

inoalloc_exhausted_test : inoalloc full_table ≡ abort
inoalloc_exhausted_test = inoalloc_exhausted full_table full_table-IsTable

inoalloc-inofree_abort_test : (inofree 2 >>= λ _. inoalloc) root_and_file ≡ abort
inoalloc-inofree_abort_test =
    inoalloc-inofree_abort root_and_file root_and_file-IsTable (omega arith) refl refl

inofree-inoalloc_test :
    (s' : Fs assoc_hashes) × ((inoalloc >>= inofree) empty_root ≡ done true s')
    × IsTable s' (2 ∷ 3 ∷ [])
    × (s'.ino_freelist ≡ some 2)
    × ((j : ℕ) → (s'.ino_table j).next ≡ (empty_root.ino_table j).next)
inofree-inoalloc_test = inofree-inoalloc empty_root empty_root-IsTable refl

abbrev cleared : Fs assoc_hashes
cleared = record full_table { has_table = false; ino_num = 0 }

inoalloc_first_test :
    (s' : Fs assoc_hashes) × (inoalloc cleared ≡ done 0 s')
    × IsTable s' (range_from 255 1)
    × ((i : ℕ) → i < ino_max → (s'.ino_table i).file ≡ none)
    × (s'.heap ≡ cleared.heap)
inoalloc_first_test = inoalloc_first cleared refl refl
