-- ===== src/Fs/Tests/Removal.antt =====
-- Instances of the theorems on `fsRemoveitem`.
use symbi_os.Base.{ℕ, ◌≡◌, refl, ◌≢◌, true, false, none, some, [], ◌∷◌, arith, Bytes}
use symbi_os.Base.Machine.{done}
use symbi_os.Uthash.Assoc.{assoc_hashes, add_found}
use symbi_os.Fs.{FileOps, FsDir, FsFile, Fs, err, entry}
use symbi_os.Fs.Dir.Create.{IsDirAt}
use symbi_os.Fs.Ops.{op_stat}
use symbi_os.Fs.Inode.Chain.{IsTable}
use symbi_os.Fs.Remove.{fs_removeitem}
use symbi_os.Fs.Remove.Purge.{fs_removeitem_busy, fs_removeitem_purge}
use symbi_os.Fs.Fuse.{enoent, zero_stat, fs_fuse_lookup}
use symbi_os.Fs.Fuse.Lookup.{replied}
use symbi_os.Fs.Fuse.AfterRemove.{lookup-removeitem}
use symbi_os.Fs.Tests.State.{
  lib_name, one_item, root_and_file, root_and_file-IsTable, root_and_file-IsDirAt,
  lib_file-IsListed,
}

lookup-removeitem_example :
    (s' : Fs assoc_hashes) × (fs_removeitem 1 200 false root_and_file ≡ done true s')
    × IsTable s' (2 ∷ 3 ∷ [])
    × (s'.heap 200 ≡ none)
    × (fs_fuse_lookup 4321 1 lib_name s' ≡ done tt (replied s' (err enoent)))
    × ((d' : FsFile assoc_hashes) × (dd' : FsDir assoc_hashes) × IsDirAt s' 1 100 d' dd'
        × ((other : Bytes)
            → other ≢ lib_name
            → assoc_hashes.name.find other dd'.nm_files
              ≡ assoc_hashes.name.find other one_item.nm_files)
        × ((j : ℕ)
            → j ≢ 2
            → assoc_hashes.ino.find j dd'.ino_files ≡ assoc_hashes.ino.find j one_item.ino_files))
    × ((other : Bytes)
        → other ≢ lib_name
        → assoc_hashes.name.find other one_item.nm_files ≡ none
        → fs_fuse_lookup 4321 1 other s' ≡ done tt (replied s' (err enoent)))
    × ((other : Bytes) (q : ℕ) (g : FsFile assoc_hashes) (o : FileOps)
        → other ≢ lib_name
        → assoc_hashes.name.find other one_item.nm_files ≡ some q
        → q ≢ 200
        → q ≢ 100
        → root_and_file.heap q ≡ some g
        → g.ops ≡ some o
        → fs_fuse_lookup 4321 1 other s'
          ≡ done tt (replied s' (entry g.ino (op_stat 4321 o g zero_stat))))
    × ((q : ℕ) → q ≢ 200 → q ≢ 100 → s'.heap q ≡ root_and_file.heap q)
unfolding add_found
lookup-removeitem_example =
    lookup-removeitem root_and_file root_and_file-IsTable root_and_file-IsDirAt lib_file-IsListed
      (omega arith) refl (omega arith) 0 4321 false refl

fs_removeitem_purge_example :
    (s' : Fs assoc_hashes) × (fs_removeitem 2 200 true root_and_file ≡ done true s')
    × IsTable s' (1 ∷ 2 ∷ 3 ∷ [])
    × (s'.heap 200 ≡ none)
    × (s'.heap 100 ≡ none)
    × ((q : ℕ) → q ≢ 200 → q ≢ 100 → s'.heap q ≡ root_and_file.heap q)
unfolding add_found
fs_removeitem_purge_example =
    fs_removeitem_purge root_and_file root_and_file-IsTable root_and_file-IsDirAt lib_file-IsListed
      (omega arith) refl 0 refl refl refl refl refl

fs_removeitem_busy_test : fs_removeitem 1 100 false root_and_file ≡ done false root_and_file
unfolding add_found
fs_removeitem_busy_test = fs_removeitem_busy root_and_file 0 false refl refl refl refl (omega arith)
