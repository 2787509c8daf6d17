-- ===== src/Fs/Fuse/AfterCreate.antt =====
-- What the file system answers after `fsCreatefile`, also where the name is taken.
use symbi_os.Base.{◌∙◌, ℕ, suc, ◌≡◌, refl, ◌≢◌, Bool, Option, none, some, List, ◌∷◌, arith, Bytes}
use symbi_os.Base.Machine.{done, abort}
use symbi_os.Uthash.{Hashes}
use symbi_os.Fs.{FileOps, FsDir, FsFile, Fs, err, entry}
use symbi_os.Fs.Inode.Chain.{IsTable}
use symbi_os.Fs.Dir.{file_init, fs_createfile}
use symbi_os.Fs.Dir.Create.{
  fs_createfile_duplicate_run, unlisted_file_state, set_file-IsTable, IsDirAt, with_item,
  created_state, new_file, fs_createfile_run,
}
use symbi_os.Fs.Ops.{op_stat}
use symbi_os.Fs.Fuse.{enoent, zero_stat, fs_fuse_lookup}
use symbi_os.Fs.Fuse.Lookup.{replied, lookup_some, lookup_none}
use symbi_os.Fs.Remove.{fs_removeitem, holds_items, container, remove_alone, unlist}

module _ {H : Hashes} (s : Fs H) {i : ℕ} {free : List ℕ} (t : IsTable s (i ∷ free))
    (clean : (s.ino_table i).file ≡ none) {dirino p fresh : ℕ} {d : FsFile H} {dd : FsDir H}
    (name : Bytes) (target : Option Bytes) (o : FileOps) (at : IsDirAt s dirino p d dd)
    (unused : s.heap fresh ≡ none) (apart : dirino ≢ i) where
  abbrev file : FsFile H
  file = new_file i dirino name target (some o)

  abbrev after : Fs H
  after = created_state s i fresh p d dd name file

  abbrev listing : FsDir H
  listing = record {
    ino_files = H.ino.add i fresh dd.ino_files;
    nm_files = H.name.add name fresh dd.nm_files;
  }

  after-IsDirAt : IsDirAt after dirino p (with_item d dd i fresh name) listing
  after-IsDirAt =
      let valid = at.valid in
      let below = at.below in
      let desc_file = at.desc_file in
      let desc_next = at.desc_next in
      let type = at.type in
      record {
        valid = valid;
        below = below;
        desc_file = ground arith;
        desc_next = ground arith;
        loaded = ground arith;
        type = type;
        content = refl;
      }

  -- `fsCreatefile` returns the new file with the head of the free list as its inode, where the
  -- descriptor at that head has no file (it has one after a file was removed, and then
  -- `fsCreatefile` stops at an assertion), the directory is another inode, and neither the new name
  -- nor the inode is in the tables of the directory. Afterwards the rest of the free list is free,
  -- and the directory has tables in which every other name and every other inode is found as
  -- before. A lookup of the new name answers the new inode with the file's attributes; a lookup of
  -- another name that was not there still answers `ENOENT`; one of another name that was there, for
  -- a file in memory with operations that is not the directory itself, answers that file; and no
  -- memory changed but the new file's, which was not in use, and the directory's.
  pub lookup-createfile :
      (pid : ℕ)
      → H.ino.find i dd.ino_files ≡ none
      → H.name.find name dd.nm_files ≡ none
      → (s' : Fs H) × (fs_createfile fresh dirino name target (some o) s ≡ done fresh s')
        × IsTable s' free
        × ((d' : FsFile H) × (dd' : FsDir H) × IsDirAt s' dirino p d' dd'
            × ((other : Bytes)
                → other ≢ name
                → H.name.find other dd'.nm_files ≡ H.name.find other dd.nm_files)
            × ((j : ℕ) → j ≢ i → H.ino.find j dd'.ino_files ≡ H.ino.find j dd.ino_files))
        × (fs_fuse_lookup pid dirino name s'
            ≡ done tt (replied s' (entry i (op_stat pid o file zero_stat))))
        × ((other : Bytes)
            → other ≢ name
            → H.name.find other dd.nm_files ≡ none
            → fs_fuse_lookup pid dirino other s' ≡ done tt (replied s' (err enoent)))
        × ((other : Bytes) (q : ℕ) (f : FsFile H) (o' : FileOps)
            → other ≢ name
            → H.name.find other dd.nm_files ≡ some q
            → q ≢ p
            → s.heap q ≡ some f
            → f.ops ≡ some o'
            → fs_fuse_lookup pid dirino other s'
              ≡ done tt (replied s' (entry f.ino (op_stat pid o' f zero_stat))))
        × ((q : ℕ) → q ≢ fresh → q ≢ p → s'.heap q ≡ s.heap q)
  unfolding file_init
  lookup-createfile pid no_ino no_name =
      let kept_name : (other : Bytes)
          → other ≢ name
          → H.name.find other listing.nm_files ≡ H.name.find other dd.nm_files =
        λ other ne. ground (
          arith,
          H.name.find-add other name fresh dd.nm_files no_name,
          H.name.same_iff name other,
        ) in
      (
        after,
        fs_createfile_run s t clean name target (some o) at unused apart no_ino no_name,
        set_file-IsTable s t clean fresh after.heap,
        (
          with_item d dd i fresh name,
          listing,
          after-IsDirAt,
          kept_name,
          λ j ne. ground (arith, H.ino.find-add j i fresh dd.ino_files no_ino, H.ino.same_iff i j),
        ),
        lookup_some after after-IsDirAt pid name {q = fresh} file
            (ground (arith, H.name.find-add name name fresh dd.nm_files, H.name.same_iff name name))
            (let loaded = at.loaded in ground arith) refl,
        (λ other ne absent.
            lookup_none after after-IsDirAt pid other (kept_name other ne ∙ absent)),
        (λ other q f o' ne listed off_dir there ops.
            lookup_some after after-IsDirAt pid other {q = q} f (kept_name other ne ∙ listed)
              (ground (arith, unused)) ops),
        λ q ne ne'. ground arith,
      )

  -- Where the name is taken already and the descriptor at the head of the free list has no file (it
  -- has one after a file was removed, and then `fsCreatefile` stops at an assertion), `fsCreatefile`
  -- returns a file all the same: it takes the inode at that head, which is neither the root, nor the
  -- directory's own, nor in its table of inodes; the directory stays as it was; and a later
  -- `fsRemoveitem` of that file stops at an assertion.
  pub fs_createfile_duplicate :
      {q : ℕ} (k : ℕ) (purge : Bool)
      → H.name.find name dd.nm_files ≡ some q
      → H.ino.find i dd.ino_files ≡ none
      → i ≢ 1
      → (s' : Fs H) × (fs_createfile fresh dirino name target (some o) s ≡ done fresh s')
        × IsTable s' free
        × (s'.heap p ≡ s.heap p)
        × (fs_removeitem (suc k) fresh purge s' ≡ abort)
  unfolding fs_removeitem file_init holds_items container remove_alone unlist
  fs_createfile_duplicate k purge taken_name no_ino not_root = (
    unlisted_file_state s i fresh file,
    fs_createfile_duplicate_run s t clean name target (some o) at unused apart taken_name,
    set_file-IsTable s t clean fresh _,
    (let loaded = at.loaded in ground arith),
    (let valid = at.valid in
        let below = at.below in
        let desc_file = at.desc_file in
        let desc_next = at.desc_next in
        let loaded = at.loaded in let type = at.type in let content = at.content in ground arith),
  )
