-- ===== src/Fs/Dir/Create.antt =====
-- `fsCreatefile` in a directory that has room for the name.
use symbi_os.Base.{update, true, Option, ℕ, ◌<◌, ◌≡◌, ◌≢◌, none, some, List, ◌∷◌, arith, Bytes}
use symbi_os.Base.Machine.{done}
use symbi_os.Uthash.{Hashes}
use symbi_os.Fs.{FileOps, ino_desc, FsDir, FsFile, dir_data, directory, invalid_ino, Fs}
use symbi_os.Fs.Inode.Chain.{IsTable, FreeChain-cons_inv, FreeChain-frame}
use symbi_os.Fs.Inode.Alloc.{taken_state, taken_state-IsTable, inoalloc_run}
use symbi_os.Fs.Dir.{link_type, link_data, fs_createfile, file_init, new_inode}

-- Inode `ino` is in use for the directory `d` at address `p`, with the tables `dd`.
pub record IsDirAt {H : Hashes} (s : Fs H) (ino p : ℕ) (d : FsFile H) (dd : FsDir H) : Type 0 where
  pub valid : ino ≢ invalid_ino
  pub below : ino < s.ino_num
  pub desc_file : (s.ino_table ino).file ≡ some p
  pub desc_next : (s.ino_table ino).next ≡ none
  pub loaded : s.heap p ≡ some d
  pub type : d.type ≡ directory
  pub content : d.content ≡ dir_data dd

module _ {H : Hashes} where
  -- The directory with the new item in both tables.
  abbrev pub with_item : FsFile H → FsDir H → ℕ → ℕ → Bytes → FsFile H
  with_item d dd i fresh name = record d {
    content = dir_data (record {
      ino_files = H.ino.add i fresh dd.ino_files;
      nm_files = H.name.add name fresh dd.nm_files;
    });
  }

  abbrev pub new_file : (i dirino : ℕ) → Bytes → Option Bytes → Option FileOps → FsFile H
  new_file i dirino name target ops =
      file_init i dirino (link_data target) name (link_type target) true ops

  -- The state after a file was added: its memory, the directory's tables and its inode.
  abbrev pub created_state : Fs H → (i fresh p : ℕ) → FsFile H → FsDir H → Bytes → FsFile H → Fs H
  created_state s i fresh p d dd name f = record (taken_state i s) {
    heap = update (update s.heap fresh (some f)) p (some (with_item d dd i fresh name));
    ino_table = update (taken_state i s).ino_table i (ino_desc (some fresh) none);
  }

  -- The same where the directory refused the item.
  abbrev pub unlisted_file_state : Fs H → (i fresh : ℕ) → FsFile H → Fs H
  unlisted_file_state s i fresh f = record (taken_state i s) {
    heap = update s.heap fresh (some f);
    ino_table = update (taken_state i s).ino_table i (ino_desc (some fresh) none);
  }

  module _ (s : Fs H) {i : ℕ} {free : List ℕ} (t : IsTable s (i ∷ free))
      (clean : (s.ino_table i).file ≡ none) where
    pub new_inode_run : new_inode s ≡ done i (taken_state i s)
    unfolding new_inode
    new_inode_run =
        let (head, lt, out, c) = FreeChain-cons_inv t.chain in
        let size = t.size in rw (inoalloc_run s t clean) (ground arith)

    -- With its inode set the table is still sound.
    pub set_file-IsTable :
        (fresh : ℕ) (h : ℕ → Option (FsFile H))
        → IsTable
            (record (taken_state i s) {
              heap = h;
              ino_table = update (taken_state i s).ino_table i (ino_desc (some fresh) none);
            })
            free
    set_file-IsTable fresh h =
        let u = taken_state-IsTable s t in
        record {
          made = u.made;
          size = u.size;
          chain = FreeChain-frame u.chain (λ j h. ground arith);
          count = u.count;
          taken = λ j l h. ground (arith, u.taken j l h);
        }

    module _ {dirino p fresh : ℕ} {d : FsFile H} {dd : FsDir H} (name : Bytes)
        (target : Option Bytes) (ops : Option FileOps) (at : IsDirAt s dirino p d dd)
        (unused : s.heap fresh ≡ none) (apart : dirino ≢ i) where
      pub fs_createfile_run :
          H.ino.find i dd.ino_files ≡ none
          → H.name.find name dd.nm_files ≡ none
          → fs_createfile fresh dirino name target ops s
            ≡ done fresh (created_state s i fresh p d dd name (new_file i dirino name target ops))
      unfolding fs_createfile file_init
      fs_createfile_run no_ino no_name =
          let valid = at.valid in
          let below = at.below in
          let desc_file = at.desc_file in
          let desc_next = at.desc_next in
          let loaded = at.loaded in
          let type = at.type in let content = at.content in rw new_inode_run (ground arith)

      pub fs_createfile_duplicate_run :
          {q : ℕ}
          → H.name.find name dd.nm_files ≡ some q
          → fs_createfile fresh dirino name target ops s
            ≡ done fresh (unlisted_file_state s i fresh (new_file i dirino name target ops))
      unfolding fs_createfile file_init
      fs_createfile_duplicate_run taken_name =
          let valid = at.valid in
          let below = at.below in
          let desc_file = at.desc_file in
          let desc_next = at.desc_next in
          let loaded = at.loaded in
          let type = at.type in let content = at.content in rw new_inode_run (ground arith)
