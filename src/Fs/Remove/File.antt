-- ===== src/Fs/Remove/File.antt =====
-- `fsRemoveitem` of a file in a directory, and of a directory that is in use.
use symbi_os.Base.{
  update, ℕ, suc, ◌<◌, ◌≡◌, ◌≢◌, Bool, true, false, ◌&&◌, none, some, List, arith, ◌==◌, Bytes,
}
use symbi_os.Base.Machine.{done}
use symbi_os.Uthash.{Hashes}
use symbi_os.Fs.{root_ino, FsDir, FsFile, dir_data, Fs}
use symbi_os.Fs.Inode.{ino_max}
use symbi_os.Fs.Inode.Chain.{has, IsTable}
use symbi_os.Fs.Inode.Alloc.{freed_state, inofree_run}
use symbi_os.Fs.Dir.{is_directory}
use symbi_os.Fs.Dir.Create.{IsDirAt}
use symbi_os.Fs.Remove.{fs_removeitem, unlist, release, remove_alone, container, holds_items}

-- The file `f` at `item` is listed in a directory at `p` under its name and its number.
pub record IsListed {H : Hashes} (s : Fs H) (item p : ℕ) (f : FsFile H) (dd : FsDir H)
    (name : Bytes) : Type 0 where
  pub loaded : s.heap item ≡ some f
  pub named : f.name ≡ some name
  pub is_file : is_directory f.type ≡ false
  pub not_root : f.ino ≢ root_ino
  pub malloced : f.malloced ≡ true
  pub apart : item ≢ p
  pub by_ino : H.ino.find f.ino dd.ino_files ≡ some item
  pub by_name : H.name.find name dd.nm_files ≡ some item
  pub counts : H.ino.count dd.ino_files ≡ H.name.count dd.nm_files

module _ {H : Hashes} where
  abbrev pub without_item : FsFile H → FsDir H → ℕ → Bytes → FsFile H
  without_item d dd i name = record d {
    content = dir_data (record {
      ino_files = H.ino.delete i dd.ino_files;
      nm_files = H.name.delete name dd.nm_files;
    });
  }

  module _ (s : Fs H) {p item : ℕ} {d f : FsFile H} {dd : FsDir H} {name : Bytes}
      (at : IsDirAt s f.dir p d dd) (l : IsListed s item p f dd name) where
    abbrev pub unlisted_state : Fs H
    unlisted_state = record s { heap = update s.heap p (some (without_item d dd f.ino name)) }

    abbrev pub removed_state : Fs H
    removed_state =
        let t = freed_state f.ino unlisted_state in record t { heap = update t.heap item none }

    unlist_run :
        unlist p item f s ≡ done (H.ino.count (H.ino.delete f.ino dd.ino_files) == 0) unlisted_state
    unfolding unlist
    unlist_run =
        let loaded = at.loaded in
        let content = at.content in
        let named = l.named in
        let by_ino = l.by_ino in
        let by_name = l.by_name in
        let counts = l.counts in
        ground (
          arith,
          H.ino.count-delete f.ino item dd.ino_files,
          H.name.count-delete name item dd.nm_files,
        )

    pub container_run : container f s ≡ done (some p) s
    unfolding container
    container_run =
        let valid = at.valid in
        let below = at.below in
        let desc_file = at.desc_file in
        let desc_next = at.desc_next in
        let loaded = at.loaded in
        let type = at.type in let is_file = l.is_file in let not_root = l.not_root in ground arith

    pub holds_items_run : holds_items f s ≡ done false s
    unfolding holds_items
    holds_items_run = let is_file = l.is_file in ground arith

    module _ {free : List ℕ} (t : IsTable s free) (lt : f.ino < ino_max)
        (out : has f.ino free ≡ false) where
      unlisted_state-IsTable : IsTable unlisted_state free
      unlisted_state-IsTable = record {
        made = t.made;
        size = t.size;
        chain = t.chain;
        count = t.count;
        taken = t.taken;
      }

      pub remove_alone_run :
          remove_alone item f (some p) s
          ≡ done (H.ino.count (H.ino.delete f.ino dd.ino_files) == 0) removed_state
      unfolding remove_alone release
      remove_alone_run =
          let malloced = l.malloced in
          rw (unlist_run, inofree_run unlisted_state unlisted_state-IsTable lt out) (ground arith)

      -- `fsRemoveitem` of a file takes it from both tables of its directory, gives its inode back and
      -- frees its memory. It returns true. (The directory keeps other items, or is not to be purged.)
      pub fs_removeitem_file :
          (k : ℕ) (purge : Bool)
          → ((H.ino.count dd.ino_files == 1) && purge) ≡ false
          → fs_removeitem (suc k) item purge s ≡ done true removed_state
      unfolding fs_removeitem
      fs_removeitem_file k purge stays =
          let loaded = l.loaded in
          rw (loaded, holds_items_run, container_run, remove_alone_run)
            (ground (arith, H.ino.count-delete f.ino item dd.ino_files l.by_ino))
