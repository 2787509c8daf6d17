-- ===== src/Fs/Remove.antt =====
-- `fsRemoveitem` of fs.c. The recursion into the containing directory runs on fuel.
pub mod File
pub mod Purge
use symbi_os.Base.{
  ℕ, zero, suc, Bool, true, false, not, ◌&&◌, Option, none, some, ◌==◌, ltb, if◌then◌else◌, is_some,
}
use symbi_os.Base.Machine.{M, out_of_fuel, pure, ◌>>=◌, ◌>>◌, assert, deref}
use symbi_os.Uthash.{Hashes}
use symbi_os.Fs.{
  invalid_ino, root_ino, no_type, no_data, dir_data, FsFile, Fs, load_file, store_file, load_desc,
}
use symbi_os.Fs.Inode.{ino2inodesc, inofree}
use symbi_os.Fs.Dir.{is_directory, dir_of}

-- `tmp == item`
abbrev pub is_item : Option ℕ → ℕ → Bool
is_item none item = false
is_item (some p) item = p == item

module _ {H : Hashes} where
  -- The directory that lists an item.
  unfoldable pub containing_dir : ℕ → M (Fs H) ℕ
  unfolding ino2inodesc
  containing_dir ino = do
    i ← ino2inodesc ino
    d ← load_desc i
    assert (not (is_some d.next) && is_some d.file)
    p ← deref d.file
    c ← load_file p
    assert (is_directory c.type)
    pure p

  -- Both tables of the containing directory lose the item; says whether the directory is now empty.
  unfoldable pub unlist : ℕ → ℕ → FsFile H → M (Fs H) Bool
  unlist p item f = do
    c ← load_file p
    dd ← dir_of c.content
    assert (H.ino.count dd.ino_files == H.name.count dd.nm_files)
    assert (ltb 0 (H.ino.count dd.ino_files))
    assert (is_item (H.ino.find f.ino dd.ino_files) item)
    name ← deref f.name
    assert (is_item (H.name.find name dd.nm_files) item)
    let inos = H.ino.delete f.ino dd.ino_files
    let names = H.name.delete name dd.nm_files
    store_file p
        (some (record c { content = dir_data (record { ino_files = inos; nm_files = names }) }))
    assert (H.ino.count inos == H.name.count names)
    pure (H.ino.count inos == 0)

  unfoldable pub unlist_from : Option ℕ → ℕ → FsFile H → M (Fs H) Bool
  unlist_from none item f = pure false
  unlist_from (some p) item f = unlist p item f

  -- The fields are cleared, and the memory is freed if it was allocated.
  unfoldable pub release : ℕ → FsFile H → M (Fs H) (Unit {0})
  release item f = store_file item (
      if f.malloced
      then none
      else some (record f {
        ops = none;
        ino = invalid_ino;
        dir = invalid_ino;
        type = no_type;
        content = no_data;
        name = none;
      }))

  -- Is this a directory that lists something?
  unfoldable pub holds_items : FsFile H → M (Fs H) Bool
  holds_items f =
      if is_directory f.type
      then (do
        dd ← dir_of f.content
        assert (H.ino.count dd.ino_files == H.name.count dd.nm_files)
        pure (not (H.ino.count dd.ino_files == 0)))
      else pure false

  unfoldable pub container : FsFile H → M (Fs H) (Option ℕ)
  unfolding containing_dir
  container f =
      if is_directory f.type
      then if not (f.ino == root_ino)
        then (do p ← containing_dir f.dir; pure (some p))
        else (do assert (f.dir == invalid_ino); pure none)
      else do
        assert (not (f.ino == root_ino) && not (f.dir == invalid_ino))
        p ← containing_dir f.dir
        pure (some p)

  unfoldable pub remove_alone : ℕ → FsFile H → Option ℕ → M (Fs H) Bool
  unfolding unlist_from
  remove_alone item f containing = do
    emptied ← unlist_from containing item f
    inofree f.ino
    release item f
    pure emptied

  unfoldable pub fs_removeitem : (fuel : ℕ) → ℕ → Bool → M (Fs H) Bool
  fs_removeitem zero item purge = λ _. out_of_fuel
  fs_removeitem (suc k) item purge = do
    f ← load_file item
    busy ← holds_items f
    if busy then pure false else do
      containing ← container f
      emptied ← remove_alone item f containing
      elim containing [
        | none ↦ pure true
        | some p ↦ if emptied && purge then (do fs_removeitem k p purge; pure true) else pure true
      ]
