-- ===== src/Fs/Remove/Purge.antt =====
-- `fsRemoveitem` where the directory ends up empty, and where the item is a directory.
use symbi_os.Base.{
  update, ℕ, suc, ◌<◌, ◌≡◌, ap, refl, ◌≢◌, Bool, true, false, none, some, List, ◌∷◌, arith, ◌==◌,
  Bytes,
}
use symbi_os.Base.Machine.{done, and_then, pure}
use symbi_os.Uthash.{Hashes}
use symbi_os.Fs.{FsDir, FsFile, Fs, dir_data, directory, invalid_ino, root_ino}
use symbi_os.Fs.Inode.{ino_max}
use symbi_os.Fs.Inode.Chain.{has, IsTable}
use symbi_os.Fs.Inode.Alloc.{freed_state, freed_state-IsTable, inofree_run}
use symbi_os.Fs.Dir.Create.{IsDirAt}
use symbi_os.Fs.Remove.{fs_removeitem, remove_alone, holds_items, container, release}
use symbi_os.Fs.Remove.File.{
  IsListed, without_item, removed_state, holds_items_run, container_run, remove_alone_run,
}

module _ {H : Hashes} where
  -- A directory that lists something is not removed: the result is false and nothing changes.
  pub fs_removeitem_busy :
      (s : Fs H) {item : ℕ} {d : FsFile H} {dd : FsDir H} (k : ℕ) (purge : Bool)
      → s.heap item ≡ some d
      → d.type ≡ directory
      → d.content ≡ dir_data dd
      → H.ino.count dd.ino_files ≡ H.name.count dd.nm_files
      → H.ino.count dd.ino_files ≢ 0
      → fs_removeitem (suc k) item purge s ≡ done false s
  unfolding fs_removeitem holds_items
  fs_removeitem_busy s k purge loaded type content counts busy = ground arith

  -- The root directory `d`, with no items, goes when it is removed.
  root_run :
      (s : Fs H) {p : ℕ} {d : FsFile H} {dd : FsDir H} {free : List ℕ} (k : ℕ) (purge : Bool)
      → IsTable s free
      → s.heap p ≡ some d
      → d.type ≡ directory
      → d.content ≡ dir_data dd
      → d.ino ≡ root_ino
      → d.dir ≡ invalid_ino
      → d.malloced ≡ true
      → has root_ino free ≡ false
      → H.ino.count dd.ino_files ≡ 0
      → H.name.count dd.nm_files ≡ 0
      → fs_removeitem (suc k) p purge s
        ≡ done true (let u = freed_state root_ino s in record u { heap = update u.heap p none })
  unfolding fs_removeitem holds_items container remove_alone release
  root_run s k purge t loaded type content ino dir malloced out none_ino none_name =
      let run = inofree_run s t (omega arith) out in ground arith

module _ {H : Hashes} (s : Fs H) {p item : ℕ} {d f : FsFile H} {dd : FsDir H} {name : Bytes}
    {free : List ℕ} (t : IsTable s free) (at : IsDirAt s f.dir p d dd)
    (l : IsListed s item p f dd name) (lt : f.ino < ino_max) (out : has f.ino free ≡ false) where
  abbrev removed : Fs H
  removed = removed_state s at l

  abbrev purged_state : Fs H
  purged_state = let u = freed_state root_ino removed in record u { heap = update u.heap p none }

  removed-IsTable : IsTable removed (f.ino ∷ free)
  removed-IsTable =
      let u = freed_state-IsTable s t lt out in
      record { made = u.made; size = u.size; chain = u.chain; count = u.count; taken = u.taken }

  root_removed :
      (k : ℕ)
      → d.ino ≡ root_ino
      → d.dir ≡ invalid_ino
      → d.malloced ≡ true
      → has root_ino free ≡ false
      → H.ino.count dd.ino_files ≡ 1
      → fs_removeitem (suc k) p true removed ≡ done true purged_state
  root_removed k ino dir malloced root_used single =
      let type = at.type in
      let ne = l.apart in
      let not_root = l.not_root in
      let by_ino = l.by_ino in
      let by_name = l.by_name in
      let counts = l.counts in
      root_run removed {d = without_item d dd f.ino name} k true removed-IsTable (ground arith) type
        refl ino dir malloced (ground arith)
        (omega (arith, H.ino.count-delete f.ino item dd.ino_files by_ino))
        (omega (arith, H.name.count-delete name item dd.nm_files by_name))

  root_used_after : has root_ino free ≡ false → has root_ino (f.ino ∷ free) ≡ false
  root_used_after root_used = let not_root = l.not_root in ground arith

  purged_state-IsTable : has root_ino free ≡ false → IsTable purged_state (root_ino ∷ f.ino ∷ free)
  purged_state-IsTable root_used =
      let u : IsTable (freed_state root_ino removed) (root_ino ∷ f.ino ∷ free) =
        freed_state-IsTable removed removed-IsTable (omega arith) (root_used_after root_used) in
      record { made = u.made; size = u.size; chain = u.chain; count = u.count; taken = u.taken }

  file_and_root_run :
      (k : ℕ)
      → d.ino ≡ root_ino
      → d.dir ≡ invalid_ino
      → d.malloced ≡ true
      → has root_ino free ≡ false
      → H.ino.count dd.ino_files ≡ 1
      → fs_removeitem (suc (suc k)) item true s ≡ done true purged_state
  unfolding fs_removeitem
  file_and_root_run k ino dir malloced root_used single =
      let loaded = l.loaded in
      let emptied : (H.ino.count (H.ino.delete f.ino dd.ino_files) == 0) ≡ true =
        ground (arith, H.ino.count-delete f.ino item dd.ino_files l.by_ino) in
      rw
        (
          loaded,
          holds_items_run s at l,
          container_run s at l,
          remove_alone_run s at l t lt out,
          emptied,
        )
        (ap (λ r. and_then r (λ _. pure true)) (root_removed k ino dir malloced root_used single))

  -- `fsRemoveitem` with purging of the only file in the root directory removes the root directory
  -- too: both inodes are free, the root's first, and the memory of both is free.
  pub fs_removeitem_purge :
      (k : ℕ)
      → d.ino ≡ root_ino
      → d.dir ≡ invalid_ino
      → d.malloced ≡ true
      → has root_ino free ≡ false
      → H.ino.count dd.ino_files ≡ 1
      → (s' : Fs H) × (fs_removeitem (suc (suc k)) item true s ≡ done true s')
        × IsTable s' (root_ino ∷ f.ino ∷ free)
        × (s'.heap item ≡ none)
        × (s'.heap p ≡ none)
        × ((q : ℕ) → q ≢ item → q ≢ p → s'.heap q ≡ s.heap q)
  fs_removeitem_purge k ino dir malloced root_used single = (
    purged_state,
    file_and_root_run k ino dir malloced root_used single,
    purged_state-IsTable root_used,
    ground arith,
    ground arith,
    λ q ne ne'. ground arith,
  )
