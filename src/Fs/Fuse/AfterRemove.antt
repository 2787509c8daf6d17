-- ===== src/Fs/Fuse/AfterRemove.antt =====
-- What the file system answers after `fsRemoveitem`.
use symbi_os.Base.{
  ◌∙◌, ℕ, suc, some, ◌<◌, ◌≡◌, refl, ◌≢◌, Bool, true, false, ◌&&◌, none, List, ◌∷◌, arith, ◌==◌,
  Bytes,
}
use symbi_os.Base.Machine.{done}
use symbi_os.Uthash.{Hashes}
use symbi_os.Fs.{FileOps, FsDir, FsFile, Fs, err, entry}
use symbi_os.Fs.Inode.{ino_max}
use symbi_os.Fs.Inode.Chain.{has, IsTable}
use symbi_os.Fs.Inode.Alloc.{freed_state-IsTable}
use symbi_os.Fs.Dir.Create.{IsDirAt}
use symbi_os.Fs.Remove.{fs_removeitem}
use symbi_os.Fs.Remove.File.{IsListed, without_item, removed_state, fs_removeitem_file}
use symbi_os.Fs.Fuse.{enoent, zero_stat, fs_fuse_lookup}
use symbi_os.Fs.Ops.{op_stat}
use symbi_os.Fs.Fuse.Lookup.{replied, lookup_some, lookup_none}

module _ {H : Hashes} (s : Fs H) {p item : ℕ} {d f : FsFile H} {dd : FsDir H} {name : Bytes}
    {free : List ℕ} (t : IsTable s free) (at : IsDirAt s f.dir p d dd)
    (l : IsListed s item p f dd name) (lt : f.ino < ino_max) (out : has f.ino free ≡ false)
    (apart : f.dir ≢ f.ino) where
  abbrev after : Fs H
  after = removed_state s at l

  abbrev listing : FsDir H
  listing = record {
    ino_files = H.ino.delete f.ino dd.ino_files;
    nm_files = H.name.delete name dd.nm_files;
  }

  after-IsDirAt : IsDirAt after f.dir p (without_item d dd f.ino name) listing
  after-IsDirAt =
      let valid = at.valid in
      let below = at.below in
      let desc_file = at.desc_file in
      let desc_next = at.desc_next in
      let type = at.type in
      let ne = l.apart in
      record {
        valid = valid;
        below = below;
        desc_file = ground arith;
        desc_next = ground arith;
        loaded = ground arith;
        type = type;
        content = refl;
      }

  after-IsTable : IsTable after (f.ino ∷ free)
  after-IsTable =
      let u = freed_state-IsTable s t lt out in
      record { made = u.made; size = u.size; chain = u.chain; count = u.count; taken = u.taken }

  -- `fsRemoveitem` of a file that its directory lists, by its name and its inode (and that is not
  -- the last of a directory to be purged), returns true. The file is not a directory and not the
  -- root, was made by `fsCreatefile`, and has an inode of the table that is not free and not the
  -- directory's; the two tables of the directory have the same number of items. Afterwards the
  -- inode heads the free list and the memory of the file is free; the directory has tables in which
  -- every other name and every other inode is found as before; a lookup of the name answers
  -- `ENOENT`, and so does one of a name that was not there; a lookup of another name that was
  -- there, for a file in memory with operations that is neither the item nor the directory itself,
  -- answers that file; and no other memory than the item's and the directory's changed.
  pub lookup-removeitem :
      (k pid : ℕ) (purge : Bool)
      → ((H.ino.count dd.ino_files == 1) && purge) ≡ false
      → (s' : Fs H) × (fs_removeitem (suc k) item purge s ≡ done true s')
        × IsTable s' (f.ino ∷ free)
        × (s'.heap item ≡ none)
        × (fs_fuse_lookup pid f.dir name s' ≡ done tt (replied s' (err enoent)))
        × ((d' : FsFile H) × (dd' : FsDir H) × IsDirAt s' f.dir p d' dd'
            × ((other : Bytes)
                → other ≢ name
                → H.name.find other dd'.nm_files ≡ H.name.find other dd.nm_files)
            × ((j : ℕ) → j ≢ f.ino → H.ino.find j dd'.ino_files ≡ H.ino.find j dd.ino_files))
        × ((other : Bytes)
            → other ≢ name
            → H.name.find other dd.nm_files ≡ none
            → fs_fuse_lookup pid f.dir other s' ≡ done tt (replied s' (err enoent)))
        × ((other : Bytes) (q : ℕ) (g : FsFile H) (o : FileOps)
            → other ≢ name
            → H.name.find other dd.nm_files ≡ some q
            → q ≢ item
            → q ≢ p
            → s.heap q ≡ some g
            → g.ops ≡ some o
            → fs_fuse_lookup pid f.dir other s'
              ≡ done tt (replied s' (entry g.ino (op_stat pid o g zero_stat))))
        × ((q : ℕ) → q ≢ item → q ≢ p → s'.heap q ≡ s.heap q)
  lookup-removeitem k pid purge stays =
      let by_name = l.by_name in
      let by_ino = l.by_ino in
      let kept_name : (other : Bytes)
          → other ≢ name
          → H.name.find other listing.nm_files ≡ H.name.find other dd.nm_files =
        λ other ne. ground (
          arith,
          H.name.find-delete other name item dd.nm_files by_name,
          H.name.same_iff name other,
        ) in
      (
        after,
        fs_removeitem_file s at l t lt out k purge stays,
        after-IsTable,
        ground arith,
        lookup_none after after-IsDirAt pid name (
            ground (
              arith,
              H.name.find-delete name name item dd.nm_files by_name,
              H.name.same_iff name name,
            )),
        (
          without_item d dd f.ino name,
          listing,
          after-IsDirAt,
          kept_name,
          λ j ne.
              ground
                (arith, H.ino.find-delete j f.ino item dd.ino_files by_ino, H.ino.same_iff f.ino j),
        ),
        (λ other ne absent.
            lookup_none after after-IsDirAt pid other (kept_name other ne ∙ absent)),
        (λ other q g o ne listed off_item off_dir there ops.
            lookup_some after after-IsDirAt pid other {q = q} g (kept_name other ne ∙ listed)
              (ground arith) ops),
        λ q ne ne'. ground arith,
      )
