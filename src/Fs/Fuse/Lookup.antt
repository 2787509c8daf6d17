-- ===== src/Fs/Fuse/Lookup.antt =====
-- What `fs_fuse_lookup` answers for a directory, and after `fsCreatefile`.
use symbi_os.Base.{ℕ, ◌≡◌, none, some, [], ◌∷◌, ◌++◌, arith, Bytes}
use symbi_os.Base.Machine.{done}
use symbi_os.Uthash.{Hashes}
use symbi_os.Fs.{FileOps, FsDir, FsFile, Fs, Reply, err, entry}
use symbi_os.Fs.Dir.Create.{IsDirAt}
use symbi_os.Fs.Ops.{op_stat}
use symbi_os.Fs.Fuse.{enoent, zero_stat, fs_fuse_lookup}

module _ {H : Hashes} where
  abbrev pub replied : Fs H → Reply → Fs H
  replied s r = record s { replies = s.replies ++ r ∷ [] }

  module _ (s : Fs H) {dirino p : ℕ} {d : FsFile H} {dd : FsDir H} (at : IsDirAt s dirino p d dd)
      (pid : ℕ) (name : Bytes) where
    pub lookup_none :
        H.name.find name dd.nm_files ≡ none
        → fs_fuse_lookup pid dirino name s ≡ done tt (replied s (err enoent))
    unfolding fs_fuse_lookup
    lookup_none absent =
        let below = at.below in
        let desc_file = at.desc_file in
        let desc_next = at.desc_next in
        let loaded = at.loaded in let type = at.type in let content = at.content in ground arith

    pub lookup_some :
        {q : ℕ} (f : FsFile H) {o : FileOps}
        → H.name.find name dd.nm_files ≡ some q
        → s.heap q ≡ some f
        → f.ops ≡ some o
        → fs_fuse_lookup pid dirino name s
          ≡ done tt (replied s (entry f.ino (op_stat pid o f zero_stat)))
    unfolding fs_fuse_lookup
    lookup_some {q} f {o} present at_q ops =
        let below = at.below in
        let desc_file = at.desc_file in
        let desc_next = at.desc_next in
        let loaded = at.loaded in let type = at.type in let content = at.content in ground arith
