-- ===== src/Fs/Inode.antt =====
-- The inode table of fs.c: one page of descriptors, the free ones on a list.
pub mod Chain
pub mod Alloc
pub mod Init
use symbi_os.Base.{
  update, ℕ, zero, suc, ◌+◌, ◌-◌, ◌/◌, Bool, true, not, ◌&&◌, Option, none, some, ◌==◌, ltb,
  if◌then◌else◌, is_some,
}
use symbi_os.Base.Machine.{M, abort, pure, ◌>>=◌, ◌>>◌, get, put, assert}
use symbi_os.Uthash.{Hashes}
use symbi_os.Fs.{InoDesc, ino_desc, Fs, load_desc, store_desc}

-- `malloc(4096)`, and `sizeof(fs_inodesc_t)`: two pointers
abbrev pub ino_max : ℕ
ino_max = 4096 / 16

-- `for (i = 0; i < ino_num - 1; i++)`, from `i` with `n` rounds left
unfoldable pub link_entries : ℕ → ℕ → (ℕ → InoDesc) → ℕ → InoDesc
link_entries zero i table = table
link_entries (suc n) i table =
    link_entries n (i + 1) (update table i (ino_desc none (some (i + 1))))

module _ {H : Hashes} where
  unfoldable pub init_inotable : M (Fs H) (Unit {0})
  init_inotable = do
    s ← get
    assert (not s.has_table && s.ino_num == 0)
    put (record s {
      has_table = true;
      ino_table =
          update (link_entries (ino_max - 1) 0 s.ino_table) (ino_max - 1) (ino_desc none none);
      ino_num = ino_max;
      ino_freelist = some 0;
      ino_numfree = ino_max;
    })

  -- The index of a descriptor is its inode number.
  unfoldable pub inodesc2ino : ℕ → M (Fs H) ℕ
  inodesc2ino i = do s ← get; assert (ltb i s.ino_num); pure i

  -- The number is unsigned, so it is at least 0.
  unfoldable pub ino2inodesc : ℕ → M (Fs H) ℕ
  ino2inodesc ino = do s ← get; assert (ltb ino s.ino_num); pure ino

  -- `NYI`
  unfoldable pub grow_inotable : {A : Type 0} → M (Fs H) A
  grow_inotable _ = abort

  -- The first lines of `inoalloc`: a table, and a free descriptor.
  unfoldable pub ensure_inotable : M (Fs H) (Unit {0})
  unfolding init_inotable
  ensure_inotable = do s ← get; if s.has_table then pure tt else init_inotable

  unfoldable pub pop_free : Option ℕ → M (Fs H) ℕ
  unfolding grow_inotable inodesc2ino
  pop_free none = do s ← get; assert (s.ino_numfree == 0); grow_inotable
  pop_free (some i) = do
    s ← get
    let d = s.ino_table i
    put (record s {
      ino_freelist = d.next;
      ino_table = update s.ino_table i (ino_desc d.file none);
    })
    assert (ltb 0 s.ino_numfree)
    t ← get
    put (record t { ino_numfree = t.ino_numfree - 1 })
    assert (not (is_some d.file))
    inodesc2ino i

  unfoldable pub inoalloc : M (Fs H) ℕ
  unfolding ensure_inotable pop_free
  inoalloc = do ensure_inotable; s ← get; pop_free s.ino_freelist

  unfoldable pub inofree : ℕ → M (Fs H) Bool
  unfolding ino2inodesc
  inofree ino = do
    i ← ino2inodesc ino
    d ← load_desc i
    assert (not (is_some d.next))
    s ← get
    store_desc i (ino_desc d.file s.ino_freelist)
    t ← get
    put (record t { ino_freelist = some i; ino_numfree = t.ino_numfree + 1 })
    pure true
