-- ===== src/Bo.antt =====
-- The table of kernel objects of kld and its file descriptors (examples/tools/src/kld/main.c:
-- `addDir`, `openko`, `openso`, `newbo`, `deletebo`, `addbo`, `bosCleanup`, and the loop of
-- `GBLSInit` over the specifications). What the kernel answers is an argument. Memory that is only
-- allocated and freed is left out.
pub mod Options
pub mod Owned
pub mod Leaks
mod Tests
use symbi_os.Base.{
  ◌-◌, update, ℕ, zero, suc, ◌+◌, ◌*◌, Bool, true, false, not, ◌&&◌, Option, none, some, List, [],
  ◌∷◌, ◌++◌, ◌==◌, ltb, if◌then◌else◌, Bytes, codes,
}
use mathlib.Core.List.{reverse}
use symbi_os.Base.Lists.{length, take}
use symbi_os.Base.Machine.{M, fault, pure, ◌>>=◌, ◌>>◌, get, put}
use symbi_os.Uthash.{Uthash}
use symbi_os.Kospec.{KoSpec, is_nil, skip_slashes, parsekospec}

-- `bo_t`
pub record Bo : Type 0 where
  pub kofnm : Bytes
  pub modnm : Bytes
  pub kldopts : Bytes
  pub kofd : ℕ
  pub sofnm : Bytes
  pub sofd : ℕ

-- What `open` answers for reading and for writing, `realpath`, and the number of the next
-- descriptor, given those that are open, if there is one left.
pub record Files : Type 0 where
  pub can_read : Bytes → Bool
  pub can_create : Bytes → Bool
  pub realpath : Bytes → Option Bytes
  pub new_fd : (ℕ → Bool) → Option ℕ

-- `GBLS.bos`, and the descriptors that are open in the process
pub record Bos (T : Uthash Bytes Bo) : Type 0 where
  pub bos : T.Table
  pub fds : ℕ → Bool

-- `GBLS.dirs` with its length `dirc`, and the room `dirmax`
pub record Dirs : Type 0 where
  pub dirs : List Bytes
  pub dirmax : ℕ

-- `addDir`; `is_dir` is what `stat` says of the directory.
unfoldable pub add_dir : (is_dir : Bool) → Bytes → Dirs → Option ℕ × Dirs
add_dir is_dir dir d =
    if is_dir
    then (
      some (length d.dirs + 1),
      record {
        dirs = d.dirs ++ dir ∷ [];
        dirmax =
            if length d.dirs == d.dirmax
            then (if ltb 0 d.dirmax then d.dirmax * 2 else 256)
            else d.dirmax;
      },
    )
    else (none, d)

-- `snprintf(fullpath, PATH_MAX, …)`
abbrev pub path_max : ℕ
path_max = 4096

abbrev pub fullpath : Bytes → Bytes
fullpath path = take (path_max - 1) path

-- The loop of `openko`: the first directory where the file can be opened.
unfoldable pub search_dirs : Files → List Bytes → Bytes → Option Bytes
search_dirs files [] kofnm = none
search_dirs files (d ∷ ds) kofnm =
    let path = fullpath (d ++ b'/' ∷ kofnm) in
    let rest = search_dirs files ds kofnm in if files.can_read path then some path else rest

-- `dirname` of libgen.h, on the path read backwards without the slashes at its end
unfoldable pub drop_component : Bytes → Bytes
drop_component [] = []
drop_component (c ∷ cs) = if c == b'/' then c ∷ cs else drop_component cs

abbrev pub starts_with_slash : Bytes → Bool
starts_with_slash [] = false
starts_with_slash (c ∷ cs) = c == b'/'

unfoldable pub dirname : Bytes → Bytes
unfolding drop_component skip_slashes
dirname path =
    let dir = skip_slashes (drop_component (skip_slashes (reverse path))) in
    if not (is_nil dir)
    then reverse dir
    else if starts_with_slash path
    then codes "/"
    else codes "."

unfoldable pub so_path : (kofnm modnm : Bytes) → Bytes
unfolding dirname
so_path kofnm modnm = fullpath (dirname kofnm ++ (codes "/lib" ++ (modnm ++ codes ".so")))

abbrev pub with_path {ℓ} : {A : Type ℓ} → Option ℕ → A → Option (ℕ × A)
with_path none path = none
with_path (some fd) path = some (fd, path)

module _ {T : Uthash Bytes Bo} (files : Files) where
  unfoldable pub take_fd : Option ℕ → M (Bos T) (Option ℕ)
  take_fd none = pure none
  take_fd (some fd) = do s ← get; put (record s { fds = update s.fds fd true }); pure (some fd)

  unfoldable pub open_fd : M (Bos T) (Option ℕ)
  unfolding take_fd
  open_fd s = take_fd (files.new_fd s.fds) s

  unfoldable pub close_fd : ℕ → M (Bos T) (Unit {0})
  close_fd fd = do s ← get; put (record s { fds = update s.fds fd false })

  -- The descriptor, and the real path if there is one.
  unfoldable pub open_found : Option Bytes → M (Bos T) (Option (ℕ × Option Bytes))
  unfolding open_fd
  open_found none = pure none
  open_found (some path) = do fd ← open_fd; pure (with_path fd (files.realpath path))

  -- Without a directory the descriptor that is tested was never set.
  unfoldable pub openko : List Bytes → Bytes → M (Bos T) (Option (ℕ × Option Bytes))
  unfolding open_found search_dirs
  openko [] kofnm _ = fault
  openko (d ∷ ds) kofnm s = open_found (search_dirs files (d ∷ ds) kofnm) s

  unfoldable pub openso : Option Bytes → Bytes → M (Bos T) (Option (ℕ × Bytes))
  unfolding open_fd so_path
  openso none modnm = pure none
  openso (some kofnm) modnm =
      if files.can_create (so_path kofnm modnm)
      then (do fd ← open_fd; pure (with_path fd (so_path kofnm modnm)))
      else pure none

  -- `newbo` and `HASH_ADD_KEYPTR`, where the path is new; else both descriptors are closed.
  unfoldable pub addbo_new : Bo → Option Bo → M (Bos T) Bool
  unfolding close_fd
  addbo_new bo (some _) = do close_fd bo.kofd; close_fd bo.sofd; pure false
  addbo_new bo none = do s ← get; put (record s { bos = T.add bo.kofnm bo s.bos }); pure true

  unfoldable pub addbo_so : KoSpec → (kofd : ℕ) → Option Bytes → Option (ℕ × Bytes) → M (Bos T) Bool
  unfolding addbo_new
  addbo_so spec kofd (some kofullpath) (some (sofd, sofullpath)) = do
    s ← get
    addbo_new
        (record {
          kofnm = kofullpath;
          modnm = spec.modnm;
          kldopts = spec.kldopts;
          kofd = kofd;
          sofnm = sofullpath;
          sofd = sofd;
        })
        (T.find kofullpath s.bos)
  addbo_so spec kofd _ _ = do close_fd kofd; pure false

  unfoldable pub addbo_ko : KoSpec → Option (ℕ × Option Bytes) → M (Bos T) Bool
  unfolding openso addbo_so
  addbo_ko spec none = pure false
  addbo_ko spec (some (kofd, kofullpath)) = do
    so ← openso kofullpath spec.modnm
    addbo_so spec kofd kofullpath so

  unfoldable pub addbo_spec : List Bytes → Option KoSpec → M (Bos T) Bool
  unfolding openko addbo_ko
  addbo_spec dirs none = pure false
  addbo_spec dirs (some spec) = do ko ← openko dirs spec.fnm; addbo_ko spec ko

  -- False is the result -1.
  unfoldable pub addbo : List Bytes → Bytes → M (Bos T) Bool
  unfolding addbo_spec
  addbo dirs kospec = addbo_spec dirs (parsekospec kospec)

  -- `for (int i=0; i<kospecc; i++)` in `GBLSInit`: up to the first that fails
  unfoldable pub add_bos : List Bytes → List Bytes → M (Bos T) Bool
  add_bos dirs [] = pure true
  add_bos dirs (k ∷ ks) = do added ← addbo dirs k; if added then add_bos dirs ks else pure false

-- Descriptors are not negative.
unfoldable pub deletebo : Bo → (ℕ → Bool) → ℕ → Bool
deletebo bo fds = update (update fds bo.kofd false) bo.sofd false

module _ {T : Uthash Bytes Bo} where
  unfoldable pub clean_items : List Bo → Bos T → Bos T
  unfolding deletebo
  clean_items [] s = s
  clean_items (b ∷ bs) s =
      clean_items bs (record { bos = T.delete b.kofnm s.bos; fds = deletebo b s.fds })

  -- `bosCleanup`, and `GBLS.bos = NULL` behind it in `cleanup`
  unfoldable pub bos_cleanup : Bos T → Bos T
  unfolding clean_items
  bos_cleanup s = record (clean_items (T.items s.bos) s) { bos = T.empty }
