-- ===== src/Bo/Owned.antt =====
-- The descriptors that the table of kernel objects owns.
use symbi_os.Base.{
  Bool-cases, Option-cases, not, ◌&&◌, ◌∙◌, update, ℕ, ◌≡◌, refl, Bool, true, false, ◌||◌, ◌⊎◌, inl,
  inr, Option, none, some, List, [], ◌∷◌, ◌++◌, arith, ◌==◌, Bytes,
}
use symbi_os.Base.Machine.{done}
use symbi_os.Uthash.{Uthash}
use symbi_os.Kospec.{KoSpec, parsekospec}
use symbi_os.Bo.{
  Bo, Files, Bos, addbo_so, addbo_ko, addbo, deletebo, clean_items, search_dirs, so_path,
}

abbrev pub owns : ℕ → List Bo → Bool
owns x [] = false
owns x (b ∷ bs) = (x == b.kofd || x == b.sofd) || owns x bs

owns-snoc :
    (x : ℕ) (bs : List Bo) (b : Bo)
    → owns x (bs ++ b ∷ []) ≡ (owns x bs || (x == b.kofd || x == b.sofd))
owns-snoc x [] b = ground arith
owns-snoc x (c ∷ bs) b = ground (arith, owns-snoc x bs b)

-- Open are the descriptors that were open before, and those of the table, which are others.
pub record IsOwned {T : Uthash Bytes Bo} (before : ℕ → Bool) (s : Bos T) : Type 0 where
  pub opened : (x : ℕ) → s.fds x ≡ (before x || owns x (T.items s.bos))
  pub apart : (x : ℕ) → before x ≡ true → owns x (T.items s.bos) ≡ false

-- A new descriptor is not open.
abbrev pub IsFresh : Files → Type 0
IsFresh files = (fds : ℕ → Bool) (fd : ℕ) → files.new_fd fds ≡ some fd → fds fd ≡ false

-- What a call that adds an object or fails leaves: the same descriptors and table, or one object
-- more with two descriptors that were not open before.
abbrev pub Outcome : {T : Uthash Bytes Bo} → Bos T → Bool → Bos T → Type 0
Outcome {T} s b s' =
    ((b ≡ false) × (s'.bos ≡ s.bos) × ((x : ℕ) → s'.fds x ≡ s.fds x))
    ⊎ ((b ≡ true)
        × ((bo : Bo) × (T.items s'.bos ≡ T.items s.bos ++ bo ∷ [])
            × (s.fds bo.kofd ≡ false)
            × (s.fds bo.sofd ≡ false)
            × ((x : ℕ) → s'.fds x ≡ (s.fds x || (x == bo.kofd || x == bo.sofd)))))

module _ {T : Uthash Bytes Bo} (files : Files) (fresh : IsFresh files) where
  addbo_both :
      (spec : KoSpec) (path : Bytes) (s : Bos T) (kofd sofd : ℕ)
      → s.fds kofd ≡ false
      → update s.fds kofd true sofd ≡ false
      → let both : Bos T = record s { fds = update (update s.fds kofd true) sofd true } in
        (b : Bool) × (s' : Bos T) × (addbo_so files spec kofd
            (some path)
            (some (sofd, so_path path spec.modnm))
            both
          ≡ done b s')
        × Outcome s b s'
  unfolding addbo_so
  addbo_both spec path s kofd sofd closed closed' =
      let both : Bos T = record s { fds = update (update s.fds kofd true) sofd true } in
      elim (Option-cases (T.find path s.bos)) [
        | inr (old, found) ↦ (
          false,
          record s { fds = update (update both.fds kofd false) sofd false },
          rw found refl,
          inl (refl, refl, λ x. ground arith),
        )
        | inl new ↦
            let bo : Bo = record {
              kofnm = path;
              modnm = spec.modnm;
              kldopts = spec.kldopts;
              kofd = kofd;
              sofnm = so_path path spec.modnm;
              sofd = sofd;
            } in
            (
              true,
              record both { bos = T.add path bo s.bos },
              rw new refl,
              inr (
                refl,
                (bo, T.items-add path bo s.bos new, closed, ground arith, λ x. ground arith),
              ),
            )
      ]

  addbo_opened :
      (spec : KoSpec) (path : Option Bytes) (s : Bos T) (kofd : ℕ)
      → s.fds kofd ≡ false
      → let opened : Bos T = record s { fds = update s.fds kofd true } in
        (b : Bool) × (s' : Bos T) × (addbo_ko files spec (some (kofd, path)) opened ≡ done b s')
        × Outcome s b s'
  unfolding addbo_ko
  addbo_opened spec none s kofd closed = (
    false,
    record s { fds = update (update s.fds kofd true) kofd false },
    refl,
    inl (refl, refl, λ x. ground arith),
  )
  addbo_opened spec (some path) s kofd closed =
      let opened : Bos T = record s { fds = update s.fds kofd true } in
      let back = record s { fds = update opened.fds kofd false } in
      elim (Bool-cases (files.can_create (so_path path spec.modnm))) [
        | inr unable ↦ (false, back, rw unable refl, inl (refl, refl, λ x. ground arith))
        | inl able ↦ elim (Option-cases (files.new_fd opened.fds)) [
          | inl full ↦ (false, back, rw (able, full) refl, inl (refl, refl, λ x. ground arith))
          | inr (sofd, next) ↦
              let (b, s', run, outcome) =
                addbo_both spec path s kofd sofd closed (fresh opened.fds sofd next) in
              (b, s', rw (able, next) run, outcome)
        ]
      ]

  -- With at least one directory to look in (with none, `openko` reads a descriptor that was never set),
  -- `addbo` returns, whatever the specification and the files are. If it fails, the table and the
  -- descriptors that are open are those from before; else the table has one object more, and its two
  -- descriptors, which were not open, are all that was opened.
  pub addbo-Outcome :
      (d : Bytes) (ds : List Bytes) (kospec : Bytes) (s : Bos T)
      → (b : Bool) × (s' : Bos T) × (addbo files (d ∷ ds) kospec s ≡ done b s') × Outcome s b s'
  unfolding addbo
  addbo-Outcome d ds kospec s = elim (Option-cases (parsekospec kospec)) [
    | inl bad ↦ (false, s, rw bad refl, inl (refl, refl, λ x. refl))
    | inr (spec, good) ↦ elim (Option-cases (search_dirs files (d ∷ ds) spec.fnm)) [
      | inl missing ↦ (false, s, rw (good, missing) refl, inl (refl, refl, λ x. refl))
      | inr (path, found) ↦ elim (Option-cases (files.new_fd s.fds)) [
        | inl full ↦ (false, s, rw (good, found, full) refl, inl (refl, refl, λ x. refl))
        | inr (kofd, next) ↦
            let (b, s', run, outcome) =
              addbo_opened spec (files.realpath path) s kofd (fresh s.fds kofd next) in
            (b, s', rw (good, found, next) run, outcome)
      ]
    ]
  ]

  pub Outcome-IsOwned :
      (before : ℕ → Bool) (s : Bos T) (b : Bool) (s' : Bos T)
      → IsOwned before s
      → Outcome s b s'
      → IsOwned before s'
  Outcome-IsOwned before s b s' v (inl (_, same, fds)) = record {
    opened = λ x. rw same (fds x ∙ v.opened x);
    apart = λ x h. rw same (v.apart x h);
  }
  Outcome-IsOwned before s b s' v (inr (_, (bo, items, ko, so, fds))) = record {
    opened = λ x. rw items (ground (arith, fds x, v.opened x, owns-snoc x (T.items s.bos) bo));
    apart = λ x h. rw items (
        ground (
          arith,
          v.opened x,
          v.apart x h,
          v.opened bo.kofd,
          v.opened bo.sofd,
          owns-snoc x (T.items s.bos) bo,
        ));
  }

pub clean_items_fds :
    {T : Uthash Bytes Bo} (bs : List Bo) (s : Bos T) (x : ℕ)
    → (clean_items bs s).fds x ≡ (s.fds x && not (owns x bs))
unfolding clean_items
clean_items_fds [] s x = ground arith
clean_items_fds {T} (b ∷ bs) s x = ground (
  arith,
  clean_items_fds {T = T} bs (record { bos = T.delete b.kofnm s.bos; fds = deletebo b s.fds }) x,
)
