-- ===== src/Bo/Options.antt =====
-- The options of kld: the first loop of `GBLSInit` (examples/tools/src/kld/main.c), over what `getopt`
-- delivers, one letter with its argument after the other.
use mathlib.Core.Path.{subst}
use mathlib.Core.List.{append_assoc, append-nil}
use symbi_os.Base.{
  arith, refl, sym, ap, ◌≡◌, ◌∙◌, ℕ, ◌+◌, ◌*◌, ◌≤◌, Bool, true, false, ◌&&◌, ◌||◌, List, [], ◌∷◌,
  ◌++◌, ◌==◌, ltb, if◌then◌else◌, Bytes, Bool-cases, ==_iff, inl, inr,
}
use symbi_os.Base.Lists.{length, length-append}
use symbi_os.Bo.{Dirs, add_dir}

-- What the options set: the directories, `prockallsyms`, `verbose`, and the array of specifications
-- with its length, of which the first entries are filled.
pub record Settings : Type 0 where
  pub dirs : Dirs
  pub prockallsyms : Bool
  pub verbose : ℕ
  pub kospec : List Bytes
  pub kospecmax : ℕ

-- The loop goes on, `GBLSInit` returns -1, or a write is out of bounds.
pub data Parsed : Type 0 where
  parsed : Settings → Parsed
  usage : Parsed
  overflow : Parsed

abbrev pub and_parse : Parsed → (Settings → Parsed) → Parsed
and_parse (parsed s) f = f s
and_parse usage f = usage
and_parse overflow f = overflow

-- The room for specifications when there is one more.
unfoldable pub grown : ℕ → ℕ → ℕ
grown kospecc kospecmax =
    if kospecc == kospecmax then (if ltb 0 kospecmax then kospecmax * 2 else 2) else kospecmax

-- `case 'k'`
unfoldable pub add_kospec : Bytes → Settings → Parsed
add_kospec optarg s =
    let room = grown (length s.kospec) s.kospecmax in
    if ltb (length s.kospec) room
    then parsed (record s { kospec = s.kospec ++ optarg ∷ []; kospecmax = room })
    else overflow

module _ (is_dir : Bytes → Bool) where
  unfoldable pub apply_opt : ℕ → Bytes → Settings → Parsed
  apply_opt opt optarg s =
      if opt == b'K'
      then parsed (record s { dirs = (add_dir (is_dir optarg) optarg s.dirs).1 })
      else if opt == b'N'
      then parsed (record s { prockallsyms = false })
      else if opt == b'k'
      then add_kospec optarg s
      else if opt == b'v'
      then parsed (record s { verbose = s.verbose + 1 })
      else usage

  unfoldable pub parse_opts : List (ℕ × Bytes) → Settings → Parsed
  parse_opts [] s = parsed s
  parse_opts ((opt, optarg) ∷ os) s = and_parse (apply_opt opt optarg s) (parse_opts os)

  -- The same read off the options, without arrays.
  abbrev pub is_known : ℕ → Bool
  is_known o = o == b'K' || (o == b'N' || (o == b'k' || o == b'v'))

  abbrev pub all_known : List (ℕ × Bytes) → Bool
  all_known [] = true
  all_known ((o, a) ∷ os) = is_known o && all_known os

  abbrev pub spec_of : ℕ → Bytes → List Bytes
  spec_of o a = if o == b'k' then a ∷ [] else []

  abbrev pub specs_of : List (ℕ × Bytes) → List Bytes
  specs_of [] = []
  specs_of ((o, a) ∷ os) = spec_of o a ++ specs_of os

  abbrev pub dir_of : ℕ → Bytes → List Bytes
  dir_of o a = if o == b'K' && is_dir a then a ∷ [] else []

  abbrev pub dirs_of : List (ℕ × Bytes) → List Bytes
  dirs_of [] = []
  dirs_of ((o, a) ∷ os) = dir_of o a ++ dirs_of os

  abbrev pub IsFitting : Settings → Type 0
  IsFitting s = (length s.kospec ≤ s.kospecmax) × (length s.dirs.dirs ≤ s.dirs.dirmax)

  abbrev pub Reads : List (ℕ × Bytes) → Settings → Parsed → Type 0
  Reads os s (parsed r) =
      (all_known os ≡ true)
      × (r.kospec ≡ s.kospec ++ specs_of os)
      × (r.dirs.dirs ≡ s.dirs.dirs ++ dirs_of os)
      × IsFitting r
  Reads os s usage = all_known os ≡ false
  Reads os s overflow = ⊥

  -- One option.
  Reads-cons :
      (o : ℕ) (a : Bytes) (os : List (ℕ × Bytes)) (s t : Settings) (p : Parsed)
      → is_known o ≡ true
      → t.kospec ≡ s.kospec ++ spec_of o a
      → t.dirs.dirs ≡ s.dirs.dirs ++ dir_of o a
      → Reads os t p
      → Reads ((o, a) ∷ os) s p
  Reads-cons o a os s t usage known specs dirs h = rw known h
  Reads-cons o a os s t overflow known specs dirs h = h
  Reads-cons o a os s t (parsed r) known specs dirs h = (
    rw known h.0,
    h.1 ∙ ap (λ l. l ++ specs_of os) specs ∙ append_assoc s.kospec (spec_of o a) (specs_of os),
    h.2 ∙ ap (λ l. l ++ dirs_of os) dirs ∙ append_assoc s.dirs.dirs (dir_of o a) (dirs_of os),
    h.3,
  )

  -- What one option does to settings whose arrays have room for their entries.
  abbrev Applied : ℕ → Bytes → Settings → Parsed → Type 0
  Applied o a s (parsed t) =
      (is_known o ≡ true)
      × (t.kospec ≡ s.kospec ++ spec_of o a)
      × (t.dirs.dirs ≡ s.dirs.dirs ++ dir_of o a)
      × IsFitting t
  Applied o a s usage = is_known o ≡ false
  Applied o a s overflow = ⊥

  add_dir-Applied :
      (b : Bool) (a : Bytes) (d : Dirs)
      → length d.dirs ≤ d.dirmax
      → ((add_dir b a d).1.dirs ≡ d.dirs ++ (if b then a ∷ [] else []))
        × (length (add_dir b a d).1.dirs ≤ (add_dir b a d).1.dirmax)
  unfolding add_dir
  add_dir-Applied true a d h = (refl, ground (arith, length-append d.dirs (a ∷ [])))
  add_dir-Applied false a d h = (sym (append-nil d.dirs), h)

  add_kospec-Applied : (a : Bytes) (s : Settings) → IsFitting s → Applied b'k' a s (add_kospec a s)
  unfolding add_kospec grown
  add_kospec-Applied a s h =
      let fits : ltb (length s.kospec) (grown (length s.kospec) s.kospecmax) ≡ true =
        ground arith in
      rw fits (
        refl,
        refl,
        sym (append-nil s.dirs.dirs),
        (ground (arith, length-append s.kospec (a ∷ [])), h.1),
      )

  abbrev AppliedAt : Bytes → Settings → ℕ → Type 0
  AppliedAt a s o = Applied o a s (apply_opt o a s)

  dirs-AppliedAt : (a : Bytes) (s : Settings) → IsFitting s → AppliedAt a s b'K'
  unfolding apply_opt
  dirs-AppliedAt a s h =
      let d = add_dir-Applied (is_dir a) a s.dirs h.1 in
      (refl, sym (append-nil s.kospec), d.0, (h.0, d.1))

  off-AppliedAt : (a : Bytes) (s : Settings) → IsFitting s → AppliedAt a s b'N'
  unfolding apply_opt
  off-AppliedAt a s h = (refl, sym (append-nil s.kospec), sym (append-nil s.dirs.dirs), h)

  verbose-AppliedAt : (a : Bytes) (s : Settings) → IsFitting s → AppliedAt a s b'v'
  unfolding apply_opt
  verbose-AppliedAt a s h = (refl, sym (append-nil s.kospec), sym (append-nil s.dirs.dirs), h)

  kospec-AppliedAt : (a : Bytes) (s : Settings) → IsFitting s → AppliedAt a s b'k'
  unfolding apply_opt
  kospec-AppliedAt a s h = add_kospec-Applied a s h

  unknown-AppliedAt :
      (o : ℕ) (a : Bytes) (s : Settings)
      → (o == b'K') ≡ false
      → (o == b'N') ≡ false
      → (o == b'k') ≡ false
      → (o == b'v') ≡ false
      → AppliedAt a s o
  unfolding apply_opt
  unknown-AppliedAt o a s e f g i =
      let unknown : is_known o ≡ false = rw (e, f, g, i) refl in rw (e, f, g, i) unknown

  apply_opt-Applied : (o : ℕ) (a : Bytes) (s : Settings) → IsFitting s → AppliedAt a s o
  apply_opt-Applied o a s h = elim (Bool-cases (o == b'K')) [
    | inl e ↦ subst (AppliedAt a s) (sym ((==_iff o b'K').0 e)) (dirs-AppliedAt a s h)
    | inr not_dir ↦ elim (Bool-cases (o == b'N')) [
      | inl e ↦ subst (AppliedAt a s) (sym ((==_iff o b'N').0 e)) (off-AppliedAt a s h)
      | inr not_off ↦ elim (Bool-cases (o == b'k')) [
        | inl e ↦ subst (AppliedAt a s) (sym ((==_iff o b'k').0 e)) (kospec-AppliedAt a s h)
        | inr not_kospec ↦ elim (Bool-cases (o == b'v')) [
          | inl e ↦ subst (AppliedAt a s) (sym ((==_iff o b'v').0 e)) (verbose-AppliedAt a s h)
          | inr other ↦ unknown-AppliedAt o a s not_dir not_off not_kospec other
        ]
      ]
    ]
  ]

  and_parse-Reads :
      (o : ℕ) (a : Bytes) (os : List (ℕ × Bytes)) (s : Settings) (p : Parsed)
      → Applied o a s p
      → ((t : Settings) → IsFitting t → Reads os t (parse_opts os t))
      → Reads ((o, a) ∷ os) s (and_parse p (parse_opts os))
  and_parse-Reads o a os s (parsed t) h ih = Reads-cons o a os s t _ h.0 h.1 h.2 (ih t h.3)
  and_parse-Reads o a os s usage h ih = rw h refl
  and_parse-Reads o a os s overflow h ih = h

  -- From arrays that have room for their entries: `GBLSInit` returns -1 from its loop exactly if an
  -- option is not one of `-K`, `-k`, `-N`, `-v`; else the specifications are the arguments of `-k`,
  -- and the directories those arguments of `-K` that are directories, both in order and behind what
  -- was there. No write is out of bounds, and there is room for all entries at the end.
  pub parse_opts-Reads :
      (os : List (ℕ × Bytes)) (s : Settings) → IsFitting s → Reads os s (parse_opts os s)
  unfolding parse_opts
  parse_opts-Reads [] s h = (refl, sym (append-nil s.kospec), sym (append-nil s.dirs.dirs), h)
  parse_opts-Reads ((o, a) ∷ os) s h =
      and_parse-Reads o a os s (apply_opt o a s) (apply_opt-Applied o a s h) (parse_opts-Reads os)
