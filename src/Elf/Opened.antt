-- ===== src/Elf/Opened.antt =====
-- The section that `elf_open_secdata` finds, and what is open after `prcExec`.
use symbi_os.Base.{
  arith, refl, sym, ap, ◌≡◌, ◌≢◌, ◌∙◌, ℕ, Bool, true, false, not, List, [], ◌∷◌, ◌++◌,
  if◌then◌else◌, Bytes, bytes_eq_iff, Option, none, some, update,
}
use symbi_os.Elf.Secdata.{
  Section, File, Handles, Found, missing, broken, content_is, find_section, has_name, of_content,
  blank, close_fd, end_elf, conclude, with_elf, with_fd, elf_open_secdata, elf_close_secdata,
  after_open, prc_exec,
}

-- The headers that can be read and carry another name.
abbrev pub ArePassed : Bytes → List Section → Type 0
ArePassed scnm [] = Unit
ArePassed scnm (s ∷ ss) = (s.header ≡ true) × (s.label ≢ some scnm) × ArePassed scnm ss

-- The first section of that name, with its bytes.
pub record IsFirst (scnm : Bytes) (ss : List Section) (d : Bytes) : Type 0 where
  pub before : List Section
  pub section : Section
  pub after : List Section
  pub split : ss ≡ before ++ section ∷ after
  pub passed : ArePassed scnm before
  pub readable : section.header ≡ true
  pub named : section.label ≡ some scnm
  pub bytes : section.content ≡ some d

-- The same descriptors and handles are open.
pub record IsRestored (h h' : Handles) : Type 0 where
  pub fds : (f : ℕ) → h'.fds f ≡ h.fds f
  pub elfs : (e : ℕ) → h'.elfs e ≡ h.elfs e

has_name-true : (scnm : Bytes) (l : Option Bytes) → has_name scnm l ≡ true → l ≡ some scnm
has_name-true scnm none h = cc
has_name-true scnm (some n) h = ap some ((bytes_eq_iff n scnm).0 h)

has_name-false : (scnm : Bytes) (l : Option Bytes) → has_name scnm l ≡ false → l ≢ some scnm
has_name-false scnm none h e = cc
has_name-false scnm (some n) h e =
    let same : n ≡ scnm = cc in cc (sym ((bytes_eq_iff n scnm).1 same) ∙ h)

IsFirst-cons :
    (scnm : Bytes) (s : Section) (ss : List Section) (d : Bytes)
    → s.header ≡ true
    → s.label ≢ some scnm
    → IsFirst scnm ss d
    → IsFirst scnm (s ∷ ss) d
IsFirst-cons scnm s ss d header other first = record {
  before = s ∷ first.before;
  section = first.section;
  after = first.after;
  split = ap (λ l. s ∷ l) first.split;
  passed = (header, other, first.passed);
  readable = first.readable;
  named = first.named;
  bytes = first.bytes;
}

find_section-IsFirst :
    (scnm : Bytes) (ss : List Section) (d : Bytes)
    → find_section ss scnm ≡ content_is d
    → IsFirst scnm ss d
unfolding find_section
find_section-IsFirst scnm [] d h = cc
find_section-IsFirst scnm (s ∷ ss) d h =
    chosen s.header (has_name scnm s.label) refl refl h (find_section-IsFirst scnm ss d)
  where
    here : s.header ≡ true → s.label ≡ some scnm → s.content ≡ some d → IsFirst scnm (s ∷ ss) d
    here r n b = record {
      before = [];
      section = s;
      after = ss;
      split = refl;
      passed = tt;
      readable = r;
      named = n;
      bytes = b;
    }

    contents : (o : Option Bytes) → of_content o ≡ content_is d → o ≡ some d
    contents none e = cc
    contents (some b) e = cc

    chosen :
        (a b : Bool)
        → s.header ≡ a
        → has_name scnm s.label ≡ b
        → (if not a then broken else if b then of_content s.content else find_section ss scnm)
          ≡ content_is d
        → (find_section ss scnm ≡ content_is d → IsFirst scnm ss d)
        → IsFirst scnm (s ∷ ss) d
    chosen false b r n e ih = cc
    chosen true true r n e ih = here r (has_name-true scnm s.label n) (contents s.content e)
    chosen true false r n e ih = IsFirst-cons scnm s ss d r (has_name-false scnm s.label n) (ih e)

module _ (x : File) (scnm : Bytes) (h : Handles) where
  abbrev IsGood : ℕ × Handles → Type 0
  IsGood r = IsRestored h r.1 × (r.0 ≡ 0 → (d : Bytes) × IsFirst scnm x.sections d)

  same_handles : IsRestored h h
  same_handles = record { fds = λ f. refl; elfs = λ e. refl }

  module _ (sfd e : ℕ) (fresh_fd : h.fds sfd ≡ false) (fresh_elf : h.elfs e ≡ false) where
    abbrev opened : Handles
    opened = record h { fds = update h.fds sfd true; elfs = update h.elfs e true }

    closed_again : IsRestored h (close_fd sfd (end_elf e opened))
    closed_again = record { fds = λ f. ground arith; elfs = λ g. ground arith }

    concluded :
        (f : Found)
        → find_section x.sections scnm ≡ f
        → IsGood (after_open (conclude f none sfd e opened))
    unfolding elf_close_secdata
    concluded missing p = (closed_again, λ z. cc)
    concluded broken p = (closed_again, λ z. cc)
    concluded (content_is d) p = (closed_again, λ z. (d, find_section-IsFirst scnm x.sections d p))

    named :
        (b : Bool)
        → IsGood (
            after_open (
              if b
              then conclude (find_section x.sections scnm) none sfd e opened
              else conclude broken none sfd e opened))
    named true = concluded _ refl
    named false = (closed_again, λ z. cc)

  begun :
      (sfd : ℕ) (o : Option ℕ)
      → h.fds sfd ≡ false
      → ((e : ℕ) → o ≡ some e → h.elfs e ≡ false)
      → IsGood (after_open (with_elf x scnm none sfd o (record h { fds = update h.fds sfd true })))
  begun sfd none fd elf = (record { fds = λ f. ground arith; elfs = λ e. refl }, λ z. cc)
  begun sfd (some e) fd elf = named sfd e fd (elf e refl) x.names

  found_path :
      (o : Option ℕ)
      → ((f : ℕ) → o ≡ some f → h.fds f ≡ false)
      → ((e : ℕ) → x.begin ≡ some e → h.elfs e ≡ false)
      → IsGood (after_open (with_fd x scnm none o h))
  found_path none fd elf = (same_handles, λ z. cc)
  found_path (some sfd) fd elf = begun sfd x.begin (fd sfd refl) elf

  accepted :
      (b : Bool)
      → ((f : ℕ) → x.open_path ≡ some f → h.fds f ≡ false)
      → ((e : ℕ) → x.begin ≡ some e → h.elfs e ≡ false)
      → IsGood (after_open (if b then with_fd x scnm none x.open_path h else (1, blank, h)))
  accepted true fd elf = found_path x.open_path fd elf
  accepted false fd elf = (same_handles, λ z. cc)

  -- If `open` and `elf_begin` deliver a descriptor and a handle that are not open, then after
  -- `prcExec` the same descriptors and handles are open as before, whatever fails on the way; and
  -- where it returns 0, the file has the section: the first one of that name, with its bytes, and the
  -- headers before it can be read.
  pub prc_exec-IsRestored :
      ((f : ℕ) → x.open_path ≡ some f → h.fds f ≡ false)
      → ((e : ℕ) → x.begin ≡ some e → h.elfs e ≡ false)
      → IsRestored h (prc_exec x scnm h).1
        × ((prc_exec x scnm h).0 ≡ 0 → (d : Bytes) × IsFirst scnm x.sections d)
  unfolding prc_exec elf_open_secdata
  prc_exec-IsRestored fd elf = accepted x.version fd elf
