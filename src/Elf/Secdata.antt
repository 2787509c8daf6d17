-- ===== src/Elf/Secdata.antt =====
-- `elf_open_secdata`, `elf_close_secdata` (elf.c) and `prcExec` (main.c) of examples/tools/src/kld:
-- the section of a file that is read in place, with the descriptors and the libelf handles that are
-- open. What `open` and libelf deliver is a parameter; the pointers
-- that the callers pass are not `NULL`, and `-1`, `-2` and `-3` are 1, 2 and 3 here.
use symbi_os.Base.{
  ℕ, Bool, true, false, not, List, [], ◌∷◌, ◌==◌, if◌then◌else◌, Bytes, bytes_eq, Option, none,
  some, update,
}

-- A section: whether `gelf_getshdr` succeeds, what `elf_strptr` and `elf_getdata` return.
pub record Section : Type 0 where
  pub header : Bool
  pub label : Option Bytes
  pub content : Option Bytes

-- Whether `elf_version` accepts the library; what `open` and `elf_begin` return; whether
-- `elf_getshdrstrndx` succeeds; and the sections.
pub record File : Type 0 where
  pub version : Bool
  pub open_path : Option ℕ
  pub begin : Option ℕ
  pub names : Bool
  pub sections : List Section

-- The descriptors and the libelf handles that are open.
pub record Handles : Type 0 where
  pub fds : ℕ → Bool
  pub elfs : ℕ → Bool

-- `SectionData`: no handle is `NULL`, no descriptor is -1; the size is that of the data.
pub record SectionData : Type 0 where
  pub bytes : Option Bytes
  pub elf : Option ℕ
  pub fd : Option ℕ

pub data Found : Type 0 where
  missing : Found
  broken : Found
  content_is : Bytes → Found

abbrev pub of_content : Option Bytes → Found
of_content none = broken
of_content (some d) = content_is d

abbrev pub has_name : Bytes → Option Bytes → Bool
has_name scnm none = false
has_name scnm (some n) = bytes_eq n scnm

-- The loop over the sections.
unfoldable pub find_section : List Section → Bytes → Found
find_section [] scnm = missing
find_section (s ∷ ss) scnm =
    if not s.header
    then broken
    else if has_name scnm s.label
    then of_content s.content
    else find_section ss scnm

abbrev pub blank : SectionData
blank = record { bytes = none; elf = none; fd = none }

abbrev pub close_fd : ℕ → Handles → Handles
close_fd f h = record h { fds = update h.fds f false }

abbrev pub end_elf : ℕ → Handles → Handles
end_elf e h = record h { elfs = update h.elfs e false }

-- `if (fd < 0) close(sfd)`
abbrev pub close_own : Option ℕ → ℕ → Handles → Handles
close_own none sfd h = close_fd sfd h
close_own (some fd) sfd h = h

-- The label `cleanup`.
abbrev cleanup : ℕ → Option ℕ → ℕ → ℕ → Handles → ℕ × SectionData × Handles
cleanup rc fd sfd e h = (rc, blank, close_own fd sfd (end_elf e h))

-- What follows the search.
abbrev pub conclude : Found → Option ℕ → ℕ → ℕ → Handles → ℕ × SectionData × Handles
conclude missing fd sfd e h = cleanup 2 fd sfd e h
conclude broken fd sfd e h = cleanup 3 fd sfd e h
conclude (content_is d) fd sfd e h = (0, record { bytes = some d; elf = some e; fd = some sfd }, h)

module _ (x : File) where
  abbrev pub with_elf : Bytes → Option ℕ → ℕ → Option ℕ → Handles → ℕ × SectionData × Handles
  with_elf scnm fd sfd none h = (1, blank, close_own fd sfd h)
  with_elf scnm fd sfd (some e) h =
      let opened = record h { elfs = update h.elfs e true } in
      if x.names
      then conclude (find_section x.sections scnm) fd sfd e opened
      else cleanup 3 fd sfd e opened

  -- The descriptor to read from: the caller's, or a new one.
  abbrev pub with_fd : Bytes → Option ℕ → Option ℕ → Handles → ℕ × SectionData × Handles
  with_fd scnm (some fd) path h = with_elf scnm (some fd) fd x.begin h
  with_fd scnm none none h = (1, blank, h)
  with_fd scnm none (some sfd) h =
      with_elf scnm none sfd x.begin (record h { fds = update h.fds sfd true })

  unfoldable pub elf_open_secdata : Bytes → Option ℕ → Handles → ℕ × SectionData × Handles
  elf_open_secdata scnm fd h = if x.version then with_fd scnm fd x.open_path h else (1, blank, h)

abbrev pub end_if : Option ℕ → Handles → Handles
end_if none h = h
end_if (some e) h = end_elf e h

abbrev pub close_if : Option ℕ → Handles → Handles
close_if none h = h
close_if (some f) h = close_fd f h

unfoldable pub elf_close_secdata : SectionData → Handles → Handles
elf_close_secdata sd h = close_if sd.fd (end_if sd.elf h)

abbrev pub after_open : ℕ × SectionData × Handles → ℕ × Handles
after_open (rc, sd, h) = (rc, if rc == 0 then elf_close_secdata sd h else h)

-- `prcExec` for the section `scnm`.
unfoldable pub prc_exec : File → Bytes → Handles → ℕ × Handles
prc_exec x scnm h = after_open (elf_open_secdata x scnm none h)
