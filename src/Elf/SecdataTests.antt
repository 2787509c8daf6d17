-- ===== src/Elf/SecdataTests.antt =====
-- `prcExec` on a small file.
use symbi_os.Base.{refl, ◌≡◌, true, false, [], ◌∷◌, Bytes, codes, none, some}
use symbi_os.Elf.Secdata.{Section, File, Handles, find_section, elf_open_secdata, prc_exec}
use symbi_os.Elf.Opened.{IsRestored, IsFirst, prc_exec-IsRestored}

abbrev section : Bytes → Bytes → Section
section name text = record { header = true; label = some name; content = some text }

abbrev file : File
file = record {
  version = true;
  open_path = some 7;
  begin = some 1;
  names = true;
  sections = section (codes ".text") (codes "abc") ∷ section (codes ".kotbl") (codes "table") ∷ [];
}

abbrev nothing_open : Handles
nothing_open = record { fds = λ f. false; elfs = λ e. false }

size_read :
    (elf_open_secdata file (codes ".kotbl") none nothing_open).1.bytes ≡ some (codes "table")
unfolding elf_open_secdata find_section
size_read = refl

prc_exec-IsRestored_example :
    IsRestored nothing_open (prc_exec file (codes ".kotbl") nothing_open).1
    × ((prc_exec file (codes ".kotbl") nothing_open).0 ≡ 0
        → (d : Bytes) × IsFirst (codes ".kotbl") file.sections d)
prc_exec-IsRestored_example =
    prc_exec-IsRestored file (codes ".kotbl") nothing_open (λ f h. refl) (λ e h. refl)
