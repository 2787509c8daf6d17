-- ===== src/Findlib/Tests.antt =====
-- The search of misc/findlibkallsyms.c in a map of two lines.
use symbi_os.Base.{◌≡◌, refl, [], ◌∷◌, ◌++◌, Bytes, codes, arith, some}
use symbi_os.Findlib.{
  find_libkallsyms, u64, hex_digit, starts_with, contains, from_last_slash, chomp, fgets_lines,
  search_lines, is_kallsyms, read_range, read_end, hexstr2ull, hex_run, hex_down,
}
use symbi_os.Findlib.Hex.{hexstr2ull-hex_value, hex_value}
use symbi_os.Findlib.First.{find_libkallsyms-first, library_line}
use symbi_os.Findlib.Lines.{text}

hexstr2ull-hex_value_example :
    hexstr2ull (codes "7f0c" ++ codes "-x") 100 ≡ (4, some (u64 (hex_value (codes "7f0c"))))
unfolding hex_digit
hexstr2ull-hex_value_example =
    hexstr2ull-hex_value (codes "7f0c") (codes "-x") 100 (refl, (refl, (refl, (refl, tt)))) refl
      (omega arith)

abbrev other_line : Bytes
other_line = codes "400000-401000 r--p /bin/app"

found_test :
    find_libkallsyms (some (text (other_line ∷ codes "7f00-8F01 r--p /opt/libkallsyms.so" ∷ [])))
    ≡ record { rc = 1; first = 0x7f00; last = 0x8f01 }
unfolding find_libkallsyms search_lines fgets_lines is_kallsyms read_range read_end hexstr2ull
    hex_run hex_down hex_digit starts_with contains from_last_slash chomp
found_test = refl

find_libkallsyms-first_example :
    find_libkallsyms (
      some (
        text
          (other_line ∷ library_line (codes "7f00") (codes "8f01") (codes "r--p /opt") [] [] ∷ [])))
    ≡ record {
      rc = 1;
      first = u64 (hex_value (codes "7f00"));
      last = u64 (hex_value (codes "8f01"));
    }
unfolding contains starts_with hex_digit
find_libkallsyms-first_example =
    find_libkallsyms-first (other_line ∷ []) [] (codes "7f00") (codes "8f01") (codes "r--p /opt") []
      [] (refl, tt) (refl, (refl, (refl, (refl, tt)))) (refl, (refl, (refl, (refl, tt))))
      (omega arith) (omega arith) (ground arith) (ground arith) (ground arith)
