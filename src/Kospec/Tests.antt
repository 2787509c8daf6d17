-- ===== src/Kospec/Tests.antt =====
-- Runs of the parser of specifications, and instances of its theorems.
use symbi_os.Base.{◌≡◌, refl, some, none, ◌∷◌, ◌++◌, arith, codes}
use symbi_os.Kospec.{modnmfromfnm, parsekospec}
use symbi_os.Kospec.Split.{spec_of_fields, fields, parsekospec-fields}
use symbi_os.Kospec.ModuleName.{modnmfromfnm_ko}

parsekospec_two :
    parsekospec (codes "d/a.ko,,X")
    ≡ some (record { fnm = codes "d/a.ko"; modnm = codes "a"; kldopts = codes "X" })
unfolding parsekospec modnmfromfnm
parsekospec_two = refl

parsekospec_four : parsekospec (codes "a,b,c,d") ≡ none
unfolding parsekospec
parsekospec_four = refl

parsekospec-fields_example :
    parsekospec (codes "d/a.ko,,X") ≡ spec_of_fields (fields (codes "d/a.ko,,X"))
parsekospec-fields_example = parsekospec-fields (codes "d/a.ko,,X")

modnmfromfnm_ko_test :
    (modnmfromfnm (codes "/lib" ++ b'/' ∷ (codes "net" ++ codes ".ko")) ≡ codes "net")
    × (modnmfromfnm (codes "net" ++ codes ".ko") ≡ codes "net")
modnmfromfnm_ko_test =
    modnmfromfnm_ko (codes "/lib") (codes "net") (ground arith, (ground arith, (ground arith, tt)))
      (ground arith)
