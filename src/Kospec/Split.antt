-- ===== src/Kospec/Split.antt =====
-- `parsekospec` of main.c against splitting at all commas.
use symbi_os.Base.{
  ℕ, ◌≡◌, Option, none, some, List, [], ◌∷◌, ◌++◌, arith, ◌==◌, if◌then◌else◌, Bytes,
}
use mathlib.Core.List.{append-nil, append_assoc}
use symbi_os.Kospec.{
  SpecScan, scan_spec, KoSpec, modnm_or, kldopts_or, kldopts_dflt, spec_of, finish_spec,
  parsekospec, modnmfromfnm,
}

-- The fields between the commas; there is always one.
abbrev pub head_field : Bytes → Bytes
head_field [] = []
head_field (c ∷ cs) = if c == b',' then [] else c ∷ head_field cs

abbrev pub tail_fields : Bytes → List Bytes
tail_fields [] = []
tail_fields (c ∷ cs) = if c == b',' then head_field cs ∷ tail_fields cs else tail_fields cs

abbrev pub fields : Bytes → List Bytes
fields s = head_field s ∷ tail_fields s

-- What a specification with these fields stands for.
abbrev pub spec_of_fields : List Bytes → Option KoSpec
spec_of_fields (f ∷ []) = some (record { fnm = f; modnm = modnmfromfnm f; kldopts = kldopts_dflt })
spec_of_fields (f ∷ n ∷ []) =
    some (record { fnm = f; modnm = modnm_or n f; kldopts = kldopts_dflt })
spec_of_fields (f ∷ n ∷ o ∷ []) =
    some (record { fnm = f; modnm = modnm_or n f; kldopts = kldopts_or o })
spec_of_fields _ = none

abbrev scan_at : ℕ → Bytes → Bytes → Bytes → SpecScan
scan_at k f n o = record { commas = k; f = f; n = n; o = o }

scan_two :
    (s f n o : Bytes)
    → finish_spec (scan_spec s (scan_at 2 f n o))
      ≡ spec_of_fields (f ∷ n ∷ (o ++ head_field s) ∷ tail_fields s)
unfolding scan_spec spec_of
scan_two [] f n o = rw append-nil
scan_two (c ∷ cs) f n o =
    ground
      (arith, scan_two cs f n (o ++ c ∷ []), append_assoc o (c ∷ []) (head_field cs), append-nil o)

scan_one :
    (s f n : Bytes)
    → finish_spec (scan_spec s (scan_at 1 f n []))
      ≡ spec_of_fields (f ∷ (n ++ head_field s) ∷ tail_fields s)
unfolding scan_spec spec_of
scan_one [] f n = rw append-nil
scan_one (c ∷ cs) f n = ground (
  arith,
  scan_one cs f (n ++ c ∷ []),
  scan_two cs f n [],
  append_assoc n (c ∷ []) (head_field cs),
  append-nil n,
)

scan_zero :
    (s f : Bytes)
    → finish_spec (scan_spec s (scan_at 0 f [] []))
      ≡ spec_of_fields ((f ++ head_field s) ∷ tail_fields s)
unfolding scan_spec spec_of
scan_zero [] f = rw append-nil
scan_zero (c ∷ cs) f = ground (
  arith,
  scan_zero cs (f ++ c ∷ []),
  scan_one cs f [],
  append_assoc f (c ∷ []) (head_field cs),
  append-nil f,
)

-- `parsekospec` reads one, two or three fields separated by commas: the file name, then the module
-- name, which is taken from the file name where it is missing or empty, then the options, which
-- have a default. Any specification with more fields is refused.
pub parsekospec-fields : (s : Bytes) → parsekospec s ≡ spec_of_fields (fields s)
unfolding parsekospec
parsekospec-fields s = scan_zero s []
