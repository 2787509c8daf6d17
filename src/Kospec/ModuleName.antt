-- ===== src/Kospec/ModuleName.antt =====
-- The module name of a file name: `modnmfromfnm` of main.c.
use symbi_os.Base.{ap, ◌∙◌, sym, ◌≡◌, refl, ◌≢◌, [], ◌∷◌, ◌++◌, arith, Bytes, codes}
use mathlib.Core.List.{append_assoc, reverse, reverse-append, reverse-reverse}
use symbi_os.Kospec.{basename, until_slash, skip_slashes, basename_of, drop_ko, modnmfromfnm}

abbrev pub NoSlash : Bytes → Type 0
NoSlash [] = Unit
NoSlash (c ∷ cs) = (c ≢ b'/') × NoSlash cs

until_slash-append : (m rest : Bytes) → NoSlash m → until_slash (m ++ b'/' ∷ rest) ≡ m
unfolding until_slash
until_slash-append [] rest h = refl
until_slash-append (c ∷ m) rest h = ground (arith, until_slash-append m rest h.1)

NoSlash-append : (m n : Bytes) → NoSlash m → NoSlash n → NoSlash (m ++ n)
NoSlash-append [] n h k = k
NoSlash-append (c ∷ m) n h k = (h.0, NoSlash-append m n h.1 k)

NoSlash-reverse : (m : Bytes) → NoSlash m → NoSlash (reverse m)
NoSlash-reverse [] h = tt
NoSlash-reverse (c ∷ m) h =
    rw (reverse-append (c ∷ []) m)
      (NoSlash-append (reverse m) (c ∷ []) (NoSlash-reverse m h.1) (h.0, tt))

until_slash_self : (m : Bytes) → NoSlash m → until_slash m ≡ m
unfolding until_slash
until_slash_self [] h = refl
until_slash_self (c ∷ m) h = ground (arith, until_slash_self m h.1)

abbrev reversed_ko : Bytes → Bytes
reversed_ko rest = b'o' ∷ b'k' ∷ b'.' ∷ rest

drop_ko-reverse : (m : Bytes) → m ≢ [] → drop_ko (reversed_ko (reverse m)) ≡ reverse m
unfolding drop_ko
drop_ko-reverse m ne = go (reverse m) refl
  where
    go : (r : Bytes) → reverse m ≡ r → drop_ko (reversed_ko r) ≡ r
    go [] e = absurd (ne (sym (reverse-reverse m) ∙ ap reverse e))
    go (d ∷ rest) e = refl

reverse_path :
    (dir m : Bytes)
    → reverse (dir ++ b'/' ∷ (m ++ codes ".ko")) ≡ reversed_ko (reverse m ++ b'/' ∷ reverse dir)
reverse_path dir m =
    rw
      (
        reverse-append dir,
        reverse-append (b'/' ∷ []) (m ++ codes ".ko"),
        reverse-append m (codes ".ko"),
      )
      (simp append_assoc)

of_basename :
    (path m : Bytes)
    → m ≢ []
    → basename path ≡ reverse (reversed_ko (reverse m))
    → modnmfromfnm path ≡ m
unfolding modnmfromfnm
of_basename path m ne e =
    ap (λ b. reverse (drop_ko (reverse b))) e
    ∙ ap (λ b. reverse (drop_ko b)) (reverse-reverse (reversed_ko (reverse m)))
    ∙ ap reverse (drop_ko-reverse m ne)
    ∙ reverse-reverse m

basename_dir :
    (dir m : Bytes)
    → NoSlash m
    → basename (dir ++ b'/' ∷ (m ++ codes ".ko")) ≡ reverse (reversed_ko (reverse m))
unfolding basename_of skip_slashes until_slash
basename_dir dir m h = rw (reverse_path dir m) (
    ap (λ r. reverse (reversed_ko r))
      (until_slash-append (reverse m) (reverse dir) (NoSlash-reverse m h)))

basename_alone :
    (m : Bytes) → NoSlash m → basename (m ++ codes ".ko") ≡ reverse (reversed_ko (reverse m))
unfolding basename_of skip_slashes until_slash
basename_alone m h =
    rw (reverse-append m (codes ".ko"))
      (ap (λ r. reverse (reversed_ko r)) (until_slash_self (reverse m) (NoSlash-reverse m h)))

-- A path `dir/m.ko` with a non-empty `m` without slashes stands for the module `m`, and so does the
-- file name `m.ko` alone.
pub modnmfromfnm_ko :
    (dir m : Bytes)
    → NoSlash m
    → m ≢ []
    → (modnmfromfnm (dir ++ b'/' ∷ (m ++ codes ".ko")) ≡ m) × (modnmfromfnm (m ++ codes ".ko") ≡ m)
modnmfromfnm_ko dir m h ne =
    (of_basename _ m ne (basename_dir dir m h), of_basename _ m ne (basename_alone m h))
