-- ===== src/Bo/Tests.antt =====
-- Instances of the theorems on the table of kernel objects.
use symbi_os.Bo.Options.{
  Settings, parsed, parse_opts, apply_opt, add_kospec, grown, Reads, parse_opts-Reads,
}
use symbi_os.Base.{
  List, ◌||◌, ℕ, zero, suc, ◌≡◌, refl, Bool, true, false, Option, none, some, [], ◌∷◌, ◌==◌, arith,
  if◌then◌else◌, Bytes, bytes_eq, bytes_eq_iff, codes,
}
use symbi_os.Base.Machine.{done}
use symbi_os.Uthash.{Uthash}
use symbi_os.Uthash.Assoc.{assoc_uthash}
use symbi_os.Bo.{add_dir, Bo, Files, Bos, addbo, add_bos, bos_cleanup}
use symbi_os.Bo.Owned.{IsFresh, Outcome, addbo-Outcome}
use symbi_os.Bo.Leaks.{bos_cleanup-add_bos}

abbrev bo_table : Uthash Bytes Bo
bo_table = assoc_uthash Bo bytes_eq bytes_eq_iff

-- The lowest of the numbers from `k` on, `n` in all, that is not open.
unfoldable lowest : (n k : ℕ) → (ℕ → Bool) → Option ℕ
lowest zero k fds = none
lowest (suc n) k fds = let rest = lowest n (suc k) fds in if fds k then rest else some k

-- Only "k/net.ko" can be read, and all can be written.
abbrev one_object : Files
one_object = record {
  can_read = bytes_eq (codes "k/net.ko");
  can_create = λ _. true;
  realpath = λ p. some (b'/' ∷ p);
  new_fd = lowest 8 0;
}

lowest_closed : (n k : ℕ) (fds : ℕ → Bool) (fd : ℕ) → lowest n k fds ≡ some fd → fds fd ≡ false
unfolding lowest
lowest_closed zero k fds fd h = ground arith
lowest_closed (suc n) k fds fd h = ground (arith, lowest_closed n (suc k) fds fd)

one_object-IsFresh : IsFresh one_object
one_object-IsFresh fds fd h = lowest_closed 8 0 fds fd h

-- The three standard descriptors are open.
abbrev at_start : Bos bo_table
at_start = record { bos = bo_table.empty; fds = λ x. x == 0 || x == 1 || x == 2 }

addbo-Outcome_example :
    (b : Bool) × (s' : Bos bo_table) × (addbo one_object
        (codes "." ∷ codes "k" ∷ [])
        (codes "net.ko")
        at_start
      ≡ done b s')
    × Outcome at_start b s'
addbo-Outcome_example =
    addbo-Outcome one_object one_object-IsFresh (codes ".") (codes "k" ∷ []) (codes "net.ko")
      at_start

-- The second specification names the same object again.
bos_cleanup-add_bos_example :
    (b : Bool) × (s' : Bos bo_table) × (add_bos one_object
        (codes "." ∷ codes "k" ∷ [])
        (codes "net.ko" ∷ codes "net.ko,n" ∷ [])
        at_start
      ≡ done b s')
    × ((x : ℕ) → (bos_cleanup s').fds x ≡ at_start.fds x)
    × (bo_table.items (bos_cleanup s').bos ≡ [])
bos_cleanup-add_bos_example =
    bos_cleanup-add_bos one_object one_object-IsFresh (codes ".") (codes "k" ∷ [])
      (codes "net.ko" ∷ codes "net.ko,n" ∷ []) at_start refl

abbrev no_settings : Settings
no_settings = record {
  dirs = record { dirs = []; dirmax = 0 };
  prockallsyms = true;
  verbose = 0;
  kospec = [];
  kospecmax = 0;
}

-- `-K /lib -k a.ko -v -k b.ko -k c.ko`
abbrev command_line : List (ℕ × Bytes)
command_line =
    (b'K', codes "/lib")
    ∷ (b'k', codes "a.ko")
    ∷ (b'v', [])
    ∷ (b'k', codes "b.ko")
    ∷ (b'k', codes "c.ko")
    ∷ []

room_for_four :
    parse_opts (λ d. true) command_line no_settings
    ≡ parsed (record {
      dirs = record { dirs = codes "/lib" ∷ []; dirmax = 256 };
      prockallsyms = true;
      verbose = 1;
      kospec = codes "a.ko" ∷ codes "b.ko" ∷ codes "c.ko" ∷ [];
      kospecmax = 4;
    })
unfolding parse_opts apply_opt add_kospec grown add_dir
room_for_four = refl

parse_opts-Reads_test :
    Reads (λ d. true) command_line no_settings (parse_opts (λ d. true) command_line no_settings)
parse_opts-Reads_test =
    parse_opts-Reads (λ d. true) command_line no_settings (omega arith, omega arith)
