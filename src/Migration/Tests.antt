-- ===== src/Migration/Tests.antt =====
-- The program of examples/cpu_migration/main.c at small inputs.
use symbi_os.Base.{◌≡◌, ◌↔◌, refl, Bool, true, false, some, [], codes, arith}
use symbi_os.Migration.{World, Process, mode_of, trial, count_primes, busy_work, main}
use symbi_os.Migration.Primes.{IsPrime, trial-IsPrime}
use symbi_os.Migration.Privileges.{Returns, main-Returns, is_io, is_removed}

trial-IsPrime_example : (b : Bool) × (trial 7 2 7 ≡ some b) × ((b ≡ true) ↔ IsPrime 7)
trial-IsPrime_example = trial-IsPrime 7 (omega arith) (omega arith)

-- 2, 3, 5, 7, 11, 13, 17 and 19
eight_primes : busy_work 20 ≡ some 8
unfolding count_primes trial
eight_primes = refl

abbrev world : World
world = record { result = λ l c. 3 }

abbrev fresh : Process
fresh = record { elevated = false; initialized = false; calls = [] }

main-Returns_test :
    Returns
      (λ q.
        (q.elevated ≡ false)
        × (is_io (mode_of (some (codes "io"))) ≡ true → is_removed q.calls ≡ true))
      (main world (some (codes "io")) fresh)
main-Returns_test = main-Returns world (some (codes "io")) fresh
