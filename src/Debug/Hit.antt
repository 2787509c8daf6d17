-- ===== src/Debug/Hit.antt =====
-- Which breakpoint `db_c_entry` of interpos.c reports, and what it leaves enabled.
use symbi_os.Base.{ap, ◌∙◌, ℕ, zero, suc, ◌<◌, ◌≡◌, Bool, not, ◌&&◌, ◌||◌, arith, if◌then◌else◌}
use symbi_os.Debug.{
  Dr6, Dr7, Progress, test_global, test_local, test_globals, test_locals, run_tests,
}

-- The highest breakpoint below `n` that was hit and is enabled in `on`.
abbrev pub last_hit : Dr6 → (ℕ → Bool) → ℕ → ℕ → ℕ
last_hit dr6 on zero default = default
last_hit dr6 on (suc n) default = if dr6.hit n && on n then n else last_hit dr6 on n default

-- What stays enabled: for each of the four breakpoints, unless it was hit.
abbrev pub StaysOff : Dr6 → (ℕ → Bool) → (ℕ → Bool) → ℕ → Type 0
StaysOff dr6 before after i = after i ≡ (before i && not (dr6.hit i))

-- What a pass over the four breakpoints does with the bits `on` that it tests and clears.
abbrev PassedOver : Dr6 → (before after : Progress) → (on : Dr7 → ℕ → Bool) → Type 0
PassedOver dr6 before after on =
    (after.dr_hit ≡ last_hit dr6 (on before.dr7) 4 before.dr_hit)
    × ((i : ℕ)
        → i < 4
        → StaysOff dr6 (on before.dr7) (on after.dr7) i
          × (after.dr7.rw_mode i
              ≡ (if dr6.hit i && on before.dr7 i then 0 else before.dr7.rw_mode i)))
    × (after.dr7.others ≡ before.dr7.others)

test_globals_lem :
    (dr6 : Dr6) (s : Progress)
    → let after = test_globals dr6 s in
      PassedOver dr6 s after (λ dr7. dr7.global_on) × (after.dr7.local_on ≡ s.dr7.local_on)
unfolding test_global test_globals
test_globals_lem dr6 s = ground arith

test_locals_lem :
    (dr6 : Dr6) (s : Progress)
    → let after = test_locals dr6 s in
      PassedOver dr6 s after (λ dr7. dr7.local_on) × (after.dr7.global_on ≡ s.dr7.global_on)
unfolding test_local test_locals
test_locals_lem dr6 s = ground arith

-- What the two passes do together.
abbrev AllPassed : Dr6 → (before after : Progress) → Type 0
AllPassed dr6 before after =
    (after.dr_hit
      ≡ last_hit dr6 before.dr7.local_on 4 (last_hit dr6 before.dr7.global_on 4 before.dr_hit))
    × ((i : ℕ)
        → i < 4
        → StaysOff dr6 before.dr7.local_on after.dr7.local_on i
          × StaysOff dr6 before.dr7.global_on after.dr7.global_on i
          × (after.dr7.rw_mode i ≡ (
              if dr6.hit i && (before.dr7.local_on i || before.dr7.global_on i)
              then 0
              else before.dr7.rw_mode i)))
    × (after.dr7.others ≡ before.dr7.others)

rw_mode_twice :
    (hit local_bit global_bit : Bool) (a b c : ℕ)
    → a ≡ (if hit && local_bit then 0 else b)
    → b ≡ (if hit && global_bit then 0 else c)
    → a ≡ (if hit && (local_bit || global_bit) then 0 else c)
rw_mode_twice hit local_bit global_bit a b c p q = ground arith

both_passes :
    (dr6 : Dr6) (start mid after : Progress)
    → PassedOver dr6 start mid (λ dr7. dr7.global_on) × (mid.dr7.local_on ≡ start.dr7.local_on)
    → PassedOver dr6 mid after (λ dr7. dr7.local_on) × (after.dr7.global_on ≡ mid.dr7.global_on)
    → AllPassed dr6 start after
both_passes dr6 start mid after ((global_hit, global_bits, global_others), same_local)
      ((local_hit, local_bits, local_others), same_global) =
    (
      local_hit
          ∙ (ap (λ on. last_hit dr6 on 4 mid.dr_hit) same_local
              ∙ ap (last_hit dr6 start.dr7.local_on 4) global_hit),
      (λ i i<4.
          let (off, rw_off) = global_bits i i<4 in
          let (local_off, rw_local) = local_bits i i<4 in
          (
            local_off ∙ ap (λ on. on i && not (dr6.hit i)) same_local,
            ap (λ on. on i) same_global ∙ off,
            rw_mode_twice (dr6.hit i) (start.dr7.local_on i) (start.dr7.global_on i)
                (after.dr7.rw_mode i) (mid.dr7.rw_mode i) (start.dr7.rw_mode i)
                (rw_local
                  ∙ ap (λ on. if dr6.hit i && on i then 0 else mid.dr7.rw_mode i) same_local)
                rw_off,
          )),
      local_others ∙ global_others,
    )

-- The handler reports the highest breakpoint that was hit and is enabled locally; if there is none,
-- the highest that is enabled globally; else 9. Each of the four that was hit is disabled, both
-- ways, and what it watches is set to 0 if it was enabled; the others are left alone.
pub run_tests_lem :
    (dr6 : Dr6) (dr7 : Dr7)
    → let after = run_tests dr6 dr7 in
      (after.dr_hit ≡ last_hit dr6 dr7.local_on 4 (last_hit dr6 dr7.global_on 4 9))
      × ((i : ℕ)
          → i < 4
          → StaysOff dr6 dr7.local_on after.dr7.local_on i
            × StaysOff dr6 dr7.global_on after.dr7.global_on i
            × (after.dr7.rw_mode i
                ≡ (if dr6.hit i && (dr7.local_on i || dr7.global_on i) then 0 else dr7.rw_mode i)))
      × (after.dr7.others ≡ dr7.others)
unfolding run_tests
run_tests_lem dr6 dr7 =
    let start : Progress = record { dr_hit = 9; dr7 = dr7 } in
    let mid = test_globals dr6 start in
    both_passes dr6 start mid (test_locals dr6 mid) (test_globals_lem dr6 start)
      (test_locals_lem dr6 mid)
