-- ===== src/Bo/Leaks.antt =====
-- The descriptors between the loop of `GBLSInit` and `cleanup` of main.c.
use symbi_os.Base.{
  Bool-cases, ℕ, ◌≡◌, refl, Bool, true, false, inl, inr, List, [], ◌∷◌, arith, Bytes,
}
use symbi_os.Base.Machine.{done}
use symbi_os.Uthash.{Uthash}
use symbi_os.Bo.{Bo, Files, Bos, add_bos, bos_cleanup}
use symbi_os.Bo.Owned.{IsOwned, IsFresh, addbo-Outcome, Outcome-IsOwned, clean_items_fds}

module _ {T : Uthash Bytes Bo} (files : Files) (fresh : IsFresh files) where
  add_bos-IsOwned :
      (d : Bytes) (ds ks : List Bytes) (before : ℕ → Bool) (s : Bos T)
      → IsOwned before s
      → (b : Bool) × (s' : Bos T) × (add_bos files (d ∷ ds) ks s ≡ done b s') × IsOwned before s'
  unfolding add_bos
  add_bos-IsOwned d ds [] before s v = (true, s, refl, v)
  add_bos-IsOwned d ds (k ∷ ks) before s v =
      let (added, s1, run, outcome) = addbo-Outcome files fresh d ds k s in
      let v1 = Outcome-IsOwned files fresh before s added s1 v outcome in
      let (b, s2, rest, v2) = add_bos-IsOwned d ds ks before s1 v1 in
      elim (Bool-cases added) [
        | inl more ↦ (b, s2, rw (run, more) rest, v2)
        | inr failed ↦ (false, s1, rw (run, failed) refl, v1)
      ]

  -- Of the specifications, `GBLSInit` adds those up to the first that fails; whichever these are, the
  -- run returns, and `cleanup` then leaves exactly the descriptors open that were open before. (The
  -- table was empty, and there is a directory to search.)
  pub bos_cleanup-add_bos :
      (d : Bytes) (ds ks : List Bytes) (s : Bos T)
      → T.items s.bos ≡ []
      → (b : Bool) × (s' : Bos T) × (add_bos files (d ∷ ds) ks s ≡ done b s')
        × ((x : ℕ) → (bos_cleanup s').fds x ≡ s.fds x)
        × (T.items (bos_cleanup s').bos ≡ [])
  unfolding bos_cleanup
  bos_cleanup-add_bos d ds ks s none_yet =
      let start : IsOwned s.fds s = record {
        opened = λ x. rw none_yet (ground arith);
        apart = λ x h. rw none_yet refl;
      } in
      let (b, s', run, v) = add_bos-IsOwned d ds ks s.fds s start in
      (
        b,
        s',
        run,
        λ x. ground (arith, clean_items_fds (T.items s'.bos) s' x, v.opened x, v.apart x),
        T.items-empty,
      )
