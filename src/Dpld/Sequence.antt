-- ===== src/Dpld/Sequence.antt =====
-- The resolutions of a program that is linked with dpld.c, one after the other.
use symbi_os.Base.{refl, ◌≡◌, ◌∙◌, ap, ℕ, false, List, [], ◌∷◌, Bytes, map}
use symbi_os.Base.Machine.{M, pure, ◌>>=◌}
use symbi_os.Dpld.{World, Process, dpld_resolver}
use symbi_os.Dpld.Resolver.{
  Safe, Safe-bind, IsInstalled, dpld_resolver_lem, IsAnswer, loads_after, handed_after,
}

module _ (w : World) where
  -- The resolutions of a program, one symbol after the other.
  unfoldable pub resolve_all : List Bytes → M Process (List ℕ)
  resolve_all [] = pure []
  resolve_all (n ∷ ns) = do a ← dpld_resolver w n; rest ← resolve_all ns; pure (a ∷ rest)

  -- All addresses are those of one kernel, and everything was installed once.
  pub record AreAnswers (names : List Bytes) (l : List Bytes) (ts : List ℕ) (found : List ℕ)
      (q : Process) : Type 0 where
    pub addresses : found ≡ map (w.lookup_name l) names
    pub modules : q.loads ≡ l
    pub tables : q.tables ≡ ts
    pub lowered : q.elevated ≡ false

  one_more :
      (n : Bytes) (ns : List Bytes) (l : List Bytes) (addr : ℕ) (found : List ℕ)
      → addr ≡ w.lookup_name l n
      → found ≡ map (w.lookup_name l) ns
      → addr ∷ found ≡ map (w.lookup_name l) (n ∷ ns)
  one_more n ns l addr found e f = rw (e, f) refl

  later :
      (ns : List Bytes) (l : List Bytes) (ts : List ℕ) (p : Process)
      → IsInstalled w l ts p
      → Safe (λ found q. AreAnswers ns l ts found q) (resolve_all ns p)
  unfolding resolve_all loads_after handed_after
  later [] l ts p h = record { addresses = refl; modules = h.0; tables = h.1; lowered = h.3 }
  later (n ∷ ns) l ts p h =
      Safe-bind (λ addr q. IsAnswer w n (loads_after w p) (handed_after w p) addr q) _
        (dpld_resolver w n p) _ (dpld_resolver_lem w n p h.3)
        (λ addr q a.
          let same : IsInstalled w l ts q =
            (a.modules ∙ rw h.2 h.0, a.tables ∙ rw h.2 h.1, a.loaded, a.lowered) in
          Safe-bind (λ found r. AreAnswers ns l ts found r) _ (resolve_all ns q) _
            (later ns l ts q same)
            (λ found r b. record {
              addresses =
                  one_more n ns l addr found (a.found ∙ ap (λ k. w.lookup_name k n) same.0)
                    b.addresses;
              modules = b.modules;
              tables = b.tables;
              lowered = b.lowered;
            }))

  -- From a thread that is not elevated, a program that resolves symbols, one at least, ends at an
  -- assertion or by `exit`, or has every symbol at the address that the kernel gives for it when each
  -- module was offered once, unless they were loaded before; the table was handed over once, if there
  -- are entries for it, and likewise not again; and the thread is not elevated.
  pub resolve_all_lem :
      (n : Bytes) (ns : List Bytes) (p : Process)
      → p.elevated ≡ false
      → Safe
          (λ found q. AreAnswers (n ∷ ns) (loads_after w p) (handed_after w p) found q)
          (resolve_all (n ∷ ns) p)
  unfolding resolve_all
  resolve_all_lem n ns p low =
      Safe-bind (λ addr q. IsAnswer w n (loads_after w p) (handed_after w p) addr q) _
        (dpld_resolver w n p) _ (dpld_resolver_lem w n p low)
        (λ addr q a.
          Safe-bind (λ found r. AreAnswers ns (loads_after w p) (handed_after w p) found r) _
            (resolve_all ns q) _
            (later ns (loads_after w p) (handed_after w p) q
              (a.modules, a.tables, a.loaded, a.lowered))
            (λ found r b. record {
              addresses =
                  one_more n ns (loads_after w p) addr found
                    (a.found ∙ ap (λ l. w.lookup_name l n) a.modules) b.addresses;
              modules = b.modules;
              tables = b.tables;
              lowered = b.lowered;
            }))
