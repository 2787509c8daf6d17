-- ===== src/Dpld/Complete.antt =====
-- What `dpld_resolver` needs of the dynamic loader and of the kernel.
use symbi_os.Base.{
  arith, refl, ◌≡◌, ◌≢◌, ℕ, ◌+◌, Bool, true, false, ◌||◌, List, [], ◌∷◌, ◌==◌, if◌then◌else◌, Bytes,
  codes, Option, none, some, is_some,
}
use symbi_os.Base.Machine.{
  Run, done, abort, fault, out_of_fuel, exited, M, pure, assert, exit, ◌>>=◌, ◌>>◌, and_then,
}
use symbi_os.Dpld.{
  World, Process, Insertion, inserted, refused, eexist, set_elevated, kcall, after_insert,
  init_module, force_symres_now, load_all, load_ext_module, elevated_app_got_init, app_got_init,
  load_once, take_offset, find_offset, lookup_thunk, dpld_resolver, resolves,
}
use symbi_os.Dpld.Resolver.{
  Safe, installed, after_one, IsAnswer, loads_after, handed_after, dpld_resolver_lem, if_needed,
  mark, answer,
}

-- A run that ends with a value in a state as claimed.
abbrev pub Total : {A : Type 0} → (A → Process → Type 0) → Run Process A → Type 0
Total Q (done a p) = Q a p
Total Q _ = ⊥

Total-bind :
    {A B : Type 0} (P : A → Process → Type 0) (Q : B → Process → Type 0) (r : Run Process A)
    (f : A → M Process B)
    → Total P r
    → ((a : A) (p : Process) → P a p → Total Q (f a p))
    → Total Q (and_then r f)
Total-bind P Q (done a p) f h next = next a p h
Total-bind P Q abort f h next = h
Total-bind P Q fault f h next = h
Total-bind P Q out_of_fuel f h next = h
Total-bind P Q (exited n) f h next = h

Total-both :
    {A : Type 0} (P Q : A → Process → Type 0) (r : Run Process A) → Safe Q r → Total P r → Total Q r
Total-both P Q (done a p) s t = s
Total-both P Q abort s t = t
Total-both P Q fault s t = t
Total-both P Q out_of_fuel s t = t
Total-both P Q (exited n) s t = t

-- A module is inserted, or there already.
abbrev pub IsAcceptedBy : Insertion → Type 0
IsAcceptedBy inserted = Unit
IsAcceptedBy (refused errno) = errno ≡ eexist

module _ (w : World) where
  abbrev pub AreAccepted : List Bytes → List Bytes → Type 0
  AreAccepted [] l = Unit
  AreAccepted (m ∷ ms) l =
      IsAcceptedBy (w.insert l m) × AreAccepted ms (after_one w l m (w.insert l m))

  -- The symbols that are looked up by `dlsym` are there, the kernel takes the modules, it has the
  -- function and the memory for the table if there is one, and it has the symbol.
  pub record IsComplete (name : Bytes) (p : Process) : Type 0 where
    pub first : p.module_loaded ≡ false
    pub needed : force_symres_now w ≡ true
    pub stack : resolves w (codes "cpu_current_top_of_stack") ≡ true
    pub page : resolves w (codes "asm_exc_page_fault") ≡ true
    pub double : resolves w (codes "asm_exc_double_fault") ≡ true
    pub general : resolves w (codes "asm_exc_general_protection") ≡ true
    pub accepted : AreAccepted w.modules p.loads
    pub table :
        w.has_got_entries ≡ true
        → (w.lookup_name (installed w w.modules p.loads) (codes "set_app_got") ≢ 0)
          × (w.vmalloc ≢ 0)
    pub there : w.lookup_name (installed w w.modules p.loads) name ≢ 0

  abbrev Offered : List Bytes → Process → ℕ → Process → Type 0
  Offered ms p rc q = (rc ≡ 0) × (q ≡ record p { loads = installed w ms p.loads })

  accepted_one :
      (m : Bytes) (ms : List Bytes) (p : Process) (i : Insertion)
      → IsAcceptedBy i
      → AreAccepted ms (after_one w p.loads m i)
      → ((q : Process) → AreAccepted ms q.loads → Total (Offered ms q) (load_all w ms q))
      → Total
          (λ rc q. (rc ≡ 0) × (q ≡ record p { loads = installed w ms (after_one w p.loads m i) }))
          ((after_insert w m i >>= λ rc. load_all w ms >>= λ rest. pure (rc + rest)) p)
  accepted_one m ms p inserted one all ih =
      Total-bind (Offered ms _) _ (load_all w ms (record p { loads = m ∷ p.loads })) _ (ih _ all)
        (λ rest q e. (ground (arith, e.0), e.1))
  accepted_one m ms p (refused errno) one all ih =
      Total-bind (Offered ms _) _ (load_all w ms p) _ (ih p all)
        (λ rest q e. (ground (arith, e.0, one), e.1))

  load_all-Total :
      (ms : List Bytes) (p : Process)
      → AreAccepted ms p.loads
      → Total (Offered ms p) (load_all w ms p)
  unfolding load_all installed init_module
  load_all-Total [] p h = (refl, refl)
  load_all-Total (m ∷ ms) p h = accepted_one m ms p (w.insert p.loads m) h.0 h.1 (load_all-Total ms)

  load_ext_module-Total :
      (name : Bytes) (p : Process)
      → IsComplete name p
      → Total (Offered w.modules p) (load_ext_module w p)
  unfolding load_ext_module
  load_ext_module-Total name p c =
      rw (c.needed, c.stack, c.page, c.double, c.general) (load_all-Total w.modules p c.accepted)

  app_got_init-Total :
      (p : Process)
      → w.lookup_name p.loads (codes "set_app_got") ≢ 0
      → w.vmalloc ≢ 0
      → Total (λ rc q. (rc ≡ 0) × (q.loads ≡ p.loads)) (app_got_init w p)
  unfolding app_got_init elevated_app_got_init
  app_got_init-Total p found memory =
      let f : (w.lookup_name p.loads (codes "set_app_got") == 0) ≡ false = ground arith in
      let v : (w.vmalloc == 0) ≡ false = ground arith in rw (f, v) (refl, refl)

  table-Total :
      (b : Bool) (p : Process)
      → (b ≡ true → (w.lookup_name p.loads (codes "set_app_got") ≢ 0) × (w.vmalloc ≢ 0))
      → Total {A = Unit {0}}
          (λ _ q. (q.loads ≡ p.loads) × (q.module_loaded ≡ true))
          (((if b then (app_got_init w >>= λ r. assert (r == 0)) else pure tt) >> mark w) p)
  table-Total true p h =
      Total-bind {A = Unit {0}} (λ _ q. q.loads ≡ p.loads) _
        ((app_got_init w >>= λ r. assert (r == 0)) p) (λ _. mark w)
        (Total-bind {B = Unit {0}} (λ rc q. (rc ≡ 0) × (q.loads ≡ p.loads))
          (λ _ q. q.loads ≡ p.loads) (app_got_init w p) (λ r. assert (r == 0))
          (app_got_init-Total p (h refl).0 (h refl).1) (λ r q e. rw e.0 e.1))
        (λ _ q e. (e, refl))
  table-Total false p h = (refl, refl)

  abbrev Loaded : Process → Process → Type 0
  Loaded p q = (q.loads ≡ installed w w.modules p.loads) × (q.module_loaded ≡ true)

  load_once-Total :
      (name : Bytes) (p : Process)
      → IsComplete name p
      → Total {A = Unit {0}} (λ _ q. Loaded p q) (load_once w p)
  unfolding load_once
  load_once-Total name p c =
      Total-bind (Offered w.modules p) (λ _ q. Loaded p q) (load_ext_module w p) _
        (load_ext_module-Total name p c) (λ rc q e. loaded rc q e.0 e.1)
    where
      loaded :
          (rc : ℕ) (q : Process)
          → rc ≡ 0
          → q ≡ record p { loads = installed w w.modules p.loads }
          → Total {A = Unit {0}}
              (λ _ r. Loaded p r)
              (((if rc == 0 then pure tt else exit 255)
                  >> ((if w.has_got_entries
                        then (app_got_init w >>= λ r. assert (r == 0))
                        else pure tt)
                      >> mark w))
                q)
      loaded rc q z e =
          rw (z, e)
            (table-Total w.has_got_entries (record p { loads = installed w w.modules p.loads })
              c.table)

  -- The process that the first part of the resolver leaves.
  abbrev Ready : Process → Process → Type 0
  Ready p q = (q.loads ≡ p.loads) × (q.module_loaded ≡ false)

  find_offset-Total :
      (p : Process)
      → resolves w (codes "cpu_current_top_of_stack") ≡ true
      → p.module_loaded ≡ false
      → Total {A = Unit {0}} (λ _ q. Ready p q) (find_offset w p)
  unfolding find_offset
  find_offset-Total p h e =
      found (p.ktos_offset == 0) (w.dlsym (codes "cpu_current_top_of_stack")) h
    where
      found :
          (b : Bool) (o : Option ℕ)
          → is_some o ≡ true
          → Total {A = Unit {0}} (λ _ q. Ready p q) (if b then take_offset o p else done tt p)
      found true none h = cc
      found true (some a) h = (refl, e)
      found false o h = (refl, e)

  answer-Total :
      (name : Bytes) (q : Process)
      → w.lookup_name q.loads name ≢ 0
      → Total {A = ℕ}
          (λ _ _. Unit {0})
          ((set_elevated true >> (kcall (lookup_thunk w name) >>= answer w)) q)
  unfolding lookup_thunk
  answer-Total name q h =
      let e : (w.lookup_name q.loads name == 0) ≡ false = ground arith in rw e tt

  -- The same conditions on a process that differs in what they do not mention.
  IsComplete-Ready :
      (name : Bytes) (p q : Process) → Ready p q → IsComplete name p → IsComplete name q
  IsComplete-Ready name p q r c = record {
    first = r.1;
    needed = c.needed;
    stack = c.stack;
    page = c.page;
    double = c.double;
    general = c.general;
    accepted = rw r.0 c.accepted;
    table = rw r.0 c.table;
    there = rw r.0 c.there;
  }

  dpld_resolver-Total :
      (name : Bytes) (p : Process)
      → IsComplete name p
      → Total {A = ℕ} (λ _ _. Unit {0}) (dpld_resolver w name p)
  unfolding dpld_resolver
  dpld_resolver-Total name p c =
      let start : Process = record p { verbose = p.verbose || w.debug } in
      Total-bind {A = Unit {0}} (λ _ q. Ready start q) _ (find_offset w start) _
        (find_offset-Total start c.stack c.first)
        (λ _ q r.
          Total-bind {A = Unit {0}} (λ _ v. Loaded q v) _ (if_needed w q) _
            (rw r.1 (load_once-Total name _ (IsComplete-Ready name p _ (r.0, refl) c)))
            (λ _ v l. answer-Total name v (rw (l.0, r.0) c.there)))

  -- If nothing is missing, the first call of the resolver returns: the address of the symbol, which
  -- is not 0, with every module inserted or there already, the table handed over once if there are
  -- entries for it, and the thread not elevated.
  pub dpld_resolver_returns :
      (name : Bytes) (p : Process)
      → p.elevated ≡ false
      → IsComplete name p
      → Total
          (λ addr q. IsAnswer w name (loads_after w p) (handed_after w p) addr q)
          (dpld_resolver w name p)
  dpld_resolver_returns name p low c =
      Total-both (λ _ _. Unit {0})
        (λ addr q. IsAnswer w name (loads_after w p) (handed_after w p) addr q)
        (dpld_resolver w name p) (dpld_resolver_lem w name p low) (dpld_resolver-Total name p c)
