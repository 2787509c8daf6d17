-- ===== src/Dpld/Resolver.antt =====
-- Every return of `dpld_resolver`: the address, what was installed, and the privilege.
use symbi_os.Base.{
  arith, refl, ◌≡◌, ◌≢◌, ◌∙◌, ℕ, ◌+◌, Bool, true, false, ◌||◌, List, [], ◌∷◌, ◌==◌, if◌then◌else◌,
  Bytes, codes, Option, none, some, Bool-cases, inl, inr,
}
use symbi_os.Base.Machine.{
  Run, done, abort, fault, out_of_fuel, exited, M, pure, assert, exit, ◌>>=◌, ◌>>◌, and_then,
}
use symbi_os.Dpld.{
  World, Process, Insertion, inserted, refused, set_elevated, kcall, after_insert, init_module,
  force_symres_now, load_all, load_ext_module, elevated_app_got_init, app_got_init, load_once,
  take_offset, find_offset, lookup_thunk, dpld_resolver, resolves,
}

-- A run that ends with a value in a state as claimed, or ends the program; it does not fail otherwise.
abbrev pub Safe : {A : Type 0} → (A → Process → Type 0) → Run Process A → Type 0
Safe Q (done a p) = Q a p
Safe Q abort = Unit
Safe Q fault = ⊥
Safe Q out_of_fuel = ⊥
Safe Q (exited n) = Unit

pub Safe-bind :
    {A B : Type 0} (P : A → Process → Type 0) (Q : B → Process → Type 0) (r : Run Process A)
    (f : A → M Process B)
    → Safe P r
    → ((a : A) (p : Process) → P a p → Safe Q (f a p))
    → Safe Q (and_then r f)
Safe-bind P Q (done a p) f h next = next a p h
Safe-bind P Q abort f h next = tt
Safe-bind P Q fault f h next = h
Safe-bind P Q out_of_fuel f h next = h
Safe-bind P Q (exited n) f h next = tt

Safe-assert :
    {A : Type 0} (Q : A → Process → Type 0) (b : Bool) (f : M Process A) (p : Process)
    → Safe Q (f p)
    → Safe Q ((assert b >> f) p)
Safe-assert Q true f p h = h
Safe-assert Q false f p h = tt

module _ (w : World) where
  abbrev pub after_one : List Bytes → Bytes → Insertion → List Bytes
  after_one l m inserted = m ∷ l
  after_one l m (refused errno) = l

  -- The modules in the kernel after each of some was offered to it.
  unfoldable pub installed : List Bytes → List Bytes → List Bytes
  installed [] l = l
  installed (m ∷ ms) l = installed ms (after_one l m (w.insert l m))

  -- The process after modules were offered, from `p`.
  abbrev Offered : List Bytes → Process → ℕ → Process → Type 0
  Offered ms p _ q = q ≡ record p { loads = installed ms p.loads }

  after_insert-Offered :
      (m : Bytes) (ms : List Bytes) (p : Process) (i : Insertion)
      → ((q : Process) → Safe (Offered ms q) (load_all w ms q))
      → Safe
          (λ _ q. q ≡ record p { loads = installed ms (after_one p.loads m i) })
          ((after_insert w m i >>= λ rc. load_all w ms >>= λ rest. pure (rc + rest)) p)
  after_insert-Offered m ms p inserted ih =
      Safe-bind (Offered ms _) _ (load_all w ms (record p { loads = m ∷ p.loads })) _ (ih _)
        (λ rest q e. e)
  after_insert-Offered m ms p (refused errno) ih =
      Safe-bind (Offered ms _) _ (load_all w ms p) _ (ih p) (λ rest q e. e)

  load_all_lem : (ms : List Bytes) (p : Process) → Safe (Offered ms p) (load_all w ms p)
  unfolding load_all installed init_module
  load_all_lem [] p = refl
  load_all_lem (m ∷ ms) p = after_insert-Offered m ms p (w.insert p.loads m) (load_all_lem ms)

  load_ext_module_lem : (p : Process) → Safe (Offered w.modules p) (load_ext_module w p)
  unfolding load_ext_module
  load_ext_module_lem p =
      let Q = Offered w.modules p in
      let stack = resolves w (codes "cpu_current_top_of_stack") in
      let page = resolves w (codes "asm_exc_page_fault") in
      let double = resolves w (codes "asm_exc_double_fault") in
      let general = resolves w (codes "asm_exc_general_protection") in
      let load : M Process ℕ = load_all w w.modules in
      let then_general : M Process ℕ = assert general >> load in
      let then_double : M Process ℕ = assert double >> then_general in
      let then_page : M Process ℕ = assert page >> then_double in
      Safe-assert Q (force_symres_now w) (assert stack >> then_page) p (
        Safe-assert Q stack then_page p (
          Safe-assert Q page then_double p (
            Safe-assert Q double then_general p
              (Safe-assert Q general load p (load_all_lem w.modules p)))))

  -- The tables that were handed over: one more, if the application has entries for it.
  pub tables_after : List ℕ → List ℕ
  tables_after ts = if w.has_got_entries then w.vmalloc ∷ ts else ts

  app_got_init_lem :
      (p : Process)
      → Safe {A = ℕ}
          (λ rc q. (q.tables ≡ w.vmalloc ∷ p.tables) × (q.elevated ≡ false) × (q.loads ≡ p.loads))
          (app_got_init w p)
  unfolding app_got_init elevated_app_got_init
  app_got_init_lem p = elim (Bool-cases (w.lookup_name p.loads (codes "set_app_got") == 0)) [
    | inl absent ↦ rw absent tt
    | inr there ↦ rw there (elim (Bool-cases (w.vmalloc == 0)) [
      | inl none_left ↦ rw none_left tt
      | inr enough ↦ rw enough (refl, refl, refl)
    ])
  ]

  -- The process when the modules and the table are in place.
  abbrev pub IsInstalled : List Bytes → List ℕ → Process → Type 0
  IsInstalled l ts q =
      (q.loads ≡ l) × (q.tables ≡ ts) × (q.module_loaded ≡ true) × (q.elevated ≡ false)

  abbrev pub mark : M Process (Unit {0})
  mark p = done tt (record p { module_loaded = true })

  table_lem :
      (b : Bool) (p : Process)
      → p.elevated ≡ false
      → Safe {A = Unit {0}}
          (λ _ q. IsInstalled p.loads (if b then w.vmalloc ∷ p.tables else p.tables) q)
          (((if b then (app_got_init w >>= λ r. assert (r == 0)) else pure tt) >> mark) p)
  table_lem true p low =
      Safe-bind (λ _. handed) (λ _ q. IsInstalled p.loads (w.vmalloc ∷ p.tables) q)
        ((app_got_init w >>= λ r. assert (r == 0)) p) (λ _. mark)
        (Safe-bind {B = Unit {0}} (λ _. handed) (λ _. handed) (app_got_init w p)
          (λ r. assert (r == 0)) (app_got_init_lem p) (λ r q h. checked (r == 0) q h))
        (λ _ q h. (h.2, h.0, refl, h.1))
    where
      handed : Process → Type 0
      handed q = (q.tables ≡ w.vmalloc ∷ p.tables) × (q.elevated ≡ false) × (q.loads ≡ p.loads)

      checked : (b : Bool) (q : Process) → handed q → Safe {A = Unit {0}} (λ _. handed) (assert b q)
      checked true q h = h
      checked false q h = tt
  table_lem false p low = (refl, refl, refl, low)

  load_once_lem :
      (p : Process)
      → p.elevated ≡ false
      → Safe {A = Unit {0}}
          (λ _ q. IsInstalled (installed w.modules p.loads) (tables_after p.tables) q)
          (load_once w p)
  unfolding load_once tables_after
  load_once_lem p low =
      Safe-bind (Offered w.modules p)
        (λ _ q. IsInstalled (installed w.modules p.loads) (tables_after p.tables) q)
        (load_ext_module w p) _ (load_ext_module_lem p) (λ rc q e. loaded (rc == 0) q e)
    where
      loaded :
          (b : Bool) (q : Process)
          → q ≡ record p { loads = installed w.modules p.loads }
          → Safe {A = Unit {0}}
              (λ _ r. IsInstalled (installed w.modules p.loads) (tables_after p.tables) r)
              (((if b then pure tt else exit 255)
                  >> ((if w.has_got_entries
                        then (app_got_init w >>= λ r. assert (r == 0))
                        else pure tt)
                      >> mark))
                q)
      loaded true q e =
          rw e (table_lem w.has_got_entries (record p { loads = installed w.modules p.loads }) low)
      loaded false q e = tt

  -- The modules and the tables after a call of the resolver.
  unfoldable pub loads_after : Process → List Bytes
  loads_after p = if p.module_loaded then p.loads else installed w.modules p.loads

  unfoldable pub handed_after : Process → List ℕ
  handed_after p = if p.module_loaded then p.tables else tables_after p.tables

  abbrev Same : Process → Process → Type 0
  Same p q =
      (q.loads ≡ p.loads)
      × (q.tables ≡ p.tables)
      × (q.module_loaded ≡ p.module_loaded)
      × (q.elevated ≡ p.elevated)

  find_offset_lem : (p : Process) → Safe {A = Unit {0}} (λ _ q. Same p q) (find_offset w p)
  unfolding find_offset
  find_offset_lem p = found (p.ktos_offset == 0) (w.dlsym (codes "cpu_current_top_of_stack"))
    where
      found :
          (b : Bool) (o : Option ℕ)
          → Safe {A = Unit {0}} (λ _ q. Same p q) (if b then take_offset o p else done tt p)
      found true none = tt
      found true (some a) = (refl, refl, refl, refl)
      found false o = (refl, refl, refl, refl)

  -- What the resolver returns, and leaves behind.
  pub record IsAnswer (name : Bytes) (l : List Bytes) (ts : List ℕ) (addr : ℕ) (q : Process)
      : Type 0 where
    pub found : addr ≡ w.lookup_name q.loads name
    pub nonzero : addr ≢ 0
    pub modules : q.loads ≡ l
    pub tables : q.tables ≡ ts
    pub loaded : q.module_loaded ≡ true
    pub lowered : q.elevated ≡ false

  abbrev pub if_needed : M Process (Unit {0})
  if_needed q = if q.module_loaded then done tt q else load_once w q

  if_needed_lem :
      (b : Bool) (p q : Process)
      → p.elevated ≡ false
      → p.module_loaded ≡ b
      → Same p q
      → Safe {A = Unit {0}}
          (λ _ r.
            IsInstalled
              (if b then p.loads else installed w.modules p.loads)
              (if b then p.tables else tables_after p.tables)
              r)
          (if_needed q)
  if_needed_lem true p q low e s = rw (s.2 ∙ e) (s.0, s.1, refl, s.3 ∙ low)
  if_needed_lem false p q low e s = rw (s.2 ∙ e, ← s.0, ← s.1) (load_once_lem _ (s.3 ∙ low))

  abbrev pub answer : ℕ → M Process ℕ
  answer addr = set_elevated false >> (if addr == 0 then exit 1 else pure addr)

  answer_lem :
      (name : Bytes) (l : List Bytes) (ts : List ℕ) (q : Process)
      → IsInstalled l ts q
      → Safe
          (λ addr r. IsAnswer name l ts addr r)
          ((set_elevated true >> (kcall (lookup_thunk w name) >>= answer)) q)
  unfolding lookup_thunk
  answer_lem name l ts q h = found (w.lookup_name q.loads name == 0) refl
    where
      found :
          (b : Bool)
          → (w.lookup_name q.loads name == 0) ≡ b
          → Safe {A = ℕ}
              (λ addr r. IsAnswer name l ts addr r)
              ((if b then exit 1 else pure (w.lookup_name q.loads name))
                (record q { elevated = false }))
      found true e = tt
      found false e = record {
        found = refl;
        nonzero = ground arith;
        modules = h.0;
        tables = h.1;
        loaded = h.2;
        lowered = refl;
      }

  pub dpld_resolver_lem :
      (name : Bytes) (p : Process)
      → p.elevated ≡ false
      → Safe
          (λ addr q. IsAnswer name (loads_after p) (handed_after p) addr q)
          (dpld_resolver w name p)
  unfolding dpld_resolver loads_after handed_after
  dpld_resolver_lem name p low =
      let start : Process = record p { verbose = p.verbose || w.debug } in
      Safe-bind {A = Unit {0}} (λ _ q. Same start q) _ (find_offset w start) _
        (find_offset_lem start)
        (λ _ q s.
          Safe-bind {A = Unit {0}} (λ _ r. IsInstalled (loads_after p) (handed_after p) r) _
            (if_needed q) _ (if_needed_lem p.module_loaded start q low refl s)
            (λ _ r h. answer_lem name (loads_after p) (handed_after p) r h))
