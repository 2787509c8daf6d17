-- ===== src/Dpld.antt =====
-- The dynamic path resolver (examples/tools/src/dpld.c): the functions by which an application finds
-- an address of the kernel, with the modules and the table that they install on the way.
-- The dynamic loader and the kernel are a parameter, and `-1` and `-2` are 1 and 2 here.
pub mod Resolver
pub mod Sequence
pub mod Complete
mod Tests
use symbi_os.Base.{
  ℕ, zero, suc, ◌+◌, Bool, true, false, not, ◌&&◌, ◌||◌, List, [], ◌∷◌, ◌++◌, ◌==◌, if◌then◌else◌,
  Bytes, codes, Option, none, some, is_some,
}
use symbi_os.Base.Machine.{Run, done, fault, M, pure, assert, exit, nyi, ◌>>=◌, ◌>>◌}

-- What `init_module(2)` says of a module.
pub data Insertion : Type 0 where
  inserted : Insertion
  refused : ℕ → Insertion

-- `dlsym` by name; `kallsyms_lookup_name` and `init_module(2)` after some modules were inserted; the
-- address from `vmalloc`, 0 for none; the modules of modules.h; whether the application has entries
-- for the table, and whether `DPLD_DEBUG` is set.
pub record World : Type 0 where
  pub dlsym : Bytes → Option ℕ
  pub lookup_name : List Bytes → Bytes → ℕ
  pub insert : List Bytes → Bytes → Insertion
  pub vmalloc : ℕ
  pub modules : List Bytes
  pub has_got_entries : Bool
  pub debug : Bool

-- The static variables, the privilege of the thread, the modules that were inserted, the last one
-- first, and the tables that were handed to `set_app_got`.
pub record Process : Type 0 where
  pub module_loaded : Bool
  pub verbose : Bool
  pub ktos_offset : ℕ
  pub set_app_got : ℕ
  pub elevated : Bool
  pub loads : List Bytes
  pub tables : List ℕ

-- `EEXIST`
abbrev pub eexist : ℕ
eexist = 17

abbrev pub set_elevated : Bool → M Process (Unit {0})
set_elevated b p = done tt (record p { elevated = b })

-- `stack_switch_kcall` runs a function on the kernel's stack, which a thread may that is elevated.
abbrev pub kcall : {A : Type 0} → M Process A → M Process A
kcall f p = if p.elevated then f p else fault

abbrev pub take_offset : Option ℕ → M Process (Unit {0})
take_offset none p = nyi p
take_offset (some a) p = done tt (record p { ktos_offset = a })

module _ (w : World) where
  abbrev pub after_insert : Bytes → Insertion → M Process ℕ
  after_insert name inserted p = done 0 (record p { loads = name ∷ p.loads })
  after_insert name (refused errno) p = done (if errno == eexist then 0 else 1) p

  unfoldable pub init_module : Bytes → M Process ℕ
  init_module name p = after_insert name (w.insert p.loads name) p

  abbrev pub resolves : Bytes → Bool
  resolves name = is_some (w.dlsym name)

  unfoldable pub force_symres_now : Bool
  force_symres_now =
      resolves (codes "cpu_current_top_of_stack")
      && (resolves (codes "kallsyms_lookup_name")
          && (resolves (codes "vmalloc_noprof") && resolves (codes "exit")))

  -- `LOAD_ALL_MODULES`: the sum of what `init_module` returns.
  unfoldable pub load_all : List Bytes → M Process ℕ
  load_all [] = pure 0
  load_all (m ∷ ms) = do rc ← init_module m; rest ← load_all ms; pure (rc + rest)

  unfoldable pub load_ext_module : M Process ℕ
  load_ext_module = do
    assert force_symres_now
    assert (resolves (codes "cpu_current_top_of_stack"))
    assert (resolves (codes "asm_exc_page_fault"))
    assert (resolves (codes "asm_exc_double_fault"))
    assert (resolves (codes "asm_exc_general_protection"))
    load_all w.modules

  unfoldable pub elevated_app_got_init : M Process ℕ
  elevated_app_got_init p =
      let f = w.lookup_name p.loads (codes "set_app_got") in
      let found = record p { set_app_got = f } in
      if f == 0
      then done 1 found
      else if w.vmalloc == 0
      then done 2 found
      else done 0 (record found { tables = w.vmalloc ∷ p.tables })

  unfoldable pub app_got_init : M Process ℕ
  app_got_init = do
    set_elevated true
    rc ← kcall elevated_app_got_init
    set_elevated false
    if rc == 1 then exit 1 else if rc == 2 then exit 1 else pure rc

  -- The part of `dpld_resolver` under `if (!module_loaded)`; `exit(-1)` is status 255.
  unfoldable pub load_once : M Process (Unit {0})
  load_once = do
    rc ← load_ext_module
    if rc == 0 then pure tt else exit 255
    if w.has_got_entries then (app_got_init >>= λ r. assert (r == 0)) else pure tt
    λ p. done tt (record p { module_loaded = true })

  -- `ktos_offset == 0 && !resolve_sym(…)`
  unfoldable pub find_offset : M Process (Unit {0})
  find_offset p =
      if p.ktos_offset == 0
      then take_offset (w.dlsym (codes "cpu_current_top_of_stack")) p
      else done tt p

  unfoldable pub lookup_thunk : Bytes → M Process ℕ
  lookup_thunk name p = done (w.lookup_name p.loads name) p

  unfoldable pub dpld_resolver : Bytes → M Process ℕ
  dpld_resolver name p =
      (find_offset
          >> ((λ q. if q.module_loaded then done tt q else load_once q)
              >> (set_elevated true
                  >> (kcall (lookup_thunk name) >>= λ addr.
                      set_elevated false >> (if addr == 0 then exit 1 else pure addr)))))
        (record p { verbose = p.verbose || w.debug })
