-- ===== src/Loader.antt =====
-- The loader of a module that is part of the program (examples/idtr_interposer/load_mod.c). The
-- dynamic loader and the kernel are a parameter.
pub mod Unresolved
mod Tests
use symbi_os.Base.{
  ℕ, Bool, true, false, not, ◌&&◌, List, [], ◌∷◌, ◌==◌, if◌then◌else◌, Bytes, codes, Option, none,
  some, is_some,
}
use symbi_os.Base.Machine.{done, fault, M, pure, exit, ◌>>=◌, ◌>>◌}

-- `dlsym` by name; what `__x64_sys_init_module` and `kallsyms_lookup_name` return after some modules
-- were inserted.
pub record World : Type 0 where
  pub dlsym : Bytes → Option ℕ
  pub insert : List Bytes → Bytes → ℕ
  pub lookup_name : List Bytes → Bytes → ℕ

-- The static variables, the privilege of the thread, and the modules that were inserted.
pub record Process : Type 0 where
  pub module_loaded : Bool
  pub ktos : ℕ
  pub elevated : Bool
  pub loads : List Bytes

-- The module in the program, `_binary_greeter_ko_start`.
abbrev pub greeter : Bytes
greeter = codes "greeter"

abbrev pub set_elevated : Bool → M Process (Unit {0})
set_elevated b p = done tt (record p { elevated = b })

abbrev pub take_ktos : Option ℕ → M Process (Unit {0})
take_ktos none p = done tt (record p { ktos = 0 })
take_ktos (some a) p = done tt (record p { ktos = a })

module _ (w : World) where
  -- `resolve_sym`: whether `dlsym` finds the name.
  abbrev pub resolve_sym : Bytes → Bool
  resolve_sym name = is_some (w.dlsym name)

  unfoldable pub force_symres_now : Bool
  force_symres_now =
      resolve_sym (codes "__x64_sys_init_module") && resolve_sym (codes "cpu_current_top_of_stack")

  -- `SYM_ON_KERN_STACK_DYNSYM_DO` of `do_load_module`, which gives back what the system call returns.
  unfoldable pub do_load_module : M Process ℕ
  do_load_module p =
      let ret = w.insert p.loads greeter in
      if ret == 0 then done ret (record p { loads = greeter ∷ p.loads }) else done ret p

  unfoldable pub load_included_module : M Process ℕ
  load_included_module =
      if not force_symres_now
      then pure 0
      else (take_ktos (w.dlsym (codes "cpu_current_top_of_stack")) >> do_load_module)

  -- The part of `base_resolver` under `if (!module_loaded)`.
  unfoldable pub load_first : M Process (Unit {0})
  load_first = do
    rc ← load_included_module
    if not (rc == 0) then exit 1 else pure tt
    λ p. done tt (record p { module_loaded = true })

  abbrev pub look_up : Bytes → M Process ℕ
  look_up name p = if p.elevated then done (w.lookup_name p.loads name) p else fault

  unfoldable pub base_resolver : Bytes → M Process ℕ
  base_resolver name = do
    λ p. if p.module_loaded then done tt p else load_first p
    set_elevated true
    addr ← look_up name
    set_elevated false
    if addr == 0 then exit 1 else pure addr
