-- ===== src/Loader/Tests.antt =====
-- The loader with and without the symbols that it needs.
use symbi_os.Base.{arith, refl, ◌≡◌, ℕ, true, false, [], ◌∷◌, codes, Option, none, some}
use symbi_os.Base.Machine.{done}
use symbi_os.Loader.{
  World, Process, greeter, force_symres_now, do_load_module, load_included_module, load_first,
  base_resolver,
}
use symbi_os.Loader.Unresolved.{base_resolver_unresolved}

abbrev with_symbols : Option ℕ → World
with_symbols o = record { dlsym = λ n. o; insert = λ l m. 0; lookup_name = λ l n. 77 }

abbrev fresh : Process
fresh = record { module_loaded = false; ktos = 0; elevated = false; loads = [] }

loaded_first :
    base_resolver (with_symbols (some 5)) (codes "printk") fresh
    ≡ done 77 (record { module_loaded = true; ktos = 5; elevated = false; loads = greeter ∷ [] })
unfolding base_resolver load_first load_included_module do_load_module force_symres_now
loaded_first = refl

base_resolver_unresolved_test :
    base_resolver (with_symbols none) (codes "printk") fresh
    ≡ done 77 (record fresh { module_loaded = true; elevated = false })
unfolding force_symres_now
base_resolver_unresolved_test =
    base_resolver_unresolved (with_symbols none) (codes "printk") fresh refl refl (omega arith)
