-- ===== src/Loader/Unresolved.antt =====
-- `base_resolver` where the symbols that the loading needs are missing.
use symbi_os.Base.{arith, refl, ◌≡◌, ◌≢◌, true, false, ◌==◌, Bytes}
use symbi_os.Base.Machine.{done}
use symbi_os.Loader.{
  World, Process, force_symres_now, load_included_module, load_first, base_resolver,
}

-- Where `dlsym` finds not both of the symbols that the loading of the module needs, the first call
-- of `base_resolver` for a symbol that the kernel has inserts no module, and yet notes that the
-- module is loaded and returns the address: the failure of `force_symres_now` is returned as 0.
pub base_resolver_unresolved :
    (w : World) (name : Bytes) (p : Process)
    → p.module_loaded ≡ false
    → force_symres_now w ≡ false
    → w.lookup_name p.loads name ≢ 0
    → base_resolver w name p
      ≡ done (w.lookup_name p.loads name) (record p { module_loaded = true; elevated = false })
unfolding base_resolver load_first load_included_module
base_resolver_unresolved w name p first missing there =
    let found : (w.lookup_name p.loads name == 0) ≡ false = ground arith in
    rw (first, missing, found) refl
