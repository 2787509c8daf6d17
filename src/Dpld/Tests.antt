-- ===== src/Dpld/Tests.antt =====
-- The resolver in a small kernel.
use symbi_os.Base.{
  arith, refl, ◌≡◌, ◌+◌, true, false, List, [], ◌∷◌, ◌==◌, if◌then◌else◌, Bytes, codes, some,
}
use symbi_os.Base.Lists.{length}
use symbi_os.Base.Machine.{done, exited}
use symbi_os.Dpld.{
  World, Process, inserted, refused, init_module, force_symres_now, load_all, load_ext_module,
  elevated_app_got_init, app_got_init, load_once, find_offset, lookup_thunk, dpld_resolver,
}
use symbi_os.Dpld.Complete.{Total, IsComplete, dpld_resolver_returns}
use symbi_os.Dpld.Resolver.{installed, IsAnswer, Safe, loads_after, handed_after}
use symbi_os.Dpld.Sequence.{AreAnswers, resolve_all, resolve_all_lem}

-- One module, after which a symbol is at 100 and one more for each module, if it is not empty.
abbrev small : World
small = record {
  dlsym = λ n. some 8;
  lookup_name = λ l n. if length n == 0 then 0 else 100 + length l;
  insert = λ l m. if length l == 0 then inserted else refused 17;
  vmalloc = 4096;
  modules = codes "ext" ∷ codes "ext" ∷ [];
  has_got_entries = true;
  debug = false;
}

abbrev fresh : Process
fresh = record {
  module_loaded = false;
  verbose = false;
  ktos_offset = 0;
  set_app_got = 0;
  elevated = false;
  loads = [];
  tables = [];
}

abbrev symbols : List Bytes
symbols = codes "vmalloc" ∷ codes "schedule" ∷ []

both_found :
    resolve_all small symbols fresh
    ≡ done (101 ∷ 101 ∷ []) (record {
      module_loaded = true;
      verbose = false;
      ktos_offset = 8;
      set_app_got = 101;
      elevated = false;
      loads = codes "ext" ∷ [];
      tables = 4096 ∷ [];
    })
unfolding resolve_all dpld_resolver find_offset load_once load_ext_module force_symres_now load_all
    init_module app_got_init elevated_app_got_init lookup_thunk
both_found = refl

not_found : dpld_resolver small [] fresh ≡ exited 1
unfolding dpld_resolver find_offset load_once load_ext_module force_symres_now load_all init_module
    app_got_init elevated_app_got_init lookup_thunk
not_found = refl

resolve_all_lem_example :
    Safe
      (λ found q.
        AreAnswers small symbols (loads_after small fresh) (handed_after small fresh) found q)
      (resolve_all small symbols fresh)
resolve_all_lem_example = resolve_all_lem small (codes "vmalloc") (codes "schedule" ∷ []) fresh refl

small-IsComplete : IsComplete small (codes "vmalloc") fresh
unfolding force_symres_now installed
small-IsComplete = record {
  first = refl;
  needed = refl;
  stack = refl;
  page = refl;
  double = refl;
  general = refl;
  accepted = (tt, (refl, tt));
  table = λ h. (omega arith, omega arith);
  there = omega arith;
}

dpld_resolver_returns_example :
    Total
      (λ addr q.
        IsAnswer small
          (codes "vmalloc")
          (loads_after small fresh)
          (handed_after small fresh)
          addr
          q)
      (dpld_resolver small (codes "vmalloc") fresh)
dpld_resolver_returns_example =
    dpld_resolver_returns small (codes "vmalloc") fresh refl small-IsComplete
