-- ===== src/Plugins/Tests.antt =====
-- A manager at concrete inputs: the world is the list of the calls that the plugins got.
use aegis_edr.Prelude.{
  ◌≡◌, ◌≢◌, refl, String, none, some, List, [], ◌∷◌, ◌++◌, false, string_eq, arith, ◌==◌,
}
use aegis_edr.Dict.{get, put}
use aegis_edr.Plugins.{
  Plugin, Manager, new_manager, version_mismatch, start_plugin, init_plugin, register_plugin,
  hot_reload_plugin, negotiate_and_execute, execution,
}
use aegis_edr.Plugins.Registry.{
  registers, reloads, unregisters, IsRegistry, run, run-IsRegistry, hot_reload_loses,
}

abbrev plugin : String → Plugin (List String) String
plugin wanted = record {
  metadata = record {
    name = "p";
    version = "1";
    api_version = wanted;
    capabilities = "Intel" ∷ [];
  };
  init = λ w. (w ++ "init" ∷ [], none);
  start = λ w. (w ++ "start" ∷ [], none);
  stop = λ w. (w ++ "stop" ∷ [], none);
  execute = λ capability input w. (w ++ "execute" ∷ [], none, input);
}

abbrev registered : Manager (List String) String
registered = (register_plugin new_manager (plugin "1.0.0") []).0

echoes : negotiate_and_execute registered "p" "Intel" "in" [] ≡ ("execute" ∷ [], none, "in")
unfolding negotiate_and_execute execution register_plugin init_plugin start_plugin new_manager get
    put
echoes = refl

run-IsRegistry_example :
    IsRegistry
      (run new_manager []
        (registers (plugin "1.0.0") ∷ reloads (plugin "2.0.0") ∷ unregisters "p" ∷ [])).0
run-IsRegistry_example =
    run-IsRegistry [] (registers (plugin "1.0.0") ∷ reloads (plugin "2.0.0") ∷ unregisters "p" ∷ [])

is_registered : get registered.plugins "p" ≡ some (plugin "1.0.0")
unfolding register_plugin init_plugin start_plugin new_manager get put
is_registered = refl

differs : (s t : String) → ◌==◌ s t ≡ false → s ≢ t
differs s t h e = ground (arith, (string_eq.same_iff s t).1 e, h)

hot_reload_loses_example :
    (get (hot_reload_plugin registered (plugin "2.0.0") []).0.plugins "p" ≡ none)
    × ((hot_reload_plugin registered (plugin "2.0.0") []).1 ≡ "stop" ∷ [])
    × ((hot_reload_plugin registered (plugin "2.0.0") []).2 ≡ some (version_mismatch "2.0.0"))
hot_reload_loses_example =
    hot_reload_loses registered (plugin "2.0.0") (plugin "1.0.0") [] is_registered
      (differs "p" "" refl) (differs "2.0.0" "1.0.0" refl)
