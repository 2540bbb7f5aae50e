-- ===== src/Plugins.antt =====
-- pkg/sdk/plugin/plugin.go: the manager of the plugins. A plugin acts on a world of its own, and
-- its calls may fail. The WASM runtime behind ExecutePlugin is not modelled.
pub mod Registry
mod Tests
use aegis_edr.Prelude.{
  ℕ, String, Option, none, some, List, [], ◌∷◌, Bool, true, false, if◌then◌else◌, ◌==◌, string_eq,
  not, any,
}
use aegis_edr.Dict.{Dict, empty, get, put, remove}

abbrev pub api_version : String
api_version = "1.0.0"

pub record PluginMetadata : Type 0 where
  pub name : String
  pub version : String
  pub api_version : String
  pub capabilities : List String

-- AegisPlugin: Metadata, Init, Start, Stop and Execute; `none` is the nil error.
pub record Plugin (World Failure : Type 0) : Type 0 where
  pub metadata : PluginMetadata
  pub init : World → World × Option Failure
  pub start : World → World × Option Failure
  pub stop : World → World × Option Failure
  pub execute : String → String → World → World × Option Failure × String

pub record Manager (World Failure : Type 0) : Type 0 where
  pub plugins : Dict String (Plugin World Failure)

pub data PluginError (Failure : Type 0) : Type 0 where
  empty_name : PluginError Failure
  version_mismatch not_registered not_found : String → PluginError Failure
  not_supported : String → String → PluginError Failure
  init_failed start_failed execute_failed : Failure → PluginError Failure

-- What a call leaves: the manager, the world and the error.
abbrev pub Outcome : Type 0 → Type 0 → Type 0
Outcome World Failure = Manager World Failure × World × Option (PluginError Failure)

module _ {World Failure : Type 0} where
  unfoldable pub new_manager : Manager World Failure
  new_manager = record { plugins = empty }

  -- Start, once Init has succeeded.
  unfoldable pub start_plugin :
      Manager World Failure → Plugin World Failure → World × Option Failure → Outcome World Failure
  start_plugin m p (w, some e) = (m, w, some (start_failed e))
  start_plugin m p (w, none) = (record { plugins = put m.plugins p.metadata.name p }, w, none)

  unfoldable pub init_plugin :
      Manager World Failure → Plugin World Failure → World × Option Failure → Outcome World Failure
  init_plugin m p (w, some e) = (m, w, some (init_failed e))
  init_plugin m p (w, none) = start_plugin m p (p.start w)

  unfoldable pub register_plugin :
      Manager World Failure → Plugin World Failure → World → Outcome World Failure
  register_plugin m p w =
      if p.metadata.name == ""
      then (m, w, some empty_name)
      else if not (p.metadata.api_version == api_version)
      then (m, w, some (version_mismatch p.metadata.api_version))
      else init_plugin m p (p.init w)

  -- The error of Stop is passed over.
  unfoldable pub unregister_plugin : Manager World Failure → String → World → Outcome World Failure
  unregister_plugin m name w = elim (get m.plugins name) [
    | none ↦ (m, w, some (not_registered name))
    | some p ↦ (record { plugins = remove m.plugins name }, (p.stop w).0, none)
  ]

  unfoldable pub hot_reload_plugin :
      Manager World Failure → Plugin World Failure → World → Outcome World Failure
  hot_reload_plugin m p w =
      let unregistered = unregister_plugin m p.metadata.name w in
      register_plugin unregistered.0 p unregistered.1

  unfoldable pub execution :
      World × Option Failure × String → World × Option (PluginError Failure) × String
  execution (w, none, out) = (w, none, out)
  execution (w, some e, out) = (w, some (execute_failed e), out)

  unfoldable pub negotiate_and_execute :
      Manager World Failure
      → String
      → String
      → String
      → World
      → World × Option (PluginError Failure) × String
  negotiate_and_execute m name capability input w = elim (get m.plugins name) [
    | none ↦ (w, some (not_found name), "")
    | some p ↦
        if any (λ c. c == capability) p.metadata.capabilities
        then execution (p.execute capability input w)
        else (w, some (not_supported name capability), "")
  ]
