-- ===== src/Client.antt =====
-- cmd/aegis/main.go: the client, which asks the daemon with its token, and reads the database of the
-- daemon itself to investigate, to trace and to hunt.
pub mod Queries
pub mod Evidence
pub mod Lineage
pub mod Commands
pub mod Status
mod Tests
use aegis_edr.Prelude.{
  ℕ, String, Bool, true, false, if◌then◌else◌, Option, none, some, List, [], ◌∷◌, ◌++◌, ◌==◌,
  string_eq,
}
use aegis_edr.Config.{Config, zero_config}
use aegis_edr.Dict.{Dict, get, put}
use aegis_edr.Response.Quarantine
use aegis_edr.Response.Quarantine.{Files, read_file}

-- getGRPCClient: the configuration, or the defaults where it does not load.
unfoldable pub client_config : {Float : Type 0} → Float → Option (Config Float) → Config Float
client_config z (some cfg) = cfg
client_config z none =
    let cfg = zero_config z in
    record cfg { agent = record cfg.agent { ipc_socket = "/tmp/aegis.sock" } }

-- The token of the configuration, or of the daemon's file.
unfoldable pub client_token : Quarantine.System → Files → String → String
unfolding read_file
client_token disk files token =
    if token == ""
    then elim (read_file disk files "/tmp/aegis.token") [ some data_ ↦ data_ | none ↦ token ]
    else token

-- metadata.AppendToOutgoingContext
unfoldable pub append_to : Dict String (List String) → String → String → Dict String (List String)
append_to md key value = elim (get md key) [
  | none ↦ put md key (value ∷ [])
  | some values ↦ put md key (values ++ value ∷ [])
]

-- Both interceptors: what a request carries.
unfoldable pub outgoing : String → Dict String (List String) → Dict String (List String)
unfolding append_to
outgoing token md = if token == "" then md else append_to md "x-aegis-token" token

-- The database that investigate, trace and hunt open.
unfoldable pub database_path : {Float : Type 0} → Option (Config Float) → String
database_path none = "telemetry.db"
database_path (some cfg) = if cfg.storage.path == "" then "telemetry.db" else cfg.storage.path
