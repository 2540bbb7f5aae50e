-- ===== src/Daemon.antt =====
-- cmd/aegisd/main.go: the daemon starts its parts, prunes the store and stops. The files are those of
-- Response.Quarantine; the configuration, the logger, the store, the socket and the random source are
-- parameters, and gRPC serves until a signal comes.
pub mod Login
mod Tests
use aegis_edr.Prelude.{
  ℕ, ◌-◌, ◌*◌, ◌/◌, ◌%◌, zero, String, Bool, true, false, if◌then◌else◌, Option, none, some, List,
  [], ◌∷◌, ◌==◌, string_eq, nat_eq,
}
use Prim.Native.String.{len}
use aegis_edr.Config.{Config, zero_config}
use aegis_edr.Heuristics.Lines.{hex_digit}
use aegis_edr.Response.Quarantine
use aegis_edr.Response.Quarantine.{Files, write_file, remove_file}
use aegis_edr.Server.{Server, ProcessKiller, NetworkIsolator, Quarantiner}
use aegis_edr.Storage.Tables.{Tables, Engine, prune_old_telemetry}

abbrev pub token_path : String
token_path = "/tmp/aegis.token"

abbrev pub fallback_key : String
fallback_key = "12345678901234567890123456789012"

abbrev pub fallback_token : String
fallback_token = "fallback-secure-token-1234567890"

-- hex.EncodeToString of a list of bytes.
unfoldable pub encode_to_string : List ℕ → String
encode_to_string [] = ""
encode_to_string (b ∷ bytes) =
    String.◌∷◌ (hex_digit (b / 16)) (String.◌∷◌ (hex_digit (b % 16)) (encode_to_string bytes))

-- A made-up token, of the random bytes if there are any.
unfoldable pub generated : Option (List ℕ) → String
unfolding encode_to_string
generated (some bytes) = encode_to_string bytes
generated none = fallback_token

pub record System (Float Db World Failure : Type 0) : Type 0 where
  -- config.LoadConfig("configs/aegis.yaml")
  pub load_config : Option (Config Float)
  pub float_zero : Float
  pub logger_fails : String → Bool
  -- storage.NewStorage("telemetry.db")
  pub new_storage : Option Db
  -- net.Listen of a Unix socket, which makes a file.
  pub listen : Files → String → Option Files
  -- rand.Read of 16 bytes
  pub random : Option (List ℕ)
  pub disk : Quarantine.System
  pub killer : ProcessKiller World Failure
  pub isolator : NetworkIsolator World Failure
  pub new_quarantiner : String → Quarantiner World Failure

-- The daemon that listens: its socket, the key of its quarantine and its server.
pub record Daemon (Db World Failure : Type 0) : Type 0 where
  pub ipc_path : String
  pub quarantine_key : String
  pub server : Server Db World Failure

-- The status with which it exits, or the daemon.
pub data Startup (Db World Failure : Type 0) : Type 0 where
  exits : ℕ → Startup Db World Failure
  serves : Daemon Db World Failure → Startup Db World Failure

-- Another length than 32 takes the fallback.
unfoldable pub choose_key : String → String
choose_key key = if len key == 32 then key else fallback_key

module _ {Float Db World Failure : Type 0} (system : System Float Db World Failure) where
  open system use {load_config, float_zero, logger_fails, new_storage, listen, random, disk, killer}
  open system use {isolator, new_quarantiner}

  -- The configuration, or the defaults where it does not load.
  unfoldable pub loaded : Config Float
  loaded = elim load_config [
    | some cfg ↦ cfg
    | none ↦
        let z = zero_config float_zero in
        record z { agent = record z.agent { log_level = "info"; ipc_socket = "/tmp/aegis.sock" } }
  ]

  -- The token of the configuration, or one that is made up and written to a file.
  unfoldable pub choose_token : String → Files → Files × String
  unfolding generated write_file
  choose_token token files =
      if token == ""
      then ((write_file disk files token_path (generated random)).0, generated random)
      else (files, token)

  -- api.NewServer of the daemon's parts.
  abbrev pub server_of : Db → String → String → Server Db World Failure
  server_of store key token = record {
    store = some store;
    killer = some killer;
    isolator = some isolator;
    quarantiner = some (new_quarantiner key);
    token = token;
  }

  abbrev pub daemon_of : Db → String → String → String → Daemon Db World Failure
  daemon_of store path key token = record {
    ipc_path = path;
    quarantine_key = key;
    server = server_of store key token;
  }

  -- `main` up to where it serves.
  unfoldable pub start : Files → Files × Startup Db World Failure
  unfolding loaded choose_key choose_token remove_file
  start files =
      let cfg = loaded in
      let path = cfg.agent.ipc_socket in
      if logger_fails cfg.agent.log_level then (files, exits 1) else elim new_storage [
        | none ↦ (files, exits 1)
        | some store ↦
            let removed = (remove_file disk files path).0 in
            elim (listen removed path) [
              | none ↦ (removed, exits 1)
              | some listening ↦
                  let key = choose_key cfg.response.quarantine_key in
                  let (files', token) = choose_token cfg.agent.ipc_token listening in
                  (files', serves (daemon_of store path key token))
            ]
      ]

  -- After the signal, when the pruning is cancelled and the server has stopped.
  unfoldable pub shutdown : Daemon Db World Failure → Files → Files
  unfolding remove_file
  shutdown d files = (remove_file disk (remove_file disk files d.ipc_path).0 token_path).0

-- time.Now().Add(-7 * 24 * time.Hour)
abbrev pub week_before : ℕ → ℕ
week_before now = now - 7 * 24 * 3600 * 1000000000

-- The goroutine that prunes, at the times at which it comes round; an error does not end it.
unfoldable pub prune_loop : Engine → Tables → List ℕ → Tables
prune_loop engine t [] = t
prune_loop engine t (now ∷ ticks) =
    prune_loop engine (prune_old_telemetry engine t (week_before now)).0 ticks
