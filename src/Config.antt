-- ===== src/Config.antt =====
-- internal/config/config.go: the configuration. viper, which reads it, is a parameter of the programs
-- that load it; float64 is any type.
use aegis_edr.Prelude.{ℤ, pos, String, Bool, false, []}
use aegis_edr.Policy.{ResponseConfig}

pub record AgentConfig : Type 0 where
  pub id : String
  pub log_level : String
  pub ipc_socket : String
  pub ipc_token : String
  pub heartbeat_interval_seconds : ℤ

pub record TelemetryConfig : Type 0 where
  pub process_monitoring : Bool
  pub file_monitoring : Bool
  pub registry_monitoring : Bool
  pub network_monitoring : Bool
  pub usb_monitoring : Bool

pub record HashReputationConfig : Type 0 where
  pub enabled : Bool
  pub db_path : String

pub record YaraConfig : Type 0 where
  pub enabled : Bool
  pub rules_dir : String

pub record SigmaConfig : Type 0 where
  pub enabled : Bool
  pub rules_dir : String

pub record HeuristicsConfig (Float : Type 0) : Type 0 where
  pub entropy_threshold : Float

pub record EnginesConfig (Float : Type 0) : Type 0 where
  pub hash_reputation : HashReputationConfig
  pub yara : YaraConfig
  pub sigma : SigmaConfig
  pub heuristics : HeuristicsConfig Float

pub record StorageConfig : Type 0 where
  pub path : String
  pub retention_days : ℤ
  pub max_size_mb : ℤ

pub record Config (Float : Type 0) : Type 0 where
  pub agent : AgentConfig
  pub telemetry : TelemetryConfig
  pub engines : EnginesConfig Float
  pub storage : StorageConfig
  pub response : ResponseConfig Float

-- The zero value, for the zero of float64.
abbrev pub zero_config : {Float : Type 0} → Float → Config Float
zero_config z = record {
  agent = record {
    id = "";
    log_level = "";
    ipc_socket = "";
    ipc_token = "";
    heartbeat_interval_seconds = pos 0;
  };
  telemetry = record {
    process_monitoring = false;
    file_monitoring = false;
    registry_monitoring = false;
    network_monitoring = false;
    usb_monitoring = false;
  };
  engines = record {
    hash_reputation = record { enabled = false; db_path = "" };
    yara = record { enabled = false; rules_dir = "" };
    sigma = record { enabled = false; rules_dir = "" };
    heuristics = record { entropy_threshold = z };
  };
  storage = record { path = ""; retention_days = pos 0; max_size_mb = pos 0 };
  response = record {
    auto_mitigation = false;
    risk_threshold = z;
    actions = [];
    quarantine_key = "";
  };
}
