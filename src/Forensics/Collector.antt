-- ===== src/Forensics/Collector.antt =====
-- internal/forensics/collector.go: a package of evidence, its archive and its report. JSON, SHA-256, the
-- files and the printing of times are parameters.
mod Archive
mod Tests
use aegis_edr.Prelude.{
  ℕ, ◌+◌, ◌-◌, ℤ, pos, String, Option, none, some, List, [], ◌∷◌, Bool, true, false, if◌then◌else◌,
  ◌^^◌, show_nat, length, ◌*◌,
}
use aegis_edr.Forensics.{TimelineEvent, Queries, build_timeline}

pub record ProcessArtifact : Type 0 where
  pub pid : ℤ
  pub name : String
  pub path : String
  pub command_line : String

pub record ModuleArtifact : Type 0 where
  pub process_pid : ℤ
  pub module_name : String
  pub module_path : String

pub record ServiceArtifact : Type 0 where
  pub name : String
  pub status : String
  pub type : String

pub record DriverArtifact : Type 0 where
  pub name : String
  pub path : String

pub record NetworkArtifact : Type 0 where
  pub protocol : String
  pub local : String
  pub remote : String
  pub state : String

pub record StartupArtifact : Type 0 where
  pub name : String
  pub path : String

pub record EventLogArtifact : Type 0 where
  pub provider : String
  pub event_id : ℤ
  pub timestamp : ℕ
  pub message : String

pub record RegistryArtifact : Type 0 where
  pub key_path : String
  pub value : String

pub record EvidencePackage : Type 0 where
  pub timestamp : ℕ
  pub processes : List ProcessArtifact
  pub modules : List ModuleArtifact
  pub services : List ServiceArtifact
  pub drivers : List DriverArtifact
  pub network : List NetworkArtifact
  pub startup : List StartupArtifact
  pub event_logs : List EventLogArtifact
  pub registry : List RegistryArtifact
  pub timeline : List TimelineEvent
  pub package_hash : String

-- Five minutes in nanoseconds.
abbrev five_minutes : ℕ
five_minutes = 5 * 60 * 1000000000

-- CollectEvidence, whose error is always nil: all but the timeline is fixed. `now` is later than
-- five minutes after the zero time, and the builder can be nil.
unfoldable pub collect_evidence :
    {Db : Type 0} → Queries Db → Option Db → ℕ → ℕ → ℕ → EvidencePackage
collect_evidence {Db} queries builder now start end = record {
  timestamp = now;
  processes =
      record {
        pid = pos 100;
        name = "systemd";
        path = "/usr/lib/systemd/systemd";
        command_line = "--system";
      }
      ∷ record {
        pid = pos 456;
        name = "aegisd";
        path = "/usr/local/bin/aegisd";
        command_line = "--config /etc/aegis.yaml";
      }
      ∷ [];
  modules =
      record { process_pid = pos 456; module_name = "libc.so"; module_path = "/usr/lib/libc.so" }
      ∷ [];
  services = record { name = "aegis"; status = "running"; type = "systemd" } ∷ [];
  drivers = record { name = "ext4"; path = "kernel" } ∷ [];
  network =
      record { protocol = "tcp"; local = "127.0.0.1:50051"; remote = "0.0.0.0:0"; state = "listen" }
      ∷ [];
  startup = record { name = "aegis-boot"; path = "/etc/init.d/aegis" } ∷ [];
  event_logs =
      record {
        provider = "systemd";
        event_id = pos 1;
        timestamp = now - five_minutes;
        message = "Started Aegis EDR Daemon";
      }
      ∷ [];
  registry =
      record {
        key_path = "HKLM\\Software\\Microsoft\\Windows\\CurrentVersion\\Run";
        value = "aegis";
      }
      ∷ [];
  timeline = events_of builder;
  package_hash = "";
}
  where
    events_of : Option Db → List TimelineEvent
    events_of none = []
    events_of (some db) = build_timeline queries db start end

-- `encoding/json`, `crypto/sha256` in hexadecimal, and os.WriteFile, whose false is an error.
pub record Outside (Files : Type 0) : Type 0 where
  pub marshal : EvidencePackage → Option String
  pub sha256_hex : String → String
  pub write_file : Files → String → String → Files × Bool
  pub rfc3339 : ℕ → String

module _ {Files : Type 0} (outside : Outside Files) where
  open outside use {marshal, sha256_hex, write_file, rfc3339}

  -- The second write puts the hash into the archive; its error is dropped.
  rewrite_archive : EvidencePackage → Files → String → Files
  rewrite_archive pkg files path = elim (marshal pkg) [
    | none ↦ files
    | some data_ ↦ (write_file files path data_).0
  ]

  -- PackageEvidence: the package, the files, and the hash; none is an error.
  pub package_evidence : EvidencePackage → Files → String → EvidencePackage × Files × Option String
  package_evidence pkg files path = elim (marshal pkg) [
    | none ↦ (pkg, files, none)
    | some data_ ↦
        let (files', ok) = write_file files path data_ in
        let hashed = record pkg { package_hash = sha256_hex data_ } in
        if ok
        then (hashed, rewrite_archive hashed files' path, some (sha256_hex data_))
        else (pkg, files', none)
  ]

  count_line : String → ℕ → String
  count_line label n = "  - " ^^ label ^^ ": " ^^ show_nat n ^^ " captured\n"

  event_lines : ℕ → List TimelineEvent → String
  event_lines i [] = ""
  event_lines i (ev ∷ events) =
      "  ["
      ^^ show_nat (i + 1)
      ^^ "] ["
      ^^ rfc3339 ev.timestamp
      ^^ "] ["
      ^^ ev.category
      ^^ "] "
      ^^ ev.description
      ^^ "\n"
      ^^ event_lines (i + 1) events

  -- The text of GenerateForensicReport.
  pub forensic_report : EvidencePackage → String
  forensic_report pkg =
      "AEGIS DIGITAL FORENSICS ACQUISITION REPORT\n"
      ^^ "=========================================\n"
      ^^ "Acquisition Time: "
      ^^ rfc3339 pkg.timestamp
      ^^ "\n"
      ^^ "Evidence Hash (SHA-256): "
      ^^ pkg.package_hash
      ^^ "\n\n"
      ^^ "SYSTEM SUMMARY:\n"
      ^^ count_line "Processes" (length pkg.processes)
      ^^ count_line "Modules  " (length pkg.modules)
      ^^ count_line "Services " (length pkg.services)
      ^^ count_line "Drivers  " (length pkg.drivers)
      ^^ count_line "Network  " (length pkg.network)
      ^^ count_line "Startup  " (length pkg.startup)
      ^^ count_line "EventLogs" (length pkg.event_logs)
      ^^ count_line "Registry " (length pkg.registry)
      ^^ count_line "Timeline " (length pkg.timeline)
      ^^ "\n"
      ^^ "TIMELINE EVENTS REPORT:\n"
      ^^ event_lines 0 pkg.timeline

  pub generate_forensic_report : EvidencePackage → Files → String → Files × Bool
  generate_forensic_report pkg files path = write_file files path (forensic_report pkg)
