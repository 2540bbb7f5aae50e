-- ===== src/Telemetry.antt =====
-- internal/telemetry/pipeline.go: raw events are normalised, deduplicated, filtered and queued, and
-- the goroutine of `Start` stores them and calls the hooks.
pub mod Dedup
pub mod Pipeline
use aegis_edr.Prelude.{
  ℕ, ℤ, String, List, [], ◌∷◌, Bool, true, false, if◌then◌else◌, ◌==◌, string_eq, has_prefix, any,
}

pub record RawEvent : Type 0 where
  pub type : String
  -- Nanoseconds since the zero time, which `IsZero` tests for.
  pub timestamp : ℕ
  pub process_id : ℤ
  pub parent_id : ℤ
  pub binary_path : String
  pub sha256 : String
  pub command_line : String
  pub username : String
  pub file_path : String
  pub file_action : String
  pub protocol : String
  pub local_ip : String
  pub local_port : ℤ
  pub remote_ip : String
  pub remote_port : ℤ

pub record Event : Type 0 where
  pub id : ℕ
  pub type : String
  pub timestamp : ℕ
  pub process_id : ℤ
  pub parent_id : ℤ
  pub binary_path : String
  pub sha256 : String
  pub command_line : String
  pub username : String
  pub file_path : String
  pub file_action : String
  pub protocol : String
  pub local_ip : String
  pub local_port : ℤ
  pub remote_ip : String
  pub remote_port : ℤ

-- Filter: file events under one of the excluded path prefixes.
abbrev pub Filter : Type 0
Filter = List String

unfoldable pub should_filter : Filter → Event → Bool
should_filter exclude_paths e =
    if e.type == "file" then any (λ prefix. has_prefix e.file_path prefix) exclude_paths else false
