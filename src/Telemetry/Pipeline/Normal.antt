-- ===== src/Telemetry/Pipeline/Normal.antt =====
-- Normalisation reaches a fixed point at once.
use Prim.Native.String.{String}
use aegis_edr.Prelude.{ℕ, ◌≡◌, ◌<◌, ◌≢◌, arith, string_eq, to_lower_idem}
use text.Mathlib.TextEquality.{eq_iff}
use aegis_edr.Telemetry.{RawEvent, Event}
use aegis_edr.Telemetry.Pipeline.{normalize}

-- The event as a raw one, as Replay and the simulations hand it in again.
abbrev pub as_raw : Event → RawEvent
as_raw e = record {
  type = e.type;
  timestamp = e.timestamp;
  process_id = e.process_id;
  parent_id = e.parent_id;
  binary_path = e.binary_path;
  sha256 = e.sha256;
  command_line = e.command_line;
  username = e.username;
  file_path = e.file_path;
  file_action = e.file_action;
  protocol = e.protocol;
  local_ip = e.local_ip;
  local_port = e.local_port;
  remote_ip = e.remote_ip;
  remote_port = e.remote_port;
}

-- Normalising a normalised event changes nothing, at whatever later time, if the clock is past the
-- zero time and a hash is never the empty text.
pub normalize_idem :
    (sha256_hex : String → String) (raw : RawEvent) (now later : ℕ)
    → 0 < now
    → ((path : String) → sha256_hex path ≢ "")
    → normalize sha256_hex (as_raw (normalize sha256_hex raw now)) later
      ≡ normalize sha256_hex raw now
unfolding normalize
normalize_idem sha256_hex raw now later clock hashed = ground (
  arith,
  to_lower_idem raw.type,
  hashed raw.binary_path,
  eq_iff raw.sha256 "",
  eq_iff (sha256_hex raw.binary_path) "",
  eq_iff raw.binary_path "",
)
