-- ===== src/Telemetry/Pipeline/Replay.antt =====
-- Replay, which forgets the process, and what the deduplicator then takes for one another.
use aegis_edr.Prelude.{
  ℕ, ◌+◌, ◌-◌, ◌^◌, ◌%◌, ◌≡◌, refl, ap, sym, ◌∙◌, ℤ, pos, negsuc, String, Option, none, some, List,
  [], ◌++◌, map, false, ltb, string_eq, if◌then◌else◌, to_lower, ◌^^◌, show_int,
}
use aegis_edr.Storage.{DbProcess, DbFileModification, DbNetworkConnection}
use aegis_edr.Telemetry.{RawEvent}
use aegis_edr.Telemetry.Dedup.{Deduplicator, dedup_key, is_duplicate}
use aegis_edr.Telemetry.Dedup.Keys.{is_duplicate_again}
use aegis_edr.Telemetry.Pipeline.{Pipeline, normalize, ingest_all}

-- What Replay makes of a row, to be ingested again.
abbrev no_event : RawEvent
no_event = record {
  type = "";
  timestamp = 0;
  process_id = pos 0;
  parent_id = pos 0;
  binary_path = "";
  sha256 = "";
  command_line = "";
  username = "";
  file_path = "";
  file_action = "";
  protocol = "";
  local_ip = "";
  local_port = pos 0;
  remote_ip = "";
  remote_port = pos 0;
}

unfoldable pub raw_process : DbProcess → RawEvent
raw_process pr = record no_event {
  type = "process";
  timestamp = pr.launched_at;
  binary_path = pr.binary_path;
  command_line = pr.command_line;
  username = pr.username;
}

unfoldable pub raw_file : DbFileModification → RawEvent
raw_file fl = record no_event {
  type = "file";
  timestamp = fl.occurred_at;
  file_path = fl.file_path;
  file_action = fl.action;
}

-- int32(port)
abbrev pub to_int32 : ℤ → ℤ
to_int32 (pos n) =
    let low = n % 2 ^ 32 in if ltb low (2 ^ 31) then pos low else negsuc (2 ^ 32 - low - 1)
to_int32 (negsuc n) =
    let low = n % 2 ^ 32 in if ltb low (2 ^ 31) then negsuc low else pos (2 ^ 32 - low - 1)

unfoldable pub raw_network : DbNetworkConnection → RawEvent
raw_network nt = record no_event {
  type = "network";
  timestamp = nt.occurred_at;
  protocol = nt.protocol;
  local_ip = nt.local_ip;
  local_port = to_int32 nt.local_port;
  remote_ip = nt.remote_ip;
  remote_port = to_int32 nt.remote_port;
}

-- A query that fails contributes nothing.
rows : {A : Type 0} → Option (List A) → (A → RawEvent) → List RawEvent
rows none f = []
rows (some l) f = map f l

-- The raw events that Replay ingests, from the answers of its three queries.
pub replayed :
    Option (List DbProcess)
    → Option (List DbFileModification)
    → Option (List DbNetworkConnection)
    → List RawEvent
unfolding rows
replayed processes files connections =
    rows processes raw_process ++ rows files raw_file ++ rows connections raw_network

-- Replay of a pipeline whose store is set, while the clock reads `clock` all the time; `none` is
-- the error that the store is not initialised.
pub replay :
    {Db Hooked : Type 0}
    → (String → String)
    → (Db
        → Option (List DbProcess)
          × Option (List DbFileModification)
          × Option (List DbNetworkConnection))
    → ℕ
    → Pipeline Db Hooked
    → Option (Pipeline Db Hooked)
replay sha256_hex query clock p = elim p.store [
  | none ↦ none
  | some db ↦
      let (processes, files, connections) = query db in
      some (
        ingest_all sha256_hex p (
          map (λ raw. record { raw = raw; stamped = clock; seen = clock })
            (replayed processes files connections)))
]

replayed_key :
    (sha256_hex : String → String) (pr : DbProcess) (now : ℕ)
    → dedup_key (normalize sha256_hex (raw_process pr) now)
      ≡ "proc:" ^^ show_int (pos 0) ^^ ":" ^^ pr.binary_path
unfolding dedup_key normalize raw_process to_lower
replayed_key sha256_hex pr now = refl

-- Two process rows with one binary path have one key when they are replayed, however long ago and
-- by whomever they were launched: after the first, the second is a duplicate for the ttl.
pub replay_collapses :
    (sha256_hex : String → String) (d : Deduplicator) (p q : DbProcess) (now later : ℕ)
    → p.binary_path ≡ q.binary_path
    → (is_duplicate d (normalize sha256_hex (raw_process p) now) now).1 ≡ false
    → (is_duplicate
        (is_duplicate d (normalize sha256_hex (raw_process p) now) now).0
        (normalize sha256_hex (raw_process q) later)
        later).1
      ≡ ltb later (now + d.ttl)
replay_collapses sha256_hex d p q now later same through =
    is_duplicate_again d (normalize sha256_hex (raw_process p) now)
      (normalize sha256_hex (raw_process q) later) now later through
      (replayed_key sha256_hex q later
        ∙ ap (λ path. "proc:" ^^ show_int (pos 0) ^^ ":" ^^ path) (sym same)
        ∙ sym (replayed_key sha256_hex p now))
