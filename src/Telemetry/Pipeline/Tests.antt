-- ===== src/Telemetry/Pipeline/Tests.antt =====
-- The pipeline at concrete inputs: a queue of one place, and a store that takes every statement.
use text.Mathlib.TextLemmas.{cons-ne-nil}
use Prim.Native.String.append
use aegis_edr.Prelude.{
  ℕ, ◌+◌, ◌≡◌, ◌≢◌, refl, sym, ◌∙◌, pos, String, some, List, [], ◌∷◌, ◌++◌, true, false, to_lower,
  ◌^^◌, show_int,
}
use aegis_edr.Dict.{get, put}
use aegis_edr.Channel.{try_send}
use aegis_edr.Storage.{DbProcess}
use aegis_edr.Storage.Sql.{Database, Stmt}
use aegis_edr.Batcher.{contents, Signal}
use aegis_edr.Telemetry.{RawEvent, should_filter}
use aegis_edr.Telemetry.Dedup.{
  new_deduplicator, dedup_key, is_duplicate, is_duplicate_key, is_recent, prune,
}
use aegis_edr.Telemetry.Pipeline.{Pipeline, Arrival, new_pipeline, normalize, ingest, buffer_event}
use aegis_edr.Telemetry.Pipeline.Ingest.{overflowed, Ingested, fate, ingest-fate}
use aegis_edr.Telemetry.Pipeline.Replay.{raw_process}
use aegis_edr.Telemetry.Pipeline.Delivery.{
  Action, ingests, goes, run, accepted, flushed, Hooks, run_delivers,
}

-- Any function that never gives the empty text will do for the hash.
abbrev marked : String → String
marked path = "#" ^^ path

marked-ne-nil : (path : String) → marked path ≢ ""
marked-ne-nil path e = cons-ne-nil _ _ (sym (append.cons _ _ path) ∙ e)

abbrev journal : Database
journal = record {
  Db = List Stmt;
  begins = λ _. true;
  exec = λ db q. some (db ++ q ∷ []);
  commit = λ _ db. some db;
}

abbrev raw : String → RawEvent
raw path = record {
  type = "Process";
  timestamp = 0;
  process_id = pos 3;
  parent_id = pos 1;
  binary_path = path;
  sha256 = "";
  command_line = "";
  username = "root";
  file_path = "";
  file_action = "";
  protocol = "";
  local_ip = "";
  local_port = pos 0;
  remote_ip = "";
  remote_port = pos 0;
}

abbrev arrival : String → ℕ → Arrival
arrival path now = record { raw = raw path; stamped = now; seen = now }

-- The hooks count what they see.
abbrev fresh : Pipeline (List Stmt) ℕ
fresh = record (new_pipeline 1 (some []) 10 ("/proc" ∷ []) 0) {
  correlation_hook = some (λ e n. n + 1);
}

abbrev full : Pipeline (List Stmt) ℕ
full = ingest marked fresh (arrival "/bin/a" 100)

ingest-fate_example :
    Ingested marked fresh (arrival "/bin/a" 100) (fate marked fresh (arrival "/bin/a" 100)) full
ingest-fate_example = ingest-fate marked fresh (arrival "/bin/a" 100)

full_overflows : fate marked full (arrival "/bin/b" 101) ≡ overflowed
unfolding fate ingest new_pipeline new_deduplicator is_duplicate is_duplicate_key is_recent prune
    dedup_key normalize should_filter buffer_event to_lower try_send get put show_int
full_overflows = refl

abbrev history : List Action
history =
    ingests (arrival "/bin/a" 100)
    ∷ goes Signal.arrives
    ∷ goes Signal.ticks
    ∷ ingests (arrival "/bin/b" 100)
    ∷ []

run_delivers_example :
    (flushed marked journal fresh history ++ contents (run marked journal fresh history).loop
      ≡ contents fresh.loop ++ accepted marked journal fresh history)
    × Hooks marked journal fresh
        (flushed marked journal fresh history)
        (run marked journal fresh history)
run_delivers_example = run_delivers marked journal fresh history

abbrev row : String → ℕ → DbProcess
row user at = record {
  binary_path = "/bin/sh";
  command_line = "";
  username = user;
  launched_at = at;
}

replay_first :
    (is_duplicate (new_deduplicator 10) (normalize marked (raw_process (row "root" 5)) 100) 100).1
    ≡ false
unfolding is_duplicate is_duplicate_key new_deduplicator is_recent get
replay_first = refl
