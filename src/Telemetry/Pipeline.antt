-- ===== src/Telemetry/Pipeline.antt =====
-- The pipeline of internal/telemetry/pipeline.go. SHA-256, the clock, the database and what the
-- hooks do are arguments; the counters are uint64.
pub mod Ingest
pub mod Delivery
pub mod Retry
pub mod Replay
pub mod Normal
mod Tests
use aegis_edr.Prelude.{
  ℕ, zero, suc, ◌+◌, ◌%◌, ◌^◌, ◌-◌, ltb, map, ℤ, pos, negsuc, String, Option, none, some, List, [],
  ◌∷◌, ◌++◌, increment, Bool, true, false, not, ◌&&◌, if◌then◌else◌, ◌==◌, string_eq, nat_eq,
  to_lower, length,
}
use aegis_edr.Channel.{Channel, make, try_send}
use aegis_edr.Storage.Sql.{Database}
use aegis_edr.Storage.{
  DbProcess, DbFileModification, DbNetworkConnection, insert_process, insert_file_modification,
  insert_network_connection,
}
use aegis_edr.Batcher
use aegis_edr.Batcher.{Loop, Phase, Signal}
use aegis_edr.Telemetry.{RawEvent, Event, Filter, should_filter}
use aegis_edr.Telemetry.Dedup.{Deduplicator, new_deduplicator, is_duplicate}

pub record Metrics : Type 0 where
  pub ingested_count : ℕ
  pub normalized_count : ℕ
  pub deduplicated : ℕ
  pub filtered_count : ℕ
  pub buffered_count : ℕ
  pub persisted_count : ℕ

-- `Hooked` is what the hooks act on.
pub record Pipeline (Db Hooked : Type 0) : Type 0 where
  -- `queue`, and the goroutine's `batch` and place in its loops.
  pub loop : Loop Event
  pub open loop use *
  pub store : Option Db
  pub dedup : Deduplicator
  pub filter : Filter
  pub metrics : Metrics
  pub correlation_hook : Option (Event → Hooked → Hooked)
  pub analytics_hook : Option (Event → Hooked → Hooked)
  pub hooked : Hooked

module _ {Db Hooked : Type 0} where
  pub new_pipeline : ℕ → Option Db → ℕ → List String → Hooked → Pipeline Db Hooked
  new_pipeline capacity store dedup_ttl excludes hooked = record {
    loop = record { queue = make capacity; batch = []; phase = Phase.running };
    store = store;
    dedup = new_deduplicator dedup_ttl;
    filter = excludes;
    metrics = record {
      ingested_count = 0;
      normalized_count = 0;
      deduplicated = 0;
      filtered_count = 0;
      buffered_count = 0;
      persisted_count = 0;
    };
    correlation_hook = none;
    analytics_hook = none;
    hooked = hooked;
  }

  pub set_correlation_hook : Pipeline Db Hooked → (Event → Hooked → Hooked) → Pipeline Db Hooked
  set_correlation_hook p hook = record p { correlation_hook = some hook }

  pub set_analytics_hook : Pipeline Db Hooked → (Event → Hooked → Hooked) → Pipeline Db Hooked
  set_analytics_hook p hook = record p { analytics_hook = some hook }

-- The event that Ingest makes of a raw one at a time of the clock.
pub normalize : (String → String) → RawEvent → ℕ → Event
normalize sha256_hex raw now = record {
  id = 0;
  type = to_lower raw.type;
  timestamp = if raw.timestamp == 0 then now else raw.timestamp;
  process_id = raw.process_id;
  parent_id = raw.parent_id;
  binary_path = raw.binary_path;
  sha256 =
      if raw.sha256 == "" && not (raw.binary_path == "")
      then sha256_hex raw.binary_path
      else raw.sha256;
  command_line = raw.command_line;
  username = raw.username;
  file_path = raw.file_path;
  file_action = raw.file_action;
  protocol = raw.protocol;
  local_ip = raw.local_ip;
  local_port = raw.local_port;
  remote_ip = raw.remote_ip;
  remote_port = raw.remote_port;
}

-- A call of Ingest: the raw event, and the clock at its two readings.
pub record Arrival : Type 0 where
  pub raw : RawEvent
  pub stamped : ℕ
  pub seen : ℕ

module _ (sha256_hex : String → String) {Db Hooked : Type 0} where
  buffer_event : Pipeline Db Hooked → Channel Event × Bool → Pipeline Db Hooked
  buffer_event p (c, true) = record p {
    loop = record p.loop { queue = c };
    metrics = record p.metrics { buffered_count = increment p.metrics.buffered_count };
  }
  buffer_event p (c, false) = p

  pub ingest : Pipeline Db Hooked → Arrival → Pipeline Db Hooked
  unfolding buffer_event
  ingest p a =
      let normalized = normalize sha256_hex a.raw a.stamped in
      let counted : Metrics = record p.metrics {
        ingested_count = increment p.metrics.ingested_count;
        normalized_count = increment p.metrics.normalized_count;
      } in
      let (dedup, duplicate) = is_duplicate p.dedup normalized a.seen in
      if duplicate
      then record p {
        dedup = dedup;
        metrics = record counted { deduplicated = increment counted.deduplicated };
      }
      else if should_filter p.filter normalized
      then record p {
        dedup = dedup;
        metrics = record counted { filtered_count = increment counted.filtered_count };
      }
      else buffer_event (record p { dedup = dedup; metrics = counted })
          (try_send p.queue normalized)

  pub ingest_all : Pipeline Db Hooked → List Arrival → Pipeline Db Hooked
  ingest_all p [] = p
  ingest_all p (a ∷ rest) = ingest_all (ingest p a) rest

-- A hook that is not set is not called.
abbrev pub call : {Hooked : Type 0} → Option (Event → Hooked → Hooked) → Event → Hooked → Hooked
call none e h = h
call (some hook) e h = hook e h

module _ (sql : Database) where
  open sql use {Db}

  -- The insertion for an event: none for a type that the switch does not name, which is no error.
  pub insert_event : Db → Event → Option Db
  insert_event db e =
      if e.type == "process"
      then insert_process sql db e.parent_id e.binary_path e.sha256 e.command_line e.username
      else if e.type == "file"
      then insert_file_modification sql db e.process_id e.file_path e.file_action
      else if e.type == "network"
      then insert_network_connection sql db e.process_id e.protocol e.local_ip e.local_port
          e.remote_ip e.remote_port
      else some db

module _ (sql : Database) {Hooked : Type 0} where
  open sql use {Db}

  persist : Pipeline Db Hooked → Event → Pipeline Db Hooked
  persist p e = elim p.store [
    | none ↦ p
    | some db ↦ elim (insert_event sql db e) [
      | none ↦ p
      | some db' ↦ record p {
        store = some db';
        metrics = record p.metrics { persisted_count = increment p.metrics.persisted_count };
      }
    ]
  ]

  -- One round of the loop of flushBatch.
  pub deliver : Pipeline Db Hooked → Event → Pipeline Db Hooked
  unfolding persist
  deliver p e =
      let stored = persist p e in
      record stored { hooked = call p.analytics_hook e (call p.correlation_hook e p.hooked) }

  pub flush_batch : Pipeline Db Hooked → List Event → Pipeline Db Hooked
  flush_batch p [] = p
  flush_batch p (e ∷ batch) = flush_batch (deliver p e) batch

  settle : Pipeline Db Hooked → Loop Event × Option (List Event) → Pipeline Db Hooked
  settle p (l, none) = record p { loop = l }
  settle p (l, some batch) = flush_batch (record p { loop = l }) batch

  -- One round of the goroutine's loop.
  pub serve : Pipeline Db Hooked → Signal → Pipeline Db Hooked
  unfolding settle
  serve p s = settle p (Batcher.step s p.loop)

  pub get_metrics : Pipeline Db Hooked → Metrics
  get_metrics p = p.metrics

  flush_all : Pipeline Db Hooked → List (List Event) → Pipeline Db Hooked
  flush_all p [] = p
  flush_all p (b ∷ bs) = flush_all (flush_batch p b) bs

  -- Stop: `closeChan` is closed, and the goroutine is waited for, while nothing is ingested.
  pub stop : Pipeline Db Hooked → Pipeline Db Hooked
  unfolding flush_all
  stop p =
      let closed = serve p Signal.closes in
      let (l, batches) = Batcher.drain (suc (length closed.queue.buffer)) closed.loop in
      record (flush_all closed batches) { loop = l }
