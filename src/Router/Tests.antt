-- ===== src/Router/Tests.antt =====
-- The router at concrete inputs: a store that keeps its statements, and a queue of five places.
use aegis_edr.Prelude.{
  ◌≡◌, refl, some, List, [], ◌∷◌, ◌++◌, true, false, arith, pos, concat, map, to_lower,
}
use aegis_edr.Channel.{try_send}
use aegis_edr.Storage.Sql.{Stmt, Database}
use aegis_edr.Batcher.{Phase, contents}
use aegis_edr.Router.{
  Event, Router, Action, submits, receives, ticks, blank, new_router, submit, run, stop,
  flush_store, is_file_read, is_tampering,
}
use aegis_edr.Router.Delivery.{accepted, batches, stored, run_order}
use aegis_edr.Router.Pool.{IsValid, run-IsValid}
use aegis_edr.Router.Shutdown.{stop_flushes}
use aegis_edr.Router.Rootless.{flush_store_rootless}
use aegis_edr.Storage.Tables.{Engine, sqlite, created}

-- A store that holds the statements of the committed transactions.
abbrev journal : Database
journal = record {
  Db = List Stmt;
  begins = λ _. true;
  exec = λ db q. some (db ++ q ∷ []);
  commit = λ _ db. some db;
}

abbrev launched : Event
launched = record blank {
  type = "process";
  parent_id = pos 1;
  binary_path = "/bin/sh";
  username = "root";
}

abbrev was_read : Event
was_read = record blank {
  type = "file";
  process_id = pos 7;
  file_path = "/etc/hosts";
  file_action = "read";
}

abbrev tampered : Event
tampered = record blank {
  type = "file";
  process_id = pos 7;
  file_path = "/opt/Aegis.yaml";
  file_action = "write";
}

abbrev fresh : Router (List Stmt)
fresh = new_router 5 []

abbrev history : List Action
history = submits launched ∷ submits was_read ∷ receives ∷ submits tampered ∷ ticks ∷ receives ∷ []

fresh-IsValid : IsValid fresh
unfolding new_router
fresh-IsValid = record {
  batch_small = omega arith;
  queue_fits = omega arith;
  same_capacity = refl;
  pool_blank = tt;
}

run_order_example :
    concat (batches journal fresh history) ++ contents (run journal fresh history).loop
    ≡ contents fresh.loop ++ accepted journal fresh history
run_order_example = run_order journal fresh history

run-IsValid_example : IsValid (run journal fresh history)
run-IsValid_example = run-IsValid journal fresh history fresh-IsValid

stop_flushes_example :
    (bs : List (List Event)) × (concat bs ≡ contents (submit fresh launched).0.loop)
    × ((stop journal (submit fresh launched).0).store
        ≡ stored journal (submit fresh launched).0.store bs)
    × (contents (stop journal (submit fresh launched).0).loop ≡ [])
    × ((stop journal (submit fresh launched).0).phase ≡ Phase.stopped)
unfolding new_router submit try_send
stop_flushes_example = stop_flushes journal (submit fresh launched).0 refl

-- A write to the configuration is recorded after the alarm about it.
tampering_is_reported :
    map is_tampering (launched ∷ was_read ∷ tampered ∷ []) ≡ false ∷ false ∷ true ∷ []
unfolding is_tampering to_lower
tampering_is_reported = refl

-- In a queue of five places the fifth place is closed to file reads.
four_waiting : Router (List Stmt)
unfolding submit
four_waiting =
    let r1 = (submit fresh launched).0 in
    let r2 = (submit r1 launched).0 in let r3 = (submit r2 launched).0 in (submit r3 launched).0

reads_are_dropped_first :
    ((submit four_waiting was_read).1 ≡ false) × ((submit four_waiting launched).1 ≡ true)
unfolding four_waiting new_router is_file_read try_send
reads_are_dropped_first = (refl, refl)

abbrev engine : Engine
engine = record { earlier = λ _ _. false; later = λ _ _. false; fails = λ _. false }

-- The alarm on the write to the agent's own file is lost with the event.
flush_store_rootless_example :
    flush_store (sqlite engine) (created 1000) (was_read ∷ tampered ∷ []) ≡ created 1000
flush_store_rootless_example =
    flush_store_rootless engine (created 1000) (was_read ∷ tampered ∷ [])
      ((refl, refl), ((refl, refl), tt))
