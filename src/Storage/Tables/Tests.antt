-- ===== src/Storage/Tables/Tests.antt =====
-- The tables at concrete inputs: a shell that was launched long ago and still writes.
use aegis_edr.Prelude.{◌≡◌, refl, pos, ltb, true, false, List, [], ◌∷◌, some, if◌then◌else◌}
use aegis_edr.Storage.Sql.{insert_process, insert_file}
use aegis_edr.Storage.Tables.{
  Tables, Engine, created, insert, execute, query_file_modifications, select, prune_old_telemetry,
  delete_files, delete_connections, delete_processes,
}
use aegis_edr.Storage.Tables.Evidence.{Keeps, evolve-Keeps}
use aegis_edr.Storage.Tables.History.{Action, executes, passes, prunes, evolve}
use aegis_edr.Storage.Tables.Prune.{is_pinned, without_children, without_stale, prune_outcome}

abbrev engine : Engine
engine = record { earlier = ltb; later = λ at end. ltb end at; fails = λ _. false }

abbrev history : List Action
history =
    executes (insert_process (pos 0) "/bin/sh" "" "sh" "root")
    ∷ executes (insert_file (pos 1) "/tmp/old" "write")
    ∷ executes (insert_file (pos 8) "/tmp/lost" "write")
    ∷ passes 100
    ∷ executes (insert_file (pos 1) "/tmp/new" "write")
    ∷ []

tables : Tables
unfolding evolve execute insert
tables = evolve engine (created 1000) history

-- The row for a process that has none is refused.
test_files :
    query_file_modifications engine tables 1000 1050
    ≡ some (record { file_path = "/tmp/old"; action = "write"; occurred_at = 1000 } ∷ [])
unfolding tables query_file_modifications select
test_files = refl

-- The shell's young row keeps the shell, and the pruning is an error.
test_pinned : (prune_old_telemetry engine tables 1050).1 ≡ false
unfolding tables prune_old_telemetry delete_files delete_connections delete_processes
test_pinned = refl

test_pruned : (prune_old_telemetry engine tables 1200).1 ≡ true
unfolding tables prune_old_telemetry delete_files delete_connections delete_processes
test_pruned = refl

-- The shell with an alert and an old file, then a new file and a pruning.
abbrev suspected : Tables
suspected = record (created 1000) {
  processes = record {
    rows =
        record {
          process_id = 1;
          parent_id = pos 0;
          binary_path = "/bin/sh";
          sha256 = "";
          command_line = "sh";
          username = "root";
          launched_at = 1000;
        }
        ∷ [];
    last_id = 1;
  };
  files = record {
    rows =
        record {
          event_id = 1;
          process_id = pos 1;
          file_path = "/tmp/old";
          action = "write";
          occurred_at = 1000;
        }
        ∷ [];
    last_id = 1;
  };
  alerts = record {
    rows =
        record {
          alert_id = 1;
          rule_name = "shell";
          category = "T1059";
          risk_score = 950;
          description = "a shell";
          process_id = pos 1;
          triggered_at = 1000;
        }
        ∷ [];
    last_id = 1;
  };
}

abbrev later_on : List Action
later_on = passes 100 ∷ executes (insert_file (pos 1) "/tmp/new" "write") ∷ prunes 1050 ∷ []

evolve-Keeps_example : Keeps (pos 1) suspected (evolve engine suspected later_on)
evolve-Keeps_example = evolve-Keeps engine suspected later_on (pos 1) refl

prune_outcome_example : prune_old_telemetry engine tables 1050 ≡ (
    if is_pinned engine tables 1050
    then (without_children engine tables 1050, false)
    else (without_stale engine tables 1050, true))
prune_outcome_example = prune_outcome engine tables 1050 (λ _. refl)
