-- ===== src/Client/Tests.antt =====
-- cmd/aegis/main.go at concrete inputs: an old process with an alert, and a lineage of two.
use aegis_edr.Prelude.{
  ℕ, ◌≡◌, ◌↔◌, refl, ◌+◌, ◌^◌, ℤ, pos, String, true, false, ltb, Option, none, some, List, [],
  if◌then◌else◌, ◌∷◌, ◌==◌, string_eq, arith, show_int, show_nat,
}
use aegis_edr.Client.Commands.{kill_command, kill_command_wraps}
use aegis_edr.Client.Evidence.{investigate-prune_loop}
use aegis_edr.Client.Lineage.{Lineage, trace_iff}
use aegis_edr.Client.Queries.{Reader, investigate, trace, hunt}
use aegis_edr.Daemon.{prune_loop}
use aegis_edr.Server.{Server}
use aegis_edr.Storage.Tables.{Tables, ProcessRow, created, select}

number : String → Option ℤ
number s =
    if s == "0"
    then some (pos 0)
    else if s == "1"
    then some (pos 1)
    else if s == "2"
    then some (pos 2)
    else none

abbrev reader : Reader
reader = record {
  engine = record { earlier = ltb; later = λ a b. ltb b a; fails = λ _. false };
  affinity = number;
  like = λ text pattern_text. true;
  two_digits = λ hundredths. "9.50";
}

abbrev shell : ProcessRow
shell = record {
  process_id = 1;
  parent_id = pos 0;
  binary_path = "/bin/sh";
  sha256 = "aa";
  command_line = "sh";
  username = "root";
  launched_at = 5;
}

abbrev netcat : ProcessRow
netcat = record {
  process_id = 2;
  parent_id = pos 1;
  binary_path = "/bin/nc";
  sha256 = "bb";
  command_line = "nc -l";
  username = "root";
  launched_at = 6;
}

abbrev host : Tables
host = record (created 7) {
  processes = record { rows = shell ∷ netcat ∷ []; last_id = 2 };
  alerts = record {
    rows =
        record {
          alert_id = 1;
          rule_name = "shell";
          category = "T1059";
          risk_score = 950;
          description = "a shell";
          process_id = pos 1;
          triggered_at = 6;
        }
        ∷ [];
    last_id = 1;
  };
}

investigate-prune_loop_example :
    investigate reader (prune_loop reader.engine host (700000000000000 ∷ 1400000000000000 ∷ [])) "1"
    ≡ investigate reader host "1"
unfolding number
investigate-prune_loop_example =
    investigate-prune_loop reader host (700000000000000 ∷ 1400000000000000 ∷ []) "1" (λ t'. refl)
      (pos 1, refl, refl)

test_trace :
    trace reader 3 host "" "2"
    ≡ some ("[PID 2] /bin/nc (args: nc -l)" ∷ "  ↳ [PID 1] /bin/sh (args: sh)" ∷ [])
unfolding trace number show_int show_nat select
test_trace = refl

test_hunt :
    hunt reader (record { type = "process"; query = ""; risk = 0; mitre = ""; ioc = "bb" }) host
    ≡ "IOC MATCHING PROCESSES:" ∷ "Process: /bin/nc (args: nc -l) run by root" ∷ []
unfolding hunt select
test_hunt = refl

trace_iff_example :
    ((fuel : ℕ) × (trace reader fuel host "" "2"
        ≡ some ("[PID 2] /bin/nc (args: nc -l)" ∷ "  ↳ [PID 1] /bin/sh (args: sh)" ∷ [])))
    ↔ Lineage reader host "" "2"
        ("[PID 2] /bin/nc (args: nc -l)" ∷ "  ↳ [PID 1] /bin/sh (args: sh)" ∷ [])
trace_iff_example =
    trace_iff reader host "" "2"
      ("[PID 2] /bin/nc (args: nc -l)" ∷ "  ↳ [PID 1] /bin/sh (args: sh)" ∷ [])

-- A daemon whose world is the list of the processes that it killed.
abbrev killing : Server String (List ℤ) String
killing = record {
  store = none;
  killer = some (record { kill_tree = λ pid log. (pid ∷ log, none) });
  isolator = some (record { isolate_host = λ log. (log, none); restore_host = λ log. (log, none) });
  quarantiner = some (record { quarantine_file = λ path dir log. (log, none) });
  token = "t";
}

kill_command_wraps_example :
    ((kill_command (λ e. "") killing (pos 5) []).0 ≡ pos 5 ∷ [])
    × (kill_command (λ e. "") killing (pos (5 + 2 ^ 32)) []
        ≡ kill_command (λ e. "") killing (pos 5) [])
kill_command_wraps_example =
    kill_command_wraps (λ e. "") killing (record { kill_tree = λ pid log. (pid ∷ log, none) })
      (record { isolate_host = λ log. (log, none); restore_host = λ log. (log, none) })
      (record { quarantine_file = λ path dir log. (log, none) }) 4 [] refl refl refl (omega arith)
