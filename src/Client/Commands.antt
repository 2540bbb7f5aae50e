-- ===== src/Client/Commands.antt =====
-- cmd/aegis/main.go: the commands that ask the daemon for a response.
use aegis_edr.Prelude.{◌≡◌, refl, ℕ, ◌+◌, ◌^◌, ◌<◌, suc, ℤ, pos, String, some, arith, ◌^^◌}
use aegis_edr.Server.{
  Server, ServerError, Reply, error, answer, ResponseRequest, ResponseResponse, trigger_response,
  respond, is_no_pid, conclude, ProcessKiller, NetworkIsolator, Quarantiner,
}
use aegis_edr.Telemetry.Pipeline.Replay.{to_int32}

-- The pid is a Go int, and the request has an int32.
unfoldable pub kill_request : ℤ → ResponseRequest
kill_request pid = record { action = "kill"; target_pid = to_int32 pid; target_file = "" }

abbrev pub isolate_request : ResponseRequest
isolate_request = record { action = "isolate"; target_pid = pos 0; target_file = "" }

abbrev pub restore_request : ResponseRequest
restore_request = record { action = "restore"; target_pid = pos 0; target_file = "" }

unfoldable pub quarantine_request : String → ResponseRequest
quarantine_request file = record { action = "quarantine"; target_pid = pos 0; target_file = file }

to_int32_small : (n : ℕ) → n < 2 ^ 31 → to_int32 (pos n) ≡ pos n
to_int32_small n small = ground (arith, small)

to_int32_wraps : (n : ℕ) → to_int32 (pos (n + 2 ^ 32)) ≡ to_int32 (pos n)
to_int32_wraps n = ground arith

-- What a command prints of the reply, and the status with which it exits.
unfoldable pub exit_with :
    {Failure : Type 0}
    → (ServerError Failure → String)
    → String
    → Reply Failure ResponseResponse
    → String × ℕ
exit_with error_text what (error e) = ("Error: " ^^ what ^^ " failed: " ^^ error_text e, 1)
exit_with error_text what (answer res) = ("Success: " ^^ res.message, 0)

module _ {Db World Failure : Type 0} (error_text : ServerError Failure → String) where
  -- A command, on a daemon that answers.
  unfoldable pub run_command :
      Server Db World Failure → ResponseRequest → String → World → World × (String × ℕ)
  unfolding exit_with
  run_command s req what w =
      let (w', reply) = trigger_response s req w in (w', exit_with error_text what reply)

  unfoldable pub kill_command : Server Db World Failure → ℤ → World → World × (String × ℕ)
  unfolding run_command kill_request
  kill_command s pid = run_command s (kill_request pid) "action execution"

  unfoldable pub isolate_command : Server Db World Failure → World → World × (String × ℕ)
  unfolding run_command
  isolate_command s = run_command s isolate_request "isolation execution"

  unfoldable pub restore_command : Server Db World Failure → World → World × (String × ℕ)
  unfolding run_command
  restore_command s = run_command s restore_request "restore execution"

  unfoldable pub quarantine_command :
      Server Db World Failure → String → World → World × (String × ℕ)
  unfolding run_command quarantine_request
  quarantine_command s file = run_command s (quarantine_request file) "quarantine execution"

  -- On a daemon with engines, kill kills the process of the number that it is given, below 2 ^ 31;
  -- and with 2 ^ 32 more the number passes as well, and the same process is killed.
  pub kill_command_wraps :
      (s : Server Db World Failure) (killer : ProcessKiller World Failure)
      (isolator : NetworkIsolator World Failure) (quarantiner : Quarantiner World Failure) (n : ℕ)
      (w : World)
      → s.killer ≡ some killer
      → s.isolator ≡ some isolator
      → s.quarantiner ≡ some quarantiner
      → suc n < 2 ^ 31
      → ((kill_command s (pos (suc n)) w).0 ≡ (killer.kill_tree (pos (suc n)) w).0)
        × (kill_command s (pos (suc n + 2 ^ 32)) w ≡ kill_command s (pos (suc n)) w)
  unfolding kill_command run_command kill_request trigger_response respond is_no_pid conclude
  kill_command_wraps s killer isolator quarantiner n w has_killer has_isolator has_quarantiner
        small =
      (
        rw (to_int32_small (suc n) small)
            (ground (arith, has_killer, has_isolator, has_quarantiner)),
        rw (to_int32_wraps (suc n)) refl,
      )
