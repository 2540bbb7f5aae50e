-- ===== src/Server.antt =====
-- pkg/api/server.go: the service of the daemon, with the check of the token in front of it. The
-- engines that respond and the stream of a client act on a world of their own and may fail.
pub mod Access
pub mod Responses
mod Tests
use aegis_edr.Prelude.{
  ℕ, ◌+◌, ◌-◌, ◌*◌, suc, ℤ, pos, negsuc, String, Option, none, some, List, [], ◌∷◌, Bool, true,
  false, if◌then◌else◌, ◌==◌, string_eq, not, ltb, length, take, map,
}
use aegis_edr.Dict.{Dict, get}
use aegis_edr.Forensics.{TimelineEvent, Queries, build_timeline}

-- The three interfaces; `none` is the nil error.
pub record ProcessKiller (World Failure : Type 0) : Type 0 where
  pub kill_tree : ℤ → World → World × Option Failure

pub record NetworkIsolator (World Failure : Type 0) : Type 0 where
  pub isolate_host : World → World × Option Failure
  pub restore_host : World → World × Option Failure

pub record Quarantiner (World Failure : Type 0) : Type 0 where
  pub quarantine_file : String → String → World → World × Option Failure

-- A pointer or an interface value that is nil is `none`.
pub record Server (Db World Failure : Type 0) : Type 0 where
  pub store : Option Db
  pub killer : Option (ProcessKiller World Failure)
  pub isolator : Option (NetworkIsolator World Failure)
  pub quarantiner : Option (Quarantiner World Failure)
  pub token : String

-- The errors of the server's own, and those that it passes on.
pub data ServerError (Failure : Type 0) : Type 0 where
  missing_metadata invalid_token engines_not_initialized invalid_target_pid : ServerError Failure
  file_path_required unsupported_action storage_not_initialized : ServerError Failure
  passed_on : Failure → ServerError Failure

pub data Reply (Failure A : Type 0) : Type 0 where
  error : ServerError Failure → Reply Failure A
  answer : A → Reply Failure A

pub record ResponseRequest : Type 0 where
  pub action : String
  pub target_pid : ℤ
  pub target_file : String

pub record ResponseResponse : Type 0 where
  pub success : Bool
  pub message : String
  pub action_executed : String

pub record StatusResponse : Type 0 where
  pub version : String
  pub status : String

abbrev pub quarantine_dir : String
quarantine_dir = "/var/lib/aegis/quarantine"

-- req.TargetPid <= 0
unfoldable pub is_no_pid : ℤ → Bool
is_no_pid (pos (suc n)) = false
is_no_pid _ = true

-- The TimelineEvent of the protocol, whose risk score is 0.0.
pub record TimelineMessage : Type 0 where
  pub timestamp : String
  pub category : String
  pub description : String

message_of : (ℕ → String) → TimelineEvent → TimelineMessage
message_of rfc3339 ev = record {
  timestamp = rfc3339 ev.timestamp;
  category = ev.category;
  description = ev.description;
}

-- time.Unix of a number of seconds, in nanoseconds after the zero time.
unfoldable pub unix_time : ℤ → ℕ
unix_time (pos s) = (62135596800 + s) * 1000000000
unix_time (negsuc n) = (62135596800 - (n + 1)) * 1000000000

-- len(tokens) == 0 || tokens[0] != s.token, for the tokens of a key that may be missing
unfoldable pub is_wrong : String → Option (List String) → Bool
is_wrong token (some (t ∷ ts)) = not (t == token)
is_wrong token _ = true

module _ {World Failure : Type 0} where
  -- What follows an engine's call: its error, or success.
  unfoldable pub conclude :
      World × Option Failure → String → String → World × Reply Failure ResponseResponse
  conclude (w, some e) message action = (w, error (passed_on e))
  conclude (w, none) message action =
      (w, answer (record { success = true; message = message; action_executed = action }))

  -- TriggerResponse with engines that are not nil.
  unfoldable pub respond :
      ProcessKiller World Failure
      → NetworkIsolator World Failure
      → Quarantiner World Failure
      → ResponseRequest
      → World
      → World × Reply Failure ResponseResponse
  respond killer isolator quarantiner req w =
      if req.action == "kill"
      then if is_no_pid req.target_pid
        then (w, error invalid_target_pid)
        else conclude (killer.kill_tree req.target_pid w) "Process tree terminated successfully"
            "kill"
      else if req.action == "isolate"
      then conclude (isolator.isolate_host w) "Host network isolated successfully" "isolate"
      else if req.action == "restore"
      then conclude (isolator.restore_host w) "Host network restored successfully" "restore"
      else if req.action == "quarantine"
      then if req.target_file == ""
        then (w, error file_path_required)
        else conclude (quarantiner.quarantine_file req.target_file quarantine_dir w)
            "File placed in quarantine successfully" "quarantine"
      else (w, error unsupported_action)

  -- The loop over `stream.Send`, up to the first error.
  unfoldable pub send_all :
      (TimelineMessage → World → World × Option Failure)
      → List TimelineMessage
      → World
      → World × Option (ServerError Failure)
  send_all send [] w = (w, none)
  send_all send (m ∷ ms) w =
      let (w', failed) = send m w in
      elim failed [ none ↦ send_all send ms w' | some e ↦ (w', some (passed_on e)) ]

module _ {Db World Failure : Type 0} where
  unfoldable pub new_server :
      Option Db
      → Option (ProcessKiller World Failure)
      → Option (NetworkIsolator World Failure)
      → Option (Quarantiner World Failure)
      → String
      → Server Db World Failure
  new_server store killer isolator quarantiner token = record {
    store = store;
    killer = killer;
    isolator = isolator;
    quarantiner = quarantiner;
    token = token;
  }

  -- The check that both interceptors make before they call the handler.
  unfoldable pub check_token :
      Server Db World Failure → Option (Dict String (List String)) → Option (ServerError Failure)
  unfolding is_wrong
  check_token s metadata = if s.token == "" then none else elim metadata [
    | none ↦ some missing_metadata
    | some md ↦ if is_wrong s.token (get md "x-aegis-token") then some invalid_token else none
  ]

  unfoldable pub unary_auth_interceptor :
      {A : Type 0}
      → Server Db World Failure
      → Option (Dict String (List String))
      → (World → World × Reply Failure A)
      → World
      → World × Reply Failure A
  unary_auth_interceptor s metadata handler w = elim (check_token s metadata) [
    | none ↦ handler w
    | some e ↦ (w, error e)
  ]

  -- A stream's handler only returns an error or nil.
  unfoldable pub stream_auth_interceptor :
      Server Db World Failure
      → Option (Dict String (List String))
      → (World → World × Option (ServerError Failure))
      → World
      → World × Option (ServerError Failure)
  stream_auth_interceptor s metadata handler w = elim (check_token s metadata) [
    | none ↦ handler w
    | some e ↦ (w, some e)
  ]

  unfoldable pub get_status : Server Db World Failure → Reply Failure StatusResponse
  get_status s = answer (record { version = "1.0.0-Beta"; status = "RUNNING" })

  unfoldable pub trigger_response :
      Server Db World Failure → ResponseRequest → World → World × Reply Failure ResponseResponse
  trigger_response s req w = elim s.killer [
    | none ↦ (w, error engines_not_initialized)
    | some killer ↦ elim s.isolator [
      | none ↦ (w, error engines_not_initialized)
      | some isolator ↦ elim s.quarantiner [
        | none ↦ (w, error engines_not_initialized)
        | some quarantiner ↦ respond killer isolator quarantiner req w
      ]
    ]
  ]

  unfoldable pub get_timeline :
      (ℕ → String)
      → Queries Db
      → Server Db World Failure
      → (TimelineMessage → World → World × Option Failure)
      → ℤ
      → ℤ
      → World
      → World × Option (ServerError Failure)
  unfolding message_of
  get_timeline rfc3339 queries s send start_time_epoch end_time_epoch w = elim s.store [
    | none ↦ (w, some storage_not_initialized)
    | some db ↦
        let events =
          build_timeline queries db (unix_time start_time_epoch) (unix_time end_time_epoch) in
        let kept = if ltb 5000 (length events) then take 5000 events else events in
        send_all send (map (message_of rfc3339) kept) w
  ]
