-- ===== src/Server/Responses.antt =====
-- What a response request makes the engines do.
use aegis_edr.Prelude.{ℕ, suc, ◌≡◌, ◌≢◌, ◌⊎◌, ℤ, pos, String, Option}
use aegis_edr.Server.{
  Server, ProcessKiller, NetworkIsolator, Quarantiner, ServerError, Reply, error, ResponseRequest,
  ResponseResponse, quarantine_dir, conclude,
}

-- What a request can ask for.
pub data Deed : Type 0 where
  kill : ℤ → Deed
  isolate restore : Deed
  quarantine : String → Deed

abbrev pub deed_name : Deed → String
deed_name (kill pid) = "kill"
deed_name isolate = "isolate"
deed_name restore = "restore"
deed_name (quarantine file) = "quarantine"

-- The request names the deed and a target that is fit for it.
pub data Asks (req : ResponseRequest) : Deed → Type 0 where
  for_kill :
      (n : ℕ) → req.action ≡ "kill" → req.target_pid ≡ pos (suc n) → Asks req (kill (pos (suc n)))
  for_isolate : req.action ≡ "isolate" → Asks req isolate
  for_restore : req.action ≡ "restore" → Asks req restore
  for_quarantine :
      req.action ≡ "quarantine" → req.target_file ≢ "" → Asks req (quarantine req.target_file)

abbrev pub deed_message : Deed → String
deed_message (kill pid) = "Process tree terminated successfully"
deed_message isolate = "Host network isolated successfully"
deed_message restore = "Host network restored successfully"
deed_message (quarantine file) = "File placed in quarantine successfully"

module _ {World Failure : Type 0} where
  abbrev pub perform :
      ProcessKiller World Failure
      → NetworkIsolator World Failure
      → Quarantiner World Failure
      → Deed
      → World
      → World × Option Failure
  perform k i q (kill pid) w = k.kill_tree pid w
  perform k i q isolate w = i.isolate_host w
  perform k i q restore w = i.restore_host w
  perform k i q (quarantine file) w = q.quarantine_file file quarantine_dir w

-- No deed, an error and the world as it was.
abbrev pub Refused :
    {World Failure : Type 0}
    → ResponseRequest
    → World
    → World × Reply Failure ResponseResponse
    → Type 0
Refused {World} {Failure} req w out =
    ((d : Deed) → ¬ Asks req d) × (e : ServerError Failure) × (out ≡ (w, error e))

module _ {World Failure : Type 0} (k : ProcessKiller World Failure)
    (i : NetworkIsolator World Failure) (q : Quarantiner World Failure) where
  -- One deed, with its message, or a refusal.
  abbrev pub Settled : ResponseRequest → World → World × Reply Failure ResponseResponse → Type 0
  Settled req w out =
      ((d : Deed) × Asks req d
        × (out ≡ conclude (perform k i q d w) (deed_message d) (deed_name d)))
      ⊎ Refused req w out
