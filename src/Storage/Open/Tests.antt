-- ===== src/Storage/Open/Tests.antt =====
-- The opening at concrete inputs: a file that fails the check, with the file of its log beside it.
use aegis_edr.Prelude.{◌≡◌, refl, true, false, none, some, string_eq, ◌==◌, if◌then◌else◌}
use aegis_edr.Dict.{get, put, remove, empty}
use aegis_edr.Storage.Open.{System, Disk, IsUntouched, Kept, inspect, new_storage, new_storage-Kept}

-- SQLite that leaves every file as it is.
abbrev sqlite : System
sqlite = record {
  opens = λ path. true;
  ping = λ disk path. (disk, true);
  integrity_check = λ disk path. (
    disk,
    elim (get disk path) [
      | none ↦ some "ok"
      | some bytes ↦ if bytes == "bad" then some "malformed" else some "ok"
    ],
  );
  exec = λ disk path q. (disk, true);
  close = λ disk path. disk;
  rename_fails = λ disk from to. false;
}

abbrev disk : Disk
disk = put (put empty "t.db" "bad") "t.db-wal" "rows"

test_aside : get (new_storage sqlite disk "t.db").0 "t.db.corrupt" ≡ some "bad"
unfolding new_storage get put remove
test_aside = refl

-- The log stays where it was.
test_log : get (new_storage sqlite disk "t.db").0 "t.db-wal" ≡ some "rows"
unfolding new_storage get put remove
test_log = refl

still : IsUntouched sqlite "t.db" "t.db.corrupt"
still = record {
  by_ping = λ disk. refl;
  by_check = λ disk. refl;
  by_exec = λ disk q. refl;
  by_close = λ disk. refl;
}

new_storage-Kept_example :
    Kept sqlite disk "t.db" (inspect sqlite disk "t.db") (new_storage sqlite disk "t.db").0
new_storage-Kept_example = new_storage-Kept sqlite disk "t.db" still
