-- ===== src/Telemetry/Dedup/Tests.antt =====
-- The deduplicator at concrete inputs.
use aegis_edr.Prelude.{◌≡◌, refl, pos, none, [], ◌∷◌, false, show_int}
use aegis_edr.Dict.{get}
use aegis_edr.Telemetry.{Event}
use aegis_edr.Telemetry.Dedup.{
  Deduplicator, new_deduplicator, dedup_key, is_duplicate, is_duplicate_key, is_recent,
}
use aegis_edr.Telemetry.Dedup.Window.{answers, ideal_answers, answers-ideal}

abbrev written : Event
written = record {
  id = 0;
  type = "file";
  timestamp = 5;
  process_id = pos 42;
  parent_id = pos 0;
  binary_path = "";
  sha256 = "";
  command_line = "";
  username = "";
  file_path = "/tmp/a";
  file_action = "write";
  protocol = "";
  local_ip = "";
  local_port = pos 0;
  remote_ip = "";
  remote_port = pos 0;
}

key_of_a_file_event : dedup_key written ≡ "file:42:/tmp/a:write"
unfolding dedup_key show_int
key_of_a_file_event = refl

abbrev seen : Deduplicator
seen = new_deduplicator 10

answers-ideal_example :
    answers (new_deduplicator 10) 100 (("a", 0) ∷ ("a", 9) ∷ ("b", 0) ∷ ("a", 1) ∷ [])
    ≡ ideal_answers 10 (λ _. none) 100 (("a", 0) ∷ ("a", 9) ∷ ("b", 0) ∷ ("a", 1) ∷ [])
answers-ideal_example = answers-ideal 10 100 (("a", 0) ∷ ("a", 9) ∷ ("b", 0) ∷ ("a", 1) ∷ [])

first_sighting : (is_duplicate seen written 100).1 ≡ false
unfolding is_duplicate is_duplicate_key new_deduplicator is_recent get
first_sighting = refl
