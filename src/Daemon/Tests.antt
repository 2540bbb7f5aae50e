-- ===== src/Daemon/Tests.antt =====
-- cmd/aegisd/main.go at concrete inputs: a daemon without a configuration.
use aegis_edr.Prelude.{
  ◌≡◌, refl, ℕ, ℤ, String, true, false, none, some, List, [], ◌∷◌, zero, suc, arith, string_eq,
}
use aegis_edr.Daemon
use aegis_edr.Daemon.{Startup, exits, serves, start, generated, encode_to_string}
use aegis_edr.Heuristics.Lines.{hex_digit}
use aegis_edr.Daemon.Login.{Started, start-Started}
use aegis_edr.Dict.{empty, get, put}
use aegis_edr.Response.Quarantine
use aegis_edr.Response.Quarantine.{Files, Write, complete}

abbrev disk : Quarantine.System
disk = record {
  read_fails = λ _ _. false;
  mkdir_fails = λ _ _. false;
  remove_fails = λ _ _. false;
  write = λ _ _ _. complete;
  takes_key = λ key. true;
  nonce = some "n";
  seal = λ key once content. content;
}

bytes : ℕ → List ℕ
bytes zero = []
bytes (suc n) = n ∷ bytes n

abbrev plain : Daemon.System ℕ String (List ℤ) String
plain = record {
  load_config = none;
  float_zero = 0;
  logger_fails = λ level. false;
  new_storage = some "store";
  listen = λ files path. some (put files path "");
  random = some (bytes 16);
  disk = disk;
  killer = record { kill_tree = λ pid log. (pid ∷ log, none) };
  isolator = record { isolate_host = λ log. (log, none); restore_host = λ log. (log, none) };
  new_quarantiner = λ key. record { quarantine_file = λ path dir log. (log, none) };
}

start-Started_example : Started plain empty (start plain empty)
unfolding bytes get
start-Started_example =
    start-Started plain empty empty refl (λ _ _. refl) (λ _. refl)
      (λ read same. ground (arith, same))

-- It serves with the fallback key, and its token is that of the file.
token : Startup String (List ℤ) String → String
token (exits status) = ""
token (serves d) = d.server.token

test_token : token (start plain empty).1 ≡ "0f0e0d0c0b0a09080706050403020100"
unfolding token start bytes generated encode_to_string hex_digit
test_token = refl
