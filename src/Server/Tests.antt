-- ===== src/Server/Tests.antt =====
-- A server at concrete inputs: the world is a list of what the engines were asked for.
use aegis_edr.Prelude.{
  ℕ, ◌≡◌, refl, ◌⊎◌, pos, String, Option, none, some, List, [], ◌∷◌, ◌++◌, string_eq,
}
use aegis_edr.Dict.{Dict, empty, get, put}
use aegis_edr.Server.{
  Server, ServerError, Reply, error, ResponseRequest, StatusResponse, unary_auth_interceptor,
  stream_auth_interceptor, trigger_response, get_status, respond, conclude, check_token, is_wrong,
  is_no_pid,
}
use aegis_edr.Server.Access.{IsAllowed, auth_interceptors_exact}

abbrev server : Server ℕ (List String) String
server = record {
  store = none;
  killer = some (record { kill_tree = λ pid w. (w ++ "kill" ∷ [], none) });
  isolator = some (record {
    isolate_host = λ w. (w ++ "isolate" ∷ [], some "refused");
    restore_host = λ w. (w ++ "restore" ∷ [], none);
  });
  quarantiner = some (record { quarantine_file = λ file dir w. (w ++ file ∷ [], none) });
  token = "secret";
}

abbrev with_token : String → Option (Dict String (List String))
with_token t = some (put empty "x-aegis-token" (t ∷ []))

abbrev kill_request : ResponseRequest
kill_request = record { action = "kill"; target_pid = pos 7; target_file = "" }

abbrev status_handler : List String → List String × Reply String StatusResponse
status_handler w = (w, get_status server)

killed : (trigger_response server kill_request []).0 ≡ "kill" ∷ []
unfolding trigger_response respond conclude is_no_pid
killed = refl

wrong_token :
    (unary_auth_interceptor server (with_token "guess") (trigger_response server kill_request) []).0
    ≡ []
unfolding unary_auth_interceptor check_token is_wrong get put
wrong_token = refl

auth_interceptors_exact_example :
    (IsAllowed server (with_token "secret")
      × (unary_auth_interceptor server (with_token "secret") status_handler [] ≡ status_handler [])
      × (stream_auth_interceptor server (with_token "secret") (λ w. (w, none)) [] ≡ ([], none)))
    ⊎ ((¬ IsAllowed server (with_token "secret"))
        × (e : ServerError String) × (unary_auth_interceptor server
              (with_token "secret")
              status_handler
              []
            ≡ ([], error e))
        × (stream_auth_interceptor server (with_token "secret") (λ w. (w, none)) [] ≡ ([], some e)))
auth_interceptors_exact_example =
    auth_interceptors_exact server (with_token "secret") status_handler (λ w. (w, none)) []
