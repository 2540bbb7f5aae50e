-- ===== src/Daemon/Login.antt =====
-- cmd/aegisd/main.go with cmd/aegis/main.go: whom the daemon that has started lets in, and the key of
-- its quarantine.
use Prim.Native.Char.{Char}
use Prim.Native.String.{len}
use aegis_edr.Prelude.{
  ◌≡◌, refl, sym, subst, ap, inl, inr, ◌⊎◌, ℕ, String, Bool, true, false, Option, none, some, List,
  [], ◌∷◌, arith, length, ◌==◌, string_eq, nat_eq, Bool-cases, Option-cases,
}
use aegis_edr.Client.{append_to, client_config, client_token, outgoing}
use aegis_edr.Daemon.{
  System, Startup, exits, serves, token_path, choose_key, encode_to_string, loaded, generated,
  choose_token, server_of, daemon_of, start,
}
use aegis_edr.Dict.{Dict, get, put, get-put, beq_refl}
use aegis_edr.Response.Quarantine.{Files, complete, read_file, write_file, remove_file}
use aegis_edr.Server.{Server, check_token, is_wrong, invalid_token, missing_metadata}

-- Whatever the configuration says, the key has 32 bytes, which AES-256 takes.
choose_key-len : (key : String) → len (choose_key key) ≡ 32
unfolding choose_key
choose_key-len key = elim (Bool-cases (len key == 32)) [
  | inl right ↦ rw (choose_key, right) (ground (arith, right, nat_eq.same_iff (len key) 32))
  | inr wrong ↦ rw (choose_key, wrong) refl
]

has_char : String → Bool
has_char String.[] = false
has_char (String.◌∷◌ c s) = true

cons_not_empty : (c : Char) (s : String) → (String.◌∷◌ c s == "") ≡ false
unfolding has_char
cons_not_empty c s = elim (Bool-cases (String.◌∷◌ c s == "")) [
  | inl same ↦
      absurd (ground (arith, ap has_char ((string_eq.same_iff (String.◌∷◌ c s) "").0 same)))
  | inr other ↦ other
]

encode_nonempty : (bytes : List ℕ) → length bytes ≡ 16 → (encode_to_string bytes == "") ≡ false
unfolding encode_to_string
encode_nonempty [] full = absurd (ground (arith, full))
encode_nonempty (b ∷ bytes) full = cons_not_empty _ _

generated_nonempty :
    (random : Option (List ℕ))
    → ((bytes : List ℕ) → random ≡ some bytes → length bytes ≡ 16)
    → (generated random == "") ≡ false
unfolding generated
generated_nonempty none fills = refl
generated_nonempty (some bytes) fills = encode_nonempty bytes (fills bytes refl)

module _ {Float Db World Failure : Type 0} (system : System Float Db World Failure) where
  open system use {load_config, float_zero, logger_fails, new_storage, listen, random, disk}

  -- A request of the client, with the same configuration and the files that the daemon left.
  abbrev pub Login : Files → Server Db World Failure → Dict String (List String) → Type 0
  Login files server md =
      let token = (client_config float_zero load_config).agent.ipc_token in
      check_token server (some (outgoing (client_token disk files token) md)) ≡ none

  -- Either it exits because a part fails, or it serves.
  pub Started : Dict String (List String) → Files × Startup Db World Failure → Type 0
  Started md (files, exits status) =
      (status ≡ 1)
      × ((logger_fails (loaded system).agent.log_level ≡ true)
          ⊎ ((new_storage ≡ none)
              ⊎ ((before : Files) × (listen before (loaded system).agent.ipc_socket ≡ none))))
  Started md (files, serves d) =
      (len d.quarantine_key ≡ 32)
      × (check_token d.server (some md) ≡ some invalid_token)
      × (check_token d.server none ≡ some missing_metadata)
      × Login files d.server md

  -- The client has the daemon's token: that of the configuration, or that of the file.
  choose_token-client :
      (files : Files)
      → ((files' : Files) (content : String) → disk.write files' token_path content ≡ complete)
      → ((files' : Files) → disk.read_fails files' token_path ≡ false)
      → (generated random == "") ≡ false
      → (token : String)
      → client_token disk (choose_token system token files).0 token
        ≡ (choose_token system token files).1
  unfolding client_token choose_token write_file read_file
  choose_token-client files writes reads made token = elim (Bool-cases (token == "")) [
    | inl empty ↦ ground (
      arith,
      empty,
      writes files (generated random),
      reads (put files token_path (generated random)),
      get-put files token_path token_path (generated random),
    )
    | inr set ↦ ground (arith, set)
  ]

  choose_token_nonempty :
      (files : Files)
      → (generated random == "") ≡ false
      → (token : String) → ((choose_token system token files).1 == "") ≡ false
  unfolding choose_token
  choose_token_nonempty files made token = ground (arith, made)

  -- With a token, the server lets in whoever appends it, and nobody without.
  check_token-outgoing :
      (server : Server Db World Failure) (md : Dict String (List String))
      → (server.token == "") ≡ false
      → get md "x-aegis-token" ≡ none
      → (check_token server (some md) ≡ some invalid_token)
        × (check_token server none ≡ some missing_metadata)
        × (check_token server (some (outgoing server.token md)) ≡ none)
  unfolding check_token is_wrong outgoing append_to
  check_token-outgoing server md set bare = (
    ground (arith, set, bare),
    ground (arith, set),
    ground (
      arith,
      set,
      bare,
      get-put md "x-aegis-token" "x-aegis-token" (server.token ∷ []),
      beq_refl server.token,
    ),
  )

  -- A daemon with this token serves the client.
  served-Started :
      (files' : Files) (md : Dict String (List String)) (path key token : String) (store : Db)
      → (token == "") ≡ false
      → get md "x-aegis-token" ≡ none
      → client_token disk files' (client_config float_zero load_config).agent.ipc_token ≡ token
      → Started md (files', serves (daemon_of system store path (choose_key key) token))
  unfolding Started
  served-Started files' md path key token store set bare same =
      let server = server_of system store (choose_key key) token in
      let (refused, silent, passes) = check_token-outgoing server md set bare in
      (choose_key-len key, refused, silent, rw same passes)

  -- The client's configuration has the token of the daemon's.
  same_token :
      (client_config float_zero load_config).agent.ipc_token ≡ (loaded system).agent.ipc_token
  unfolding client_config loaded
  same_token = elim (Option-cases load_config) [
    | inl failed ↦ ground (arith, failed)
    | inr (cfg, read) ↦ ground (arith, read)
  ]

  -- On a file system on which the file of the token can be written and read: the daemon exits with
  -- status 1, because the logger, the store or the socket fails, or it serves. Then the key of its
  -- quarantine has 32 bytes, whatever the configuration says, a request without a token gets an
  -- error, and one of the client passes, with the token of the configuration or the one made up.
  pub start-Started :
      (files : Files) (md : Dict String (List String))
      → get md "x-aegis-token" ≡ none
      → ((files' : Files) (content : String) → disk.write files' token_path content ≡ complete)
      → ((files' : Files) → disk.read_fails files' token_path ≡ false)
      → ((bytes : List ℕ) → random ≡ some bytes → length bytes ≡ 16)
      → Started md (start system files)
  unfolding start Started
  start-Started files md bare writes reads fills =
      let cfg = loaded system in
      let path = cfg.agent.ipc_socket in
      let removed = (remove_file disk files path).0 in
      elim (Bool-cases (logger_fails cfg.agent.log_level)) [
        | inl broken ↦ reach (files, exits 1) (ground (arith, broken)) (refl, inl broken)
        | inr logs ↦ elim (Option-cases new_storage) [
          | inl broken ↦
              reach (files, exits 1) (ground (arith, logs, broken)) (refl, inr (inl broken))
          | inr (store, opened) ↦ elim (Option-cases (listen removed path)) [
            | inl broken ↦
                reach (removed, exits 1) (ground (arith, logs, opened, broken))
                  (refl, inr (inr (removed, broken)))
            | inr (listening, listens) ↦
                let made = generated_nonempty random fills in
                let token = cfg.agent.ipc_token in
                let same = choose_token-client listening writes reads made token in
                let (files', chosen) = choose_token system token listening in
                let d =
                  daemon_of system store path (choose_key cfg.response.quarantine_key) chosen in
                reach (files', serves d) (ground (arith, logs, opened, listens))
                  (served-Started (choose_token system token listening).0 md path
                    cfg.response.quarantine_key (choose_token system token listening).1 store
                    (choose_token_nonempty listening made token) bare (rw same_token same))
          ]
        ]
      ]
    where
      reach :
          (r : Files × Startup Db World Failure)
          → start system files ≡ r
          → Started md r
          → Started md (start system files)
      reach r reached holds = subst (Started md) (sym reached) holds
