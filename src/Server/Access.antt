-- ===== src/Server/Access.antt =====
-- Who gets past the interceptors.
use aegis_edr.Prelude.{
  ◌≡◌, refl, inl, inr, ◌⊎◌, String, Option, none, some, List, ◌∷◌, arith, ◌==◌, string_eq,
  Bool-cases, Option-cases, List-cases,
}
use aegis_edr.Dict.{Dict, get}
use aegis_edr.Server.{
  Server, ServerError, Reply, error, check_token, is_wrong, unary_auth_interceptor,
  stream_auth_interceptor,
}

module _ {Db World Failure : Type 0} where
  -- The server has no token, or the first value under the key is its token.
  abbrev pub IsAllowed : Server Db World Failure → Option (Dict String (List String)) → Type 0
  IsAllowed s metadata =
      (s.token ≡ "")
      ⊎ ((md : Dict String (List String)) × (rest : List String) × (metadata ≡ some md)
          × (get md "x-aegis-token" ≡ some (s.token ∷ rest)))

  check_token-IsAllowed :
      (s : Server Db World Failure) (metadata : Option (Dict String (List String)))
      → check_token s metadata ≡ none
      → IsAllowed s metadata
  unfolding check_token is_wrong
  check_token-IsAllowed s none h = inl (ground (arith, string_eq.same_iff s.token ""))
  check_token-IsAllowed s (some md) h = elim (Bool-cases (s.token == "")) [
    | inl empty ↦ inl ((string_eq.same_iff s.token "").0 empty)
    | inr set ↦ elim (Option-cases (get md "x-aegis-token")) [
      | inl missing ↦ absurd (ground (arith, set, missing, h))
      | inr (ts, there) ↦ elim (List-cases ts) [
        | inl nil ↦ absurd (ground (arith, set, there, nil, h))
        | inr (t, rest, same) ↦
            inr (md, rest, refl, ground (arith, set, there, same, h, string_eq.same_iff t s.token))
      ]
    ]
  ]

  IsAllowed-check_token :
      (s : Server Db World Failure) (metadata : Option (Dict String (List String)))
      → IsAllowed s metadata
      → check_token s metadata ≡ none
  unfolding check_token is_wrong
  IsAllowed-check_token s metadata (inl empty) =
      ground (arith, (string_eq.same_iff s.token "").1 empty)
  IsAllowed-check_token s metadata (inr (md, rest, some_md, there)) =
      ground (arith, some_md, there, (string_eq.same_iff s.token s.token).1 refl)

  -- Both interceptors call the handler exactly if the server has no token or the first token of
  -- the request is the server's; otherwise nothing happens, and the request gets an error.
  pub auth_interceptors_exact :
      {A : Type 0} (s : Server Db World Failure) (metadata : Option (Dict String (List String)))
      (handler : World → World × Reply Failure A)
      (stream_handler : World → World × Option (ServerError Failure)) (w : World)
      → (IsAllowed s metadata
          × (unary_auth_interceptor s metadata handler w ≡ handler w)
          × (stream_auth_interceptor s metadata stream_handler w ≡ stream_handler w))
        ⊎ ((¬ IsAllowed s metadata)
            × (e : ServerError Failure) × (unary_auth_interceptor s metadata handler w
                ≡ (w, error e))
            × (stream_auth_interceptor s metadata stream_handler w ≡ (w, some e)))
  unfolding unary_auth_interceptor stream_auth_interceptor
  auth_interceptors_exact s metadata handler stream_handler w =
      elim (Option-cases (check_token s metadata)) [
        | inl passes ↦ inl (
          check_token-IsAllowed s metadata passes,
          ground (arith, passes),
          ground (arith, passes),
        )
        | inr (e, fails) ↦ inr (
          λ allowed. absurd (ground (arith, IsAllowed-check_token s metadata allowed, fails)),
          e,
          ground (arith, fails),
          ground (arith, fails),
        )
      ]
