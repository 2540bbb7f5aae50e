-- ===== src/Plugins/Registry.antt =====
-- Which plugins a manager holds.
use aegis_edr.Prelude.{
  ◌≡◌, ◌≢◌, refl, sym, subst, inl, inr, String, Option, none, some, List, [], ◌∷◌, false, arith,
  ◌==◌, string_eq, Bool-cases, Option-cases,
}
use aegis_edr.Dict.{get, put, get-put, get-remove, get-empty, beq_refl}
use aegis_edr.Plugins.{
  Plugin, Manager, Outcome, version_mismatch, api_version, new_manager, start_plugin, init_plugin,
  register_plugin, unregister_plugin, hot_reload_plugin,
}

pub data Call (World Failure : Type 0) : Type 0 where
  registers reloads : Plugin World Failure → Call World Failure
  unregisters : String → Call World Failure

module _ {World Failure : Type 0} where
  -- A plugin that may be registered under a name.
  abbrev pub IsFit : String → Plugin World Failure → Type 0
  IsFit name p = (p.metadata.name ≡ name) × (name ≢ "") × (p.metadata.api_version ≡ api_version)

  abbrev pub IsRegistry : Manager World Failure → Type 0
  IsRegistry m =
      (name : String) (p : Plugin World Failure) → get m.plugins name ≡ some p → IsFit name p

  abbrev pub perform : Manager World Failure → World → Call World Failure → Outcome World Failure
  perform m w (registers p) = register_plugin m p w
  perform m w (reloads p) = hot_reload_plugin m p w
  perform m w (unregisters name) = unregister_plugin m name w

  unfoldable pub run :
      Manager World Failure → World → List (Call World Failure) → Manager World Failure × World
  run m w [] = (m, w)
  run m w (c ∷ cs) = run (perform m w c).0 (perform m w c).1 cs

  put-IsRegistry :
      (m : Manager World Failure) (p : Plugin World Failure)
      → IsFit p.metadata.name p
      → IsRegistry m
      → IsRegistry (record { plugins = put m.plugins p.metadata.name p })
  put-IsRegistry m p fit sound name q h = elim (Bool-cases (p.metadata.name == name)) [
    | inl same ↦
        let e = (string_eq.same_iff p.metadata.name name).0 same in
        let q_is_p : q ≡ p = ground (arith, get-put m.plugins p.metadata.name name p, same, h) in
        subst (λ n. IsFit n q) e (subst (IsFit p.metadata.name) (sym q_is_p) fit)
    | inr other ↦ sound name q (ground (arith, get-put m.plugins p.metadata.name name p, other, h))
  ]

  start-IsRegistry :
      (m : Manager World Failure) (p : Plugin World Failure) (out : World × Option Failure)
      → IsFit p.metadata.name p
      → IsRegistry m
      → IsRegistry (start_plugin m p out).0
  unfolding start_plugin
  start-IsRegistry m p (w, some e) fit sound = sound
  start-IsRegistry m p (w, none) fit sound = put-IsRegistry m p fit sound

  init-IsRegistry :
      (m : Manager World Failure) (p : Plugin World Failure) (out : World × Option Failure)
      → IsFit p.metadata.name p
      → IsRegistry m
      → IsRegistry (init_plugin m p out).0
  unfolding init_plugin
  init-IsRegistry m p (w, some e) fit sound = sound
  init-IsRegistry m p (w, none) fit sound = start-IsRegistry m p (p.start w) fit sound

  register-IsRegistry :
      (m : Manager World Failure) (p : Plugin World Failure) (w : World)
      → IsRegistry m
      → IsRegistry (register_plugin m p w).0
  unfolding register_plugin
  register-IsRegistry m p w sound = elim (Bool-cases (p.metadata.name == "")) [
    | inl unnamed ↦ rw (unnamed, register_plugin) sound
    | inr named ↦ elim (Bool-cases (p.metadata.api_version == api_version)) [
      | inr other ↦ rw (named, other, register_plugin) sound
      | inl same ↦
          rw (named, same, register_plugin)
            (init-IsRegistry m p (p.init w)
              (
                refl,
                (λ e. ground (arith, (string_eq.same_iff p.metadata.name "").1 e, named)),
                (string_eq.same_iff p.metadata.api_version api_version).0 same,
              )
              sound)
    ]
  ]

  unregister-IsRegistry :
      (m : Manager World Failure) (name : String) (w : World)
      → IsRegistry m
      → IsRegistry (unregister_plugin m name w).0
  unfolding unregister_plugin
  unregister-IsRegistry m name w sound = elim (Option-cases (get m.plugins name)) [
    | inl missing ↦ rw (missing, unregister_plugin) sound
    | inr (p, hit) ↦
        rw (hit, unregister_plugin)
          (λ n q h. sound n q (ground (arith, get-remove m.plugins name n, h)))
  ]

  perform-IsRegistry :
      (m : Manager World Failure) (w : World) (c : Call World Failure)
      → IsRegistry m
      → IsRegistry (perform m w c).0
  unfolding hot_reload_plugin
  perform-IsRegistry m w (registers p) sound = register-IsRegistry m p w sound
  perform-IsRegistry m w (unregisters name) sound = unregister-IsRegistry m name w sound
  perform-IsRegistry m w (reloads p) sound =
      register-IsRegistry (unregister_plugin m p.metadata.name w).0 p
        (unregister_plugin m p.metadata.name w).1 (unregister-IsRegistry m p.metadata.name w sound)

  keeps-IsRegistry :
      (m : Manager World Failure) (w : World) (cs : List (Call World Failure))
      → IsRegistry m
      → IsRegistry (run m w cs).0
  unfolding run
  keeps-IsRegistry m w [] sound = sound
  keeps-IsRegistry m w (c ∷ cs) sound =
      keeps-IsRegistry (perform m w c).0 (perform m w c).1 cs (perform-IsRegistry m w c sound)

  -- Whatever plugins are registered, reloaded and unregistered, and whatever fails, a new manager
  -- comes to hold only plugins of the API version of the program, each under its own name, which
  -- is not empty.
  pub run-IsRegistry :
      (w : World) (cs : List (Call World Failure)) → IsRegistry (run new_manager w cs).0
  unfolding new_manager
  run-IsRegistry w cs = keeps-IsRegistry new_manager w cs (λ name p h.
      absurd (ground (arith, get-empty {K = String} {V = Plugin World Failure} name, h)))

  -- A hot reload of a running plugin by one of another API version is refused, but the running
  -- plugin has been stopped and is no longer registered.
  pub hot_reload_loses :
      (m : Manager World Failure) (p q : Plugin World Failure) (w : World)
      → get m.plugins p.metadata.name ≡ some q
      → p.metadata.name ≢ ""
      → p.metadata.api_version ≢ api_version
      → (get (hot_reload_plugin m p w).0.plugins p.metadata.name ≡ none)
        × ((hot_reload_plugin m p w).1 ≡ (q.stop w).0)
        × ((hot_reload_plugin m p w).2 ≡ some (version_mismatch p.metadata.api_version))
  unfolding hot_reload_plugin unregister_plugin register_plugin
  hot_reload_loses m p q w hit named other =
      let unnamed : (p.metadata.name == "") ≡ false =
        ground (arith, string_eq.same_iff p.metadata.name "") in
      let mismatch : (p.metadata.api_version == api_version) ≡ false =
        ground (arith, string_eq.same_iff p.metadata.api_version api_version) in
      (
        rw
            (
              hit,
              hot_reload_plugin,
              unregister_plugin,
              unnamed,
              mismatch,
              register_plugin,
              get-remove m.plugins p.metadata.name p.metadata.name,
              beq_refl p.metadata.name,
            )
            refl,
        rw (hit, hot_reload_plugin, unregister_plugin, unnamed, mismatch, register_plugin) refl,
        rw (hit, hot_reload_plugin, unregister_plugin, unnamed, mismatch, register_plugin) refl,
      )
