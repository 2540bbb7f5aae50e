-- ===== src/Policy/Mitigation/Plan.antt =====
-- The loop of EvaluateAndMitigate carries out a plan, and only where the configuration says so.
use mathlib.Core.List.{append_assoc, append-nil}
use aegis_edr.Prelude.{
  ◌≡◌, refl, sym, ap, ◌∙◌, ◌⊎◌, inl, inr, String, none, some, List, [], ◌∷◌, ◌++◌, Bool, true,
  false, arith, map, Option-cases, Bool-cases, fun_ext,
}
use aegis_edr.Dict.{Dict}
use aegis_edr.Policy.{ActionConfig, ResponseConfig, PolicyEngine}
use aegis_edr.Policy.Mitigation.{
  act, Value, Responders, Report, mitigation_disabled, below_threshold, executed, mitigate,
  evaluate_and_mitigate, Task, task_of, plan, task_name, perform, blame, perform_all, report,
  proceed,
}

module _ (responders : Responders) where
  open responders use {World, Failure}

  abbrev Result : Type 0
  Result = World × Report Failure

  act_task :
      (details : Dict String Value) (action : ActionConfig) (w : World) (skip : Result)
      (next : String → World → Result)
      → act responders details action w skip next ≡ elim (task_of details action) [
        | none ↦ skip
        | some t ↦ proceed (perform responders t w) (blame responders t) (next (task_name t))
      ]
  unfolding act task_of task_name perform blame
  act_task details action w skip next = ground arith

  -- The loop is the plan of the configured actions, carried out until a response fails.
  mitigate-perform_all :
      (details : Dict String Value) (actions : List ActionConfig) (done : List String) (w : World)
      → mitigate responders details actions done w
        ≡ perform_all responders (plan details actions) done w
  unfolding mitigate perform_all plan
  mitigate-perform_all details [] done w = refl
  mitigate-perform_all details (action ∷ actions) done w =
      act_task details action w (mitigate responders details actions done w)
        (λ name. mitigate responders details actions (done ++ name ∷ []))
      ∙ elim (Option-cases (task_of details action)) [
        | inl nothing ↦ rw (nothing, plan) (mitigate-perform_all details actions done w)
        | inr (t, asked) ↦
            rw (asked, plan)
              (ap (proceed (perform responders t w) (blame responders t))
                (fun_ext λ w'. mitigate-perform_all details actions (done ++ task_name t ∷ []) w'))
      ]

  -- Where mitigation is on and the score reaches the threshold, the responses are the plan. Where
  -- there is no configuration or mitigation is off, the world stays as it is and the message says
  -- that mitigation is disabled; where it is on and the score is lower, it stays as it is and the
  -- message says so.
  pub evaluate_and_mitigate_gated :
      {Score : Type 0} (less : Score → Score → Bool) (pe : PolicyEngine Score) (score : Score)
      (details : Dict String Value) (w : World)
      → ((cfg : ResponseConfig Score) × (pe.cfg ≡ some cfg)
          × (cfg.auto_mitigation ≡ true)
          × (less score cfg.risk_threshold ≡ false)
          × (evaluate_and_mitigate responders less pe score details w
              ≡ perform_all responders (plan details cfg.actions) [] w))
        ⊎ (((pe.cfg ≡ none)
              ⊎ ((cfg : ResponseConfig Score) × (pe.cfg ≡ some cfg)
                  × (cfg.auto_mitigation ≡ false)))
            × (evaluate_and_mitigate responders less pe score details w ≡ (w, mitigation_disabled)))
        ⊎ ((cfg : ResponseConfig Score) × (pe.cfg ≡ some cfg)
            × (cfg.auto_mitigation ≡ true)
            × (less score cfg.risk_threshold ≡ true)
            × (evaluate_and_mitigate responders less pe score details w ≡ (w, below_threshold)))
  unfolding evaluate_and_mitigate
  evaluate_and_mitigate_gated less pe score details w = elim (Option-cases pe.cfg) [
    | inl unset ↦ inr (inl (inl unset, ground (arith, unset)))
    | inr (cfg, set) ↦ elim (Bool-cases cfg.auto_mitigation) [
      | inl on ↦ elim (Bool-cases (less score cfg.risk_threshold)) [
        | inl low ↦ inr (inr (cfg, set, on, low, ground (arith, set, on, low)))
        | inr high ↦
            inl (cfg, set, on, high, ground (arith, mitigate-perform_all details cfg.actions [] w))
      ]
      | inr off ↦ inr (inl (inr (cfg, set, off), ground (arith, set, off)))
    ]
  ]

  report-names :
      (done names : List String) → report {Failure = Failure} done ≡ executed names → names ≡ done
  unfolding report
  report-names [] names h = absurd (ground arith)
  report-names (a ∷ rest) names h = ground arith

  -- The message of a mitigation that succeeded names all responses of the plan, in order.
  pub perform_all_executed :
      (ts : List Task) (done names : List String) (w : World)
      → (perform_all responders ts done w).1 ≡ executed names
      → names ≡ done ++ map task_name ts
  unfolding perform_all
  perform_all_executed [] done names w h = report-names done names h ∙ sym (append-nil done)
  perform_all_executed (t ∷ ts) done names w h = ground (
    arith,
    perform_all_executed ts (done ++ task_name t ∷ []) names (perform responders t w).0,
    append_assoc done (task_name t ∷ []) (map task_name ts),
  )
