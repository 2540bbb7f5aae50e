-- ===== src/Detect/Context.antt =====
-- What a pipeline collects about an event.
use aegis_edr.Prelude.{
  ℕ, ◌≡◌, ◌≤◌, refl, sym, ap, subst, ◌∙◌, inl, inr, String, List, [], ◌∷◌, Bool, true, false, arith,
  if◌then◌else◌, length, length-append, All, All-append, map, ◌&&◌, ◌||◌, Option-cases, leb,
  contains, ◌==◌, string_eq, int_eq, pos,
}
use aegis_edr.Dict.{get}
use aegis_edr.Channel.{Channel}
use aegis_edr.Telemetry.{Event}
use aegis_edr.Scoring.{
  Float64, IsRounded, EngineResult, Alert, calculate_compound_score, product_of, miss,
}
use aegis_edr.Scoring.Bounds.{score_lem, miss_saturated}
use aegis_edr.Detect.{
  DetectionContext, DetectionStage, normalizer, behavior_analysis, correlation, alert, heuristic,
  ioc_matching, yara, sigma, threat_intel, risk_scoring, Scan, report, detect, score_risk,
  process_stage, process_stages, new_context, process, flag, first_pattern,
}

module _ (f : Float64) (laws : IsRounded f) where
  open f use {Real, le, hundredths}
  open laws use {hundredths_mono, le_refl, hundredths_number}

  -- A severity of 1.0 or more.
  abbrev pub IsSaturated : EngineResult Real → Type 0
  IsSaturated r = le (hundredths 100) r.severity ≡ true

  -- Each result comes with a match, and the severities are at the upper end of the scale or above.
  pub record IsPaired (ctx : DetectionContext Real) : Type 0 where
    pub paired : length ctx.engine_results ≡ length ctx.matches
    pub saturated : All IsSaturated ctx.engine_results

  report-IsPaired :
      (ctx : DetectionContext Real) (name : String) (severity weight : ℕ) (mitre text : String)
      → 100 ≤ severity
      → IsPaired ctx
      → IsPaired (report f ctx name severity weight mitre text)
  unfolding report
  report-IsPaired ctx name severity weight mitre text h p =
      let r : EngineResult Real = record {
        engine_name = name;
        severity = hundredths severity;
        weight = hundredths weight;
        mitre_ids = mitre ∷ [];
      } in
      record {
        paired = omega (
          arith,
          length-append ctx.engine_results (r ∷ []),
          length-append ctx.matches (text ∷ []),
          p.paired,
        );
        saturated =
            All-append IsSaturated ctx.engine_results (r ∷ []) p.saturated
              (hundredths_mono 100 severity h, tt);
      }

  if-IsPaired :
      (b : Bool) (ctx ctx' : DetectionContext Real)
      → IsPaired ctx
      → IsPaired ctx'
      → IsPaired (if b then ctx' else ctx)
  if-IsPaired true ctx ctx' p p' = p'
  if-IsPaired false ctx ctx' p p' = p

  detect-IsPaired :
      (stage : DetectionStage Real) (e : Event) (ctx : DetectionContext Real)
      → IsPaired ctx
      → IsPaired (detect f stage e ctx)
  unfolding detect
  detect-IsPaired behavior_analysis e ctx p =
      if-IsPaired (e.type == "process" && e.parent_id == pos 1) ctx _ p
        (report-IsPaired ctx _ 300 50 _ _ (omega arith) p)
  detect-IsPaired (heuristic t) e ctx p =
      if-IsPaired (contains e.command_line "-nop" || contains e.command_line "-enc") ctx _ p
        (report-IsPaired ctx _ 650 70 _ _ (omega arith) p)
  detect-IsPaired (ioc_matching iocs) e ctx p = elim (Option-cases (get iocs e.sha256)) [
    | inl nothing ↦ rw (nothing, detect) p
    | inr (label, hit) ↦ rw (hit, detect) (report-IsPaired ctx _ 950 90 _ _ (omega arith) p)
  ]
  detect-IsPaired (yara rules) e ctx p =
      if-IsPaired (e.type == "process" && flag rules e.binary_path) ctx _ p
        (report-IsPaired ctx _ 800 80 _ _ (omega arith) p)
  detect-IsPaired (sigma patterns) e ctx p =
      elim (Option-cases (first_pattern e.command_line patterns)) [
        | inl nothing ↦ rw (nothing, detect) p
        | inr (pat, hit) ↦ rw (hit, detect) (report-IsPaired ctx _ 700 80 _ _ (omega arith) p)
      ]
  detect-IsPaired (threat_intel indicators) e ctx p =
      if-IsPaired (flag indicators e.remote_ip) ctx _ p
        (report-IsPaired ctx _ 900 90 _ _ (omega arith) p)
  detect-IsPaired correlation e ctx p =
      if-IsPaired (leb 2 (length ctx.engine_results)) ctx _ p
        (report-IsPaired ctx _ 500 50 _ _ (omega arith) p)
  detect-IsPaired _ e ctx p = p

  score_risk-keeps :
      (t : Real) (ctx : DetectionContext Real)
      → ((score_risk f t ctx).engine_results ≡ ctx.engine_results)
        × ((score_risk f t ctx).matches ≡ ctx.matches)
  unfolding score_risk
  score_risk-keeps t ctx = ground arith

  alert-ctx : (s : Scan Real) → (process_stage f alert s).ctx ≡ s.ctx
  unfolding process_stage
  alert-ctx s = ground arith

  stage-IsPaired :
      (stage : DetectionStage Real) (s : Scan Real)
      → IsPaired s.ctx
      → IsPaired (process_stage f stage s).ctx
  unfolding process_stage
  stage-IsPaired normalizer s p = p
  stage-IsPaired (risk_scoring t) s p =
      let k = score_risk-keeps t s.ctx in
      record {
        paired = ap length k.0 ∙ p.paired ∙ sym (ap length k.1);
        saturated = rw k.0 p.saturated;
      }
  stage-IsPaired alert s p = subst IsPaired (sym (alert-ctx s)) p
  stage-IsPaired stage s p = detect-IsPaired stage s.event s.ctx p

  stages-IsPaired :
      (stages : List (DetectionStage Real)) (s : Scan Real)
      → IsPaired s.ctx
      → IsPaired (process_stages f stages s).ctx
  unfolding process_stages
  stages-IsPaired [] s p = p
  stages-IsPaired (stage ∷ stages) s p =
      stages-IsPaired stages (process_stage f stage s) (stage-IsPaired stage s p)

  -- Whatever the stages and the event, a pipeline ends with as many matches as results, and every
  -- severity that it reports is 1.0 or more.
  pub process-IsPaired :
      (stages : List (DetectionStage Real)) (e : Event) (c : Channel (Alert Real))
      → IsPaired (process f stages e c).ctx
  unfolding process new_context
  process-IsPaired stages e c = stages-IsPaired stages _ (record { paired = refl; saturated = tt })

  -- The result with the severity 1.0.
  abbrev pub level : EngineResult Real → EngineResult Real
  level r = record r { severity = hundredths 100 }

  product_of-level :
      (p : Real) (rs : List (EngineResult Real))
      → All IsSaturated rs
      → product_of f p rs ≡ product_of f p (map level rs)
  unfolding product_of
  product_of-level p [] h = refl
  product_of-level p (r ∷ rs) h =
      ap (λ m. product_of f (f.times p m) rs)
        (miss_saturated f laws r (level r) h.0 (le_refl (hundredths 100) (hundredths_number 100))
          refl)
      ∙ product_of-level (f.times p (miss f (level r))) rs h.1

  -- So the severities that the stages report make no difference to the score of a pipeline: it is
  -- the score of the same results with the severity 1.0.
  pub process_score_level :
      (stages : List (DetectionStage Real)) (e : Event) (c : Channel (Alert Real))
      → calculate_compound_score f (process f stages e c).ctx.engine_results
        ≡ calculate_compound_score f (map level (process f stages e c).ctx.engine_results)
  process_score_level stages e c =
      let rs = (process f stages e c).ctx.engine_results in
      score_lem f laws rs
      ∙ ap (f.minus (hundredths 100))
          (product_of-level (hundredths 100) rs (process-IsPaired stages e c).saturated)
      ∙ sym (score_lem f laws (map level rs))
