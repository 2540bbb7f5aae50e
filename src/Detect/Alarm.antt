-- ===== src/Detect/Alarm.antt =====
-- When a pipeline raises the alarm.
use aegis_edr.Prelude.{
  is_nonempty, ◌≡◌, refl, sym, subst, ◌∙◌, List, [], ◌∷◌, ◌++◌, Bool, true, false, arith,
  if◌then◌else◌, All, ◌&&◌,
}
use aegis_edr.Channel.{Channel, try_send}
use aegis_edr.Telemetry.{Event}
use aegis_edr.Scoring.{Float64, Alert, calculate_compound_score, generate_alert}
use aegis_edr.Detect.{
  DetectionStage, alert, risk_scoring, Scan, report, detect, score_risk, process_stage,
  process_stages, new_context, process,
}

-- The stages before the scoring.
abbrev pub is_detector : {Real : Type 0} → DetectionStage Real → Bool
is_detector alert = false
is_detector (risk_scoring t) = false
is_detector _ = true

module _ (f : Float64) where
  open f use {Real, le}

  abbrev IsDetector : DetectionStage Real → Type 0
  IsDetector stage = is_detector stage ≡ true

  abbrev Quiet : Scan Real → Scan Real → Type 0
  Quiet s t =
      (t.ctx.alert_triggered ≡ s.ctx.alert_triggered) × (t.alerts_channel ≡ s.alerts_channel)

  stage-Quiet :
      (stage : DetectionStage Real) (s : Scan Real)
      → IsDetector stage
      → Quiet s (process_stage f stage s)
  unfolding process_stage detect report
  stage-Quiet alert s h = absurd (ground arith)
  stage-Quiet (risk_scoring t) s h = absurd (ground arith)
  stage-Quiet _ s h = ground arith

  stages-Quiet :
      (stages : List (DetectionStage Real)) (s : Scan Real)
      → All IsDetector stages
      → Quiet s (process_stages f stages s)
  unfolding process_stages
  stages-Quiet [] s h = (refl, refl)
  stages-Quiet (stage ∷ stages) s h =
      let q = stage-Quiet stage s h.0 in
      let q' = stages-Quiet stages (process_stage f stage s) h.1 in (q'.0 ∙ q.0, q'.1 ∙ q.1)

  stages-append :
      (xs ys : List (DetectionStage Real)) (s : Scan Real)
      → process_stages f (xs ++ ys) s ≡ process_stages f ys (process_stages f xs s)
  unfolding process_stages
  stages-append [] ys s = refl
  stages-append (x ∷ xs) ys s = stages-append xs ys (process_stage f x s)

  -- What scoring and alerting do to a scan that raised no alarm before.
  pub record Alarmed (threshold : Real) (s t : Scan Real) : Type 0 where
    pub triggered : t.ctx.alert_triggered ≡ (
        is_nonempty s.ctx.engine_results
        && le threshold (calculate_compound_score f s.ctx.engine_results))
    pub sent : t.alerts_channel ≡ (
        if t.ctx.alert_triggered
        then (try_send s.alerts_channel (generate_alert f s.ctx.engine_results)).0
        else s.alerts_channel)

  last_stages :
      (threshold : Real) (s : Scan Real)
      → s.ctx.alert_triggered ≡ false
      → Alarmed threshold s (process_stages f (risk_scoring threshold ∷ alert ∷ []) s)
  unfolding process_stages process_stage score_risk
  last_stages threshold s quiet = ground arith

  -- A pipeline of detectors, then the scoring, then the alert stage, raises the alarm exactly if
  -- some detector reported and the compound score of the reports reaches the threshold; then, and
  -- only then, the alert about these reports is sent, if the channel has room. The detectors
  -- themselves send nothing.
  pub process_alarm :
      (detectors : List (DetectionStage Real)) (threshold : Real) (e : Event)
      (c : Channel (Alert Real))
      → All IsDetector detectors
      → Alarmed threshold
          (process f detectors e c)
          (process f (detectors ++ risk_scoring threshold ∷ alert ∷ []) e c)
        × ((process f detectors e c).alerts_channel ≡ c)
  unfolding process new_context
  process_alarm detectors threshold e c h =
      let start : Scan Real = record { event = e; ctx = new_context f; alerts_channel = c } in
      let quiet = stages-Quiet detectors start h in
      (
        subst (Alarmed threshold (process_stages f detectors start))
            (sym (stages-append detectors (risk_scoring threshold ∷ alert ∷ []) start))
            (last_stages threshold (process_stages f detectors start) quiet.0),
        quiet.1,
      )
