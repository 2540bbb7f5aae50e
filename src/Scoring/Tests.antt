-- ===== src/Scoring/Tests.antt =====
-- The score at concrete inputs, in whole hundredths with products rounded down.
use aegis_edr.Prelude.{ℕ, ◌≡◌, refl, List, [], ◌∷◌, Option, some, none, true, false, any, ◌⊎◌}
use aegis_edr.Scoring.{
  IsUnit, EngineResult, calculate_compound_score, product_of, miss, clamp, min_real, max_real,
}
use aegis_edr.Scoring.Bounds.{has_nan, score-IsUnit}
use aegis_edr.Scoring.Percent.{percent, percent-IsRounded}

abbrev found : Option ℕ → Option ℕ → EngineResult (Option ℕ)
found severity weight = record {
  engine_name = "E";
  severity = severity;
  weight = weight;
  mitre_ids = [];
}

-- 1 - (1 - 0.5 * 0.5) * (1 - 1.0 * 0.4)
two_results :
    calculate_compound_score percent (found (some 50) (some 50) ∷ found (some 300) (some 40) ∷ [])
    ≡ some 55
unfolding calculate_compound_score product_of miss clamp min_real max_real
two_results = refl

-- A severity that is NaN.
abbrev strange : List (EngineResult (Option ℕ))
strange = found (some 50) (some 50) ∷ found none (some 40) ∷ []

score-IsUnit_example :
    ((any (has_nan percent percent-IsRounded) strange ≡ false)
      × IsUnit percent (calculate_compound_score percent strange))
    ⊎ ((any (has_nan percent percent-IsRounded) strange ≡ true)
        × (percent.is_nan (calculate_compound_score percent strange) ≡ true))
score-IsUnit_example = score-IsUnit percent percent-IsRounded strange
