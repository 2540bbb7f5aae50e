-- ===== src/Scoring.antt =====
-- internal/scoring/scoring.go. A float64 is a value of an interface: its operations, and the laws
-- of rounded arithmetic that the proofs use. NaN is one of the values; a zero has one sign.
pub mod Bounds
pub mod Percent
mod Tests
use aegis_edr.Prelude.{
  ℕ, ◌≡◌, ◌≤◌, ◌⊎◌, String, List, [], ◌∷◌, ◌++◌, Bool, true, if◌then◌else◌, ◌==◌, string_eq, false,
  ◌||◌,
}

pub record Float64 : Type 1 where
  pub Real : Type 0
  pub is_nan : Real → Bool
  -- a <= b, false where one of them is NaN.
  pub le : Real → Real → Bool
  -- The float64 nearest to a number of hundredths.
  pub hundredths : ℕ → Real
  pub times : Real → Real → Real
  pub minus : Real → Real → Real

module _ (f : Float64) where
  open f use {Real, is_nan, le, hundredths, times, minus}

  -- From 0.0 to 1.0; NaN is not.
  abbrev pub IsUnit : Real → Type 0
  IsUnit a = (le (hundredths 0) a ≡ true) × (le a (hundredths 100) ≡ true)

  -- What IEEE 754 says of `<=` and of `*` and `-` rounded to nearest, as far as it is used. Of the
  -- arithmetic of numbers, only what is from 0.0 to 1.0, so infinities do not enter.
  pub record IsRounded : Type 0 where
    pub le_refl : (a : Real) → is_nan a ≡ false → le a a ≡ true
    pub le_trans : (a b c : Real) → le a b ≡ true → le b c ≡ true → le a c ≡ true
    pub le_total :
        (a b : Real) → is_nan a ≡ false → is_nan b ≡ false → (le a b ≡ true) ⊎ (le b a ≡ true)
    pub le_numbers : (a b : Real) → le a b ≡ true → (is_nan a ≡ false) × (is_nan b ≡ false)
    pub hundredths_number : (n : ℕ) → is_nan (hundredths n) ≡ false
    pub hundredths_mono : (m n : ℕ) → m ≤ n → le (hundredths m) (hundredths n) ≡ true
    -- NaN in, NaN out.
    pub times_nan : (a b : Real) → (is_nan a || is_nan b) ≡ true → is_nan (times a b) ≡ true
    pub minus_nan : (a b : Real) → (is_nan a || is_nan b) ≡ true → is_nan (minus a b) ≡ true
    -- Rounding is monotone, and these products and differences with 0 and 1 are exact.
    pub times_mono :
        (a b c d : Real)
        → IsUnit a
        → IsUnit b
        → IsUnit c
        → IsUnit d
        → le a b ≡ true
        → le c d ≡ true
        → le (times a c) (times b d) ≡ true
    pub minus_mono :
        (a b c d : Real)
        → IsUnit a
        → IsUnit b
        → IsUnit c
        → IsUnit d
        → le a b ≡ true
        → le d c ≡ true
        → le (minus a c) (minus b d) ≡ true
    pub times_one : (a : Real) → IsUnit a → times a (hundredths 100) ≡ a
    pub times_zero : times (hundredths 0) (hundredths 0) ≡ hundredths 0
    pub minus_zero : minus (hundredths 100) (hundredths 0) ≡ hundredths 100
    pub minus_self : minus (hundredths 100) (hundredths 100) ≡ hundredths 0

pub record EngineResult (Real : Type 0) : Type 0 where
  pub engine_name : String
  pub severity : Real
  pub weight : Real
  pub mitre_ids : List String

pub record Alert (Real : Type 0) : Type 0 where
  pub compound_score : Real
  pub triggered_by : List String
  pub mitre_tags : List String

module _ (f : Float64) where
  open f use {Real, is_nan, le, hundredths, times, minus}

  -- math.Min and math.Max, of which one argument is 1.0 or 0.0: NaN where an argument is NaN.
  min_real : Real → Real → Real
  min_real a b = if is_nan a then a else if is_nan b then b else if le a b then a else b

  max_real : Real → Real → Real
  max_real a b = if is_nan a then a else if is_nan b then b else if le a b then b else a

  -- math.Max(0.0, math.Min(1.0, x))
  unfoldable pub clamp : Real → Real
  unfolding min_real max_real
  clamp x = max_real (hundredths 0) (min_real (hundredths 100) x)

  -- The factor of one result: 1.0 - sev * weight.
  unfoldable pub miss : EngineResult Real → Real
  miss res = minus (hundredths 100) (times (clamp res.severity) (clamp res.weight))

  unfoldable pub product_of : Real → List (EngineResult Real) → Real
  product_of product [] = product
  product_of product (res ∷ results) = product_of (times product (miss res)) results

  unfoldable pub calculate_compound_score : List (EngineResult Real) → Real
  calculate_compound_score [] = hundredths 0
  calculate_compound_score (res ∷ results) =
      minus (hundredths 100) (product_of (hundredths 100) (res ∷ results))

names : {Real : Type 0} → List (EngineResult Real) → List String
names [] = []
names (res ∷ results) = res.engine_name ∷ names results

-- The keys of `mitreMap`: each tag once. A map is walked in no particular order; here the tag that
-- was seen last comes first.
add_tags : List String → List String → List String
add_tags seen [] = seen
add_tags seen (id ∷ ids) = add_tags (id ∷ without_tag id seen) ids
  where
    without_tag : String → List String → List String
    without_tag t [] = []
    without_tag t (s ∷ rest) = let kept = without_tag t rest in if s == t then kept else s ∷ kept

collect_tags : {Real : Type 0} → List String → List (EngineResult Real) → List String
unfolding add_tags
collect_tags seen [] = seen
collect_tags seen (res ∷ results) = collect_tags (add_tags seen res.mitre_ids) results

pub generate_alert : (f : Float64) → List (EngineResult f.Real) → Alert f.Real
unfolding names collect_tags
generate_alert f results = record {
  compound_score = calculate_compound_score f results;
  triggered_by = names results;
  mitre_tags = collect_tags [] results;
}
