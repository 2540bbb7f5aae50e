-- ===== src/Scoring/Bounds.antt =====
-- What the compound score promises, for any rounded arithmetic.
use aegis_edr.Prelude.{
  ◌≡◌, refl, sym, subst, ◌∙◌, List, [], ◌∷◌, ◌++◌, true, arith, false, Bool, ◌||◌, any, ◌⊎◌, inl,
  inr, Bool-cases,
}
use mathlib.Core.Path.{ap₂}
use aegis_edr.Scoring.{
  Float64, IsUnit, IsRounded, EngineResult, min_real, max_real, clamp, miss, product_of,
  calculate_compound_score,
}

module _ (f : Float64) (laws : IsRounded f) where
  open f use {Real, is_nan, le, hundredths, times, minus}
  open laws use {
    le_refl, le_total, le_numbers, hundredths_number, hundredths_mono, times_nan, minus_nan,
    times_mono, minus_mono, times_one, times_zero, minus_zero, minus_self,
  }

  abbrev zero_point : Real
  zero_point = hundredths 0

  abbrev one_point : Real
  one_point = hundredths 100

  zero-le-one : le zero_point one_point ≡ true
  zero-le-one = hundredths_mono 0 100 (omega arith)

  zero_refl : le zero_point zero_point ≡ true
  zero_refl = le_refl zero_point (hundredths_number 0)

  one_refl : le one_point one_point ≡ true
  one_refl = le_refl one_point (hundredths_number 100)

  zero-IsUnit : IsUnit f zero_point
  zero-IsUnit = (zero_refl, zero-le-one)

  one-IsUnit : IsUnit f one_point
  one-IsUnit = (zero-le-one, one_refl)

  clamp-IsUnit : (x : Real) → is_nan x ≡ false → IsUnit f (clamp f x)
  unfolding clamp min_real max_real
  clamp-IsUnit x number = ground (
    arith,
    number,
    zero-le-one,
    hundredths_number 0,
    hundredths_number 100,
    le_total one_point x (hundredths_number 100) number,
    zero_refl,
    one_refl,
    le_total zero_point x (hundredths_number 0) number,
  )

  clamp_nan : (x : Real) → is_nan x ≡ true → is_nan (clamp f x) ≡ true
  unfolding clamp min_real max_real
  clamp_nan x nan = ground (arith, nan, hundredths_number 0, hundredths_number 100)

  times-IsUnit : (a b : Real) → IsUnit f a → IsUnit f b → IsUnit f (times a b)
  times-IsUnit a b ha hb = (
    subst (λ z. le z (times a b) ≡ true) times_zero
        (times_mono zero_point a zero_point b zero-IsUnit ha zero-IsUnit hb ha.0 hb.0),
    subst (λ o. le (times a b) o ≡ true) (times_one one_point one-IsUnit)
        (times_mono a one_point b one_point ha one-IsUnit hb one-IsUnit ha.1 hb.1),
  )

  complement-IsUnit : (a : Real) → IsUnit f a → IsUnit f (minus one_point a)
  complement-IsUnit a h = (
    subst (λ z. le z (minus one_point a) ≡ true) minus_self
        (minus_mono one_point one_point one_point a one-IsUnit one-IsUnit one-IsUnit h one_refl
          h.1),
    subst (λ o. le (minus one_point a) o ≡ true) minus_zero
        (minus_mono one_point one_point a zero_point one-IsUnit one-IsUnit h zero-IsUnit one_refl
          h.0),
  )

  -- The severity or the weight is NaN.
  abbrev pub has_nan : EngineResult Real → Bool
  has_nan res = is_nan res.severity || is_nan res.weight

  miss-IsUnit : (res : EngineResult Real) → has_nan res ≡ false → IsUnit f (miss f res)
  unfolding miss
  miss-IsUnit res numbers = complement-IsUnit (times (clamp f res.severity) (clamp f res.weight)) (
      times-IsUnit (clamp f res.severity) (clamp f res.weight)
        (clamp-IsUnit res.severity (ground (arith, numbers)))
        (clamp-IsUnit res.weight (ground (arith, numbers))))

  miss_nan : (res : EngineResult Real) → has_nan res ≡ true → is_nan (miss f res) ≡ true
  unfolding miss
  miss_nan res nan = minus_nan one_point (times (clamp f res.severity) (clamp f res.weight)) (
      ground (
        arith,
        times_nan (clamp f res.severity) (clamp f res.weight)
            (ground (arith, nan, clamp_nan res.severity, clamp_nan res.weight)),
      ))

  product_of-IsUnit :
      (p : Real) (results : List (EngineResult Real))
      → any has_nan results ≡ false
      → IsUnit f p
      → IsUnit f (product_of f p results)
  unfolding product_of
  product_of-IsUnit p [] numbers h = h
  product_of-IsUnit p (res ∷ results) numbers h =
      product_of-IsUnit (times p (miss f res)) results (ground (arith, numbers))
        (times-IsUnit p (miss f res) h (miss-IsUnit res (ground (arith, numbers))))

  product_of_nan :
      (p : Real) (results : List (EngineResult Real))
      → (is_nan p || any has_nan results) ≡ true
      → is_nan (product_of f p results) ≡ true
  unfolding product_of
  product_of_nan p [] nan = ground (arith, nan)
  product_of_nan p (res ∷ results) nan =
      product_of_nan (times p (miss f res)) results
        (ground (arith, nan, miss_nan res, times_nan p (miss f res)))

  -- The shortcut for no results agrees with the loop.
  pub score_lem :
      (results : List (EngineResult Real))
      → calculate_compound_score f results ≡ minus one_point (product_of f one_point results)
  unfolding calculate_compound_score product_of
  score_lem [] = sym minus_self
  score_lem (res ∷ results) = refl

  -- Where all severities and weights are numbers, however large or negative, the compound score
  -- lies from 0.0 to 1.0; where one of them is NaN, it is NaN.
  pub score-IsUnit :
      (results : List (EngineResult Real))
      → ((any has_nan results ≡ false) × IsUnit f (calculate_compound_score f results))
        ⊎ ((any has_nan results ≡ true) × (is_nan (calculate_compound_score f results) ≡ true))
  score-IsUnit results = elim (Bool-cases (any has_nan results)) [
    | inl nan ↦ inr (
      nan,
      rw (score_lem results) (
          minus_nan one_point (product_of f one_point results)
            (ground (arith, product_of_nan one_point results (ground (arith, nan))))),
    )
    | inr numbers ↦ inl (
      numbers,
      rw (score_lem results) (
          complement-IsUnit (product_of f one_point results)
            (product_of-IsUnit one_point results numbers one-IsUnit)),
    )
  ]

  product_of-append :
      (p : Real) (xs : List (EngineResult Real)) (res : EngineResult Real)
      → product_of f p (xs ++ res ∷ []) ≡ times (product_of f p xs) (miss f res)
  unfolding product_of
  product_of-append p [] res = refl
  product_of-append p (x ∷ xs) res = product_of-append (times p (miss f x)) xs res

  times-le : (p m : Real) → IsUnit f p → IsUnit f m → le (times p m) p ≡ true
  times-le p m hp hm =
      subst (λ o. le (times p m) o ≡ true) (times_one p hp)
        (times_mono p p m one_point hp hp hm one-IsUnit (le_refl p (le_numbers _ _ hp.1).0) hm.1)

  -- One more result, of numbers, never lowers a score of numbers.
  pub score_grows :
      (results : List (EngineResult Real)) (res : EngineResult Real)
      → any has_nan results ≡ false
      → has_nan res ≡ false
      → le (calculate_compound_score f results) (calculate_compound_score f (results ++ res ∷ []))
        ≡ true
  score_grows results res numbers number =
      let p = product_of f one_point results in
      let hp = product_of-IsUnit one_point results numbers one-IsUnit in
      let hm = miss-IsUnit res number in
      rw
        (
          score_lem results,
          score_lem (results ++ res ∷ []),
          product_of-append one_point results res,
        )
        (minus_mono one_point one_point p (times p (miss f res)) one-IsUnit one-IsUnit hp
          (times-IsUnit p (miss f res) hp hm) one_refl (times-le p (miss f res) hp hm))

  clamp_saturated : (x : Real) → le (hundredths 100) x ≡ true → clamp f x ≡ hundredths 100
  unfolding clamp min_real max_real
  clamp_saturated x h =
      ground (
        arith,
        h,
        zero-le-one,
        hundredths_number 0,
        hundredths_number 100,
        le_numbers one_point x h,
      )

  pub miss_saturated :
      (r s : EngineResult Real)
      → le (hundredths 100) r.severity ≡ true
      → le (hundredths 100) s.severity ≡ true
      → r.weight ≡ s.weight
      → miss f r ≡ miss f s
  unfolding miss
  miss_saturated r s hr hs w =
      ap₂ (λ x y. minus one_point (times x (clamp f y)))
        (clamp_saturated r.severity hr ∙ sym (clamp_saturated s.severity hs)) w
