-- ===== src/Scoring/Percent.antt =====
-- A rounded arithmetic on numbers from 0 on and NaN: whole hundredths, products rounded down,
-- differences cut off at 0. It has the laws that the score needs of float64.
use aegis_edr.Prelude.{
  ℕ, ◌-◌, ◌*◌, ◌/◌, ◌≡◌, ◌≤◌, Bool, true, false, Option, none, some, arith, leb, leb→le, le→leb, ap,
  refl,
}
use aegis_edr.Scoring.{Float64, IsRounded}

-- None is NaN.
abbrev at_most : Option ℕ → Option ℕ → Bool
at_most (some a) (some b) = leb a b
at_most (some a) none = false
at_most none b = false

abbrev is_none : Option ℕ → Bool
is_none none = true
is_none (some a) = false

abbrev product : Option ℕ → Option ℕ → Option ℕ
product (some a) (some b) = some (a * b / 100)
product (some a) none = none
product none b = none

abbrev difference : Option ℕ → Option ℕ → Option ℕ
difference (some a) (some b) = some (a - b)
difference (some a) none = none
difference none b = none

abbrev pub percent : Float64
percent = record {
  Real = Option ℕ;
  is_nan = is_none;
  le = at_most;
  hundredths = some;
  times = product;
  minus = difference;
}

product_mono : (a b c d : ℕ) → a ≤ b → c ≤ d → a * c ≤ b * d
product_mono a b c d h k = grind arith

times_mono :
    (a b c d : Option ℕ)
    → at_most a b ≡ true
    → at_most c d ≡ true
    → at_most (product a c) (product b d) ≡ true
times_mono (some a) (some b) (some c) (some d) h k =
    let p = product_mono a b c d (leb→le a b h) (leb→le c d k) in
    le→leb (a * c / 100) (b * d / 100) (omega (arith, p))
times_mono none b c d h k = absurd (ground (arith, h))
times_mono (some a) none c d h k = absurd (ground (arith, h))
times_mono (some a) (some b) none d h k = absurd (ground (arith, k))
times_mono (some a) (some b) (some c) none h k = absurd (ground (arith, k))

minus_mono :
    (a b c d : Option ℕ)
    → at_most a b ≡ true
    → at_most d c ≡ true
    → at_most (difference a c) (difference b d) ≡ true
minus_mono a b c d h k = ground (arith, h, k)

times_one : (a : Option ℕ) → product a (some 100) ≡ a
times_one none = refl
times_one (some a) = ap some (omega arith)

pub percent-IsRounded : IsRounded percent
percent-IsRounded = record {
  le_refl = λ a number. ground (arith, number);
  le_trans = λ a b c h k. ground (arith, h, k);
  le_total = λ a b h k. ground (arith, h, k);
  le_numbers = λ a b h. ground (arith, h);
  hundredths_number = λ n. refl;
  hundredths_mono = le→leb;
  times_nan = λ a b h. ground (arith, h);
  minus_nan = λ a b h. ground (arith, h);
  times_mono = λ a b c d _ _ _ _ h k. times_mono a b c d h k;
  minus_mono = λ a b c d _ _ _ _ h k. minus_mono a b c d h k;
  times_one = λ a _. times_one a;
  times_zero = refl;
  minus_zero = refl;
  minus_self = refl;
}
