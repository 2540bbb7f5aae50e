-- ===== src/Prelude/Text.antt =====
-- What the program uses of `strings`, `strconv` and `fmt`, over the native texts. Letters beyond
-- ASCII have no other case here.
use Prim.Native.Char.{Char, code}
use Prim.Native.Nat.{ℕ, zero, suc, ◌-◌, ◌/◌, ◌%◌}
use Prim.Native.String.{String, ◌++◌ as str_append}
use mathlib.Core.Bool.{Bool, true, false, ◌&&◌, ◌||◌}
use mathlib.Core.List.{List, [], ◌∷◌, map}
use mathlib.Core.Option.{none, some}
use text.Mathlib.Text.{find?, starts_with}
use mathlib.Core.Path.{◌≡◌, refl, ap, ap₂, ◌∙◌, sym}
use mathlib.Core.Logic.{inl, inr}
use aegis_edr.Prelude.Tests.{leb, ltb, nat_beq, if◌then◌else◌, Bool-cases}

infixl 65 ◌^^◌
abbrev pub ◌^^◌ : String → String → String
s ^^ t = str_append s t

-- strings.Contains
abbrev pub contains : String → String → Bool
contains s t = elim (find? s t) [ none ↦ false | some _ ↦ true ]

-- strings.HasPrefix
abbrev pub has_prefix : String → String → Bool
has_prefix s t = starts_with s t

lower_letters : List Char
lower_letters =
    "a" ∷ "b" ∷ "c" ∷ "d" ∷ "e" ∷ "f" ∷ "g" ∷ "h" ∷ "i" ∷ "j" ∷ "k" ∷ "l" ∷ "m" ∷ "n" ∷ "o" ∷ "p"
    ∷ "q" ∷ "r" ∷ "s" ∷ "t" ∷ "u" ∷ "v" ∷ "w" ∷ "x" ∷ "y" ∷ "z" ∷ []

nth_char : List Char → ℕ → Char → Char
nth_char [] i d = d
nth_char (c ∷ cs) zero d = c
nth_char (c ∷ cs) (suc i) d = nth_char cs i d

lower_char : Char → Char
unfolding lower_letters nth_char
lower_char c =
    if leb b'A' (code c) && leb (code c) b'Z' then nth_char lower_letters (code c - b'A') c else c

-- strings.ToLower
unfoldable pub to_lower : String → String
unfolding lower_char
to_lower String.[] = String.[]
to_lower (String.◌∷◌ c s) = String.◌∷◌ (lower_char c) (to_lower s)

upper_char : Char → Char
unfolding nth_char
upper_char c =
    if leb b'a' (code c) && leb (code c) b'z' then nth_char upper_letters (code c - b'a') c else c
  where
    upper_letters : List Char
    upper_letters =
        "A" ∷ "B" ∷ "C" ∷ "D" ∷ "E" ∷ "F" ∷ "G" ∷ "H" ∷ "I" ∷ "J" ∷ "K" ∷ "L" ∷ "M" ∷ "N" ∷ "O"
        ∷ "P" ∷ "Q" ∷ "R" ∷ "S" ∷ "T" ∷ "U" ∷ "V" ∷ "W" ∷ "X" ∷ "Y" ∷ "Z" ∷ []

-- strings.ToUpper
unfoldable pub to_upper : String → String
unfolding upper_char
to_upper String.[] = String.[]
to_upper (String.◌∷◌ c s) = String.◌∷◌ (upper_char c) (to_upper s)

unfoldable pub is_space : Char → Bool
is_space c = nat_beq (code c) 32 || (leb 9 (code c) && leb (code c) 13)

trim_left : String → String
unfolding is_space
trim_left String.[] = String.[]
trim_left (String.◌∷◌ c s) = if is_space c then trim_left s else String.◌∷◌ c s

-- A blank in front of nothing but blanks goes too.
trim_right : String → String
unfolding is_space
trim_right String.[] = String.[]
trim_right (String.◌∷◌ c s) = keep_char c (trim_right s)
  where
    keep_char : Char → String → String
    keep_char c String.[] = if is_space c then String.[] else String.◌∷◌ c String.[]
    keep_char c (String.◌∷◌ d r) = String.◌∷◌ c (String.◌∷◌ d r)

-- strings.TrimSpace
unfoldable pub trim_space : String → String
unfolding trim_left trim_right
trim_space s = trim_right (trim_left s)

digit : ℕ → String
digit n = String.◌∷◌ (nth_char digits n "0") String.[]
  where
    digits : List Char
    digits = "0" ∷ "1" ∷ "2" ∷ "3" ∷ "4" ∷ "5" ∷ "6" ∷ "7" ∷ "8" ∷ "9" ∷ []

-- The decimal digits of a number below 10 ^ fuel.
decimal : ℕ → ℕ → String
unfolding digit nth_char
decimal zero n = String.[]
decimal (suc fuel) n =
    let higher = decimal fuel (n / 10) in
    if ltb n 10 then digit n else str_append higher (digit (n % 10))

-- %d of a number below 2 ^ 64, which has 20 digits at most.
unfoldable pub show_nat : ℕ → String
unfolding decimal
show_nat n = decimal 20 n

nth_char-map :
    (f : Char → Char) (cs : List Char) (i : ℕ) (d : Char)
    → f (nth_char cs i d) ≡ nth_char (map f cs) i (f d)
unfolding nth_char
nth_char-map f [] i d = refl
nth_char-map f (c ∷ cs) zero d = refl
nth_char-map f (c ∷ cs) (suc i) d = nth_char-map f cs i d

nth_char_again :
    (cs : List Char) (i : ℕ) (d : Char) → nth_char cs i (nth_char cs i d) ≡ nth_char cs i d
unfolding nth_char
nth_char_again [] i d = refl
nth_char_again (c ∷ cs) zero d = refl
nth_char_again (c ∷ cs) (suc i) d = nth_char_again cs i d

letters_stay : map lower_char lower_letters ≡ lower_letters
unfolding lower_char
letters_stay = refl

lower_char_upper :
    (c : Char)
    → (leb b'A' (code c) && leb (code c) b'Z') ≡ true
    → lower_char c ≡ nth_char lower_letters (code c - b'A') c
unfolding lower_char
lower_char_upper c upper = rw upper

lower_char_other : (c : Char) → (leb b'A' (code c) && leb (code c) b'Z') ≡ false → lower_char c ≡ c
unfolding lower_char
lower_char_other c other = rw other

lower_char_idem : (c : Char) → lower_char (lower_char c) ≡ lower_char c
lower_char_idem c = elim (Bool-cases (leb b'A' (code c) && leb (code c) b'Z')) [
  | inl upper ↦
      let i = code c - b'A' in
      let e = lower_char_upper c upper in
      ap lower_char e
      ∙ nth_char-map lower_char lower_letters i c
      ∙ ap₂ (λ cs d. nth_char cs i d) letters_stay e
      ∙ nth_char_again lower_letters i c
      ∙ sym e
  | inr other ↦ ap lower_char (lower_char_other c other)
]

pub to_lower_idem : (s : String) → to_lower (to_lower s) ≡ to_lower s
unfolding to_lower
to_lower_idem String.[] = refl
to_lower_idem (String.◌∷◌ c s) = λ i. String.◌∷◌ (lower_char_idem c i) (to_lower_idem s i)
