-- ===== src/Prelude/Fields.antt =====
-- What the program uses of strings.Split and strings.Fields, and what they make of joined texts.
use Prim.Native.Char.{Char, code}
use Prim.Native.String.{String}
use mathlib.Core.Bool.{Bool, true, false, not}
use mathlib.Core.List.{List, [], ◌∷◌}
use mathlib.Core.Path.{◌≡◌, refl}
use native.Mathlib.Omega.{arith}
use text.Mathlib.TextLemmas.{nil-append, cons-append}
use aegis_edr.Prelude.Tests.{nat_beq, nat_beq_iff, if◌then◌else◌}
use aegis_edr.Prelude.Lists.{All}
use aegis_edr.Prelude.Text.{is_space, ◌^^◌}

-- strings.Split by one character: the part before the first separator, and the parts after it.
parts : Char → String → String × List String
parts sep String.[] = ("", [])
parts sep (String.◌∷◌ c s) =
    let (part, more) = parts sep s in
    if nat_beq (code c) (code sep) then ("", part ∷ more) else (String.◌∷◌ c part, more)

unfoldable pub split_on : Char → String → List String
unfolding parts
split_on sep s = let (part, more) = parts sep s in part ∷ more

-- A word that is not empty goes in front of the others.
push_word : String → List String → List String
push_word String.[] more = more
push_word (String.◌∷◌ c word) more = String.◌∷◌ c word ∷ more

-- The word at the start of a text, where it does not start with a blank, and the words after it.
words : String → String × List String
unfolding push_word
words String.[] = ("", [])
words (String.◌∷◌ c s) =
    let (word, more) = words s in
    if is_space c then ("", push_word word more) else (String.◌∷◌ c word, more)

-- strings.Fields
unfoldable pub fields : String → List String
unfolding words
fields s = let (word, more) = words s in push_word word more

-- The test holds of every character.
abbrev pub every : (Char → Bool) → String → Bool
every p String.[] = true
every p (String.◌∷◌ c s) = if p c then every p s else false

every-cons :
    (p : Char → Bool) (c : Char) (s : String)
    → every p (String.◌∷◌ c s) ≡ true
    → (p c ≡ true) × (every p s ≡ true)
every-cons p c s h = (ground (arith, h), ground (arith, h))

pub every-append :
    (p : Char → Bool) (a b : String) → every p a ≡ true → every p b ≡ true → every p (a ^^ b) ≡ true
every-append p String.[] b ha hb = rw nil-append hb
every-append p (String.◌∷◌ c a) b ha hb =
    let (first, rest) = every-cons p c a ha in
    rw (cons-append, every-append p a b rest hb) (rw first refl)

-- A character that is not the separator.
abbrev pub is_not : Char → Char → Bool
is_not sep c = not (nat_beq (code c) (code sep))

same_code : (c : Char) → nat_beq (code c) (code c) ≡ true
same_code c = (nat_beq_iff (code c) (code c)).1 refl

false_of_not : {b : Bool} → not b ≡ true → b ≡ false
false_of_not {b = false} h = refl
false_of_not {b = true} h = absurd (ground (arith, h))

parts-append :
    (sep : Char) (a b : String)
    → every (is_not sep) a ≡ true
    → parts sep (a ^^ String.◌∷◌ sep b) ≡ (a, split_on sep b)
unfolding parts split_on
parts-append sep String.[] b clean = rw nil-append (rw (same_code sep) refl)
parts-append sep (String.◌∷◌ c a) b clean =
    let (first, rest) = every-cons (is_not sep) c a clean in
    rw cons-append (rw (false_of_not first, parts-append sep a b rest) refl)

parts_one : (sep : Char) (a : String) → every (is_not sep) a ≡ true → parts sep a ≡ (a, [])
unfolding parts
parts_one sep String.[] clean = refl
parts_one sep (String.◌∷◌ c a) clean =
    let (first, rest) = every-cons (is_not sep) c a clean in
    rw (false_of_not first, parts_one sep a rest) refl

-- A separator between two texts without one makes two parts.
pub split_on-append :
    (sep : Char) (a b : String)
    → every (is_not sep) a ≡ true
    → every (is_not sep) b ≡ true
    → split_on sep (a ^^ String.◌∷◌ sep b) ≡ a ∷ b ∷ []
unfolding split_on
split_on-append sep a b clean_a clean_b =
    rw (parts-append sep a b clean_a) (rw (parts_one sep b clean_b) refl)

-- No blank, and a character at least.
abbrev pub is_word : String → Bool
is_word String.[] = false
is_word (String.◌∷◌ c s) = every (λ d. not (is_space d)) (String.◌∷◌ c s)

-- The words with a blank between each two.
abbrev pub join : String → List String → String
join first [] = first
join first (second ∷ more) = first ^^ String.◌∷◌ " " (join second more)

blank-is_space : is_space " " ≡ true
unfolding is_space
blank-is_space = refl

words-append :
    (w t : String)
    → every (λ c. not (is_space c)) w ≡ true
    → words (w ^^ String.◌∷◌ " " t) ≡ (w, fields t)
unfolding words fields
words-append String.[] t clean = rw nil-append (rw blank-is_space refl)
words-append (String.◌∷◌ c w) t clean =
    let (first, rest) = every-cons (λ d. not (is_space d)) c w clean in
    rw cons-append (rw (false_of_not first, words-append w t rest) refl)

words_one : (w : String) → every (λ c. not (is_space c)) w ≡ true → words w ≡ (w, [])
unfolding words
words_one String.[] clean = refl
words_one (String.◌∷◌ c w) clean =
    let (first, rest) = every-cons (λ d. not (is_space d)) c w clean in
    rw (false_of_not first, words_one w rest) refl

push_word-is_word :
    (w : String) (more : List String) → is_word w ≡ true → push_word w more ≡ w ∷ more
unfolding push_word
push_word-is_word String.[] more h = absurd (ground (arith, h))
push_word-is_word (String.◌∷◌ c w) more h = refl

is_word-every : (w : String) → is_word w ≡ true → every (λ c. not (is_space c)) w ≡ true
is_word-every String.[] h = refl
is_word-every (String.◌∷◌ c w) h = h

-- Words that are joined by blanks are found again.
pub fields-join :
    (first : String) (more : List String)
    → is_word first ≡ true
    → All (λ w. is_word w ≡ true) more
    → fields (join first more) ≡ first ∷ more
unfolding fields
fields-join first [] word words_more =
    rw (words_one first (is_word-every first word)) (push_word-is_word first [] word)
fields-join first (second ∷ more) word (word_second, words_more) =
    rw (words-append first (join second more) (is_word-every first word)) (
      rw (fields-join second more word_second words_more)
        (push_word-is_word first (second ∷ more) word))

pub is_word-append_cons :
    (a b : String) (c : Char)
    → every (λ d. not (is_space d)) a ≡ true
    → every (λ d. not (is_space d)) (String.◌∷◌ c b) ≡ true
    → is_word (a ^^ String.◌∷◌ c b) ≡ true
is_word-append_cons String.[] b c ha hb = rw nil-append hb
is_word-append_cons (String.◌∷◌ d a) b c ha hb =
    let (first, rest) = every-cons (λ e. not (is_space e)) d a ha in
    rw cons-append (rw first (every-append (λ e. not (is_space e)) a (String.◌∷◌ c b) rest hb))
