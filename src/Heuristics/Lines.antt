-- ===== src/Heuristics/Lines.antt =====
-- internal/heuristics/heuristics.go: lines as the kernel prints them, read back.
use Prim.Native.Char.{Char}
use text.Mathlib.TextLemmas.{append_assoc, nil-append, cons-append, append-nil}
use aegis_edr.Prelude.{
  ℕ, zero, suc, ◌+◌, ◌*◌, ◌/◌, ◌%◌, ◌^◌, ◌<◌, String, Bool, true, false, not, if◌then◌else◌, some,
  List, [], ◌∷◌, ◌≡◌, refl, sym, ap, ◌∙◌, ◌^^◌, arith, ltb, lt→ltb, ltb→lt, All, Bool-cases, inl,
  inr, every, every-append, is_not, is_word, is_word-append_cons, is_space, join, fields-join,
  split_on-append,
}
use aegis_edr.Heuristics.{MemoryRegion, hex_value, hex_from, scan_hex, parse_line}

-- A digit in base 16; there is none from 16 on.
unfoldable pub hex_digit : ℕ → Char
hex_digit n = nth_digit n digits
  where
    digits : List Char
    digits =
        "0" ∷ "1" ∷ "2" ∷ "3" ∷ "4" ∷ "5" ∷ "6" ∷ "7" ∷ "8" ∷ "9" ∷ "a" ∷ "b" ∷ "c" ∷ "d" ∷ "e"
        ∷ "f" ∷ []

    nth_digit : ℕ → List Char → Char
    nth_digit n [] = "0"
    nth_digit zero (c ∷ cs) = c
    nth_digit (suc n) (c ∷ cs) = nth_digit n cs

-- A number below 16 ^ fuel.
pub show_hex : ℕ → ℕ → String
unfolding hex_digit
show_hex zero n = ""
show_hex (suc fuel) n =
    let higher = show_hex fuel (n / 16) in
    if ltb n 16 then String.◌∷◌ (hex_digit n) "" else higher ^^ String.◌∷◌ (hex_digit (n % 16)) ""

-- A digit is read back, and it is neither a hyphen nor a blank.
IsDigit : ℕ → Char → Type 0
IsDigit d c = (hex_value c ≡ some d) × (is_not "-" c ≡ true) × (not (is_space c) ≡ true)

hex_digit-IsDigit : (d : ℕ) → d < 16 → IsDigit d (hex_digit d)
unfolding IsDigit hex_value hex_digit is_space
hex_digit-IsDigit zero h = (refl, refl, refl)
hex_digit-IsDigit (suc zero) h = (refl, refl, refl)
hex_digit-IsDigit (suc (suc zero)) h = (refl, refl, refl)
hex_digit-IsDigit (suc (suc (suc zero))) h = (refl, refl, refl)
hex_digit-IsDigit (suc (suc (suc (suc zero)))) h = (refl, refl, refl)
hex_digit-IsDigit (suc (suc (suc (suc (suc zero))))) h = (refl, refl, refl)
hex_digit-IsDigit (suc (suc (suc (suc (suc (suc zero)))))) h = (refl, refl, refl)
hex_digit-IsDigit (suc (suc (suc (suc (suc (suc (suc zero))))))) h = (refl, refl, refl)
hex_digit-IsDigit (suc (suc (suc (suc (suc (suc (suc (suc zero)))))))) h = (refl, refl, refl)
hex_digit-IsDigit (suc (suc (suc (suc (suc (suc (suc (suc (suc zero))))))))) h = (refl, refl, refl)
hex_digit-IsDigit (suc (suc (suc (suc (suc (suc (suc (suc (suc (suc zero)))))))))) h =
    (refl, refl, refl)
hex_digit-IsDigit (suc (suc (suc (suc (suc (suc (suc (suc (suc (suc (suc zero))))))))))) h =
    (refl, refl, refl)
hex_digit-IsDigit (suc (suc (suc (suc (suc (suc (suc (suc (suc (suc (suc (suc zero)))))))))))) h =
    (refl, refl, refl)
hex_digit-IsDigit (suc (suc (suc (suc (suc (suc (suc (suc (suc (suc (suc (suc (suc zero)))))))))))))
      h =
    (refl, refl, refl)
hex_digit-IsDigit
      (suc (suc (suc (suc (suc (suc (suc (suc (suc (suc (suc (suc (suc (suc zero)))))))))))))) h =
    (refl, refl, refl)
hex_digit-IsDigit
      (suc (suc (suc (suc (suc (suc (suc (suc (suc (suc (suc (suc (suc (suc (suc zero)))))))))))))))
      h =
    (refl, refl, refl)
hex_digit-IsDigit
      (suc
        (suc (suc (suc (suc (suc (suc (suc (suc (suc (suc (suc (suc (suc (suc (suc n))))))))))))))))
      h =
    absurd (omega (arith, h))

hex_from-hex_digit :
    (m d : ℕ) (t : String)
    → d < 16
    → hex_from m (String.◌∷◌ (hex_digit d) t) ≡ hex_from (m * 16 + d) t
unfolding hex_from IsDigit
hex_from-hex_digit m d t h = rw (hex_from, (hex_digit-IsDigit d h).0) refl

power_suc : (fuel : ℕ) → 16 ^ suc fuel ≡ 16 ^ fuel * 16
power_suc fuel = omega arith

-- The digits of a number are read as the number, whatever follows them.
hex_from-show_hex :
    (fuel n : ℕ) (t : String) → n < 16 ^ fuel → hex_from 0 (show_hex fuel n ^^ t) ≡ hex_from n t
unfolding show_hex
hex_from-show_hex zero n t h = rw nil-append (ap (λ m. hex_from m t) (omega (arith, h)))
hex_from-show_hex (suc fuel) n t h = elim (Bool-cases (ltb n 16)) [
  | inl small ↦
      rw (small, cons-append, nil-append)
        (hex_from-hex_digit 0 n t (ltb→lt n 16 small) ∙ ap (λ m. hex_from m t) (omega arith))
  | inr large ↦
      let above : n / 16 < 16 ^ fuel = omega (arith, h, power_suc fuel) in
      rw (large, append_assoc, cons-append, nil-append)
        (hex_from-show_hex fuel (n / 16) (String.◌∷◌ (hex_digit (n % 16)) t) above
          ∙ hex_from-hex_digit (n / 16) (n % 16) t (omega arith)
          ∙ ap (λ m. hex_from m t) (omega arith))
]

-- A test that every digit passes holds of the text of a number.
every-show_hex :
    (p : Char → Bool) (fuel n : ℕ)
    → ((d : ℕ) → d < 16 → p (hex_digit d) ≡ true)
    → every p (show_hex fuel n) ≡ true
unfolding show_hex
every-show_hex p zero n digits = refl
every-show_hex p (suc fuel) n digits = elim (Bool-cases (ltb n 16)) [
  | inl small ↦ rw (small, digits n (ltb→lt n 16 small)) refl
  | inr large ↦ rw large (
      every-append p (show_hex fuel (n / 16)) (String.◌∷◌ (hex_digit (n % 16)) "")
        (every-show_hex p fuel (n / 16) digits) (rw (digits (n % 16) (omega arith)) refl))
]

-- The sixteen digits of a 64-bit address.
abbrev pub address : ℕ → String
address n = show_hex 16 n

scan_hex-address : (n : ℕ) → n < 2 ^ 64 → scan_hex (address n) ≡ n
unfolding scan_hex
scan_hex-address n h =
    let read = ap (hex_from 0) (sym (append-nil (address n))) ∙ hex_from-show_hex 16 n "" h in
    rw read (rw (lt→ltb n (2 ^ 64) h) refl)

-- The range of a region, as the first word of its line.
abbrev pub range_of : MemoryRegion → String
range_of r = address r.start ^^ String.◌∷◌ "-" (address r.end)

-- A line of /proc/PID/maps, and words after the path if there are any.
abbrev pub line_of : MemoryRegion → String → String → String → List String → String
line_of r offset device inode more =
    join (range_of r) (r.permissions ∷ offset ∷ device ∷ inode ∷ r.path ∷ more)

address-is_not : (n : ℕ) → every (is_not "-") (address n) ≡ true
unfolding IsDigit
address-is_not n = every-show_hex (is_not "-") 16 n (λ d h. (hex_digit-IsDigit d h).1)

address-no_blank : (n : ℕ) → every (λ c. not (is_space c)) (address n) ≡ true
unfolding IsDigit
address-no_blank n = every-show_hex (λ c. not (is_space c)) 16 n (λ d h. (hex_digit-IsDigit d h).2)

hyphen-is_space : is_space "-" ≡ false
unfolding is_space
hyphen-is_space = refl

range_of-is_word : (r : MemoryRegion) → is_word (range_of r) ≡ true
range_of-is_word r =
    is_word-append_cons (address r.start) (address r.end) "-" (address-no_blank r.start)
      (rw hyphen-is_space (address-no_blank r.end))

-- A line is read back as the region that it was printed from, where the addresses have 64 bits and
-- the other columns are words.
pub parse_line-line_of :
    (r : MemoryRegion) (offset device inode : String) (more : List String)
    → r.start < 2 ^ 64
    → r.end < 2 ^ 64
    → All (λ w. is_word w ≡ true) (r.permissions ∷ offset ∷ device ∷ inode ∷ r.path ∷ more)
    → parse_line (line_of r offset device inode more) ≡ some r
unfolding parse_line
parse_line-line_of r offset device inode more low high words =
    rw
      (fields-join (range_of r) (r.permissions ∷ offset ∷ device ∷ inode ∷ r.path ∷ more)
        (range_of-is_word r) words)
      (rw
        (split_on-append "-" (address r.start) (address r.end) (address-is_not r.start)
          (address-is_not r.end))
        (rw (scan_hex-address r.start low, scan_hex-address r.end high) refl))
