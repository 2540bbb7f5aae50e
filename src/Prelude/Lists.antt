-- ===== src/Prelude/Lists.antt =====
-- Lists measured by native numbers, and predicates on them by recursion.
use Prim.Native.Nat.{ℕ, zero, suc, ◌+◌, ◌≤◌, ◌<◌, min}
use mathlib.Core.Path.{◌≡◌, refl, ap, sym, ◌∙◌}
use mathlib.Core.Logic.{◌≢◌}
use mathlib.Core.Bool.{Bool, true, false, ◌||◌}
use mathlib.Core.List.{List, [], ◌∷◌, ◌++◌, append_assoc}
use mathlib.Core.Option.{Option, none, some}
use native.Mathlib.Omega.{arith}
use mathlib.Core.Logic.{inl, inr}
use aegis_edr.Prelude.Tests.{if◌then◌else◌, Bool-cases}

module _ {ℓ} {A : Type ℓ} where
  abbrev pub length : List A → ℕ
  length [] = 0
  length (x ∷ xs) = suc (length xs)

  pub length-append : (xs ys : List A) → length (xs ++ ys) ≡ length xs + length ys
  length-append [] ys = omega arith
  length-append (x ∷ xs) ys = omega (arith, length-append xs ys)

  abbrev pub get_elem? : List A → ℕ → Option A
  get_elem? [] i = none
  get_elem? (x ∷ xs) zero = some x
  get_elem? (x ∷ xs) (suc i) = get_elem? xs i

  abbrev pub take : ℕ → List A → List A
  take zero xs = []
  take (suc n) [] = []
  take (suc n) (x ∷ xs) = x ∷ take n xs

  pub length-take : (n : ℕ) (xs : List A) → length (take n xs) ≡ min n (length xs)
  length-take zero xs = omega arith
  length-take (suc n) [] = omega arith
  length-take (suc n) (x ∷ xs) = omega (arith, length-take n xs)

  -- The entries that pass a test, in order.
  abbrev pub keep : (A → Bool) → List A → List A
  keep p [] = []
  keep p (x ∷ xs) = if p x then x ∷ keep p xs else keep p xs

  pub length-keep-le : (p : A → Bool) (xs : List A) → length (keep p xs) ≤ length xs
  length-keep-le p [] = omega arith
  length-keep-le p (x ∷ xs) = grind (arith, length-keep-le p xs)

  -- The list with the entry at a place changed, if there is one.
  abbrev pub update : ℕ → (A → A) → List A → List A
  update i f [] = []
  update zero f (x ∷ xs) = f x ∷ xs
  update (suc i) f (x ∷ xs) = x ∷ update i f xs

  pub length-update : (i : ℕ) (f : A → A) (xs : List A) → length (update i f xs) ≡ length xs
  length-update i f [] = refl
  length-update zero f (x ∷ xs) = refl
  length-update (suc i) f (x ∷ xs) = ap suc (length-update i f xs)

  pub get_elem-update_last :
      (f : A → A) (xs : List A) (x : A)
      → get_elem? (update (length xs) f (xs ++ x ∷ [])) (length xs) ≡ some (f x)
  get_elem-update_last f [] x = refl
  get_elem-update_last f (y ∷ xs) x = get_elem-update_last f xs x

  pub get_elem-update :
      (i : ℕ) (f : A → A) (xs : List A) (x : A)
      → get_elem? xs i ≡ some x
      → get_elem? (update i f xs) i ≡ some (f x)
  get_elem-update i f [] x h = absurd (ground arith)
  get_elem-update zero f (y ∷ xs) x h = ground (arith, h)
  get_elem-update (suc i) f (y ∷ xs) x h = get_elem-update i f xs x h

  pub get_elem-update_other :
      (i j : ℕ) (f : A → A) (xs : List A) → i ≢ j → get_elem? (update i f xs) j ≡ get_elem? xs j
  get_elem-update_other i j f [] h = refl
  get_elem-update_other zero zero f (y ∷ xs) h = absurd (h refl)
  get_elem-update_other zero (suc j) f (y ∷ xs) h = refl
  get_elem-update_other (suc i) zero f (y ∷ xs) h = refl
  get_elem-update_other (suc i) (suc j) f (y ∷ xs) h =
      get_elem-update_other i j f xs (λ same. h (ap suc same))

  pub get_elem-append :
      (xs ys : List A) (i : ℕ) (x : A) → get_elem? xs i ≡ some x → get_elem? (xs ++ ys) i ≡ some x
  get_elem-append [] ys i x h = absurd (ground arith)
  get_elem-append (y ∷ xs) ys zero x h = h
  get_elem-append (y ∷ xs) ys (suc i) x h = get_elem-append xs ys i x h

  pub get_elem-append_last : (xs : List A) (x : A) → get_elem? (xs ++ x ∷ []) (length xs) ≡ some x
  get_elem-append_last [] x = refl
  get_elem-append_last (y ∷ xs) x = get_elem-append_last xs x

  pub get_elem-lt : (xs : List A) (i : ℕ) (x : A) → get_elem? xs i ≡ some x → i < length xs
  get_elem-lt [] i x h = absurd (ground arith)
  get_elem-lt (y ∷ xs) zero x h = omega arith
  get_elem-lt (y ∷ xs) (suc i) x h = omega (arith, get_elem-lt xs i x h)

  abbrev pub is_nonempty : List A → Bool
  is_nonempty [] = false
  is_nonempty (x ∷ xs) = true

  abbrev pub any : (A → Bool) → List A → Bool
  any p [] = false
  any p (x ∷ xs) = if p x then true else any p xs

  abbrev pub All {κ} : (A → Type κ) → List A → Type κ
  All P [] = Unit
  All P (x ∷ xs) = P x × All P xs

  pub All-append {κ} : (P : A → Type κ) (xs ys : List A) → All P xs → All P ys → All P (xs ++ ys)
  All-append P [] ys hx hy = hy
  All-append P (x ∷ xs) ys (first, rest) hy = (first, All-append P xs ys rest hy)

pub All-map {ℓ κ κ'} :
    {A : Type ℓ} (P : A → Type κ) (Q : A → Type κ') (xs : List A)
    → ((x : A) → P x → Q x)
    → All P xs
    → All Q xs
All-map P Q [] h p = tt
All-map P Q (x ∷ xs) h (p, ps) = (h x p, All-map P Q xs h ps)

-- The lists of a list, one after another.
abbrev pub concat {ℓ} : {A : Type ℓ} → List (List A) → List A
concat [] = []
concat (x ∷ xs) = x ++ concat xs

pub concat-append {ℓ} :
    {A : Type ℓ} (xs ys : List (List A)) → concat (xs ++ ys) ≡ concat xs ++ concat ys
concat-append [] ys = refl
concat-append (x ∷ xs) ys =
    ap (◌++◌ x) (concat-append xs ys) ∙ sym (append_assoc x (concat xs) (concat ys))

module _ {ℓ} {A : Type ℓ} where
  pub any-append_left : (p : A → Bool) (xs ys : List A) → any p xs ≡ true → any p (xs ++ ys) ≡ true
  any-append_left p [] ys h = absurd (ground arith)
  any-append_left p (x ∷ xs) ys h = ground (arith, any-append_left p xs ys)

  pub any-append_one :
      (p : A → Bool) (xs : List A) (x : A) → any p (xs ++ x ∷ []) ≡ (any p xs || p x)
  any-append_one p [] x = ground arith
  any-append_one p (y ∷ xs) x = ground (arith, any-append_one p xs x)

  pub All-keep {κ} : (P : A → Type κ) (p : A → Bool) (xs : List A) → All P xs → All P (keep p xs)
  All-keep P p [] h = tt
  All-keep P p (x ∷ xs) (first, rest) = elim (Bool-cases (p x)) [
    | inl held ↦ rw held ((first, All-keep P p xs rest))
    | inr failed ↦ rw failed (All-keep P p xs rest)
  ]

  pub keep-append : (p : A → Bool) (xs ys : List A) → keep p (xs ++ ys) ≡ keep p xs ++ keep p ys
  keep-append p [] ys = refl
  keep-append p (x ∷ xs) ys = elim (Bool-cases (p x)) [
    | inl held ↦ rw held (ap (◌∷◌ x) (keep-append p xs ys))
    | inr failed ↦ rw failed (keep-append p xs ys)
  ]

  pub keep_all : (xs : List A) → keep (λ _. true) xs ≡ xs
  keep_all [] = refl
  keep_all (x ∷ xs) = ap (◌∷◌ x) (keep_all xs)

  pub All-and {κ κ'} :
      (P : A → Type κ) (Q : A → Type κ') (xs : List A)
      → All P xs
      → All Q xs
      → All (λ x. P x × Q x) xs
  All-and P Q [] hp hq = tt
  All-and P Q (x ∷ xs) (px, hp) (qx, hq) = ((px, qx), All-and P Q xs hp hq)

  -- Every entry is found in its list.
  pub All-any :
      (same : A → A → Bool) (xs : List A)
      → ((x : A) → same x x ≡ true)
      → All (λ x. any (λ y. same y x) xs ≡ true) xs
  All-any same [] h = tt
  All-any same (x ∷ xs) h = (
    ground (arith, h x),
    All-map (λ z. any (λ y. same y z) xs ≡ true) (λ z. any (λ y. same y z) (x ∷ xs) ≡ true) xs
        (λ z found. ground (arith, found)) (All-any same xs h),
  )
