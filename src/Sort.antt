-- ===== src/Sort.antt =====
-- `sort.Slice` by a time. It may leave values of one time in another order than this sort, which
-- keeps their order; the theorems say nothing of that order.
use mathlib.Core.List.{Perm}
use mathlib.Core.List.Perm
use aegis_edr.Prelude.{
  ℕ, ◌≤◌, List, [], ◌∷◌, arith, if◌then◌else◌, leb, leb→le, Bool-cases, inl, inr,
}

module _ {A : Type 0} (time : A → ℕ) where
  unfoldable pub insert_by : A → List A → List A
  insert_by i [] = i ∷ []
  insert_by i (j ∷ js) =
      let later = insert_by i js in if leb (time i) (time j) then i ∷ j ∷ js else j ∷ later

  unfoldable pub sort_by : List A → List A
  sort_by [] = []
  sort_by (i ∷ is) = insert_by i (sort_by is)

  abbrev IsAfter : ℕ → List A → Type 0
  IsAfter t [] = Unit
  IsAfter t (i ∷ is) = t ≤ time i

  -- Each item is not before the one that precedes it.
  abbrev pub IsSorted : List A → Type 0
  IsSorted [] = Unit
  IsSorted (i ∷ is) = IsAfter (time i) is × IsSorted is

  insert-IsAfter :
      (t : ℕ) (i : A) (is : List A) → t ≤ time i → IsAfter t is → IsAfter t (insert_by i is)
  unfolding insert_by
  insert-IsAfter t i [] h k = h
  insert-IsAfter t i (j ∷ js) h k = ground arith

  insert-IsSorted : (i : A) (is : List A) → IsSorted is → IsSorted (insert_by i is)
  unfolding insert_by
  insert-IsSorted i [] h = (tt, tt)
  insert-IsSorted i (j ∷ js) h = elim (Bool-cases (leb (time i) (time j))) [
    | inl first ↦ rw (first, insert_by) (leb→le (time i) (time j) first, h)
    | inr later ↦
        rw (later, insert_by)
          (insert-IsAfter (time j) i js (ground arith) h.0, insert-IsSorted i js h.1)
  ]

  insert-Perm : (i : A) (is : List A) → Perm (insert_by i is) (i ∷ is)
  unfolding insert_by
  insert-Perm i [] = Perm.refl (i ∷ [])
  insert-Perm i (j ∷ js) = elim (Bool-cases (leb (time i) (time j))) [
    | inl first ↦ rw (first, insert_by) (Perm.refl (i ∷ j ∷ js))
    | inr later ↦
        rw (later, insert_by) (Perm.trans (Perm.cons j (insert-Perm i js)) (Perm.swap i j js))
  ]

  pub sort-IsSorted : (is : List A) → IsSorted (sort_by is)
  unfolding sort_by
  sort-IsSorted [] = tt
  sort-IsSorted (i ∷ is) = insert-IsSorted i (sort_by is) (sort-IsSorted is)

  pub sort-Perm : (is : List A) → Perm (sort_by is) is
  unfolding sort_by
  sort-Perm [] = Perm.nil
  sort-Perm (i ∷ is) = Perm.trans (insert-Perm i (sort_by is)) (Perm.cons i (sort-Perm is))
