-- ===== src/Dict.antt =====
-- Go's maps. Nothing of the program depends on the order in which a map is walked, unless its
-- comment says so; the entries here have distinct keys, the newest first.
use mathlib.Core.Path.{◌≡◌, refl}
use aegis_edr.Prelude.{
  ℕ, Bool, true, Option, none, some, List, [], ◌∷◌, arith, if◌then◌else◌, Comparable, ◌==◌, length,
}

pub record Dict {ℓ κ} (K : Type ℓ) (V : Type κ) : Type (ℓ ⊔ κ) where
  pub entries : List (K × V)

abbrev pub empty {ℓ κ} : {K : Type ℓ} {V : Type κ} → Dict K V
empty = record { entries = [] }

-- len(m)
abbrev pub size {ℓ κ} : {K : Type ℓ} {V : Type κ} → Dict K V → ℕ
size d = length d.entries

pub beq_refl {ℓ} : {K : Type ℓ} ⦃e : Comparable K⦄ (k : K) → (k == k) ≡ true
beq_refl ⦃e⦄ k = (e.same_iff k k).1 refl

-- The value, if it passes the test.
abbrev pub when {ℓ} : {V : Type ℓ} → (V → Bool) → Option V → Option V
when p none = none
when p (some v) = if p v then some v else none

module _ {ℓ κ} {K : Type ℓ} {V : Type κ} ⦃e : Comparable K⦄ where
  find : K → List (K × V) → Option V
  find k [] = none
  find k ((j, v) ∷ l) = if j == k then some v else find k l

  except : K → List (K × V) → List (K × V)
  except gone [] = []
  except gone ((key, v) ∷ more) =
      let kept = except gone more in if key == gone then kept else (key, v) ∷ kept

  find-except :
      (gone sought : K) (l : List (K × V))
      → find sought (except gone l) ≡ (if gone == sought then none else find sought l)
  unfolding find except
  find-except gone sought [] = ground arith
  find-except gone sought ((key, v) ∷ more) = ground (
    arith,
    e.same_iff key gone,
    e.same_iff gone sought,
    e.same_iff key sought,
    find-except gone sought more,
  )

  -- m[k]
  unfoldable pub get : Dict K V → K → Option V
  unfolding find
  get d k = find k d.entries

  -- m[k] = v
  unfoldable pub put : Dict K V → K → V → Dict K V
  unfolding except
  put d k v = record { entries = (k, v) ∷ except k d.entries }

  -- delete(m, k)
  unfoldable pub remove : Dict K V → K → Dict K V
  unfolding except
  remove d k = record { entries = except k d.entries }

  pub get-put :
      (d : Dict K V) (k j : K) (v : V) → get (put d k v) j ≡ (if k == j then some v else get d j)
  unfolding get put
  get-put d k j v = ground (arith, find-except k j d.entries)

  pub get-remove :
      (d : Dict K V) (k j : K) → get (remove d k) j ≡ (if k == j then none else get d j)
  unfolding get remove
  get-remove d k j = find-except k j d.entries

  pub get-empty : (k : K) → get (empty {K = K} {V = V}) k ≡ none
  unfolding get
  get-empty k = refl

  pub get-put_self : (d : Dict K V) (k : K) (v : V) → get (put d k v) k ≡ some v
  get-put_self d k v = rw (get-put, beq_refl k)

  keep_values : (V → Bool) → List (K × V) → List (K × V)
  unfolding except
  keep_values p [] = []
  keep_values p ((j, v) ∷ l) =
      let rest = keep_values p l in if p v then (j, v) ∷ rest else except j rest

  -- `for k, v := range m { if !p(v) { delete(m, k) } }`
  unfoldable pub retain : (V → Bool) → Dict K V → Dict K V
  unfolding keep_values
  retain p d = record { entries = keep_values p d.entries }

  find-keep_values :
      (p : V → Bool) (k : K) (l : List (K × V)) → find k (keep_values p l) ≡ when p (find k l)
  unfolding find keep_values
  find-keep_values p k [] = refl
  find-keep_values p k ((j, v) ∷ l) =
      ground (arith, find-keep_values p k l, e.same_iff j k, find-except j k (keep_values p l))

  pub get-retain : (p : V → Bool) (d : Dict K V) (k : K) → get (retain p d) k ≡ when p (get d k)
  unfolding get retain
  get-retain p d k = find-keep_values p k d.entries

pub ruleset dict_laws = (get-empty, get-remove, get-put, get-retain)
