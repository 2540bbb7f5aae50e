-- ===== src/Storage/Tables/Keys.antt =====
-- internal/storage/storage.go: the keys of a table with INTEGER PRIMARY KEY AUTOINCREMENT.
use aegis_edr.Prelude.{
  ℕ, ◌+◌, ◌≤◌, ◌<◌, Bool, not, some, List, [], ◌∷◌, ◌++◌, ◌≡◌, inl, inr, arith, keep, Bool-cases,
  subst, sym,
}
use aegis_edr.Storage.Tables.{Table, add_row, delete_rows}

-- The keys rise from above `low` to `high` at most.
abbrev Rising : {R : Type 0} → (R → ℕ) → ℕ → ℕ → List R → Type 0
Rising key low high [] = low ≤ high
Rising key low high (r ∷ rows) = (low < key r) × Rising key (key r) high rows

Rising-below :
    {R : Type 0} (key : R → ℕ) (low from high : ℕ) (rows : List R)
    → low ≤ from
    → Rising key from high rows
    → Rising key low high rows
Rising-below key low from high [] le h = omega arith
Rising-below key low from high (r ∷ rows) le (lt, h) = (omega arith, h)

Rising-append :
    {R : Type 0} (key : R → ℕ) (low high : ℕ) (rows : List R) (r : R)
    → Rising key low high rows
    → high < key r
    → Rising key low (key r) (rows ++ r ∷ [])
Rising-append key low high [] r h lt = (omega arith, omega arith)
Rising-append key low high (s ∷ rows) r (first, h) lt =
    (first, Rising-append key (key s) high rows r h lt)

Rising-keep :
    {R : Type 0} (key : R → ℕ) (p : R → Bool) (low high : ℕ) (rows : List R)
    → Rising key low high rows
    → Rising key low high (keep p rows)
Rising-keep key p low high [] h = h
Rising-keep key p low high (r ∷ rows) (lt, h) = elim (Bool-cases (p r)) [
  | inl held ↦ rw held ((lt, Rising-keep key p (key r) high rows h))
  | inr failed ↦
      rw failed
        (Rising-keep key p low high rows (Rising-below key low (key r) high rows (omega arith) h))
]

-- Each key is given once, in the order of the rows.
abbrev pub HasKeys : {R : Type 0} → (R → ℕ) → Table R → Type 0
HasKeys key t = Rising key 0 t.last_id t.rows

-- The table after an insertion: the rows before it and the new one.
pub add_row-some :
    {R : Type 0} (t new : Table R) (new_row : ℕ → R)
    → add_row t new_row ≡ some new
    → new ≡ record { rows = t.rows ++ new_row (t.last_id + 1) ∷ []; last_id = t.last_id + 1 }
unfolding add_row
add_row-some t new new_row added = ground (arith, added)

pub add_row-HasKeys :
    {R : Type 0} (key : R → ℕ) (t new : Table R) (new_row : ℕ → R)
    → HasKeys key t
    → ((id : ℕ) → key (new_row id) ≡ id)
    → add_row t new_row ≡ some new
    → HasKeys key new
add_row-HasKeys key t new new_row h keyed added =
    let id = t.last_id + 1 in
    let high : ℕ → Type 0 = λ n. Rising key 0 n (t.rows ++ new_row id ∷ []) in
    subst (HasKeys key) (sym (add_row-some t new new_row added)) (
      subst high (keyed id)
        (Rising-append key 0 t.last_id t.rows (new_row id) h (rw keyed (omega arith))))

pub delete_rows-HasKeys :
    {R : Type 0} (key : R → ℕ) (gone : R → Bool) (t : Table R)
    → HasKeys key t
    → HasKeys key (delete_rows gone t)
delete_rows-HasKeys key gone t h = Rising-keep key (λ r. not (gone r)) 0 t.last_id t.rows h
