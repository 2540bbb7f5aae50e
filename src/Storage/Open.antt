-- ===== src/Storage/Open.antt =====
-- internal/storage/storage.go: opening the database file, and putting a corrupt one aside. The disk is a
-- map from paths to bytes; what SQLite makes of it, in the file and in the files of its log beside it,
-- is a parameter.
mod Tests
use aegis_edr.Prelude.{
  ◌≡◌, ◌∙◌, ◌⊎◌, inl, inr, refl, String, Bool, true, false, not, ◌&&◌, if◌then◌else◌, Option, none,
  some, List, [], ◌∷◌, arith, ◌==◌, string_eq, ◌^^◌, Bool-cases, Option-cases,
}
use aegis_edr.Dict.{Dict, get, put, remove, get-put_self}

abbrev pub Disk : Type 0
Disk = Dict String String

-- The statements of migrate, by their table or index.
pub data Ddl : Type 0 where
  processes file_modifications network_connections alert_logs indicators : Ddl
  idx_processes_launched_at idx_file_path idx_network_dest idx_processes_sha256 : Ddl

abbrev pub queries : List Ddl
queries =
    processes ∷ file_modifications ∷ network_connections ∷ alert_logs ∷ indicators
    ∷ idx_processes_launched_at ∷ idx_file_path ∷ idx_network_dest ∷ idx_processes_sha256 ∷ []

-- `database/sql` with SQLite, on the database of a path, and os.Rename. False is an error.
pub record System : Type 0 where
  -- sql.Open, which does not touch the disk
  pub opens : String → Bool
  pub ping : Disk → String → Disk × Bool
  pub integrity_check : Disk → String → Disk × Option String
  pub exec : Disk → String → Ddl → Disk × Bool
  pub close : Disk → String → Disk
  pub rename_fails : Disk → String → String → Bool

module _ (system : System) where
  open system use {opens, ping, integrity_check, exec, close, rename_fails}

  -- os.Rename of one file, whose error is dropped.
  unfoldable pub rename : Disk → String → String → Disk
  rename disk from to =
      if rename_fails disk from to
      then disk
      else elim (get disk from) [ none ↦ disk | some content ↦ put (remove disk from) to content ]

  -- The loop of migrate, up to the first error.
  unfoldable pub exec_all : List Ddl → Disk → String → Disk × Bool
  exec_all [] disk path = (disk, true)
  exec_all (query ∷ rest) disk path =
      let (disk', ok) = exec disk path query in
      if ok then exec_all rest disk' path else (disk', false)

  -- The store, or, after an error, the closed database.
  unfoldable pub migrated : Disk → String → Disk × Bool
  unfolding exec_all
  migrated disk path =
      let (disk', ok) = exec_all queries disk path in
      if ok then (disk', true) else (close disk' path, false)

  -- NewStorage up to the integrity check; a database that does not pass is closed.
  unfoldable pub inspect : Disk → String → Disk × Bool
  inspect disk path =
      if not (opens path)
      then (disk, false)
      else let (pinged, ok) = ping disk path in
        if not ok
        then (close pinged path, false)
        else let (checked, integrity) = integrity_check pinged path in
          elim integrity [
            | none ↦ (close checked path, false)
            | some text ↦ if text == "ok" then (checked, true) else (close checked path, false)
          ]

  unfoldable pub handle_corrupt_db : Disk → String → Disk × Bool
  unfolding rename migrated
  handle_corrupt_db disk path =
      let disk' = rename disk path (path ^^ ".corrupt") in
      if opens path then migrated disk' path else (disk', false)

  unfoldable pub new_storage : Disk → String → Disk × Bool
  unfolding inspect migrated handle_corrupt_db
  new_storage disk path =
      let (disk', sound) = inspect disk path in
      if sound then migrated disk' path else handle_corrupt_db disk' path

  -- SQLite does not touch a file, whatever it does to the database of a path.
  pub record IsUntouched (path other : String) : Type 0 where
    pub by_ping : (disk : Disk) → get (ping disk path).0 other ≡ get disk other
    pub by_check : (disk : Disk) → get (integrity_check disk path).0 other ≡ get disk other
    pub by_exec : (disk : Disk) (q : Ddl) → get (exec disk path q).0 other ≡ get disk other
    pub by_close : (disk : Disk) → get (close disk path) other ≡ get disk other

  module _ (path other : String) (apart : IsUntouched path other) where
    open apart use {by_ping, by_check, by_exec, by_close}

    exec_all-keeps :
        (qs : List Ddl) (disk : Disk) → get (exec_all qs disk path).0 other ≡ get disk other
    unfolding exec_all
    exec_all-keeps [] disk = refl
    exec_all-keeps (q ∷ qs) disk =
        ground (arith, by_exec disk q, exec_all-keeps qs (exec disk path q).0)

    migrated-keeps : (disk : Disk) → get (migrated disk path).0 other ≡ get disk other
    unfolding migrated
    migrated-keeps disk =
        ground (arith, exec_all-keeps queries disk, by_close (exec_all queries disk path).0)

    inspect-keeps : (disk : Disk) → get (inspect disk path).0 other ≡ get disk other
    unfolding inspect
    inspect-keeps disk = elim (Bool-cases (opens path)) [
      | inr unopened ↦ ground (arith, unopened)
      | inl opened ↦ elim (Bool-cases (ping disk path).1) [
        | inr unreached ↦
            ground (arith, opened, unreached, by_ping disk, by_close (ping disk path).0)
        | inl reached ↦
            let pinged = (ping disk path).0 in
            let before = by_check pinged ∙ by_ping disk in
            let closed = by_close (integrity_check pinged path).0 ∙ before in
            elim (Option-cases (integrity_check pinged path).1) [
              | inl failed ↦ ground (arith, opened, reached, failed, closed)
              | inr (text, said) ↦ ground (arith, opened, reached, said, before, closed)
            ]
      ]
    ]

  -- What became of the file beside the database's that ends in `.corrupt`, with the disk that the
  -- checks left and their verdict.
  pub Kept : Disk → String → Disk × Bool → Disk → Type 0
  Kept disk path (checked, sound) disk' =
      let aside = path ^^ ".corrupt" in
      ((sound ≡ true) × (get disk' aside ≡ get disk aside))
      ⊎ ((content : String) × (sound ≡ false)
          × (rename_fails checked path aside ≡ false)
          × (get checked path ≡ some content)
          × (get disk' aside ≡ some content))
      ⊎ ((sound ≡ false)
          × ((rename_fails checked path aside ≡ true) ⊎ (get checked path ≡ none))
          × (get disk' aside ≡ get disk aside))

  handle_corrupt_db-keeps :
      (disk : Disk) (path : String)
      → IsUntouched path (path ^^ ".corrupt")
      → get (handle_corrupt_db disk path).0 (path ^^ ".corrupt")
        ≡ get (rename disk path (path ^^ ".corrupt")) (path ^^ ".corrupt")
  unfolding handle_corrupt_db
  handle_corrupt_db-keeps disk path apart = ground (
    arith,
    migrated-keeps path (path ^^ ".corrupt") apart (rename disk path (path ^^ ".corrupt")),
  )

  -- SQLite does not touch the file that ends in `.corrupt`. Then, whatever it does: where the database
  -- passes the checks, that file stays as it was; where it does not, the bytes that the database's
  -- own file has after the checks are in it, unless the file is missing or cannot be renamed: then it
  -- stays as it was, too.
  pub new_storage-Kept :
      (disk : Disk) (path : String)
      → IsUntouched path (path ^^ ".corrupt")
      → Kept disk path (inspect disk path) (new_storage disk path).0
  unfolding Kept new_storage rename
  new_storage-Kept disk path apart =
      let aside = path ^^ ".corrupt" in
      let checked = (inspect disk path).0 in
      let before = inspect-keeps path aside apart disk in
      let moved = handle_corrupt_db-keeps checked path apart in
      elim (Bool-cases (inspect disk path).1) [
        | inl sound ↦
            inl (sound, ground (arith, sound, before, migrated-keeps path aside apart checked))
        | inr corrupt ↦ elim (Bool-cases (rename_fails checked path aside)) [
          | inl stuck ↦
              inr (inr (corrupt, inl stuck, ground (arith, corrupt, stuck, before, moved)))
          | inr free ↦ elim (Option-cases (get checked path)) [
            | inl missing ↦
                inr (
                  inr (corrupt, inr missing, ground (arith, corrupt, free, missing, before, moved)))
            | inr (content, there) ↦ inr (
                inl (
                  content,
                  corrupt,
                  free,
                  there,
                  ground (
                    arith,
                    corrupt,
                    free,
                    there,
                    moved,
                    get-put_self (remove checked path) aside content,
                  ),
                ))
          ]
        ]
      ]
