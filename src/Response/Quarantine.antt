-- ===== src/Response/Quarantine.antt =====
-- internal/response/quarantine/quarantine.go: a file is encrypted into the quarantine and removed. The
-- files are a map from paths to contents; the cipher, the random source and the failures of the file
-- system are parameters.
pub mod Safety
use aegis_edr.Prelude.{
  ℕ, String, Bool, true, false, not, if◌then◌else◌, Option, none, some, ◌==◌, string_eq, nat_eq,
  ◌^^◌,
}
use Prim.Native.Char.{code}
use aegis_edr.Dict.{Dict, get, put, remove}

abbrev pub Files : Type 0
Files = Dict String String

-- os.WriteFile: a write that fails can leave the file as it was, or cut short.
pub data Write : Type 0 where
  complete : Write
  untouched : Write
  cut_short : String → Write

pub record System : Type 0 where
  -- os.ReadFile fails on a file that is there; os.MkdirAll and os.Remove fail.
  pub read_fails : Files → String → Bool
  pub mkdir_fails : Files → String → Bool
  pub remove_fails : Files → String → Bool
  pub write : Files → String → String → Write
  -- aes.NewCipher and cipher.NewGCM take the key.
  pub takes_key : String → Bool
  pub nonce : Option String
  -- gcm.Seal, which gives the nonce and the sealed data after it.
  pub seal : String → String → String → String

-- filepath.Base of a path without a slash at its end, which no file that can be read has.
base_from : String → String → String
base_from last String.[] = last
base_from last (String.◌∷◌ c s) = if code c == b'/' then base_from s s else base_from last s

unfoldable pub base : String → String
unfolding base_from
base path = base_from path path

-- filepath.Join(destDir, filepath.Base(srcPath) + ".quarantine") of a clean directory.
unfoldable pub dest_path : String → String → String
dest_path src_path dest_dir = dest_dir ^^ "/" ^^ base src_path ^^ ".quarantine"

module _ (system : System) where
  open system use {read_fails, mkdir_fails, remove_fails, write, takes_key, nonce, seal}

  unfoldable pub read_file : Files → String → Option String
  read_file files path = if read_fails files path then none else get files path

  -- The files, and false for an error.
  unfoldable pub write_file : Files → String → String → Files × Bool
  write_file files path content = elim (write files path content) [
    | complete ↦ (put files path content, true)
    | untouched ↦ (files, false)
    | cut_short content' ↦ (put files path content', false)
  ]

  unfoldable pub remove_file : Files → String → Files × Bool
  remove_file files path =
      if remove_fails files path then (files, false) else (remove files path, true)

  -- From os.WriteFile on.
  store_and_remove : Files → String → String → String → Files × Bool
  unfolding write_file remove_file
  store_and_remove files src_path path encrypted =
      let (written, ok) = write_file files path encrypted in
      if ok then remove_file written src_path else (written, false)

  unfoldable pub quarantine_file : String → Files → String → String → Files × Bool
  unfolding read_file store_and_remove
  quarantine_file key files src_path dest_dir = elim (read_file files src_path) [
    | none ↦ (files, false)
    | some data_ ↦ if not (takes_key key) then (files, false) else elim nonce [
      | none ↦ (files, false)
      | some once ↦
          if mkdir_fails files dest_dir
          then (files, false)
          else store_and_remove files src_path (dest_path src_path dest_dir) (seal key once data_)
    ]
  ]
