-- ===== src/Response/Quarantine/Safety.antt =====
-- internal/response/quarantine/quarantine.go: no file is lost but by another one of its name.
use aegis_edr.Prelude.{
  String, Bool, true, false, none, some, ◌==◌, string_eq, ◌≡◌, ◌≢◌, ◌⊎◌, inl, inr, refl, sym, subst,
  arith, Option-cases, Bool-cases,
}
use aegis_edr.Dict.{get, put, get-put, get-remove, beq_refl}
use aegis_edr.Response.Quarantine.{
  base, Files, System, Write, complete, untouched, cut_short, dest_path, read_file, write_file,
  remove_file, store_and_remove, quarantine_file,
}

Write-cases :
    (w : Write)
    → (w ≡ complete) ⊎ ((w ≡ untouched) ⊎ ((content : String) × (w ≡ cut_short content)))
Write-cases complete = inl refl
Write-cases untouched = inr (inl refl)
Write-cases (cut_short content) = inr (inr (content, refl))

different : (a b : String) → a ≢ b → (a == b) ≡ false
different a b other = elim (Bool-cases (a == b)) [
  | inl same ↦ absurd (other ((string_eq.same_iff a b).0 same))
  | inr apart ↦ apart
]

module _ (system : System) (key : String) where
  -- The call fails and the file is there as before, or it succeeds: then the file is gone, and its
  -- content is in the quarantine under a fresh nonce.
  abbrev pub Outcome : Files → String → String → Files × Bool → Type 0
  Outcome files src_path path (files', ok) =
      ((ok ≡ false) × (get files' src_path ≡ get files src_path))
      ⊎ ((once : String) × (content : String) × (ok ≡ true)
          × (get files' src_path ≡ none)
          × (get files src_path ≡ some content)
          × (get files' path ≡ some (system.seal key once content)))

  store_and_remove_outcome :
      (files : Files) (src_path path once content : String)
      → src_path ≢ path
      → get files src_path ≡ some content
      → Outcome files src_path path
          (store_and_remove system files src_path path (system.seal key once content))
  unfolding store_and_remove write_file remove_file
  store_and_remove_outcome files src_path path once content other there =
      let encrypted = system.seal key once content in
      let off = different path src_path (λ same. other (sym same)) in
      let off' = different src_path path other in
      let put_there = get-put files path src_path encrypted in
      let gone = get-remove (put files path encrypted) src_path src_path in
      let sealed = get-remove (put files path encrypted) src_path path in
      elim (Write-cases (system.write files path encrypted)) [
        | inl done ↦ elim (Bool-cases (system.remove_fails (put files path encrypted) src_path)) [
          | inl stuck ↦
              inl (ground (arith, done, stuck), ground (arith, done, stuck, off, put_there))
          | inr removed ↦ inr (
            once,
            content,
            ground (arith, done, removed),
            ground (arith, done, removed, gone, beq_refl src_path),
            there,
            ground (
              arith,
              done,
              removed,
              sealed,
              off',
              get-put files path path encrypted,
              beq_refl path,
            ),
          )
        ]
        | inr (inl failed) ↦ inl (ground (arith, failed), ground (arith, failed))
        | inr (inr (rest, failed)) ↦
            inl (
              ground (arith, failed),
              ground (arith, failed, off, get-put files path src_path rest),
            )
      ]

  read_file-get :
      (files : Files) (path content : String)
      → read_file system files path ≡ some content
      → get files path ≡ some content
  unfolding read_file
  read_file-get files path content read = ground (arith, read)

  -- Quarantining a file, whose place in the quarantine is elsewhere, is an error that leaves the file
  -- as it was, or it succeeds: then the file is gone, and what it held is in its place in the
  -- quarantine, sealed with the key and a nonce.
  pub quarantine_file_outcome :
      (files : Files) (src_path dest_dir : String)
      → src_path ≢ dest_path src_path dest_dir
      → Outcome files src_path
          (dest_path src_path dest_dir)
          (quarantine_file system key files src_path dest_dir)
  unfolding quarantine_file
  quarantine_file_outcome files src_path dest_dir other =
      elim (Option-cases (read_file system files src_path)) [
        | inl unread ↦ inl (ground (arith, unread), ground (arith, unread))
        | inr (data_, read) ↦ elim (Bool-cases (system.takes_key key)) [
          | inr bad_key ↦ inl (ground (arith, read, bad_key), ground (arith, read, bad_key))
          | inl good_key ↦ elim (Option-cases system.nonce) [
            | inl no_nonce ↦
                inl (
                  ground (arith, read, good_key, no_nonce),
                  ground (arith, read, good_key, no_nonce),
                )
            | inr (once, drawn) ↦ elim (Bool-cases (system.mkdir_fails files dest_dir)) [
              | inl no_dir ↦ inl (
                ground (arith, read, good_key, drawn, no_dir),
                ground (arith, read, good_key, drawn, no_dir),
              )
              | inr made ↦
                  rw (quarantine_file, read, good_key, drawn, made)
                    (store_and_remove_outcome files src_path (dest_path src_path dest_dir) once
                      data_ other (read_file-get files src_path data_ read))
            ]
          ]
        ]
      ]

  sealed_content :
      (files : Files) (src_path path : String) (out : Files × Bool)
      → Outcome files src_path path out
      → out.1 ≡ true
      → (once : String) × (content : String) × (get files src_path ≡ some content)
        × (get out.0 path ≡ some (system.seal key once content))
  sealed_content files src_path path out (inl (failed, _)) ok = absurd (ground (arith, failed, ok))
  sealed_content files src_path path out (inr (once, content, _, _, there, sealed)) ok =
      (once, content, there, sealed)

  -- Two files of one name are quarantined from two directories, and both calls succeed. Then the first
  -- file's place in the quarantine holds the second file: the first is lost.
  pub quarantine_file_twice :
      (files between after : Files) (first second dest_dir : String)
      → base first ≡ base second
      → second ≢ dest_path second dest_dir
      → quarantine_file system key files first dest_dir ≡ (between, true)
      → quarantine_file system key between second dest_dir ≡ (after, true)
      → (once : String) × (content : String) × (get between second ≡ some content)
        × (get after (dest_path first dest_dir) ≡ some (system.seal key once content))
  unfolding dest_path
  quarantine_file_twice files between after first second dest_dir same_base second_out run_first
        run_second =
      rw same_base (
        sealed_content between second (dest_path second dest_dir) (after, true)
          (subst (Outcome between second (dest_path second dest_dir)) run_second
            (quarantine_file_outcome between second dest_dir second_out))
          refl)
