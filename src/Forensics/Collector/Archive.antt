-- ===== src/Forensics/Collector/Archive.antt =====
-- internal/forensics/collector.go: what the hash of an archive is the hash of.
use aegis_edr.Prelude.{
  String, Option, none, some, true, false, ◌≡◌, ◌≢◌, ◌⊎◌, inl, inr, refl, ap, subst, sym, ◌∙◌,
  arith, Bool-cases, Option-cases,
}
use aegis_edr.Forensics.Collector.{EvidencePackage, Outside, package_evidence, rewrite_archive}

module _ {Files : Type 0} (outside : Outside Files) (read : Files → String → Option String) where
  open outside use {marshal, sha256_hex, write_file}

  -- The archive as the second write leaves it: another text than the one with the hash.
  abbrev pub Rewritten : EvidencePackage → Files → String → String → Files → Type 0
  Rewritten hashed files path before files' =
      ((marshal hashed ≡ none) × (read files' path ≡ some before))
      ⊎ ((after : String) × (marshal hashed ≡ some after)
          × (after ≢ before)
          × (((write_file files path after).1 ≡ false) ⊎ (read files' path ≡ some after)))

  -- Either there is no hash and the package is as it was, because it has no text or its text cannot
  -- be written; or the hash is that of the text before the hash was put in.
  abbrev pub Outcome :
      EvidencePackage → Files → String → EvidencePackage × Files × Option String → Type 0
  Outcome pkg files path (pkg', files', answer) =
      ((answer ≡ none)
        × (pkg' ≡ pkg)
        × ((marshal pkg ≡ none)
            ⊎ ((before : String) × (marshal pkg ≡ some before)
                × ((write_file files path before).1 ≡ false))))
      ⊎ ((before : String) × (marshal pkg ≡ some before)
          × (answer ≡ some (sha256_hex before))
          × (pkg'.package_hash ≡ sha256_hex before)
          × Rewritten pkg' (write_file files path before).0 path before files')

  -- Where a write that succeeds is read back, JSON shows the package's hash, a SHA-256 is never blank
  -- and the package has no hash yet: packaging the evidence either gives no hash, because the package
  -- has no text or it cannot be written, and leaves the package as it was. Or it gives the hash of
  -- the package's text without the hash, and puts it into the package; the archive then holds a text
  -- that differs from the one with that hash, unless the package has no text any more, or the second
  -- write fails.
  pub package_evidence_outcome :
      (pkg : EvidencePackage) (files : Files) (path : String)
      → ((files' : Files) (path' content : String)
          → (write_file files' path' content).1 ≡ true
          → read (write_file files' path' content).0 path' ≡ some content)
      → ((p q : EvidencePackage) (text : String)
          → marshal p ≡ some text
          → marshal q ≡ some text
          → p.package_hash ≡ q.package_hash)
      → ((text : String) → sha256_hex text ≢ "")
      → pkg.package_hash ≡ ""
      → Outcome pkg files path (package_evidence outside pkg files path)
  unfolding package_evidence rewrite_archive
  package_evidence_outcome pkg files path reads shows long blank =
      elim (Option-cases (marshal pkg)) [
        | inl textless ↦ rw (package_evidence, textless) (inl (refl, refl, inl refl))
        | inr (before, texted) ↦ elim (Bool-cases (write_file files path before).1) [
          | inr unwritten ↦
              rw (package_evidence, texted, unwritten)
                (inl (refl, refl, inr (before, refl, unwritten)))
          | inl written ↦
              let hashed = record pkg { package_hash = sha256_hex before } in
              let files' = (write_file files path before).0 in
              elim (Option-cases (marshal hashed)) [
                | inl lost ↦
                    reach (hashed, files', some (sha256_hex before))
                      (ground (arith, texted, written, lost))
                      (inr
                        (before, texted, refl, refl, inl (lost, reads files path before written)))
                | inr (after, retexted) ↦
                    let differs : after ≢ before = λ same.
                      long before
                        (shows hashed pkg before (retexted ∙ ap some same) texted ∙ blank) in
                    reach (hashed, (write_file files' path after).0, some (sha256_hex before))
                      (ground (arith, texted, written, retexted))
                      (inr (
                        before,
                        texted,
                        refl,
                        refl,
                        inr (
                          after,
                          retexted,
                          differs,
                          elim (Bool-cases (write_file files' path after).1) [
                            | inl rewritten ↦ inr (reads files' path after rewritten)
                            | inr failed ↦ inl failed
                          ],
                        ),
                      ))
              ]
        ]
      ]
    where
      reach :
          (r : EvidencePackage × Files × Option String)
          → package_evidence outside pkg files path ≡ r
          → Outcome pkg files path r
          → Outcome pkg files path (package_evidence outside pkg files path)
      reach r reached holds = subst (Outcome pkg files path) (sym reached) holds
