-- ===== src/Forensics/Collector/Tests.antt =====
-- internal/forensics/collector.go at concrete inputs: a text of JSON that is the hash alone.
use aegis_edr.Prelude.{
  ◌≡◌, ◌≢◌, refl, arith, Bool-cases, inl, inr, if◌then◌else◌, ◌==◌, String, none, some, true,
  string_eq,
}
use aegis_edr.Dict.{Dict, get, put, get-put_self, empty}
use aegis_edr.Forensics.{Queries}
use aegis_edr.Forensics.Collector.{EvidencePackage, Outside, collect_evidence, package_evidence}
use aegis_edr.Forensics.Collector.Archive.{Outcome, package_evidence_outcome}

abbrev outside : Outside (Dict String String)
outside = record {
  marshal = λ pkg. some pkg.package_hash;
  sha256_hex = λ text. if text == "" then "e3b0" else "ba78";
  write_file = λ files path content. (put files path content, true);
  rfc3339 = λ _. "";
}

abbrev silent : Queries String
silent = record {
  query_processes = λ _ _ _. none;
  query_file_modifications = λ _ _ _. none;
  query_network_connections = λ _ _ _. none;
}

abbrev evidence : EvidencePackage
evidence = collect_evidence silent none 1000000000000 0 5

-- The text shows the hash.
shown :
    (p q : EvidencePackage) (text : String)
    → outside.marshal p ≡ some text
    → outside.marshal q ≡ some text
    → p.package_hash ≡ q.package_hash
shown p q text h k = ground (arith, h, k)

marked : (text : String) → outside.sha256_hex text ≢ ""
marked text same = elim (Bool-cases (text == "")) [
  | inl blank ↦ absurd (ground (arith, blank, same, (string_eq.same_iff "e3b0" "").1))
  | inr filled ↦ absurd (ground (arith, filled, same, (string_eq.same_iff "ba78" "").1))
]

package_evidence_outcome_example :
    Outcome outside get evidence empty "a.zip" (package_evidence outside evidence empty "a.zip")
unfolding collect_evidence
package_evidence_outcome_example =
    package_evidence_outcome outside get evidence empty "a.zip"
      (λ files path content _. get-put_self files path content) shown marked refl
