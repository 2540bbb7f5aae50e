-- ===== src/Telemetry/Pipeline/Retry.antt =====
-- An event that is lost after deduplication stands in the way of its own repetition.
use aegis_edr.Prelude.{ℕ, ◌+◌, ◌≡◌, refl, ◌<◌, String, false, arith, lt→ltb}
use aegis_edr.Telemetry.Dedup.{is_duplicate}
use aegis_edr.Telemetry.Dedup.Keys.{is_duplicate_again}
use aegis_edr.Telemetry.Pipeline.{Pipeline, Arrival, normalize, ingest}
use aegis_edr.Telemetry.Pipeline.Ingest.{deduplicated, overflowed, fate, ingest-fate}

module _ (sha256_hex : String → String) {Db Hooked : Type 0} where
  overflowed-fresh :
      (p : Pipeline Db Hooked) (a : Arrival)
      → fate sha256_hex p a ≡ overflowed
      → (is_duplicate p.dedup (normalize sha256_hex a.raw a.stamped) a.seen).1 ≡ false
  unfolding fate
  overflowed-fresh p a h = ground arith

  -- An event that the full queue dropped is remembered as seen: within the ttl, ingesting it again
  -- counts it as a duplicate, whatever room the queue has then.
  pub retry_deduplicated :
      (p : Pipeline Db Hooked) (a : Arrival) (later : ℕ)
      → fate sha256_hex p a ≡ overflowed
      → later < a.seen + p.dedup.ttl
      → fate sha256_hex (ingest sha256_hex p a) (record a { seen = later }) ≡ deduplicated
  unfolding fate
  retry_deduplicated p a later lost soon =
      let e = normalize sha256_hex a.raw a.stamped in
      let again = is_duplicate_again p.dedup e e a.seen later (overflowed-fresh p a lost) refl in
      rw (
        (ingest-fate sha256_hex p a).dedup_updated,
        again,
        lt→ltb later (a.seen + p.dedup.ttl) soon,
      )
