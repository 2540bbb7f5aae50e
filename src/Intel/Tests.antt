-- ===== src/Intel/Tests.antt =====
-- internal/intel at concrete inputs.
use aegis_edr.Prelude.{◌≡◌, refl, true, false, none, some, [], ◌∷◌, arith}
use aegis_edr.Storage.Tables.{Engine, created, sqlite, query_indicators}
use aegis_edr.Intel.{
  ioc_type_of, StixObject, StixBundle, Outside, FeedManager, new_reputation_engine,
  new_feed_manager, set_offline_mode, add_source, ingest_stix_bundle, sync, lookup, indicator_of,
}
use aegis_edr.Intel.Cache.{new_reputation_engine-is_known}
use aegis_edr.Intel.Roundtrip.{lookup-sync, row_of}

abbrev working : Engine
working = record { earlier = λ _ _. false; later = λ _ _. false; fails = λ _. false }

abbrev evil : StixObject
evil = record {
  type = "indicator";
  id = "indicator--1";
  pattern_text = "evil.com";
  pattern_type = "domain";
  labels = "malicious-domain" ∷ "c2" ∷ [];
}

abbrev malware : StixObject
malware = record evil { type = "malware"; labels = [] }

abbrev unlabelled : StixObject
unlabelled = record evil { pattern_text = "other.com"; labels = [] }

abbrev bundle : StixBundle
bundle = record { type = "bundle"; objects = malware ∷ evil ∷ unlabelled ∷ [] }

abbrev outside : Outside
outside = record {
  unmarshal = λ _. some bundle;
  is_url = λ _. true;
  do_request = λ _. some (record { status_code = 401; body = none });
}

abbrev manager : FeedManager
manager = set_offline_mode (new_feed_manager true) true

abbrev online : FeedManager
online = add_source (new_feed_manager true) "https://feed"

lookup-sync_example :
    let (stored_in, ok) = ingest_stix_bundle (sqlite working) outside (created 9) "{}" in
    (ok ≡ true)
    × (lookup
          (sync
            (sqlite working)
            outside
            (query_indicators working)
            50
            manager
            stored_in
            new_reputation_engine).2.0
          "evil.com"
          "domain"
        ≡ some (indicator_of 2 50 (row_of evil)))
unfolding ioc_type_of
lookup-sync_example =
    lookup-sync working outside (λ _. refl) 50 manager (created 9) new_reputation_engine "{}" bundle
      (malware ∷ []) (unlabelled ∷ []) evil refl refl refl refl (refl, tt) (omega arith) refl
      (new_reputation_engine-is_known "domain")
