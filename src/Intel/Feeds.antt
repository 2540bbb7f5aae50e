-- ===== src/Intel/Feeds.antt =====
-- internal/intel/intel.go: a sync in every mode.
use aegis_edr.Prelude.{ℕ, if◌then◌else◌, Option, List, increment, ◌≡◌, arith}
use aegis_edr.Storage.{DbIndicator}
use aegis_edr.Storage.Sql.{Database}
use aegis_edr.Intel.{
  FeedManager, ReputationEngine, Outside, poll_all, sync, load_offline_indicators,
  cache_indicators_from_store,
}

module _ (sql : Database) (outside : Outside)
    (query_indicators : sql.Db → Option (List DbIndicator)) (now : ℕ) where
  open sql use {Db}

  -- The store that a sync reads: offline, no source is polled.
  abbrev pub read_store : FeedManager → Db → Db
  read_store fm db = if fm.offline_mode then db else (poll_all sql outside db fm.sources).0

  -- A sync polls every source unless the manager is offline, whatever the others answer, and then
  -- caches what the store holds under the next version: the fallback to the offline indicators, where
  -- no source succeeds, does what a successful sync does.
  pub sync_outcome :
      (fm : FeedManager) (db : Db) (engine : ReputationEngine)
      → sync sql outside query_indicators now fm db engine ≡ (
        record fm { version = increment fm.version },
        read_store fm db,
        cache_indicators_from_store sql outside query_indicators now
            (read_store fm db)
            engine
            (increment fm.version),
      )
  unfolding sync load_offline_indicators
  sync_outcome fm db engine = ground arith
