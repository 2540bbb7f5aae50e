-- ===== src/Intel.antt =====
-- internal/intel: indicators from STIX bundles and TAXII feeds, and the cache that looks them up.
-- JSON, HTTP and the clock are parameters; the mutexes are not modelled, since each operation holds
-- its lock from start to end or, in `Sync`, reads the fields under it once.
pub mod Cache
pub mod Roundtrip
pub mod Feeds
mod Tests
use aegis_edr.Prelude.{
  ℕ, String, Bool, true, false, not, ◌||◌, if◌then◌else◌, Option, none, some, List, [], ◌∷◌, ◌++◌,
  map, ◌==◌, ◌&&◌, string_eq, nat_eq, increment, is_nonempty,
}
use aegis_edr.Dict.{Dict, empty, get, put}
use aegis_edr.Storage.{insert_indicator, DbIndicator}
use aegis_edr.Storage.Sql.{Database}

abbrev pub ioc_hash : String
ioc_hash = "hash"

abbrev pub ioc_domain : String
ioc_domain = "domain"

abbrev pub ioc_url : String
ioc_url = "url"

abbrev pub ioc_certificate : String
ioc_certificate = "certificate"

abbrev pub ioc_ja3 : String
ioc_ja3 = "ja3"

abbrev pub ioc_ja4 : String
ioc_ja4 = "ja4"

abbrev pub ioc_mitre : String
ioc_mitre = "mitre"

pub record Indicator : Type 0 where
  pub pattern_text : String
  pub type : String
  pub label : String
  -- The bits of an int64.
  pub version : ℕ
  pub description : String
  pub last_updated : ℕ

abbrev pub Cache : Type 0
Cache = Dict String (Dict String Indicator)

pub record ReputationEngine : Type 0 where
  pub cache : Cache

unfoldable pub new_reputation_engine : ReputationEngine
new_reputation_engine = record {
  cache =
      put
        (put
          (put
            (put (put (put (put empty ioc_hash empty) ioc_domain empty) ioc_url empty)
              ioc_certificate empty)
            ioc_ja3 empty)
          ioc_ja4 empty)
        ioc_mitre empty;
}

-- One turn of the loop of `Load`: an indicator of a type without a map is left out.
unfoldable pub cache_indicator : Cache → Indicator → Cache
cache_indicator cache ind = elim (get cache ind.type) [
  | none ↦ cache
  | some sub ↦ put cache ind.type (put sub ind.pattern_text ind)
]

unfoldable pub cache_all : Cache → List Indicator → Cache
cache_all cache [] = cache
cache_all cache (ind ∷ indicators) = cache_all (cache_indicator cache ind) indicators

unfoldable pub load : ReputationEngine → List Indicator → ReputationEngine
load engine indicators = record { cache = cache_all engine.cache indicators }

unfoldable pub lookup : ReputationEngine → String → String → Option Indicator
lookup engine pattern_text ioc_type = elim (get engine.cache ioc_type) [
  | none ↦ none
  | some sub ↦ get sub pattern_text
]

pub record StixObject : Type 0 where
  pub type : String
  pub id : String
  pub pattern_text : String
  pub pattern_type : String
  pub labels : List String

pub record StixBundle : Type 0 where
  pub type : String
  pub objects : List StixObject

-- The first label, or "unknown".
unfoldable pub label_of : StixObject → String
label_of obj = first obj.labels
  where
    first : List String → String
    first [] = "unknown"
    first (label ∷ labels) = label

-- The switch of `cacheIndicatorsFromStore`.
unfoldable pub ioc_type_of : String → String
ioc_type_of p_type =
    if p_type == "domain"
    then ioc_domain
    else if p_type == "url"
    then ioc_url
    else if p_type == "certificate"
    then ioc_certificate
    else if p_type == "ja3"
    then ioc_ja3
    else if p_type == "ja4"
    then ioc_ja4
    else if p_type == "mitre"
    then ioc_mitre
    else ioc_hash

unfoldable pub indicator_of : ℕ → ℕ → DbIndicator → Indicator
indicator_of version now row = record {
  pattern_text = row.pattern_text;
  type = ioc_type_of row.pattern_type;
  label = row.threat_label;
  version = version;
  description = "Offline threat intelligence payload";
  last_updated = now;
}

-- A GET with the TAXII media type in its Accept header.
pub record Request : Type 0 where
  pub url : String
  pub accept : String
  pub basic_auth : Option (String × String)

-- `body` is none where reading it fails.
pub record Response : Type 0 where
  pub status_code : ℕ
  pub body : Option String

-- `encoding/json` and `net/http`: none is an error.
pub record Outside : Type 0 where
  pub unmarshal : String → Option StixBundle
  pub is_url : String → Bool
  pub do_request : Request → Option Response

-- `Sync` needs a client where there are sources: with none it panics, which is not modelled.
pub record FeedManager : Type 0 where
  pub has_client : Bool
  pub sources : List String
  pub offline_mode : Bool
  -- The bits of an int64.
  pub version : ℕ

abbrev pub new_feed_manager : Bool → FeedManager
new_feed_manager client = record {
  has_client = client;
  sources = [];
  offline_mode = false;
  version = 1;
}

abbrev pub set_offline_mode : FeedManager → Bool → FeedManager
set_offline_mode fm offline = record fm { offline_mode = offline }

abbrev pub add_source : FeedManager → String → FeedManager
add_source fm url = record fm { sources = fm.sources ++ url ∷ [] }

module _ (sql : Database) (outside : Outside) where
  open sql use {Db}
  open outside use {unmarshal, is_url, do_request}

  -- The loop of `IngestSTIXBundle`, with false for an error: what was stored before it stays.
  unfoldable pub ingest_objects : Db → List StixObject → Db × Bool
  ingest_objects db [] = (db, true)
  ingest_objects db (obj ∷ objects) =
      let skipped = ingest_objects db objects in
      if obj.type == "indicator"
      then elim (insert_indicator sql db obj.pattern_text obj.pattern_type (label_of obj)) [
        | none ↦ (db, false)
        | some db' ↦ ingest_objects db' objects
      ]
      else skipped

  unfoldable pub ingest_stix_bundle : Db → String → Db × Bool
  ingest_stix_bundle db data_ = elim (unmarshal data_) [
    | none ↦ (db, false)
    | some bundle ↦
        if bundle.type == "bundle" then ingest_objects db bundle.objects else (db, false)
  ]

  unfoldable pub ingest_mock_bundle : FeedManager → Db → String → Db × Bool
  ingest_mock_bundle fm db data_ =
      if fm.has_client then ingest_stix_bundle db data_ else (db, false)

  unfoldable pub poll_request : String → String → String → Request
  poll_request url username password = record {
    url = url;
    accept = "application/vnd.oasis.taxii+json; version=2.1";
    basic_auth =
        if not (username == "") || not (password == "") then some (username, password) else none;
  }

  unfoldable pub poll_feed : Db → String → String → String → Db × Bool
  poll_feed db url username password =
      if is_url url
      then elim (do_request (poll_request url username password)) [
        | none ↦ (db, false)
        | some res ↦
            if res.status_code == 200
            then elim res.body [ none ↦ (db, false) | some body ↦ ingest_stix_bundle db body ]
            else (db, false)
      ]
      else (db, false)

  -- The loop over the sources, and whether one of them succeeded.
  unfoldable pub poll_all : Db → List String → Db × Bool
  poll_all db [] = (db, false)
  poll_all db (src ∷ sources) =
      let (db₁, polled) = poll_feed db src "" "" in
      let (db₂, others) = poll_all db₁ sources in (db₂, polled || others)

  module _ (query_indicators : Db → Option (List DbIndicator)) (now : ℕ) where
    -- The engine, and false for an error of the query.
    unfoldable pub cache_indicators_from_store : Db → ReputationEngine → ℕ → ReputationEngine × Bool
    cache_indicators_from_store db engine version = elim (query_indicators db) [
      | none ↦ (engine, false)
      | some rows ↦ (load engine (map (indicator_of version now) rows), true)
    ]

    -- With the version that the manager has by then.
    unfoldable pub load_offline_indicators :
        FeedManager → Db → ReputationEngine → ReputationEngine × Bool
    load_offline_indicators fm db engine = cache_indicators_from_store db engine fm.version

    unfoldable pub sync :
        FeedManager → Db → ReputationEngine → FeedManager × Db × (ReputationEngine × Bool)
    sync fm db engine =
        let fm' = record fm { version = increment fm.version } in
        let (polled, has_success) = poll_all db fm.sources in
        if fm.offline_mode
        then (fm', db, load_offline_indicators fm' db engine)
        else if not has_success && is_nonempty fm.sources
        then (fm', polled, load_offline_indicators fm' polled engine)
        else (fm', polled, cache_indicators_from_store polled engine fm'.version)
