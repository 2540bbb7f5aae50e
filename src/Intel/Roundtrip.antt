-- ===== src/Intel/Roundtrip.antt =====
-- internal/intel over the tables of internal/storage/storage.go: from a STIX bundle to a lookup.
use aegis_edr.Prelude.{
  ℕ, ◌+◌, ◌≤◌, ◌<◌, String, Bool, true, false, ◌&&◌, some, List, [], ◌∷◌, ◌++◌, map, keep,
  keep-append, keep_all, ◌≡◌, refl, sym, ap, subst, ◌∙◌, arith, ◌==◌, string_eq, All, length,
  increment, Bool-cases, inl, inr,
}
use mathlib.Core.List.{append_assoc, append-nil, map-append}
use aegis_edr.Storage.{DbIndicator, insert_indicator}
use aegis_edr.Storage.Tables.{
  Tables, Engine, sqlite, execute, insert, add_row, new_indicator, max_id, query_indicators, select,
}
use aegis_edr.Intel.{
  StixObject, StixBundle, Indicator, Outside, FeedManager, ReputationEngine, label_of, indicator_of,
  ingest_objects, ingest_stix_bundle, ioc_type_of, sync, load, lookup, cache_indicators_from_store,
  load_offline_indicators,
}
use aegis_edr.Intel.Cache.{is_known, is_match, lookup-load}

abbrev pub is_indicator : StixObject → Bool
is_indicator obj = obj.type == "indicator"

-- The row that an object of a bundle becomes.
abbrev pub row_of : StixObject → DbIndicator
row_of obj = record {
  pattern_text = obj.pattern_text;
  pattern_type = obj.pattern_type;
  threat_label = label_of obj;
}

abbrev pub stored : List StixObject → List DbIndicator
stored objects = map row_of (keep is_indicator objects)

-- A later object with the same pattern and the same type of indicator takes the place of `obj`.
abbrev pub replaces : StixObject → StixObject → Bool
replaces obj later =
    is_indicator later
    && (ioc_type_of later.pattern_type == ioc_type_of obj.pattern_type
        && later.pattern_text == obj.pattern_text)

not_replaced :
    (version now : ℕ) (obj : StixObject) (objects : List StixObject)
    → All (λ later. replaces obj later ≡ false) objects
    → All
        (λ later. is_match obj.pattern_text (ioc_type_of obj.pattern_type) later ≡ false)
        (map (indicator_of version now) (stored objects))
unfolding indicator_of
not_replaced version now obj [] h = tt
not_replaced version now obj (later ∷ objects) (first, h) = elim (Bool-cases (is_indicator later)) [
  | inl taken ↦ rw taken ((ground (arith, taken, first), not_replaced version now obj objects h))
  | inr other ↦ rw other (not_replaced version now obj objects h)
]

stored-split :
    (before after : List StixObject) (obj : StixObject)
    → is_indicator obj ≡ true
    → stored (before ++ obj ∷ after) ≡ stored before ++ row_of obj ∷ stored after
stored-split before after obj taken =
    ap (map row_of) (keep-append is_indicator before (obj ∷ after))
    ∙ map-append _ (keep is_indicator before) (keep is_indicator (obj ∷ after))
    ∙ rw taken refl

module _ (engine : Engine) (outside : Outside) (works : (t : Tables) → engine.fails t ≡ false) where
  query_all : Tables → List DbIndicator
  query_all t =
      map
        (λ i. record {
          pattern_text = i.pattern_text;
          pattern_type = i.pattern_type;
          threat_label = i.threat_label;
        })
        t.indicators.rows

  with_indicator : Tables → StixObject → Tables
  with_indicator t obj = record t {
    indicators = record {
      rows =
          t.indicators.rows
          ++ new_indicator t obj.pattern_text obj.pattern_type (label_of obj)
              (t.indicators.last_id + 1)
            ∷ [];
      last_id = t.indicators.last_id + 1;
    };
  }

  insert_indicator-some :
      (t : Tables) (obj : StixObject)
      → t.indicators.last_id < max_id
      → insert_indicator (sqlite engine) t obj.pattern_text obj.pattern_type (label_of obj)
        ≡ some (with_indicator t obj)
  unfolding insert_indicator execute insert add_row with_indicator
  insert_indicator-some t obj room = ground (arith, room, works t)

  query_all-with_indicator :
      (t : Tables) (obj : StixObject)
      → query_all (with_indicator t obj) ≡ query_all t ++ row_of obj ∷ []
  unfolding query_all with_indicator
  query_all-with_indicator t obj = map-append _ t.indicators.rows _

  -- All indicators of the bundle are stored, in order, after those that were there.
  ingest_objects-query :
      (t : Tables) (objects : List StixObject)
      → t.indicators.last_id + length objects ≤ max_id
      → ((ingest_objects (sqlite engine) outside t objects).1 ≡ true)
        × (query_all (ingest_objects (sqlite engine) outside t objects).0
            ≡ query_all t ++ stored objects)
  unfolding ingest_objects with_indicator
  ingest_objects-query t [] room = (refl, sym (append-nil (query_all t)))
  ingest_objects-query t (obj ∷ objects) room = elim (Bool-cases (is_indicator obj)) [
    | inl taken ↦
        let done = insert_indicator-some t obj (omega (arith, room)) in
        let rest = ingest_objects-query (with_indicator t obj) objects (omega (arith, room)) in
        rw (taken, done)
          ((
            rest.0,
            rest.1
                ∙ ap (λ rows. rows ++ stored objects) (query_all-with_indicator t obj)
                ∙ append_assoc (query_all t) (row_of obj ∷ []) (stored objects),
          ))
    | inr other ↦ rw other (ingest_objects-query t objects (omega (arith, room)))
  ]

  ingest_bundle-objects :
      (t : Tables) (data_ : String) (bundle : StixBundle) (objects : List StixObject)
      → outside.unmarshal data_ ≡ some bundle
      → bundle.type ≡ "bundle"
      → bundle.objects ≡ objects
      → ingest_stix_bundle (sqlite engine) outside t data_
        ≡ ingest_objects (sqlite engine) outside t objects
  unfolding ingest_stix_bundle
  ingest_bundle-objects t data_ bundle objects parsed is_bundle parts =
      rw (ingest_stix_bundle, parsed, is_bundle, parts) refl

  query_indicators-query_all : (t : Tables) → query_indicators engine t ≡ some (query_all t)
  unfolding query_indicators select query_all
  query_indicators-query_all t = rw (works t, keep_all t.indicators.rows) refl

  entries-split :
      (entry : DbIndicator → Indicator) (t : Tables) (before after : List StixObject)
      (obj : StixObject)
      → map entry (query_all t ++ (stored before ++ row_of obj ∷ stored after))
        ≡ map entry (query_all t ++ stored before) ++ entry (row_of obj) ∷ map entry (stored after)
  entries-split entry t before after obj =
      ap (map entry) (sym (append_assoc (query_all t) (stored before) (row_of obj ∷ stored after)))
      ∙ map-append _ (query_all t ++ stored before) (row_of obj ∷ stored after)

  module _ (now : ℕ) (fm : FeedManager) where
    after_sync : Tables → ReputationEngine → FeedManager × Tables × (ReputationEngine × Bool)
    after_sync = sync (sqlite engine) outside (query_indicators engine) now fm

    sync_offline :
        (t : Tables) (re : ReputationEngine)
        → fm.offline_mode ≡ true
        → (after_sync t re).2.0
          ≡ load re (map (indicator_of (increment fm.version) now) (query_all t))
    unfolding after_sync sync load_offline_indicators cache_indicators_from_store
    sync_offline t re offline =
        rw (offline, cache_indicators_from_store, query_indicators-query_all t) refl

    -- A bundle is ingested on an engine that does not fail and has keys left, and an offline sync
    -- follows. Then a lookup of the pattern and the type of any indicator of the bundle finds what the
    -- bundle says of it, with the first of its labels and the new version, unless a later indicator of
    -- the bundle has the same pattern and type.
    pub lookup-sync :
        (t : Tables) (re : ReputationEngine) (data_ : String) (bundle : StixBundle)
        (before after : List StixObject) (obj : StixObject)
        → outside.unmarshal data_ ≡ some bundle
        → bundle.type ≡ "bundle"
        → bundle.objects ≡ before ++ obj ∷ after
        → is_indicator obj ≡ true
        → All (λ later. replaces obj later ≡ false) after
        → t.indicators.last_id + length (before ++ obj ∷ after) ≤ max_id
        → fm.offline_mode ≡ true
        → is_known re.cache (ioc_type_of obj.pattern_type) ≡ true
        → let (stored_in, ok) = ingest_stix_bundle (sqlite engine) outside t data_ in
          (ok ≡ true)
          × (lookup
                (sync (sqlite engine) outside (query_indicators engine) now fm stored_in re).2.0
                obj.pattern_text
                (ioc_type_of obj.pattern_type)
              ≡ some (indicator_of (increment fm.version) now (row_of obj)))
    unfolding after_sync indicator_of
    lookup-sync t re data_ bundle before after obj parsed is_bundle parts taken last_one room
          offline known =
        let ingested =
          ingest_bundle-objects t data_ bundle (before ++ obj ∷ after) parsed is_bundle parts in
        let held = ingest_objects-query t (before ++ obj ∷ after) room in
        let entry = indicator_of (increment fm.version) now in
        rw ingested (
          (
            held.0,
            rw
                (
                  sync_offline (ingest_objects (sqlite engine) outside t (before ++ obj ∷ after)).0
                      re offline,
                  held.1,
                  stored-split before after obj taken,
                )
                (subst
                  (λ entries.
                    lookup (load re entries) obj.pattern_text (ioc_type_of obj.pattern_type)
                    ≡ some (entry (row_of obj)))
                  (sym (entries-split entry t before after obj))
                  (lookup-load re (map entry (query_all t ++ stored before))
                    (map entry (stored after)) (entry (row_of obj)) known
                    (not_replaced (increment fm.version) now obj after last_one))),
          ))
