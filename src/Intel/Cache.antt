-- ===== src/Intel/Cache.antt =====
-- internal/intel/intel.go: what a lookup finds after a load.
use aegis_edr.Prelude.{
  String, Bool, true, false, ◌&&◌, if◌then◌else◌, Option, none, some, List, [], ◌∷◌, ◌++◌, ◌≡◌,
  refl, ◌∙◌, arith, ◌==◌, string_eq, All, Option-cases, inl, inr,
}
use aegis_edr.Dict.{get, put, get-put, beq_refl}
use aegis_edr.Intel.{
  Indicator, Cache, ReputationEngine, new_reputation_engine, cache_indicator, cache_all, load,
  lookup, ioc_type_of, ioc_hash, ioc_domain, ioc_url, ioc_certificate, ioc_ja3, ioc_ja4, ioc_mitre,
}

-- Has the engine a map for this type of indicators?
unfoldable pub is_known : Cache → String → Bool
is_known cache ioc_type = elim (get cache ioc_type) [ none ↦ false | some _ ↦ true ]

look : Cache → String → String → Option Indicator
look cache pattern_text ioc_type = elim (get cache ioc_type) [
  | none ↦ none
  | some sub ↦ get sub pattern_text
]

abbrev pub is_match : String → String → Indicator → Bool
is_match pattern_text ioc_type ind = ind.type == ioc_type && ind.pattern_text == pattern_text

is_known-cache_indicator :
    (cache : Cache) (ind : Indicator) (ioc_type : String)
    → is_known (cache_indicator cache ind) ioc_type ≡ is_known cache ioc_type
unfolding is_known cache_indicator
is_known-cache_indicator cache ind ioc_type = elim (Option-cases (get cache ind.type)) [
  | inl missing ↦ ground (arith, missing)
  | inr (sub, found) ↦ ground (
    arith,
    found,
    string_eq.same_iff ind.type ioc_type,
    get-put cache ind.type ioc_type (put sub ind.pattern_text ind),
  )
]

look-cache_indicator :
    (cache : Cache) (ind : Indicator) (pattern_text ioc_type : String)
    → is_known cache ioc_type ≡ true
    → look (cache_indicator cache ind) pattern_text ioc_type
      ≡ (if is_match pattern_text ioc_type ind then some ind else look cache pattern_text ioc_type)
unfolding look is_known cache_indicator
look-cache_indicator cache ind pattern_text ioc_type known =
    elim (Option-cases (get cache ind.type)) [
      | inl missing ↦ ground (arith, known, missing, string_eq.same_iff ind.type ioc_type)
      | inr (sub, found) ↦ ground (
        arith,
        found,
        known,
        string_eq.same_iff ind.type ioc_type,
        get-put cache ind.type ioc_type (put sub ind.pattern_text ind),
        get-put sub ind.pattern_text pattern_text ind,
      )
    ]

-- An indicator that no later one replaces is found.
look-cache_all_absent :
    (cache : Cache) (indicators : List Indicator) (pattern_text ioc_type : String)
    → is_known cache ioc_type ≡ true
    → All (λ ind. is_match pattern_text ioc_type ind ≡ false) indicators
    → look (cache_all cache indicators) pattern_text ioc_type ≡ look cache pattern_text ioc_type
unfolding cache_all
look-cache_all_absent cache [] pattern_text ioc_type known absent = refl
look-cache_all_absent cache (ind ∷ indicators) pattern_text ioc_type known (other, absent) =
    look-cache_all_absent (cache_indicator cache ind) indicators pattern_text ioc_type
      (is_known-cache_indicator cache ind ioc_type ∙ known) absent
    ∙ look-cache_indicator cache ind pattern_text ioc_type known
    ∙ rw other refl

look-cache_all :
    (cache : Cache) (before after : List Indicator) (ind : Indicator)
    → is_known cache ind.type ≡ true
    → All (λ later. is_match ind.pattern_text ind.type later ≡ false) after
    → look (cache_all cache (before ++ ind ∷ after)) ind.pattern_text ind.type ≡ some ind
unfolding cache_all
look-cache_all cache [] after ind known absent =
    look-cache_all_absent (cache_indicator cache ind) after ind.pattern_text ind.type
      (is_known-cache_indicator cache ind ind.type ∙ known) absent
    ∙ look-cache_indicator cache ind ind.pattern_text ind.type known
    ∙ rw (beq_refl ind.type, beq_refl ind.pattern_text) refl
look-cache_all cache (first ∷ before) after ind known absent =
    look-cache_all (cache_indicator cache first) before after ind
      (is_known-cache_indicator cache first ind.type ∙ known) absent

-- A load makes the last indicator of a pattern and type the one that a lookup finds.
pub lookup-load :
    (engine : ReputationEngine) (before after : List Indicator) (ind : Indicator)
    → is_known engine.cache ind.type ≡ true
    → All (λ later. is_match ind.pattern_text ind.type later ≡ false) after
    → lookup (load engine (before ++ ind ∷ after)) ind.pattern_text ind.type ≡ some ind
unfolding lookup load look
lookup-load engine before after ind known absent =
    look-cache_all engine.cache before after ind known absent

known_types :
    (domain url certificate ja3 ja4 mitre : Bool)
    → is_known new_reputation_engine.cache (
        if domain
        then ioc_domain
        else if url
        then ioc_url
        else if certificate
        then ioc_certificate
        else if ja3
        then ioc_ja3
        else if ja4
        then ioc_ja4
        else if mitre
        then ioc_mitre
        else ioc_hash)
      ≡ true
unfolding is_known new_reputation_engine get put
known_types true url certificate ja3 ja4 mitre = refl
known_types false true certificate ja3 ja4 mitre = refl
known_types false false true ja3 ja4 mitre = refl
known_types false false false true ja4 mitre = refl
known_types false false false false true mitre = refl
known_types false false false false false true = refl
known_types false false false false false false = refl

-- A new engine has a map for every type that a stored indicator can get.
pub new_reputation_engine-is_known :
    (p_type : String) → is_known new_reputation_engine.cache (ioc_type_of p_type) ≡ true
unfolding ioc_type_of
new_reputation_engine-is_known p_type =
    known_types (p_type == "domain") (p_type == "url") (p_type == "certificate") (p_type == "ja3")
      (p_type == "ja4") (p_type == "mitre")
