-- ===== src/Sigma/Tests.antt =====
-- internal/sigma/sigma.go at concrete inputs: the rule of its test, and one with a nested selection.
use mathlib.Core.List.{Permᴰ}
use mathlib.Core.List.Permᴰ
use aegis_edr.Prelude.{◌≡◌, refl, String, List, [], ◌∷◌, map}
use aegis_edr.Dict.{get}
use aegis_edr.Sigma.{
  Rule, Engine, EventMap, Value, scalar, text, no_text, sequence, evaluate, rule_matches,
  category_matches, detection_matches, field_matches, text_field, is_expected,
}
use aegis_edr.Sigma.Match.{reordered, evaluate_order}

abbrev pub entries : List (String × Value)
entries =
    ("parent_path", scalar (text "/usr/sbin/nginx"))
    ∷ ("image", sequence (text "/bin/bash" ∷ text "/bin/sh" ∷ []))
    ∷ []

abbrev pub spawning : Rule
spawning = record {
  title = "Spawning";
  description = "";
  logsource = record { category = "process"; product = "" };
  detection = record { entries = entries };
}

abbrev nested : Rule
nested = record spawning {
  title = "Nested";
  detection = record {
    entries = ("condition", scalar (text "selection")) ∷ ("selection", scalar no_text) ∷ [];
  };
}

abbrev engine : Engine
engine = record { rules = spawning ∷ [] }

abbrev event_map : EventMap
event_map = record {
  entries =
      ("category", scalar (text "process"))
      ∷ ("parent_path", scalar (text "/usr/sbin/nginx"))
      ∷ ("image", scalar (text "/bin/sh"))
      ∷ [];
}

test_evaluate : evaluate engine event_map ≡ "Spawning" ∷ []
unfolding evaluate rule_matches category_matches detection_matches field_matches text_field
    is_expected get
test_evaluate = refl

-- The two entries of a detection the other way round.
swapped : List (String × Value) → List (String × Value)
swapped (a ∷ b ∷ more) = b ∷ a ∷ more
swapped detection = detection

swapped-Permᴰ : (detection : List (String × Value)) → Permᴰ detection (swapped detection)
unfolding swapped
swapped-Permᴰ [] = Permᴰ.refl []
swapped-Permᴰ (a ∷ []) = Permᴰ.refl (a ∷ [])
swapped-Permᴰ (a ∷ b ∷ more) = Permᴰ.swap refl refl

evaluate_order_example :
    evaluate
      (record {
        rules = map (reordered event_map (λ rule. swapped rule.detection.entries)) (spawning ∷ []);
      })
      event_map
    ≡ evaluate engine event_map
evaluate_order_example =
    evaluate_order event_map engine (λ rule. swapped rule.detection.entries)
      (λ rule. swapped-Permᴰ rule.detection.entries)
