-- ===== src/Sigma.antt =====
-- internal/sigma/sigma.go: rules that match events field by field. YAML is a parameter.
pub mod Match
pub mod Tests
use aegis_edr.Prelude.{
  String, Bool, true, false, not, ◌&&◌, if◌then◌else◌, Option, none, some, List, [], ◌∷◌, ◌++◌, any,
  ◌==◌, string_eq,
}
use aegis_edr.Dict.{Dict, get}

-- An interface{} that YAML made, as far as a type assertion tells: a text, or not.
pub data Scalar : Type 0 where
  text : String → Scalar
  no_text : Scalar

pub data Value : Type 0 where
  scalar : Scalar → Value
  sequence : List Scalar → Value

pub record Logsource : Type 0 where
  pub category : String
  pub product : String

pub record Rule : Type 0 where
  pub title : String
  pub description : String
  pub logsource : Logsource
  pub detection : Dict String Value

pub record Engine : Type 0 where
  pub rules : List Rule

abbrev pub new_engine : Engine
new_engine = record { rules = [] }

abbrev pub EventMap : Type 0
EventMap = Dict String Value

-- AddRule, with what `yaml.Unmarshal` made of the content; false is an error.
unfoldable pub add_rule : (String → Option Rule) → Engine → String → Engine × Bool
add_rule unmarshal e content = elim (unmarshal content) [
  | none ↦ (e, false)
  | some rule ↦ (record { rules = e.rules ++ rule ∷ [] }, true)
]

-- `eventMap[key].(string)`
unfoldable pub text_field : EventMap → String → Option String
text_field event_map key = assert_text (get event_map key)
  where
    assert_text : Option Value → Option String
    assert_text (some (scalar (text s))) = some s
    assert_text _ = none

-- `expected.(string)` with the field's value
unfoldable pub is_expected : String → Scalar → Bool
is_expected field_val (text expected_str) = expected_str == field_val
is_expected field_val no_text = false

-- One turn of the loop over the detection, for a key other than "condition": false sets `matched` to
-- false and breaks.
unfoldable pub field_matches : EventMap → String → Value → Bool
field_matches event_map key val = compare_field (text_field event_map key) val
  where
    compare_field : Option String → Value → Bool
    compare_field (some field_val) (sequence expected_list) =
        any (is_expected field_val) expected_list
    compare_field none (sequence expected_list) = false
    compare_field (some field_val) (scalar (text expected_str)) = field_val == expected_str
    compare_field none (scalar (text expected_str)) = false
    compare_field _ (scalar no_text) = false

-- The loop over the detection, in some order of the map.
unfoldable pub detection_matches : EventMap → List (String × Value) → Bool
detection_matches event_map [] = true
detection_matches event_map ((key, val) ∷ detection) =
    let rest = detection_matches event_map detection in
    if key == "condition" then rest else if field_matches event_map key val then rest else false

unfoldable pub category_matches : EventMap → Rule → Bool
category_matches event_map rule =
    if rule.logsource.category == "" then true else same_category (text_field event_map "category")
  where
    same_category : Option String → Bool
    same_category none = false
    same_category (some cat) = cat == rule.logsource.category

unfoldable pub rule_matches : EventMap → Rule → Bool
rule_matches event_map rule =
    category_matches event_map rule && detection_matches event_map rule.detection.entries

-- The loop over the rules.
evaluate_rules : EventMap → List Rule → List String
evaluate_rules event_map [] = []
evaluate_rules event_map (rule ∷ rules) =
    let rest = evaluate_rules event_map rules in
    if rule_matches event_map rule then rule.title ∷ rest else rest

unfoldable pub evaluate : Engine → EventMap → List String
unfolding evaluate_rules
evaluate e event_map = evaluate_rules event_map e.rules
