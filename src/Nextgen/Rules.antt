-- ===== src/Nextgen/Rules.antt =====
-- internal/correlation/nextgen/engine.go: the rules, from Ingest to the alerts.
use aegis_edr.Prelude.{
  ℕ, ◌+◌, ◌*◌, ℤ, pos, String, Option, none, some, List, [], ◌∷◌, ◌++◌, Bool, false, if◌then◌else◌,
  ◌==◌, string_eq, ltb, leb, length, get_elem?, ◌^^◌, show_int,
}
use aegis_edr.Dict.{get}
use aegis_edr.Channel.{try_send}
use aegis_edr.Telemetry.{Event}
use aegis_edr.Nextgen.{Edge, Node, CorrelationRule, Alert, Engine, extend_graph}

-- edge.Target.Timestamp.Sub(n.Timestamp) > window is false
unfoldable pub in_time : ℕ → Node → Node → Bool
in_time window n target = leb target.timestamp (n.timestamp + window)

-- The first of the edges that leads to a match.
unfoldable pub try_edges :
    List Node → ℕ → Node → (ℕ → Option (List ℕ)) → List Edge → Option (List ℕ)
try_edges heap window n check [] = none
try_edges heap window n check (edge ∷ edges) =
    let rest = try_edges heap window n check edges in
    elim (get_elem? heap edge.target) [
      | none ↦ rest
      | some target ↦
          if in_time window n target
          then elim (check edge.target) [ none ↦ rest | some chain ↦ some chain ]
          else rest
    ]

-- checkSequence for what is left of the sequence.
unfoldable pub check_sequence : List Node → ℕ → List String → ℕ → List ℕ → Option (List ℕ)
check_sequence heap window [] a chain = some chain
check_sequence heap window (t ∷ ts) a chain = elim (get_elem? heap a) [
  | none ↦ none
  | some n ↦
      if n.type == t
      then elim ts [
        | [] ↦ some (chain ++ a ∷ [])
        | _ ∷ _ ↦
            try_edges heap window n (λ b. check_sequence heap window ts b (chain ++ a ∷ [])) n.edges
      ]
      else none
]

-- The earliest node of a chain, the first of several.
unfoldable pub root_node : List Node → List ℕ → Option Node → Option Node
root_node heap [] root = root
root_node heap (a ∷ chain) root = elim (get_elem? heap a) [
  | none ↦ root_node heap chain root
  | some n ↦ root_node heap chain (some (earlier n root))
]
  where
    earlier : Node → Option Node → Node
    earlier n none = n
    earlier n (some r) = if ltb n.timestamp r.timestamp then n else r

unfoldable pub root_pid : List Node → List ℕ → ℤ
unfolding root_node
root_pid heap chain = elim (root_node heap chain none) [ none ↦ pos 0 | some n ↦ n.pid ]

-- The sum of 1.5 * (i + 1) over the chain, in hundredths.
unfoldable pub risk_sum : ℕ → List ℕ → ℕ
risk_sum i [] = 0
risk_sum i (a ∷ chain) = 150 * (i + 1) + risk_sum (i + 1) chain

module _ (rfc3339 : ℕ → String) where
  unfoldable pub chain_line : Node → String
  chain_line n = "[" ^^ rfc3339 n.timestamp ^^ "] " ^^ n.type ^^ " (ID: " ^^ n.id ^^ ")"

  unfoldable pub chain_lines : List Node → List ℕ → List String
  chain_lines heap [] = []
  chain_lines heap (a ∷ chain) = elim (get_elem? heap a) [
    | none ↦ chain_lines heap chain
    | some n ↦ chain_line n ∷ chain_lines heap chain
  ]

  unfoldable pub is_suppressed : Engine → CorrelationRule → ℤ → Bool
  is_suppressed e rule pid = elim (get e.suppressed (rule.id ^^ ":" ^^ show_int pid)) [
    | none ↦ false
    | some b ↦ b
  ]

  unfoldable pub new_alert : Engine → CorrelationRule → List ℕ → ℕ → Alert
  new_alert e rule chain now = record {
    rule_id = rule.id;
    rule_name = rule.name;
    root_pid = root_pid e.heap chain;
    risk_score = if ltb 1000 (risk_sum 0 chain) then 1000 else risk_sum 0 chain;
    confidence_score = 85;
    mitre_ids = rule.mitre_ids;
    timeline = chain_lines e.heap chain;
    occurred_at = now;
  }

  unfoldable pub trigger_alert : Engine → CorrelationRule → List ℕ → ℕ → Engine
  trigger_alert e rule [] now = e
  trigger_alert e rule (a ∷ chain) now =
      if is_suppressed e rule (root_pid e.heap (a ∷ chain)) then e else record e {
        alerts_channel = (try_send e.alerts_channel (new_alert e rule (a ∷ chain) now)).0;
      }

  unfoldable pub evaluate_rules : Engine → List CorrelationRule → ℕ → ℕ → Engine
  evaluate_rules e [] trigger now = e
  evaluate_rules e (rule ∷ rules) trigger now =
      elim (check_sequence e.heap rule.time_window rule.sequence trigger []) [
        | none ↦ evaluate_rules e rules trigger now
        | some chain ↦ evaluate_rules (trigger_alert e rule chain now) rules trigger now
      ]

  unfoldable pub ingest : (String → ℕ) → Engine → Event → ℕ → Engine
  ingest fnv32a e ev now = evaluate_rules (extend_graph fnv32a e ev now) e.rules (length e.heap) now
