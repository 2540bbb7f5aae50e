-- ===== src/Correlation/Timeline.antt =====
-- internal/correlation/engine.go: the queries ReconstructTimeline and GroupAlerts.
use aegis_edr.Prelude.{
  ℕ, zero, suc, ℤ, String, Option, none, some, List, [], ◌∷◌, ◌++◌, get_elem?, ◌^^◌, show_int, map,
  int_eq,
}
use aegis_edr.Dict.{get}
use aegis_edr.Sort.{sort_by}
use aegis_edr.Correlation.{
  FileActivity, NetworkActivity, RegistryActivity, AlertActivity, ProcessNode, Engine,
}

pub record TimelineItem : Type 0 where
  pub timestamp : ℕ
  pub category : String
  pub description : String

-- What a node itself contributes to the timeline.
unfoldable pub own_items : ProcessNode → List TimelineItem
own_items n =
    record {
      timestamp = n.launched_at;
      category = "PROCESS";
      description =
          "Process executed: " ^^ n.binary_path ^^ " (args: " ^^ n.command_line ^^ ") by "
          ^^ n.username;
    }
      ∷ map file_item n.file_changes
    ++ map network_item n.net_connects
    ++ map registry_item n.registry_keys
    ++ map alert_item n.alerts
  where
    file_item : FileActivity → TimelineItem
    file_item f = record {
      timestamp = f.occurred_at;
      category = "FILE";
      description = "File " ^^ f.action ^^ ": " ^^ f.file_path;
    }

    network_item : NetworkActivity → TimelineItem
    network_item c = record {
      timestamp = c.occurred_at;
      category = "NETWORK";
      description =
          "Network connection: "
          ^^ c.protocol
          ^^ " "
          ^^ c.remote_ip
          ^^ ":"
          ^^ show_int c.remote_port;
    }

    registry_item : RegistryActivity → TimelineItem
    registry_item r = record {
      timestamp = r.occurred_at;
      category = "REGISTRY";
      description = "Registry " ^^ r.action ^^ ": " ^^ r.key_path;
    }

    alert_item : AlertActivity → TimelineItem
    alert_item a = record {
      timestamp = a.occurred_at;
      category = "ALERT";
      description = "Alert " ^^ a.rule_name ^^ " triggered: " ^^ a.description;
    }

unfoldable pub own_alerts : ProcessNode → List String
own_alerts n = map (λ a. a.rule_name) n.alerts

-- What the visits of some nodes append, in order.
unfoldable pub visit_all {ℓ} : {X : Type ℓ} → (ℕ → Option (List X)) → List ℕ → Option (List X)
visit_all visit [] = some []
visit_all visit (c ∷ cs) = elim (visit c) [
  | none ↦ none
  | some xs ↦ elim (visit_all visit cs) [ none ↦ none | some ys ↦ some (xs ++ ys) ]
]

-- The recursion of `collectTimeline` and `collectAlertNames`: a node's own, then its children's.
-- `none` says that the fuel did not suffice. An address always has a node.
unfoldable pub collect {ℓ} :
    {X : Type ℓ} → (ProcessNode → List X) → ℕ → List ProcessNode → ℕ → Option (List X)
collect own zero heap a = none
collect own (suc fuel) heap a = elim (get_elem? heap a) [
  | none ↦ some []
  | some n ↦ elim (visit_all (collect own fuel heap) n.children) [
    | none ↦ none
    | some rest ↦ some (own n ++ rest)
  ]
]

-- sort.Slice by the timestamps.
unfoldable pub sort_items : List TimelineItem → List TimelineItem
sort_items items = sort_by (λ i. i.timestamp) items

-- The two results of a query on a process: an error, or the answer.
pub data Reply {ℓ} (X : Type ℓ) : Type ℓ where
  not_found : ℤ → Reply X
  found : X → Reply X

unfoldable pub query {ℓ} :
    {X : Type ℓ} → (ProcessNode → List X) → ℕ → Engine → ℤ → Option (Reply (List X))
query own fuel e pid = elim (get e.nodes pid) [
  | none ↦ some (not_found pid)
  | some a ↦ elim (collect own fuel e.heap a) [ none ↦ none | some xs ↦ some (found xs) ]
]

unfoldable pub sorted_reply :
    Option (Reply (List TimelineItem)) → Option (Reply (List TimelineItem))
sorted_reply none = none
sorted_reply (some (not_found pid)) = some (not_found pid)
sorted_reply (some (found items)) = some (found (sort_items items))

unfoldable pub reconstruct_timeline : ℕ → Engine → ℤ → Option (Reply (List TimelineItem))
reconstruct_timeline fuel e pid = sorted_reply (query own_items fuel e pid)

unfoldable pub group_alerts : ℕ → Engine → ℤ → Option (Reply (List String))
group_alerts fuel e pid = query own_alerts fuel e pid
