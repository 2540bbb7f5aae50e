-- ===== src/Correlation/Tests.antt =====
-- An engine at concrete inputs.
use aegis_edr.Prelude.{
  ℕ, ◌≡◌, ◌≤◌, refl, pos, none, some, List, [], ◌∷◌, arith, length, int_eq, All,
}
use aegis_edr.Dict.{get, put, retain}
use aegis_edr.Telemetry.{Event}
use aegis_edr.Correlation.{
  new_engine, correlate, correlate_process, with_node, expire, in_window, record_alert,
  process_node, add_alert, add_child,
}
use aegis_edr.Correlation.Timeline.{
  TimelineItem, Reply, found, not_found, query, collect, visit_all, own_alerts,
  reconstruct_timeline, group_alerts,
}
use aegis_edr.Correlation.Tree.{Call, correlates, alerts, run, IsParented}
use aegis_edr.Correlation.Loops.{query_self_parent}
use aegis_edr.Correlation.Order.{IsTimeline, reconstruct-IsTimeline}

abbrev started : ℕ → ℕ → ℕ → Event
started pid parent at = record {
  id = 1;
  type = "process";
  timestamp = at;
  process_id = pos pid;
  parent_id = pos parent;
  binary_path = "/bin/sh";
  sha256 = "ab";
  command_line = "sh";
  username = "u";
  file_path = "";
  file_action = "";
  protocol = "";
  local_ip = "";
  local_port = pos 0;
  remote_ip = "";
  remote_port = pos 0;
}

-- The parent starts at 5, the child at 3; each has an alert.
abbrev family : List Call
family =
    correlates (started 7 1 5) 5
    ∷ correlates (started 8 7 3) 6
    ∷ alerts (pos 8) "child" "" 7
    ∷ alerts (pos 7) "parent" "" 8
    ∷ []

two_nodes : length (run (new_engine 100) family).heap ≤ 2
unfolding get correlate correlate_process with_node put expire in_window retain run record_alert
    new_engine process_node add_alert add_child
two_nodes = omega arith

nobody_is_parent_of_itself : All IsParented family
nobody_is_parent_of_itself = (λ _. ground arith, (λ _. ground arith, (tt, (tt, tt))))

both_alerts :
    group_alerts 2 (run (new_engine 100) family) (pos 7) ≡ some (found ("parent" ∷ "child" ∷ []))
unfolding group_alerts query get correlate correlate_process with_node put expire in_window retain
    run record_alert new_engine process_node add_alert add_child collect visit_all own_alerts
both_alerts = refl

expired :
    group_alerts 2 (correlate (run (new_engine 10) family) (started 9 1 16) 16) (pos 7)
    ≡ some (not_found (pos 7))
unfolding group_alerts query get correlate correlate_process with_node put expire in_window retain
    run record_alert new_engine process_node add_alert add_child collect visit_all own_alerts
expired = refl

reconstruct-IsTimeline_example :
    (t : Reply (List TimelineItem)) × (reconstruct_timeline 2 (run (new_engine 100) family) (pos 7)
      ≡ some t)
    × IsTimeline (run (new_engine 100) family) (pos 7) t
reconstruct-IsTimeline_example =
    reconstruct-IsTimeline 100 family (pos 7) 2 nobody_is_parent_of_itself two_nodes

query_self_parent_example :
    query own_alerts 50 (correlate (run (new_engine 100) family) (started 0 0 9) 9) (pos 0) ≡ none
query_self_parent_example =
    query_self_parent own_alerts (run (new_engine 100) family) (started 0 0 9) 9 50 refl refl
