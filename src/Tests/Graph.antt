-- ===== src/Tests/Graph.antt =====
-- Concrete runs of the graph of an investigation.
use homelabs_siem_soar.Prelude.{◌≡◌, none, some, [], ◌∷◌, ◌++◌, List}
use homelabs_siem_soar.Hooks.AsyncState.{ok}
use homelabs_siem_soar.Investigations.Types.{running, success}
use homelabs_siem_soar.Investigations.Graph
use homelabs_siem_soar.Investigations.Graph.{
  Node, Update, Body, Event, shown, message, tick, snapshot, run, start, apply_batch, snapshot_of,
}
use homelabs_siem_soar.Investigations.Graph.Convergence.{graph_converges, brought}
use homelabs_siem_soar.Investigations.Graph.Statuses.{status_is_latest, status_of, latest}

abbrev scan : Node
scan = record { id = "scan"; label = "Scan"; kind = none; status = running }

abbrev scan_done : Update
scan_done = record { node_id = "scan"; agent_name = none; label = none; status = success }

abbrev report_begun : Update
report_begun = record {
  node_id = "report";
  agent_name = some "Reporter";
  label = none;
  status = running;
}

abbrev reply : Body
reply = record {
  top = record { nodes = some (scan ∷ []); edges = none };
  graph_data = none;
  graph_layout = none;
}

abbrev early : List Event
early = message (some scan_done) ∷ tick ∷ []

abbrev late : List Event
late = tick ∷ message none ∷ message (some report_begun) ∷ []

abbrev whole : Graph.Graph
whole = run start (shown "inv-1" ∷ (early ++ (snapshot 0 (ok reply) ∷ (late ++ tick ∷ []))))

graph_converges_example :
    (whole.nodes ≡ apply_batch (brought (ok reply)) (scan_done ∷ report_begun ∷ []))
    × (whole.pending_updates ≡ [])
graph_converges_example =
    graph_converges "inv-1" (ok reply) early late (tt, (tt, tt)) (tt, (tt, (tt, tt)))

status_is_latest_example :
    status_of "scan" (apply_batch (scan ∷ []) (scan_done ∷ report_begun ∷ []))
    ≡ latest "scan" (status_of "scan" (scan ∷ [])) (scan_done ∷ report_begun ∷ [])
status_is_latest_example = status_is_latest "scan" (scan ∷ []) (scan_done ∷ report_begun ∷ [])
