-- ===== src/Assets/NetworkMap/Page.antt =====
-- The state of soc-frontend/src/pages/assets/NetworkMapPage.tsx: the selected node, the overlay, the simulation of an
-- attack path, and the response actions; and the colours that it draws with.
pub mod Safety
pub mod Colours
use Prim.Native.String.{String}
use text.Mathlib.Text.{◌==◌ as str_eq}
use homelabs_siem_soar.Prelude.{
  ℕ, Bool, true, false, not, ◌&&◌, Option, none, some, List, [], ◌∷◌, ◌++◌, map, get_elem?, ltb,
  remove_at, text_or, if◌then◌else◌,
}
use homelabs_siem_soar.Prelude.IdSet.{IdSet, has}
use homelabs_siem_soar.Hooks.AsyncState.{AsyncState, Reply, initial, begin, settle}
use homelabs_siem_soar.Assets.NetworkMap.{
  Action, isolate_host, throttle_container, isolate_lan_client, no_action, Finding, is_open,
  RawNode, Node, MapData, Link, Category, rat, exfiltration, ddos, container_abuse, network_anomaly,
  Segment, dmz, production, corporate, NodeType, router_host, client_host, external_domain,
  external_ip, container, container_host, generic,
}
use homelabs_siem_soar.Assets.NetworkMap.Graph.{Edge, id_of, blast_radius}

pub data Overlay : Type 0 where
  standard heat segmentation diff findings_overlay : Overlay

-- The body of a response action; `two_key_token` is null in every request.
pub record Task : Type 0 where
  pub endpoint_id : String
  pub action : Action
  pub target_ip : String
  pub container_id : String
  pub finding_id : String
  pub two_key_token : Option String

pub data Feedback : Type 0 where
  queued : Action → Feedback
  not_queued : String → Feedback

pub record Page : Type 0 where
  pub table : AsyncState MapData
  pub selected_node : Option Node
  pub overlay_mode : Overlay
  pub simulating_path : Bool
  pub action_submitting : Bool
  pub action_feedback : Option Feedback
  pub in_flight : List Task
  pub posts : List Task  -- all that were sent, latest first

unfoldable pub start : Page
unfolding initial
start = record {
  table = initial;
  selected_node = none;
  overlay_mode = standard;
  simulating_path = false;
  action_submitting = false;
  action_feedback = none;
  in_flight = [];
  posts = [];
}

-- `onNodeClick`, and the button that closes the sidebar.
unfoldable pub select_node : Option Node → Page → Page
select_node node s = record s {
  selected_node = node;
  simulating_path = false;
  action_feedback = none;
}

unfoldable pub task_of : Node → Finding → Task
task_of node f = record {
  endpoint_id = node.raw.id;
  action = f.recommended_action;
  target_ip = text_or node.raw.ip node.raw.id;
  container_id = text_or node.raw.container_id "";
  finding_id = f.finding_id;
  two_key_token = none;
}

abbrev pub is_action : Action → Bool
is_action no_action = false
is_action _ = true

-- `handleResponseAction` up to its `await`.
unfoldable pub handle_response_action : Node → Finding → Page → Page
unfolding task_of
handle_response_action node f s =
    if is_action f.recommended_action
    then record s {
      action_submitting = true;
      action_feedback = none;
      in_flight = s.in_flight ++ task_of node f ∷ [];
      posts = task_of node f ∷ s.posts;
    }
    else s

-- The button is there for an open finding with an action, and disabled while one is submitted.
abbrev pub has_button : Finding → Bool
has_button f = is_action f.recommended_action && is_open f.status

action_found : Node → Option Finding → Page → Page
unfolding handle_response_action
action_found node none s = s
action_found node (some f) s =
    if has_button f && not s.action_submitting then handle_response_action node f s else s

node_found : Option Node → ℕ → Page → Page
unfolding action_found
node_found none i s = s
node_found (some node) i s = action_found node (get_elem? node.findings i) s

-- A click on the button of the finding at a place of the sidebar.
unfoldable pub action_clicked : ℕ → Page → Page
unfolding node_found
action_clicked i s = node_found s.selected_node i s

-- How a request ends: it is queued, or it fails with `detail || message`.
pub data Outcome : Type 0 where
  accepted : Outcome
  refused : String → Outcome

abbrev feedback_of : Outcome → Task → Feedback
feedback_of accepted t = queued t.action
feedback_of (refused text) t = not_queued text

task_found : Option Task → ℕ → Outcome → Page → Page
task_found none i o s = s
task_found (some t) i o s = record s {
  action_submitting = false;
  action_feedback = some (feedback_of o t);
  in_flight = remove_at s.in_flight i;
}

-- The end of the request at a place of the list.
unfoldable pub action_settled : ℕ → Outcome → Page → Page
unfolding task_found
action_settled i o s = task_found (get_elem? s.in_flight i) i o s

abbrev pub is_some {ℓ} : {A : Type ℓ} → Option A → Bool
is_some none = false
is_some (some a) = true

-- The button of the simulation stands in the sidebar of a selected node.
unfoldable pub simulation_clicked : Page → Page
simulation_clicked s =
    if is_some s.selected_node then record s { simulating_path = not s.simulating_path } else s

-- The edges of the map, as the search reads them.
abbrev pub edges_of : MapData → List Edge
edges_of data_ = map (λ l. l.raw.edge) data_.edges

radius : Option Node → Option MapData → IdSet
radius (some node) (some data_) = blast_radius (edges_of data_) node.raw.id
radius _ _ = []

-- `reachableNodes`.
unfoldable pub reachable_nodes : Page → IdSet
unfolding radius
reachable_nodes s = if s.simulating_path then radius s.selected_node s.table.value else []

pub data Event : Type 0 where
  load_begun : Event
  load_ended : Reply MapData → Event
  node_clicked : Node → Event
  sidebar_closed : Event
  overlay_chosen : Overlay → Event
  simulation_pressed : Event
  action_pressed : ℕ → Event
  action_ended : ℕ → Outcome → Event

unfoldable pub step : Event → Page → Page
unfolding begin settle select_node simulation_clicked action_clicked action_settled
step load_begun s = record s { table = begin s.table }
step (load_ended reply) s = record s { table = settle reply s.table }
step (node_clicked node) s = select_node (some node) s
step sidebar_closed s = select_node none s
step (overlay_chosen mode) s = record s { overlay_mode = mode }
step simulation_pressed s = simulation_clicked s
step (action_pressed i) s = action_clicked i s
step (action_ended i o) s = action_settled i o s

unfoldable pub run : Page → List Event → Page
unfolding step
run s [] = s
run s (e ∷ es) = run (step e s) es

-- `FINDING_COLORS`.
finding_color : Category → String
finding_color rat = "#a855f7"
finding_color exfiltration = "#f97316"
finding_color ddos = "#ef4444"
finding_color container_abuse = "#f59e0b"
finding_color network_anomaly = "#eab308"

-- `NODE_TYPE_COLORS`.
node_type_color : NodeType → String
node_type_color router_host = "#06b6d4"
node_type_color client_host = "#3b82f6"
node_type_color external_domain = "#8b5cf6"
node_type_color external_ip = "#64748b"
node_type_color container = "#10b981"
node_type_color container_host = "#14b8a6"
node_type_color generic = "#3b82f6"

segment_color : Segment → String
segment_color dmz = "#d946ef"
segment_color production = "#3b82f6"
segment_color corporate = "#10b981"

overlay_color : Overlay → Node → Option Category → String
unfolding finding_color node_type_color segment_color
overlay_color findings_overlay node (some category) = finding_color category
overlay_color findings_overlay node none = node_type_color node.node_type
overlay_color heat node c =
    if ltb 80 node.risk_score
    then "#ef4444"
    else if ltb 50 node.risk_score
    then "#f97316"
    else "#22c55e"
overlay_color segmentation node c = segment_color node.segment
overlay_color diff node c = if node.is_new then "#10b981" else node_type_color node.node_type
overlay_color standard node c = node_type_color node.node_type

unfoldable pub get_node_color : Page → Node → String
unfolding overlay_color reachable_nodes
get_node_color s node =
    if s.simulating_path && not (has (reachable_nodes s) node.raw.id)
    then "rgba(30, 41, 59, 0.5)"
    else overlay_color s.overlay_mode node node.finding_category

-- The last tests of `getLinkColor`.
mode_color : Overlay → Link → String
mode_color segmentation l = if l.is_violation then "#f59e0b" else "#334155"
mode_color diff l = if l.is_new then "#10b981" else "#334155"
mode_color _ l = "#334155"

-- Its tests on the action of the router and on the relation.
router_color : (String → String) → Overlay → Link → String
unfolding mode_color
router_color to_upper mode l =
    let action = to_upper (text_or l.raw.action "") in
    let relation = text_or l.raw.relation "" in
    if str_eq action "DROP"
    then "#ef4444"
    else if str_eq action "NAT"
    then "#3b82f6"
    else if str_eq action "ALLOW"
    then "#10b981"
    else if str_eq relation "VISITED_SITE"
    then "#6366f1"
    else if str_eq relation "WAN_EGRESS"
    then "#3b82f6"
    else mode_color mode l

plain_color : (String → String) → Overlay → Link → Option Category → String
unfolding router_color finding_color
plain_color to_upper findings_overlay l (some category) = finding_color category
plain_color to_upper mode l _ = router_color to_upper mode l

-- `to_upper` is `toUpperCase`.
unfoldable pub get_link_color : (String → String) → Page → Link → String
unfolding plain_color reachable_nodes
get_link_color to_upper s l =
    if s.simulating_path
    then if has (reachable_nodes s) (id_of l.raw.edge.source)
        && has (reachable_nodes s) (id_of l.raw.edge.target)
      then "#ef4444"
      else "rgba(51, 65, 85, 0.2)"
    else plain_color to_upper s.overlay_mode l l.raw.finding_category
