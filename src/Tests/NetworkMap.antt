-- ===== src/Tests/NetworkMap.antt =====
-- Concrete runs of the network map: two hosts behind a router, and one that stands alone.
use Prim.Native.String.{String}
use homelabs_siem_soar.Prelude.{
  ℕ, ◌≡◌, ◌≤◌, ◌↔◌, refl, true, false, none, some, [], ◌∷◌, List, All, any, if◌then◌else◌,
}
use homelabs_siem_soar.Prelude.IdSet.{IdSet, has, add, HasNoRepeats}
use homelabs_siem_soar.Prelude.Sort.{sort_desc}
use homelabs_siem_soar.Assets.NetworkMap
use homelabs_siem_soar.Assets.NetworkMap.{Finding, RawNode, Link, MapData}
use homelabs_siem_soar.Assets.NetworkMap.Graph.{Edge, name, node, blast_radius, search_from}
use homelabs_siem_soar.Assets.NetworkMap.Graph.Termination.{search_ends}
use homelabs_siem_soar.Assets.NetworkMap.Graph.Paths.{Reaches}
use homelabs_siem_soar.Assets.NetworkMap.Graph.Refinement.{blast_radius-Reaches}
use homelabs_siem_soar.Assets.NetworkMap.Graph.Components.{one_radius_per_part}
use homelabs_siem_soar.Prelude.Members.{members}
use homelabs_siem_soar.Assets.NetworkMap.Findings.{node_findings_exact, of_node_key}
use homelabs_siem_soar.Assets.NetworkMap.Page
use homelabs_siem_soar.Assets.NetworkMap.Page.Safety.{response_actions_offered, IsSafe}
use homelabs_siem_soar.Assets.NetworkMap.Page.Colours.{simulation_colours}

abbrev wan : Edge
wan = record { source = name "router"; target = name "web" }

-- The force graph has put the nodes in place of the ids.
abbrev lan : Edge
lan = record { source = node "db"; target = node "router" }

abbrev edges : List Edge
edges = wan ∷ lan ∷ []

-- The search from `web` goes against both edges.
radius_of_web : blast_radius edges "web" ≡ "web" ∷ "router" ∷ "db" ∷ []
unfolding blast_radius search_from has add
radius_of_web = refl

blast_radius-Reaches_example :
    ((id : String) → (has (blast_radius edges "web") id ≡ true) ↔ Reaches edges "web" id)
    × HasNoRepeats (blast_radius edges "web")
blast_radius-Reaches_example = blast_radius-Reaches edges "web"

db_in_radius : has (blast_radius edges "web") "db" ≡ true
unfolding has blast_radius search_from add
db_in_radius = refl

one_radius_per_part_example : members (blast_radius edges "db") ≡ members (blast_radius edges "web")
one_radius_per_part_example = one_radius_per_part edges "web" "db" db_in_radius

search_ends_example : (visited : IdSet) × (search_from edges "db" ≡ some visited)
search_ends_example = search_ends edges "db"

abbrev web : RawNode
web = record {
  id = "web";
  label = "Web server";
  kind = "ClientHost";
  ip = some "10.0.0.7";
  container_id = none;
}

abbrev beacon : Finding
beacon = record {
  finding_id = "f1";
  category = NetworkMap.rat;
  score = 70;
  source_ip = some "10.0.0.7";
  endpoint_id = none;
  recommended_action = NetworkMap.isolate_host;
  status = NetworkMap.opened;
}

abbrev leak : Finding
leak = record beacon { finding_id = "f2"; score = 90; status = NetworkMap.actioned }

abbrev by_endpoint : Finding
by_endpoint = record beacon { finding_id = "f3"; source_ip = none; endpoint_id = some "web" }

abbrev findings : List Finding
findings = beacon ∷ by_endpoint ∷ leak ∷ []

abbrev draw : ℕ → ℕ
draw i = 12

abbrev web_node : NetworkMap.Node
web_node = NetworkMap.enhance_node draw (NetworkMap.findings_by_ip [] findings) 0 web

findings_of_web : web_node.findings ≡ leak ∷ beacon ∷ []
unfolding NetworkMap.enhance_node NetworkMap.findings_by_ip sort_desc NetworkMap.lookup
findings_of_web = refl

node_findings_exact_example :
    (web_node.findings ≡ sort_desc (λ f. f.score) (of_node_key "10.0.0.7" findings))
    × All (λ f. f.score ≤ web_node.risk_score) web_node.findings
    × (web_node.has_active_alert ≡ any NetworkMap.is_active (of_node_key "10.0.0.7" findings))
node_findings_exact_example = node_findings_exact draw findings 0 web

abbrev work : List Page.Event
work =
    Page.node_clicked web_node
    ∷ Page.simulation_pressed
    ∷ Page.action_pressed 1
    ∷ Page.action_pressed 1
    ∷ Page.action_ended 0 Page.accepted
    ∷ Page.sidebar_closed
    ∷ []

response_actions_offered_example : IsSafe (Page.run Page.start work)
response_actions_offered_example = response_actions_offered work

abbrev wan_link : Link
wan_link = record {
  raw = record { edge = wan; finding_category = none; action = some "allow"; relation = none };
  is_violation = true;
  is_new = false;
}

abbrev lan_link : Link
lan_link = record wan_link {
  raw = record { edge = lan; finding_category = none; action = none; relation = none };
}

abbrev lone : NetworkMap.Node
lone = record web_node { raw = record web { id = "lone" } }

abbrev drawn : MapData
drawn = record { nodes = web_node ∷ lone ∷ []; edges = wan_link ∷ lan_link ∷ [] }

abbrev simulating : Page.Page
simulating = record {
  table = record { value = some drawn; loading = false; error = none };
  selected_node = some web_node;
  overlay_mode = Page.heat;
  simulating_path = true;
  action_submitting = false;
  action_feedback = none;
  in_flight = [];
  posts = [];
}

not_in_radius : has (blast_radius edges "web") "lone" ≡ false
unfolding has blast_radius search_from add
not_in_radius = refl

lone_is_apart : Reaches edges "web" "lone" → ⊥
lone_is_apart r = cc (((blast_radius-Reaches edges "web").0 "lone").1 r, not_in_radius)

simulation_colours_example :
    (has (Page.reachable_nodes simulating) "web" ≡ true)
    × (Page.get_node_color simulating lone ≡ "rgba(30, 41, 59, 0.5)")
    × (has (Page.reachable_nodes simulating) "router" ≡ has (Page.reachable_nodes simulating) "db")
    × (Page.get_link_color (λ t. t) simulating lan_link ≡ (
        if has (Page.reachable_nodes simulating) "db" then "#ef4444" else "rgba(51, 65, 85, 0.2)"))
unfolding NetworkMap.enhance_node
simulation_colours_example =
    simulation_colours (λ t. t) simulating drawn web_node lone 1 lan_link refl refl refl
      lone_is_apart refl
