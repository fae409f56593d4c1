-- ===== src/Assets/NetworkMap.antt =====
-- soc-frontend/src/pages/assets/NetworkMapPage.tsx: the nodes and links of the network map, and the
-- security findings that its load attaches to the nodes. A dictionary is an association list in the
-- order of insertion.
pub mod Graph
pub mod Findings
pub mod Page
use Prim.Native.Nat.{◌%◌}
use Prim.Native.String.{String}
use text.Mathlib.Text.{◌==◌ as str_eq}
use homelabs_siem_soar.Prelude.{
  ℕ, Bool, true, false, ◌&&◌, ◌==◌, Option, none, some, List, [], ◌∷◌, ◌++◌, map_from, any,
  get_elem?, leb, is_empty, text_or, if◌then◌else◌,
}
use homelabs_siem_soar.Prelude.Sort.{sort_desc}
use homelabs_siem_soar.Hooks.AsyncState.{Reply, ok, failed}
use homelabs_siem_soar.Assets.NetworkMap.Graph.{Edge}

pub data Category : Type 0 where
  rat exfiltration ddos container_abuse network_anomaly : Category

-- `recommended_action`; `no_action` is 'none'.
pub data Action : Type 0 where
  isolate_host throttle_container isolate_lan_client no_action : Action

-- `status` of a finding; `opened` is 'open'.
pub data Status : Type 0 where
  opened pending_approval actioned false_positive closed : Status

-- `SecurityFinding`, with the two fields that the load reads besides: `evidence.source_ip` and
-- `endpoint_id`. A score is a whole number.
pub record Finding : Type 0 where
  pub finding_id : String
  pub category : Category
  pub score : ℕ
  pub source_ip : Option String
  pub endpoint_id : Option String
  pub recommended_action : Action
  pub status : Status

pub data NodeType : Type 0 where
  router_host client_host external_domain external_ip container container_host generic : NodeType

pub data Segment : Type 0 where
  dmz production corporate : Segment

-- A node of the reply; `kind` is its `type`.
pub record RawNode : Type 0 where
  pub id : String
  pub label : String
  pub kind : String
  pub ip : Option String
  pub container_id : Option String

-- `EnhancedNode`.
pub record Node : Type 0 where
  pub raw : RawNode
  pub risk_score : ℕ
  pub segment : Segment
  pub is_new : Bool
  pub node_type : NodeType
  pub findings : List Finding
  pub finding_category : Option Category
  pub has_active_alert : Bool

-- An edge of the reply.
pub record RawLink : Type 0 where
  pub edge : Edge
  pub finding_category : Option Category
  pub action : Option String
  pub relation : Option String

-- `EnhancedEdge`.
pub record Link : Type 0 where
  pub raw : RawLink
  pub is_violation : Bool
  pub is_new : Bool

pub record MapData : Type 0 where
  pub nodes : List Node
  pub edges : List Link

-- `f.evidence?.source_ip || f.endpoint_id || ''`.
abbrev pub key_of : Finding → String
key_of f = text_or f.source_ip (text_or f.endpoint_id "")

abbrev pub Index : Type 0
Index = List (String × List Finding)

unfoldable pub push : String → Finding → Index → Index
push key f [] = (key, f ∷ []) ∷ []
push key f ((k, fs) ∷ index) =
    if str_eq k key then (k, fs ++ f ∷ []) ∷ index else (k, fs) ∷ push key f index

-- The `for` loop that fills `findingsByIp`.
unfoldable pub findings_by_ip : Index → List Finding → Index
unfolding push
findings_by_ip index [] = index
findings_by_ip index (f ∷ fs) =
    findings_by_ip (if is_empty (key_of f) then index else push (key_of f) f index) fs

-- `findingsByIp[key] || []`.
unfoldable pub lookup : String → Index → List Finding
lookup key [] = []
lookup key ((k, fs) ∷ index) = if str_eq k key then fs else lookup key index

node_type_of : String → NodeType
node_type_of kind =
    if str_eq kind "RouterHost"
    then router_host
    else if str_eq kind "ClientHost"
    then client_host
    else if str_eq kind "ExternalDomain"
    then external_domain
    else if str_eq kind "ExternalIP"
    then external_ip
    else if str_eq kind "Container"
    then container
    else if str_eq kind "container_host"
    then container_host
    else if str_eq kind "ContainerHost"
    then container_host
    else generic

abbrev segment_of : ℕ → Segment
segment_of i = if i % 3 == 0 then dmz else if i % 2 == 0 then production else corporate

abbrev pub risk_of : Option Finding → ℕ → ℕ
risk_of none random = random
risk_of (some f) random = f.score

abbrev category_of : Option Finding → Option Category
category_of none = none
category_of (some f) = some f.category

abbrev pub is_open : Status → Bool
is_open opened = true
is_open _ = false

abbrev pub is_active : Finding → Bool
is_active f = is_open f.status && leb 50 f.score

-- `n.ip || n.id`.
abbrev pub node_key : RawNode → String
node_key n = text_or n.ip n.id

-- The callback of `nodes.map`; `random` gives the risk of a node with no finding. The sort works on
-- the list of the index itself.
unfoldable pub enhance_node : (ℕ → ℕ) → Index → ℕ → RawNode → Node
unfolding node_type_of
enhance_node random index i n =
    let node_findings = sort_desc (λ f. f.score) (lookup (node_key n) index) in
    let top_finding = get_elem? node_findings 0 in
    record {
      raw = n;
      risk_score = risk_of top_finding (random i);
      segment = segment_of i;
      is_new = i == 4;
      node_type = node_type_of n.kind;
      findings = node_findings;
      finding_category = category_of top_finding;
      has_active_alert = any is_active node_findings;
    }

abbrev enhance_edge : ℕ → RawLink → Link
enhance_edge i e = record { raw = e; is_violation = i % 5 == 0; is_new = i == 6 }

-- The two replies: the nodes and edges of the map, and the list of findings, which may be missing. A
-- request for the findings that fails counts as none.
pub record MapBody : Type 0 where
  pub nodes : List RawNode
  pub edges : List RawLink

abbrev findings_of : Reply (Option (List Finding)) → List Finding
findings_of (ok (some fs)) = fs
findings_of (ok none) = []
findings_of (failed message) = []

unfoldable pub loaded : (ℕ → ℕ) → Reply MapBody → Reply (Option (List Finding)) → Reply MapData
unfolding findings_by_ip enhance_node
loaded random (failed message) findings = failed message
loaded random (ok body) findings =
    let index = findings_by_ip [] (findings_of findings) in
    ok (record {
      nodes = map_from 0 (enhance_node random index) body.nodes;
      edges = map_from 0 enhance_edge body.edges;
    })
